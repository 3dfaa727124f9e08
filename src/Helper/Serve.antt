-- ===== src/Helper/Serve.antt =====
-- src/privileged_helper/helper_service.rs: `serve`, the loop that reads requests from the socket and
-- writes replies, and the worker of src/http_server/client.rs at the other end.
pub mod Exchange
use Prim.Native.Char.{code}
use Prim.Native.String.{String}
use procinsh.Prelude.{ℕ, ◌^◌, List, [], ◌∷◌, ◌++◌, Result, ok, err, ◌>>=◌, ◌≡◌, refl, arith, All}
use procinsh.Ipc.Codec.{limit_exceeded}
use procinsh.Ipc.Codec.Wire.{Wire}
use procinsh.Ipc.Codec.Values.{Text, string}
use procinsh.Ipc.Codec.Choices.{result}
use procinsh.Ipc.Registers.{Target}
use procinsh.Ipc.Schema.Request.{MonitorRequest, monitor_request_wire}
use procinsh.Ipc.Schema.Response.{MonitorResponse, monitor_response_wire}
use procinsh.Ipc.Transport.{Turn, Io, TransportError, io_failed, codec, send, read_timeout}
use procinsh.Helper.Service.{
  HelperIpcService, Answers, ServiceError, stopping, too_many_viewers, unknown_session,
  ids_exhausted, failed, Reply, expire,
}
use procinsh.Helper.Dispatch.{dispatch}

abbrev pub max_request : ℕ
max_request = 1024

abbrev pub max_response : ℕ
max_response = 1073741824

abbrev pub WireResponse : Type 0
WireResponse = Result Text MonitorResponse

unfoldable pub wire_response_wire : Target → Wire WireResponse
unfolding result
wire_response_wire target = result (monitor_response_wire target) string

abbrev pub codes : String → List ℕ
codes String.[] = []
codes (String.◌∷◌ c s) = code c ∷ codes s

abbrev pub message : String → Text
message s = record { bytes = codes s }

-- The text of an error, as `format!("{e:#}")` writes it.
unfoldable pub describe : ServiceError → Text
describe stopping = message "Server is stopping"
describe too_many_viewers = message "Too many viewers"
describe unknown_session = message "unknown or expired observation session"
describe ids_exhausted = message "session IDs exhausted"
describe (failed text) = record { bytes = text }

unfoldable pub wire_response : Reply MonitorResponse → WireResponse
unfolding describe
wire_response (ok response) = ok response
wire_response (err e) = err (describe e)

abbrev pub too_large : WireResponse
too_large = err (message "monitor response exceeds size limit")

-- The helper and its end of the socket: what has arrived and is not read yet, and what it has written.
pub record Connection : Type 0 where
  pub service : HelperIpcService
  pub incoming : List ℕ
  pub outgoing : List ℕ

-- What the kernel and the collectors do while one request is served; the second turns are those of the
-- reply about the size.
pub record Visit : Type 0 where
  pub answers : Answers
  pub read_deadline : ℕ
  pub reads : List Turn
  pub write_deadline : ℕ
  pub writes : List Turn
  pub error_deadline : ℕ
  pub error_writes : List Turn

-- What `libc::poll` returns.
pub data Polled : Type 0 where
  idle interrupted poll_failed : Polled
  ready : Visit → Polled

-- One turn of the loop, with the bytes that arrive in it.
pub record Wake : Type 0 where
  pub expired_at : ℕ
  pub arrived : List ℕ
  pub polled : Polled

-- The turns of the client's socket in one exchange.
pub record Client : Type 0 where
  pub write_deadline : ℕ
  pub writes : List Turn
  pub read_deadline : ℕ
  pub reads : List Turn

-- `error.is::<LimitExceeded>()`.
unfoldable pub when_too_large : {A : Type 0} → Io A → Io A → Io A
when_too_large (ok done) other = ok done
when_too_large (err (codec limit_exceeded)) other = other
when_too_large (err e) other = err e

module _ (target : Target) where
  unfoldable pub send_response : Visit → WireResponse → List ℕ → Io (List ℕ × List Turn)
  unfolding send when_too_large
  send_response visit response sent =
      when_too_large
        (send (wire_response_wire target) response max_response visit.write_deadline visit.writes
          sent)
        (send (wire_response_wire target) too_large max_response visit.error_deadline
          visit.error_writes sent)

  -- One turn of the loop with a request on the socket.
  unfoldable pub serve_request : Visit → Connection → Io Connection
  unfolding send_response read_timeout dispatch wire_response
  serve_request visit connection = do
    (request, left) ←
        read_timeout monitor_request_wire max_request visit.read_deadline visit.reads
          connection.incoming
    let served = dispatch visit.answers request connection.service
    (sent, turns) ← send_response visit (wire_response served.0) connection.outgoing
    ok (record { service = served.1; incoming = left.0; outgoing = sent })

  -- One turn of the loop: the sessions expire, then `poll` of the kernel waits for a request.
  unfoldable pub serve_turn : Wake → Connection → Io Connection
  unfolding expire serve_request
  serve_turn wake connection =
      let connection = record connection {
        service = expire wake.expired_at connection.service;
        incoming = connection.incoming ++ wake.arrived;
      } in
      elim wake.polled [
        | idle ↦ ok connection
        | interrupted ↦ ok connection
        | poll_failed ↦ err io_failed
        | ready visit ↦ serve_request visit connection
      ]

  -- The loop over a stretch of turns; only an error ends it.
  unfoldable pub serve : List Wake → Connection → Io Connection
  unfolding serve_turn
  serve [] connection = ok connection
  serve (wake ∷ wakes) connection = serve_turn wake connection >>= serve wakes

  -- The worker of the client: it writes the request and reads the response, while the helper serves one
  -- stretch of turns. The response, and the helper behind it.
  unfoldable pub exchange :
      MonitorRequest → Client → List Wake → Wake → HelperIpcService → Io (WireResponse × Connection)
  unfolding send serve serve_turn read_timeout
  exchange request client waits wake service = do
    (sent, turns) ←
        send monitor_request_wire request max_request client.write_deadline client.writes []
    idle_connection ← serve waits (record { service = service; incoming = []; outgoing = [] })
    connection ← serve_turn (record wake { arrived = sent }) idle_connection
    (response, left) ←
        read_timeout (wire_response_wire target) max_response client.read_deadline client.reads
          connection.outgoing
    ok (response, record connection { outgoing = left.0 })
