-- ===== src/Helper/Serve/Exchange.antt =====
-- src/privileged_helper/helper_service.rs and src/http_server/client.rs: a request of the client, served.
use procinsh.Prelude.{
  ℕ, ◌+◌, ◌≤◌, ◌<◌, min, ◌≡◌, refl, ◌⊎◌, inl, inr, Bool-cases, true, false, List, [], ◌∷◌, ◌++◌,
  arith, leb, All, length, if◌then◌else◌, if_both, if_split, leb→le, ok, err, ap, ◌∙◌, ◌>>=◌,
}
use procinsh.Ipc.Codec.{u32_max, to_ne_bytes, write_number}
use procinsh.Ipc.Codec.Wire.{IsWrittenAs}
use procinsh.Ipc.Codec.Laws.{blob_code}
use procinsh.Ipc.Codec.Values.{is_utf8, string, blob}
use procinsh.Ipc.Codec.Choices.{result}
use procinsh.Ipc.Codec.Combine.{wire_as}
use procinsh.Ipc.Registers.{Target}
use procinsh.Ipc.Schema.Request.{MonitorRequest, monitor_request_wire}
use procinsh.Ipc.Schema.Response.{MonitorResponse}
use procinsh.Ipc.Schema.Contexts.{response_without_contexts, response-IsWritten}
use procinsh.Ipc.Transport.{Turn}
use procinsh.Ipc.Transport.Schedules.{IsPrompt, moves}
use procinsh.Ipc.Transport.Frames.{send-frame, send-IsWrittenAs, send_too_large, read_timeout-frame}
use procinsh.Helper.Service.{HelperIpcService, Reply, expire}
use procinsh.Helper.Dispatch.{dispatch}
use procinsh.Helper.Serve.{
  WireResponse, wire_response_wire, wire_response, too_large, max_request, max_response, Visit,
  Wake, idle, interrupted, ready, Client, when_too_large, send_response, serve_request, serve_turn,
  serve, exchange,
}
use procinsh.Ipc.Transport.{send}
use mathlib.Core.List.{append-nil}

-- The turns move a frame of so many bytes before the deadline.
abbrev pub Carries : ℕ → List Turn → ℕ → Type 0
Carries deadline turns size = All (IsPrompt deadline) turns × (4 + size ≤ moves turns)

-- A turn of the loop without a request.
abbrev pub IsWaiting : Wake → Type 0
IsWaiting wake = (wake.arrived ≡ []) × ((wake.polled ≡ idle) ⊎ (wake.polled ≡ interrupted))

unfoldable pub expire_all : List Wake → HelperIpcService → HelperIpcService
expire_all [] service = service
expire_all (wake ∷ wakes) service = expire_all wakes (expire wake.expired_at service)

too_large-IsRepresentable :
    (target : Target) → (wire_response_wire target).IsRepresentable too_large
unfolding wire_response_wire result string wire_as is_utf8
too_large-IsRepresentable target = (omega arith, refl)

-- A response without the contexts of its live samples, which are not written.
unfoldable pub without_contexts : WireResponse → WireResponse
without_contexts (ok response) = ok (response_without_contexts response)
without_contexts (err error) = err error

module _ (target : Target) where
  without_contexts-IsWritten :
      (response : WireResponse)
      → IsWrittenAs (wire_response_wire target) response (without_contexts response)
  unfolding wire_response_wire without_contexts
  without_contexts-IsWritten (ok response) =
      λ i output. write_number 1 0 output >>= response-IsWritten target response i
  without_contexts-IsWritten (err error) = refl

  send_response-without_contexts :
      (visit : Visit) (response : WireResponse) (sent : List ℕ)
      → send_response target visit response sent
        ≡ send_response target visit (without_contexts response) sent
  unfolding send_response
  send_response-without_contexts visit response sent =
      let w = wire_response_wire target in
      ap
        (λ r.
          when_too_large r
            (send w too_large max_response visit.error_deadline visit.error_writes sent))
        (send-IsWrittenAs w response (without_contexts response) max_response visit.write_deadline
          visit.writes sent (without_contexts-IsWritten response))

  abbrev pub size : WireResponse → ℕ
  size response = length ((wire_response_wire target).code response)

  -- The response that reaches the client: the helper's, or the error about its size.
  unfoldable pub delivered : WireResponse → WireResponse
  delivered response = if leb (size response) max_response then response else too_large

  too_large_short : size too_large ≤ 100
  unfolding wire_response_wire result string wire_as blob to_ne_bytes
  too_large_short = omega arith

  serve_waiting :
      (waits : List Wake) (service : HelperIpcService) (incoming outgoing : List ℕ)
      → All IsWaiting waits
      → serve target waits (record { service = service; incoming = incoming; outgoing = outgoing })
        ≡ ok (record {
          service = expire_all waits service;
          incoming = incoming;
          outgoing = outgoing;
        })
  unfolding serve serve_turn expire_all
  serve_waiting [] service incoming outgoing h = refl
  serve_waiting (wake ∷ wakes) service incoming outgoing ((none_arrived, inl p), hs) =
      rw (p, none_arrived, append-nil)
        (serve_waiting wakes (expire wake.expired_at service) incoming outgoing hs)
  serve_waiting (wake ∷ wakes) service incoming outgoing ((none_arrived, inr p), hs) =
      rw (p, none_arrived, append-nil)
        (serve_waiting wakes (expire wake.expired_at service) incoming outgoing hs)

  size_fits : (n : ℕ) → leb n max_response ≡ true → n ≤ min max_response u32_max
  size_fits n h = ground arith

  size_exceeds : (n : ℕ) → leb n max_response ≡ false → min max_response u32_max < n
  size_exceeds n h = ground arith

  send_response-delivered :
      (visit : Visit) (response : WireResponse) (sent : List ℕ)
      → (wire_response_wire target).IsRepresentable response
      → Carries visit.write_deadline visit.writes (size (delivered response))
      → Carries visit.error_deadline visit.error_writes (size (delivered response))
      → (left : List Turn) × (send_response target visit response sent
          ≡ ok (sent ++ blob_code ((wire_response_wire target).code (delivered response)), left))
  unfolding send_response when_too_large delivered
  send_response-delivered visit response sent r c d =
      let w = wire_response_wire target in
      elim (Bool-cases (leb (size response) max_response)) [
        | inl fits ↦
            let (p, m) = rw fits at c in
            let (left, e) =
              send-frame w response max_response visit.write_deadline visit.writes sent r
                (size_fits (size response) fits) p m in
            (left, rw (fits, e))
        | inr long ↦
            let (p, m) = rw long at d in
            let over =
              send_too_large w response max_response visit.write_deadline visit.writes sent r
                (size_exceeds (size response) long) in
            let (left, e) =
              send-frame w too_large max_response visit.error_deadline visit.error_writes sent
                (too_large-IsRepresentable target) (omega (arith, too_large_short)) p m in
            (left, rw (long, over, e))
      ]

  delivered-IsRepresentable :
      (response : WireResponse)
      → (wire_response_wire target).IsRepresentable response
      → (wire_response_wire target).IsRepresentable (delivered response)
  unfolding delivered
  delivered-IsRepresentable response r =
      if_both (λ x. (wire_response_wire target).IsRepresentable x)
        (leb (size response) max_response) r (too_large-IsRepresentable target)

  delivered_short : (response : WireResponse) → size (delivered response) ≤ max_response
  unfolding delivered
  delivered_short response =
      if_split (λ x. size x ≤ max_response) (leb (size response) max_response)
        (λ fits. leb→le (size response) max_response fits) (λ long. omega (arith, too_large_short))

module _ (target : Target) (request : MonitorRequest) (client : Client) (waits : List Wake)
    (expired_at : ℕ) (visit : Visit) (service : HelperIpcService) where
  abbrev asked : ℕ
  asked = length (monitor_request_wire.code request)

  abbrev served : Reply MonitorResponse × HelperIpcService
  served = dispatch visit.answers request (expire expired_at (expire_all waits service))

  abbrev answered : WireResponse
  answered = delivered target (without_contexts (wire_response served.0))

  -- A request of the client that is representable and fits a request frame, served after any turns
  -- without a request, when the schedules are prompt and carry the frames: the client gets the reply
  -- that `dispatch` gives behind the expiries, without the contexts of its live samples, or the error
  -- about its size where it is above the limit; and the helper keeps the state that `dispatch` leaves.
  -- The reply without contexts is representable: numbers in range, text in UTF-8, arrays and
  -- register sets of their length, file chunks of 64 MiB at most.
  pub exchange-dispatch :
      monitor_request_wire.IsRepresentable request
      → asked ≤ max_request
      → (wire_response_wire target).IsRepresentable (without_contexts (wire_response served.0))
      → All IsWaiting waits
      → Carries client.write_deadline client.writes asked
      → Carries visit.read_deadline visit.reads asked
      → Carries visit.write_deadline visit.writes (size target answered)
      → Carries visit.error_deadline visit.error_writes (size target answered)
      → Carries client.read_deadline client.reads (size target answered)
      → exchange target request client waits
          (record { expired_at = expired_at; arrived = []; polled = ready visit })
          service
        ≡ ok (answered, record { service = served.1; incoming = []; outgoing = [] })
  unfolding exchange serve_turn serve_request
  exchange-dispatch r fits s waiting (p₁, m₁) (p₂, m₂) c d (p₃, m₃) =
      let w = wire_response_wire target in
      let reply = without_contexts (wire_response served.0) in
      let (t₁, e₁) =
        send-frame monitor_request_wire request max_request client.write_deadline client.writes [] r
          (omega (arith, fits)) p₁ m₁ in
      let e₂ = serve_waiting target waits service [] [] waiting in
      let (t₃, e₃) =
        read_timeout-frame monitor_request_wire request max_request visit.read_deadline visit.reads
          [] r (omega (arith, fits)) p₂ m₂ in
      let alike = send_response-without_contexts target visit (wire_response served.0) [] in
      let (t₄, e₄) = send_response-delivered target visit reply [] s c d in
      let (t₅, e₅) =
        read_timeout-frame w answered max_response client.read_deadline client.reads []
          (delivered-IsRepresentable target reply s) (omega (arith, delivered_short target reply))
          p₃ m₃ in
      rw (e₁, e₂, rw append-nil at e₃, alike ∙ e₄, rw append-nil at e₅)
