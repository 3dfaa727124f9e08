-- ===== src/Tests/Agents.antt =====
-- An agent of src/http_server/hosts: a message on its link, its handshake, and the sessions that it keeps.
use procinsh.Prelude.{
  ℕ, ◌≡◌, refl, true, false, Option, none, some, List, [], ◌∷◌, ◌++◌, take, ok, err, arith,
}
use mathlib.Core.Logic.{◌↔◌}
use procinsh.Hub.Names.{HostInfo, valid_host_name, all_bytes, is_label_byte, same_text}
use procinsh.Hub.Registry.{
  HostRegistry, new_registry, find_host, put_host, retain_hosts, prune, refusal, admit_named, admit,
  remote, remote_online, is_current,
}
use procinsh.Hub.Frames.{Formats, IsFaithful, Hello, Message, read_host_message, write_host_message}
use procinsh.Hub.Frames.Streams.{read_host_message-write_host_message}
use procinsh.Hub.Handshake.{HandshakeError, write_failed, accept_agent_handshake}
use procinsh.Hub.Handshake.Accepted.{IsAccepted, IsAdmitted, accept_agent_handshake_iff}
use procinsh.Hub.Handshake.Served.{serving, serve_agent-ends}
use procinsh.Hub.Connector.{started, event}
use procinsh.Hub.Connector.Ledger.{
  Ledger, linked, ask, settle, LedgerRun, begun, asks, settles, IsAccounted, LedgerRun-IsAccounted,
}
use procinsh.Ipc.Schema.Request.{MonitorRequest}
use procinsh.Tests.Hub.{agent_info, alone}

-- A message is a number, and its JSON a byte; gzip adds a byte in front.
abbrev gunzip_marked : ℕ → List ℕ → Option (List ℕ)
gunzip_marked n [] = none
gunzip_marked n (b ∷ json) = some (take n json)

abbrev number_of : List ℕ → Option ℕ
number_of [] = none
number_of (b ∷ bytes) = some b

abbrev numbers : Formats ℕ
numbers = record {
  to_json = λ n. some (n ∷ []);
  from_json = number_of;
  gzip = λ json. some (31 ∷ json);
  gunzip = gunzip_marked;
}

numbers-IsFaithful : IsFaithful numbers
numbers-IsFaithful = record {
  json_pos = λ n json e. ground arith;
  gzip_back = λ json packed n e. ground arith;
  gzip_pos = λ json packed e. ground arith;
}

abbrev frame : List ℕ
frame = 0 ∷ 0 ∷ 0 ∷ 2 ∷ 1 ∷ 77 ∷ []

written_frame : write_host_message numbers 77 ≡ ok frame
unfolding write_host_message
written_frame = refl

read_host_message-write_host_message_example :
    read_host_message numbers (frame ++ (9 ∷ [])) ≡ ok (77, 9 ∷ [])
read_host_message-write_host_message_example =
    read_host_message-write_host_message numbers numbers-IsFaithful 77 (77 ∷ []) refl frame (9 ∷ [])
      written_frame

-- The token is "t".
abbrev agent_hello : Hello
agent_hello = record {
  protocol = 2;
  host = agent_info.name;
  machine_id = agent_info.machine_id;
  version = agent_info.version;
  kernel = agent_info.kernel;
  arch = agent_info.arch;
  token = some (116 ∷ []);
}

abbrev same_info : HostInfo → HostInfo
same_info info = info

abbrev no_text : HandshakeError → List ℕ
no_text e = []

abbrev with_agent : HostRegistry
with_agent = (admit 5 agent_info 7 alone).1

agent-IsAdmitted : IsAdmitted same_info (some (116 ∷ [])) 5 7 agent_hello alone 1 with_agent
unfolding admit valid_host_name all_bytes is_label_byte same_text new_registry admit_named refusal
    find_host put_host prune retain_hosts
agent-IsAdmitted = (refl, refl, refl, refl)

serve_agent-ends_example :
    ((serving ℕ same_info no_text []
        (some (116 ∷ []))
        5
        7
        alone
        agent_hello
        1
        9
        (λ r. r)
        with_agent
        agent-IsAdmitted
        true).0
      ≡ ok tt)
    × (is_current agent_info.name 1
          (serving ℕ same_info no_text []
            (some (116 ∷ []))
            5
            7
            alone
            agent_hello
            1
            9
            (λ r. r)
            with_agent
            agent-IsAdmitted
            true).1
        ≡ false)
    × ((serving ℕ same_info no_text []
          (some (116 ∷ []))
          5
          7
          alone
          agent_hello
          1
          9
          (λ r. r)
          with_agent
          agent-IsAdmitted
          false).0
        ≡ err write_failed)
    × (remote agent_info.name
          (serving ℕ same_info no_text []
            (some (116 ∷ []))
            5
            7
            alone
            agent_hello
            1
            9
            (λ r. r)
            with_agent
            agent-IsAdmitted
            false).1
        ≡ remote_online 7)
serve_agent-ends_example =
    serve_agent-ends ℕ same_info no_text [] (some (116 ∷ [])) 5 7 alone agent_hello 1 9 (λ r. r)
      with_agent agent-IsAdmitted

abbrev greeted : Option (Message ℕ)
greeted = some (Message.hello agent_hello)

accept_agent_handshake_iff_example :
    ((accept_agent_handshake same_info no_text [] (some (116 ∷ [])) 5 7 true greeted alone).result
      ≡ ok (agent_info.name, 1))
    ↔ IsAccepted same_info no_text []
        (some (116 ∷ []))
        5
        7
        alone
        greeted
        (accept_agent_handshake same_info no_text [] (some (116 ∷ [])) 5 7 true greeted alone)
        agent_info.name
        1
accept_agent_handshake_iff_example =
    accept_agent_handshake_iff same_info no_text [] (some (116 ∷ [])) 5 7 alone greeted
      agent_info.name 1

-- Session 3 is started, polled, and ends with an event.
abbrev polled : Ledger
polled = settle {V = ℕ} (MonitorRequest.poll 3) (ok (event none true)) (
    ask (MonitorRequest.poll 3) (
      settle {V = ℕ} MonitorRequest.observe_system (ok (started 3 0))
        (ask MonitorRequest.observe_system linked)))

polled-LedgerRun : LedgerRun ℕ polled
polled-LedgerRun = settles (MonitorRequest.poll 3) (ok (event none true)) (
    asks (MonitorRequest.poll 3) (
      settles MonitorRequest.observe_system (ok (started 3 0))
        (asks MonitorRequest.observe_system begun)))

LedgerRun-IsAccounted_example : IsAccounted polled
LedgerRun-IsAccounted_example = LedgerRun-IsAccounted polled-LedgerRun

polled_ledger : polled ≡ record { sessions = []; opened = 3 ∷ []; asked = 3 ∷ []; ended = 3 ∷ [] }
unfolding settle ask
polled_ledger = refl
