-- ===== src/Tests/Exchange.antt =====
-- One request of src/http_server/client.rs, served by src/privileged_helper/helper_service.rs.
use procinsh.Prelude.{
  ℕ, zero, suc, ◌≤◌, Option, none, some, false, ◌≡◌, refl, arith, inl, inr, List, [], ◌∷◌, All,
  length, ok,
}
use procinsh.Ipc.Codec.{to_ne_bytes}
use procinsh.Ipc.Registers.{x86_64}
use procinsh.Ipc.Schema.Request.{MonitorRequest, monitor_request_wire}
use procinsh.Ipc.Schema.Response.{MonitorResponse, monitor_response_wire}
use procinsh.Ipc.Transport.{Turn, moved}
use procinsh.Ipc.Codec.Values.{number}
use procinsh.Prelude.Int.{pos}
use procinsh.Ipc.Codec.Values.{Text, i32, i64, bool, string, is_utf8}
use procinsh.Ipc.Codec.Combine.{◌⊗◌}
use procinsh.Ipc.Codec.Choices.{option, option_code}
use procinsh.Ipc.Codec.Lists.{vec, vec_code, items_code}
use procinsh.Ipc.Identity.{ProcessId, process_id_wire}
use procinsh.Ipc.Memory.{MappingSnapshot, mapping_snapshot_wire}
use procinsh.Ipc.Acquisition.Live.{live_sample_wire}
use procinsh.Ipc.Acquisition.Summary.{ProcessSummary, process_summary_wire}
use procinsh.Ipc.Process.Sample.{ProcessSample, process_sample_wire}
use procinsh.Ipc.Acquisition.Detail.{ProcessDetailSnapshot, process_detail_snapshot_wire}
use procinsh.Ipc.Schema.Event.{MonitorEvent, monitor_event_wire}
use procinsh.Ipc.Transport.Schedules.{IsPrompt, moves}
use procinsh.Tests.Transport.{sample, mapping, sample-IsRepresentable}
use procinsh.Helper.Monitors.{new_collectors}
use procinsh.Helper.Service.{HelperIpcService, new_service, expire}
use procinsh.Helper.Dispatch.{dispatch, serve_live}
use procinsh.Helper.Serve.{
  WireResponse, wire_response_wire, wire_response, Visit, Wake, idle, interrupted, ready, Client,
  exchange,
}
use procinsh.Ipc.Schema.Contexts.{response_without_contexts}
use procinsh.Helper.Serve.Exchange.{
  Carries, IsWaiting, without_contexts, size, delivered, expire_all, exchange-dispatch,
}
use procinsh.Tests.Helper.{no_snapshot, at}

abbrev turns : ℕ → List Turn
turns zero = []
turns (suc n) = record { now = 1; event = moved 0 } ∷ turns n

turns-IsPrompt : (n : ℕ) → All (IsPrompt 30) (turns n)
turns-IsPrompt zero = tt
turns-IsPrompt (suc n) = ((omega arith, tt), turns-IsPrompt n)

moves-turns : (n : ℕ) → moves (turns n) ≡ n
moves-turns zero = refl
moves-turns (suc n) = omega (arith, moves-turns n)

abbrev many : List Turn
many = turns 400

many-Carries : (size : ℕ) → size ≤ 396 → Carries 30 many size
many-Carries size h = (turns-IsPrompt 400, omega (arith, moves-turns 400, h))

abbrev asking : Client
asking = record { write_deadline = 30; writes = many; read_deadline = 30; reads = many }

abbrev shell : ProcessId
shell = record { pid = pos 7; start_time_ticks = 100 }

abbrev no_text : Text
no_text = record { bytes = [] }

abbrev summary : ProcessSummary
summary = record {
  identity = shell;
  parent_pid = pos 1;
  name = no_text;
  executable = none;
  command_line = none;
  uid = some 1000;
  username = none;
  euid = some 1000;
  effective_username = none;
  state = no_text;
  started_at = some 5;
  cpu_percent = none;
  rss_bytes = 4096;
  thread_count = 1;
  raw_ticks = 3;
  raw_measured_ns = 5;
}

abbrev process_sample : ProcessSample
process_sample = record {
  timestamp = 5;
  process_id = shell;
  rss_bytes = 4096;
  vms_bytes = 8192;
  minor_faults = 0;
  major_faults = 0;
  voluntary_context_switches = none;
  nonvoluntary_context_switches = none;
  io = none;
  threads = [];
  cpu = pos 3;
  nice = pos 0;
  priority = pos 20;
  ticks = 3;
  measured_at = 5;
}

-- One live sample, whose context the helper has.
abbrev detail : Option MappingSnapshot → ProcessDetailSnapshot
detail context = record {
  summary = summary;
  exited = false;
  error = none;
  process_sample = process_sample;
  maps = [];
  maps_error = none;
  maps_captured_at = none;
  rollup = none;
  live_samples = sample context ∷ [];
  mapping_snapshots = mapping ∷ [];
  sampling_error = none;
}

abbrev visit : Visit
visit = record {
  answers = record (at 1000) {
    validate_process_identity = λ id. ok tt;
    observe = λ id. ok (detail (some mapping));
  };
  read_deadline = 30;
  reads = many;
  write_deadline = 30;
  writes = many;
  error_deadline = 30;
  error_writes = many;
}

abbrev waits : List Wake
waits =
    record { expired_at = 900; arrived = []; polled = idle }
    ∷ record { expired_at = 950; arrived = []; polled = interrupted }
    ∷ []

abbrev observe_shell : MonitorRequest
observe_shell = MonitorRequest.observe_process shell

abbrev fresh : HelperIpcService
fresh = new_service (new_collectors no_snapshot)

abbrev is_started : Option MappingSnapshot → WireResponse
is_started context = ok (MonitorResponse.started 1 (MonitorEvent.observation (detail context)))

observe-IsRepresentable : monitor_request_wire.IsRepresentable observe_shell
unfolding monitor_request_wire ◌⊗◌ number i32 process_id_wire
observe-IsRepresentable = omega arith

observe-size : length (monitor_request_wire.code observe_shell) ≡ 13
unfolding monitor_request_wire ◌⊗◌ number to_ne_bytes i32 process_id_wire
observe-size = refl

summary-IsRepresentable : process_summary_wire.IsRepresentable summary
unfolding ◌⊗◌ process_summary_wire process_id_wire i32 number option string is_utf8
summary-IsRepresentable = (
  omega arith,
  (
    omega arith,
    ((tt, refl), (tt, (tt, (omega arith, (tt, (omega arith, (tt, ((tt, refl), omega arith)))))))),
  ),
)

started-IsRepresentable : (wire_response_wire x86_64).IsRepresentable (is_started none)
unfolding ◌⊗◌ wire_response_wire monitor_response_wire monitor_event_wire
    process_detail_snapshot_wire process_summary_wire process_sample_wire process_id_wire
    mapping_snapshot_wire live_sample_wire i32 i64 number option vec string is_utf8 bool
started-IsRepresentable = (
  omega arith,
  (
    summary-IsRepresentable,
    (
      omega arith,
      (
        tt,
        (omega arith, (tt, (tt, (tt, (tt, ((sample-IsRepresentable, tt), (omega arith, tt))))))),
      ),
    ),
  ),
)

started-size : size x86_64 (is_started none) ≡ 269
unfolding ◌⊗◌ wire_response_wire monitor_response_wire monitor_event_wire
    process_detail_snapshot_wire process_summary_wire process_sample_wire process_id_wire
    mapping_snapshot_wire live_sample_wire i32 i64 number option vec string bool vec_code items_code
    option_code to_ne_bytes
started-size = refl

started-delivered : delivered x86_64 (is_started none) ≡ is_started none
unfolding delivered
started-delivered = rw started-size

waits-IsWaiting : All IsWaiting waits
waits-IsWaiting = ((refl, inl refl), ((refl, inr refl), tt))

started-dispatch :
    wire_response (dispatch visit.answers observe_shell (expire 1000 (expire_all waits fresh))).0
    ≡ is_started (some mapping)
unfolding dispatch serve_live wire_response expire_all new_service new_collectors
started-dispatch = refl

-- A new session, for which the client gets the sample without the context that the helper has.
exchange-dispatch_example :
    exchange x86_64 observe_shell asking waits
      (record { expired_at = 1000; arrived = []; polled = ready visit })
      fresh
    ≡ ok (
      delivered x86_64 (is_started none),
      record {
        service = (dispatch visit.answers observe_shell (expire 1000 (expire_all waits fresh))).1;
        incoming = [];
        outgoing = [];
      },
    )
unfolding dispatch serve_live wire_response expire_all new_service new_collectors without_contexts
    response_without_contexts
exchange-dispatch_example =
    let short : size x86_64 (delivered x86_64 (is_started none)) ≤ 396 =
      rw started-delivered (omega (arith, started-size)) in
    exchange-dispatch x86_64 observe_shell asking waits 1000 visit fresh observe-IsRepresentable
      (omega (arith, observe-size)) started-IsRepresentable waits-IsWaiting
      (many-Carries _ (omega (arith, observe-size))) (many-Carries _ (omega (arith, observe-size)))
      (many-Carries _ short) (many-Carries _ short) (many-Carries _ short)
