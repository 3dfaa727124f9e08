-- ===== src/Tests/Helper.antt =====
-- The helper of src/privileged_helper/helper_service.rs with one system session.
use procinsh.Prelude.{ℕ, ◌≡◌, ◌<◌, refl, true, false, [], none, some, ok, err}
use procinsh.Ipc.System.Snapshot.{SystemSnapshot}
use procinsh.Ipc.Schema.Request.{MonitorRequest}
use procinsh.Ipc.Schema.Event.{MonitorEvent}
use procinsh.Ipc.Schema.Response.{MonitorResponse}
use procinsh.Helper.Monitors.{new_collectors, stop_collectors, subscribe}
use procinsh.Helper.Service.{
  ObservationLease, HelperIpcService, new_service, system_session, retain, expire, remove_session,
  failed, stopping, unknown_session, unchanged, empty, Answers,
}
use procinsh.Helper.Dispatch.{
  insert_session, start, find_session, observe_system, serve_live, dispatch,
}
use procinsh.Helper.Invariant.{IsConsistent}
use procinsh.Helper.Runs.{Run, served, here, then_step, Run-IsConsistent}
use procinsh.Helper.Ids.{started-Run}
use procinsh.Helper.Leases.{dispatch_lease}
use procinsh.Helper.Polls.{
  IsPolled, dispatch-IsPolled, dispatch_expired, dispatch-close, dispatch_stopping,
}

abbrev pub no_snapshot : SystemSnapshot
no_snapshot = record {
  captured_at = 0;
  processes = [];
  fd_relations = [];
  rdma_ports = [];
  rdma_relations = [];
  hardware_devices = [];
  hardware_paths = [];
  device_handles = [];
  warnings = [];
  inspected_processes = 0;
  inspected_fds = 0;
  raw_owners = [];
  raw_sockets = [];
  raw_namespaces = [];
  raw_connections = [];
  raw_device_handles = [];
  raw_neighbors = none;
  raw_hardware = (record { truncated = false; texts = []; directories = []; links = [] });
  raw_hostnames = [];
}

-- Every collector fails, and the channels are quiet.
abbrev pub at : ℕ → Answers
at now = record {
  expired_at = now;
  handled_at = now;
  stops = false;
  acquire_process_elf_ranges = λ id start ranges. err (failed []);
  collect_processes = err (failed []);
  validate_process_identity = λ id. err (failed []);
  validate_again = λ id. err (failed []);
  collect_process_observation = λ id. err (failed []);
  collect_thread_observation = λ id. err (failed []);
  collect_memory_maps = λ id. err (failed []);
  read_environment = λ id. err (failed []);
  read_auxiliary_vector = λ id. err (failed []);
  collect_file_descriptors = λ id. err (failed []);
  observe = λ id. err (failed []);
  watched = λ session. unchanged;
  received = λ session. empty;
}

abbrev fresh : HelperIpcService
fresh = new_service (new_collectors no_snapshot)

abbrev observing : HelperIpcService
observing = (dispatch (at 1000) MonitorRequest.observe_system fresh).1

abbrev first_lease : ObservationLease
first_lease = record { session = 1; subscription = system_session; polled = 1000 }

observing-Run : Run fresh observing
observing-Run = then_step here (served (at 1000) MonitorRequest.observe_system fresh)

observing-IsConsistent : IsConsistent observing
observing-IsConsistent = Run-IsConsistent no_snapshot observing observing-Run

Run-IsConsistent_example : IsConsistent observing
Run-IsConsistent_example = Run-IsConsistent no_snapshot observing observing-Run

abbrev begun : MonitorEvent
begun = MonitorEvent.acquired_snapshot no_snapshot

first_started :
    (dispatch (at 1000) MonitorRequest.observe_system fresh).0
    ≡ ok (MonitorResponse.started 1 begun)
unfolding dispatch serve_live observe_system subscribe start insert_session remove_session retain
    expire new_service new_collectors
first_started = refl

second_started :
    (dispatch (at 2000) MonitorRequest.observe_system observing).0
    ≡ ok (MonitorResponse.started 2 begun)
unfolding dispatch serve_live observe_system subscribe start insert_session remove_session retain
    expire new_service new_collectors
second_started = refl

started-Run_example : 1 < 2
started-Run_example =
    started-Run (at 1000) (at 2000) MonitorRequest.observe_system MonitorRequest.observe_system
      fresh observing 1 2 begun begun first_started here second_started

first_found : find_session 1 observing.sessions ≡ some first_lease
unfolding dispatch serve_live observe_system subscribe start insert_session remove_session retain
    expire new_service new_collectors find_session
first_found = refl

dispatch_lease_example :
    find_session 1 (dispatch (at 15999) MonitorRequest.processes observing).1.sessions
    ≡ some first_lease
dispatch_lease_example =
    dispatch_lease (at 15999) MonitorRequest.processes observing 1 first_lease
      observing-IsConsistent first_found refl tt

not_stopping : observing.collectors.monitoring.stopped ≡ false
unfolding dispatch serve_live observe_system subscribe start insert_session remove_session retain
    expire new_service new_collectors
not_stopping = refl

dispatch-IsPolled_example :
    IsPolled
      (at 15999)
      observing
      1
      first_lease
      (dispatch (at 15999) (MonitorRequest.poll 1) observing)
dispatch-IsPolled_example =
    dispatch-IsPolled (at 15999) observing 1 first_lease first_found refl not_stopping

dispatch_expired_example :
    ((dispatch (at 16000) (MonitorRequest.poll 1) observing).0 ≡ err unknown_session)
    × (find_session 1 (dispatch (at 16000) (MonitorRequest.poll 1) observing).1.sessions ≡ none)
dispatch_expired_example =
    dispatch_expired (at 16000) observing 1 first_lease observing-IsConsistent first_found refl
      not_stopping

dispatch-close_example :
    ((dispatch (at 1500) (MonitorRequest.close 1) observing).0 ≡ ok MonitorResponse.closed)
    × (find_session 1 (dispatch (at 1500) (MonitorRequest.close 1) observing).1.sessions ≡ none)
dispatch-close_example = dispatch-close (at 1500) observing 1

abbrev halted : HelperIpcService
halted = record observing { collectors = stop_collectors observing.collectors }

is_halted : halted.collectors.monitoring.stopped ≡ true
unfolding stop_collectors
is_halted = refl

dispatch_stopping_example :
    dispatch (at 1500) (MonitorRequest.poll 1) halted ≡ (err stopping, expire 1500 halted)
dispatch_stopping_example =
    dispatch_stopping (at 1500) (MonitorRequest.poll 1) halted is_halted (λ session e. cc e)
