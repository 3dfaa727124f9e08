-- ===== src/Helper/Service.antt =====
-- src/privileged_helper/helper_service.rs: the observation sessions of the helper, and what its
-- collectors answer.
-- Times are milliseconds of `Instant`; `elapsed` stops at 0, as it does there. What the collectors and
-- the channels of tokio answer to one request is a parameter, `Answers`.
use procinsh.Prelude.{ℕ, ◌-◌, Bool, not, ltb, ◌==◌, if◌then◌else◌, Option, List, [], ◌∷◌, Result}
use procinsh.Ipc.Identity.{ProcessId}
use procinsh.Ipc.Elf.{FileRange, MappedFileData}
use procinsh.Ipc.Descriptors.{FileDescriptors}
use procinsh.Ipc.Acquisition.Summary.{
  ProcessSummary, ObservationData, MemoryMaps, EnvironmentData, AuxData,
}
use procinsh.Ipc.Acquisition.Detail.{ProcessDetailSnapshot}
use procinsh.Ipc.Acquisition.Status.{SystemActivity}
use procinsh.Ipc.System.Snapshot.{SystemSnapshot}
use procinsh.Helper.Monitors.{CollectorManager, drop_viewer}

-- Which monitor a session watches; its receiver is among the `Answers`.
pub data Subscription : Type 0 where
  process_session system_session : Subscription

pub record ObservationLease : Type 0 where
  pub session : ℕ
  pub subscription : Subscription
  pub polled : ℕ

-- The map of sessions is a list, the newest first; each lease carries its key.
pub record HelperIpcService : Type 0 where
  pub collectors : CollectorManager
  pub sessions : List ObservationLease
  pub next_session : ℕ

unfoldable pub new_service : CollectorManager → HelperIpcService
new_service collectors = record { collectors = collectors; sessions = []; next_session = 0 }

abbrev pub session_lease : ℕ
session_lease = 15000

-- `Drop` of an observation permit and of a system subscription.
unfoldable pub release : Subscription → CollectorManager → CollectorManager
release process_session c = record c {
  monitoring = record c.monitoring { viewers = drop_viewer c.monitoring.viewers };
}
release system_session c = record c {
  system_monitor = record c.system_monitor { viewers = drop_viewer c.system_monitor.viewers };
}

-- `HashMap::retain`: what is not kept is dropped.
unfoldable pub retain :
    (ObservationLease → Bool)
    → List ObservationLease
    → CollectorManager
    → List ObservationLease × CollectorManager
unfolding release
retain keep [] collectors = ([], collectors)
retain keep (lease ∷ leases) collectors =
    let rest = retain keep leases collectors in
    if keep lease then (lease ∷ rest.0, rest.1) else (rest.0, release lease.subscription rest.1)

abbrev pub retain_sessions : (ObservationLease → Bool) → HelperIpcService → HelperIpcService
retain_sessions keep service =
    let kept = retain keep service.sessions service.collectors in
    record service { sessions = kept.0; collectors = kept.1 }

abbrev pub is_alive : ℕ → ObservationLease → Bool
is_alive now lease = ltb (now - lease.polled) session_lease

unfoldable pub expire : ℕ → HelperIpcService → HelperIpcService
unfolding retain
expire now service = retain_sessions (is_alive now) service

-- `HashMap::remove`; the removed session is dropped.
unfoldable pub remove_session : ℕ → HelperIpcService → HelperIpcService
unfolding retain
remove_session session service = retain_sessions (λ lease. not (lease.session == session)) service

pub data ServiceError : Type 0 where
  stopping too_many_viewers unknown_session ids_exhausted : ServiceError
  -- An error of a collector, with its message.
  failed : List ℕ → ServiceError

abbrev pub Reply : Type 0 → Type 0
Reply A = Result ServiceError A

-- `receiver.has_changed()` with the value that `borrow_and_update` then returns.
pub data Watched : Type 0 where
  changed : ProcessDetailSnapshot → Watched
  unchanged : Watched
  sender_gone : ProcessDetailSnapshot → Watched

-- `receiver.try_recv()`.
pub data Received : Type 0 where
  snapshot : SystemSnapshot → Received
  activity : SystemActivity → Received
  lagged : ℕ → Received
  empty closed : Received

-- What the rest of the helper answers while one request is served.
pub record Answers : Type 0 where
  -- `Instant::now()` in `expire`, and where a lease is made or renewed.
  pub expired_at : ℕ
  pub handled_at : ℕ
  -- Whether another thread stops the collectors behind the test of `is_stopped`.
  pub stops : Bool
  -- Its response is always `Elf`.
  pub acquire_process_elf_ranges : ProcessId → ℕ → List FileRange → Reply (Option MappedFileData)
  pub collect_processes : Reply (List ProcessSummary)
  -- The two calls of `validate_process_identity`.
  pub validate_process_identity : ProcessId → Reply Unit
  pub validate_again : ProcessId → Reply Unit
  pub collect_process_observation : ProcessId → Reply ObservationData
  pub collect_thread_observation : ProcessId → Reply ObservationData
  pub collect_memory_maps : ProcessId → Reply MemoryMaps
  pub read_environment : ProcessId → Reply EnvironmentData
  pub read_auxiliary_vector : ProcessId → Reply AuxData
  pub collect_file_descriptors : ProcessId → Reply FileDescriptors
  -- `ProcessMonitor::observe`, with the first value of the receiver.
  pub observe : ProcessId → Reply ProcessDetailSnapshot
  pub watched : ℕ → Watched
  pub received : ℕ → Received
