-- ===== src/Helper/Dispatch.antt =====
-- src/privileged_helper/helper_service.rs: `dispatch`, which serves one request.
use procinsh.Prelude.{
  ℕ, ◌+◌, ◌-◌, ◌^◌, Bool, true, false, leb, ◌==◌, if◌then◌else◌, Option, none, some, List, [], ◌∷◌,
  ok, err, ◌>>=◌,
}
use procinsh.Ipc.Identity.{ProcessId}
use procinsh.Ipc.Schema.Request.{MonitorRequest, ProcessResource}
use procinsh.Ipc.Schema.Event.{MonitorEvent, AcquiredData}
use procinsh.Ipc.Schema.Response.{MonitorResponse}
use procinsh.Helper.Monitors.{SubscribeError, CollectorManager, reserve, subscribe, stop_collectors}
use procinsh.Helper.Service.{
  Subscription, process_session, system_session, ObservationLease, HelperIpcService, release,
  expire, remove_session, ServiceError, stopping, too_many_viewers, unknown_session, ids_exhausted,
  Reply, changed, unchanged, sender_gone, snapshot, activity, lagged, empty, closed, Answers,
}

-- What `dispatch` returns, and the service behind it.
abbrev pub Outcome : Type 0
Outcome = Reply MonitorResponse × HelperIpcService

abbrev pub drop_subscription : Subscription → HelperIpcService → HelperIpcService
drop_subscription subscription service = record service {
  collectors = release subscription service.collectors;
}

-- `HashMap::insert`: what the key held before is dropped.
unfoldable pub insert_session : ObservationLease → HelperIpcService → HelperIpcService
unfolding remove_session
insert_session lease service =
    let cleared = remove_session lease.session service in
    record cleared { sessions = lease ∷ cleared.sessions }

-- `checked_add` fails behind the last id of a u64; then the subscription is dropped.
unfoldable pub start : Answers → Subscription → MonitorEvent → HelperIpcService → Outcome
unfolding release insert_session
start answers subscription initial service =
    if leb (2 ^ 64 - 1) service.next_session
    then (err ids_exhausted, drop_subscription subscription service)
    else let session = service.next_session + 1 in
      let lease : ObservationLease = record {
        session = session;
        subscription = subscription;
        polled = answers.handled_at;
      } in
      (
        ok (MonitorResponse.started session initial),
        insert_session lease (record service { next_session = session }),
      )

unfoldable pub collect_resource : Answers → ProcessId → ProcessResource → Reply AcquiredData
collect_resource answers id ProcessResource.observation = do
  value ← answers.collect_process_observation id
  ok (AcquiredData.observation value)
collect_resource answers id ProcessResource.threads = do
  value ← answers.collect_thread_observation id
  ok (AcquiredData.observation value)
collect_resource answers id ProcessResource.maps = do
  value ← answers.collect_memory_maps id
  ok (AcquiredData.maps value)
collect_resource answers id ProcessResource.environment = do
  value ← answers.read_environment id
  ok (AcquiredData.environment value)
collect_resource answers id ProcessResource.auxv = do
  value ← answers.read_auxiliary_vector id
  ok (AcquiredData.auxv value)
collect_resource answers id ProcessResource.fds = do
  value ← answers.collect_file_descriptors id
  ok (AcquiredData.fds value)

unfoldable pub process_data : Answers → ProcessId → ProcessResource → Reply MonitorResponse
unfolding collect_resource
process_data answers id resource = do
  _ ← answers.validate_process_identity id
  value ← collect_resource answers id resource
  _ ← answers.validate_again id
  ok (MonitorResponse.data_response value)

abbrev pub subscribe_error : SubscribeError → ServiceError
subscribe_error SubscribeError.stopped = stopping
subscribe_error SubscribeError.too_many_subscribers = too_many_viewers

-- A permit that `observe` fails with is dropped.
unfoldable pub observe_process : Answers → ProcessId → HelperIpcService → Outcome
unfolding start reserve release
observe_process answers id service = elim (answers.validate_process_identity id) [
  | err e ↦ (err e, service)
  | ok _ ↦ elim (reserve service.collectors.monitoring) [
    | err e ↦ (err (subscribe_error e), service)
    | ok monitor ↦
        let reserved = record service {
          collectors = record service.collectors { monitoring = monitor };
        } in
        elim (answers.observe id) [
          | err e ↦ (err e, drop_subscription process_session reserved)
          | ok initial ↦ start answers process_session (MonitorEvent.observation initial) reserved
        ]
  ]
]

unfoldable pub observe_system : Answers → HelperIpcService → Outcome
unfolding start subscribe
observe_system answers service = elim (subscribe service.collectors.system_monitor) [
  | err e ↦ (err (subscribe_error e), service)
  | ok monitor ↦
      let reserved = record service {
        collectors = record service.collectors { system_monitor = monitor };
      } in
      start answers system_session (MonitorEvent.acquired_snapshot monitor.snapshot) reserved
]

unfoldable pub find_session : ℕ → List ObservationLease → Option ObservationLease
find_session session [] = none
find_session session (lease ∷ leases) =
    let rest = find_session session leases in if lease.session == session then some lease else rest

unfoldable pub renew : ℕ → ℕ → List ObservationLease → List ObservationLease
renew session now [] = []
renew session now (lease ∷ leases) =
    let rest = renew session now leases in
    if lease.session == session then record lease { polled = now } ∷ rest else lease ∷ rest

-- The event of a poll, and whether the session has ended.
unfoldable pub poll_event :
    Answers → CollectorManager → ObservationLease → Option MonitorEvent × Bool
poll_event answers collectors lease = elim lease.subscription [
  | process_session ↦ elim (answers.watched lease.session) [
    | changed value ↦ (some (MonitorEvent.observation value), value.exited)
    | unchanged ↦ (none, false)
    | sender_gone value ↦ (some (MonitorEvent.observation value), true)
  ]
  | system_session ↦ elim (answers.received lease.session) [
    | snapshot value ↦ (some (MonitorEvent.acquired_snapshot value), false)
    | activity value ↦ (some (MonitorEvent.activity value), false)
    | lagged n ↦ (some (MonitorEvent.acquisition_gap n collectors.system_monitor.snapshot), false)
    | empty ↦ (none, false)
    | closed ↦ (none, true)
  ]
]

unfoldable pub poll : Answers → ℕ → HelperIpcService → Outcome
unfolding find_session renew poll_event remove_session
poll answers session service = elim (find_session session service.sessions) [
  | none ↦ (err unknown_session, service)
  | some lease ↦
      let polled = record service {
        sessions = renew session answers.handled_at service.sessions;
      } in
      let (event, ended) = poll_event answers service.collectors lease in
      (
        ok (MonitorResponse.event event ended),
        if ended then remove_session session polled else polled,
      )
]

-- What precedes every request but `Close`: the test of `is_stopped`.
abbrev pub unless_stopping : Answers → HelperIpcService → (HelperIpcService → Outcome) → Outcome
unless_stopping answers service handler =
    if service.collectors.monitoring.stopped
    then (err stopping, service)
    else handler (
        if answers.stops
        then record service { collectors = stop_collectors service.collectors }
        else service)

-- A request when the expired sessions are gone.
unfoldable pub serve_live : Answers → MonitorRequest → HelperIpcService → Outcome
unfolding process_data observe_process observe_system poll remove_session
serve_live answers (MonitorRequest.mapped_elf id mapping_start ranges) live =
    unless_stopping answers live (λ service. (
      answers.acquire_process_elf_ranges id mapping_start ranges
          >>= (λ found. ok (MonitorResponse.elf found)),
      service,
    ))
serve_live answers MonitorRequest.processes live = unless_stopping answers live (λ service. (
  answers.collect_processes
      >>= (λ list. ok (MonitorResponse.data_response (AcquiredData.processes list))),
  service,
))
serve_live answers (MonitorRequest.process id resource) live =
    unless_stopping answers live (λ service. (process_data answers id resource, service))
serve_live answers (MonitorRequest.observe_process id) live =
    unless_stopping answers live (observe_process answers id)
serve_live answers MonitorRequest.observe_system live =
    unless_stopping answers live (observe_system answers)
serve_live answers (MonitorRequest.poll session) live =
    unless_stopping answers live (poll answers session)
serve_live answers (MonitorRequest.close session) live =
    (ok MonitorResponse.closed, remove_session session live)

unfoldable pub dispatch : Answers → MonitorRequest → HelperIpcService → Outcome
unfolding expire serve_live
dispatch answers request service = serve_live answers request (expire answers.expired_at service)
