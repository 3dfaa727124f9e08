-- ===== src/Helper/Cases.antt =====
-- The ways in which a request can end: to show something of every outcome of an operation of
-- src/privileged_helper/helper_service.rs, show it of each of these.
use procinsh.Prelude.{
  ℕ, ◌≡◌, inl, inr, true, false, Option, none, some, ok, err, Bool-cases, Option-cases,
  Result-cases,
}
use procinsh.Ipc.Identity.{ProcessId}
use procinsh.Ipc.Schema.Event.{MonitorEvent}
use procinsh.Ipc.Schema.Response.{MonitorResponse}
use procinsh.Helper.Monitors.{ProcessMonitor, SystemMonitor, reserve, subscribe}
use procinsh.Helper.Service.{
  process_session, system_session, ObservationLease, HelperIpcService, remove_session, ServiceError,
  unknown_session, Answers,
}
use procinsh.Helper.Dispatch.{
  Outcome, drop_subscription, start, observe_process, observe_system, find_session, renew,
  poll_event, poll,
}

abbrev pub with_monitoring : ProcessMonitor → HelperIpcService → HelperIpcService
with_monitoring monitor s = record s { collectors = record s.collectors { monitoring = monitor } }

abbrev pub with_system_monitor : SystemMonitor → HelperIpcService → HelperIpcService
with_system_monitor monitor s = record s {
  collectors = record s.collectors { system_monitor = monitor };
}

-- The state behind a poll that finds its session.
abbrev pub renewed : Answers → HelperIpcService → ℕ → HelperIpcService
renewed answers s session = record s { sessions = renew session answers.handled_at s.sessions }

module _ {ℓ} (P : Outcome → Type ℓ) (answers : Answers) (s : HelperIpcService) where
  pub observe_process-cases :
      (id : ProcessId)
      → ((failure : ServiceError) → P (err failure, s))
      → ((monitor : ProcessMonitor) (failure : ServiceError)
          → reserve s.collectors.monitoring ≡ ok monitor
          → P (err failure, drop_subscription process_session (with_monitoring monitor s)))
      → ((monitor : ProcessMonitor) (initial : MonitorEvent)
          → reserve s.collectors.monitoring ≡ ok monitor
          → P (start answers process_session initial (with_monitoring monitor s)))
      → P (observe_process answers id s)
  unfolding observe_process
  observe_process-cases id refused abandoned begun =
      elim (Result-cases (answers.validate_process_identity id)) [
        | inl (failure, e) ↦ rw (observe_process, e) (refused failure)
        | inr (_, valid) ↦ elim (Result-cases (reserve s.collectors.monitoring)) [
          | inl (failure, e) ↦ rw (observe_process, valid, e) (refused _)
          | inr (monitor, granted) ↦ elim (Result-cases (answers.observe id)) [
            | inl (failure, e) ↦
                rw (observe_process, valid, granted, e) (abandoned monitor failure granted)
            | inr (initial, e) ↦
                rw (observe_process, valid, granted, e)
                  (begun monitor (MonitorEvent.observation initial) granted)
          ]
        ]
      ]

  pub observe_system-cases :
      ((failure : ServiceError) → P (err failure, s))
      → ((monitor : SystemMonitor) (initial : MonitorEvent)
          → subscribe s.collectors.system_monitor ≡ ok monitor
          → P (start answers system_session initial (with_system_monitor monitor s)))
      → P (observe_system answers s)
  unfolding observe_system
  observe_system-cases refused begun = elim (Result-cases (subscribe s.collectors.system_monitor)) [
    | inl (failure, e) ↦ rw (observe_system, e) (refused _)
    | inr (monitor, granted) ↦
        rw (observe_system, granted)
          (begun monitor (MonitorEvent.acquired_snapshot monitor.snapshot) granted)
  ]

  pub poll-cases :
      (session : ℕ)
      → (find_session session s.sessions ≡ none → P (err unknown_session, s))
      → ((lease : ObservationLease) (event : Option MonitorEvent)
          → find_session session s.sessions ≡ some lease
          → P (
            ok (MonitorResponse.event event true),
            remove_session session (renewed answers s session),
          ))
      → ((lease : ObservationLease) (event : Option MonitorEvent)
          → find_session session s.sessions ≡ some lease
          → P (ok (MonitorResponse.event event false), renewed answers s session))
      → P (poll answers session s)
  unfolding poll
  poll-cases session missing ended live = elim (Option-cases (find_session session s.sessions)) [
    | inl e ↦ rw (poll, e) (missing e)
    | inr (lease, e) ↦
        let event = (poll_event answers s.collectors lease).0 in
        elim (Bool-cases (poll_event answers s.collectors lease).1) [
          | inl over ↦ rw (poll, e, over) (ended lease event e)
          | inr on ↦ rw (poll, e, on) (live lease event e)
        ]
  ]
