-- ===== src/Helper/Polls.antt =====
-- How `dispatch` of src/privileged_helper/helper_service.rs ends sessions and refuses requests: polls, expiry,
-- `Close` and a stop.
use procinsh.Prelude.{
  ℕ, suc, ◌≡◌, ◌≢◌, refl, ◌∙◌, Bool, true, false, if◌then◌else◌, if_both, if_false, Option, none,
  some, List, [], ◌∷◌, ok, err, ap,
}
use procinsh.Ipc.Schema.Request.{MonitorRequest}
use procinsh.Ipc.Schema.Event.{MonitorEvent}
use procinsh.Ipc.Schema.Response.{MonitorResponse}
use procinsh.Helper.Monitors.{CollectorManager, stop_collectors}
use procinsh.Helper.Service.{
  Subscription, process_session, system_session, ObservationLease, HelperIpcService, is_alive,
  release, retain, expire, stopping, unknown_session, Reply, Answers,
}
use procinsh.Helper.Dispatch.{
  Outcome, start, find_session, poll, observe_process, observe_system, unless_stopping, serve_live,
  dispatch,
}
use procinsh.Helper.Cases.{renewed, poll-cases}
use procinsh.Helper.Invariant.{IsConsistentWith, IsConsistent}
use procinsh.Helper.Lookup.{
  find_session-retain, find_session-retain_dropped, find_session-remove_session, find_session-renew,
}

retain-stopped :
    (keep : ObservationLease → Bool) (leases : List ObservationLease) (c : CollectorManager)
    → (retain keep leases c).1.monitoring.stopped ≡ c.monitoring.stopped
unfolding retain release
retain-stopped keep [] c = refl
retain-stopped keep (lease ∷ leases) c =
    let rest = retain-stopped keep leases c in
    let kept = retain keep leases c in
    if_both
      (λ (r : List ObservationLease × CollectorManager).
        r.1.monitoring.stopped ≡ c.monitoring.stopped)
      (keep lease) {x = (lease ∷ kept.0, kept.1)} {y = (kept.0, release lease.subscription kept.1)}
      rest (released lease.subscription kept.1 ∙ rest)
  where
    released :
        (kind : Subscription) (d : CollectorManager)
        → (release kind d).monitoring.stopped ≡ d.monitoring.stopped
    released process_session d = refl
    released system_session d = refl

module _ (answers : Answers) (s : HelperIpcService) (session : ℕ) (lease : ObservationLease) where
  -- A poll has been answered, and the lease renewed or the session ended.
  abbrev pub IsPolled : Outcome → Type 0
  IsPolled o =
      (event : Option MonitorEvent) × (ended : Bool) × (o.0
        ≡ ok (MonitorResponse.event event ended))
      × (find_session session o.1.sessions
          ≡ (if ended then none else some (record lease { polled = answers.handled_at })))

  poll-IsPolled :
      (live : HelperIpcService)
      → find_session session live.sessions ≡ some lease
      → IsPolled (poll answers session live)
  poll-IsPolled live e =
      poll-cases IsPolled answers live session (λ missing. absurd (cc (e, missing)))
        (λ l event found.
          (event, true, refl, find_session-remove_session session (renewed answers live session)))
        (λ l event found.
          (event, false, refl, find_session-renew session answers.handled_at live.sessions lease e))

  -- Polling a session that has not expired answers with an event; the lease is renewed, or the session
  -- is gone when the event says that it has ended. (The monitors are not stopping.)
  pub dispatch-IsPolled :
      find_session session s.sessions ≡ some lease
      → is_alive answers.expired_at lease ≡ true
      → s.collectors.monitoring.stopped ≡ false
      → IsPolled (dispatch answers (MonitorRequest.poll session) s)
  unfolding dispatch serve_live expire
  dispatch-IsPolled e alive on =
      let keep = is_alive answers.expired_at in
      let live = expire answers.expired_at s in
      let halted = record live { collectors = stop_collectors live.collectors } in
      let kept = find_session-retain session keep s.collectors s.sessions lease e alive in
      if_false IsPolled live.collectors.monitoring.stopped _
        (retain-stopped keep s.sessions s.collectors ∙ on)
        (if_both (λ (l : HelperIpcService). IsPolled (poll answers session l)) answers.stops
          (poll-IsPolled halted kept) (poll-IsPolled live kept))

  -- Polling a session whose lease has run out fails, and the session is gone. (The helper is
  -- consistent, and the monitors are not stopping.)
  pub dispatch_expired :
      IsConsistent s
      → find_session session s.sessions ≡ some lease
      → is_alive answers.expired_at lease ≡ false
      → s.collectors.monitoring.stopped ≡ false
      → ((dispatch answers (MonitorRequest.poll session) s).0 ≡ err unknown_session)
        × (find_session session (dispatch answers (MonitorRequest.poll session) s).1.sessions
            ≡ none)
  unfolding dispatch serve_live expire IsConsistentWith
  dispatch_expired h e dead on =
      let keep = is_alive answers.expired_at in
      let live = expire answers.expired_at s in
      let halted = record live { collectors = stop_collectors live.collectors } in
      let gone =
        find_session-retain_dropped session keep s.collectors s.sessions lease (suc s.next_session)
          h.0 e dead in
      if_false IsRefused live.collectors.monitoring.stopped _
        (retain-stopped keep s.sessions s.collectors ∙ on)
        (if_both (λ (l : HelperIpcService). IsRefused (poll answers session l)) answers.stops
          (refused halted gone) (refused live gone))
    where
      IsRefused : Outcome → Type 0
      IsRefused o = (o.0 ≡ err unknown_session) × (find_session session o.1.sessions ≡ none)

      refused :
          (live : HelperIpcService)
          → find_session session live.sessions ≡ none
          → IsRefused (poll answers session live)
      refused live gone =
          poll-cases IsRefused answers live session (λ missing. (refl, missing))
            (λ l event found. absurd (cc (gone, found)))
            (λ l event found. absurd (cc (gone, found)))

-- `Close` answers `Closed` and leaves no such session, also when the monitors are stopping.
pub dispatch-close :
    (answers : Answers) (s : HelperIpcService) (session : ℕ)
    → ((dispatch answers (MonitorRequest.close session) s).0 ≡ ok MonitorResponse.closed)
      × (find_session session (dispatch answers (MonitorRequest.close session) s).1.sessions ≡ none)
unfolding dispatch serve_live
dispatch-close answers s session =
    (refl, find_session-remove_session session (expire answers.expired_at s))

unless_stopping_refused :
    (answers : Answers) (s : HelperIpcService) (handler : HelperIpcService → Outcome)
    → s.collectors.monitoring.stopped ≡ true
    → unless_stopping answers s handler ≡ (err stopping, s)
unless_stopping_refused answers s handler e =
    ap
      (λ (b : Bool).
        if b
        then (err stopping, s)
        else handler
            (if answers.stops then record s { collectors = stop_collectors s.collectors } else s))
      e

reply_refused :
    (answers : Answers) (s : HelperIpcService) (reply : Reply MonitorResponse)
    → s.collectors.monitoring.stopped ≡ true
    → unless_stopping answers s (λ service. (reply, service)) ≡ (err stopping, s)
reply_refused answers s reply = unless_stopping_refused answers s (λ service. (reply, service))

serve_live_stopping :
    (answers : Answers) (request : MonitorRequest) (live : HelperIpcService)
    → live.collectors.monitoring.stopped ≡ true
    → ((session : ℕ) → request ≢ MonitorRequest.close session)
    → serve_live answers request live ≡ (err stopping, live)
unfolding serve_live
serve_live_stopping answers MonitorRequest.processes live off h = reply_refused answers live _ off
serve_live_stopping answers (MonitorRequest.process id resource) live off h =
    reply_refused answers live _ off
serve_live_stopping answers (MonitorRequest.mapped_elf id start ranges) live off h =
    reply_refused answers live _ off
serve_live_stopping answers (MonitorRequest.observe_process id) live off h =
    unless_stopping_refused answers live (observe_process answers id) off
serve_live_stopping answers MonitorRequest.observe_system live off h =
    unless_stopping_refused answers live (observe_system answers) off
serve_live_stopping answers (MonitorRequest.poll session) live off h =
    unless_stopping_refused answers live (poll answers session) off
serve_live_stopping answers (MonitorRequest.close session) live off h = absurd (h session refl)

-- When the monitors are stopping, every request but `Close` is refused, and changes nothing except
-- that expired sessions are dropped.
pub dispatch_stopping :
    (answers : Answers) (request : MonitorRequest) (s : HelperIpcService)
    → s.collectors.monitoring.stopped ≡ true
    → ((session : ℕ) → request ≢ MonitorRequest.close session)
    → dispatch answers request s ≡ (err stopping, expire answers.expired_at s)
unfolding dispatch expire
dispatch_stopping answers request s on =
    serve_live_stopping answers request (expire answers.expired_at s)
      (retain-stopped (is_alive answers.expired_at) s.sessions s.collectors ∙ on)
