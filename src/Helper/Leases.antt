-- ===== src/Helper/Leases.antt =====
-- The leases of src/privileged_helper/helper_service.rs through requests that are not about them.
use procinsh.Prelude.{
  ℕ, suc, ◌+◌, ◌-◌, ◌^◌, ◌≤◌, ◌≡◌, ◌≢◌, refl, ◌∙◌, true, false, not, leb, ◌==◌, if_both, some,
  arith,
}
use procinsh.Ipc.Schema.Request.{MonitorRequest}
use procinsh.Ipc.Schema.Event.{MonitorEvent}
use procinsh.Ipc.Schema.Response.{MonitorResponse}
use procinsh.Helper.Monitors.{stop_collectors}
use procinsh.Helper.Service.{
  Subscription, process_session, system_session, ObservationLease, HelperIpcService, is_alive,
  expire, remove_session, Reply, Answers,
}
use procinsh.Helper.Dispatch.{
  Outcome, insert_session, start, find_session, poll, observe_process, observe_system,
  unless_stopping, serve_live, dispatch,
}
use procinsh.Helper.Cases.{
  with_monitoring, with_system_monitor, renewed, observe_process-cases, observe_system-cases,
  poll-cases,
}
use procinsh.Helper.Invariant.{IsConsistentWith, IsConsistent}
use procinsh.Helper.Lookup.{find_session_sound, find_session-retain, find_session-renew_other}

-- The request neither polls nor closes the session.
abbrev pub IsOther : ℕ → MonitorRequest → Type 0
IsOther session (MonitorRequest.poll n) = n ≢ session
IsOther session (MonitorRequest.close n) = n ≢ session
IsOther session MonitorRequest.processes = Unit
IsOther session (MonitorRequest.process id resource) = Unit
IsOther session (MonitorRequest.mapped_elf id start ranges) = Unit
IsOther session (MonitorRequest.observe_process id) = Unit
IsOther session MonitorRequest.observe_system = Unit

module _ (answers : Answers) (session : ℕ) (lease : ObservationLease) where
  -- The session has this lease.
  abbrev HasLease : HelperIpcService → Type 0
  HasLease s = find_session session s.sessions ≡ some lease

  remove_session-HasLease :
      (other : ℕ) (s : HelperIpcService)
      → other ≢ lease.session
      → HasLease s
      → HasLease (remove_session other s)
  unfolding remove_session
  remove_session-HasLease other s h e =
      find_session-retain session (λ x. not (x.session == other)) s.collectors s.sessions lease e
        (ground arith)

  start-HasLease :
      (kind : Subscription) (initial : MonitorEvent) (s : HelperIpcService)
      → lease.session ≡ session
      → session ≤ s.next_session
      → HasLease s
      → HasLease (start answers kind initial s).1
  unfolding start insert_session find_session
  start-HasLease kind initial s own given e =
      let differs : (s.next_session + 1 == session) ≡ false = ground arith in
      let next = record s { next_session = s.next_session + 1 } in
      if_both (λ (o : Outcome). HasLease o.1) (leb (2 ^ 64 - 1) s.next_session) e
        (rw differs (remove_session-HasLease (s.next_session + 1) next (ground arith) e))

  unless_stopping-HasLease :
      (s : HelperIpcService) (handler : HelperIpcService → Outcome)
      → ((live : HelperIpcService)
          → live.next_session ≡ s.next_session
          → HasLease live
          → HasLease (handler live).1)
      → HasLease s
      → HasLease (unless_stopping answers s handler).1
  unless_stopping-HasLease s handler keeps e =
      let halted = record s { collectors = stop_collectors s.collectors } in
      if_both (λ (o : Outcome). HasLease o.1) s.collectors.monitoring.stopped e
        (if_both (λ (live : HelperIpcService). HasLease (handler live).1) answers.stops
          (keeps halted refl e) (keeps s refl e))

  reply-HasLease :
      (s : HelperIpcService) (reply : Reply MonitorResponse)
      → HasLease s
      → HasLease (unless_stopping answers s (λ service. (reply, service))).1
  reply-HasLease s reply = unless_stopping-HasLease s (λ service. (reply, service)) (λ live n e. e)

  serve_live-HasLease :
      (request : MonitorRequest) (s : HelperIpcService)
      → IsOther session request
      → lease.session ≡ session
      → session ≤ s.next_session
      → HasLease s
      → HasLease (serve_live answers request s).1
  unfolding serve_live
  serve_live-HasLease (MonitorRequest.mapped_elf id mapping_start ranges) s other own given =
      reply-HasLease s _
  serve_live-HasLease MonitorRequest.processes s other own given = reply-HasLease s _
  serve_live-HasLease (MonitorRequest.process id resource) s other own given = reply-HasLease s _
  serve_live-HasLease (MonitorRequest.observe_process id) s other own given =
      unless_stopping-HasLease s (observe_process answers id) (λ live n e.
        observe_process-cases (λ (o : Outcome). HasLease o.1) answers live id (λ failure. e)
          (λ monitor failure granted. e)
          (λ monitor initial granted.
            start-HasLease process_session initial (with_monitoring monitor live) own
              (omega (arith, n)) e))
  serve_live-HasLease MonitorRequest.observe_system s other own given =
      unless_stopping-HasLease s (observe_system answers) (λ live n e.
        observe_system-cases (λ (o : Outcome). HasLease o.1) answers live (λ failure. e)
          (λ monitor initial granted.
            start-HasLease system_session initial (with_system_monitor monitor live) own
              (omega (arith, n)) e))
  serve_live-HasLease (MonitorRequest.poll n) s other own given =
      unless_stopping-HasLease s (poll answers n) (λ live _ e.
        let r : HasLease (renewed answers live n) =
          find_session-renew_other session answers.handled_at n live.sessions other ∙ e in
        poll-cases (λ (o : Outcome). HasLease o.1) answers live n (λ _. e)
          (λ l event _.
            remove_session-HasLease n (renewed answers live n) (λ same. other (same ∙ own)) r)
          (λ l event _. r))
  serve_live-HasLease (MonitorRequest.close n) s other own given =
      remove_session-HasLease n s (λ same. other (same ∙ own))

-- A request that neither polls nor closes a session leaves the lease of that session as it is, when
-- the helper is consistent and the lease has not expired as the request is served.
pub dispatch_lease :
    (answers : Answers) (request : MonitorRequest) (s : HelperIpcService) (session : ℕ)
    (lease : ObservationLease)
    → IsConsistent s
    → find_session session s.sessions ≡ some lease
    → is_alive answers.expired_at lease ≡ true
    → IsOther session request
    → find_session session (dispatch answers request s).1.sessions ≡ some lease
unfolding dispatch expire IsConsistentWith
dispatch_lease answers request s session lease h e alive other =
    let (own, given) = find_session_sound session s.sessions lease (suc s.next_session) e h.0 in
    serve_live-HasLease answers session lease request (expire answers.expired_at s) other own
      (omega arith)
      (find_session-retain session (is_alive answers.expired_at) s.collectors s.sessions lease e
        alive)
