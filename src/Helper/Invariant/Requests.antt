-- ===== src/Helper/Invariant/Requests.antt =====
-- The invariant through `dispatch` of src/privileged_helper/helper_service.rs, request by request.
use procinsh.Prelude.{
  ℕ, ◌+◌, ◌-◌, ◌^◌, ◌≡◌, inl, inr, leb, if◌then◌else◌, Bool-cases, if_both, ok, arith,
}
use procinsh.Ipc.Identity.{ProcessId}
use procinsh.Ipc.Schema.Request.{MonitorRequest}
use procinsh.Ipc.Schema.Event.{MonitorEvent}
use procinsh.Ipc.Schema.Response.{MonitorResponse}
use procinsh.Helper.Monitors.{
  ProcessMonitor, SystemMonitor, reserve, reserve_sound, subscribe_sound, subscribe,
  stop_collectors,
}
use procinsh.Helper.Service.{
  Subscription, process_session, system_session, HelperIpcService, expire, Reply, Answers,
}
use procinsh.Helper.Dispatch.{
  Outcome, start, observe_process, observe_system, poll, unless_stopping, serve_live, dispatch,
}
use procinsh.Helper.Counts.{IsDescending-below}
use procinsh.Helper.Cases.{
  with_monitoring, with_system_monitor, observe_process-cases, observe_system-cases, poll-cases,
  renewed,
}
use procinsh.Helper.Invariant.{
  IsConsistentWith, IsConsistent, IsReserved, remove_session-IsConsistentWith,
  expire-IsConsistentWith, renew-IsConsistentWith, stop_collectors-IsConsistent,
  drop_subscription-IsConsistent, insert_session-IsConsistent,
}

module _ (answers : Answers) where
  start-IsConsistent :
      (kind : Subscription) (initial : MonitorEvent) (s : HelperIpcService)
      → IsReserved s kind
      → IsConsistent (start answers kind initial s).1
  unfolding start IsConsistentWith
  start-IsConsistent kind initial s h =
      let (d, v, bp, bq, n) = h in
      let next = s.next_session + 1 in
      elim (Bool-cases (leb (2 ^ 64 - 1) s.next_session)) [
        | inl exhausted ↦ rw exhausted (drop_subscription-IsConsistent s kind h)
        | inr more ↦ rw more (
            insert_session-IsConsistent
              (record { session = next; subscription = kind; polled = answers.handled_at })
              (record s { next_session = next }) (omega arith)
              (IsDescending-below s.sessions (omega arith) d)
              (IsDescending-below s.sessions (omega arith) d, v, bp, bq, ground arith))
      ]

  reserve-IsReserved :
      (s : HelperIpcService) (monitor : ProcessMonitor)
      → IsConsistent s
      → reserve s.collectors.monitoring ≡ ok monitor
      → IsReserved (with_monitoring monitor s) process_session
  unfolding IsConsistentWith
  reserve-IsReserved s monitor (d, (hp, hq), bp, bq, n) e =
      let (room, more) = reserve_sound s.collectors.monitoring monitor e in
      (d, (omega (arith, hp, more), hq), omega (arith, hp), bq, n)

  observe_process-IsConsistent :
      (id : ProcessId) (s : HelperIpcService)
      → IsConsistent s
      → IsConsistent (observe_process answers id s).1
  observe_process-IsConsistent id s h =
      observe_process-cases (λ (o : Outcome). IsConsistent o.1) answers s id (λ failure. h)
        (λ monitor failure e.
          drop_subscription-IsConsistent (with_monitoring monitor s) process_session
            (reserve-IsReserved s monitor h e))
        (λ monitor initial e.
          start-IsConsistent process_session initial (with_monitoring monitor s)
            (reserve-IsReserved s monitor h e))

  subscribe-IsReserved :
      (s : HelperIpcService) (monitor : SystemMonitor)
      → IsConsistent s
      → subscribe s.collectors.system_monitor ≡ ok monitor
      → IsReserved (with_system_monitor monitor s) system_session
  unfolding IsConsistentWith
  subscribe-IsReserved s monitor (d, (hp, hq), bp, bq, n) e =
      let (room, more) = subscribe_sound s.collectors.system_monitor monitor e in
      (d, (hp, omega (arith, hq, more)), bp, omega (arith, hq), n)

  observe_system-IsConsistent :
      (s : HelperIpcService) → IsConsistent s → IsConsistent (observe_system answers s).1
  observe_system-IsConsistent s h =
      observe_system-cases (λ (o : Outcome). IsConsistent o.1) answers s (λ failure. h)
        (λ monitor initial e.
          start-IsConsistent system_session initial (with_system_monitor monitor s)
            (subscribe-IsReserved s monitor h e))

  poll-IsConsistent :
      (session : ℕ) (s : HelperIpcService)
      → IsConsistent s
      → IsConsistent (poll answers session s).1
  poll-IsConsistent session s h =
      let r = renew-IsConsistentWith 0 0 s session answers.handled_at h in
      poll-cases (λ (o : Outcome). IsConsistent o.1) answers s session (λ e. h)
        (λ lease event e. remove_session-IsConsistentWith 0 0 (renewed answers s session) session r)
        (λ lease event e. r)

  unless_stopping-IsConsistent :
      (s : HelperIpcService) (handler : HelperIpcService → Outcome)
      → ((live : HelperIpcService) → IsConsistent live → IsConsistent (handler live).1)
      → IsConsistent s
      → IsConsistent (unless_stopping answers s handler).1
  unless_stopping-IsConsistent s handler keeps h =
      let stopped = record s { collectors = stop_collectors s.collectors } in
      if_both (λ (o : Outcome). IsConsistent o.1) s.collectors.monitoring.stopped h
        (keeps (if answers.stops then stopped else s)
          (if_both IsConsistent answers.stops (stop_collectors-IsConsistent s h) h))

  -- A request that only collects.
  reply-IsConsistent :
      (s : HelperIpcService) (reply : Reply MonitorResponse)
      → IsConsistent s
      → IsConsistent (unless_stopping answers s (λ service. (reply, service))).1
  reply-IsConsistent s reply =
      unless_stopping-IsConsistent s (λ service. (reply, service)) (λ live h. h)

  serve_live-IsConsistent :
      (request : MonitorRequest) (s : HelperIpcService)
      → IsConsistent s
      → IsConsistent (serve_live answers request s).1
  unfolding serve_live
  serve_live-IsConsistent (MonitorRequest.mapped_elf id mapping_start ranges) s =
      reply-IsConsistent s _
  serve_live-IsConsistent MonitorRequest.processes s = reply-IsConsistent s _
  serve_live-IsConsistent (MonitorRequest.process id resource) s = reply-IsConsistent s _
  serve_live-IsConsistent (MonitorRequest.observe_process id) s =
      unless_stopping-IsConsistent s (observe_process answers id) (observe_process-IsConsistent id)
  serve_live-IsConsistent MonitorRequest.observe_system s =
      unless_stopping-IsConsistent s (observe_system answers) observe_system-IsConsistent
  serve_live-IsConsistent (MonitorRequest.poll session) s =
      unless_stopping-IsConsistent s (poll answers session) (poll-IsConsistent session)
  serve_live-IsConsistent (MonitorRequest.close session) s =
      remove_session-IsConsistentWith 0 0 s session

  pub dispatch-IsConsistent :
      (request : MonitorRequest) (s : HelperIpcService)
      → IsConsistent s
      → IsConsistent (dispatch answers request s).1
  unfolding dispatch
  dispatch-IsConsistent request s h =
      serve_live-IsConsistent request (expire answers.expired_at s)
        (expire-IsConsistentWith 0 0 s answers.expired_at h)
