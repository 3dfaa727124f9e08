-- ===== src/Helper/Ids.antt =====
-- The session ids that src/privileged_helper/helper_service.rs gives out.
use procinsh.Prelude.{
  ℕ, ◌+◌, ◌^◌, ◌<◌, ◌≤◌, ◌≡◌, ◌≢◌, ◌-◌, sym, leb, if_both, ok, bind-HasRun, arith,
}
use procinsh.Ipc.Identity.{ProcessId}
use procinsh.Ipc.Schema.Request.{MonitorRequest, ProcessResource}
use procinsh.Ipc.Schema.Event.{MonitorEvent}
use procinsh.Ipc.Schema.Response.{MonitorResponse}
use procinsh.Helper.Monitors.{stop_collectors}
use procinsh.Helper.Service.{
  Subscription, process_session, system_session, HelperIpcService, expire, remove_session, Reply,
  Answers,
}
use procinsh.Helper.Dispatch.{
  Outcome, insert_session, start, process_data, collect_resource, observe_process, observe_system,
  poll, unless_stopping, serve_live, dispatch,
}
use procinsh.Helper.Cases.{
  with_monitoring, with_system_monitor, observe_process-cases, observe_system-cases, poll-cases,
}
use procinsh.Helper.Runs.{Step, served, idle, stopped, published, Run, here, then_step}

-- The counter does not fall, and a session that starts takes its next value.
abbrev IsNumbered : ℕ → Outcome → Type 0
IsNumbered last o =
    (last ≤ o.1.next_session)
    × ((session : ℕ) (initial : MonitorEvent)
        → o.0 ≡ ok (MonitorResponse.started session initial)
        → (session ≡ o.1.next_session) × (last < session))

abbrev IsQuiet : Reply MonitorResponse → Type 0
IsQuiet reply =
    (session : ℕ) (initial : MonitorEvent) → reply ≢ ok (MonitorResponse.started session initial)

process_data-IsQuiet :
    (answers : Answers) (id : ProcessId) (resource : ProcessResource)
    → IsQuiet (process_data answers id resource)
unfolding process_data
process_data-IsQuiet answers id resource session initial e =
    let (_, e₁, f₁) = bind-HasRun (answers.validate_process_identity id) _ e in
    let (value, e₂, f₂) = bind-HasRun (collect_resource answers id resource) _ f₁ in
    let (_, e₃, f₃) = bind-HasRun (answers.validate_again id) _ f₂ in cc f₃

module _ (answers : Answers) where
  start-IsNumbered :
      (kind : Subscription) (initial : MonitorEvent) (s : HelperIpcService)
      → IsNumbered s.next_session (start answers kind initial s)
  unfolding start insert_session remove_session
  start-IsNumbered kind initial s =
      if_both (IsNumbered s.next_session) (leb (2 ^ 64 - 1) s.next_session)
        (omega arith, λ session i e. absurd (cc e))
        (
          omega arith,
          λ session i e.
              let same : s.next_session + 1 ≡ session = cc e in (sym same, omega (arith, same)),
        )

  observe_process-IsNumbered :
      (id : ProcessId) (s : HelperIpcService)
      → IsNumbered s.next_session (observe_process answers id s)
  observe_process-IsNumbered id s =
      observe_process-cases (IsNumbered s.next_session) answers s id
        (λ failure. (omega arith, λ session i f. absurd (cc f)))
        (λ monitor failure e. (omega arith, λ session i f. absurd (cc f)))
        (λ monitor initial e. start-IsNumbered process_session initial (with_monitoring monitor s))

  observe_system-IsNumbered :
      (s : HelperIpcService) → IsNumbered s.next_session (observe_system answers s)
  observe_system-IsNumbered s =
      observe_system-cases (IsNumbered s.next_session) answers s
        (λ failure. (omega arith, λ session i f. absurd (cc f)))
        (λ monitor initial e.
          start-IsNumbered system_session initial (with_system_monitor monitor s))

  poll-IsNumbered :
      (session : ℕ) (s : HelperIpcService) → IsNumbered s.next_session (poll answers session s)
  unfolding remove_session
  poll-IsNumbered session s =
      poll-cases (IsNumbered s.next_session) answers s session
        (λ e. (omega arith, λ n i f. absurd (cc f)))
        (λ lease event e. (omega arith, λ n i f. absurd (cc f)))
        (λ lease event e. (omega arith, λ n i f. absurd (cc f)))

  unless_stopping-IsNumbered :
      (s : HelperIpcService) (handler : HelperIpcService → Outcome)
      → ((live : HelperIpcService) → IsNumbered live.next_session (handler live))
      → IsNumbered s.next_session (unless_stopping answers s handler)
  unless_stopping-IsNumbered s handler h =
      let halted = record s { collectors = stop_collectors s.collectors } in
      if_both (IsNumbered s.next_session) s.collectors.monitoring.stopped
        (omega arith, λ session i e. absurd (cc e))
        (if_both (λ (live : HelperIpcService). IsNumbered s.next_session (handler live))
          answers.stops (h halted) (h s))

  reply-IsNumbered :
      (s : HelperIpcService) (reply : Reply MonitorResponse)
      → IsQuiet reply
      → IsNumbered s.next_session (unless_stopping answers s (λ service. (reply, service)))
  reply-IsNumbered s reply quiet =
      unless_stopping-IsNumbered s (λ service. (reply, service))
        (λ live. (omega arith, λ session i e. absurd (quiet session i e)))

  serve_live-IsNumbered :
      (request : MonitorRequest) (s : HelperIpcService)
      → IsNumbered s.next_session (serve_live answers request s)
  unfolding serve_live remove_session
  serve_live-IsNumbered (MonitorRequest.mapped_elf id mapping_start ranges) s =
      reply-IsNumbered s _ (λ session i e.
        let (found, e₁, e₂) =
          bind-HasRun (answers.acquire_process_elf_ranges id mapping_start ranges) _ e in
        cc e₂)
  serve_live-IsNumbered MonitorRequest.processes s =
      reply-IsNumbered s _
        (λ session i e. let (list, e₁, e₂) = bind-HasRun answers.collect_processes _ e in cc e₂)
  serve_live-IsNumbered (MonitorRequest.process id resource) s =
      reply-IsNumbered s _ (process_data-IsQuiet answers id resource)
  serve_live-IsNumbered (MonitorRequest.observe_process id) s =
      unless_stopping-IsNumbered s (observe_process answers id) (observe_process-IsNumbered id)
  serve_live-IsNumbered MonitorRequest.observe_system s =
      unless_stopping-IsNumbered s (observe_system answers) observe_system-IsNumbered
  serve_live-IsNumbered (MonitorRequest.poll session) s =
      unless_stopping-IsNumbered s (poll answers session) (poll-IsNumbered session)
  serve_live-IsNumbered (MonitorRequest.close session) s = (omega arith, λ n i e. absurd (cc e))

  dispatch-IsNumbered :
      (request : MonitorRequest) (s : HelperIpcService)
      → IsNumbered s.next_session (dispatch answers request s)
  unfolding dispatch expire
  dispatch-IsNumbered request s = serve_live-IsNumbered request (expire answers.expired_at s)

Step-next_session : {s t : HelperIpcService} → Step s t → s.next_session ≤ t.next_session
unfolding expire
Step-next_session (served answers request s) = (dispatch-IsNumbered answers request s).0
Step-next_session (idle now s) = omega arith
Step-next_session (stopped s) = omega arith
Step-next_session (published snapshot s) = omega arith

Run-next_session : {s t : HelperIpcService} → Run s t → s.next_session ≤ t.next_session
Run-next_session here = omega arith
Run-next_session (then_step run step) =
    let before = Run-next_session run in let after = Step-next_session step in omega arith

-- A session that starts never gets the id of one that started before it, whatever happened between
-- the two requests.
pub started-Run :
    (answers later : Answers) (request next : MonitorRequest) (s t : HelperIpcService)
    (first second : ℕ) (initial event : MonitorEvent)
    → (dispatch answers request s).0 ≡ ok (MonitorResponse.started first initial)
    → Run (dispatch answers request s).1 t
    → (dispatch later next t).0 ≡ ok (MonitorResponse.started second event)
    → first < second
started-Run answers later request next s t first second initial event e run f =
    let (same, above) = (dispatch-IsNumbered answers request s).1 first initial e in
    let (last, more) = (dispatch-IsNumbered later next t).1 second event f in
    let grown = Run-next_session run in omega (arith, same)
