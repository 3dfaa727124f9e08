-- ===== src/Helper/Invariant.antt =====
-- An invariant of the sessions of src/privileged_helper/helper_service.rs and of the viewers of the two
-- monitors, and the operations on the map of sessions.
pub mod Requests
use procinsh.Prelude.{
  ℕ, suc, ◌+◌, ◌-◌, ◌^◌, ◌≤◌, ◌<◌, ◌≡◌, refl, inl, inr, ◌⊎◌, Bool, true, false, List, [], ◌∷◌, ◌==◌,
  leb, if◌then◌else◌, Option, none, some, Bool-cases, if_both, Option-cases, Result, ok, err,
  Result-cases, arith,
}
use procinsh.Ipc.Identity.{ProcessId}
use procinsh.Ipc.Schema.Request.{MonitorRequest}
use procinsh.Ipc.Schema.Event.{MonitorEvent}
use procinsh.Ipc.Schema.Response.{MonitorResponse}
use procinsh.Helper.Monitors.{
  SubscribeError, CollectorManager, ProcessMonitor, SystemMonitor, max_viewers, reserve,
  reserve_sound, subscribe_sound, subscribe, stop_collectors,
}
use procinsh.Helper.Service.{
  Subscription, process_session, system_session, ObservationLease, HelperIpcService, new_service,
  release, retain, retain_sessions, expire, remove_session, Reply, Answers,
}
use procinsh.Helper.Dispatch.{
  Outcome, drop_subscription, insert_session, start, observe_process, observe_system, find_session,
  renew, poll, poll_event, unless_stopping, serve_live, dispatch,
}
use procinsh.Helper.Counts.{
  weight, count, HasViewers, IsDescending, release-HasViewers, retain-HasViewers, count-retain_le,
  retain-IsDescending, IsDescending-below, count-renew, renew-IsDescending,
}

-- The invariant with `p` and `q` viewers that have no session yet.
unfoldable pub IsConsistentWith : ℕ → ℕ → HelperIpcService → Type 0
IsConsistentWith p q s =
    IsDescending (suc s.next_session) s.sessions
    × HasViewers s.collectors (count process_session s.sessions + p)
        (count system_session s.sessions + q)
    × (count process_session s.sessions + p ≤ max_viewers)
    × (count system_session s.sessions + q ≤ max_viewers)
    × (s.next_session ≤ 2 ^ 64 - 1)

abbrev pub IsConsistent : HelperIpcService → Type 0
IsConsistent = IsConsistentWith 0 0

module _ (p q : ℕ) (s : HelperIpcService) where
  pub retain_sessions-IsConsistentWith :
      (keep : ObservationLease → Bool)
      → IsConsistentWith p q s
      → IsConsistentWith p q (retain_sessions keep s)
  unfolding IsConsistentWith
  retain_sessions-IsConsistentWith keep (d, h, hp, hq, n) =
      let cp = count-retain_le keep process_session s.sessions s.collectors in
      let cq = count-retain_le keep system_session s.sessions s.collectors in
      (
        retain-IsDescending keep s.collectors s.sessions (suc s.next_session) d,
        retain-HasViewers keep s.sessions s.collectors p q h,
        omega arith,
        omega arith,
        n,
      )

  pub remove_session-IsConsistentWith :
      (session : ℕ) → IsConsistentWith p q s → IsConsistentWith p q (remove_session session s)
  unfolding remove_session
  remove_session-IsConsistentWith session = retain_sessions-IsConsistentWith _

  pub expire-IsConsistentWith :
      (now : ℕ) → IsConsistentWith p q s → IsConsistentWith p q (expire now s)
  unfolding expire
  expire-IsConsistentWith now = retain_sessions-IsConsistentWith _

  pub renew-IsConsistentWith :
      (session now : ℕ)
      → IsConsistentWith p q s
      → IsConsistentWith p q (record s { sessions = renew session now s.sessions })
  unfolding IsConsistentWith
  renew-IsConsistentWith session now (d, (hp, hq), bp, bq, n) =
      let ep = count-renew session now process_session s.sessions in
      let eq = count-renew session now system_session s.sessions in
      (
        renew-IsDescending session now s.sessions (suc s.next_session) d,
        (omega (arith, hp, ep), omega (arith, hq, eq)),
        omega (arith, ep),
        omega (arith, eq),
        n,
      )

module _ (s : HelperIpcService) where
  pub stop_collectors-IsConsistent :
      IsConsistent s → IsConsistent (record s { collectors = stop_collectors s.collectors })
  unfolding IsConsistentWith stop_collectors
  stop_collectors-IsConsistent h = h

  -- `s` has a viewer of `kind` that has no session yet.
  abbrev pub IsReserved : Subscription → Type 0
  IsReserved kind = IsConsistentWith (weight process_session kind) (weight system_session kind) s

  pub drop_subscription-IsConsistent :
      (kind : Subscription) → IsReserved kind → IsConsistent (drop_subscription kind s)
  unfolding IsConsistentWith
  drop_subscription-IsConsistent kind (d, (hp, hq), bp, bq, n) = (
    d,
    release-HasViewers kind s.collectors _ _ (omega (arith, hp), omega (arith, hq)),
    omega arith,
    omega arith,
    n,
  )

pub insert_session-IsConsistent :
    (lease : ObservationLease) (s : HelperIpcService)
    → lease.session ≤ s.next_session
    → IsDescending lease.session s.sessions
    → IsReserved s lease.subscription
    → IsConsistent (insert_session lease s)
unfolding IsConsistentWith IsDescending count insert_session remove_session
insert_session-IsConsistent lease s given newest h =
    let (d, (hp, hq), bp, bq, n) = remove_session-IsConsistentWith _ _ s lease.session h in
    (
      (omega arith, retain-IsDescending _ s.collectors s.sessions lease.session newest),
      (omega (arith, hp), omega (arith, hq)),
      omega arith,
      omega arith,
      n,
    )
