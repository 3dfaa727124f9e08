-- ===== src/Helper/Runs.antt =====
-- What the helper of src/privileged_helper/helper_service.rs can become: requests, expiry while it
-- waits for input, a stop, and new snapshots of the system worker, in any order.
use procinsh.Prelude.{ℕ, refl, arith}
use procinsh.Ipc.System.Snapshot.{SystemSnapshot}
use procinsh.Ipc.Schema.Request.{MonitorRequest}
use procinsh.Helper.Monitors.{stop_collectors, new_collectors}
use procinsh.Helper.Service.{HelperIpcService, new_service, expire, Answers}
use procinsh.Helper.Dispatch.{dispatch}
use procinsh.Helper.Invariant.{
  IsConsistentWith, IsConsistent, expire-IsConsistentWith, stop_collectors-IsConsistent,
}
use procinsh.Helper.Invariant.Requests.{dispatch-IsConsistent}
use procinsh.Helper.Counts.{count, IsDescending}

-- The system worker stores a snapshot.
abbrev pub publish : SystemSnapshot → HelperIpcService → HelperIpcService
publish snapshot s = record s {
  collectors = record s.collectors {
    system_monitor = record s.collectors.system_monitor { snapshot = snapshot };
  };
}

pub data Step : HelperIpcService → HelperIpcService → Type 0 where
  served :
      (answers : Answers) (request : MonitorRequest) (s : HelperIpcService)
      → Step s (dispatch answers request s).1
  idle : (now : ℕ) (s : HelperIpcService) → Step s (expire now s)
  stopped : (s : HelperIpcService) → Step s (record s { collectors = stop_collectors s.collectors })
  published : (snapshot : SystemSnapshot) (s : HelperIpcService) → Step s (publish snapshot s)

pub data Run (s : HelperIpcService) : HelperIpcService → Type 0 where
  here : Run s s
  then_step : {t u : HelperIpcService} → Run s t → Step t u → Run s u

Step-IsConsistent : {s t : HelperIpcService} → Step s t → IsConsistent s → IsConsistent t
unfolding IsConsistentWith
Step-IsConsistent (served answers request s) h = dispatch-IsConsistent answers request s h
Step-IsConsistent (idle now s) h = expire-IsConsistentWith 0 0 s now h
Step-IsConsistent (stopped s) h = stop_collectors-IsConsistent s h
Step-IsConsistent (published snapshot s) h = h

-- In every state that a new helper can reach, session ids differ and none is above `next_session`,
-- and the viewers of each monitor are exactly its sessions, 32 at most.
pub Run-IsConsistent :
    (snapshot : SystemSnapshot) (s : HelperIpcService)
    → Run (new_service (new_collectors snapshot)) s
    → IsConsistent s
unfolding new_service new_collectors IsConsistentWith IsDescending count
Run-IsConsistent snapshot s here = (tt, (refl, refl), omega arith, omega arith, omega arith)
Run-IsConsistent snapshot s (then_step run step) =
    Step-IsConsistent step (Run-IsConsistent snapshot _ run)
