-- ===== src/Helper/Monitors.antt =====
-- The registrations of src/privileged_helper/process/monitoring/service.rs and
-- src/privileged_helper/system/service.rs: how many viewers each monitor has, and when it refuses
-- one. The worker threads and what they collect are not modelled.
use procinsh.Prelude.{
  ℕ, ◌<◌, ◌≡◌, sym, ap, inl, inr, Bool-cases, ok-injective, arith, ◌+◌, ◌-◌, ◌^◌, Bool, true, false,
  leb, ◌==◌, if◌then◌else◌, Result, ok, err,
}
use procinsh.Ipc.System.Snapshot.{SystemSnapshot}

-- Both modules declare this type.
pub data SubscribeError : Type 0 where
  stopped too_many_subscribers : SubscribeError

pub record ProcessMonitor : Type 0 where
  pub stopped : Bool
  pub viewers : ℕ

pub record SystemMonitor : Type 0 where
  pub viewers : ℕ
  pub snapshot : SystemSnapshot
  pub stop : Bool
  pub started : Bool

pub record CollectorManager : Type 0 where
  pub system_monitor : SystemMonitor
  pub monitoring : ProcessMonitor

abbrev pub max_viewers : ℕ
max_viewers = 32

-- `*viewers -= 1` on a usize, as a release build computes it.
unfoldable pub drop_viewer : ℕ → ℕ
drop_viewer viewers = if viewers == 0 then 2 ^ 64 - 1 else viewers - 1

-- `ProcessMonitor::reserve`.
unfoldable pub reserve : ProcessMonitor → Result SubscribeError ProcessMonitor
reserve monitor =
    if monitor.stopped
    then err SubscribeError.stopped
    else if leb max_viewers monitor.viewers
    then err too_many_subscribers
    else ok (record monitor { viewers = monitor.viewers + 1 })

-- `SystemMonitor::subscribe`: the subscription's `initial` is the monitor's snapshot.
unfoldable pub subscribe : SystemMonitor → Result SubscribeError SystemMonitor
subscribe monitor =
    if monitor.stop
    then err SubscribeError.stopped
    else if leb max_viewers monitor.viewers
    then err too_many_subscribers
    else ok (record monitor { viewers = monitor.viewers + 1; started = true })

-- `CollectorManager::stop`.
unfoldable pub stop_collectors : CollectorManager → CollectorManager
stop_collectors collectors = record {
  system_monitor = record collectors.system_monitor { stop = true };
  monitoring = record collectors.monitoring { stopped = true };
}

-- A registration is granted below the limit, and adds one viewer.
pub reserve_sound :
    (m n : ProcessMonitor)
    → reserve m ≡ ok n
    → (m.viewers < max_viewers) × (n.viewers ≡ m.viewers + 1)
unfolding reserve
reserve_sound m n e = elim (Bool-cases m.stopped) [
  | inl stop ↦ absurd (cc (rw stop at e))
  | inr on ↦ elim (Bool-cases (leb max_viewers m.viewers)) [
    | inl full ↦ absurd (cc (rw (on, full) at e))
    | inr more ↦ (
      ground arith,
      sym (ap (λ (x : ProcessMonitor). x.viewers) (ok-injective (rw (on, more) at e))),
    )
  ]
]

pub subscribe_sound :
    (m n : SystemMonitor)
    → subscribe m ≡ ok n
    → (m.viewers < max_viewers) × (n.viewers ≡ m.viewers + 1)
unfolding subscribe
subscribe_sound m n e = elim (Bool-cases m.stop) [
  | inl stop ↦ absurd (cc (rw stop at e))
  | inr on ↦ elim (Bool-cases (leb max_viewers m.viewers)) [
    | inl full ↦ absurd (cc (rw (on, full) at e))
    | inr more ↦ (
      ground arith,
      sym (ap (λ (x : SystemMonitor). x.viewers) (ok-injective (rw (on, more) at e))),
    )
  ]
]

-- `CollectorManager::new`, with the empty snapshot of `SystemSnapshot::default`.
unfoldable pub new_collectors : SystemSnapshot → CollectorManager
new_collectors snapshot = record {
  system_monitor = record { viewers = 0; snapshot = snapshot; stop = false; started = false };
  monitoring = record { stopped = false; viewers = 0 };
}
