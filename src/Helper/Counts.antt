-- ===== src/Helper/Counts.antt =====
-- How the viewers of the monitors count the sessions of a list, when sessions are dropped or renewed.
use procinsh.Prelude.{
  ℕ, ◌+◌, ◌≤◌, ◌<◌, ◌≡◌, refl, inl, inr, Bool, true, List, [], ◌∷◌, ◌==◌, Bool-cases, All, arith,
}
use procinsh.Helper.Monitors.{CollectorManager, drop_viewer}
use procinsh.Helper.Service.{
  Subscription, process_session, system_session, ObservationLease, release, retain,
}
use procinsh.Helper.Dispatch.{renew}

abbrev pub weight : Subscription → Subscription → ℕ
weight process_session process_session = 1
weight process_session system_session = 0
weight system_session process_session = 0
weight system_session system_session = 1

unfoldable pub count : Subscription → List ObservationLease → ℕ
count kind [] = 0
count kind (lease ∷ leases) = weight kind lease.subscription + count kind leases

-- The two monitors have `p` and `q` viewers.
abbrev pub HasViewers : CollectorManager → ℕ → ℕ → Type 0
HasViewers c p q = (c.monitoring.viewers ≡ p) × (c.system_monitor.viewers ≡ q)

-- Ids fall from the front of the list to its end: no two are equal.
unfoldable pub IsDescending : ℕ → List ObservationLease → Type 0
IsDescending bound [] = Unit
IsDescending bound (lease ∷ leases) = (lease.session < bound) × IsDescending lease.session leases

drop_viewer_lem : (m n : ℕ) → m ≡ 1 + n → drop_viewer m ≡ n
unfolding drop_viewer
drop_viewer_lem m n h = ground arith

pub release-HasViewers :
    (kind : Subscription) (c : CollectorManager) (p q : ℕ)
    → HasViewers c (weight process_session kind + p) (weight system_session kind + q)
    → HasViewers (release kind c) p q
unfolding release
release-HasViewers process_session c p q (hp, hq) = (drop_viewer_lem _ p hp, omega (arith, hq))
release-HasViewers system_session c p q (hp, hq) = (omega (arith, hp), drop_viewer_lem _ q hq)

module _ (keep : ObservationLease → Bool) where
  pub retain-HasViewers :
      (leases : List ObservationLease) (c : CollectorManager) (p q : ℕ)
      → HasViewers c (count process_session leases + p) (count system_session leases + q)
      → HasViewers
          (retain keep leases c).1
          (count process_session (retain keep leases c).0 + p)
          (count system_session (retain keep leases c).0 + q)
  unfolding retain count
  retain-HasViewers [] c p q h = h
  retain-HasViewers (lease ∷ leases) c p q (hp, hq) =
      let wp = weight process_session lease.subscription in
      let wq = weight system_session lease.subscription in
      let rest = retain keep leases c in
      let (rp, rq) =
        retain-HasViewers leases c (wp + p) (wq + q) (omega (arith, hp), omega (arith, hq)) in
      elim (Bool-cases (keep lease)) [
        | inl kept ↦ rw kept (omega (arith, rp), omega (arith, rq))
        | inr dropped ↦ rw dropped (
            release-HasViewers lease.subscription rest.1 (count process_session rest.0 + p)
              (count system_session rest.0 + q) (omega (arith, rp), omega (arith, rq)))
      ]

  pub count-retain_le :
      (kind : Subscription) (leases : List ObservationLease) (c : CollectorManager)
      → count kind (retain keep leases c).0 ≤ count kind leases
  unfolding retain count
  count-retain_le kind [] c = omega arith
  count-retain_le kind (lease ∷ leases) c =
      let rest = count-retain_le kind leases c in
      elim (Bool-cases (keep lease)) [
        | inl kept ↦ rw kept (omega arith)
        | inr dropped ↦ rw dropped (omega arith)
      ]

pub IsDescending-below :
    (leases : List ObservationLease) {a b : ℕ}
    → a ≤ b
    → IsDescending a leases
    → IsDescending b leases
unfolding IsDescending
IsDescending-below [] h d = tt
IsDescending-below (lease ∷ leases) h (below, rest) = (omega arith, rest)

module _ (keep : ObservationLease → Bool) (c : CollectorManager) where
  pub retain-IsDescending :
      (leases : List ObservationLease) (bound : ℕ)
      → IsDescending bound leases
      → IsDescending bound (retain keep leases c).0
  unfolding retain IsDescending
  retain-IsDescending [] bound d = tt
  retain-IsDescending (lease ∷ leases) bound (below, d) =
      let rest = retain-IsDescending leases lease.session d in
      elim (Bool-cases (keep lease)) [
        | inl kept ↦ rw kept (below, rest)
        | inr dropped ↦ rw dropped (IsDescending-below (retain keep leases c).0 (omega arith) rest)
      ]

  -- What is kept passes the test.
  pub retain-All :
      (leases : List ObservationLease)
      → All (λ (lease : ObservationLease). keep lease ≡ true) (retain keep leases c).0
  unfolding retain
  retain-All [] = tt
  retain-All (lease ∷ leases) =
      let rest = retain-All leases in
      elim (Bool-cases (keep lease)) [
        | inl kept ↦ rw kept (kept, rest)
        | inr dropped ↦ rw dropped rest
      ]

module _ (session now : ℕ) where
  pub count-renew :
      (kind : Subscription) (leases : List ObservationLease)
      → count kind (renew session now leases) ≡ count kind leases
  unfolding renew count
  count-renew kind [] = refl
  count-renew kind (lease ∷ leases) =
      let rest = count-renew kind leases in
      elim (Bool-cases (lease.session == session)) [
        | inl same ↦ rw same (omega arith)
        | inr other ↦ rw other (omega arith)
      ]

  pub renew-IsDescending :
      (leases : List ObservationLease) (bound : ℕ)
      → IsDescending bound leases
      → IsDescending bound (renew session now leases)
  unfolding renew IsDescending
  renew-IsDescending [] bound d = tt
  renew-IsDescending (lease ∷ leases) bound (below, d) =
      let rest = renew-IsDescending leases lease.session d in
      elim (Bool-cases (lease.session == session)) [
        | inl same ↦ rw same (below, rest)
        | inr other ↦ rw other (below, rest)
      ]
