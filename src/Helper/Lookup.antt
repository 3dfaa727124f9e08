-- ===== src/Helper/Lookup.antt =====
-- `find_session` in the lists of sessions that the operations of the helper leave.
use procinsh.Prelude.{
  ℕ, ◌<◌, ◌≤◌, ◌≡◌, ◌≢◌, refl, inl, inr, Bool, true, false, not, List, [], ◌∷◌, ◌==◌, if◌then◌else◌,
  Option, none, some, Bool-cases, All, ap, ◌∙◌, arith,
}
use procinsh.Helper.Monitors.{CollectorManager}
use procinsh.Helper.Service.{ObservationLease, HelperIpcService, retain, remove_session}
use procinsh.Helper.Dispatch.{find_session, renew}
use procinsh.Helper.Counts.{IsDescending, retain-IsDescending, retain-All}

find_none :
    (session : ℕ) (leases : List ObservationLease)
    → All (λ (lease : ObservationLease). not (lease.session == session) ≡ true) leases
    → find_session session leases ≡ none
unfolding find_session
find_none session [] h = refl
find_none session (x ∷ leases) (p, h) = elim (Bool-cases (x.session == session)) [
  | inl same ↦ absurd (cc (rw same at p))
  | inr other ↦ rw other (find_none session leases h)
]

module _ (session : ℕ) where
  pub find_session_sound :
      (leases : List ObservationLease) (lease : ObservationLease) (bound : ℕ)
      → find_session session leases ≡ some lease
      → IsDescending bound leases
      → (lease.session ≡ session) × (session < bound)
  unfolding find_session IsDescending
  find_session_sound [] lease bound e d = absurd (cc e)
  find_session_sound (x ∷ leases) lease bound e (below, d) =
      elim (Bool-cases (x.session == session)) [
        | inl same ↦
            let found : some x ≡ some lease = rw same at e in
            let first : x.session ≡ lease.session = cc found in
            let eq : x.session ≡ session = ground arith in
            (omega (arith, first, eq), omega (arith, eq))
        | inr other ↦
            let (l, b) = find_session_sound leases lease x.session (rw other at e) d in
            (l, omega arith)
      ]

  pub find_session_missing :
      (leases : List ObservationLease) (bound : ℕ)
      → bound ≤ session
      → IsDescending bound leases
      → find_session session leases ≡ none
  unfolding find_session IsDescending
  find_session_missing [] bound h d = refl
  find_session_missing (x ∷ leases) bound h (below, d) =
      let other : (x.session == session) ≡ false = ground arith in
      rw other (find_session_missing leases x.session (omega arith) d)

  module _ (keep : ObservationLease → Bool) (c : CollectorManager) where
    pub find_session-retain :
        (leases : List ObservationLease) (lease : ObservationLease)
        → find_session session leases ≡ some lease
        → keep lease ≡ true
        → find_session session (retain keep leases c).0 ≡ some lease
    unfolding find_session retain
    find_session-retain [] lease e k = e
    find_session-retain (x ∷ leases) lease e k = elim (Bool-cases (x.session == session)) [
      | inl same ↦
          let found : x ≡ lease = cc (rw same at e) in
          let kept : keep x ≡ true = ap keep found ∙ k in rw (kept, same) (ap some found)
      | inr other ↦
          let rest = find_session-retain leases lease (rw other at e) k in
          elim (Bool-cases (keep x)) [
            | inl kept ↦ rw (kept, other) rest
            | inr dropped ↦ rw dropped rest
          ]
    ]

    -- Ids differ: what `retain` drops is not found again.
    pub find_session-retain_dropped :
        (leases : List ObservationLease) (lease : ObservationLease) (bound : ℕ)
        → IsDescending bound leases
        → find_session session leases ≡ some lease
        → keep lease ≡ false
        → find_session session (retain keep leases c).0 ≡ none
    unfolding find_session retain IsDescending
    find_session-retain_dropped [] lease bound d e k = absurd (cc e)
    find_session-retain_dropped (x ∷ leases) lease bound (below, d) e k =
        elim (Bool-cases (x.session == session)) [
          | inl same ↦
              let found : x ≡ lease = cc (rw same at e) in
              let dropped : keep x ≡ false = ap keep found ∙ k in
              let eq : x.session ≡ session = ground arith in
              rw dropped (
                find_session_missing (retain keep leases c).0 x.session (omega (arith, eq))
                  (retain-IsDescending keep c leases x.session d))
          | inr other ↦
              let rest = find_session-retain_dropped leases lease x.session d (rw other at e) k in
              elim (Bool-cases (keep x)) [
                | inl kept ↦ rw (kept, other) rest
                | inr dropped ↦ rw dropped rest
              ]
        ]

  pub find_session-remove_session :
      (s : HelperIpcService) → find_session session (remove_session session s).sessions ≡ none
  unfolding remove_session
  find_session-remove_session s = go s.sessions
    where
      keep : ObservationLease → Bool
      keep lease = not (lease.session == session)

      go :
          (leases : List ObservationLease)
          → find_session session (retain keep leases s.collectors).0 ≡ none
      go leases =
          find_none session (retain keep leases s.collectors).0
            (retain-All keep s.collectors leases)

  module _ (now : ℕ) where
    pub find_session-renew :
        (leases : List ObservationLease) (lease : ObservationLease)
        → find_session session leases ≡ some lease
        → find_session session (renew session now leases) ≡ some (record lease { polled = now })
    unfolding find_session renew
    find_session-renew [] lease e = absurd (cc e)
    find_session-renew (x ∷ leases) lease e = elim (Bool-cases (x.session == session)) [
      | inl same ↦
          let found : x ≡ lease = cc (rw same at e) in
          rw same (rw same (ap (λ (l : ObservationLease). some (record l { polled = now })) found))
      | inr other ↦ rw other (rw other (find_session-renew leases lease (rw other at e)))
    ]

    pub find_session-renew_other :
        (other : ℕ) (leases : List ObservationLease)
        → other ≢ session
        → find_session session (renew other now leases) ≡ find_session session leases
    unfolding find_session renew
    find_session-renew_other other [] h = refl
    find_session-renew_other other (x ∷ leases) h =
        let rest = find_session-renew_other other leases h in
        elim (Bool-cases (x.session == other)) [
          | inl same ↦
              let differs : (x.session == session) ≡ false = ground arith in
              rw same (rw differs rest)
          | inr differs ↦ rw differs (
              ap (λ (o : Option ObservationLease). if x.session == session then some x else o) rest)
        ]
