-- ===== src/Hub/Hosts.antt =====
-- The list that stands for the map of hosts in src/http_server/hosts/registry.rs.
use procinsh.Prelude.{
  ℕ, ◌+◌, ◌≤◌, ◌≡◌, refl, sym, ◌∙◌, ap, inl, inr, false, if◌then◌else◌, length, Option, none, some,
  List, [], ◌∷◌, All, Bool-cases, arith,
}
use procinsh.Hub.Names.{same_text, same_text_sound, same_text_refl}
use procinsh.Hub.Registry.{Remote, find_host, put_host, is_retained, retain_hosts}

unfoldable pub IsDistinct : List Remote → Type 0
unfolding find_host
IsDistinct [] = Unit
IsDistinct (host ∷ hosts) = (find_host host.info.name hosts ≡ none) × IsDistinct hosts

pub same_text_comm : (xs ys : List ℕ) → same_text xs ys ≡ false → same_text ys xs ≡ false
same_text_comm xs ys e = elim (Bool-cases (same_text ys xs)) [
  | inl same ↦
      let eq = same_text_sound ys xs same in
      absurd (cc (same_text_refl xs, e, ap (same_text xs) eq))
  | inr other ↦ other
]

module _ (name : List ℕ) where
  -- What is found behind a write.
  pub find_host-put_host :
      (new : Remote) (hosts : List Remote)
      → find_host name (put_host new hosts)
        ≡ (if same_text new.info.name name then some new else find_host name hosts)
  unfolding find_host put_host
  find_host-put_host new [] = refl
  find_host-put_host new (host ∷ hosts) =
      let rest = find_host-put_host new hosts in
      elim (Bool-cases (same_text host.info.name new.info.name)) [
        | inl same ↦
            let eq = same_text_sound host.info.name new.info.name same in
            let both = ap (λ (n : List ℕ). same_text n name) eq in
            elim (Bool-cases (same_text new.info.name name)) [
              | inl a ↦ rw (same, a) refl
              | inr a ↦ let b = both ∙ a in rw (same, a, b) refl
            ]
        | inr other ↦ elim (Bool-cases (same_text new.info.name name)) [
          | inl a ↦
              let eq = same_text_sound new.info.name name a in
              let b : same_text host.info.name name ≡ false =
                ap (same_text host.info.name) (sym eq) ∙ other in
              rw (other, a, b) (rw a at rest)
          | inr a ↦ elim (Bool-cases (same_text host.info.name name)) [
            | inl b ↦ rw (other, a, b) refl
            | inr b ↦ rw (other, a, b) (rw a at rest)
          ]
        ]
      ]

  pub find_host_sound :
      (hosts : List Remote) (host : Remote)
      → find_host name hosts ≡ some host
      → host.info.name ≡ name
  unfolding find_host
  find_host_sound [] host e = absurd (cc e)
  find_host_sound (x ∷ hosts) host e = elim (Bool-cases (same_text x.info.name name)) [
    | inl same ↦
        let found : x ≡ host = cc (rw same at e) in
        ap (λ (h : Remote). h.info.name) (sym found) ∙ same_text_sound x.info.name name same
    | inr other ↦ find_host_sound hosts host (rw other at e)
  ]

module _ {ℓ} (P : Remote → Type ℓ) where
  pub All-find_host :
      (name : List ℕ) (hosts : List Remote) (host : Remote)
      → All P hosts
      → find_host name hosts ≡ some host
      → P host
  unfolding find_host
  All-find_host name [] host h e = absurd (cc e)
  All-find_host name (x ∷ hosts) host (p, h) e = elim (Bool-cases (same_text x.info.name name)) [
    | inl same ↦ let found : x ≡ host = cc (rw same at e) in rw found at p
    | inr other ↦ All-find_host name hosts host h (rw other at e)
  ]

  pub put_host-All :
      (new : Remote) (hosts : List Remote) → P new → All P hosts → All P (put_host new hosts)
  unfolding put_host
  put_host-All new [] p h = (p, tt)
  put_host-All new (host ∷ hosts) p (q, h) =
      let rest = put_host-All new hosts p h in
      elim (Bool-cases (same_text host.info.name new.info.name)) [
        | inl same ↦ rw same (p, h)
        | inr other ↦ rw other (q, rest)
      ]

  pub retain_hosts-All :
      (now : ℕ) (hosts : List Remote) → All P hosts → All P (retain_hosts now hosts)
  unfolding retain_hosts
  retain_hosts-All now [] h = tt
  retain_hosts-All now (host ∷ hosts) (q, h) =
      let rest = retain_hosts-All now hosts h in
      elim (Bool-cases (is_retained now host)) [
        | inl kept ↦ rw kept (q, rest)
        | inr dropped ↦ rw dropped rest
      ]

-- How much a write adds to the length, by what was there.
abbrev pub added : Option Remote → ℕ
added none = 1
added (some host) = 0

pub length-put_host :
    (new : Remote) (hosts : List Remote)
    → length (put_host new hosts) ≡ (length hosts + added (find_host new.info.name hosts))
unfolding put_host find_host
length-put_host new [] = refl
length-put_host new (host ∷ hosts) =
    let rest = length-put_host new hosts in
    elim (Bool-cases (same_text host.info.name new.info.name)) [
      | inl same ↦ rw same (omega arith)
      | inr other ↦ rw other (omega (arith, rest))
    ]

pub length-retain_hosts_le :
    (now : ℕ) (hosts : List Remote) → length (retain_hosts now hosts) ≤ length hosts
unfolding retain_hosts
length-retain_hosts_le now [] = omega arith
length-retain_hosts_le now (host ∷ hosts) =
    let rest = length-retain_hosts_le now hosts in
    elim (Bool-cases (is_retained now host)) [
      | inl kept ↦ rw kept (omega arith)
      | inr dropped ↦ rw dropped (omega arith)
    ]

pub put_host-IsDistinct :
    (new : Remote) (hosts : List Remote) → IsDistinct hosts → IsDistinct (put_host new hosts)
unfolding IsDistinct put_host find_host
put_host-IsDistinct new [] d = (refl, tt)
put_host-IsDistinct new (host ∷ hosts) (missing, d) =
    let rest = put_host-IsDistinct new hosts d in
    elim (Bool-cases (same_text host.info.name new.info.name)) [
      | inl same ↦
          let eq = same_text_sound host.info.name new.info.name same in
          rw same (ap (λ (n : List ℕ). find_host n hosts) (sym eq) ∙ missing, d)
      | inr other ↦
          let differs = same_text_comm host.info.name new.info.name other in
          rw other (find_host-put_host host.info.name new hosts ∙ rw differs missing, rest)
    ]

find_host-retain_hosts :
    (name : List ℕ) (now : ℕ) (hosts : List Remote)
    → find_host name hosts ≡ none
    → find_host name (retain_hosts now hosts) ≡ none
unfolding find_host retain_hosts
find_host-retain_hosts name now [] e = refl
find_host-retain_hosts name now (host ∷ hosts) e =
    elim (Bool-cases (same_text host.info.name name)) [
      | inl same ↦ absurd (cc (rw same at e))
      | inr other ↦
          let rest = find_host-retain_hosts name now hosts (rw other at e) in
          elim (Bool-cases (is_retained now host)) [
            | inl kept ↦ rw (kept, other) rest
            | inr dropped ↦ rw dropped rest
          ]
    ]

pub retain_hosts-IsDistinct :
    (now : ℕ) (hosts : List Remote) → IsDistinct hosts → IsDistinct (retain_hosts now hosts)
unfolding IsDistinct retain_hosts
retain_hosts-IsDistinct now [] d = tt
retain_hosts-IsDistinct now (host ∷ hosts) (missing, d) =
    let rest = retain_hosts-IsDistinct now hosts d in
    elim (Bool-cases (is_retained now host)) [
      | inl kept ↦ rw kept (find_host-retain_hosts host.info.name now hosts missing, rest)
      | inr dropped ↦ rw dropped rest
    ]
