-- ===== src/Ipc/Transport/Loops.antt =====
-- The two loops of src/ipc/transport.rs: whatever the fragmentation, they move the bytes in order.
use procinsh.Prelude.{
  ℕ, zero, suc, ◌-◌, ◌≤◌, min, ◌≡◌, refl, sym, ap, ◌∙◌, ◌⊎◌, Bool-cases, inl, inr, List, [], ◌∷◌,
  ◌++◌, arith, leb, length, take, drop, length-append, ok, err, bind-HasRun,
}
use procinsh.Ipc.Transport.{
  TransportError, timed_out, Event, Turn, Progress, moved, nothing, interrupted, failed, chunk,
  again, stop, non_empty, outcome, progress, prepend, read_until,
}
use mathlib.Core.List.{append_assoc}

-- What a round says of itself, for a split that keeps the equation.
pub Progress-cases :
    (p : Progress)
    → ((bytes : List ℕ) × (p ≡ chunk bytes)) ⊎ ((p ≡ again) ⊎ ((e : TransportError) × (p ≡ stop e)))
Progress-cases (chunk bytes) = inl (bytes, refl)
Progress-cases again = inr (inl refl)
Progress-cases (stop e) = inr (inr (e, refl))

-- A chunk is a prefix of the stream, not empty and no longer than what is wanted.
abbrev pub IsChunk : ℕ → List ℕ → List ℕ → Type 0
IsChunk wanted stream bytes =
    (stream ≡ bytes ++ drop (length bytes) stream) × (1 ≤ length bytes) × (length bytes ≤ wanted)

take_prefix : (n : ℕ) (xs : List ℕ) → xs ≡ take n xs ++ drop (length (take n xs)) xs
take_prefix zero xs = refl
take_prefix (suc n) [] = refl
take_prefix (suc n) (x ∷ xs) = ap (λ (t : List ℕ). x ∷ t) (take_prefix n xs)

length-take_le : (n : ℕ) (xs : List ℕ) → length (take n xs) ≤ n
length-take_le zero xs = omega arith
length-take_le (suc n) [] = omega arith
length-take_le (suc n) (x ∷ xs) = omega (arith, length-take_le n xs)

non_empty-chunk :
    (xs bytes : List ℕ) → non_empty xs ≡ chunk bytes → (xs ≡ bytes) × (1 ≤ length bytes)
unfolding non_empty
non_empty-chunk [] bytes h = cc
non_empty-chunk (x ∷ xs) bytes h = ground arith

outcome-chunk :
    (event : Event) (wanted : ℕ) (stream bytes : List ℕ)
    → outcome event wanted stream ≡ chunk bytes
    → IsChunk wanted stream bytes
unfolding outcome
outcome-chunk (moved k) wanted stream bytes h =
    let n = min (suc k) wanted in
    let (same, some_bytes) = non_empty-chunk (take n stream) bytes h in
    let short = length-take_le n stream in
    rw (← same) (take_prefix n stream, rw (← same) at some_bytes, omega (arith, short))
outcome-chunk nothing wanted stream bytes h = cc
outcome-chunk interrupted wanted stream bytes h = cc
outcome-chunk failed wanted stream bytes h = cc

pub progress-chunk :
    (deadline : ℕ) (turn : Turn) (wanted : ℕ) (stream bytes : List ℕ)
    → progress deadline turn wanted stream ≡ chunk bytes
    → IsChunk wanted stream bytes
unfolding progress
progress-chunk deadline turn wanted stream bytes h = elim (Bool-cases (leb deadline turn.now)) [
  | inl late ↦ let wrong : stop timed_out ≡ chunk bytes = rw late at h in cc wrong
  | inr early ↦ outcome-chunk turn.event wanted stream bytes (rw early at h)
]

-- What `read_until` returns is the next `wanted` bytes of the stream, in order, and it leaves the rest.
pub read_until_sound :
    (deadline : ℕ) (turns : List Turn) (wanted : ℕ) (stream bytes rest : List ℕ) (left : List Turn)
    → read_until deadline turns wanted stream ≡ ok (bytes, (rest, left))
    → (stream ≡ bytes ++ rest) × (length bytes ≡ wanted)
unfolding read_until
read_until_sound deadline turns zero stream bytes rest left h =
    let none_read : [] ≡ bytes = cc h in
    let all_left : stream ≡ rest = cc h in rw (← none_read, all_left) (refl, refl)
read_until_sound deadline [] (suc n) stream bytes rest left h = cc
read_until_sound deadline (turn ∷ turns) (suc n) stream bytes rest left h =
    elim (Progress-cases (progress deadline turn (suc n) stream)) [
      | inl (part, e) ↦
          let h' : prepend part
                (read_until deadline turns (suc n - length part) (drop (length part) stream))
              ≡ ok (bytes, (rest, left)) =
            rw (e, read_until) at h in
          let (q, e₁, e₂) =
            bind-HasRun
              (read_until deadline turns (suc n - length part) (drop (length part) stream)) _ h' in
          let (more, s) = q in
          let (whole, _, short) = progress-chunk deadline turn (suc n) stream part e in
          let (tail, len) =
            read_until_sound deadline turns (suc n - length part) (drop (length part) stream) more
              s.0 s.1 e₁ in
          let same : part ++ more ≡ bytes = cc e₂ in
          let same_rest : s.0 ≡ rest = cc e₂ in
          rw (← same, ← same_rest)
            (
              whole ∙ ap (λ (t : List ℕ). part ++ t) tail ∙ sym (append_assoc part more s.0),
              omega (arith, length-append part more, len),
            )
      | inr (inl e) ↦
          read_until_sound deadline turns (suc n) stream bytes rest left (rw (e, read_until) at h)
      | inr (inr (x, e)) ↦
          let wrong : err x ≡ ok (bytes, (rest, left)) = rw (e, read_until) at h in cc wrong
    ]
