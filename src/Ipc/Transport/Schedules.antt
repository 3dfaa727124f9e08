-- ===== src/Ipc/Transport/Schedules.antt =====
-- Schedules under which the loops of src/ipc/transport.rs end: every turn is before the deadline and
-- moves bytes or is interrupted, and as many turns move bytes as there are bytes.
use procinsh.Prelude.{
  ℕ, zero, suc, ◌+◌, ◌-◌, ◌≤◌, ◌<◌, min, ◌≡◌, refl, sym, ap, ◌∙◌, ◌⊎◌, inl, inr, false, List, [],
  ◌∷◌, ◌++◌, arith, leb, All, length, take, drop, length-append, length-drop, ok,
}
use procinsh.Ipc.Transport.{
  Event, Turn, moved, nothing, interrupted, failed, chunk, again, non_empty, outcome, progress,
  read_until, write_until,
}
use procinsh.Ipc.Transport.Loops.{progress-chunk, read_until_sound}
use mathlib.Core.List.{append_assoc, append-nil}

abbrev pub moves_of : Event → ℕ
moves_of (moved k) = 1
moves_of _ = 0

abbrev pub moves : List Turn → ℕ
moves [] = 0
moves (turn ∷ turns) = moves_of turn.event + moves turns

abbrev pub IsLive : Event → Type 0
IsLive (moved k) = Unit
IsLive interrupted = Unit
IsLive _ = ⊥

abbrev pub IsPrompt : ℕ → Turn → Type 0
IsPrompt deadline turn = (turn.now < deadline) × IsLive turn.event

-- A prompt turn moves the next bytes, or says to try again.
module _ (deadline : ℕ) (turn : Turn) (wanted : ℕ) (stream : List ℕ) where
  abbrev Advances : Type 0
  Advances =
      ((bytes : List ℕ) × (progress deadline turn wanted stream ≡ chunk bytes)
        × (moves_of turn.event ≡ 1))
      ⊎ ((progress deadline turn wanted stream ≡ again) × (moves_of turn.event ≡ 0))

non_empty-pos : (xs : List ℕ) → 1 ≤ length xs → non_empty xs ≡ chunk xs
unfolding non_empty
non_empty-pos [] h = absurd (omega arith)
non_empty-pos (x ∷ xs) h = refl

take-pos : (n : ℕ) (xs : List ℕ) → 1 ≤ n → 1 ≤ length xs → 1 ≤ length (take n xs)
take-pos zero xs h k = absurd (omega arith)
take-pos (suc n) [] h k = absurd (omega arith)
take-pos (suc n) (x ∷ xs) h k = omega arith

progress-advances :
    (deadline : ℕ) (turn : Turn) (wanted : ℕ) (stream : List ℕ)
    → IsPrompt deadline turn
    → 1 ≤ wanted
    → 1 ≤ length stream
    → Advances deadline turn wanted stream
unfolding progress
progress-advances deadline turn wanted stream (early, live) w s = by_event turn.event refl live
  where
    in_time : leb deadline turn.now ≡ false
    in_time = ground arith

    by_event : (e : Event) → turn.event ≡ e → IsLive e → Advances deadline turn wanted stream
    by_event (moved k) same l =
        let n = min (suc k) wanted in
        let some_bytes = take-pos n stream (omega arith) s in
        inl (
          take n stream,
          rw (in_time, same) (unfold outcome in non_empty-pos (take n stream) some_bytes),
          rw same,
        )
    by_event interrupted same l = inr (rw (in_time, same) (unfold outcome in refl), rw same)
    by_event nothing same l = absurd l
    by_event failed same l = absurd l

-- Turns that are left over, and are enough for what comes after.
abbrev pub Leaves : ℕ → List Turn → ℕ → List Turn → Type 0
Leaves deadline turns used left = All (IsPrompt deadline) left × (moves turns ≤ moves left + used)

-- `read_until` ends, and has read what was wanted, under every such schedule.
read_until-ends :
    (deadline : ℕ) (turns : List Turn) (wanted : ℕ) (stream : List ℕ)
    → All (IsPrompt deadline) turns
    → wanted ≤ moves turns
    → wanted ≤ length stream
    → (bytes : List ℕ) × (rest : List ℕ) × (left : List Turn) × (read_until deadline turns wanted
          stream
        ≡ ok (bytes, (rest, left)))
      × Leaves deadline turns wanted left
unfolding read_until
read_until-ends deadline turns zero stream p m s = ([], stream, turns, refl, (p, omega arith))
read_until-ends deadline [] (suc n) stream p m s = absurd (omega arith)
read_until-ends deadline (turn ∷ turns) (suc n) stream (pt, p) m s =
    elim (progress-advances deadline turn (suc n) stream pt (omega arith) (omega arith)) [
      | inl (part, e, one) ↦
          let (whole, some_bytes, short) = progress-chunk deadline turn (suc n) stream part e in
          let long = length-drop (length part) stream in
          let (bytes, rest, left, ends, leaves) =
            read_until-ends deadline turns (suc n - length part) (drop (length part) stream) p
              (omega arith) (omega arith) in
          let (lp, lm) = leaves in
          (part ++ bytes, rest, left, rw (e, read_until) (rw ends), (lp, omega arith))
      | inr (e, none_moved) ↦
          let (bytes, rest, left, ends, leaves) =
            read_until-ends deadline turns (suc n) stream p (omega arith) s in
          let (lp, lm) = leaves in (bytes, rest, left, rw (e, read_until) ends, (lp, omega arith))
    ]

append_cancel :
    (xs ys zs ws : List ℕ) → xs ++ ys ≡ zs ++ ws → length xs ≡ length zs → (xs ≡ zs) × (ys ≡ ws)
append_cancel [] ys [] ws h k = (refl, h)
append_cancel [] ys (z ∷ zs) ws h k = absurd (omega arith)
append_cancel (x ∷ xs) ys [] ws h k = absurd (omega arith)
append_cancel (x ∷ xs) ys (z ∷ zs) ws h k =
    let tails : xs ++ ys ≡ zs ++ ws = cc h in
    let heads : x ≡ z = cc h in
    let (same, rest) = append_cancel xs ys zs ws tails (omega arith) in (cc (heads, same), rest)

-- However the kernel cuts the stream into pieces, and however often it interrupts, `read_until` gets
-- the wanted bytes and leaves what follows them, under a prompt schedule that moves enough bytes.
pub read_until-fragments :
    (deadline : ℕ) (turns : List Turn) (bytes rest : List ℕ)
    → All (IsPrompt deadline) turns
    → length bytes ≤ moves turns
    → (left : List Turn) × (read_until deadline turns (length bytes) (bytes ++ rest)
        ≡ ok (bytes, (rest, left)))
      × Leaves deadline turns (length bytes) left
read_until-fragments deadline turns bytes rest p m =
    let (got, after, left, ends, leaves) =
      read_until-ends deadline turns (length bytes) (bytes ++ rest) p m
        (omega (arith, length-append bytes rest)) in
    let (whole, len) =
      read_until_sound deadline turns (length bytes) (bytes ++ rest) got after left ends in
    let (same, same_rest) = append_cancel bytes rest got after whole (sym len) in
    (left, ends ∙ (λ i. ok (sym same i, (sym same_rest i, left))), leaves)

-- Under a prompt schedule that moves enough bytes, `write_until` hands over all the bytes, in order,
-- behind what was sent before.
pub write_until-fragments :
    (deadline : ℕ) (turns : List Turn) (bytes sent : List ℕ)
    → All (IsPrompt deadline) turns
    → length bytes ≤ moves turns
    → (left : List Turn) × (write_until deadline turns bytes sent ≡ ok (sent ++ bytes, left))
      × Leaves deadline turns (length bytes) left
unfolding write_until
write_until-fragments deadline turns [] sent p m = (turns, rw append-nil, (p, omega arith))
write_until-fragments deadline [] (b ∷ bytes) sent p m = absurd (omega arith)
write_until-fragments deadline (turn ∷ turns) (b ∷ bytes) sent (pt, p) m =
    elim (progress-advances deadline turn (length (b ∷ bytes)) (b ∷ bytes) pt (omega arith)
      (omega arith)) [
        | inl (part, e, one) ↦
            let (whole, some_bytes, short) =
              progress-chunk deadline turn (length (b ∷ bytes)) (b ∷ bytes) part e in
            let long = length-drop (length part) (b ∷ bytes) in
            let (left, ends, leaves) =
              write_until-fragments deadline turns (drop (length part) (b ∷ bytes)) (sent ++ part) p
                (omega arith) in
            let (lp, lm) = leaves in
            (
              left,
              rw (e, write_until)
                  (ends
                    ∙ ap (λ (t : List ℕ). ok (t, left))
                        (append_assoc sent part (drop (length part) (b ∷ bytes))
                          ∙ ap (λ (t : List ℕ). sent ++ t) (sym whole))),
              (lp, omega arith),
            )
        | inr (e, none_moved) ↦
            let (left, ends, leaves) =
              write_until-fragments deadline turns (b ∷ bytes) sent p (omega arith) in
            let (lp, lm) = leaves in (left, rw (e, write_until) ends, (lp, omega arith))
      ]
