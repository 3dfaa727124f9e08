-- ===== src/Privacy/Items.antt =====
-- The items of one scan of src/http_server/privacy.rs: each is redacted, and no masked text has a NUL.
use procinsh.Prelude.{
  ℕ, zero, suc, ◌+◌, ◌-◌, ◌/◌, ◌%◌, ◌≤◌, ◌≡◌, ◌≢◌, refl, ap, subst, inl, inr, Bool-cases, ltb, leb,
  ◌&&◌, List, [], ◌∷◌, ◌++◌, length, take, drop, All, All-append_of, ok, ok-injective, arith,
  length-append,
}
use procinsh.Privacy.{
  Found, Privacy, pseudonym, hex, hex_digit, shade, slice, overlapping, mask_items, separator,
  follow, join,
}
use procinsh.Privacy.Texts.{NulFree, NulFree-take, NulFree-drop}
use procinsh.Privacy.Redaction.{
  IsOrdered, Redacts, ended, clear, hidden, overlapping-IsFiltered, mask_hits-Redacts,
}

hex_digit_pos : (d : ℕ) → hex_digit d ≢ 0
hex_digit_pos d e = elim (Bool-cases (ltb d 10)) [
  | inl low ↦ absurd (omega (arith, rw low at e))
  | inr high ↦ absurd (omega (arith, rw high at e))
]

NulFree-hex : (bytes : List ℕ) → NulFree (hex bytes)
NulFree-hex [] = tt
NulFree-hex (b ∷ bytes) = (hex_digit_pos (b / 16), (hex_digit_pos (b % 16), NulFree-hex bytes))

NulFree-shade : NulFree shade
NulFree-shade =
    (λ e. absurd (omega arith), (λ e. absurd (omega arith), (λ e. absurd (omega arith), tt)))

-- A pseudonym is text without NUL.
NulFree-pseudonym : (p : Privacy) (value : List ℕ) → NulFree (pseudonym p value)
unfolding pseudonym
NulFree-pseudonym p value =
    let digits = hex (take 4 (p.digest (p.key ++ value))) in
    All-append_of _ shade (digits ++ shade) NulFree-shade (
      All-append_of _ digits shade (NulFree-hex (take 4 (p.digest (p.key ++ value)))) NulFree-shade)

NulFree-slice :
    (from to : ℕ) (text bytes : List ℕ)
    → NulFree text
    → slice from to text ≡ ok bytes
    → NulFree bytes
unfolding slice
NulFree-slice from to text bytes free e = elim (Bool-cases (leb from to && leb to (length text))) [
  | inl within ↦
      subst NulFree (ok-injective (rw within at e))
        (NulFree-take (to - from) (drop from text) (NulFree-drop from text free))
  | inr outside ↦ absurd (cc (rw outside at e))
]

module _ (p : Privacy) (text : List ℕ) (hits : List Found) where
  NulFree-Redacts :
      {start end n : ℕ} {out : List ℕ}
      → NulFree text
      → Redacts p text hits start end n out
      → NulFree out
  NulFree-Redacts free ended = tt
  NulFree-Redacts free (clear {n} {out} b h c e rest) =
      ((NulFree-slice n (suc n) text (b ∷ []) free e).0, NulFree-Redacts free rest)
  NulFree-Redacts free (hidden {n} {m} {out} hit secret h x y e rest) =
      All-append_of _ (pseudonym p secret) out (NulFree-pseudonym p secret)
        (NulFree-Redacts free rest)

  -- The items stand in the text from a position on, with one byte between two.
  abbrev pub Redactions : ℕ → List (List ℕ) → List (List ℕ) → Type 0
  Redactions start [] [] = Unit
  Redactions start (item ∷ items) (out ∷ outs) =
      Redacts p text hits start (start + length item) start out
      × Redactions (start + length item + 1) items outs
  Redactions start _ _ = ⊥

  pub NulFree-Redactions :
      (start : ℕ) (items outs : List (List ℕ))
      → NulFree text
      → Redactions start items outs
      → All NulFree outs
  NulFree-Redactions start [] [] free h = tt
  NulFree-Redactions start [] (out ∷ outs) free h = absurd h
  NulFree-Redactions start (item ∷ items) [] free h = absurd h
  NulFree-Redactions start (item ∷ items) (out ∷ outs) free (r, h) =
      (NulFree-Redacts free r, NulFree-Redactions (start + length item + 1) items outs free h)

  abbrev separated : ℕ → List (List ℕ) → List ℕ
  separated zero outs = join 0 outs
  separated (suc index) outs = follow 0 outs

  join_item :
      (index : ℕ) (out : List ℕ) (outs : List (List ℕ))
      → separator index ++ (out ++ follow 0 outs) ≡ separated index (out ∷ outs)
  unfolding join
  join_item zero out outs = refl
  join_item (suc index) out outs = refl

  -- The loop over the items ends without a panic and joins their redactions.
  pub mask_items-Redactions :
      (index start : ℕ) (items : List (List ℕ))
      → IsOrdered 0 hits
      → start + length (follow 32 items) ≤ length text + 1
      → (outs : List (List ℕ)) × (mask_items p text hits index start items
          ≡ ok (separated index outs))
        × Redactions start items outs
  unfolding mask_items join
  mask_items-Redactions zero start [] o h = ([], refl, tt)
  mask_items-Redactions (suc index) start [] o h = ([], refl, tt)
  mask_items-Redactions index start (item ∷ items) o h =
      let end = start + length item in
      let size = length-append item (follow 32 items) in
      let kept = overlapping-IsFiltered start end 0 hits o in
      let (out, e, r) =
        mask_hits-Redacts start end p text hits (omega (arith, size)) (overlapping start end hits) 0
          start kept.ordered kept.overlaps (omega arith) (omega arith) (omega arith) kept.covers
          kept.inside in
      let (outs, f, more) =
        mask_items-Redactions (suc index) (end + 1) items o (omega (arith, size)) in
      (out ∷ outs, rw (e, f) (ap ok (join_item index out outs)), (r, more))
