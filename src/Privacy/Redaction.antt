-- ===== src/Privacy/Redaction.antt =====
-- What a masked text of src/http_server/privacy.rs is, and that the two loops of `scan` make one.
use Prim.Native.Nat.{max}
use procinsh.Prelude.{
  ℕ, zero, suc, ◌+◌, ◌-◌, ◌≤◌, ◌<◌, ◌≡◌, refl, ◌∙◌, subst, ◌⊎◌, inl, inr, true, false, Bool-cases,
  ◌&&◌, ltb, leb, min, List, [], ◌∷◌, ◌++◌, length, take, drop, All, Result, ok, arith,
}
use mathlib.Core.List.{append-nil}
use procinsh.Privacy.{Found, Privacy, Panic, pseudonym, slice, overlapping, mask_hits}
use procinsh.Hub.Correlate.Sorting.{In}

-- The hits come in order and do not overlap.
abbrev pub IsOrdered : ℕ → List Found → Type 0
IsOrdered low [] = Unit
IsOrdered low (hit ∷ hits) = (low ≤ hit.start) × (hit.start ≤ hit.end) × IsOrdered hit.end hits

-- No hit covers the position.
abbrev pub IsClear : ℕ → List Found → Type 0
IsClear n hits = All (λ (hit : Found). (n < hit.start) ⊎ (hit.end ≤ n)) hits

module _ (p : Privacy) (text : List ℕ) (hits : List Found) (start end : ℕ) where
  -- What is left of the item of `start` and `end` from a position on: a byte that no hit covers, and for
  -- the share of a hit its pseudonym.
  pub data Redacts : ℕ → List ℕ → Type 0 where
    ended : Redacts end []
    clear :
        {n : ℕ} {out : List ℕ} (b : ℕ)
        → n < end
        → IsClear n hits
        → slice n (suc n) text ≡ ok (b ∷ [])
        → Redacts (suc n) out
        → Redacts n (b ∷ out)
    hidden :
        {n m : ℕ} {out : List ℕ} (hit : Found) (secret : List ℕ)
        → In hit hits
        → n ≡ max hit.start start
        → m ≡ min hit.end end
        → slice n m text ≡ ok secret
        → Redacts m out
        → Redacts n (pseudonym p secret ++ out)

IsClear-before : (low n : ℕ) (hits : List Found) → IsOrdered low hits → n < low → IsClear n hits
IsClear-before low n [] h k = tt
IsClear-before low n (hit ∷ hits) (a, b, h) k =
    (inl (omega arith), IsClear-before hit.end n hits h (omega arith))

IsOrdered-below :
    (low lower : ℕ) (hits : List Found) → lower ≤ low → IsOrdered low hits → IsOrdered lower hits
IsOrdered-below low lower [] k h = tt
IsOrdered-below low lower (hit ∷ hits) k (a, b, h) = (omega arith, b, h)

-- One more byte of the text.
drop_byte :
    (n : ℕ) (text : List ℕ) → n < length text → (b : ℕ) × (drop n text ≡ b ∷ drop (suc n) text)
drop_byte n [] h = absurd (omega arith)
drop_byte zero (b ∷ text) h = (b, refl)
drop_byte (suc n) (b ∷ text) h = drop_byte n text (omega arith)

slice_within :
    (from to : ℕ) (text : List ℕ)
    → from ≤ to
    → to ≤ length text
    → slice from to text ≡ ok (take (to - from) (drop from text))
unfolding slice
slice_within from to text h k =
    let low : leb from to ≡ true = ground arith in
    let high : leb to (length text) ≡ true = ground arith in rw (low, high)

module _ (start end : ℕ) where
  abbrev pub Overlaps : List Found → Type 0
  Overlaps hits = All (λ (hit : Found). (hit.start < end) × (start < hit.end)) hits

  missed :
      (hit : Found) (n : ℕ)
      → (ltb hit.start end && ltb start hit.end) ≡ false
      → start ≤ n
      → n < end
      → (n < hit.start) ⊎ (hit.end ≤ n)
  missed hit n gone x y = elim (Bool-cases (ltb hit.start end)) [
    | inl early ↦ inr (ground arith)
    | inr late ↦ inl (ground arith)
  ]

  -- What the filter keeps is in order and overlaps the item; what it drops covers no byte of the item.
  pub record IsFiltered (low : ℕ) (all kept : List Found) : Type 0 where
    pub ordered : IsOrdered low kept
    pub overlaps : Overlaps kept
    pub inside : (hit : Found) → In hit kept → In hit all
    pub covers : (n : ℕ) → start ≤ n → n < end → IsClear n kept → IsClear n all

  pub overlapping-IsFiltered :
      (low : ℕ) (hits : List Found)
      → IsOrdered low hits
      → IsFiltered low hits (overlapping start end hits)
  unfolding overlapping
  overlapping-IsFiltered low [] h = record {
    ordered = tt;
    overlaps = tt;
    inside = λ hit k. k;
    covers = λ n a b c. tt;
  }
  overlapping-IsFiltered low (hit ∷ hits) (a, b, h) =
      let rest = overlapping-IsFiltered hit.end hits h in
      elim (Bool-cases (ltb hit.start end && ltb start hit.end)) [
        | inl kept ↦ rw kept (record {
          ordered = (a, b, rest.ordered);
          overlaps = ((ground arith, ground arith), rest.overlaps);
          inside =
              λ other k. elim k [ inl here ↦ inl here | inr there ↦ inr (rest.inside other there) ];
          covers = λ n x y (c, more). (c, rest.covers n x y more);
        })
        | inr gone ↦ rw gone (record {
          ordered =
              IsOrdered-below hit.end low (overlapping start end hits) (omega arith) rest.ordered;
          overlaps = rest.overlaps;
          inside = λ other k. inr (rest.inside other k);
          covers = λ n x y c. (missed hit n gone x y, rest.covers n x y c);
        })
      ]

  module _ (p : Privacy) (text : List ℕ) (hits : List Found) (high : end ≤ length text) where
    clear_slice :
        (k done : ℕ) (out : List ℕ)
        → done + k ≤ end
        → ((n : ℕ) → done ≤ n → n < done + k → IsClear n hits)
        → Redacts p text hits start end (done + k) out
        → Redacts p text hits start end done (take k (drop done text) ++ out)
    clear_slice zero done out h c rest =
        subst (λ n. Redacts p text hits start end n out) (omega arith) rest
    clear_slice (suc k) done out h c rest =
        let (b, e) = drop_byte done text (omega arith) in
        let one = slice_within done (suc done) text (omega arith) (omega arith) in
        let count : suc done - done ≡ 1 = omega arith in
        let ih =
          clear_slice k (suc done) out (omega arith) (λ n x y. c n (omega arith) (omega arith))
            (subst (λ n. Redacts p text hits start end n out) (omega arith) rest) in
        rw e
          (clear b (omega arith) (c done (omega arith) (omega arith)) (one ∙ rw (count, e) refl) ih)

    clear_between :
        (done from : ℕ) (out : List ℕ)
        → done ≤ from
        → from ≤ end
        → ((n : ℕ) → done ≤ n → n < from → IsClear n hits)
        → Redacts p text hits start end from out
        → Redacts p text hits start end done (take (from - done) (drop done text) ++ out)
    clear_between done from out h k c rest =
        clear_slice (from - done) done out (omega arith) (λ n x y. c n x (omega arith))
          (subst (λ n. Redacts p text hits start end n out) (omega arith) rest)

    -- From a position behind the hits that are done with, the loop redacts the rest of the item.
    abbrev pub Redacted : Result Panic (List ℕ) → ℕ → Type 0
    Redacted result n = (out : List ℕ) × (result ≡ ok out) × Redacts p text hits start end n out

    pub mask_hits-Redacts :
        (kept : List Found) (low done : ℕ)
        → IsOrdered low kept
        → Overlaps kept
        → start ≤ done
        → done ≤ end
        → done ≤ max low start
        → ((n : ℕ) → done ≤ n → n < end → IsClear n kept → IsClear n hits)
        → ((hit : Found) → In hit kept → In hit hits)
        → Redacted (mask_hits p text start end kept done) done
    unfolding mask_hits
    mask_hits-Redacts [] low done o v x y z covers inside =
        let part = take (end - done) (drop done text) in
        let all = clear_between done end [] y (omega arith) (λ n h k. covers n h k tt) ended in
        (
          part,
          slice_within done end text y high,
          subst (λ (out : List ℕ). Redacts p text hits start end done out) (append-nil part) all,
        )
    mask_hits-Redacts (hit ∷ kept) low done (a, b, o) ((c, d), v) x y z covers inside =
        let from = max hit.start start in
        let to = min hit.end end in
        let behind : (n : ℕ) → to ≤ n → n < end → IsClear n kept → IsClear n hits =
          λ n h k free. covers n (omega arith) k (inr (omega arith), free) in
        let before : (n : ℕ) → done ≤ n → n < from → IsClear n hits = λ n h k.
          covers n h (omega arith)
            (inl (omega arith), IsClear-before hit.end n kept o (omega arith)) in
        let ih : Redacted (mask_hits p text start end kept to) to =
          mask_hits-Redacts kept hit.end to o v (omega arith) (omega arith) (omega arith) behind
            (λ other k. inside other (inr k)) in
        let hid = slice_within from to text (omega arith) (omega arith) in
        let shown = slice_within done from text (omega arith) (omega arith) in
        let secret = take (to - from) (drop from text) in
        let rest = pseudonym p secret ++ ih.0 in
        (
          take (from - done) (drop done text) ++ rest,
          rw (shown, hid, ih.1) refl,
          clear_between done from rest (omega arith) (omega arith) before
              (hidden hit secret (inside hit (inl refl)) refl refl hid ih.2),
        )
