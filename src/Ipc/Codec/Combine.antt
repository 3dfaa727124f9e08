-- ===== src/Ipc/Codec/Combine.antt =====
-- Building one `Wire` from others: a struct, whose fields are written in order
-- (src/ipc/codec.rs, `tuple!` and `wire_struct!`), and a type that stands for another.
use procinsh.Prelude.{
  ℕ, ◌≤◌, ◌≡◌, sym, ap, ◌∙◌, List, ◌++◌, arith, All, All-append, length, length-append, ok, ◌>>=◌,
  bind-HasRun, ok-injective,
}
use procinsh.Ipc.Codec.{Encoder, Decoder, Fallible, u32_max, append}
use procinsh.Ipc.Codec.Bytes.{IsByte}
use procinsh.Ipc.Codec.Laws.{on, append-then}
use procinsh.Ipc.Codec.Wire.{Wire}
use mathlib.Core.List.{append_assoc}

module _ {A B : Type 0} (v : Wire A) (w : Wire B) where
  unfoldable pub write_pair : A × B → Encoder → Fallible Encoder
  write_pair (a, b) output = v.write a output >>= w.write b

  unfoldable pub read_pair : Decoder → Fallible ((A × B) × Decoder)
  read_pair input = do (a, input) ← v.read input; (b, input) ← w.read input; ok ((a, b), input)

  unfoldable pub pair_code : A × B → List ℕ
  pair_code (a, b) = v.code a ++ w.code b

  pub pair_code_pos :
      (p : A × B) → v.IsRepresentable p.0 × w.IsRepresentable p.1 → 1 ≤ length (pair_code p)
  unfolding pair_code
  pair_code_pos (a, b) (ra, rb) =
      omega (arith, length-append (v.code a) (w.code b), v.code_pos a ra)

  pub write_pair-code :
      (p : A × B) (o : Encoder)
      → v.IsRepresentable p.0 × w.IsRepresentable p.1
      → o.limit ≤ u32_max
      → write_pair p o ≡ append (pair_code p) o
  unfolding write_pair pair_code
  write_pair-code (a, b) o (ra, rb) h = rw (v.write-code a o ra h) (
      append-then (v.code a) (w.code b) o (w.write b)
        (λ o' same. w.write-code b o' rb (omega (arith, same))))

  pub read_pair-code :
      (p : A × B) (rest : List ℕ)
      → v.IsRepresentable p.0 × w.IsRepresentable p.1
      → length (pair_code p) ≤ u32_max
      → read_pair (on (pair_code p ++ rest)) ≡ ok (p, on rest)
  unfolding read_pair pair_code
  read_pair-code (a, b) rest (ra, rb) h =
      let long = length-append (v.code a) (w.code b) in
      rw (
        append_assoc (v.code a) (w.code b) rest,
        v.read-code a (w.code b ++ rest) ra (omega arith),
        w.read-code b rest rb (omega arith),
      )

  pub read_pair_sound :
      (bs : List ℕ) (p : A × B) (rest : Decoder)
      → All IsByte bs
      → read_pair (on bs) ≡ ok (p, rest)
      → (v.IsRepresentable p.0 × w.IsRepresentable p.1) × (bs ≡ pair_code p ++ rest.bytes)
  unfolding read_pair pair_code
  read_pair_sound bs (a, b) rest h e =
      let (p, e₁, e₂) = bind-HasRun (v.read (on bs)) _ e in
      let (a', i) = p in
      let (q, e₃, e₄) = bind-HasRun (w.read i) _ e₂ in
      let (b', j) = q in
      let (ra, first) = v.read_sound bs a' i h e₁ in
      let inside = (All-append IsByte (v.code a') i.bytes (rw first at h)).1 in
      let (rb, second) = w.read_sound i.bytes b' j inside e₃ in
      let sa : a' ≡ a = cc e₄ in
      let sb : b' ≡ b = cc e₄ in
      let sr : j ≡ rest = cc e₄ in
      (
        (rw (← sa) ra, rw (← sb) rb),
        rw (← sa, ← sb, ← sr)
            (first
              ∙ ap (λ (z : List ℕ). v.code a' ++ z) second
              ∙ sym (append_assoc (v.code a') (w.code b') j.bytes)),
      )

  infixr 20 ◌⊗◌
  unfoldable pub ◌⊗◌ : Wire (A × B)
  unfolding write_pair read_pair pair_code
  ◌⊗◌ = record {
    write = write_pair;
    read = read_pair;
    IsRepresentable = λ p. v.IsRepresentable p.0 × w.IsRepresentable p.1;
    code = pair_code;
    code_pos = pair_code_pos;
    write-code = write_pair-code;
    read-code = read_pair-code;
    read_sound = read_pair_sound;
  }

-- A type that goes over the wire as another: `to` before it is written, `from` after it is read,
-- which may refuse what it gets.
module _ {A T : Type 0} (w : Wire T) (to : A → T) (from : T → Fallible A)
    (IsRepresentable : A → Type 0)
    (to-rep : (a : A) → IsRepresentable a → w.IsRepresentable (to a) × (from (to a) ≡ ok a))
    (from_sound : (t : T) (a : A)
      → w.IsRepresentable t
      → from t ≡ ok a
      → IsRepresentable a × (t ≡ to a)) where
  unfoldable pub write_as : A → Encoder → Fallible Encoder
  write_as a output = w.write (to a) output

  unfoldable pub read_as : Decoder → Fallible (A × Decoder)
  read_as input = do (t, input) ← w.read input; a ← from t; ok (a, input)

  pub read_as-code :
      (a : A) (rest : List ℕ)
      → IsRepresentable a
      → length (w.code (to a)) ≤ u32_max
      → read_as (on (w.code (to a) ++ rest)) ≡ ok (a, on rest)
  unfolding read_as
  read_as-code a rest r h = let (rt, back) = to-rep a r in rw (w.read-code (to a) rest rt h, back)

  pub read_as_sound :
      (bs : List ℕ) (a : A) (rest : Decoder)
      → All IsByte bs
      → read_as (on bs) ≡ ok (a, rest)
      → IsRepresentable a × (bs ≡ w.code (to a) ++ rest.bytes)
  unfolding read_as
  read_as_sound bs a rest h e =
      let (p, e₁, e₂) = bind-HasRun (w.read (on bs)) _ e in
      let (t, i) = p in
      let (a', e₃, e₄) = bind-HasRun (from t) _ e₂ in
      let (rt, whole) = w.read_sound bs t i h e₁ in
      let (ra, same) = from_sound t a' rt e₃ in
      let sa : a' ≡ a = cc e₄ in
      let si : i ≡ rest = cc e₄ in (rw (← sa) ra, rw (← sa, ← same, ← si) whole)

  unfoldable pub wire_as : Wire A
  unfolding write_as read_as
  wire_as = record {
    write = write_as;
    read = read_as;
    IsRepresentable = IsRepresentable;
    code = λ a. w.code (to a);
    code_pos = λ a r. w.code_pos (to a) (to-rep a r).0;
    write-code = λ a o r h. unfold write_as in w.write-code (to a) o (to-rep a r).0 h;
    read-code = read_as-code;
    read_sound = read_as_sound;
  }

-- `wire_struct!`: a record and the tuple of its fields.
module _ {A T : Type 0} (w : Wire T) (to : A → T) (from : T → A)
    (from-to : (a : A) → from (to a) ≡ a) (to-from : (t : T) → to (from t) ≡ t) where
  pub struct_sound :
      (t : T) (a : A)
      → w.IsRepresentable t
      → ◌≡◌ {A = Fallible A} (ok (from t)) (ok a)
      → w.IsRepresentable (to a) × (t ≡ to a)
  struct_sound t a r e =
      let same : t ≡ to a = sym (to-from t) ∙ ap to (ok-injective e) in (rw same at r, same)

  unfoldable pub wire_struct : Wire A
  unfolding wire_as
  wire_struct =
      wire_as w to (λ t. ok (from t)) (λ a. w.IsRepresentable (to a))
        (λ a r. (r, ap ok (from-to a))) struct_sound
