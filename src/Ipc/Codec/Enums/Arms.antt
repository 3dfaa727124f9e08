-- ===== src/Ipc/Codec/Enums/Arms.antt =====
-- The arms of `wire_enum!` (src/ipc/codec.rs) as data, and an enum's last arm.
use procinsh.Prelude.{
  ℕ, ◌≤◌, ◌<◌, ◌≡◌, ◌≢◌, refl, sym, inl, inr, Bool, true, false, List, [], ◌∷◌, ◌++◌, arith, All,
  length, ltb, ltb→lt, ◌==◌, if◌then◌else◌, Bool-cases, ok, err,
}
use procinsh.Ipc.Codec.{Encoder, Decoder, CodecError, Fallible, u32_max, append}
use procinsh.Ipc.Codec.Bytes.{IsByte}
use procinsh.Ipc.Codec.Laws.{on, append-nil_lem}
use procinsh.Ipc.Codec.Wire.{Wire}

abbrev pub lacks : ℕ → List ℕ → Bool
lacks t [] = true
lacks t (u ∷ tags) = if t == u then false else lacks t tags

-- What stands behind a tag: the fields of the variant, or nothing.
pub record Fields (P : Type 0) : Type 1 where
  pub write : P → Encoder → Fallible Encoder
  pub read : Decoder → Fallible (P × Decoder)
  pub IsRepresentable : P → Type 0
  pub code : P → List ℕ
  pub write-code :
      (p : P) (o : Encoder) → IsRepresentable p → o.limit ≤ u32_max → write p o ≡ append (code p) o
  pub read-code :
      (p : P) (rest : List ℕ)
      → IsRepresentable p
      → length (code p) ≤ u32_max
      → read (on (code p ++ rest)) ≡ ok (p, on rest)
  pub read_sound :
      (bs : List ℕ) (p : P) (rest : Decoder)
      → All IsByte bs
      → read (on bs) ≡ ok (p, rest)
      → IsRepresentable p × (bs ≡ code p ++ rest.bytes)

bare_sound :
    (bs : List ℕ) (p : Unit {0}) (rest : Decoder)
    → All IsByte bs
    → ◌≡◌ {A = Fallible (Unit {0} × Decoder)} (ok (tt, on bs)) (ok (p, rest))
    → Unit {0} × (bs ≡ rest.bytes)
bare_sound bs p rest h e = (tt, cc e)

unfoldable pub bare : Fields (Unit {0})
unfolding bare_sound
bare = record {
  write = λ _ output. ok output;
  read = λ input. ok (tt, input);
  IsRepresentable = λ _. Unit;
  code = λ _. [];
  write-code = λ p o r h. sym (append-nil_lem o);
  read-code = λ p rest r h. refl;
  read_sound = bare_sound;
}

unfoldable pub with : {P : Type 0} → Wire P → Fields P
with w = record {
  write = w.write;
  read = w.read;
  IsRepresentable = w.IsRepresentable;
  code = w.code;
  write-code = w.write-code;
  read-code = w.read-code;
  read_sound = w.read_sound;
}

-- The arms of the two matches, over the sum of the variants' fields. `tags` lists their tags.
pub record Variants (A : Type 0) : Type 1 where
  pub tags : List ℕ
  pub tag : A → ℕ
  pub write_fields : A → Encoder → Fallible Encoder
  pub read_fields : ℕ → Decoder → Fallible (A × Decoder)
  pub IsRepresentable : A → Type 0
  pub fields : A → List ℕ
  pub tag_lt : (a : A) → tag a < 256
  pub tag_ne : (a : A) (t : ℕ) → lacks t tags ≡ true → tag a ≢ t
  pub write-code :
      (a : A) (o : Encoder)
      → IsRepresentable a
      → o.limit ≤ u32_max
      → write_fields a o ≡ append (fields a) o
  pub read-code :
      (a : A) (rest : List ℕ)
      → IsRepresentable a
      → length (fields a) ≤ u32_max
      → read_fields (tag a) (on (fields a ++ rest)) ≡ ok (a, on rest)
  pub read_sound :
      (t : ℕ) (bs : List ℕ) (a : A) (rest : Decoder)
      → All IsByte bs
      → read_fields t (on bs) ≡ ok (a, rest)
      → IsRepresentable a × (t ≡ tag a) × (bs ≡ fields a ++ rest.bytes)

-- The last arm, with the `bail!` behind it.
module _ {P : Type 0} (unknown : CodecError) (t : ℕ) (small : ltb t 256 ≡ true) (f : Fields P) where
  unfoldable pub read_last : ℕ → Decoder → Fallible (P × Decoder)
  read_last n input = if n == t then f.read input else err unknown

  pub read_last_sound :
      (n : ℕ) (bs : List ℕ) (p : P) (rest : Decoder)
      → All IsByte bs
      → read_last n (on bs) ≡ ok (p, rest)
      → f.IsRepresentable p × (n ≡ t) × (bs ≡ f.code p ++ rest.bytes)
  unfolding read_last
  read_last_sound n bs p rest h e = elim (Bool-cases (n == t)) [
    | inl same ↦
        let (r, whole) = f.read_sound bs p rest h (rw same at e) in (r, ground arith, whole)
    | inr other ↦ let wrong : err unknown ≡ ok (p, rest) = rw other at e in cc wrong
  ]

  pub read_last-code :
      (p : P) (rest : List ℕ)
      → f.IsRepresentable p
      → length (f.code p) ≤ u32_max
      → read_last t (on (f.code p ++ rest)) ≡ ok (p, on rest)
  unfolding read_last
  read_last-code p rest r h =
      let same : (t == t) ≡ true = ground arith in rw same (f.read-code p rest r h)

  unfoldable pub last : Variants P
  unfolding read_last
  last = record {
    tags = t ∷ [];
    tag = λ _. t;
    write_fields = f.write;
    read_fields = read_last;
    IsRepresentable = f.IsRepresentable;
    fields = f.code;
    tag_lt = λ _. ltb→lt t 256 small;
    tag_ne = λ p u other same. ground arith;
    write-code = f.write-code;
    read-code = read_last-code;
    read_sound = read_last_sound;
  }
