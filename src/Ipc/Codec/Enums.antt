-- ===== src/Ipc/Codec/Enums.antt =====
-- `wire_enum!` of src/ipc/codec.rs: a tag byte and the fields of the variant that it names.
mod Arms
mod Arm
pub use Arms.{Fields, Variants, lacks}
unfoldable pub use Arms.{bare, with, last, read_last}
unfoldable pub use Arm.{arm, arm_tag, write_arm, read_arm, arm_fields}
use procinsh.Prelude.{
  ℕ, ◌+◌, ◌≤◌, ◌<◌, ◌≡◌, ◌≢◌, refl, sym, ap, ◌∙◌, ◌⊎◌, inl, inr, Bool, true, false, List, [], ◌∷◌,
  ◌++◌, arith, All, length, ◌==◌, if◌then◌else◌, Bool-cases, Result, ok, err, ◌>>=◌, bind-HasRun,
}
use procinsh.Ipc.Codec.{
  Encoder, Decoder, CodecError, Fallible, u32_max, append, write_number, read_number,
}
use procinsh.Ipc.Codec.Bytes.{IsByte}
use procinsh.Ipc.Codec.Laws.{on, append-nil_lem}
use procinsh.Ipc.Codec.Wire.{Wire}
use procinsh.Ipc.Codec.Choices.{tagged-code, tagged_sound}
use procinsh.Ipc.Codec.Laws.{read_byte}

-- The enum itself: its variants as a sum.
module _ {A T : Type 0} (v : Variants T) (to : A → T) (from : T → A)
    (from-to : (a : A) → from (to a) ≡ a) (to-from : (x : T) → to (from x) ≡ x) where
  unfoldable pub write_enum : A → Encoder → Fallible Encoder
  write_enum a output = write_number 1 (v.tag (to a)) output >>= v.write_fields (to a)

  unfoldable pub read_enum : Decoder → Fallible (A × Decoder)
  read_enum input = do
    (tag, input) ← read_number 1 input
    (x, input) ← v.read_fields tag input
    ok (from x, input)

  unfoldable pub enum_code : A → List ℕ
  enum_code a = v.tag (to a) ∷ v.fields (to a)

  pub enum_code_pos : (a : A) → 1 ≤ length (enum_code a)
  unfolding enum_code
  enum_code_pos a = omega arith

  pub write_enum-code :
      (a : A) (o : Encoder)
      → v.IsRepresentable (to a)
      → o.limit ≤ u32_max
      → write_enum a o ≡ append (enum_code a) o
  unfolding write_enum enum_code
  write_enum-code a o r h =
      tagged-code (v.tag (to a)) (v.fields (to a)) o (v.write_fields (to a)) (v.tag_lt (to a))
        (λ o' same. v.write-code (to a) o' r (omega (arith, same)))

  pub read_enum-code :
      (a : A) (rest : List ℕ)
      → v.IsRepresentable (to a)
      → length (enum_code a) ≤ u32_max
      → read_enum (on (enum_code a ++ rest)) ≡ ok (a, on rest)
  unfolding read_enum enum_code
  read_enum-code a rest r h = rw (
    read_byte (v.tag (to a)) (v.fields (to a) ++ rest) (v.tag_lt (to a)),
    v.read-code (to a) rest r (omega arith),
    from-to a,
  )

  pub read_enum_sound :
      (bs : List ℕ) (a : A) (rest : Decoder)
      → All IsByte bs
      → read_enum (on bs) ≡ ok (a, rest)
      → v.IsRepresentable (to a) × (bs ≡ enum_code a ++ rest.bytes)
  unfolding read_enum enum_code
  read_enum_sound bs a rest h e =
      let (t, i, whole, _, inside, e') = tagged_sound bs _ (a, rest) h e in
      let (p, e₁, e₂) = bind-HasRun (v.read_fields t i) _ e' in
      let (x, j) = p in
      let (r, same, fields) = v.read_sound t i.bytes x j inside e₁ in
      let value : from x ≡ a = cc e₂ in
      let back : x ≡ to a = sym (to-from x) ∙ ap to value in
      let end : j ≡ rest = cc e₂ in
      (rw back at r, rw (whole, ← back, same, ← end) (ap (λ (z : List ℕ). v.tag x ∷ z) fields))

  unfoldable pub wire_enum : Wire A
  unfolding write_enum read_enum enum_code
  wire_enum = record {
    write = write_enum;
    read = read_enum;
    IsRepresentable = λ a. v.IsRepresentable (to a);
    code = enum_code;
    code_pos = λ a r. enum_code_pos a;
    write-code = write_enum-code;
    read-code = read_enum-code;
    read_sound = read_enum_sound;
  }
