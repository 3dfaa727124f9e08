-- ===== src/Ipc/Codec/Enums/Arm.antt =====
-- One more arm of `wire_enum!` (src/ipc/codec.rs).
use procinsh.Prelude.{
  ℕ, ◌≤◌, ◌<◌, ◌≡◌, ◌≢◌, ◌⊎◌, inl, inr, true, false, List, ◌∷◌, ◌++◌, arith, All, length, ltb,
  ltb→lt, ◌==◌, if◌then◌else◌, Bool-cases, ok, ◌>>=◌, bind-HasRun,
}
use procinsh.Ipc.Codec.{Encoder, Decoder, Fallible, u32_max, append}
use procinsh.Ipc.Codec.Bytes.{IsByte}
use procinsh.Ipc.Codec.Laws.{on}
use procinsh.Ipc.Codec.Enums.Arms.{Fields, Variants, lacks}

-- One arm in front of others that do not have its tag.
module _ {P B : Type 0} (t : ℕ) (small : ltb t 256 ≡ true) (f : Fields P) (v : Variants B)
    (fresh : lacks t v.tags ≡ true) where
  unfoldable pub arm_tag : P ⊎ B → ℕ
  arm_tag (inl p) = t
  arm_tag (inr b) = v.tag b

  unfoldable pub write_arm : P ⊎ B → Encoder → Fallible Encoder
  write_arm (inl p) output = f.write p output
  write_arm (inr b) output = v.write_fields b output

  read_this : Decoder → Fallible ((P ⊎ B) × Decoder)
  read_this input = do (p, input) ← f.read input; ok (inl p, input)

  read_other : ℕ → Decoder → Fallible ((P ⊎ B) × Decoder)
  read_other n input = do (b, input) ← v.read_fields n input; ok (inr b, input)

  unfoldable pub read_arm : ℕ → Decoder → Fallible ((P ⊎ B) × Decoder)
  unfolding read_this read_other
  read_arm n input = if n == t then read_this input else read_other n input

  abbrev pub IsArm : P ⊎ B → Type 0
  IsArm (inl p) = f.IsRepresentable p
  IsArm (inr b) = v.IsRepresentable b

  unfoldable pub arm_fields : P ⊎ B → List ℕ
  arm_fields (inl p) = f.code p
  arm_fields (inr b) = v.fields b

  pub arm_tag_lt : (a : P ⊎ B) → arm_tag a < 256
  unfolding arm_tag
  arm_tag_lt (inl p) = ltb→lt t 256 small
  arm_tag_lt (inr b) = v.tag_lt b

  pub arm_tag_ne : (a : P ⊎ B) (u : ℕ) → lacks u (t ∷ v.tags) ≡ true → arm_tag a ≢ u
  unfolding arm_tag
  arm_tag_ne (inl p) u h same = ground arith
  arm_tag_ne (inr b) u h same = elim (Bool-cases (u == t)) [
    | inl e ↦ let wrong : false ≡ true = rw e at h in cc wrong
    | inr e ↦ v.tag_ne b u (rw e at h) same
  ]

  pub write_arm-code :
      (a : P ⊎ B) (o : Encoder)
      → IsArm a
      → o.limit ≤ u32_max
      → write_arm a o ≡ append (arm_fields a) o
  unfolding write_arm arm_fields
  write_arm-code (inl p) o r h = f.write-code p o r h
  write_arm-code (inr b) o r h = v.write-code b o r h

  pub read_arm-code :
      (a : P ⊎ B) (rest : List ℕ)
      → IsArm a
      → length (arm_fields a) ≤ u32_max
      → read_arm (arm_tag a) (on (arm_fields a ++ rest)) ≡ ok (a, on rest)
  unfolding read_arm arm_tag arm_fields
  read_arm-code (inl p) rest r h =
      let same : (t == t) ≡ true = ground arith in rw (same, f.read-code p rest r h)
  read_arm-code (inr b) rest r h =
      let differs = v.tag_ne b t fresh in
      let other : (v.tag b == t) ≡ false = ground (arith, differs) in
      rw (other, v.read-code b rest r h)

  pub read_arm_sound :
      (n : ℕ) (bs : List ℕ) (a : P ⊎ B) (rest : Decoder)
      → All IsByte bs
      → read_arm n (on bs) ≡ ok (a, rest)
      → IsArm a × (n ≡ arm_tag a) × (bs ≡ arm_fields a ++ rest.bytes)
  unfolding read_arm arm_tag arm_fields
  read_arm_sound n bs a rest h e = elim (Bool-cases (n == t)) [
    | inl same ↦
        let (p, e₁, e₂) = bind-HasRun (f.read (on bs)) _ (rw same at e) in
        let (x, i) = p in
        let (r, whole) = f.read_sound bs x i h e₁ in
        let value : inl x ≡ a = cc e₂ in
        let end : i ≡ rest = cc e₂ in rw (← value, ← end) (r, ground arith, whole)
    | inr other ↦
        let (p, e₁, e₂) = bind-HasRun (v.read_fields n (on bs)) _ (rw other at e) in
        let (x, i) = p in
        let (r, same, whole) = v.read_sound n bs x i h e₁ in
        let value : inr x ≡ a = cc e₂ in
        let end : i ≡ rest = cc e₂ in rw (← value, ← end) (r, same, whole)
  ]

  unfoldable pub arm : Variants (P ⊎ B)
  unfolding arm_tag write_arm read_arm arm_fields
  arm = record {
    tags = t ∷ v.tags;
    tag = arm_tag;
    write_fields = write_arm;
    read_fields = read_arm;
    IsRepresentable = IsArm;
    fields = arm_fields;
    tag_lt = arm_tag_lt;
    tag_ne = arm_tag_ne;
    write-code = write_arm-code;
    read-code = read_arm-code;
    read_sound = read_arm_sound;
  }
