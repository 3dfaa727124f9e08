-- ===== src/Ipc/Codec/Choices.antt =====
-- Values that begin with a tag byte (src/ipc/codec.rs): `Option`, `Result` and `wire_enum!`.
use procinsh.Prelude.{
  ℕ, zero, suc, ◌≤◌, ◌<◌, ◌≡◌, refl, ap, ◌∙◌, Option, none, some, List, [], ◌∷◌, ◌++◌, arith, All,
  length, Result, ok, err, ◌>>=◌, bind-HasRun,
}
use procinsh.Ipc.Codec.{
  Encoder, Decoder, Fallible, u32_max, invalid_option, invalid_result, append, write_number,
  read_number,
}
use procinsh.Ipc.Codec.Bytes.{IsByte}
use procinsh.Ipc.Codec.Laws.{on, append-then, write_byte, read_byte, read_byte_sound}
use procinsh.Ipc.Codec.Wire.{Wire}

pub tagged-code :
    (t : ℕ) (xs : List ℕ) (o : Encoder) (f : Encoder → Fallible Encoder)
    → t < 256
    → ((o' : Encoder) → o'.limit ≡ o.limit → f o' ≡ append xs o')
    → (write_number 1 t o >>= f) ≡ append (t ∷ xs) o
tagged-code t xs o f h k = rw (write_byte t o h) (append-then (t ∷ []) xs o f k)

pub tagged_sound :
    {B : Type 0} (bs : List ℕ) (k : ℕ × Decoder → Fallible (B × Decoder)) (q : B × Decoder)
    → All IsByte bs
    → (read_number 1 (on bs) >>= k) ≡ ok q
    → (t : ℕ) × (i : Decoder) × (bs ≡ t ∷ i.bytes)
      × (t < 256)
      × All IsByte i.bytes
      × (k (t, i) ≡ ok q)
tagged_sound bs k q h e =
    let (p, e₁, e₂) = bind-HasRun (read_number 1 (on bs)) k e in
    let (t, i) = p in
    let (fits, whole) = read_byte_sound bs t i h e₁ in (t, i, whole, fits, (rw whole at h).1, e₂)

module _ {A : Type 0} (w : Wire A) where
  unfoldable pub write_option : Option A → Encoder → Fallible Encoder
  write_option none output = write_number 1 0 output
  write_option (some value) output = write_number 1 1 output >>= w.write value

  unfoldable pub read_option_tag : ℕ → Decoder → Fallible (Option A × Decoder)
  read_option_tag zero input = ok (none, input)
  read_option_tag (suc zero) input = do (value, input) ← w.read input; ok (some value, input)
  read_option_tag (suc (suc n)) input = err invalid_option

  unfoldable pub read_option : Decoder → Fallible (Option A × Decoder)
  unfolding read_option_tag
  read_option input = do (tag, input) ← read_number 1 input; read_option_tag tag input

  abbrev pub IsOption : Option A → Type 0
  IsOption none = Unit
  IsOption (some a) = w.IsRepresentable a

  unfoldable pub option_code : Option A → List ℕ
  option_code none = 0 ∷ []
  option_code (some a) = 1 ∷ w.code a

  pub option_code_pos : (a : Option A) → IsOption a → 1 ≤ length (option_code a)
  unfolding option_code
  option_code_pos none r = omega arith
  option_code_pos (some a) r = omega arith

  pub write_option-code :
      (a : Option A) (o : Encoder)
      → IsOption a
      → o.limit ≤ u32_max
      → write_option a o ≡ append (option_code a) o
  unfolding write_option option_code
  write_option-code none o r h = write_byte 0 o (omega arith)
  write_option-code (some a) o r h =
      tagged-code 1 (w.code a) o (w.write a) (omega arith)
        (λ o' same. w.write-code a o' r (omega (arith, same)))

  pub read_option-code :
      (a : Option A) (rest : List ℕ)
      → IsOption a
      → length (option_code a) ≤ u32_max
      → read_option (on (option_code a ++ rest)) ≡ ok (a, on rest)
  unfolding read_option option_code
  read_option-code none rest r h = rw (read_byte 0 rest (omega arith))
  read_option-code (some a) rest r h =
      rw (read_byte 1 (w.code a ++ rest) (omega arith), w.read-code a rest r (omega arith))

  IsOption-read_option_tag :
      (t : ℕ) (i : Decoder) (a : Option A) (rest : Decoder)
      → All IsByte i.bytes
      → read_option_tag t i ≡ ok (a, rest)
      → IsOption a × (t ∷ i.bytes ≡ option_code a ++ rest.bytes)
  unfolding read_option_tag option_code
  IsOption-read_option_tag zero i a rest h e =
      let nothing : none ≡ a = cc e in
      let same : i ≡ rest = cc e in rw (← nothing, ← same) (tt, refl)
  IsOption-read_option_tag (suc zero) i a rest h e =
      let (p, e₁, e₂) = bind-HasRun (w.read i) _ e in
      let (x, j) = p in
      let (r, whole) = w.read_sound i.bytes x j h e₁ in
      let value : some x ≡ a = cc e₂ in
      let same : j ≡ rest = cc e₂ in rw (← value, ← same) (r, ap (λ (z : List ℕ). 1 ∷ z) whole)
  IsOption-read_option_tag (suc (suc n)) i a rest h e = cc

  pub read_option_sound :
      (bs : List ℕ) (a : Option A) (rest : Decoder)
      → All IsByte bs
      → read_option (on bs) ≡ ok (a, rest)
      → IsOption a × (bs ≡ option_code a ++ rest.bytes)
  unfolding read_option
  read_option_sound bs a rest h e =
      let (t, i, whole, _, inside, e') = tagged_sound bs _ (a, rest) h e in
      let (r, code) = IsOption-read_option_tag t i a rest inside e' in (r, whole ∙ code)

  unfoldable pub option : Wire (Option A)
  unfolding write_option read_option option_code
  option = record {
    write = write_option;
    read = read_option;
    IsRepresentable = IsOption;
    code = option_code;
    code_pos = option_code_pos;
    write-code = write_option-code;
    read-code = read_option-code;
    read_sound = read_option_sound;
  }

-- `Result<T, E>`: tag 0 in front of a value, tag 1 in front of an error.
module _ {E A : Type 0} (v : Wire A) (w : Wire E) where
  unfoldable pub write_result : Result E A → Encoder → Fallible Encoder
  write_result (ok value) output = write_number 1 0 output >>= v.write value
  write_result (err error) output = write_number 1 1 output >>= w.write error

  unfoldable pub read_result_tag : ℕ → Decoder → Fallible (Result E A × Decoder)
  read_result_tag zero input = do (value, input) ← v.read input; ok (ok value, input)
  read_result_tag (suc zero) input = do (error, input) ← w.read input; ok (err error, input)
  read_result_tag (suc (suc n)) input = err invalid_result

  unfoldable pub read_result : Decoder → Fallible (Result E A × Decoder)
  unfolding read_result_tag
  read_result input = do (tag, input) ← read_number 1 input; read_result_tag tag input

  abbrev pub IsResult : Result E A → Type 0
  IsResult (ok a) = v.IsRepresentable a
  IsResult (err e) = w.IsRepresentable e

  unfoldable pub result_code : Result E A → List ℕ
  result_code (ok a) = 0 ∷ v.code a
  result_code (err e) = 1 ∷ w.code e

  pub result_code_pos : (a : Result E A) → IsResult a → 1 ≤ length (result_code a)
  unfolding result_code
  result_code_pos (ok a) r = omega arith
  result_code_pos (err e) r = omega arith

  pub write_result-code :
      (a : Result E A) (o : Encoder)
      → IsResult a
      → o.limit ≤ u32_max
      → write_result a o ≡ append (result_code a) o
  unfolding write_result result_code
  write_result-code (ok a) o r h =
      tagged-code 0 (v.code a) o (v.write a) (omega arith)
        (λ o' same. v.write-code a o' r (omega (arith, same)))
  write_result-code (err e) o r h =
      tagged-code 1 (w.code e) o (w.write e) (omega arith)
        (λ o' same. w.write-code e o' r (omega (arith, same)))

  pub read_result-code :
      (a : Result E A) (rest : List ℕ)
      → IsResult a
      → length (result_code a) ≤ u32_max
      → read_result (on (result_code a ++ rest)) ≡ ok (a, on rest)
  unfolding read_result result_code
  read_result-code (ok a) rest r h =
      rw (read_byte 0 (v.code a ++ rest) (omega arith), v.read-code a rest r (omega arith))
  read_result-code (err e) rest r h =
      rw (read_byte 1 (w.code e ++ rest) (omega arith), w.read-code e rest r (omega arith))

  IsResult-read_result_tag :
      (t : ℕ) (i : Decoder) (a : Result E A) (rest : Decoder)
      → All IsByte i.bytes
      → read_result_tag t i ≡ ok (a, rest)
      → IsResult a × (t ∷ i.bytes ≡ result_code a ++ rest.bytes)
  unfolding read_result_tag result_code
  IsResult-read_result_tag zero i a rest h e =
      let (p, e₁, e₂) = bind-HasRun (v.read i) _ e in
      let (x, j) = p in
      let (r, whole) = v.read_sound i.bytes x j h e₁ in
      let value : ok x ≡ a = cc e₂ in
      let same : j ≡ rest = cc e₂ in rw (← value, ← same) (r, ap (λ (z : List ℕ). 0 ∷ z) whole)
  IsResult-read_result_tag (suc zero) i a rest h e =
      let (p, e₁, e₂) = bind-HasRun (w.read i) _ e in
      let (x, j) = p in
      let (r, whole) = w.read_sound i.bytes x j h e₁ in
      let error : err x ≡ a = cc e₂ in
      let same : j ≡ rest = cc e₂ in rw (← error, ← same) (r, ap (λ (z : List ℕ). 1 ∷ z) whole)
  IsResult-read_result_tag (suc (suc n)) i a rest h e = cc

  pub read_result_sound :
      (bs : List ℕ) (a : Result E A) (rest : Decoder)
      → All IsByte bs
      → read_result (on bs) ≡ ok (a, rest)
      → IsResult a × (bs ≡ result_code a ++ rest.bytes)
  unfolding read_result
  read_result_sound bs a rest h e =
      let (t, i, whole, _, inside, e') = tagged_sound bs _ (a, rest) h e in
      let (r, code) = IsResult-read_result_tag t i a rest inside e' in (r, whole ∙ code)

  unfoldable pub result : Wire (Result E A)
  unfolding write_result read_result result_code
  result = record {
    write = write_result;
    read = read_result;
    IsRepresentable = IsResult;
    code = result_code;
    code_pos = result_code_pos;
    write-code = write_result-code;
    read-code = read_result-code;
    read_sound = read_result_sound;
  }
