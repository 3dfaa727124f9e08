-- ===== src/Ipc/Codec/Lists.antt =====
-- `Vec<T>` and `[T; N]` on the wire (src/ipc/codec.rs): the items one after the other, behind a u32
-- length for a vector.
use procinsh.Prelude.{
  ℕ, zero, suc, ◌+◌, ◌≤◌, ◌<◌, ◌≡◌, refl, sym, ap, ◌∙◌, List, [], ◌∷◌, ◌++◌, arith, All, All-append,
  leb, length, length-append, ok, ◌>>=◌, bind-HasRun, leb→le, Bool-cases, inl, inr,
}
use procinsh.Ipc.Codec.{
  Encoder, Decoder, Fallible, u32_max, append, to_ne_bytes, write_length, read_length,
}
use procinsh.Ipc.Codec.Bytes.{IsByte, length-to_ne_bytes}
use procinsh.Ipc.Codec.Laws.{
  on, append-then, append-nil_lem, append_too_long, write_length-append, write_length_too_long,
  read_length-append, read_length_sound,
}
use procinsh.Ipc.Codec.Wire.{Wire}
use mathlib.Core.List.{append_assoc}

module _ {A : Type 0} (w : Wire A) where
  -- `for value in self { value.write(output)?; }`
  unfoldable pub write_items : List A → Encoder → Fallible Encoder
  write_items [] output = ok output
  write_items (x ∷ xs) output = w.write x output >>= write_items xs

  -- `for _ in 0..length { values.push(T::read(input)?); }`
  unfoldable pub read_items : ℕ → Decoder → Fallible (List A × Decoder)
  read_items zero input = ok ([], input)
  read_items (suc n) input = do
    (x, input) ← w.read input
    (xs, input) ← read_items n input
    ok (x ∷ xs, input)

  unfoldable pub items_code : List A → List ℕ
  items_code [] = []
  items_code (x ∷ xs) = w.code x ++ items_code xs

  -- Every item takes a byte at least: the test of `Decoder::length` refuses no vector that was written.
  pub length-le-items_code :
      (xs : List A) → All w.IsRepresentable xs → length xs ≤ length (items_code xs)
  unfolding items_code
  length-le-items_code [] r = omega arith
  length-le-items_code (x ∷ xs) (rx, r) =
      omega (
        arith,
        length-append (w.code x) (items_code xs),
        w.code_pos x rx,
        length-le-items_code xs r,
      )

  pub write_items-code :
      (xs : List A) (o : Encoder)
      → All w.IsRepresentable xs
      → o.limit ≤ u32_max
      → write_items xs o ≡ append (items_code xs) o
  unfolding write_items items_code
  write_items-code [] o r h = sym (append-nil_lem o)
  write_items-code (x ∷ xs) o (rx, r) h = rw (w.write-code x o rx h) (
      append-then (w.code x) (items_code xs) o (write_items xs)
        (λ o' same. write_items-code xs o' r (omega (arith, same))))

  pub read_items-code :
      (xs : List A) (rest : List ℕ)
      → All w.IsRepresentable xs
      → length (items_code xs) ≤ u32_max
      → read_items (length xs) (on (items_code xs ++ rest)) ≡ ok (xs, on rest)
  unfolding read_items items_code
  read_items-code [] rest r h = refl
  read_items-code (x ∷ xs) rest (rx, r) h =
      let long = length-append (w.code x) (items_code xs) in
      rw (
        append_assoc (w.code x) (items_code xs) rest,
        w.read-code x (items_code xs ++ rest) rx (omega arith),
        read_items-code xs rest r (omega arith),
      )

  pub read_items_sound :
      (n : ℕ) (bs : List ℕ) (xs : List A) (rest : Decoder)
      → All IsByte bs
      → read_items n (on bs) ≡ ok (xs, rest)
      → (length xs ≡ n) × All w.IsRepresentable xs × (bs ≡ items_code xs ++ rest.bytes)
  unfolding read_items items_code
  read_items_sound zero bs xs rest h e =
      let nothing : [] ≡ xs = cc e in
      let all : on bs ≡ rest = cc e in rw (← nothing) (refl, tt, ap (λ (d : Decoder). d.bytes) all)
  read_items_sound (suc n) bs xs rest h e =
      let (p, e₁, e₂) = bind-HasRun (w.read (on bs)) _ e in
      let (x, i) = p in
      let (rx, first) = w.read_sound bs x i h e₁ in
      let inside = (All-append IsByte (w.code x) i.bytes (rw first at h)).1 in
      let (q, e₃, e₄) = bind-HasRun (read_items n i) _ e₂ in
      let (ys, j) = q in
      let (len, r, second) = read_items_sound n i.bytes ys j inside e₃ in
      let all : x ∷ ys ≡ xs = cc e₄ in
      let end : j ≡ rest = cc e₄ in
      rw (← all, ← end)
        (
          ap suc len,
          (rx, r),
          first
              ∙ ap (λ (z : List ℕ). w.code x ++ z) second
              ∙ sym (append_assoc (w.code x) (items_code ys) j.bytes),
        )

  unfoldable pub write_vec : List A → Encoder → Fallible Encoder
  unfolding write_items
  write_vec xs output = write_length (length xs) output >>= write_items xs

  unfoldable pub read_vec : Decoder → Fallible (List A × Decoder)
  unfolding read_items
  read_vec input = do (length, input) ← read_length input; read_items length input

  unfoldable pub vec_code : List A → List ℕ
  unfolding items_code
  vec_code xs = to_ne_bytes 4 (length xs) ++ items_code xs

  pub length-vec_code : (xs : List A) → length (vec_code xs) ≡ 4 + length (items_code xs)
  unfolding vec_code
  length-vec_code xs = omega (
    arith,
    length-append (to_ne_bytes 4 (length xs)) (items_code xs),
    length-to_ne_bytes 4 (length xs),
  )

  pub vec_code_pos : (xs : List A) → All w.IsRepresentable xs → 1 ≤ length (vec_code xs)
  vec_code_pos xs r = omega (arith, length-vec_code xs)

  pub write_vec-code :
      (xs : List A) (o : Encoder)
      → All w.IsRepresentable xs
      → o.limit ≤ u32_max
      → write_vec xs o ≡ append (vec_code xs) o
  unfolding write_vec
  write_vec-code xs o r h = elim (Bool-cases (leb (length xs) u32_max)) [
    | inl fits ↦ rw (write_length-append (length xs) o (leb→le _ _ fits)) (
        unfold vec_code in
        append-then (to_ne_bytes 4 (length xs)) (items_code xs) o (write_items xs)
          (λ o' same. write_items-code xs o' r (omega (arith, same))))
    | inr long ↦
        let over : u32_max < length xs = ground arith in
        rw (
          write_length_too_long (length xs) o over,
          append_too_long (vec_code xs) o h
              (omega (arith, length-vec_code xs, length-le-items_code xs r)),
        )
  ]

  pub read_vec-code :
      (xs : List A) (rest : List ℕ)
      → All w.IsRepresentable xs
      → length (vec_code xs) ≤ u32_max
      → read_vec (on (vec_code xs ++ rest)) ≡ ok (xs, on rest)
  unfolding read_vec vec_code
  read_vec-code xs rest r h =
      let least = length-le-items_code xs r in
      let whole = length-vec_code xs in
      let both = length-append (items_code xs) rest in
      rw (
        append_assoc (to_ne_bytes 4 (length xs)) (items_code xs) rest,
        read_length-append (length xs) (items_code xs ++ rest) (omega arith) (omega arith),
        read_items-code xs rest r (omega arith),
      )

  pub read_vec_sound :
      (bs : List ℕ) (xs : List A) (rest : Decoder)
      → All IsByte bs
      → read_vec (on bs) ≡ ok (xs, rest)
      → All w.IsRepresentable xs × (bs ≡ vec_code xs ++ rest.bytes)
  unfolding read_vec vec_code
  read_vec_sound bs xs rest h e =
      let (p, e₁, e₂) = bind-HasRun (read_length (on bs)) _ e in
      let (n, i) = p in
      let (fits, first, enough) = read_length_sound bs n i h e₁ in
      let inside = (All-append IsByte (to_ne_bytes 4 n) i.bytes (rw first at h)).1 in
      let (len, r, second) = read_items_sound n i.bytes xs rest inside e₂ in
      (
        r,
        first
            ∙ ap (λ (z : List ℕ). to_ne_bytes 4 n ++ z) second
            ∙ ap (λ (k : ℕ). to_ne_bytes 4 k ++ (items_code xs ++ rest.bytes)) (sym len)
            ∙ sym (append_assoc (to_ne_bytes 4 (length xs)) (items_code xs) rest.bytes),
      )

  unfoldable pub vec : Wire (List A)
  unfolding write_vec read_vec vec_code
  vec = record {
    write = write_vec;
    read = read_vec;
    IsRepresentable = All w.IsRepresentable;
    code = vec_code;
    code_pos = vec_code_pos;
    write-code = write_vec-code;
    read-code = read_vec-code;
    read_sound = read_vec_sound;
  }

-- `[T; N]`, for an N that is not 0: the items alone.
module _ {A : Type 0} (n : ℕ) (w : Wire A) where
  abbrev pub IsArray : List A → Type 0
  IsArray xs = (length xs ≡ suc n) × All w.IsRepresentable xs

  pub read_array-code :
      (xs : List A) (rest : List ℕ)
      → IsArray xs
      → length (items_code w xs) ≤ u32_max
      → read_items w (suc n) (on (items_code w xs ++ rest)) ≡ ok (xs, on rest)
  read_array-code xs rest (len, r) h = rw (← len) (read_items-code w xs rest r h)

  pub IsArray-read_items :
      (bs : List ℕ) (xs : List A) (rest : Decoder)
      → All IsByte bs
      → read_items w (suc n) (on bs) ≡ ok (xs, rest)
      → IsArray xs × (bs ≡ items_code w xs ++ rest.bytes)
  IsArray-read_items bs xs rest h e =
      let (len, r, whole) = read_items_sound w (suc n) bs xs rest h e in ((len, r), whole)

  unfoldable pub array : Wire (List A)
  unfolding write_items read_items items_code
  array = record {
    write = write_items w;
    read = read_items w (suc n);
    IsRepresentable = IsArray;
    code = items_code w;
    code_pos = λ xs r. omega (arith, length-le-items_code w xs r.1, r.0);
    write-code = λ xs o r h. write_items-code w xs o r.1 h;
    read-code = read_array-code;
    read_sound = IsArray-read_items;
  }
