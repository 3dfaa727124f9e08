-- ===== src/Ipc/Codec/Laws.antt =====
-- How the operations of the encoder and the decoder compose and undo one another.
use procinsh.Prelude.{
  ℕ, ◌^◌, ◌<◌, ◌≤◌, ◌≡◌, refl, sym, ap, ◌∙◌, List, [], ◌∷◌, ◌++◌, arith, false, inl, inr, length,
  length-append, length-take, take-append-drop, take-length_append, drop-length_append, All,
  All-append, leb→le, le→leb, leb, Bool-cases, ok, err, ◌>>=◌, bind-HasRun,
}
use procinsh.Ipc.Codec.{
  Encoder, Decoder, Fallible, u32_max, limit_exceeded, append, to_ne_bytes, from_ne_bytes,
  write_number, write_length, write_blob, take_bytes, read_number, read_length, read_blob,
}
use procinsh.Ipc.Codec.Bytes.{
  IsByte, length-to_ne_bytes, from_ne_bytes-to_ne_bytes, from_ne_bytes_lt,
  to_ne_bytes-from_ne_bytes,
}
use mathlib.Core.List.{append_assoc, append-nil}
use native.Mathlib.Nat.{mod-eq_of_lt}

abbrev pub on : List ℕ → Decoder
on bytes = record { bytes = bytes }

-- Two appends are one, in success and in failure.
pub append-append :
    (xs ys : List ℕ) (o : Encoder) → (append xs o >>= append ys) ≡ append (xs ++ ys) o
unfolding append
append-append xs ys o =
    ground (arith, length-append o.bytes xs, length-append xs ys, append_assoc o.bytes xs ys)

pub append-nil_lem : (o : Encoder) → append [] o ≡ ok o
unfolding append
append-nil_lem o = ground (arith, append-nil o.bytes)

-- An encoder whose limit is below 2^32 refuses what no u32 length can describe.
pub append_too_long :
    (xs : List ℕ) (o : Encoder)
    → o.limit ≤ u32_max
    → u32_max < length xs
    → append xs o ≡ err limit_exceeded
unfolding append
append_too_long xs o h k = ground arith

pub take_bytes-append :
    (xs rest : List ℕ) → take_bytes (length xs) (on (xs ++ rest)) ≡ ok (xs, on rest)
unfolding take_bytes
take_bytes-append xs rest = rw (
  le→leb (length xs) (length (xs ++ rest)) (omega (arith, length-append xs rest)),
  take-length_append xs rest,
  drop-length_append xs rest,
)

pub take_bytes_sound :
    (n : ℕ) (bs xs : List ℕ) (rest : Decoder)
    → take_bytes n (on bs) ≡ ok (xs, rest)
    → (bs ≡ xs ++ rest.bytes) × (length xs ≡ n)
unfolding take_bytes
take_bytes_sound n bs xs rest h = ground (arith, take-append-drop n bs, length-take n bs)

pub read_number-append :
    (size value : ℕ) (rest : List ℕ)
    → value < 256 ^ size
    → read_number size (on (to_ne_bytes size value ++ rest)) ≡ ok (value, on rest)
unfolding read_number
read_number-append size value rest h = cc (
  ap (λ (n : ℕ). take_bytes n (on (to_ne_bytes size value ++ rest)))
      (length-to_ne_bytes size value),
  take_bytes-append (to_ne_bytes size value) rest,
  from_ne_bytes-to_ne_bytes size value h,
)

pub read_number_sound :
    (size : ℕ) (bs : List ℕ) (value : ℕ) (rest : Decoder)
    → All IsByte bs
    → read_number size (on bs) ≡ ok (value, rest)
    → (value < 256 ^ size) × (bs ≡ to_ne_bytes size value ++ rest.bytes)
unfolding read_number
read_number_sound size bs value rest h e =
    let (p, e₁, e₂) = bind-HasRun (take_bytes size (on bs)) _ e in
    let (xs, rest') = p in
    let (whole, len) = take_bytes_sound size bs xs rest' e₁ in
    let bytes = (All-append IsByte xs rest'.bytes (rw whole at h)).0 in
    let same : rest ≡ rest' = cc e₂ in
    let v : value ≡ from_ne_bytes xs = cc e₂ in
    let back = to_ne_bytes-from_ne_bytes xs bytes in
    (
      rw (v, ← len) (from_ne_bytes_lt xs bytes),
      rw (whole, same, v) (ap (λ (z : List ℕ). z ++ rest'.bytes) (sym (rw len at back))),
    )

-- What the wire holds for a sequence of bytes: its length as a u32, and the bytes.
abbrev pub blob_code : List ℕ → List ℕ
blob_code bytes = to_ne_bytes 4 (length bytes) ++ bytes

pub read_length-append :
    (n : ℕ) (rest : List ℕ)
    → n ≤ u32_max
    → n ≤ length rest
    → read_length (on (to_ne_bytes 4 n ++ rest)) ≡ ok (n, on rest)
unfolding read_length
read_length-append n rest h k = rw (read_number-append 4 n rest (omega arith)) (ground arith)

pub read_length_sound :
    (bs : List ℕ) (n : ℕ) (rest : Decoder)
    → All IsByte bs
    → read_length (on bs) ≡ ok (n, rest)
    → (n ≤ u32_max) × (bs ≡ to_ne_bytes 4 n ++ rest.bytes) × (n ≤ length rest.bytes)
unfolding read_length
read_length_sound bs n rest h e =
    let (p, e₁, e₂) = bind-HasRun (read_number 4 (on bs)) _ e in
    let (m, rest') = p in
    let (fits, whole) = read_number_sound 4 bs m rest' h e₁ in ground (arith, fits, whole)

pub write_length-append :
    (n : ℕ) (o : Encoder) → n ≤ u32_max → write_length n o ≡ append (to_ne_bytes 4 n) o
unfolding write_length write_number
write_length-append n o h = ground arith

pub write_length_too_long :
    (n : ℕ) (o : Encoder) → u32_max < n → write_length n o ≡ err limit_exceeded
unfolding write_length
write_length_too_long n o h = ground arith

pub write_blob-append :
    (xs : List ℕ) (o : Encoder) → o.limit ≤ u32_max → write_blob xs o ≡ append (blob_code xs) o
unfolding write_blob
write_blob-append xs o h = elim (Bool-cases (leb (length xs) u32_max)) [
  | inl fits ↦
      rw (write_length-append (length xs) o (leb→le _ _ fits))
        (append-append (to_ne_bytes 4 (length xs)) xs o)
  | inr long ↦ rw (
    write_length_too_long (length xs) o (ground arith),
    append_too_long (blob_code xs) o h
        (omega (arith, length-append (to_ne_bytes 4 (length xs)) xs, too_long xs long)),
  )
]
  where
    too_long : (xs : List ℕ) → leb (length xs) u32_max ≡ false → u32_max < length xs
    too_long xs e = ground arith

pub read_blob-append :
    (xs rest : List ℕ)
    → length xs ≤ u32_max
    → read_blob (on (blob_code xs ++ rest)) ≡ ok (xs, on rest)
unfolding read_blob
read_blob-append xs rest h =
    rw
      (
        append_assoc (to_ne_bytes 4 (length xs)) xs rest,
        read_length-append (length xs) (xs ++ rest) h (omega (arith, length-append xs rest)),
      )
      (take_bytes-append xs rest)

pub read_blob_sound :
    (bs xs : List ℕ) (rest : Decoder)
    → All IsByte bs
    → read_blob (on bs) ≡ ok (xs, rest)
    → (length xs ≤ u32_max) × (bs ≡ blob_code xs ++ rest.bytes) × All IsByte xs
unfolding read_blob
read_blob_sound bs xs rest h e =
    let (p, e₁, e₂) = bind-HasRun (read_length (on bs)) _ e in
    let (n, rest') = p in
    let (fits, whole, _) = read_length_sound bs n rest' h e₁ in
    let (part, len) = take_bytes_sound n rest'.bytes xs rest e₂ in
    let inside : All IsByte rest'.bytes =
      (All-append IsByte (to_ne_bytes 4 n) _ (rw whole at h)).1 in
    (
      omega arith,
      rw (whole, part, ← len, append_assoc (to_ne_bytes 4 (length xs)) xs rest.bytes),
      (All-append IsByte xs rest.bytes (rw part at inside)).0,
    )

-- An append followed by a writer that appends, whatever the encoder holds by then.
pub append-then :
    (xs ys : List ℕ) (o : Encoder) (f : Encoder → Fallible Encoder)
    → ((o' : Encoder) → o'.limit ≡ o.limit → f o' ≡ append ys o')
    → (append xs o >>= f) ≡ append (xs ++ ys) o
append-then xs ys o f h = bind-cong (append xs o) (limit-append xs o) ∙ append-append xs ys o
  where
    limit-append :
        (xs : List ℕ) (o : Encoder) (o' : Encoder) → append xs o ≡ ok o' → o'.limit ≡ o.limit
    limit-append xs o o' e = unfold append in ground arith

    bind-cong :
        (m : Fallible Encoder)
        → ((o' : Encoder) → m ≡ ok o' → o'.limit ≡ o.limit)
        → (m >>= f) ≡ (m >>= append ys)
    bind-cong (ok o') same = h o' (same o' refl)
    bind-cong (err e) same = refl

-- One byte in front, such as a tag.
pub write_byte : (t : ℕ) (o : Encoder) → t < 256 → write_number 1 t o ≡ append (t ∷ []) o
unfolding write_number to_ne_bytes
write_byte t o h = rw (mod-eq_of_lt h)

pub read_byte : (t : ℕ) (rest : List ℕ) → t < 256 → read_number 1 (on (t ∷ rest)) ≡ ok (t, on rest)
read_byte t rest h =
    let whole = read_number-append 1 t rest (omega arith) in
    unfold to_ne_bytes in (rw (mod-eq_of_lt h) at whole)

pub read_byte_sound :
    (bs : List ℕ) (t : ℕ) (rest : Decoder)
    → All IsByte bs
    → read_number 1 (on bs) ≡ ok (t, rest)
    → (t < 256) × (bs ≡ t ∷ rest.bytes)
read_byte_sound bs t rest h e =
    let (fits, whole) = read_number_sound 1 bs t rest h e in
    let small : t < 256 = omega arith in
    (small, unfold to_ne_bytes in (rw (mod-eq_of_lt small) at whole))
