-- ===== src/Ipc/Codec/Values.antt =====
-- Numbers, booleans, blobs and text: the scalar impls of `Wire` in src/ipc/codec.rs.
mod Utf8
pub use Utf8.{Text}
unfoldable pub use Utf8.{is_utf8}
use procinsh.Prelude.{
  ℕ, zero, suc, ◌+◌, ◌*◌, ◌^◌, ◌≤◌, ◌<◌, ◌≡◌, refl, sym, ap, ◌∙◌, Bool, true, false, List, [], ◌∷◌,
  ◌++◌, arith, All, length, length-append, if◌then◌else◌, Result, ok, err, ◌>>=◌, bind-HasRun,
  Bool-cases, inl, inr,
}
use procinsh.Prelude.Int.{
  ℤ, IsSigned, to_pattern, of_pattern, of_pattern-to_pattern, to_pattern_lt, to_pattern-of_pattern,
}
use procinsh.Ipc.Codec.{
  Encoder, Decoder, Fallible, u32_max, invalid_boolean, invalid_utf8, append, to_ne_bytes,
  write_number, read_number, write_blob, read_blob,
}
use procinsh.Ipc.Codec.Bytes.{IsByte, length-to_ne_bytes}
use procinsh.Ipc.Codec.Laws.{
  on, read_number-append, read_number_sound, write_byte, read_byte, read_byte_sound, blob_code,
  write_blob-append, read_blob-append, read_blob_sound,
}
use procinsh.Ipc.Codec.Wire.{Wire}
use procinsh.Ipc.Codec.Combine.{wire_as}

-- `number!`, for a type of `suc n` bytes without a sign.
unfoldable pub number : ℕ → Wire ℕ
unfolding write_number read_number to_ne_bytes
number n = record {
  write = write_number (suc n);
  read = read_number (suc n);
  IsRepresentable = λ v. v < 256 ^ suc n;
  code = to_ne_bytes (suc n);
  code_pos = λ v r. omega (arith, length-to_ne_bytes (suc n) v);
  write-code = λ v o r h. refl;
  read-code = λ v rest r h. read_number-append (suc n) v rest r;
  read_sound = λ bs v rest h e. read_number_sound (suc n) bs v rest h e;
}

abbrev pub u8 : Wire ℕ
u8 = number 0

abbrev pub u16 : Wire ℕ
u16 = number 1

abbrev pub u32 : Wire ℕ
u32 = number 3

abbrev pub u64 : Wire ℕ
u64 = number 7

abbrev pub usize : Wire ℕ
usize = number 7

-- An f64 goes over the wire as its bits. Nothing else of it is modelled here.
pub record F64 : Type 0 where
  pub bits : ℕ

f64_sound :
    (b : ℕ) (x : F64)
    → b < 256 ^ 8
    → ◌≡◌ {A = Fallible F64} (ok (record { bits = b })) (ok x)
    → (x.bits < 256 ^ 8) × (b ≡ x.bits)
f64_sound b x r e = let same : b ≡ x.bits = cc e in (rw (← same) r, same)

unfoldable pub f64 : Wire F64
unfolding number f64_sound wire_as
f64 =
    wire_as (number 7) (λ x. x.bits) (λ b. ok (record { bits = b })) (λ x. x.bits < 256 ^ 8)
      (λ x r. (r, refl)) f64_sound

-- A signed number of `suc n` bytes, by its two's complement pattern.
module _ (n half : ℕ) (range : 256 ^ suc n ≡ 2 * half) where
  pub signed_rep :
      (z : ℤ)
      → IsSigned half z
      → (number n).IsRepresentable (to_pattern half z)
        × (◌≡◌ {A = Fallible ℤ} (ok (of_pattern half (to_pattern half z))) (ok z))
  unfolding number
  signed_rep z r =
      (omega (arith, range, to_pattern_lt half z r), ap ok (of_pattern-to_pattern half z r))

  pub of_pattern_sound :
      (b : ℕ) (z : ℤ)
      → (number n).IsRepresentable b
      → ◌≡◌ {A = Fallible ℤ} (ok (of_pattern half b)) (ok z)
      → IsSigned half z × (b ≡ to_pattern half z)
  unfolding number
  of_pattern_sound b z r e =
      let (signed, back) = to_pattern-of_pattern half b (omega (arith, range)) in
      let same : of_pattern half b ≡ z = cc e in rw (← same) (signed, sym back)

  unfoldable pub signed : Wire ℤ
  unfolding wire_as to_pattern of_pattern
  signed =
      wire_as (number n) (to_pattern half) (λ b. ok (of_pattern half b)) (IsSigned half) signed_rep
        of_pattern_sound

unfoldable pub i32 : Wire ℤ
unfolding signed
i32 = signed 3 0x80000000 refl

unfoldable pub i64 : Wire ℤ
unfolding signed
i64 = signed 7 0x8000000000000000 refl

unfoldable pub from_bool : Bool → ℕ
from_bool false = 0
from_bool true = 1

unfoldable pub to_bool : ℕ → Fallible Bool
to_bool zero = ok false
to_bool (suc zero) = ok true
to_bool (suc (suc n)) = err invalid_boolean

to_bool-from_bool : (b : Bool) → to_bool (from_bool b) ≡ ok b
unfolding to_bool from_bool
to_bool-from_bool false = refl
to_bool-from_bool true = refl

from_bool-to_bool : (n : ℕ) (b : Bool) → to_bool n ≡ ok b → n ≡ from_bool b
unfolding to_bool from_bool
from_bool-to_bool n b e = ground arith

unfoldable pub bool : Wire Bool
unfolding to_bool from_bool number wire_as to_bool-from_bool from_bool-to_bool
bool =
    wire_as (number 0) from_bool to_bool (λ b. from_bool b < 256 ^ 1)
      (λ b r. (r, to_bool-from_bool b))
      (λ n b r e. (rw (← from_bool-to_bool n b e) r, from_bool-to_bool n b e))

-- A sequence of bytes behind its length: `Encoder::blob` and `Decoder::blob`.
abbrev pub IsBlob : List ℕ → Type 0
IsBlob bytes = All IsByte bytes × (length bytes ≤ u32_max)

pub read_blob_whole :
    (bs xs : List ℕ) (rest : Decoder)
    → All IsByte bs
    → read_blob (on bs) ≡ ok (xs, rest)
    → All IsByte xs × (bs ≡ blob_code xs ++ rest.bytes)
read_blob_whole bs xs rest h e =
    let (fits, whole, bytes) = read_blob_sound bs xs rest h e in (bytes, whole)

pub length-blob_code : (xs : List ℕ) → length (blob_code xs) ≡ 4 + length xs
length-blob_code xs =
    omega (arith, length-append (to_ne_bytes 4 (length xs)) xs, length-to_ne_bytes 4 (length xs))

unfoldable pub blob : Wire (List ℕ)
unfolding write_blob read_blob
blob = record {
  write = write_blob;
  read = read_blob;
  IsRepresentable = All IsByte;
  code = blob_code;
  code_pos = λ xs r. omega (arith, length-blob_code xs);
  write-code = λ xs o r h. write_blob-append xs o h;
  read-code = λ xs rest r h. read_blob-append xs rest (omega (arith, length-blob_code xs));
  read_sound = read_blob_whole;
}

-- `std::str::from_utf8(..)?.to_owned()`
unfoldable pub from_utf8 : List ℕ → Fallible Text
from_utf8 bytes = if is_utf8 bytes then ok (record { bytes = bytes }) else err invalid_utf8

abbrev pub IsText : Text → Type 0
IsText s = All IsByte s.bytes × (is_utf8 s.bytes ≡ true)

text_rep : (s : Text) → IsText s → blob.IsRepresentable s.bytes × (from_utf8 s.bytes ≡ ok s)
unfolding blob from_utf8
text_rep s (bytes, valid) = (bytes, rw valid)

text_sound :
    (bytes : List ℕ) (s : Text)
    → blob.IsRepresentable bytes
    → from_utf8 bytes ≡ ok s
    → IsText s × (bytes ≡ s.bytes)
unfolding blob from_utf8
text_sound bytes s r e = elim (Bool-cases (is_utf8 bytes)) [
  | inl valid ↦
      let same : bytes ≡ s.bytes = ground arith in ((rw same at r, rw same at valid), same)
  | inr bad ↦ absurd (ground arith)
]

unfoldable pub string : Wire Text
unfolding from_utf8 blob wire_as text_rep text_sound
string = wire_as blob (λ s. s.bytes) from_utf8 IsText text_rep text_sound
