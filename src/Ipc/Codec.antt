-- ===== src/Ipc/Codec.antt =====
-- src/ipc/codec.rs: the encoder, the decoder and the number formats. Both supported targets
-- (x86-64 and AArch64) are little-endian with a 64-bit usize, which fixes the native byte order.
pub mod Bytes
pub mod Laws
pub mod Wire
pub mod Combine
pub mod Values
pub mod Lists
pub mod Choices
pub mod Enums
pub mod Addresses
pub mod Written
use procinsh.Prelude.{
  ℕ, zero, suc, ◌+◌, ◌-◌, ◌*◌, ◌/◌, ◌%◌, ◌^◌, ◌<◌, min, Bool, true, false, List, [], ◌∷◌, ◌++◌, leb,
  ltb, length, take, drop, if◌then◌else◌, Result, ok, err, ◌>>=◌,
}

-- The messages of `bail!` and `ensure!`, and the type `LimitExceeded`.
pub data CodecError : Type 0 where
  limit_exceeded truncated invalid_length trailing_bytes : CodecError
  invalid_boolean invalid_option invalid_result invalid_ip_family invalid_tag : CodecError
  invalid_utf8 invalid_register_count chunk_too_large : CodecError

abbrev pub Fallible : Type 0 → Type 0
Fallible A = Result CodecError A

pub record Encoder : Type 0 where
  pub bytes : List ℕ
  pub limit : ℕ

pub record Decoder : Type 0 where
  pub bytes : List ℕ

abbrev pub u32_max : ℕ
u32_max = 4294967295

-- `saturating_sub` is the subtraction of ℕ.
unfoldable pub append : List ℕ → Encoder → Fallible Encoder
append bytes output =
    if ltb (output.limit - length output.bytes) (length bytes)
    then err limit_exceeded
    else ok (record output { bytes = output.bytes ++ bytes })

-- `to_ne_bytes` of a number of `size` bytes.
unfoldable pub to_ne_bytes : ℕ → ℕ → List ℕ
to_ne_bytes zero value = []
to_ne_bytes (suc size) value = value % 256 ∷ to_ne_bytes size (value / 256)

unfoldable pub from_ne_bytes : List ℕ → ℕ
from_ne_bytes [] = 0
from_ne_bytes (b ∷ bytes) = b + 256 * from_ne_bytes bytes

unfoldable pub write_number : ℕ → ℕ → Encoder → Fallible Encoder
write_number size value output = append (to_ne_bytes size value) output

unfoldable pub write_length : ℕ → Encoder → Fallible Encoder
write_length length output =
    if leb length u32_max then write_number 4 length output else err limit_exceeded

unfoldable pub write_blob : List ℕ → Encoder → Fallible Encoder
write_blob bytes output = write_length (length bytes) output >>= append bytes

unfoldable pub take_bytes : ℕ → Decoder → Fallible (List ℕ × Decoder)
take_bytes length input =
    if leb length (procinsh.Prelude.length input.bytes)
    then ok (take length input.bytes, record { bytes = drop length input.bytes })
    else err truncated

unfoldable pub read_number : ℕ → Decoder → Fallible (ℕ × Decoder)
read_number size input = do (bytes, input) ← take_bytes size input; ok (from_ne_bytes bytes, input)

unfoldable pub read_length : Decoder → Fallible (ℕ × Decoder)
read_length input = do
  (length, input) ← read_number 4 input
  if leb length (procinsh.Prelude.length input.bytes)
      then ok (length, input)
      else err invalid_length

unfoldable pub read_blob : Decoder → Fallible (List ℕ × Decoder)
read_blob input = do (length, input) ← read_length input; take_bytes length input
