-- ===== src/Ipc/Codec/Wire.antt =====
-- The trait `Wire` of src/ipc/codec.rs, and the entry points `encode` and `decode`. Beside the two
-- operations the record carries an independent description of the wire format (`code`), and the laws
-- by which the operations implement it.
pub mod Correct
use procinsh.Prelude.{
  ℕ, suc, ◌≤◌, ◌≡◌, List, [], ◌++◌, min, All, length, if◌then◌else◌, ok, err, ◌>>=◌, Bool, true,
  false,
}
use procinsh.Ipc.Codec.{Encoder, Decoder, Fallible, u32_max, trailing_bytes, append}
use procinsh.Ipc.Codec.Bytes.{IsByte}
use procinsh.Ipc.Codec.Laws.{on}

pub record Wire (A : Type 0) : Type 1 where
  pub write : A → Encoder → Fallible Encoder
  pub read : Decoder → Fallible (A × Decoder)
  -- The values that come back as they were written: numbers in range, text in UTF-8, arrays and register
  -- sets of their length, file chunks of 64 MiB at most, and live samples without `context`, which is not
  -- written.
  pub IsRepresentable : A → Type 0
  -- The bytes that stand for a value.
  pub code : A → List ℕ
  pub code_pos : (a : A) → IsRepresentable a → 1 ≤ length (code a)
  pub write-code :
      (a : A) (o : Encoder) → IsRepresentable a → o.limit ≤ u32_max → write a o ≡ append (code a) o
  pub read-code :
      (a : A) (rest : List ℕ)
      → IsRepresentable a
      → length (code a) ≤ u32_max
      → read (on (code a ++ rest)) ≡ ok (a, on rest)
  -- What `read` accepts is the code of the value that it returns.
  pub read_sound :
      (bs : List ℕ) (a : A) (rest : Decoder)
      → All IsByte bs
      → read (on bs) ≡ ok (a, rest)
      → IsRepresentable a × (bs ≡ code a ++ rest.bytes)

is_empty : List ℕ → Bool
is_empty [] = true
is_empty _ = false

module _ {A : Type 0} (w : Wire A) where
  unfoldable pub encode : A → ℕ → Fallible (List ℕ)
  encode value limit = do
    output ← w.write value (record { bytes = []; limit = min limit u32_max })
    ok output.bytes

  unfoldable pub decode : List ℕ → Fallible A
  unfolding is_empty
  decode bytes = do
    (value, input) ← w.read (record { bytes = bytes })
    if is_empty input.bytes then ok value else err trailing_bytes

  -- One value is written as another.
  abbrev pub IsWrittenAs : A → A → Type 0
  IsWrittenAs a b = w.write a ≡ w.write b
