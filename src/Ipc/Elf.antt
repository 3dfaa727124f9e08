-- ===== src/Ipc/Elf.antt =====
-- src/ipc/elf.rs: mapped file transfers, as they go over the wire.
use procinsh.Prelude.{
  ℕ, ◌^◌, ◌<◌, ◌≤◌, ◌≡◌, refl, inl, inr, List, All, length, leb, leb→le, le→leb, if◌then◌else◌,
  Bool-cases, ok-injective,
}
use procinsh.Prelude.{ok, err}
use procinsh.Prelude.Int.{ℤ}
use procinsh.Ipc.Codec.{Fallible, chunk_too_large}
use procinsh.Ipc.Codec.Bytes.{IsByte}
use procinsh.Ipc.Codec.Wire.{Wire}
use procinsh.Ipc.Codec.Combine.{◌⊗◌, wire_struct, wire_as}
use procinsh.Ipc.Codec.Values.{u64, i64, number, blob}
use procinsh.Ipc.Codec.Lists.{vec}

pub record FileRange : Type 0 where
  pub offset : ℕ
  pub length : ℕ

unfoldable pub file_range_wire : Wire FileRange
unfolding wire_struct
file_range_wire =
    wire_struct (u64 ⊗ u64) (λ r. (r.offset, r.length)) (λ t. record { offset = t.0; length = t.1 })
      (λ r. refl) (λ t. refl)

pub record FileChunk : Type 0 where
  pub offset : ℕ
  pub bytes : List ℕ

abbrev pub max_read_size : ℕ
max_read_size = 67108864

of_chunk_fields : ℕ × List ℕ → Fallible FileChunk
of_chunk_fields t =
    if leb (length t.1) max_read_size
    then ok (record { offset = t.0; bytes = t.1 })
    else err chunk_too_large

abbrev pub IsFileChunk : FileChunk → Type 0
IsFileChunk r = (r.offset < 256 ^ 8) × All IsByte r.bytes × (length r.bytes ≤ max_read_size)

chunk_rep :
    (r : FileChunk)
    → IsFileChunk r
    → (u64 ⊗ blob).IsRepresentable (r.offset, r.bytes)
      × (of_chunk_fields (r.offset, r.bytes) ≡ ok r)
unfolding of_chunk_fields ◌⊗◌ number blob
chunk_rep r (offset, bytes, short) =
    ((offset, bytes), rw (le→leb (length r.bytes) max_read_size short))

chunk_sound :
    (t : ℕ × List ℕ) (r : FileChunk)
    → (u64 ⊗ blob).IsRepresentable t
    → of_chunk_fields t ≡ ok r
    → IsFileChunk r × (t ≡ (r.offset, r.bytes))
unfolding of_chunk_fields ◌⊗◌ number blob
chunk_sound t r (offset, bytes) e = elim (Bool-cases (leb (length t.1) max_read_size)) [
  | inl short ↦
      let same : record { offset = t.0; bytes = t.1 } ≡ r = ok-injective (rw short at e) in
      rw (← same) ((offset, bytes, leb→le (length t.1) max_read_size short), refl)
  | inr long ↦ let wrong : err chunk_too_large ≡ ok r = rw long at e in cc wrong
]

unfoldable pub file_chunk_wire : Wire FileChunk
unfolding of_chunk_fields chunk_rep chunk_sound wire_as
file_chunk_wire =
    wire_as (u64 ⊗ blob) (λ r. (r.offset, r.bytes)) of_chunk_fields IsFileChunk chunk_rep
      chunk_sound

pub record MappedFileData : Type 0 where
  pub identity : ℕ × (ℕ × (ℕ × (ℤ × ℤ)))
  pub chunks : List FileChunk

unfoldable pub mapped_file_data_wire : Wire MappedFileData
unfolding wire_struct
mapped_file_data_wire =
    wire_struct ((u64 ⊗ u64 ⊗ u64 ⊗ i64 ⊗ i64) ⊗ vec file_chunk_wire) (λ r. (r.identity, r.chunks))
      (λ t. record { identity = t.0; chunks = t.1 }) (λ r. refl) (λ t. refl)
