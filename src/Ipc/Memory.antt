-- ===== src/Ipc/Memory.antt =====
-- src/ipc/model/memory.rs: memory mappings, as they go over the wire.
use procinsh.Prelude.{ℕ, ◌≡◌, refl, ◌⊎◌, inl, inr, Bool, Option, List}
use procinsh.Ipc.Codec.{invalid_tag}
use procinsh.Ipc.Codec.Wire.{Wire}
use procinsh.Ipc.Codec.Combine.{◌⊗◌, wire_struct}
use procinsh.Ipc.Codec.Values.{u64, bool, Text, string}
use procinsh.Ipc.Codec.Lists.{vec}
use procinsh.Ipc.Codec.Choices.{option}
use procinsh.Ipc.Codec.Enums.{arm, last, bare, with, wire_enum}
use procinsh.Ipc.Resource.{DeviceId, device_id_wire}

pub data MemoryKind : Type 0 where
  integer stack heap shared_library executable file anonymous : MemoryKind

abbrev MemoryKindSum : Type 0
MemoryKindSum = Unit {0} ⊎ (Unit {0} ⊎ (Unit {0} ⊎ (Unit {0} ⊎ (Unit {0} ⊎ (Unit {0} ⊎ Unit {0})))))

to_memory_kind : MemoryKind → MemoryKindSum
to_memory_kind MemoryKind.integer = inl tt
to_memory_kind MemoryKind.stack = inr (inl tt)
to_memory_kind MemoryKind.heap = inr (inr (inl tt))
to_memory_kind MemoryKind.shared_library = inr (inr (inr (inl tt)))
to_memory_kind MemoryKind.executable = inr (inr (inr (inr (inl tt))))
to_memory_kind MemoryKind.file = inr (inr (inr (inr (inr (inl tt)))))
to_memory_kind MemoryKind.anonymous = inr (inr (inr (inr (inr (inr tt)))))

of_memory_kind : MemoryKindSum → MemoryKind
of_memory_kind (inl _) = MemoryKind.integer
of_memory_kind (inr (inl _)) = MemoryKind.stack
of_memory_kind (inr (inr (inl _))) = MemoryKind.heap
of_memory_kind (inr (inr (inr (inl _)))) = MemoryKind.shared_library
of_memory_kind (inr (inr (inr (inr (inl _))))) = MemoryKind.executable
of_memory_kind (inr (inr (inr (inr (inr (inl _)))))) = MemoryKind.file
of_memory_kind (inr (inr (inr (inr (inr (inr _)))))) = MemoryKind.anonymous

of_memory_kind-to_memory_kind : (e : MemoryKind) → of_memory_kind (to_memory_kind e) ≡ e
unfolding of_memory_kind to_memory_kind
of_memory_kind-to_memory_kind MemoryKind.integer = refl
of_memory_kind-to_memory_kind _ = refl

to_memory_kind-of_memory_kind : (x : MemoryKindSum) → to_memory_kind (of_memory_kind x) ≡ x
unfolding of_memory_kind to_memory_kind
to_memory_kind-of_memory_kind (inl x) = refl
to_memory_kind-of_memory_kind (inr (inl x)) = refl
to_memory_kind-of_memory_kind (inr (inr (inl x))) = refl
to_memory_kind-of_memory_kind (inr (inr (inr (inl x)))) = refl
to_memory_kind-of_memory_kind (inr (inr (inr (inr (inl x))))) = refl
to_memory_kind-of_memory_kind (inr (inr (inr (inr (inr (inl x)))))) = refl
to_memory_kind-of_memory_kind (inr (inr (inr (inr (inr (inr x)))))) = refl

unfoldable pub memory_kind_wire : Wire MemoryKind
unfolding wire_enum arm last bare with to_memory_kind of_memory_kind of_memory_kind-to_memory_kind
    to_memory_kind-of_memory_kind
memory_kind_wire =
    wire_enum
      (arm 0 refl bare
        (arm 1 refl bare
          (arm 2 refl bare
            (arm 3 refl bare
              (arm 4 refl bare (arm 5 refl bare (last invalid_tag 6 refl bare) refl) refl) refl)
            refl)
          refl)
        refl)
      to_memory_kind of_memory_kind of_memory_kind-to_memory_kind to_memory_kind-of_memory_kind

pub record MemoryMap : Type 0 where
  pub start : ℕ
  pub end : ℕ
  pub readable : Bool
  pub writable : Bool
  pub executable : Bool
  pub private : Bool
  pub file_offset : ℕ
  pub device : DeviceId
  pub inode : ℕ
  pub pathname : Option Text

unfoldable pub memory_map_wire : Wire MemoryMap
unfolding wire_struct
memory_map_wire =
    wire_struct (u64 ⊗ u64 ⊗ bool ⊗ bool ⊗ bool ⊗ bool ⊗ u64 ⊗ device_id_wire ⊗ u64 ⊗ option string)
      (λ r. (
        r.start,
        (
          r.end,
          (
            r.readable,
            (
              r.writable,
              (r.executable, (r.private, (r.file_offset, (r.device, (r.inode, r.pathname))))),
            ),
          ),
        ),
      ))
      (λ t. record {
        start = t.0;
        end = t.1.0;
        readable = t.1.1.0;
        writable = t.1.1.1.0;
        executable = t.1.1.1.1.0;
        private = t.1.1.1.1.1.0;
        file_offset = t.1.1.1.1.1.1.0;
        device = t.1.1.1.1.1.1.1.0;
        inode = t.1.1.1.1.1.1.1.1.0;
        pathname = t.1.1.1.1.1.1.1.1.1;
      })
      (λ r. refl) (λ t. refl)

pub record SmapsEntry : Type 0 where
  pub mapping : MemoryMap
  pub rss_bytes : Option ℕ
  pub pss_bytes : Option ℕ

unfoldable pub smaps_entry_wire : Wire SmapsEntry
unfolding wire_struct
smaps_entry_wire =
    wire_struct (memory_map_wire ⊗ option u64 ⊗ option u64)
      (λ r. (r.mapping, (r.rss_bytes, r.pss_bytes)))
      (λ t. record { mapping = t.0; rss_bytes = t.1.0; pss_bytes = t.1.1 }) (λ r. refl) (λ t. refl)

pub record MappingSnapshot : Type 0 where
  pub epoch : ℕ
  pub maps : List MemoryMap

unfoldable pub mapping_snapshot_wire : Wire MappingSnapshot
unfolding wire_struct
mapping_snapshot_wire =
    wire_struct (u64 ⊗ vec memory_map_wire) (λ r. (r.epoch, r.maps))
      (λ t. record { epoch = t.0; maps = t.1 }) (λ r. refl) (λ t. refl)
