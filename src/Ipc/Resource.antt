-- ===== src/Ipc/Resource.antt =====
-- src/ipc/model/resource.rs: resource identities, as they go over the wire.
use procinsh.Prelude.{ℕ, ◌≡◌, refl, ◌⊎◌, inl, inr}
use procinsh.Ipc.Codec.{invalid_tag}
use procinsh.Ipc.Codec.Wire.{Wire}
use procinsh.Ipc.Codec.Combine.{◌⊗◌, wire_struct}
use procinsh.Ipc.Codec.Values.{u32, u64}
use procinsh.Ipc.Codec.Enums.{arm, last, bare, with, wire_enum}

pub record DeviceId : Type 0 where
  pub major : ℕ
  pub minor : ℕ

unfoldable pub device_id_wire : Wire DeviceId
unfolding wire_struct
device_id_wire =
    wire_struct (u32 ⊗ u32) (λ r. (r.major, r.minor)) (λ t. record { major = t.0; minor = t.1 })
      (λ r. refl) (λ t. refl)

pub data IpcKind : Type 0 where
  pipe socket : IpcKind

abbrev IpcKindSum : Type 0
IpcKindSum = Unit {0} ⊎ Unit {0}

to_ipc_kind : IpcKind → IpcKindSum
to_ipc_kind IpcKind.pipe = inl tt
to_ipc_kind IpcKind.socket = inr tt

of_ipc_kind : IpcKindSum → IpcKind
of_ipc_kind (inl _) = IpcKind.pipe
of_ipc_kind (inr _) = IpcKind.socket

of_ipc_kind-to_ipc_kind : (e : IpcKind) → of_ipc_kind (to_ipc_kind e) ≡ e
unfolding of_ipc_kind to_ipc_kind
of_ipc_kind-to_ipc_kind IpcKind.pipe = refl
of_ipc_kind-to_ipc_kind _ = refl

to_ipc_kind-of_ipc_kind : (x : IpcKindSum) → to_ipc_kind (of_ipc_kind x) ≡ x
unfolding of_ipc_kind to_ipc_kind
to_ipc_kind-of_ipc_kind (inl x) = refl
to_ipc_kind-of_ipc_kind (inr x) = refl

unfoldable pub ipc_kind_wire : Wire IpcKind
unfolding wire_enum arm last bare with to_ipc_kind of_ipc_kind of_ipc_kind-to_ipc_kind
    to_ipc_kind-of_ipc_kind
ipc_kind_wire =
    wire_enum (arm 0 refl bare (last invalid_tag 1 refl bare) refl) to_ipc_kind of_ipc_kind
      of_ipc_kind-to_ipc_kind to_ipc_kind-of_ipc_kind

pub record IpcIdentity : Type 0 where
  pub kind : IpcKind
  pub device : DeviceId
  pub inode : ℕ

unfoldable pub ipc_identity_wire : Wire IpcIdentity
unfolding wire_struct
ipc_identity_wire =
    wire_struct (ipc_kind_wire ⊗ device_id_wire ⊗ u64) (λ r. (r.kind, (r.device, r.inode)))
      (λ t. record { kind = t.0; device = t.1.0; inode = t.1.1 }) (λ r. refl) (λ t. refl)

pub record FileIdentity : Type 0 where
  pub device : DeviceId
  pub inode : ℕ
  pub generation : ℕ

unfoldable pub file_identity_wire : Wire FileIdentity
unfolding wire_struct
file_identity_wire =
    wire_struct (device_id_wire ⊗ u64 ⊗ u32) (λ r. (r.device, (r.inode, r.generation)))
      (λ t. record { device = t.0; inode = t.1.0; generation = t.1.1 }) (λ r. refl) (λ t. refl)
