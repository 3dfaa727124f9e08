-- ===== src/Ipc/SocketTypes/Access.antt =====
-- src/ipc/model/socket_types.rs: descriptor kinds and access modes, as they go over the wire.
use procinsh.Prelude.{◌≡◌, refl, ◌⊎◌, inl, inr}
use procinsh.Ipc.Codec.{invalid_tag}
use procinsh.Ipc.Codec.Wire.{Wire}
use procinsh.Ipc.Codec.Enums.{arm, last, bare, with, wire_enum}

pub data FdKind : Type 0 where
  pipe socket fifo : FdKind

abbrev FdKindSum : Type 0
FdKindSum = Unit {0} ⊎ (Unit {0} ⊎ Unit {0})

to_fd_kind : FdKind → FdKindSum
to_fd_kind FdKind.pipe = inl tt
to_fd_kind FdKind.socket = inr (inl tt)
to_fd_kind FdKind.fifo = inr (inr tt)

of_fd_kind : FdKindSum → FdKind
of_fd_kind (inl _) = FdKind.pipe
of_fd_kind (inr (inl _)) = FdKind.socket
of_fd_kind (inr (inr _)) = FdKind.fifo

of_fd_kind-to_fd_kind : (e : FdKind) → of_fd_kind (to_fd_kind e) ≡ e
unfolding of_fd_kind to_fd_kind
of_fd_kind-to_fd_kind FdKind.pipe = refl
of_fd_kind-to_fd_kind _ = refl

to_fd_kind-of_fd_kind : (x : FdKindSum) → to_fd_kind (of_fd_kind x) ≡ x
unfolding of_fd_kind to_fd_kind
to_fd_kind-of_fd_kind (inl x) = refl
to_fd_kind-of_fd_kind (inr (inl x)) = refl
to_fd_kind-of_fd_kind (inr (inr x)) = refl

unfoldable pub fd_kind_wire : Wire FdKind
unfolding wire_enum arm last bare with to_fd_kind of_fd_kind of_fd_kind-to_fd_kind
    to_fd_kind-of_fd_kind
fd_kind_wire =
    wire_enum (arm 0 refl bare (arm 1 refl bare (last invalid_tag 2 refl bare) refl) refl)
      to_fd_kind of_fd_kind of_fd_kind-to_fd_kind to_fd_kind-of_fd_kind

pub data FdAccess : Type 0 where
  read write read_write unknown : FdAccess

abbrev FdAccessSum : Type 0
FdAccessSum = Unit {0} ⊎ (Unit {0} ⊎ (Unit {0} ⊎ Unit {0}))

to_fd_access : FdAccess → FdAccessSum
to_fd_access FdAccess.read = inl tt
to_fd_access FdAccess.write = inr (inl tt)
to_fd_access FdAccess.read_write = inr (inr (inl tt))
to_fd_access FdAccess.unknown = inr (inr (inr tt))

of_fd_access : FdAccessSum → FdAccess
of_fd_access (inl _) = FdAccess.read
of_fd_access (inr (inl _)) = FdAccess.write
of_fd_access (inr (inr (inl _))) = FdAccess.read_write
of_fd_access (inr (inr (inr _))) = FdAccess.unknown

of_fd_access-to_fd_access : (e : FdAccess) → of_fd_access (to_fd_access e) ≡ e
unfolding of_fd_access to_fd_access
of_fd_access-to_fd_access FdAccess.read = refl
of_fd_access-to_fd_access _ = refl

to_fd_access-of_fd_access : (x : FdAccessSum) → to_fd_access (of_fd_access x) ≡ x
unfolding of_fd_access to_fd_access
to_fd_access-of_fd_access (inl x) = refl
to_fd_access-of_fd_access (inr (inl x)) = refl
to_fd_access-of_fd_access (inr (inr (inl x))) = refl
to_fd_access-of_fd_access (inr (inr (inr x))) = refl

unfoldable pub fd_access_wire : Wire FdAccess
unfolding wire_enum arm last bare with to_fd_access of_fd_access of_fd_access-to_fd_access
    to_fd_access-of_fd_access
fd_access_wire =
    wire_enum
      (arm 0 refl bare (arm 1 refl bare (arm 2 refl bare (last invalid_tag 3 refl bare) refl) refl)
        refl)
      to_fd_access of_fd_access of_fd_access-to_fd_access to_fd_access-of_fd_access
