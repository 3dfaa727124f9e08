-- ===== src/Ipc/Hardware/Kinds.antt =====
-- src/ipc/hardware.rs: the enumerations, as they go over the wire.
use procinsh.Prelude.{◌≡◌, refl, ◌⊎◌, inl, inr}
use procinsh.Ipc.Codec.{invalid_tag}
use procinsh.Ipc.Codec.Wire.{Wire}
use procinsh.Ipc.Codec.Enums.{arm, last, bare, with, wire_enum}

pub data DeviceHandleKind : Type 0 where
  nvidia drm_render drm_card uverbs umad accel : DeviceHandleKind

abbrev DeviceHandleKindSum : Type 0
DeviceHandleKindSum = Unit {0} ⊎ (Unit {0} ⊎ (Unit {0} ⊎ (Unit {0} ⊎ (Unit {0} ⊎ Unit {0}))))

to_device_handle_kind : DeviceHandleKind → DeviceHandleKindSum
to_device_handle_kind DeviceHandleKind.nvidia = inl tt
to_device_handle_kind DeviceHandleKind.drm_render = inr (inl tt)
to_device_handle_kind DeviceHandleKind.drm_card = inr (inr (inl tt))
to_device_handle_kind DeviceHandleKind.uverbs = inr (inr (inr (inl tt)))
to_device_handle_kind DeviceHandleKind.umad = inr (inr (inr (inr (inl tt))))
to_device_handle_kind DeviceHandleKind.accel = inr (inr (inr (inr (inr tt))))

of_device_handle_kind : DeviceHandleKindSum → DeviceHandleKind
of_device_handle_kind (inl _) = DeviceHandleKind.nvidia
of_device_handle_kind (inr (inl _)) = DeviceHandleKind.drm_render
of_device_handle_kind (inr (inr (inl _))) = DeviceHandleKind.drm_card
of_device_handle_kind (inr (inr (inr (inl _)))) = DeviceHandleKind.uverbs
of_device_handle_kind (inr (inr (inr (inr (inl _))))) = DeviceHandleKind.umad
of_device_handle_kind (inr (inr (inr (inr (inr _))))) = DeviceHandleKind.accel

of_device_handle_kind-to_device_handle_kind :
    (e : DeviceHandleKind) → of_device_handle_kind (to_device_handle_kind e) ≡ e
unfolding of_device_handle_kind to_device_handle_kind
of_device_handle_kind-to_device_handle_kind DeviceHandleKind.nvidia = refl
of_device_handle_kind-to_device_handle_kind _ = refl

to_device_handle_kind-of_device_handle_kind :
    (x : DeviceHandleKindSum) → to_device_handle_kind (of_device_handle_kind x) ≡ x
unfolding of_device_handle_kind to_device_handle_kind
to_device_handle_kind-of_device_handle_kind (inl x) = refl
to_device_handle_kind-of_device_handle_kind (inr (inl x)) = refl
to_device_handle_kind-of_device_handle_kind (inr (inr (inl x))) = refl
to_device_handle_kind-of_device_handle_kind (inr (inr (inr (inl x)))) = refl
to_device_handle_kind-of_device_handle_kind (inr (inr (inr (inr (inl x))))) = refl
to_device_handle_kind-of_device_handle_kind (inr (inr (inr (inr (inr x))))) = refl

unfoldable pub device_handle_kind_wire : Wire DeviceHandleKind
unfolding wire_enum arm last bare with to_device_handle_kind of_device_handle_kind
    of_device_handle_kind-to_device_handle_kind to_device_handle_kind-of_device_handle_kind
device_handle_kind_wire =
    wire_enum
      (arm 0 refl bare
        (arm 1 refl bare
          (arm 2 refl bare
            (arm 3 refl bare (arm 4 refl bare (last invalid_tag 5 refl bare) refl) refl) refl)
          refl)
        refl)
      to_device_handle_kind of_device_handle_kind of_device_handle_kind-to_device_handle_kind
      to_device_handle_kind-of_device_handle_kind

pub data PathClass : Type 0 where
  pix pxb phb node sys : PathClass

abbrev PathClassSum : Type 0
PathClassSum = Unit {0} ⊎ (Unit {0} ⊎ (Unit {0} ⊎ (Unit {0} ⊎ Unit {0})))

to_path_class : PathClass → PathClassSum
to_path_class PathClass.pix = inl tt
to_path_class PathClass.pxb = inr (inl tt)
to_path_class PathClass.phb = inr (inr (inl tt))
to_path_class PathClass.node = inr (inr (inr (inl tt)))
to_path_class PathClass.sys = inr (inr (inr (inr tt)))

of_path_class : PathClassSum → PathClass
of_path_class (inl _) = PathClass.pix
of_path_class (inr (inl _)) = PathClass.pxb
of_path_class (inr (inr (inl _))) = PathClass.phb
of_path_class (inr (inr (inr (inl _)))) = PathClass.node
of_path_class (inr (inr (inr (inr _)))) = PathClass.sys

of_path_class-to_path_class : (e : PathClass) → of_path_class (to_path_class e) ≡ e
unfolding of_path_class to_path_class
of_path_class-to_path_class PathClass.pix = refl
of_path_class-to_path_class _ = refl

to_path_class-of_path_class : (x : PathClassSum) → to_path_class (of_path_class x) ≡ x
unfolding of_path_class to_path_class
to_path_class-of_path_class (inl x) = refl
to_path_class-of_path_class (inr (inl x)) = refl
to_path_class-of_path_class (inr (inr (inl x))) = refl
to_path_class-of_path_class (inr (inr (inr (inl x)))) = refl
to_path_class-of_path_class (inr (inr (inr (inr x)))) = refl

unfoldable pub path_class_wire : Wire PathClass
unfolding wire_enum arm last bare with to_path_class of_path_class of_path_class-to_path_class
    to_path_class-of_path_class
path_class_wire =
    wire_enum
      (arm 0 refl bare
        (arm 1 refl bare
          (arm 2 refl bare (arm 3 refl bare (last invalid_tag 4 refl bare) refl) refl) refl)
        refl)
      to_path_class of_path_class of_path_class-to_path_class to_path_class-of_path_class

pub data HardwareKind : Type 0 where
  gpu rdma accelerator nv_switch : HardwareKind

abbrev HardwareKindSum : Type 0
HardwareKindSum = Unit {0} ⊎ (Unit {0} ⊎ (Unit {0} ⊎ Unit {0}))

to_hardware_kind : HardwareKind → HardwareKindSum
to_hardware_kind HardwareKind.gpu = inl tt
to_hardware_kind HardwareKind.rdma = inr (inl tt)
to_hardware_kind HardwareKind.accelerator = inr (inr (inl tt))
to_hardware_kind HardwareKind.nv_switch = inr (inr (inr tt))

of_hardware_kind : HardwareKindSum → HardwareKind
of_hardware_kind (inl _) = HardwareKind.gpu
of_hardware_kind (inr (inl _)) = HardwareKind.rdma
of_hardware_kind (inr (inr (inl _))) = HardwareKind.accelerator
of_hardware_kind (inr (inr (inr _))) = HardwareKind.nv_switch

of_hardware_kind-to_hardware_kind : (e : HardwareKind) → of_hardware_kind (to_hardware_kind e) ≡ e
unfolding of_hardware_kind to_hardware_kind
of_hardware_kind-to_hardware_kind HardwareKind.gpu = refl
of_hardware_kind-to_hardware_kind _ = refl

to_hardware_kind-of_hardware_kind :
    (x : HardwareKindSum) → to_hardware_kind (of_hardware_kind x) ≡ x
unfolding of_hardware_kind to_hardware_kind
to_hardware_kind-of_hardware_kind (inl x) = refl
to_hardware_kind-of_hardware_kind (inr (inl x)) = refl
to_hardware_kind-of_hardware_kind (inr (inr (inl x))) = refl
to_hardware_kind-of_hardware_kind (inr (inr (inr x))) = refl

unfoldable pub hardware_kind_wire : Wire HardwareKind
unfolding wire_enum arm last bare with to_hardware_kind of_hardware_kind
    of_hardware_kind-to_hardware_kind to_hardware_kind-of_hardware_kind
hardware_kind_wire =
    wire_enum
      (arm 0 refl bare (arm 1 refl bare (arm 2 refl bare (last invalid_tag 3 refl bare) refl) refl)
        refl)
      to_hardware_kind of_hardware_kind of_hardware_kind-to_hardware_kind
      to_hardware_kind-of_hardware_kind

pub data HardwareRole : Type 0 where
  host_bridge root_port switch_port endpoint : HardwareRole

abbrev HardwareRoleSum : Type 0
HardwareRoleSum = Unit {0} ⊎ (Unit {0} ⊎ (Unit {0} ⊎ Unit {0}))

to_hardware_role : HardwareRole → HardwareRoleSum
to_hardware_role HardwareRole.host_bridge = inl tt
to_hardware_role HardwareRole.root_port = inr (inl tt)
to_hardware_role HardwareRole.switch_port = inr (inr (inl tt))
to_hardware_role HardwareRole.endpoint = inr (inr (inr tt))

of_hardware_role : HardwareRoleSum → HardwareRole
of_hardware_role (inl _) = HardwareRole.host_bridge
of_hardware_role (inr (inl _)) = HardwareRole.root_port
of_hardware_role (inr (inr (inl _))) = HardwareRole.switch_port
of_hardware_role (inr (inr (inr _))) = HardwareRole.endpoint

of_hardware_role-to_hardware_role : (e : HardwareRole) → of_hardware_role (to_hardware_role e) ≡ e
unfolding of_hardware_role to_hardware_role
of_hardware_role-to_hardware_role HardwareRole.host_bridge = refl
of_hardware_role-to_hardware_role _ = refl

to_hardware_role-of_hardware_role :
    (x : HardwareRoleSum) → to_hardware_role (of_hardware_role x) ≡ x
unfolding of_hardware_role to_hardware_role
to_hardware_role-of_hardware_role (inl x) = refl
to_hardware_role-of_hardware_role (inr (inl x)) = refl
to_hardware_role-of_hardware_role (inr (inr (inl x))) = refl
to_hardware_role-of_hardware_role (inr (inr (inr x))) = refl

unfoldable pub hardware_role_wire : Wire HardwareRole
unfolding wire_enum arm last bare with to_hardware_role of_hardware_role
    of_hardware_role-to_hardware_role to_hardware_role-of_hardware_role
hardware_role_wire =
    wire_enum
      (arm 0 refl bare (arm 1 refl bare (arm 2 refl bare (last invalid_tag 3 refl bare) refl) refl)
        refl)
      to_hardware_role of_hardware_role of_hardware_role-to_hardware_role
      to_hardware_role-of_hardware_role
