-- ===== src/Ipc/Hardware/Links.antt =====
-- src/ipc/hardware.rs: handles, paths and links, as they go over the wire.
use procinsh.Prelude.{ℕ, refl, Bool, Option, List}
use procinsh.Ipc.Codec.Wire.{Wire}
use procinsh.Ipc.Codec.Combine.{◌⊗◌, wire_struct}
use procinsh.Ipc.Codec.Values.{u32, u64, usize, F64, f64, bool, Text, string}
use procinsh.Ipc.Codec.Lists.{vec}
use procinsh.Ipc.Codec.Choices.{option}
use procinsh.Ipc.Hardware.Kinds.{
  DeviceHandleKind, PathClass, device_handle_kind_wire, path_class_wire,
}
use procinsh.Ipc.Identity.{ProcessId, process_id_wire}

pub record DeviceHandle : Type 0 where
  pub id : Text
  pub process_id : ProcessId
  pub device : Text
  pub kind : DeviceHandleKind
  pub fd : ℕ
  pub fd_count : ℕ

unfoldable pub device_handle_wire : Wire DeviceHandle
unfolding wire_struct
device_handle_wire =
    wire_struct (string ⊗ process_id_wire ⊗ string ⊗ device_handle_kind_wire ⊗ u32 ⊗ usize)
      (λ r. (r.id, (r.process_id, (r.device, (r.kind, (r.fd, r.fd_count))))))
      (λ t. record {
        id = t.0;
        process_id = t.1.0;
        device = t.1.1.0;
        kind = t.1.1.1.0;
        fd = t.1.1.1.1.0;
        fd_count = t.1.1.1.1.1;
      })
      (λ r. refl) (λ t. refl)

pub record PcieLink : Type 0 where
  pub speed_gts : F64
  pub width : ℕ

unfoldable pub pcie_link_wire : Wire PcieLink
unfolding wire_struct
pcie_link_wire =
    wire_struct (f64 ⊗ u32) (λ r. (r.speed_gts, r.width))
      (λ t. record { speed_gts = t.0; width = t.1 }) (λ r. refl) (λ t. refl)

pub record HardwarePath : Type 0 where
  pub id : Text
  pub a : Text
  pub b : Text
  pub class : PathClass
  pub via : List Text
  pub bottleneck : Option PcieLink

unfoldable pub hardware_path_wire : Wire HardwarePath
unfolding wire_struct
hardware_path_wire =
    wire_struct (string ⊗ string ⊗ string ⊗ path_class_wire ⊗ vec string ⊗ option pcie_link_wire)
      (λ r. (r.id, (r.a, (r.b, (r.class, (r.via, r.bottleneck))))))
      (λ t. record {
        id = t.0;
        a = t.1.0;
        b = t.1.1.0;
        class = t.1.1.1.0;
        via = t.1.1.1.1.0;
        bottleneck = t.1.1.1.1.1;
      })
      (λ r. refl) (λ t. refl)

pub record BarInfo : Type 0 where
  pub index : ℕ
  pub bytes : ℕ
  pub prefetchable : Bool

unfoldable pub bar_info_wire : Wire BarInfo
unfolding wire_struct
bar_info_wire =
    wire_struct (u32 ⊗ u64 ⊗ bool) (λ r. (r.index, (r.bytes, r.prefetchable)))
      (λ t. record { index = t.0; bytes = t.1.0; prefetchable = t.1.1 }) (λ r. refl) (λ t. refl)

pub record PcieLinkInfo : Type 0 where
  pub current : Option PcieLink
  pub max : Option PcieLink

unfoldable pub pcie_link_info_wire : Wire PcieLinkInfo
unfolding wire_struct
pcie_link_info_wire =
    wire_struct (option pcie_link_wire ⊗ option pcie_link_wire) (λ r. (r.current, r.max))
      (λ t. record { current = t.0; max = t.1 }) (λ r. refl) (λ t. refl)
