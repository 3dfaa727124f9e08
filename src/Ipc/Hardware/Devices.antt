-- ===== src/Ipc/Hardware/Devices.antt =====
-- src/ipc/hardware.rs: devices, as they go over the wire.
use procinsh.Prelude.{ℕ, refl, Bool, Option, List}
use procinsh.Ipc.Codec.Wire.{Wire}
use procinsh.Ipc.Codec.Combine.{◌⊗◌, wire_struct}
use procinsh.Ipc.Codec.Values.{u32, bool, Text, string}
use procinsh.Ipc.Codec.Lists.{vec}
use procinsh.Ipc.Codec.Choices.{option}
use procinsh.Ipc.Hardware.Kinds.{HardwareKind, HardwareRole, hardware_kind_wire, hardware_role_wire}
use procinsh.Ipc.Hardware.Links.{BarInfo, PcieLinkInfo, bar_info_wire, pcie_link_info_wire}

pub record GpuInfo : Type 0 where
  pub vendor : Text
  pub model : Option Text
  pub uuid : Option Text
  pub minor : Option ℕ
  pub drm : List Text

unfoldable pub gpu_info_wire : Wire GpuInfo
unfolding wire_struct
gpu_info_wire =
    wire_struct (string ⊗ option string ⊗ option string ⊗ option u32 ⊗ vec string)
      (λ r. (r.vendor, (r.model, (r.uuid, (r.minor, r.drm)))))
      (λ t. record {
        vendor = t.0;
        model = t.1.0;
        uuid = t.1.1.0;
        minor = t.1.1.1.0;
        drm = t.1.1.1.1;
      })
      (λ r. refl) (λ t. refl)

pub record RdmaDeviceInfo : Type 0 where
  pub name : Text
  pub hca_type : Option Text
  pub fw_ver : Option Text

unfoldable pub rdma_device_info_wire : Wire RdmaDeviceInfo
unfolding wire_struct
rdma_device_info_wire =
    wire_struct (string ⊗ option string ⊗ option string) (λ r. (r.name, (r.hca_type, r.fw_ver)))
      (λ t. record { name = t.0; hca_type = t.1.0; fw_ver = t.1.1 }) (λ r. refl) (λ t. refl)

pub record HardwareDevice : Type 0 where
  pub address : Text
  pub parent : Option Text
  pub role : HardwareRole
  pub kind : Option HardwareKind
  pub label : Text
  pub class : Option Text
  pub vendor_id : Option Text
  pub device_id : Option Text
  pub driver : Option Text
  pub numa_node : Option ℕ
  pub link : Option PcieLinkInfo
  pub power_state : Option Text
  pub runtime_status : Option Text
  pub iommu_group : Option ℕ
  pub bars : List BarInfo
  pub gpu : Option GpuInfo
  pub rdma : List RdmaDeviceInfo
  pub netdevs : List Text

unfoldable pub hardware_device_wire : Wire HardwareDevice
unfolding wire_struct
hardware_device_wire =
    wire_struct
      (string
        ⊗ option string
        ⊗ hardware_role_wire
        ⊗ option hardware_kind_wire
        ⊗ string
        ⊗ option string
        ⊗ option string
        ⊗ option string
        ⊗ option string
        ⊗ option u32
        ⊗ option pcie_link_info_wire
        ⊗ option string
        ⊗ option string
        ⊗ option u32
        ⊗ vec bar_info_wire
        ⊗ option gpu_info_wire
        ⊗ vec rdma_device_info_wire
        ⊗ vec string)
      (λ r. (
        r.address,
        (
          r.parent,
          (
            r.role,
            (
              r.kind,
              (
                r.label,
                (
                  r.class,
                  (
                    r.vendor_id,
                    (
                      r.device_id,
                      (
                        r.driver,
                        (
                          r.numa_node,
                          (
                            r.link,
                            (
                              r.power_state,
                              (
                                r.runtime_status,
                                (r.iommu_group, (r.bars, (r.gpu, (r.rdma, r.netdevs)))),
                              ),
                            ),
                          ),
                        ),
                      ),
                    ),
                  ),
                ),
              ),
            ),
          ),
        ),
      ))
      (λ t. record {
        address = t.0;
        parent = t.1.0;
        role = t.1.1.0;
        kind = t.1.1.1.0;
        label = t.1.1.1.1.0;
        class = t.1.1.1.1.1.0;
        vendor_id = t.1.1.1.1.1.1.0;
        device_id = t.1.1.1.1.1.1.1.0;
        driver = t.1.1.1.1.1.1.1.1.0;
        numa_node = t.1.1.1.1.1.1.1.1.1.0;
        link = t.1.1.1.1.1.1.1.1.1.1.0;
        power_state = t.1.1.1.1.1.1.1.1.1.1.1.0;
        runtime_status = t.1.1.1.1.1.1.1.1.1.1.1.1.0;
        iommu_group = t.1.1.1.1.1.1.1.1.1.1.1.1.1.0;
        bars = t.1.1.1.1.1.1.1.1.1.1.1.1.1.1.0;
        gpu = t.1.1.1.1.1.1.1.1.1.1.1.1.1.1.1.0;
        rdma = t.1.1.1.1.1.1.1.1.1.1.1.1.1.1.1.1.0;
        netdevs = t.1.1.1.1.1.1.1.1.1.1.1.1.1.1.1.1.1;
      })
      (λ r. refl) (λ t. refl)

pub record HardwareFiles : Type 0 where
  pub truncated : Bool
  pub texts : List (Text × Text)
  pub directories : List (Text × List Text)
  pub links : List (Text × Text)

unfoldable pub hardware_files_wire : Wire HardwareFiles
unfolding wire_struct
hardware_files_wire =
    wire_struct
      (bool ⊗ (vec (string ⊗ string)) ⊗ (vec (string ⊗ vec string)) ⊗ vec (string ⊗ string))
      (λ r. (r.truncated, (r.texts, (r.directories, r.links))))
      (λ t. record { truncated = t.0; texts = t.1.0; directories = t.1.1.0; links = t.1.1.1 })
      (λ r. refl) (λ t. refl)
