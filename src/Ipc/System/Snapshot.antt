-- ===== src/Ipc/System/Snapshot.antt =====
-- src/ipc/model/system.rs: the snapshot, as they go over the wire.
use procinsh.Prelude.{ℕ, refl, Option, List}
use procinsh.Ipc.Codec.Wire.{Wire}
use procinsh.Ipc.Codec.Combine.{◌⊗◌, wire_struct}
use procinsh.Ipc.Codec.Values.{u32, u64, usize, Text, string}
use procinsh.Ipc.Codec.Lists.{vec}
use procinsh.Ipc.Codec.Choices.{option}
use procinsh.Ipc.Codec.Addresses.{IpAddr, ip_addr}
use procinsh.Ipc.Hardware.Devices.{
  HardwareDevice, HardwareFiles, hardware_device_wire, hardware_files_wire,
}
use procinsh.Ipc.Hardware.Links.{DeviceHandle, HardwarePath, device_handle_wire, hardware_path_wire}
use procinsh.Ipc.Identity.{ProcessId, process_id_wire}
use procinsh.Ipc.Memory.{MemoryMap, memory_map_wire}
use procinsh.Ipc.Rdma.Relations.{
  RdmaPortInfo, RdmaRelation, rdma_port_info_wire, rdma_relation_wire,
}
use procinsh.Ipc.Resource.{IpcIdentity, ipc_identity_wire}
use procinsh.Ipc.SocketTypes.State.{SocketConnectionStatus, socket_connection_status_wire}
use procinsh.Ipc.Sockets.{SocketInfo, socket_info_wire}
use procinsh.Ipc.System.Endpoints.{FdEndpoint, FdRelation, fd_endpoint_wire, fd_relation_wire}

pub record ProcessSnapshot : Type 0 where
  pub identity : ProcessId
  pub parent_id : Option ProcessId
  pub name : Text
  pub command_line : Option (List Text)
  pub uid : Option ℕ
  pub username : Option Text
  pub euid : Option ℕ
  pub effective_username : Option Text
  pub maps : List MemoryMap
  pub maps_epoch : ℕ
  pub maps_error : Option Text

unfoldable pub process_snapshot_wire : Wire ProcessSnapshot
unfolding wire_struct
process_snapshot_wire =
    wire_struct
      (process_id_wire
        ⊗ option process_id_wire
        ⊗ string
        ⊗ option (vec string)
        ⊗ option u32
        ⊗ option string
        ⊗ option u32
        ⊗ option string
        ⊗ vec memory_map_wire
        ⊗ u64
        ⊗ option string)
      (λ r. (
        r.identity,
        (
          r.parent_id,
          (
            r.name,
            (
              r.command_line,
              (
                r.uid,
                (
                  r.username,
                  (r.euid, (r.effective_username, (r.maps, (r.maps_epoch, r.maps_error)))),
                ),
              ),
            ),
          ),
        ),
      ))
      (λ t. record {
        identity = t.0;
        parent_id = t.1.0;
        name = t.1.1.0;
        command_line = t.1.1.1.0;
        uid = t.1.1.1.1.0;
        username = t.1.1.1.1.1.0;
        euid = t.1.1.1.1.1.1.0;
        effective_username = t.1.1.1.1.1.1.1.0;
        maps = t.1.1.1.1.1.1.1.1.0;
        maps_epoch = t.1.1.1.1.1.1.1.1.1.0;
        maps_error = t.1.1.1.1.1.1.1.1.1.1;
      })
      (λ r. refl) (λ t. refl)

pub record NeighborSnapshot : Type 0 where
  pub entries : List (IpAddr × Text)
  pub namespace : ℕ × ℕ

unfoldable pub neighbor_snapshot_wire : Wire NeighborSnapshot
unfolding wire_struct
neighbor_snapshot_wire =
    wire_struct ((vec (ip_addr ⊗ string)) ⊗ u64 ⊗ u64) (λ r. (r.entries, r.namespace))
      (λ t. record { entries = t.0; namespace = t.1 }) (λ r. refl) (λ t. refl)

pub record SystemSnapshot : Type 0 where
  pub captured_at : ℕ
  pub processes : List ProcessSnapshot
  pub fd_relations : List FdRelation
  pub rdma_ports : List RdmaPortInfo
  pub rdma_relations : List RdmaRelation
  pub hardware_devices : List HardwareDevice
  pub hardware_paths : List HardwarePath
  pub device_handles : List DeviceHandle
  pub warnings : List Text
  pub inspected_processes : ℕ
  pub inspected_fds : ℕ
  pub raw_owners : List (IpcIdentity × List FdEndpoint)
  pub raw_sockets : List (ℕ × SocketInfo)
  pub raw_namespaces : List (ℕ × (ℕ × ℕ))
  pub raw_connections : List (IpcIdentity × SocketConnectionStatus)
  pub raw_device_handles : List (ProcessId × (ℕ × ℕ))
  pub raw_neighbors : Option NeighborSnapshot
  pub raw_hardware : HardwareFiles
  pub raw_hostnames : List (IpAddr × Text)

unfoldable pub system_snapshot_wire : Wire SystemSnapshot
unfolding wire_struct
system_snapshot_wire =
    wire_struct
      (u64
        ⊗ vec process_snapshot_wire
        ⊗ vec fd_relation_wire
        ⊗ vec rdma_port_info_wire
        ⊗ vec rdma_relation_wire
        ⊗ vec hardware_device_wire
        ⊗ vec hardware_path_wire
        ⊗ vec device_handle_wire
        ⊗ vec string
        ⊗ usize
        ⊗ usize
        ⊗ (vec (ipc_identity_wire ⊗ vec fd_endpoint_wire))
        ⊗ (vec (u64 ⊗ socket_info_wire))
        ⊗ (vec (u64 ⊗ u64 ⊗ u64))
        ⊗ (vec (ipc_identity_wire ⊗ socket_connection_status_wire))
        ⊗ (vec (process_id_wire ⊗ u32 ⊗ u64))
        ⊗ option neighbor_snapshot_wire
        ⊗ hardware_files_wire
        ⊗ vec (ip_addr ⊗ string))
      (λ r. (
        r.captured_at,
        (
          r.processes,
          (
            r.fd_relations,
            (
              r.rdma_ports,
              (
                r.rdma_relations,
                (
                  r.hardware_devices,
                  (
                    r.hardware_paths,
                    (
                      r.device_handles,
                      (
                        r.warnings,
                        (
                          r.inspected_processes,
                          (
                            r.inspected_fds,
                            (
                              r.raw_owners,
                              (
                                r.raw_sockets,
                                (
                                  r.raw_namespaces,
                                  (
                                    r.raw_connections,
                                    (
                                      r.raw_device_handles,
                                      (r.raw_neighbors, (r.raw_hardware, r.raw_hostnames)),
                                    ),
                                  ),
                                ),
                              ),
                            ),
                          ),
                        ),
                      ),
                    ),
                  ),
                ),
              ),
            ),
          ),
        ),
      ))
      (λ t. record {
        captured_at = t.0;
        processes = t.1.0;
        fd_relations = t.1.1.0;
        rdma_ports = t.1.1.1.0;
        rdma_relations = t.1.1.1.1.0;
        hardware_devices = t.1.1.1.1.1.0;
        hardware_paths = t.1.1.1.1.1.1.0;
        device_handles = t.1.1.1.1.1.1.1.0;
        warnings = t.1.1.1.1.1.1.1.1.0;
        inspected_processes = t.1.1.1.1.1.1.1.1.1.0;
        inspected_fds = t.1.1.1.1.1.1.1.1.1.1.0;
        raw_owners = t.1.1.1.1.1.1.1.1.1.1.1.0;
        raw_sockets = t.1.1.1.1.1.1.1.1.1.1.1.1.0;
        raw_namespaces = t.1.1.1.1.1.1.1.1.1.1.1.1.1.0;
        raw_connections = t.1.1.1.1.1.1.1.1.1.1.1.1.1.1.0;
        raw_device_handles = t.1.1.1.1.1.1.1.1.1.1.1.1.1.1.1.0;
        raw_neighbors = t.1.1.1.1.1.1.1.1.1.1.1.1.1.1.1.1.0;
        raw_hardware = t.1.1.1.1.1.1.1.1.1.1.1.1.1.1.1.1.1.0;
        raw_hostnames = t.1.1.1.1.1.1.1.1.1.1.1.1.1.1.1.1.1.1;
      })
      (λ r. refl) (λ t. refl)
