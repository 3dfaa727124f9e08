-- ===== src/Ipc/Descriptors.antt =====
-- src/ipc/descriptors.rs: the descriptors of one process, as they go over the wire.
use procinsh.Prelude.{ℕ, refl, Option, List}
use procinsh.Ipc.Codec.Wire.{Wire}
use procinsh.Ipc.Codec.Combine.{◌⊗◌, wire_struct}
use procinsh.Ipc.Codec.Values.{u32, u64, Text, string}
use procinsh.Ipc.Codec.Lists.{vec}
use procinsh.Ipc.Codec.Choices.{option}
use procinsh.Ipc.Identity.{ProcessId, process_id_wire}
use procinsh.Ipc.SocketTypes.Access.{FdAccess, FdKind, fd_access_wire, fd_kind_wire}
use procinsh.Ipc.SocketTypes.Protocol.{
  InetAddress, SocketProtocol, inet_address_wire, socket_protocol_wire,
}
use procinsh.Ipc.SocketTypes.State.{
  SocketConnectionStatus, SocketState, socket_connection_status_wire, socket_state_wire,
}

pub record Endpoint : Type 0 where
  pub process_id : ProcessId
  pub name : Text
  pub fd : ℕ
  pub access : FdAccess
  pub relation : Text

unfoldable pub endpoint_wire : Wire Endpoint
unfolding wire_struct
endpoint_wire =
    wire_struct (process_id_wire ⊗ string ⊗ u32 ⊗ fd_access_wire ⊗ string)
      (λ r. (r.process_id, (r.name, (r.fd, (r.access, r.relation)))))
      (λ t. record {
        process_id = t.0;
        name = t.1.0;
        fd = t.1.1.0;
        access = t.1.1.1.0;
        relation = t.1.1.1.1;
      })
      (λ r. refl) (λ t. refl)

pub record Owner : Type 0 where
  pub endpoint : Endpoint
  pub mode : Option ℕ

unfoldable pub owner_wire : Wire Owner
unfolding wire_struct
owner_wire =
    wire_struct (endpoint_wire ⊗ option u32) (λ r. (r.endpoint, r.mode))
      (λ t. record { endpoint = t.0; mode = t.1 }) (λ r. refl) (λ t. refl)

pub record Key : Type 0 where
  pub kind : FdKind
  pub device : ℕ
  pub inode : ℕ

unfoldable pub key_wire : Wire Key
unfolding wire_struct
key_wire =
    wire_struct (fd_kind_wire ⊗ u64 ⊗ u64) (λ r. (r.kind, (r.device, r.inode)))
      (λ t. record { kind = t.0; device = t.1.0; inode = t.1.1 }) (λ r. refl) (λ t. refl)

pub record FileDescriptorInfo : Type 0 where
  pub fd : ℕ
  pub kind : FdKind
  pub inode : ℕ
  pub target : Text
  pub access : FdAccess
  pub protocol : Option SocketProtocol
  pub state : Option SocketState
  pub connection_status : Option SocketConnectionStatus
  pub local : Option InetAddress
  pub remote : Option InetAddress
  pub path : Option Text
  pub peer_inode : Option ℕ
  pub peers : List Endpoint
  pub holders : List Endpoint
  pub note : Text
  pub key : Key
  pub mode : Option ℕ
  pub socket_device : Option ℕ

unfoldable pub file_descriptor_info_wire : Wire FileDescriptorInfo
unfolding wire_struct
file_descriptor_info_wire =
    wire_struct
      (u32
        ⊗ fd_kind_wire
        ⊗ u64
        ⊗ string
        ⊗ fd_access_wire
        ⊗ option socket_protocol_wire
        ⊗ option socket_state_wire
        ⊗ option socket_connection_status_wire
        ⊗ option inet_address_wire
        ⊗ option inet_address_wire
        ⊗ option string
        ⊗ option u64
        ⊗ vec endpoint_wire
        ⊗ vec endpoint_wire
        ⊗ string
        ⊗ key_wire
        ⊗ option u32
        ⊗ option u64)
      (λ r. (
        r.fd,
        (
          r.kind,
          (
            r.inode,
            (
              r.target,
              (
                r.access,
                (
                  r.protocol,
                  (
                    r.state,
                    (
                      r.connection_status,
                      (
                        r.local,
                        (
                          r.remote,
                          (
                            r.path,
                            (
                              r.peer_inode,
                              (r.peers, (r.holders, (r.note, (r.key, (r.mode, r.socket_device))))),
                            ),
                          ),
                        ),
                      ),
                    ),
                  ),
                ),
              ),
            ),
          ),
        ),
      ))
      (λ t. record {
        fd = t.0;
        kind = t.1.0;
        inode = t.1.1.0;
        target = t.1.1.1.0;
        access = t.1.1.1.1.0;
        protocol = t.1.1.1.1.1.0;
        state = t.1.1.1.1.1.1.0;
        connection_status = t.1.1.1.1.1.1.1.0;
        local = t.1.1.1.1.1.1.1.1.0;
        remote = t.1.1.1.1.1.1.1.1.1.0;
        path = t.1.1.1.1.1.1.1.1.1.1.0;
        peer_inode = t.1.1.1.1.1.1.1.1.1.1.1.0;
        peers = t.1.1.1.1.1.1.1.1.1.1.1.1.0;
        holders = t.1.1.1.1.1.1.1.1.1.1.1.1.1.0;
        note = t.1.1.1.1.1.1.1.1.1.1.1.1.1.1.0;
        key = t.1.1.1.1.1.1.1.1.1.1.1.1.1.1.1.0;
        mode = t.1.1.1.1.1.1.1.1.1.1.1.1.1.1.1.1.0;
        socket_device = t.1.1.1.1.1.1.1.1.1.1.1.1.1.1.1.1.1;
      })
      (λ r. refl) (λ t. refl)

pub record FileDescriptors : Type 0 where
  pub process_id : ProcessId
  pub captured_at : ℕ
  pub entries : List FileDescriptorInfo
  pub warnings : List Text
  pub raw_fd_owners : List (Key × List Owner)
  pub raw_peer_keys : List (ℕ × List Key)

unfoldable pub file_descriptors_wire : Wire FileDescriptors
unfolding wire_struct
file_descriptors_wire =
    wire_struct
      (process_id_wire
        ⊗ u64
        ⊗ vec file_descriptor_info_wire
        ⊗ vec string
        ⊗ (vec (key_wire ⊗ vec owner_wire))
        ⊗ vec (u32 ⊗ vec key_wire))
      (λ r. (
        r.process_id,
        (r.captured_at, (r.entries, (r.warnings, (r.raw_fd_owners, r.raw_peer_keys)))),
      ))
      (λ t. record {
        process_id = t.0;
        captured_at = t.1.0;
        entries = t.1.1.0;
        warnings = t.1.1.1.0;
        raw_fd_owners = t.1.1.1.1.0;
        raw_peer_keys = t.1.1.1.1.1;
      })
      (λ r. refl) (λ t. refl)
