-- ===== src/Ipc/System/Endpoints.antt =====
-- src/ipc/model/system.rs: descriptor endpoints and relations, as they go over the wire.
use procinsh.Prelude.{ℕ, refl, Bool, Option}
use procinsh.Ipc.Codec.Wire.{Wire}
use procinsh.Ipc.Codec.Combine.{◌⊗◌, wire_struct}
use procinsh.Ipc.Codec.Values.{u32, usize, bool, Text, string}
use procinsh.Ipc.Codec.Choices.{option}
use procinsh.Ipc.Identity.{ProcessId, process_id_wire}
use procinsh.Ipc.Resource.{IpcIdentity, ipc_identity_wire}
use procinsh.Ipc.SocketTypes.Access.{FdAccess, FdKind, fd_access_wire, fd_kind_wire}
use procinsh.Ipc.SocketTypes.Protocol.{
  InetAddress, SocketProtocol, inet_address_wire, socket_protocol_wire,
}
use procinsh.Ipc.SocketTypes.State.{
  SocketConnectionStatus, SocketState, socket_connection_status_wire, socket_state_wire,
}

pub record FdEndpoint : Type 0 where
  pub process_id : ProcessId
  pub fd : ℕ
  pub fd_count : ℕ
  pub resource : IpcIdentity
  pub kind : FdKind
  pub access : FdAccess
  pub connection_status : Option SocketConnectionStatus

unfoldable pub fd_endpoint_wire : Wire FdEndpoint
unfolding wire_struct
fd_endpoint_wire =
    wire_struct
      (process_id_wire
        ⊗ u32
        ⊗ usize
        ⊗ ipc_identity_wire
        ⊗ fd_kind_wire
        ⊗ fd_access_wire
        ⊗ option socket_connection_status_wire)
      (λ r. (
        r.process_id,
        (r.fd, (r.fd_count, (r.resource, (r.kind, (r.access, r.connection_status))))),
      ))
      (λ t. record {
        process_id = t.0;
        fd = t.1.0;
        fd_count = t.1.1.0;
        resource = t.1.1.1.0;
        kind = t.1.1.1.1.0;
        access = t.1.1.1.1.1.0;
        connection_status = t.1.1.1.1.1.1;
      })
      (λ r. refl) (λ t. refl)

pub record SocketEndpoint : Type 0 where
  pub protocol : SocketProtocol
  pub state : Option SocketState
  pub local : Option InetAddress
  pub remote : Option InetAddress
  pub path : Option Text
  pub network_peer : Bool
  pub remote_hostname : Option Text
  pub remote_gid : Option Text

unfoldable pub socket_endpoint_wire : Wire SocketEndpoint
unfolding wire_struct
socket_endpoint_wire =
    wire_struct
      (socket_protocol_wire
        ⊗ option socket_state_wire
        ⊗ option inet_address_wire
        ⊗ option inet_address_wire
        ⊗ option string
        ⊗ bool
        ⊗ option string
        ⊗ option string)
      (λ r. (
        r.protocol,
        (
          r.state,
          (r.local, (r.remote, (r.path, (r.network_peer, (r.remote_hostname, r.remote_gid))))),
        ),
      ))
      (λ t. record {
        protocol = t.0;
        state = t.1.0;
        local = t.1.1.0;
        remote = t.1.1.1.0;
        path = t.1.1.1.1.0;
        network_peer = t.1.1.1.1.1.0;
        remote_hostname = t.1.1.1.1.1.1.0;
        remote_gid = t.1.1.1.1.1.1.1;
      })
      (λ r. refl) (λ t. refl)

pub record FdRelation : Type 0 where
  pub id : Text
  pub endpoint : FdEndpoint
  pub peer : Option FdEndpoint
  pub label : Text
  pub socket : Option SocketEndpoint
  pub candidate : Bool
  pub shared : Bool

unfoldable pub fd_relation_wire : Wire FdRelation
unfolding wire_struct
fd_relation_wire =
    wire_struct
      (string
        ⊗ fd_endpoint_wire
        ⊗ option fd_endpoint_wire
        ⊗ string
        ⊗ option socket_endpoint_wire
        ⊗ bool
        ⊗ bool)
      (λ r. (r.id, (r.endpoint, (r.peer, (r.label, (r.socket, (r.candidate, r.shared)))))))
      (λ t. record {
        id = t.0;
        endpoint = t.1.0;
        peer = t.1.1.0;
        label = t.1.1.1.0;
        socket = t.1.1.1.1.0;
        candidate = t.1.1.1.1.1.0;
        shared = t.1.1.1.1.1.1;
      })
      (λ r. refl) (λ t. refl)
