-- ===== src/Ipc/Sockets.antt =====
-- src/ipc/model/sockets.rs: socket metadata, as they go over the wire.
use procinsh.Prelude.{ℕ, refl, Option}
use procinsh.Ipc.Codec.Wire.{Wire}
use procinsh.Ipc.Codec.Combine.{◌⊗◌, wire_struct}
use procinsh.Ipc.Codec.Values.{u64, Text, string}
use procinsh.Ipc.Codec.Choices.{option}
use procinsh.Ipc.Codec.Addresses.{SocketAddr, socket_addr}
use procinsh.Ipc.SocketTypes.Protocol.{SocketProtocol, socket_protocol_wire}
use procinsh.Ipc.SocketTypes.State.{SocketState, socket_state_wire}

pub record SocketInfo : Type 0 where
  pub protocol : SocketProtocol
  pub state : Option SocketState
  pub local : Option SocketAddr
  pub remote : Option SocketAddr
  pub path : Option Text
  pub peer_inode : Option ℕ

unfoldable pub socket_info_wire : Wire SocketInfo
unfolding wire_struct
socket_info_wire =
    wire_struct
      (socket_protocol_wire
        ⊗ option socket_state_wire
        ⊗ option socket_addr
        ⊗ option socket_addr
        ⊗ option string
        ⊗ option u64)
      (λ r. (r.protocol, (r.state, (r.local, (r.remote, (r.path, r.peer_inode))))))
      (λ t. record {
        protocol = t.0;
        state = t.1.0;
        local = t.1.1.0;
        remote = t.1.1.1.0;
        path = t.1.1.1.1.0;
        peer_inode = t.1.1.1.1.1;
      })
      (λ r. refl) (λ t. refl)
