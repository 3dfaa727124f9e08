-- ===== src/Ipc/Rdma/Relations.antt =====
-- src/ipc/rdma.rs: ports, endpoints and relations, as they go over the wire.
use procinsh.Prelude.{ℕ, ◌≡◌, refl, ◌⊎◌, inl, inr, Option}
use procinsh.Ipc.Codec.{invalid_tag}
use procinsh.Ipc.Codec.Wire.{Wire}
use procinsh.Ipc.Codec.Combine.{◌⊗◌, wire_struct}
use procinsh.Ipc.Codec.Values.{u32, Text, string}
use procinsh.Ipc.Codec.Choices.{option}
use procinsh.Ipc.Codec.Enums.{arm, last, bare, with, wire_enum}
use procinsh.Ipc.Identity.{ProcessId, process_id_wire}
use procinsh.Ipc.Rdma.Codes.{RdmaQpState, RdmaQpType, rdma_qp_state_wire, rdma_qp_type_wire}
use procinsh.Ipc.Rdma.Connection.{
  IbGid, RdmaAddress, RdmaCmState, RdmaPortSpace, ib_gid_wire, rdma_address_wire,
  rdma_cm_state_wire, rdma_port_space_wire,
}

pub record RdmaPortInfo : Type 0 where
  pub device : Text
  pub port : ℕ
  pub link_layer : Option Text
  pub state : Option Text
  pub lid : Option ℕ
  pub gid : Option IbGid
  pub rate : Option Text

unfoldable pub rdma_port_info_wire : Wire RdmaPortInfo
unfolding wire_struct
rdma_port_info_wire =
    wire_struct
      (string
        ⊗ u32
        ⊗ option string
        ⊗ option string
        ⊗ option u32
        ⊗ option ib_gid_wire
        ⊗ option string)
      (λ r. (r.device, (r.port, (r.link_layer, (r.state, (r.lid, (r.gid, r.rate)))))))
      (λ t. record {
        device = t.0;
        port = t.1.0;
        link_layer = t.1.1.0;
        state = t.1.1.1.0;
        lid = t.1.1.1.1.0;
        gid = t.1.1.1.1.1.0;
        rate = t.1.1.1.1.1.1;
      })
      (λ r. refl) (λ t. refl)

pub data RdmaEndpointOwner : Type 0 where
  process : ProcessId → RdmaEndpointOwner
  kernel : Text → RdmaEndpointOwner
  unknown : Option ℕ → RdmaEndpointOwner

abbrev RdmaEndpointOwnerSum : Type 0
RdmaEndpointOwnerSum = ProcessId ⊎ (Text ⊎ Option ℕ)

to_rdma_endpoint_owner : RdmaEndpointOwner → RdmaEndpointOwnerSum
to_rdma_endpoint_owner (RdmaEndpointOwner.process a) = inl a
to_rdma_endpoint_owner (RdmaEndpointOwner.kernel a) = inr (inl a)
to_rdma_endpoint_owner (RdmaEndpointOwner.unknown a) = inr (inr a)

of_rdma_endpoint_owner : RdmaEndpointOwnerSum → RdmaEndpointOwner
of_rdma_endpoint_owner (inl x) = RdmaEndpointOwner.process x
of_rdma_endpoint_owner (inr (inl x)) = RdmaEndpointOwner.kernel x
of_rdma_endpoint_owner (inr (inr x)) = RdmaEndpointOwner.unknown x

of_rdma_endpoint_owner-to_rdma_endpoint_owner :
    (e : RdmaEndpointOwner) → of_rdma_endpoint_owner (to_rdma_endpoint_owner e) ≡ e
unfolding of_rdma_endpoint_owner to_rdma_endpoint_owner
of_rdma_endpoint_owner-to_rdma_endpoint_owner (RdmaEndpointOwner.process a) = refl
of_rdma_endpoint_owner-to_rdma_endpoint_owner _ = refl

to_rdma_endpoint_owner-of_rdma_endpoint_owner :
    (x : RdmaEndpointOwnerSum) → to_rdma_endpoint_owner (of_rdma_endpoint_owner x) ≡ x
unfolding of_rdma_endpoint_owner to_rdma_endpoint_owner
to_rdma_endpoint_owner-of_rdma_endpoint_owner (inl x) = refl
to_rdma_endpoint_owner-of_rdma_endpoint_owner (inr (inl x)) = refl
to_rdma_endpoint_owner-of_rdma_endpoint_owner (inr (inr x)) = refl

unfoldable pub rdma_endpoint_owner_wire : Wire RdmaEndpointOwner
unfolding wire_enum arm last bare with to_rdma_endpoint_owner of_rdma_endpoint_owner
    of_rdma_endpoint_owner-to_rdma_endpoint_owner to_rdma_endpoint_owner-of_rdma_endpoint_owner
rdma_endpoint_owner_wire =
    wire_enum
      (arm 0 refl (with process_id_wire)
        (arm 1 refl (with string) (last invalid_tag 2 refl (with (option u32))) refl) refl)
      to_rdma_endpoint_owner of_rdma_endpoint_owner of_rdma_endpoint_owner-to_rdma_endpoint_owner
      to_rdma_endpoint_owner-of_rdma_endpoint_owner

pub record RdmaEndpoint : Type 0 where
  pub owner : RdmaEndpointOwner
  pub device : Text
  pub port : Option ℕ
  pub qpn : ℕ
  pub qp_type : RdmaQpType
  pub state : RdmaQpState

unfoldable pub rdma_endpoint_wire : Wire RdmaEndpoint
unfolding wire_struct
rdma_endpoint_wire =
    wire_struct
      (rdma_endpoint_owner_wire
        ⊗ string
        ⊗ option u32
        ⊗ u32
        ⊗ rdma_qp_type_wire
        ⊗ rdma_qp_state_wire)
      (λ r. (r.owner, (r.device, (r.port, (r.qpn, (r.qp_type, r.state))))))
      (λ t. record {
        owner = t.0;
        device = t.1.0;
        port = t.1.1.0;
        qpn = t.1.1.1.0;
        qp_type = t.1.1.1.1.0;
        state = t.1.1.1.1.1;
      })
      (λ r. refl) (λ t. refl)

pub record RdmaCmInfo : Type 0 where
  pub id : Option ℕ
  pub owner : RdmaEndpointOwner
  pub state : RdmaCmState
  pub port_space : RdmaPortSpace
  pub source : Option RdmaAddress
  pub destination : Option RdmaAddress

unfoldable pub rdma_cm_info_wire : Wire RdmaCmInfo
unfolding wire_struct
rdma_cm_info_wire =
    wire_struct
      (option u32
        ⊗ rdma_endpoint_owner_wire
        ⊗ rdma_cm_state_wire
        ⊗ rdma_port_space_wire
        ⊗ option rdma_address_wire
        ⊗ option rdma_address_wire)
      (λ r. (r.id, (r.owner, (r.state, (r.port_space, (r.source, r.destination))))))
      (λ t. record {
        id = t.0;
        owner = t.1.0;
        state = t.1.1.0;
        port_space = t.1.1.1.0;
        source = t.1.1.1.1.0;
        destination = t.1.1.1.1.1;
      })
      (λ r. refl) (λ t. refl)

pub record RdmaRelation : Type 0 where
  pub id : Text
  pub endpoint : RdmaEndpoint
  pub peer : Option RdmaEndpoint
  pub remote_qpn : Option ℕ
  pub cm : Option RdmaCmInfo
  pub remote_gid : Option IbGid
  pub remote_hostname : Option Text
  pub label : Text

unfoldable pub rdma_relation_wire : Wire RdmaRelation
unfolding wire_struct
rdma_relation_wire =
    wire_struct
      (string
        ⊗ rdma_endpoint_wire
        ⊗ option rdma_endpoint_wire
        ⊗ option u32
        ⊗ option rdma_cm_info_wire
        ⊗ option ib_gid_wire
        ⊗ option string
        ⊗ string)
      (λ r. (
        r.id,
        (
          r.endpoint,
          (r.peer, (r.remote_qpn, (r.cm, (r.remote_gid, (r.remote_hostname, r.label))))),
        ),
      ))
      (λ t. record {
        id = t.0;
        endpoint = t.1.0;
        peer = t.1.1.0;
        remote_qpn = t.1.1.1.0;
        cm = t.1.1.1.1.0;
        remote_gid = t.1.1.1.1.1.0;
        remote_hostname = t.1.1.1.1.1.1.0;
        label = t.1.1.1.1.1.1.1;
      })
      (λ r. refl) (λ t. refl)
