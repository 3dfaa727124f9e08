-- ===== src/Ipc/Rdma/Connection.antt =====
-- src/ipc/rdma.rs: connection manager states and addresses, as they go over the wire.
use procinsh.Prelude.{ℕ, ◌≡◌, refl, ◌⊎◌, inl, inr, List}
use procinsh.Ipc.Codec.{invalid_tag}
use procinsh.Ipc.Codec.Wire.{Wire}
use procinsh.Ipc.Codec.Combine.{◌⊗◌, wire_struct}
use procinsh.Ipc.Codec.Values.{u8, u16, u32, u64}
use procinsh.Ipc.Codec.Lists.{array}
use procinsh.Ipc.Codec.Enums.{arm, last, bare, with, wire_enum}
use procinsh.Ipc.Codec.Addresses.{IpAddr, ip_addr}

pub data RdmaCmState : Type 0 where
  idle addr_query addr_resolved route_query route_resolved connect disconnect addr_bound :
      RdmaCmState
  listen device_removal destroying : RdmaCmState
  unknown : ℕ → RdmaCmState

abbrev RdmaCmStateSum : Type 0
RdmaCmStateSum =
    Unit {0}
    ⊎ (Unit {0}
        ⊎ (Unit {0}
            ⊎ (Unit {0}
                ⊎ (Unit {0}
                    ⊎ (Unit {0}
                        ⊎ (Unit {0} ⊎ (Unit {0} ⊎ (Unit {0} ⊎ (Unit {0} ⊎ (Unit {0} ⊎ ℕ))))))))))

to_rdma_cm_state : RdmaCmState → RdmaCmStateSum
to_rdma_cm_state RdmaCmState.idle = inl tt
to_rdma_cm_state RdmaCmState.addr_query = inr (inl tt)
to_rdma_cm_state RdmaCmState.addr_resolved = inr (inr (inl tt))
to_rdma_cm_state RdmaCmState.route_query = inr (inr (inr (inl tt)))
to_rdma_cm_state RdmaCmState.route_resolved = inr (inr (inr (inr (inl tt))))
to_rdma_cm_state RdmaCmState.connect = inr (inr (inr (inr (inr (inl tt)))))
to_rdma_cm_state RdmaCmState.disconnect = inr (inr (inr (inr (inr (inr (inl tt))))))
to_rdma_cm_state RdmaCmState.addr_bound = inr (inr (inr (inr (inr (inr (inr (inl tt)))))))
to_rdma_cm_state RdmaCmState.listen = inr (inr (inr (inr (inr (inr (inr (inr (inl tt))))))))
to_rdma_cm_state RdmaCmState.device_removal =
    inr (inr (inr (inr (inr (inr (inr (inr (inr (inl tt)))))))))
to_rdma_cm_state RdmaCmState.destroying =
    inr (inr (inr (inr (inr (inr (inr (inr (inr (inr (inl tt))))))))))
to_rdma_cm_state (RdmaCmState.unknown a) =
    inr (inr (inr (inr (inr (inr (inr (inr (inr (inr (inr a))))))))))

of_rdma_cm_state : RdmaCmStateSum → RdmaCmState
of_rdma_cm_state (inl _) = RdmaCmState.idle
of_rdma_cm_state (inr (inl _)) = RdmaCmState.addr_query
of_rdma_cm_state (inr (inr (inl _))) = RdmaCmState.addr_resolved
of_rdma_cm_state (inr (inr (inr (inl _)))) = RdmaCmState.route_query
of_rdma_cm_state (inr (inr (inr (inr (inl _))))) = RdmaCmState.route_resolved
of_rdma_cm_state (inr (inr (inr (inr (inr (inl _)))))) = RdmaCmState.connect
of_rdma_cm_state (inr (inr (inr (inr (inr (inr (inl _))))))) = RdmaCmState.disconnect
of_rdma_cm_state (inr (inr (inr (inr (inr (inr (inr (inl _)))))))) = RdmaCmState.addr_bound
of_rdma_cm_state (inr (inr (inr (inr (inr (inr (inr (inr (inl _))))))))) = RdmaCmState.listen
of_rdma_cm_state (inr (inr (inr (inr (inr (inr (inr (inr (inr (inl _)))))))))) =
    RdmaCmState.device_removal
of_rdma_cm_state (inr (inr (inr (inr (inr (inr (inr (inr (inr (inr (inl _))))))))))) =
    RdmaCmState.destroying
of_rdma_cm_state (inr (inr (inr (inr (inr (inr (inr (inr (inr (inr (inr x))))))))))) =
    RdmaCmState.unknown x

of_rdma_cm_state-to_rdma_cm_state : (e : RdmaCmState) → of_rdma_cm_state (to_rdma_cm_state e) ≡ e
unfolding of_rdma_cm_state to_rdma_cm_state
of_rdma_cm_state-to_rdma_cm_state RdmaCmState.idle = refl
of_rdma_cm_state-to_rdma_cm_state _ = refl

to_rdma_cm_state-of_rdma_cm_state : (x : RdmaCmStateSum) → to_rdma_cm_state (of_rdma_cm_state x) ≡ x
unfolding of_rdma_cm_state to_rdma_cm_state
to_rdma_cm_state-of_rdma_cm_state (inl x) = refl
to_rdma_cm_state-of_rdma_cm_state (inr (inl x)) = refl
to_rdma_cm_state-of_rdma_cm_state (inr (inr (inl x))) = refl
to_rdma_cm_state-of_rdma_cm_state (inr (inr (inr (inl x)))) = refl
to_rdma_cm_state-of_rdma_cm_state (inr (inr (inr (inr (inl x))))) = refl
to_rdma_cm_state-of_rdma_cm_state (inr (inr (inr (inr (inr (inl x)))))) = refl
to_rdma_cm_state-of_rdma_cm_state (inr (inr (inr (inr (inr (inr (inl x))))))) = refl
to_rdma_cm_state-of_rdma_cm_state (inr (inr (inr (inr (inr (inr (inr (inl x)))))))) = refl
to_rdma_cm_state-of_rdma_cm_state (inr (inr (inr (inr (inr (inr (inr (inr (inl x))))))))) = refl
to_rdma_cm_state-of_rdma_cm_state (inr (inr (inr (inr (inr (inr (inr (inr (inr (inl x)))))))))) =
    refl
to_rdma_cm_state-of_rdma_cm_state
      (inr (inr (inr (inr (inr (inr (inr (inr (inr (inr (inl x))))))))))) =
    refl
to_rdma_cm_state-of_rdma_cm_state
      (inr (inr (inr (inr (inr (inr (inr (inr (inr (inr (inr x))))))))))) =
    refl

unfoldable pub rdma_cm_state_wire : Wire RdmaCmState
unfolding wire_enum arm last bare with to_rdma_cm_state of_rdma_cm_state
    of_rdma_cm_state-to_rdma_cm_state to_rdma_cm_state-of_rdma_cm_state
rdma_cm_state_wire =
    wire_enum
      (arm 0 refl bare
        (arm 1 refl bare
          (arm 2 refl bare
            (arm 3 refl bare
              (arm 4 refl bare
                (arm 5 refl bare
                  (arm 6 refl bare
                    (arm 7 refl bare
                      (arm 8 refl bare
                        (arm 9 refl bare
                          (arm 10 refl bare (last invalid_tag 11 refl (with u8)) refl) refl)
                        refl)
                      refl)
                    refl)
                  refl)
                refl)
              refl)
            refl)
          refl)
        refl)
      to_rdma_cm_state of_rdma_cm_state of_rdma_cm_state-to_rdma_cm_state
      to_rdma_cm_state-of_rdma_cm_state

pub data RdmaPortSpace : Type 0 where
  ipoib tcp udp ib : RdmaPortSpace
  unknown : ℕ → RdmaPortSpace

abbrev RdmaPortSpaceSum : Type 0
RdmaPortSpaceSum = Unit {0} ⊎ (Unit {0} ⊎ (Unit {0} ⊎ (Unit {0} ⊎ ℕ)))

to_rdma_port_space : RdmaPortSpace → RdmaPortSpaceSum
to_rdma_port_space RdmaPortSpace.ipoib = inl tt
to_rdma_port_space RdmaPortSpace.tcp = inr (inl tt)
to_rdma_port_space RdmaPortSpace.udp = inr (inr (inl tt))
to_rdma_port_space RdmaPortSpace.ib = inr (inr (inr (inl tt)))
to_rdma_port_space (RdmaPortSpace.unknown a) = inr (inr (inr (inr a)))

of_rdma_port_space : RdmaPortSpaceSum → RdmaPortSpace
of_rdma_port_space (inl _) = RdmaPortSpace.ipoib
of_rdma_port_space (inr (inl _)) = RdmaPortSpace.tcp
of_rdma_port_space (inr (inr (inl _))) = RdmaPortSpace.udp
of_rdma_port_space (inr (inr (inr (inl _)))) = RdmaPortSpace.ib
of_rdma_port_space (inr (inr (inr (inr x)))) = RdmaPortSpace.unknown x

of_rdma_port_space-to_rdma_port_space :
    (e : RdmaPortSpace) → of_rdma_port_space (to_rdma_port_space e) ≡ e
unfolding of_rdma_port_space to_rdma_port_space
of_rdma_port_space-to_rdma_port_space RdmaPortSpace.ipoib = refl
of_rdma_port_space-to_rdma_port_space _ = refl

to_rdma_port_space-of_rdma_port_space :
    (x : RdmaPortSpaceSum) → to_rdma_port_space (of_rdma_port_space x) ≡ x
unfolding of_rdma_port_space to_rdma_port_space
to_rdma_port_space-of_rdma_port_space (inl x) = refl
to_rdma_port_space-of_rdma_port_space (inr (inl x)) = refl
to_rdma_port_space-of_rdma_port_space (inr (inr (inl x))) = refl
to_rdma_port_space-of_rdma_port_space (inr (inr (inr (inl x)))) = refl
to_rdma_port_space-of_rdma_port_space (inr (inr (inr (inr x)))) = refl

unfoldable pub rdma_port_space_wire : Wire RdmaPortSpace
unfolding wire_enum arm last bare with to_rdma_port_space of_rdma_port_space
    of_rdma_port_space-to_rdma_port_space to_rdma_port_space-of_rdma_port_space
rdma_port_space_wire =
    wire_enum
      (arm 0 refl bare
        (arm 1 refl bare
          (arm 2 refl bare (arm 3 refl bare (last invalid_tag 4 refl (with u32)) refl) refl) refl)
        refl)
      to_rdma_port_space of_rdma_port_space of_rdma_port_space-to_rdma_port_space
      to_rdma_port_space-of_rdma_port_space

pub record IbGid : Type 0 where
  pub octets : List ℕ

unfoldable pub ib_gid_wire : Wire IbGid
unfolding wire_struct
ib_gid_wire =
    wire_struct (array 15 u8) (λ g. g.octets) (λ t. record { octets = t }) (λ g. refl) (λ t. refl)

pub data RdmaAddress : Type 0 where
  inet : IpAddr → ℕ → RdmaAddress
  ib : IbGid → ℕ → ℕ → RdmaAddress
  unknown : ℕ → RdmaAddress

abbrev RdmaAddressSum : Type 0
RdmaAddressSum = (IpAddr × ℕ) ⊎ ((IbGid × (ℕ × ℕ)) ⊎ ℕ)

to_rdma_address : RdmaAddress → RdmaAddressSum
to_rdma_address (RdmaAddress.inet a b) = inl (a, b)
to_rdma_address (RdmaAddress.ib a b c) = inr (inl (a, (b, c)))
to_rdma_address (RdmaAddress.unknown a) = inr (inr a)

of_rdma_address : RdmaAddressSum → RdmaAddress
of_rdma_address (inl x) = RdmaAddress.inet x.0 x.1
of_rdma_address (inr (inl x)) = RdmaAddress.ib x.0 x.1.0 x.1.1
of_rdma_address (inr (inr x)) = RdmaAddress.unknown x

of_rdma_address-to_rdma_address : (e : RdmaAddress) → of_rdma_address (to_rdma_address e) ≡ e
unfolding of_rdma_address to_rdma_address
of_rdma_address-to_rdma_address (RdmaAddress.inet a b) = refl
of_rdma_address-to_rdma_address _ = refl

to_rdma_address-of_rdma_address : (x : RdmaAddressSum) → to_rdma_address (of_rdma_address x) ≡ x
unfolding of_rdma_address to_rdma_address
to_rdma_address-of_rdma_address (inl x) = refl
to_rdma_address-of_rdma_address (inr (inl x)) = refl
to_rdma_address-of_rdma_address (inr (inr x)) = refl

unfoldable pub rdma_address_wire : Wire RdmaAddress
unfolding wire_enum arm last bare with to_rdma_address of_rdma_address
    of_rdma_address-to_rdma_address to_rdma_address-of_rdma_address
rdma_address_wire =
    wire_enum
      (arm 0 refl (with (ip_addr ⊗ u16))
        (arm 1 refl (with (ib_gid_wire ⊗ u64 ⊗ u16)) (last invalid_tag 2 refl (with u16)) refl)
        refl)
      to_rdma_address of_rdma_address of_rdma_address-to_rdma_address
      to_rdma_address-of_rdma_address
