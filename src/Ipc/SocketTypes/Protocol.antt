-- ===== src/Ipc/SocketTypes/Protocol.antt =====
-- src/ipc/model/socket_types.rs: protocols and addresses, as they go over the wire.
use procinsh.Prelude.{ℕ, ◌≡◌, refl, ◌⊎◌, inl, inr, Option}
use procinsh.Ipc.Codec.{invalid_tag}
use procinsh.Ipc.Codec.Wire.{Wire}
use procinsh.Ipc.Codec.Combine.{◌⊗◌, wire_struct}
use procinsh.Ipc.Codec.Values.{u16, u32}
use procinsh.Ipc.Codec.Choices.{option}
use procinsh.Ipc.Codec.Enums.{arm, last, bare, with, wire_enum}
use procinsh.Ipc.Codec.Addresses.{IpAddr, ip_addr}

pub data AddressFamily : Type 0 where
  ipv4 ipv6 : AddressFamily

abbrev AddressFamilySum : Type 0
AddressFamilySum = Unit {0} ⊎ Unit {0}

to_address_family : AddressFamily → AddressFamilySum
to_address_family AddressFamily.ipv4 = inl tt
to_address_family AddressFamily.ipv6 = inr tt

of_address_family : AddressFamilySum → AddressFamily
of_address_family (inl _) = AddressFamily.ipv4
of_address_family (inr _) = AddressFamily.ipv6

of_address_family-to_address_family :
    (e : AddressFamily) → of_address_family (to_address_family e) ≡ e
unfolding of_address_family to_address_family
of_address_family-to_address_family AddressFamily.ipv4 = refl
of_address_family-to_address_family _ = refl

to_address_family-of_address_family :
    (x : AddressFamilySum) → to_address_family (of_address_family x) ≡ x
unfolding of_address_family to_address_family
to_address_family-of_address_family (inl x) = refl
to_address_family-of_address_family (inr x) = refl

unfoldable pub address_family_wire : Wire AddressFamily
unfolding wire_enum arm last bare with to_address_family of_address_family
    of_address_family-to_address_family to_address_family-of_address_family
address_family_wire =
    wire_enum (arm 0 refl bare (last invalid_tag 1 refl bare) refl) to_address_family
      of_address_family of_address_family-to_address_family to_address_family-of_address_family

pub data SocketType : Type 0 where
  stream dgram raw rdm seqpacket dccp packet : SocketType
  unknown : ℕ → SocketType

abbrev SocketTypeSum : Type 0
SocketTypeSum =
    Unit {0} ⊎ (Unit {0} ⊎ (Unit {0} ⊎ (Unit {0} ⊎ (Unit {0} ⊎ (Unit {0} ⊎ (Unit {0} ⊎ ℕ))))))

to_socket_type : SocketType → SocketTypeSum
to_socket_type SocketType.stream = inl tt
to_socket_type SocketType.dgram = inr (inl tt)
to_socket_type SocketType.raw = inr (inr (inl tt))
to_socket_type SocketType.rdm = inr (inr (inr (inl tt)))
to_socket_type SocketType.seqpacket = inr (inr (inr (inr (inl tt))))
to_socket_type SocketType.dccp = inr (inr (inr (inr (inr (inl tt)))))
to_socket_type SocketType.packet = inr (inr (inr (inr (inr (inr (inl tt))))))
to_socket_type (SocketType.unknown a) = inr (inr (inr (inr (inr (inr (inr a))))))

of_socket_type : SocketTypeSum → SocketType
of_socket_type (inl _) = SocketType.stream
of_socket_type (inr (inl _)) = SocketType.dgram
of_socket_type (inr (inr (inl _))) = SocketType.raw
of_socket_type (inr (inr (inr (inl _)))) = SocketType.rdm
of_socket_type (inr (inr (inr (inr (inl _))))) = SocketType.seqpacket
of_socket_type (inr (inr (inr (inr (inr (inl _)))))) = SocketType.dccp
of_socket_type (inr (inr (inr (inr (inr (inr (inl _))))))) = SocketType.packet
of_socket_type (inr (inr (inr (inr (inr (inr (inr x))))))) = SocketType.unknown x

of_socket_type-to_socket_type : (e : SocketType) → of_socket_type (to_socket_type e) ≡ e
unfolding of_socket_type to_socket_type
of_socket_type-to_socket_type SocketType.stream = refl
of_socket_type-to_socket_type _ = refl

to_socket_type-of_socket_type : (x : SocketTypeSum) → to_socket_type (of_socket_type x) ≡ x
unfolding of_socket_type to_socket_type
to_socket_type-of_socket_type (inl x) = refl
to_socket_type-of_socket_type (inr (inl x)) = refl
to_socket_type-of_socket_type (inr (inr (inl x))) = refl
to_socket_type-of_socket_type (inr (inr (inr (inl x)))) = refl
to_socket_type-of_socket_type (inr (inr (inr (inr (inl x))))) = refl
to_socket_type-of_socket_type (inr (inr (inr (inr (inr (inl x)))))) = refl
to_socket_type-of_socket_type (inr (inr (inr (inr (inr (inr (inl x))))))) = refl
to_socket_type-of_socket_type (inr (inr (inr (inr (inr (inr (inr x))))))) = refl

unfoldable pub socket_type_wire : Wire SocketType
unfolding wire_enum arm last bare with to_socket_type of_socket_type of_socket_type-to_socket_type
    to_socket_type-of_socket_type
socket_type_wire =
    wire_enum
      (arm 0 refl bare
        (arm 1 refl bare
          (arm 2 refl bare
            (arm 3 refl bare
              (arm 4 refl bare
                (arm 5 refl bare (arm 6 refl bare (last invalid_tag 7 refl (with u32)) refl) refl)
                refl)
              refl)
            refl)
          refl)
        refl)
      to_socket_type of_socket_type of_socket_type-to_socket_type to_socket_type-of_socket_type

pub data SocketProtocol : Type 0 where
  tcp : AddressFamily → SocketProtocol
  udp : AddressFamily → SocketProtocol
  unix : SocketType → SocketProtocol
  other : ℕ → Option SocketType → ℕ → SocketProtocol

abbrev SocketProtocolSum : Type 0
SocketProtocolSum = AddressFamily ⊎ (AddressFamily ⊎ (SocketType ⊎ (ℕ × (Option SocketType × ℕ))))

to_socket_protocol : SocketProtocol → SocketProtocolSum
to_socket_protocol (SocketProtocol.tcp a) = inl a
to_socket_protocol (SocketProtocol.udp a) = inr (inl a)
to_socket_protocol (SocketProtocol.unix a) = inr (inr (inl a))
to_socket_protocol (SocketProtocol.other a b c) = inr (inr (inr (a, (b, c))))

of_socket_protocol : SocketProtocolSum → SocketProtocol
of_socket_protocol (inl x) = SocketProtocol.tcp x
of_socket_protocol (inr (inl x)) = SocketProtocol.udp x
of_socket_protocol (inr (inr (inl x))) = SocketProtocol.unix x
of_socket_protocol (inr (inr (inr x))) = SocketProtocol.other x.0 x.1.0 x.1.1

of_socket_protocol-to_socket_protocol :
    (e : SocketProtocol) → of_socket_protocol (to_socket_protocol e) ≡ e
unfolding of_socket_protocol to_socket_protocol
of_socket_protocol-to_socket_protocol (SocketProtocol.tcp a) = refl
of_socket_protocol-to_socket_protocol _ = refl

to_socket_protocol-of_socket_protocol :
    (x : SocketProtocolSum) → to_socket_protocol (of_socket_protocol x) ≡ x
unfolding of_socket_protocol to_socket_protocol
to_socket_protocol-of_socket_protocol (inl x) = refl
to_socket_protocol-of_socket_protocol (inr (inl x)) = refl
to_socket_protocol-of_socket_protocol (inr (inr (inl x))) = refl
to_socket_protocol-of_socket_protocol (inr (inr (inr x))) = refl

unfoldable pub socket_protocol_wire : Wire SocketProtocol
unfolding wire_enum arm last bare with to_socket_protocol of_socket_protocol
    of_socket_protocol-to_socket_protocol to_socket_protocol-of_socket_protocol
socket_protocol_wire =
    wire_enum
      (arm 0 refl (with address_family_wire)
        (arm 1 refl (with address_family_wire)
          (arm 2 refl (with socket_type_wire)
            (last invalid_tag 3 refl (with (u32 ⊗ option socket_type_wire ⊗ u32))) refl)
          refl)
        refl)
      to_socket_protocol of_socket_protocol of_socket_protocol-to_socket_protocol
      to_socket_protocol-of_socket_protocol

pub record InetAddress : Type 0 where
  pub ip : IpAddr
  pub port : ℕ

unfoldable pub inet_address_wire : Wire InetAddress
unfolding wire_struct
inet_address_wire =
    wire_struct (ip_addr ⊗ u16) (λ r. (r.ip, r.port)) (λ t. record { ip = t.0; port = t.1 })
      (λ r. refl) (λ t. refl)
