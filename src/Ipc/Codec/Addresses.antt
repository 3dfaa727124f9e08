-- ===== src/Ipc/Codec/Addresses.antt =====
-- `IpAddr` and `SocketAddr` on the wire (src/ipc/codec.rs). The address types are those of std::net.
use procinsh.Prelude.{
  ℕ, ◌≤◌, ◌≡◌, refl, sym, ap, ◌∙◌, ◌⊎◌, inl, inr, List, [], ◌++◌, arith, All, All-append, length,
  length-append, ok, ◌>>=◌, bind-HasRun,
}
use procinsh.Ipc.Codec.{Encoder, Decoder, Fallible, u32_max, invalid_ip_family, append}
use procinsh.Ipc.Codec.Bytes.{IsByte}
use procinsh.Ipc.Codec.Laws.{on, append-then, append-nil_lem}
use procinsh.Ipc.Codec.Wire.{Wire}
use procinsh.Ipc.Codec.Combine.{◌⊗◌}
use procinsh.Ipc.Codec.Lists.{array}
use procinsh.Ipc.Codec.Values.{u8, u16, u32}
use procinsh.Ipc.Codec.Enums.{last, arm, with, wire_enum}
use mathlib.Core.List.{append_assoc}

-- By octets: four, or sixteen.
pub data IpAddr : Type 0 where
  v4 v6 : List ℕ → IpAddr

to_octets : IpAddr → List ℕ ⊎ List ℕ
to_octets (v4 octets) = inl octets
to_octets (v6 octets) = inr octets

of_octets : List ℕ ⊎ List ℕ → IpAddr
of_octets (inl octets) = v4 octets
of_octets (inr octets) = v6 octets

of_octets-to_octets : (ip : IpAddr) → of_octets (to_octets ip) ≡ ip
unfolding of_octets to_octets
of_octets-to_octets (v4 octets) = refl
of_octets-to_octets (v6 octets) = refl

to_octets-of_octets : (s : List ℕ ⊎ List ℕ) → to_octets (of_octets s) ≡ s
unfolding of_octets to_octets
to_octets-of_octets (inl octets) = refl
to_octets-of_octets (inr octets) = refl

unfoldable pub ip_addr : Wire IpAddr
unfolding arm last with to_octets of_octets of_octets-to_octets to_octets-of_octets wire_enum array
ip_addr =
    wire_enum
      (arm 4 refl (with (array 3 u8)) (last invalid_ip_family 6 refl (with (array 15 u8))) refl)
      to_octets of_octets of_octets-to_octets to_octets-of_octets

pub data SocketAddr : Type 0 where
  socket_v4 : List ℕ → ℕ → SocketAddr
  -- octets, port, flowinfo, scope_id
  socket_v6 : List ℕ → ℕ → ℕ → ℕ → SocketAddr

unfoldable pub ip : SocketAddr → IpAddr
ip (socket_v4 octets port) = v4 octets
ip (socket_v6 octets port flowinfo scope_id) = v6 octets

unfoldable pub port : SocketAddr → ℕ
port (socket_v4 octets n) = n
port (socket_v6 octets n flowinfo scope_id) = n

-- `if let Self::V6(address) = self { .. }`
write_scope : SocketAddr → Encoder → Fallible Encoder
write_scope (socket_v4 octets port) output = ok output
write_scope (socket_v6 octets port flowinfo scope_id) output =
    (u32 ⊗ u32).write (flowinfo, scope_id) output

unfoldable pub write_socket_addr : SocketAddr → Encoder → Fallible Encoder
unfolding write_scope ip port
write_socket_addr address output =
    (ip_addr ⊗ u16).write (ip address, port address) output >>= write_scope address

read_scope : IpAddr → ℕ → Decoder → Fallible (SocketAddr × Decoder)
read_scope (v4 octets) port input = ok (socket_v4 octets port, input)
read_scope (v6 octets) port input = do
  (scope, input) ← (u32 ⊗ u32).read input
  ok (socket_v6 octets port scope.0 scope.1, input)

unfoldable pub read_socket_addr : Decoder → Fallible (SocketAddr × Decoder)
unfolding read_scope
read_socket_addr input = do
  (address, input) ← (ip_addr ⊗ u16).read input
  read_scope address.0 address.1 input

abbrev pub IsScope : SocketAddr → Type 0
IsScope (socket_v4 octets port) = Unit
IsScope (socket_v6 octets port flowinfo scope_id) = (u32 ⊗ u32).IsRepresentable (flowinfo, scope_id)

abbrev pub IsSocketAddr : SocketAddr → Type 0
IsSocketAddr address = (ip_addr ⊗ u16).IsRepresentable (ip address, port address) × IsScope address

scope_code : SocketAddr → List ℕ
scope_code (socket_v4 octets port) = []
scope_code (socket_v6 octets port flowinfo scope_id) = (u32 ⊗ u32).code (flowinfo, scope_id)

unfoldable pub socket_addr_code : SocketAddr → List ℕ
unfolding scope_code ip port
socket_addr_code address = (ip_addr ⊗ u16).code (ip address, port address) ++ scope_code address

pub socket_addr_code_pos : (a : SocketAddr) → IsSocketAddr a → 1 ≤ length (socket_addr_code a)
unfolding socket_addr_code
socket_addr_code_pos a (r, s) = omega (
  arith,
  length-append ((ip_addr ⊗ u16).code (ip a, port a)) (scope_code a),
  (ip_addr ⊗ u16).code_pos (ip a, port a) r,
)

write_scope-code :
    (a : SocketAddr) (o : Encoder)
    → IsScope a
    → o.limit ≤ u32_max
    → write_scope a o ≡ append (scope_code a) o
unfolding write_scope scope_code
write_scope-code (socket_v4 octets port) o r h = sym (append-nil_lem o)
write_scope-code (socket_v6 octets port flowinfo scope_id) o r h =
    (u32 ⊗ u32).write-code (flowinfo, scope_id) o r h

pub write_socket_addr-code :
    (a : SocketAddr) (o : Encoder)
    → IsSocketAddr a
    → o.limit ≤ u32_max
    → write_socket_addr a o ≡ append (socket_addr_code a) o
unfolding write_socket_addr socket_addr_code
write_socket_addr-code a o (r, s) h = rw ((ip_addr ⊗ u16).write-code (ip a, port a) o r h) (
    append-then ((ip_addr ⊗ u16).code (ip a, port a)) (scope_code a) o (write_scope a)
      (λ o' same. write_scope-code a o' s (omega (arith, same))))

read_scope-code :
    (a : SocketAddr) (rest : List ℕ)
    → IsScope a
    → length (scope_code a) ≤ u32_max
    → read_scope (ip a) (port a) (on (scope_code a ++ rest)) ≡ ok (a, on rest)
unfolding read_scope scope_code ip port
read_scope-code (socket_v4 octets port) rest r h = refl
read_scope-code (socket_v6 octets port flowinfo scope_id) rest r h =
    rw ((u32 ⊗ u32).read-code (flowinfo, scope_id) rest r h)

pub read_socket_addr-code :
    (a : SocketAddr) (rest : List ℕ)
    → IsSocketAddr a
    → length (socket_addr_code a) ≤ u32_max
    → read_socket_addr (on (socket_addr_code a ++ rest)) ≡ ok (a, on rest)
unfolding read_socket_addr socket_addr_code
read_socket_addr-code a rest (r, s) h =
    let head = (ip_addr ⊗ u16).code (ip a, port a) in
    let long = length-append head (scope_code a) in
    rw
      (
        append_assoc head (scope_code a) rest,
        (ip_addr ⊗ u16).read-code (ip a, port a) (scope_code a ++ rest) r (omega arith),
      )
      (read_scope-code a rest s (omega arith))

read_scope_sound :
    (address : IpAddr) (p : ℕ) (bs : List ℕ) (a : SocketAddr) (rest : Decoder)
    → All IsByte bs
    → read_scope address p (on bs) ≡ ok (a, rest)
    → (address ≡ ip a) × (p ≡ port a) × IsScope a × (bs ≡ scope_code a ++ rest.bytes)
unfolding read_scope scope_code ip port
read_scope_sound (v4 octets) p bs a rest h e =
    let value : socket_v4 octets p ≡ a = cc e in
    let end : on bs ≡ rest = cc e in rw (← value, ← end) (refl, refl, tt, refl)
read_scope_sound (v6 octets) p bs a rest h e =
    let (q, e₁, e₂) = bind-HasRun ((u32 ⊗ u32).read (on bs)) _ e in
    let (scope, i) = q in
    let (r, whole) = (u32 ⊗ u32).read_sound bs scope i h e₁ in
    let value : socket_v6 octets p scope.0 scope.1 ≡ a = cc e₂ in
    let end : i ≡ rest = cc e₂ in rw (← value, ← end) (refl, refl, r, whole)

pub read_socket_addr_sound :
    (bs : List ℕ) (a : SocketAddr) (rest : Decoder)
    → All IsByte bs
    → read_socket_addr (on bs) ≡ ok (a, rest)
    → IsSocketAddr a × (bs ≡ socket_addr_code a ++ rest.bytes)
unfolding read_socket_addr socket_addr_code
read_socket_addr_sound bs a rest h e =
    let (q, e₁, e₂) = bind-HasRun ((ip_addr ⊗ u16).read (on bs)) _ e in
    let (address, i) = q in
    let (r, first) = (ip_addr ⊗ u16).read_sound bs address i h e₁ in
    let inside = (All-append IsByte ((ip_addr ⊗ u16).code address) i.bytes (rw first at h)).1 in
    let (same_ip, same_port, s, second) =
      read_scope_sound address.0 address.1 i.bytes a rest inside e₂ in
    let same : address ≡ (ip a, port a) = λ k. (same_ip k, same_port k) in
    let head = (ip_addr ⊗ u16).code (ip a, port a) in
    (
      (rw same at r, s),
      first
          ∙ ap (λ (z : List ℕ). (ip_addr ⊗ u16).code address ++ z) second
          ∙ ap (λ (z : IpAddr × ℕ). (ip_addr ⊗ u16).code z ++ (scope_code a ++ rest.bytes)) same
          ∙ sym (append_assoc head (scope_code a) rest.bytes),
    )

unfoldable pub socket_addr : Wire SocketAddr
unfolding write_socket_addr read_socket_addr socket_addr_code
socket_addr = record {
  write = write_socket_addr;
  read = read_socket_addr;
  IsRepresentable = IsSocketAddr;
  code = socket_addr_code;
  code_pos = socket_addr_code_pos;
  write-code = write_socket_addr-code;
  read-code = read_socket_addr-code;
  read_sound = read_socket_addr_sound;
}
