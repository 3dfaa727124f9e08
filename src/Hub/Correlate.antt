-- ===== src/Hub/Correlate.antt =====
-- src/http_server/hosts/correlate.rs: the connections between two hosts. A host is given with its entries
-- as they are decoded from its snapshot; a `Value` is of type `V`.
pub mod Sorting
pub mod Sockets
use procinsh.Prelude.{
  ℕ, ◌≡◌, Bool, true, false, ◌&&◌, ◌||◌, not, ltb, leb, ◌==◌, if◌then◌else◌, Option, none, some,
  List, [], ◌∷◌, ◌++◌,
}
use procinsh.Hub.Names.{same_text}
use procinsh.Ipc.Codec.Addresses.{IpAddr, v4, v6}

pub record LinkEnd : Type 0 where
  pub host : List ℕ
  pub relation : List ℕ

-- The order of strings, by bytes, and of ends, by host and then by relation.
unfoldable pub text_lt : List ℕ → List ℕ → Bool
text_lt xs [] = false
text_lt [] (y ∷ ys) = true
text_lt (x ∷ xs) (y ∷ ys) = ltb x y || ((x == y) && text_lt xs ys)

unfoldable pub end_lt : LinkEnd → LinkEnd → Bool
unfolding text_lt same_text
end_lt a b = text_lt a.host b.host || (same_text a.host b.host && text_lt a.relation b.relation)

unfoldable pub same_end : LinkEnd → LinkEnd → Bool
unfolding same_text
same_end a b = same_text a.host b.host && same_text a.relation b.relation

pub record Address : Type 0 where
  pub ip : IpAddr
  pub port : ℕ

-- The fields that the code reads of an entry of "fd_relations": `kind` is that of the protocol.
pub record Socket : Type 0 where
  pub kind : List ℕ
  pub local : Option Address
  pub remote : Option Address
  pub network_peer : Bool

pub record FdRelation : Type 0 where
  pub id : List ℕ
  pub has_peer : Bool
  pub shared : Bool
  pub socket : Option Socket

abbrev pub all_zero : List ℕ → Bool
all_zero [] = true
all_zero (b ∷ bytes) = (b == 0) && all_zero bytes

-- `::1`.
abbrev pub is_one : List ℕ → Bool
is_one [] = false
is_one (b ∷ []) = b == 1
is_one (b ∷ c ∷ bytes) = (b == 0) && is_one (c ∷ bytes)

abbrev pub starts_with_127 : List ℕ → Bool
starts_with_127 [] = false
starts_with_127 (b ∷ bytes) = b == 127

-- `is_unspecified` and `is_loopback` of `IpAddr`.
unfoldable pub is_unspecified : IpAddr → Bool
is_unspecified (v4 octets) = all_zero octets
is_unspecified (v6 octets) = all_zero octets

unfoldable pub is_loopback : IpAddr → Bool
is_loopback (v4 octets) = starts_with_127 octets
is_loopback (v6 octets) = is_one octets

unfoldable pub is_routable_address : Address → Bool
unfolding is_unspecified is_loopback
is_routable_address a = not (a.port == 0) && not (is_unspecified a.ip) && not (is_loopback a.ip)

-- The key of `by_tuple`.
pub record Tuple : Type 0 where
  pub kind : List ℕ
  pub local : Address
  pub remote : Address

abbrev pub reversed : Tuple → Tuple
reversed t = record { kind = t.kind; local = t.remote; remote = t.local }

unfoldable pub same_ip : IpAddr → IpAddr → Bool
unfolding same_text
same_ip (v4 a) (v4 b) = same_text a b
same_ip (v6 a) (v6 b) = same_text a b
same_ip (v4 a) (v6 b) = false
same_ip (v6 a) (v4 b) = false

abbrev pub same_address : Address → Address → Bool
same_address a b = same_ip a.ip b.ip && (a.port == b.port)

unfoldable pub same_tuple : Tuple → Tuple → Bool
unfolding same_text same_ip
same_tuple s t =
    same_text s.kind t.kind && same_address s.local t.local && same_address s.remote t.remote

-- The tuple of a relation that may have its other end on another host.
unfoldable pub tuple_of : FdRelation → Option Tuple
unfolding is_routable_address
tuple_of relation = elim relation.socket [
  | none ↦ none
  | some socket ↦
      if relation.has_peer || relation.shared || not socket.network_peer
      then none
      else elim socket.local [
        | none ↦ none
        | some local ↦ elim socket.remote [
          | none ↦ none
          | some remote ↦
              if not (is_routable_address local) || not (is_routable_address remote)
              then none
              else some (record { kind = socket.kind; local = local; remote = remote })
        ]
      ]
]

abbrev pub Entry : Type 0
Entry = Tuple × LinkEnd

abbrev pub cons_entry : List ℕ → List ℕ → Option Tuple → List Entry → List Entry
cons_entry host id none entries = entries
cons_entry host id (some t) entries = (t, record { host = host; relation = id }) ∷ entries

unfoldable pub host_entries : List ℕ → List FdRelation → List Entry
unfolding tuple_of
host_entries host [] = []
host_entries host (relation ∷ relations) =
    cons_entry host relation.id (tuple_of relation) (host_entries host relations)

-- What is pushed into `by_tuple`, in order.
unfoldable pub socket_entries : List (List ℕ × List FdRelation) → List Entry
unfolding host_entries
socket_entries [] = []
socket_entries (host ∷ hosts) = host_entries host.0 host.1 ++ socket_entries hosts

-- `by_tuple.get`, where a missing key has no ends.
unfoldable pub ends_of : Tuple → List Entry → List LinkEnd
unfolding same_tuple
ends_of t [] = []
ends_of t (entry ∷ entries) =
    let rest = ends_of t entries in if same_tuple entry.0 t then entry.1 ∷ rest else rest

unfoldable pub has_key : Tuple → List Entry → Bool
unfolding same_tuple
has_key t [] = false
has_key t (entry ∷ entries) = same_tuple entry.0 t || has_key t entries

-- The keys of `by_tuple`, each once.
unfoldable pub keys : List Entry → List Tuple
unfolding has_key
keys [] = []
keys (entry ∷ entries) =
    let rest = keys entries in if has_key entry.0 entries then rest else entry.0 ∷ rest

abbrev pub SocketLink : Type 0
SocketLink = LinkEnd × LinkEnd

-- Both sides must be unique, and each pair counts once, from its smaller end.
abbrev pub link_of : List LinkEnd → List LinkEnd → Option SocketLink
link_of (a ∷ []) (b ∷ []) =
    if not (end_lt a b) then none else if same_text a.host b.host then none else some (a, b)
link_of _ _ = none

abbrev pub cons_some : {A : Type 0} → Option A → List A → List A
cons_some none xs = xs
cons_some (some x) xs = x ∷ xs

unfoldable pub links_at : List Tuple → List Entry → List SocketLink
unfolding ends_of end_lt
links_at [] entries = []
links_at (t ∷ ts) entries =
    cons_some (link_of (ends_of t entries) (ends_of (reversed t) entries)) (links_at ts entries)

-- The order of `sort_by`.
unfoldable pub pair_lt : LinkEnd × LinkEnd → LinkEnd × LinkEnd → Bool
unfolding end_lt same_end
pair_lt x y = end_lt x.0 y.0 || (same_end x.0 y.0 && end_lt x.1 y.1)

-- A stable sort.
unfoldable pub insert_by : {A : Type 0} → (A → A → Bool) → A → List A → List A
insert_by lt x [] = x ∷ []
insert_by lt x (y ∷ ys) = let rest = insert_by lt x ys in if lt y x then y ∷ rest else x ∷ y ∷ ys

unfoldable pub sort_by : {A : Type 0} → (A → A → Bool) → List A → List A
unfolding insert_by
sort_by lt [] = []
sort_by lt (x ∷ xs) = insert_by lt x (sort_by lt xs)

unfoldable pub socket_links : List (List ℕ × List FdRelation) → List SocketLink
unfolding socket_entries keys links_at pair_lt sort_by
socket_links hosts =
    let entries = socket_entries hosts in sort_by pair_lt (links_at (keys entries) entries)
