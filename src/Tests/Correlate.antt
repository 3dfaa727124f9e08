-- ===== src/Tests/Correlate.antt =====
-- The connections between two hosts of src/http_server/hosts/correlate.rs: an SSH session and an unroutable socket.
use procinsh.Prelude.{ℕ, ◌≡◌, refl, true, false, some, List, [], ◌∷◌}
use mathlib.Core.Logic.{◌↔◌}
use procinsh.Hub.Names.{same_text}
use procinsh.Hub.Correlate.{
  LinkEnd, Address, FdRelation, text_lt, end_lt, same_end, is_unspecified, is_loopback,
  is_routable_address, same_ip, same_tuple, tuple_of, host_entries, socket_entries, ends_of,
  has_key, keys, links_at, pair_lt, insert_by, sort_by, socket_links,
}
use procinsh.Hub.Correlate.Sorting.{In}
use procinsh.Hub.Correlate.Sockets.{AreJoined, socket_links_iff}
use procinsh.Ipc.Codec.Addresses.{v4}

abbrev at : ℕ → ℕ → Address
at host port = record { ip = v4 (10 ∷ 0 ∷ 0 ∷ host ∷ []); port = port }

abbrev tcp : ℕ → Address → Address → FdRelation
tcp id local remote = record {
  id = id ∷ [];
  has_peer = false;
  shared = false;
  socket =
      some
        (record { kind = 116 ∷ []; local = some local; remote = some remote; network_peer = true });
}

-- Host "b" is connected to host "a"; its other socket is connected to port 0.
abbrev two_hosts : List (List ℕ × List FdRelation)
two_hosts =
    (98 ∷ [], tcp 1 (at 2 5000) (at 1 22) ∷ tcp 2 (at 2 5001) (at 1 0) ∷ [])
    ∷ (97 ∷ [], tcp 3 (at 1 22) (at 2 5000) ∷ [])
    ∷ []

abbrev end_a : LinkEnd
end_a = record { host = 97 ∷ []; relation = 3 ∷ [] }

abbrev end_b : LinkEnd
end_b = record { host = 98 ∷ []; relation = 1 ∷ [] }

two_hosts_linked : socket_links two_hosts ≡ (end_a, end_b) ∷ []
unfolding text_lt end_lt same_end is_unspecified is_loopback is_routable_address same_ip same_tuple
    tuple_of host_entries socket_entries ends_of has_key keys links_at pair_lt insert_by sort_by
    socket_links same_text
two_hosts_linked = refl

socket_links_iff_example :
    In (end_a, end_b) (socket_links two_hosts) ↔ AreJoined (socket_entries two_hosts) end_a end_b
socket_links_iff_example = socket_links_iff two_hosts end_a end_b
