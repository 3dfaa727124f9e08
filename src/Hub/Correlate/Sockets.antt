-- ===== src/Hub/Correlate/Sockets.antt =====
-- Which sockets of two hosts src/http_server/hosts/correlate.rs links.
use procinsh.Prelude.{
  ℕ, ◌≡◌, sym, ap, subst, ◌⊎◌, inl, inr, true, false, Bool-cases, Option, none, some, List, [], ◌∷◌,
  arith,
}
use mathlib.Core.Logic.{◌↔◌}
use procinsh.Ipc.Codec.Addresses.{IpAddr, v4, v6}
use procinsh.Hub.Names.{same_text, same_text_sound, same_text_refl}
use procinsh.Hub.Correlate.{
  LinkEnd, FdRelation, Address, Tuple, Entry, reversed, same_ip, same_address, same_tuple, ends_of,
  has_key, keys, SocketLink, link_of, cons_some, links_at, end_lt, pair_lt, socket_entries,
  socket_links,
}
use procinsh.Hub.Correlate.Sorting.{In, In-sort_by}

same_ip_sound : (a b : IpAddr) → same_ip a b ≡ true → a ≡ b
unfolding same_ip
same_ip_sound (v4 a) (v4 b) e = ap v4 (same_text_sound a b e)
same_ip_sound (v6 a) (v6 b) e = ap v6 (same_text_sound a b e)
same_ip_sound (v4 a) (v6 b) e = absurd (cc e)
same_ip_sound (v6 a) (v4 b) e = absurd (cc e)

same_ip_refl : (a : IpAddr) → same_ip a a ≡ true
unfolding same_ip
same_ip_refl (v4 a) = same_text_refl a
same_ip_refl (v6 a) = same_text_refl a

same_address_sound : (a b : Address) → same_address a b ≡ true → a ≡ b
same_address_sound a b e =
    let ips : a.ip ≡ b.ip = same_ip_sound a.ip b.ip (ground arith) in
    let ports : a.port ≡ b.port = ground arith in λ i. record { ip = ips i; port = ports i }

same_address_refl : (a : Address) → same_address a a ≡ true
same_address_refl a = let ips = same_ip_refl a.ip in ground (arith, ips)

same_tuple_sound : (s t : Tuple) → same_tuple s t ≡ true → s ≡ t
unfolding same_tuple
same_tuple_sound s t e =
    let kinds : s.kind ≡ t.kind = same_text_sound s.kind t.kind (ground arith) in
    let locals : s.local ≡ t.local = same_address_sound s.local t.local (ground arith) in
    let remotes : s.remote ≡ t.remote = same_address_sound s.remote t.remote (ground arith) in
    λ i. record { kind = kinds i; local = locals i; remote = remotes i }

same_tuple_refl : (t : Tuple) → same_tuple t t ≡ true
unfolding same_tuple
same_tuple_refl t =
    rw (same_text_refl t.kind, same_address_refl t.local, same_address_refl t.remote)

has_key-ends_of :
    (t : Tuple) (es : List Entry) (a : LinkEnd) (rest : List LinkEnd)
    → ends_of t es ≡ a ∷ rest
    → has_key t es ≡ true
unfolding has_key ends_of
has_key-ends_of t [] a rest e = absurd (cc e)
has_key-ends_of t (entry ∷ es) a rest e = elim (Bool-cases (same_tuple entry.0 t)) [
  | inl same ↦ rw same
  | inr other ↦ rw other (has_key-ends_of t es a rest (rw other at e))
]

In-keys : (t : Tuple) (es : List Entry) → has_key t es ≡ true → In t (keys es)
unfolding has_key keys
In-keys t [] e = absurd (cc e)
In-keys t (entry ∷ es) e = elim (Bool-cases (has_key entry.0 es)) [
  | inl again ↦ elim (Bool-cases (same_tuple entry.0 t)) [
    | inl same ↦
        let own = same_tuple_sound entry.0 t same in
        rw again (In-keys t es (subst (λ (s : Tuple). has_key s es ≡ true) own again))
    | inr other ↦ rw again (In-keys t es (rw other at e))
  ]
  | inr last ↦ elim (Bool-cases (same_tuple entry.0 t)) [
    | inl same ↦ rw last (inl (sym (same_tuple_sound entry.0 t same)))
    | inr other ↦ rw last (inr (In-keys t es (rw other at e)))
  ]
]

-- A link at a key.
LinksAt : Tuple → List Entry → SocketLink → Type 0
LinksAt t es x = link_of (ends_of t es) (ends_of (reversed t) es) ≡ some x

In-cons_some :
    {A : Type 0} (x : A) (o : Option A) (xs : List A)
    → In x (cons_some o xs) ↔ ((o ≡ some x) ⊎ In x xs)
In-cons_some x none xs = (λ h. inr h, λ h. elim h [ inl e ↦ absurd (cc e) | inr r ↦ r ])
In-cons_some x (some y) xs = (
  λ h. elim h [ inl e ↦ inl (ap some (sym e)) | inr r ↦ inr r ],
  λ h. elim h [ inl e ↦ inl (cc e) | inr r ↦ inr r ],
)

In-links_at_sound :
    (x : SocketLink) (ts : List Tuple) (es : List Entry)
    → In x (links_at ts es)
    → (t : Tuple) × LinksAt t es x
unfolding links_at LinksAt
In-links_at_sound x [] es h = elim h [ ]
In-links_at_sound x (t ∷ ts) es h =
    elim ((In-cons_some x (link_of (ends_of t es) (ends_of (reversed t) es)) (links_at ts es)).0
      h) [ inl here ↦ (t, here) | inr rest ↦ In-links_at_sound x ts es rest ]

In-links_at_complete :
    (x : SocketLink) (t : Tuple) (ts : List Tuple) (es : List Entry)
    → In t ts
    → LinksAt t es x
    → In x (links_at ts es)
unfolding links_at LinksAt
In-links_at_complete x t [] es h e = elim h [ ]
In-links_at_complete x t (u ∷ ts) es h e =
    let put = In-cons_some x (link_of (ends_of u es) (ends_of (reversed u) es)) (links_at ts es) in
    elim h [
      | inl here ↦ put.1 (inl (subst (λ (s : Tuple). LinksAt s es x) here e))
      | inr there ↦ put.1 (inr (In-links_at_complete x t ts es there e))
    ]

-- Both ends are the only ones at their tuples, which are the reverse of one another; the hosts differ.
abbrev pub AreJoined : List Entry → LinkEnd → LinkEnd → Type 0
AreJoined es a b =
    (t : Tuple) × (ends_of t es ≡ a ∷ [])
    × (ends_of (reversed t) es ≡ b ∷ [])
    × (end_lt a b ≡ true)
    × (same_text a.host b.host ≡ false)

link_of_sound :
    (xs ys : List LinkEnd) (a b : LinkEnd)
    → link_of xs ys ≡ some (a, b)
    → (xs ≡ a ∷ []) × (ys ≡ b ∷ []) × (end_lt a b ≡ true) × (same_text a.host b.host ≡ false)
link_of_sound [] ys a b e = absurd (cc e)
link_of_sound (x ∷ x' ∷ xs) ys a b e = absurd (cc e)
link_of_sound (x ∷ []) [] a b e = absurd (cc e)
link_of_sound (x ∷ []) (y ∷ y' ∷ ys) a b e = absurd (cc e)
link_of_sound (x ∷ []) (y ∷ []) a b e = elim (Bool-cases (end_lt x y)) [
  | inr greater ↦ absurd (cc (rw greater at e))
  | inl less ↦ elim (Bool-cases (same_text x.host y.host)) [
    | inl own ↦ absurd (cc (rw (less, own) at e))
    | inr other ↦
        let pair : ◌≡◌ {A = Option SocketLink} (some (x, y)) (some (a, b)) =
          rw (less, other) at e in
        let first : x ≡ a = cc pair in
        let second : y ≡ b = cc pair in
        (
          ap (λ z. z ∷ []) first,
          ap (λ z. z ∷ []) second,
          rw (← first, ← second) less,
          rw (← first, ← second) other,
        )
  ]
]

-- Two sockets are linked, from the smaller end, exactly when each is the only end at its tuple, the two
-- tuples are the reverse of one another, and the hosts differ.
pub socket_links_iff :
    (hosts : List (List ℕ × List FdRelation)) (a b : LinkEnd)
    → In (a, b) (socket_links hosts) ↔ AreJoined (socket_entries hosts) a b
unfolding socket_links LinksAt
socket_links_iff hosts a b =
    let es = socket_entries hosts in
    let sorted = In-sort_by pair_lt (a, b) (links_at (keys es) es) in
    (
      λ h.
          let (t, e) = In-links_at_sound (a, b) (keys es) es (sorted.0 h) in
          let (x, y, z, w) = link_of_sound (ends_of t es) (ends_of (reversed t) es) a b e in
          (t, x, y, z, w),
      λ (t, own, other, less, apart). sorted.1 (
          In-links_at_complete (a, b) t (keys es) es (In-keys t es (has_key-ends_of t es a [] own))
            (rw (own, other, less, apart))),
    )
