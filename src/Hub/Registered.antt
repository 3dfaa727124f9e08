-- ===== src/Hub/Registered.antt =====
-- What holds of the hosts of src/http_server/hosts/registry.rs, whichever agents come and go.
use procinsh.Prelude.{
  ℕ, ◌+◌, ◌%◌, ◌^◌, ◌≤◌, ◌≡◌, refl, ◌∙◌, ap, inl, inr, true, false, leb, ◌==◌, if_both, length,
  none, some, List, All, Bool-cases, Option-cases, arith,
}
use procinsh.Hub.Names.{HostInfo, same_text, valid_host_name}
use procinsh.Hub.Registry.{
  HostStatus, Remote, HostRegistry, host_limit, find_host, retain_hosts, prune, refusal,
  admit_named, admit, is_current, disconnected,
}
use procinsh.Hub.Hosts.{
  IsDistinct, find_host_sound, All-find_host, put_host-All, retain_hosts-All, added,
  length-put_host, length-retain_hosts_le, put_host-IsDistinct, retain_hosts-IsDistinct,
}

-- A name that an agent may have.
abbrev pub HasName : HostInfo → Remote → Type 0
HasName local host =
    (valid_host_name host.info.name ≡ true) × (same_text host.info.name local.name ≡ false)

-- At most 64 hosts, no name twice, and only names that an agent may have.
unfoldable pub IsRegistered : HostRegistry → Type 0
unfolding IsDistinct
IsRegistered r = IsDistinct r.hosts × All (HasName r.local) r.hosts × (length r.hosts ≤ host_limit)

pub prune-IsRegistered : (now : ℕ) (r : HostRegistry) → IsRegistered r → IsRegistered (prune now r)
unfolding IsRegistered prune
prune-IsRegistered now r (d, n, l) =
    let shorter = length-retain_hosts_le now r.hosts in
    if_both IsRegistered (length (retain_hosts now r.hosts) == length r.hosts)
      (
        retain_hosts-IsDistinct now r.hosts d,
        retain_hosts-All (HasName r.local) now r.hosts n,
        omega arith,
      )
      (
        retain_hosts-IsDistinct now r.hosts d,
        retain_hosts-All (HasName r.local) now r.hosts n,
        omega arith,
      )

prune-local : (now : ℕ) (r : HostRegistry) → (prune now r).local ≡ r.local
unfolding prune
prune-local now r =
    if_both (λ (q : HostRegistry). q.local ≡ r.local)
      (length (retain_hosts now r.hosts) == length r.hosts)
      {x = record r { hosts = retain_hosts now r.hosts }}
      {y = record r { hosts = retain_hosts now r.hosts; changes = r.changes + 1 }} refl refl

-- An agent that is not refused finds its name in the map, or room for it.
refusal_room :
    (info : HostInfo) (r : HostRegistry)
    → length r.hosts ≤ host_limit
    → refusal info r ≡ none
    → length r.hosts + added (find_host info.name r.hosts) ≤ host_limit
unfolding refusal
refusal_room info r l e = elim (Option-cases (find_host info.name r.hosts)) [
  | inl missing ↦ elim (Bool-cases (leb host_limit (length r.hosts))) [
    | inl full ↦ absurd (cc (rw (refusal, missing, full) at e))
    | inr room ↦ rw missing (ground arith)
  ]
  | inr (host, found) ↦ rw found (omega arith)
]

module _ (now : ℕ) (info : HostInfo) (handle : ℕ) where
  admit_named-IsRegistered :
      (r : HostRegistry)
      → valid_host_name info.name ≡ true
      → same_text info.name r.local.name ≡ false
      → IsRegistered r
      → IsRegistered (admit_named now info handle r).1
  unfolding admit_named IsRegistered
  admit_named-IsRegistered r v o (d, n, l) = elim (Option-cases (refusal info r)) [
    | inr (e, refused) ↦ rw (admit_named, refused) (d, n, l)
    | inl free ↦
        let id = (r.links + 1) % 2 ^ 64 in
        let new : Remote = record {
          info = info;
          status = HostStatus.online now;
          link = some (record { id = id; handle = handle });
        } in
        let size = length-put_host new r.hosts in
        let room = refusal_room info r l free in
        rw (admit_named, free)
          (
            put_host-IsDistinct new r.hosts d,
            put_host-All (HasName r.local) new r.hosts (v, o) n,
            omega (arith, size),
          )
  ]

  -- `admit` keeps at most 64 hosts, no name twice, and only valid names other than the hub's own,
  -- whether it admits the agent or refuses it.
  pub admit-IsRegistered :
      (r : HostRegistry) → IsRegistered r → IsRegistered (admit now info handle r).1
  unfolding admit
  admit-IsRegistered r h = elim (Bool-cases (valid_host_name info.name)) [
    | inr invalid ↦ rw (admit, invalid) h
    | inl valid ↦ elim (Bool-cases (same_text info.name r.local.name)) [
      | inl own ↦ rw (admit, valid, own) h
      | inr other ↦
          rw (admit, valid, other)
            (admit_named-IsRegistered (prune now r) valid
              (ap (λ (local : HostInfo). same_text info.name local.name) (prune-local now r)
                ∙ other)
              (prune-IsRegistered now r h))
    ]
  ]

-- What `disconnected` does: nothing unless link `id` still serves the name.
pub disconnected_stale :
    (now : ℕ) (name : List ℕ) (id : ℕ) (r : HostRegistry)
    → is_current name id r ≡ false
    → disconnected now name id r ≡ r
unfolding is_current disconnected
disconnected_stale now name id r e = elim (Option-cases (find_host name r.hosts)) [
  | inl missing ↦ rw (disconnected, missing) refl
  | inr (host, found) ↦ elim (Option-cases host.link) [
    | inl gone ↦ rw (disconnected, found, gone) refl
    | inr (link, linked) ↦
        let differs : (link.id == id) ≡ false = rw (is_current, found, linked) at e in
        rw (disconnected, found, linked, differs) refl
  ]
]

-- `disconnected` keeps the hosts as they should be.
pub disconnected-IsRegistered :
    (now : ℕ) (name : List ℕ) (id : ℕ) (r : HostRegistry)
    → IsRegistered r
    → IsRegistered (disconnected now name id r)
unfolding disconnected IsRegistered
disconnected-IsRegistered now name id r (d, n, l) = elim (Option-cases (find_host name r.hosts)) [
  | inl missing ↦ rw (disconnected, missing) (d, n, l)
  | inr (host, found) ↦ elim (Option-cases host.link) [
    | inl gone ↦ rw (disconnected, found, gone) (d, n, l)
    | inr (link, linked) ↦ elim (Bool-cases (link.id == id)) [
      | inr differs ↦ rw (disconnected, found, linked, differs) (d, n, l)
      | inl same ↦
          let new : Remote = record host { status = HostStatus.offline now; link = none } in
          let there : find_host host.info.name r.hosts ≡ some host =
            ap (λ (m : List ℕ). find_host m r.hosts) (find_host_sound name r.hosts host found)
            ∙ found in
          let size = length-put_host new r.hosts in
          let kept = ap added there in
          rw (disconnected, found, linked, same)
            (
              put_host-IsDistinct new r.hosts d,
              put_host-All (HasName r.local) new r.hosts
                  (All-find_host (HasName r.local) name r.hosts host n found) n,
              omega (arith, size, kept),
            )
    ]
  ]
]
