-- ===== src/Hub/Views.antt =====
-- src/http_server/hosts/registry.rs: the lists of hosts that the hub gives out. The order of the map is
-- that of the names, by bytes.
use procinsh.Prelude.{
  ℕ, ◌≡◌, refl, sym, ap, subst, ◌∙◌, inl, inr, Bool, true, false, Bool-cases, Option-cases, Option,
  none, some, List, [], ◌∷◌,
}
use mathlib.Core.Logic.{◌↔◌}
use procinsh.Hub.Names.{HostInfo, same_text, same_text_sound, same_text_refl}
use procinsh.Hub.Registry.{
  HostStatus, Link, Remote, HostRegistry, find_host, prune, remote, remote_online,
}
use procinsh.Hub.Hosts.{IsDistinct, find_host_sound}
use procinsh.Hub.Registered.{IsRegistered}
use procinsh.Hub.Correlate.{text_lt, sort_by}
use procinsh.Hub.Correlate.Sorting.{In, In-sort_by}

pub record HostSummary : Type 0 where
  pub info : HostInfo
  pub local : Bool
  pub status : HostStatus

unfoldable pub name_lt : Remote → Remote → Bool
unfolding text_lt
name_lt a b = text_lt a.info.name b.info.name

abbrev pub cons_link : List ℕ → Option Link → List (List ℕ × ℕ) → List (List ℕ × ℕ)
cons_link name none rest = rest
cons_link name (some link) rest = (name, link.handle) ∷ rest

unfoldable pub links_in : List Remote → List (List ℕ × ℕ)
links_in [] = []
links_in (host ∷ hosts) = cons_link host.info.name host.link (links_in hosts)

unfoldable pub online : HostRegistry → List (List ℕ × ℕ)
unfolding sort_by name_lt links_in
online r = links_in (sort_by name_lt r.hosts)

unfoldable pub summaries_in : List Remote → List HostSummary
summaries_in [] = []
summaries_in (host ∷ hosts) =
    record { info = host.info; local = false; status = host.status } ∷ summaries_in hosts

-- The summaries, and the registry behind the pruning.
unfoldable pub summaries : ℕ → HostRegistry → List HostSummary × HostRegistry
unfolding prune sort_by name_lt summaries_in
summaries now r =
    let pruned = prune now r in
    let own : HostSummary = record {
      info = pruned.local;
      local = true;
      status = HostStatus.online pruned.started;
    } in
    (own ∷ summaries_in (sort_by name_lt pruned.hosts), pruned)

module _ (name : List ℕ) (handle : ℕ) where
  abbrev Serves : Remote → Type 0
  Serves host =
      (host.info.name ≡ name) × ((link : Link) × (host.link ≡ some link) × (link.handle ≡ handle))

  In-links_in_sound :
      (hosts : List Remote)
      → In (name, handle) (links_in hosts)
      → (host : Remote) × In host hosts × Serves host
  unfolding links_in
  In-links_in_sound [] h = absurd h
  In-links_in_sound (host ∷ hosts) h =
      let further : In (name, handle) (links_in hosts)
          → (x : Remote) × In x (host ∷ hosts) × Serves x =
        λ k. let (x, there, s) = In-links_in_sound hosts k in (x, inr there, s) in
      elim (Option-cases host.link) [
        | inl gone ↦ further (rw gone at h)
        | inr (link, linked) ↦ elim (rw linked at h) [
          | inl here ↦ (
            host,
            inl refl,
            (
              ap (λ (x : List ℕ × ℕ). x.0) (sym here),
              (link, linked, ap (λ (x : List ℕ × ℕ). x.1) (sym here)),
            ),
          )
          | inr there ↦ further there
        ]
      ]

  In-links_in_complete :
      (host : Remote) (hosts : List Remote)
      → In host hosts
      → Serves host
      → In (name, handle) (links_in hosts)
  unfolding links_in
  In-links_in_complete host [] h s = absurd h
  In-links_in_complete host (x ∷ hosts) h (named, (link, linked, own)) = elim h [
    | inl here ↦
        let has : x.link ≡ some link = ap (λ (r : Remote). r.link) (sym here) ∙ linked in
        let called : x.info.name ≡ name = ap (λ (r : Remote). r.info.name) (sym here) ∙ named in
        rw has (inl (rw (called, own) refl))
    | inr there ↦
        let rest = In-links_in_complete host hosts there (named, (link, linked, own)) in
        elim (Option-cases x.link) [
          | inl gone ↦ rw gone rest
          | inr (other, has) ↦ rw has (inr rest)
        ]
  ]

find_host-In :
    (host : Remote) (hosts : List Remote)
    → IsDistinct hosts
    → In host hosts
    → find_host host.info.name hosts ≡ some host
unfolding find_host IsDistinct
find_host-In host [] d h = absurd h
find_host-In host (x ∷ hosts) (missing, d) h = elim h [
  | inl here ↦ rw (← here, same_text_refl host.info.name) refl
  | inr there ↦
      let rest = find_host-In host hosts d there in
      elim (Bool-cases (same_text x.info.name host.info.name)) [
        | inr other ↦ rw other rest
        | inl same ↦
            let eq = same_text_sound x.info.name host.info.name same in
            absurd (cc (missing, ap (λ (n : List ℕ). find_host n hosts) eq, rest))
      ]
]

In-find_host :
    (name : List ℕ) (hosts : List Remote) (host : Remote)
    → find_host name hosts ≡ some host
    → In host hosts
unfolding find_host
In-find_host name [] host e = absurd (cc e)
In-find_host name (x ∷ hosts) host e = elim (Bool-cases (same_text x.info.name name)) [
  | inl same ↦ let found : x ≡ host = cc (rw same at e) in inl (sym found)
  | inr other ↦ inr (In-find_host name hosts host (rw other at e))
]

-- In a registry whose names differ, the hosts that are listed as online are exactly those that requests
-- reach, with the link that a request takes.
pub online_iff :
    (r : HostRegistry) (name : List ℕ) (handle : ℕ)
    → IsRegistered r
    → In (name, handle) (online r) ↔ (remote name r ≡ remote_online handle)
unfolding online remote IsRegistered
online_iff r name handle registered =
    let sorted = λ (host : Remote). In-sort_by name_lt host r.hosts in
    (
      λ h.
          let (host, there, (named, (link, linked, own))) =
            In-links_in_sound name handle (sort_by name_lt r.hosts) h in
          let found = find_host-In host r.hosts registered.0 ((sorted host).0 there) in
          let known : find_host name r.hosts ≡ some host =
            subst (λ (n : List ℕ). find_host n r.hosts ≡ some host) named found in
          rw (remote, known, linked) (ap remote_online own),
      λ e. elim (Option-cases (find_host name r.hosts)) [
        | inl missing ↦ absurd (cc (rw (remote, missing) at e))
        | inr (host, found) ↦ elim (Option-cases host.link) [
          | inl gone ↦ absurd (cc (rw (remote, found, gone) at e))
          | inr (link, linked) ↦
              let own : link.handle ≡ handle = cc (rw (remote, found, linked) at e) in
              In-links_in_complete name handle host (sort_by name_lt r.hosts)
                ((sorted host).1 (In-find_host name r.hosts host found))
                (find_host_sound name r.hosts host found, (link, linked, own))
        ]
      ],
    )
