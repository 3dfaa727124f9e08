-- ===== src/Hub/Stale.antt =====
-- Links that a newer one has replaced, in src/http_server/hosts/registry.rs.
use procinsh.Prelude.{
  ℕ, ◌∷◌, ◌+◌, ◌%◌, ◌^◌, ◌≤◌, ◌<◌, ◌≡◌, refl, ◌∙◌, ap, inl, inr, true, false, not, ◌==◌, if_both,
  length, some, List, Option-cases, none, Result, ok, ok-injective, arith,
}
use procinsh.Hub.Names.{HostInfo, same_text, same_text_refl, valid_host_name}
use procinsh.Hub.Registry.{
  HostStatus, Remote, HostRegistry, AdmitError, find_host, put_host, retain_hosts, prune, refusal,
  admit_named, admit, is_current, disconnected, remote, remote_online, remote_offline,
}
use procinsh.Hub.Hosts.{find_host-put_host, find_host_sound}
use procinsh.Hub.Registered.{disconnected_stale}

equal_refl : (n : ℕ) → (n == n) ≡ true
equal_refl n = ground arith

prune-links : (now : ℕ) (r : HostRegistry) → (prune now r).links ≡ r.links
unfolding prune
prune-links now r =
    if_both (λ (q : HostRegistry). q.links ≡ r.links)
      (length (retain_hosts now r.hosts) == length r.hosts)
      {x = record r { hosts = retain_hosts now r.hosts }}
      {y = record r { hosts = retain_hosts now r.hosts; changes = r.changes + 1 }} refl refl

-- The new link serves the name, and no earlier one does.
abbrev pub IsTaken : HostInfo → ℕ → ℕ → Result AdmitError ℕ × HostRegistry → Type 0
IsTaken info last id o =
    o.0 ≡ ok id
    → (is_current info.name id o.1 ≡ true)
      × ((old : ℕ) → old ≤ last → is_current info.name old o.1 ≡ false)

module _ (now : ℕ) (info : HostInfo) (handle id : ℕ) where
  found_new :
      (new : Remote) (hosts : List Remote)
      → new.info ≡ info
      → find_host info.name (put_host new hosts) ≡ some new
  found_new new hosts e =
      let same : same_text new.info.name info.name ≡ true =
        ap (λ (i : HostInfo). same_text i.name info.name) e ∙ same_text_refl info.name in
      find_host-put_host info.name new hosts ∙ rw same refl

  admit_named-IsTaken :
      (r : HostRegistry)
      → r.links + 1 < 2 ^ 64
      → IsTaken info r.links id (admit_named now info handle r)
  unfolding admit_named is_current
  admit_named-IsTaken r small = elim (Option-cases (refusal info r)) [
    | inr (e, refused) ↦ rw (admit_named, refused) (λ f. absurd (cc f))
    | inl free ↦
        let next = (r.links + 1) % 2 ^ 64 in
        let above : next ≡ r.links + 1 = omega arith in
        let new : Remote = record {
          info = info;
          status = HostStatus.online now;
          link = some (record { id = next; handle = handle });
        } in
        let found = found_new new r.hosts refl in
        rw (admit_named, free)
          (λ e.
            let same : next ≡ id = ok-injective e in
            (
              rw (is_current, found, same) (equal_refl id),
              λ old before.
                  let differs : (next == old) ≡ false = ground arith in
                  rw (is_current, found, differs) refl,
            ))
  ]

  admit-IsTaken :
      (r : HostRegistry) → r.links + 1 < 2 ^ 64 → IsTaken info r.links id (admit now info handle r)
  unfolding admit
  admit-IsTaken r small =
      if_both (IsTaken info r.links id) (not (valid_host_name info.name)) (λ f. absurd (cc f))
        (if_both (IsTaken info r.links id) (same_text info.name r.local.name) (λ f. absurd (cc f))
          (λ e.
            let same = prune-links now r in
            let (fresh, stale) = admit_named-IsTaken (prune now r) (omega (arith, same)) e in
            (fresh, λ old before. stale old (omega (arith, same)))))

  abbrev Reaches : Result AdmitError ℕ × HostRegistry → Type 0
  Reaches o = o.0 ≡ ok id → remote info.name o.1 ≡ remote_online handle

  admit_named-Reaches : (r : HostRegistry) → Reaches (admit_named now info handle r)
  unfolding admit_named remote
  admit_named-Reaches r = elim (Option-cases (refusal info r)) [
    | inr (e, refused) ↦ rw (admit_named, refused) (λ f. absurd (cc f))
    | inl free ↦
        let new : Remote = record {
          info = info;
          status = HostStatus.online now;
          link = some (record { id = (r.links + 1) % 2 ^ 64; handle = handle });
        } in
        let found = found_new new r.hosts refl in
        rw (admit_named, free) (λ e. rw (remote, found) refl)
  ]

  -- An agent that is admitted is reached through its link.
  pub admit-Reaches :
      (r : HostRegistry)
      → (admit now info handle r).0 ≡ ok id
      → remote info.name (admit now info handle r).1 ≡ remote_online handle
  unfolding admit
  admit-Reaches r =
      if_both Reaches (not (valid_host_name info.name)) (λ f. absurd (cc f))
        (if_both Reaches (same_text info.name r.local.name) (λ f. absurd (cc f))
          (admit_named-Reaches (prune now r)))

  -- When an agent is admitted, its link serves its name, and the end of any link with an earlier id
  -- changes nothing: a replaced link never marks the host offline. (The ids have not wrapped.)
  pub disconnected-admit :
      (later old : ℕ) (r : HostRegistry)
      → r.links + 1 < 2 ^ 64
      → old ≤ r.links
      → (admit now info handle r).0 ≡ ok id
      → (is_current info.name id (admit now info handle r).1 ≡ true)
        × (disconnected later info.name old (admit now info handle r).1
            ≡ (admit now info handle r).1)
  disconnected-admit later old r small before e =
      let (fresh, stale) = admit-IsTaken r small e in
      (fresh, disconnected_stale later info.name old (admit now info handle r).1 (stale old before))

-- When the link that serves a name ends, the host of that name is offline, the link is closed, and
-- another host is as reachable as it was.
pub disconnected_current :
    (now : ℕ) (name other : List ℕ) (id handle : ℕ) (r : HostRegistry)
    → is_current name id r ≡ true
    → remote name r ≡ remote_online handle
    → same_text name other ≡ false
    → (remote name (disconnected now name id r) ≡ remote_offline)
      × ((disconnected now name id r).closed ≡ handle ∷ r.closed)
      × (remote other (disconnected now name id r) ≡ remote other r)
unfolding is_current disconnected remote
disconnected_current now name other id handle r e serves differs =
    elim (Option-cases (find_host name r.hosts)) [
      | inl missing ↦ absurd (cc (rw (is_current, missing) at e))
      | inr (host, found) ↦ elim (Option-cases host.link) [
        | inl gone ↦ absurd (cc (rw (is_current, found, gone) at e))
        | inr (link, linked) ↦
            let same : (link.id == id) ≡ true = rw (is_current, found, linked) at e in
            let new : Remote = record host { status = HostStatus.offline now; link = none } in
            let own : host.info.name ≡ name = find_host_sound name r.hosts host found in
            let written : find_host name (put_host new r.hosts) ≡ some new =
              find_host-put_host name new r.hosts ∙ rw (own, same_text_refl name) refl in
            rw (disconnected, found, linked, same)
              (
                rw (remote, written) refl,
                (let h : link.handle ≡ handle = cc (rw (remote, found, linked) at serves) in
                    rw h refl),
                (let kept : find_host other (put_host new r.hosts) ≡ find_host other r.hosts =
                      find_host-put_host other new r.hosts ∙ rw (own, differs) refl in
                    rw (remote, kept) refl),
              )
      ]
    ]
