-- ===== src/Hub/Handshake/Served.antt =====
-- What `serve_agent` of src/http_server/hosts/listener.rs leaves behind in the registry.
use procinsh.Prelude.{
  ℕ, ◌≡◌, refl, ap, ◌∙◌, sym, inl, inr, Bool, Bool-cases, true, false, ◌==◌, Option-cases, Option,
  none, some, List, Result, ok, err,
}
use procinsh.Hub.Names.{HostInfo, same_text_refl}
use procinsh.Hub.Registry.{
  HostStatus, Remote, HostRegistry, AdmitError, find_host, put_host, is_current, disconnected,
  remote, remote_online,
}
use procinsh.Hub.Hosts.{find_host-put_host, find_host_sound}
use procinsh.Hub.Stale.{admit-Reaches}
use procinsh.Hub.Frames.{Message, Hello}
use procinsh.Hub.Handshake.{
  HandshakeError, write_failed, host_info, answered, finish_agent, serve_agent,
}
use procinsh.Hub.Handshake.Accepted.{IsAdmitted, accept_complete}

-- The end of a link is final: it serves its name no longer.
is_current-disconnected :
    (now : ℕ) (name : List ℕ) (id : ℕ) (r : HostRegistry)
    → is_current name id (disconnected now name id r) ≡ false
unfolding is_current disconnected
is_current-disconnected now name id r = elim (Option-cases (find_host name r.hosts)) [
  | inl missing ↦ rw (disconnected, missing) (rw (is_current, missing))
  | inr (host, found) ↦ elim (Option-cases host.link) [
    | inl gone ↦ rw (disconnected, found, gone) (rw (is_current, found, gone))
    | inr (link, linked) ↦ elim (Bool-cases (link.id == id)) [
      | inr other ↦ rw (disconnected, found, linked, other) (rw (is_current, found, linked) other)
      | inl same ↦
          let new : Remote = record host { status = HostStatus.offline now; link = none } in
          let own : host.info.name ≡ name = find_host_sound name r.hosts host found in
          let written : find_host name (put_host new r.hosts) ≡ some new =
            find_host-put_host name new r.hosts ∙ rw (own, same_text_refl name) refl in
          rw (disconnected, found, linked, same) (rw (is_current, written))
    ]
  ]
]

module _ (R : Type 0) (protect : HostInfo → HostInfo) (describe : HandshakeError → List ℕ)
    (version : List ℕ) (token : Option (List ℕ)) (now handle : ℕ) (r : HostRegistry) (h : Hello)
    (id later : ℕ) (meanwhile : HostRegistry → HostRegistry) (after : HostRegistry)
    (admitted : IsAdmitted protect token now handle h r id after) where
  abbrev pub name : List ℕ
  name = (protect (host_info h)).name

  abbrev pub serving : Bool → Result HandshakeError Unit × HostRegistry
  serving written =
      serve_agent {R = R} protect describe version token now handle written (some (Message.hello h))
        later meanwhile r

  -- When an agent is admitted and its welcome is written, serving it ends without an error of the
  -- handshake, and its link no longer serves the name, whatever happened to the registry in between. When
  -- the welcome is not written, serving it fails, and the registry still says that the host is reached
  -- through the link that has ended.
  pub serve_agent-ends :
      ((serving true).0 ≡ ok tt)
      × (is_current name id (serving true).1 ≡ false)
      × ((serving false).0 ≡ err write_failed)
      × (remote name (serving false).1 ≡ remote_online handle)
  unfolding serve_agent finish_agent answered
  serve_agent-ends =
      let at = λ (written : Bool). ap (finish_agent {R = R} later meanwhile) (
        accept_complete {R = R} protect describe version token now handle r written h id after
          admitted) in
      let same = ap (λ (x : Result AdmitError ℕ × HostRegistry). x.0) admitted.3 in
      let then_ = ap (λ (x : Result AdmitError ℕ × HostRegistry). x.1) admitted.3 in
      let reached = admit-Reaches now (protect (host_info h)) handle id r same in
      (
        ap (λ o. o.0) (at true),
        ap (λ (o : Result HandshakeError Unit × HostRegistry). is_current name id o.1) (at true)
            ∙ is_current-disconnected later name id (meanwhile after),
        ap (λ o. o.0) (at false),
        ap (λ (o : Result HandshakeError Unit × HostRegistry). remote name o.1) (at false)
            ∙ (ap (remote name) (sym then_) ∙ reached),
      )
