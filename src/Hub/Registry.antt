-- ===== src/Hub/Registry.antt =====
-- src/http_server/hosts/registry.rs: the hosts that a hub knows. A link is its handle; what `close`
-- does to it is seen in `closed`, the handles that were closed, the last in front. The map of hosts is
-- a list: its order shows in `online` and `summaries` only, which are in Views. An operation is one step, with one time, also where it takes the lock twice.
use procinsh.Prelude.{
  ℕ, ◌+◌, ◌-◌, ◌%◌, ◌^◌, Bool, true, false, not, leb, ltb, ◌==◌, if◌then◌else◌, length, Option,
  none, some, List, [], ◌∷◌, Result, ok, err,
}
use procinsh.Hub.Names.{HostInfo, same_text, valid_host_name}

pub data HostStatus : Type 0 where
  online offline : ℕ → HostStatus

pub record Link : Type 0 where
  pub id : ℕ
  pub handle : ℕ

-- The map's entry; its key is `info.name`.
pub record Remote : Type 0 where
  pub info : HostInfo
  pub status : HostStatus
  pub link : Option Link

pub record HostRegistry : Type 0 where
  pub local : HostInfo
  pub started : ℕ
  pub hosts : List Remote
  pub links : ℕ
  pub changes : ℕ
  pub closed : List ℕ

unfoldable pub new_registry : ℕ → HostInfo → HostRegistry
new_registry now local = record {
  local = local;
  started = now;
  hosts = [];
  links = 0;
  changes = 0;
  closed = [];
}

pub data AdmitError : Type 0 where
  invalid_name own_name other_machine hub_full : AdmitError

abbrev pub host_limit : ℕ
host_limit = 64

abbrev pub offline_retention_ms : ℕ
offline_retention_ms = 600000

unfoldable pub find_host : List ℕ → List Remote → Option Remote
find_host name [] = none
find_host name (host ∷ hosts) =
    let rest = find_host name hosts in if same_text host.info.name name then some host else rest

-- `insert`, and what `get_mut` writes: the entry of that name is replaced, or there is one more.
unfoldable pub put_host : Remote → List Remote → List Remote
put_host new [] = new ∷ []
put_host new (host ∷ hosts) =
    let rest = put_host new hosts in
    if same_text host.info.name new.info.name then new ∷ hosts else host ∷ rest

abbrev pub is_retained : ℕ → Remote → Bool
is_retained now host = elim host.status [
  | offline since ↦ ltb (now - since) offline_retention_ms
  | online since ↦ true
]

unfoldable pub retain_hosts : ℕ → List Remote → List Remote
retain_hosts now [] = []
retain_hosts now (host ∷ hosts) =
    let rest = retain_hosts now hosts in if is_retained now host then host ∷ rest else rest

unfoldable pub prune : ℕ → HostRegistry → HostRegistry
unfolding retain_hosts
prune now r =
    let hosts = retain_hosts now r.hosts in
    let pruned = record r { hosts = hosts } in
    if length hosts == length r.hosts then pruned else record pruned { changes = r.changes + 1 }

abbrev pub close_link : Option Link → List ℕ → List ℕ
close_link none closed = closed
close_link (some link) closed = link.handle ∷ closed

-- Whether the entry of the name forbids an agent to take it, and with which error.
unfoldable pub refusal : HostInfo → HostRegistry → Option AdmitError
unfolding find_host
refusal info r = elim (find_host info.name r.hosts) [
  | some host ↦ elim host.link [
    | some link ↦
        if same_text host.info.machine_id info.machine_id then none else some other_machine
    | none ↦ none
  ]
  | none ↦ if leb host_limit (length r.hosts) then some hub_full else none
]

abbrev pub link_of : Option Remote → Option Link
link_of none = none
link_of (some host) = host.link

-- `admit` behind the tests of the name and the pruning; `fetch_add` wraps.
unfoldable pub admit_named : ℕ → HostInfo → ℕ → HostRegistry → Result AdmitError ℕ × HostRegistry
unfolding refusal put_host find_host
admit_named now info handle r =
    let id = (r.links + 1) % 2 ^ 64 in
    let numbered = record r { links = id } in
    elim (refusal info r) [
      | some e ↦ (err e, numbered)
      | none ↦
          let new : Remote = record {
            info = info;
            status = online now;
            link = some (record { id = id; handle = handle });
          } in
          (
            ok id,
            record numbered {
              hosts = put_host new r.hosts;
              changes = r.changes + 1;
              closed = close_link (link_of (find_host info.name r.hosts)) r.closed;
            },
          )
    ]

unfoldable pub admit : ℕ → HostInfo → ℕ → HostRegistry → Result AdmitError ℕ × HostRegistry
unfolding valid_host_name same_text prune admit_named
admit now info handle r =
    if not (valid_host_name info.name)
    then (err invalid_name, r)
    else if same_text info.name r.local.name
    then (err own_name, r)
    else admit_named now info handle (prune now r)

unfoldable pub is_current : List ℕ → ℕ → HostRegistry → Bool
unfolding find_host
is_current name id r = elim (link_of (find_host name r.hosts)) [
  | some link ↦ link.id == id
  | none ↦ false
]

unfoldable pub disconnected : ℕ → List ℕ → ℕ → HostRegistry → HostRegistry
unfolding find_host put_host
disconnected now name id r = elim (find_host name r.hosts) [
  | none ↦ r
  | some host ↦ elim host.link [
    | none ↦ r
    | some link ↦
        if link.id == id
        then record r {
          hosts = put_host (record host { status = offline now; link = none }) r.hosts;
          changes = r.changes + 1;
          closed = link.handle ∷ r.closed;
        }
        else r
  ]
]

pub data RemoteHost : Type 0 where
  remote_online : ℕ → RemoteHost
  remote_offline remote_unknown : RemoteHost

unfoldable pub remote : List ℕ → HostRegistry → RemoteHost
unfolding find_host
remote name r = elim (find_host name r.hosts) [
  | none ↦ remote_unknown
  | some host ↦ elim host.link [ some link ↦ remote_online link.handle | none ↦ remote_offline ]
]
