-- ===== src/Tests/Hub.antt =====
-- A hub of src/http_server/hosts with one agent that connects twice.
use procinsh.Prelude.{ℕ, false, ◌≡◌, refl, true, none, some, List, [], ◌∷◌, ok, err, arith}
use procinsh.Hub.Names.{HostInfo, valid_host_name, all_bytes, is_label_byte, same_text}
use procinsh.Hub.Registry.{
  HostRegistry, new_registry, find_host, put_host, retain_hosts, prune, refusal, admit_named, admit,
  is_current, disconnected, remote, remote_online, remote_offline, own_name, HostStatus,
}
use procinsh.Hub.Registered.{IsRegistered}
use procinsh.Hub.Stale.{disconnected-admit, disconnected_current}
use procinsh.Hub.Link.{AgentLink, new_link, begin_request, complete}
use procinsh.Hub.Waiting.{
  IsBalanced, LinkRun, opened, asked as requested, responded, LinkRun-IsBalanced,
}
use mathlib.Core.Logic.{◌↔◌}
use procinsh.Hub.Correlate.{insert_by, sort_by, text_lt}
use procinsh.Hub.Correlate.Sorting.{In}
use procinsh.Hub.Views.{name_lt, online, summaries, summaries_in, online_iff}
use procinsh.Helper.Serve.{codes}
use procinsh.Privacy.{Privacy, pseudonym}
use procinsh.Hub.Identity.{mask_identity, protect_remote, remove_shade, protect_remote_valid}
use procinsh.Hub.Agents.{begin, and_then, asked, AgentRun-IsRegistered}

abbrev host_info : List ℕ → HostInfo
host_info name = record {
  name = name;
  machine_id = 49 ∷ [];
  version = [];
  kernel = none;
  arch = [];
}

-- "hub" and "gpu-1".
abbrev hub_info : HostInfo
hub_info = host_info (104 ∷ 117 ∷ 98 ∷ [])

abbrev pub agent_info : HostInfo
agent_info = host_info (103 ∷ 112 ∷ 117 ∷ 45 ∷ 49 ∷ [])

abbrev pub alone : HostRegistry
alone = new_registry 1 hub_info

abbrev joined : HostRegistry
joined = (admit 5 agent_info 7 alone).1

abbrev rejoined : HostRegistry
rejoined = (admit 6 agent_info 8 joined).1

-- The hub's own name is refused; the second link closes the first.
refuses_hub : (admit 5 hub_info 7 alone).0 ≡ err own_name
unfolding admit valid_host_name all_bytes is_label_byte same_text new_registry
refuses_hub = refl

closes_previous : rejoined.closed ≡ 7 ∷ []
unfolding admit valid_host_name all_bytes is_label_byte same_text new_registry admit_named refusal
    find_host put_host prune retain_hosts
closes_previous = refl

AgentRun-IsRegistered_example : IsRegistered joined
AgentRun-IsRegistered_example =
    AgentRun-IsRegistered 1 hub_info joined (and_then begin (asked 5 agent_info 7 alone))

links_small : joined.links ≡ 1
unfolding admit valid_host_name all_bytes is_label_byte same_text new_registry admit_named refusal
    find_host put_host prune retain_hosts
links_small = refl

second_admitted : (admit 6 agent_info 8 joined).0 ≡ ok 2
unfolding admit valid_host_name all_bytes is_label_byte same_text new_registry admit_named refusal
    find_host put_host prune retain_hosts
second_admitted = refl

disconnected-admit_example :
    (is_current agent_info.name 2 rejoined ≡ true)
    × (disconnected 9 agent_info.name 1 rejoined ≡ rejoined)
disconnected-admit_example =
    disconnected-admit 6 agent_info 8 2 9 1 joined (omega (arith, links_small))
      (omega (arith, links_small)) second_admitted

serves : is_current agent_info.name 2 rejoined ≡ true
unfolding is_current admit valid_host_name all_bytes is_label_byte same_text new_registry
    admit_named refusal find_host put_host prune retain_hosts
serves = refl

reachable : remote agent_info.name rejoined ≡ remote_online 8
unfolding remote admit valid_host_name all_bytes is_label_byte same_text new_registry admit_named
    refusal find_host put_host prune retain_hosts
reachable = refl

disconnected_current_example :
    (remote agent_info.name (disconnected 9 agent_info.name 2 rejoined) ≡ remote_offline)
    × ((disconnected 9 agent_info.name 2 rejoined).closed ≡ 8 ∷ rejoined.closed)
    × (remote hub_info.name (disconnected 9 agent_info.name 2 rejoined)
        ≡ remote hub_info.name rejoined)
unfolding same_text
disconnected_current_example =
    disconnected_current 9 agent_info.name hub_info.name 2 8 rejoined serves reachable refl

-- Two requests, and the answer to the first.
abbrev first_asked : AgentLink ℕ
first_asked = (begin_request true new_link).1

abbrev both_asked : AgentLink ℕ
both_asked = (begin_request true first_asked).1

abbrev first_answered : AgentLink ℕ
first_answered = complete 0 42 both_asked

first_answered-LinkRun : LinkRun (1 ∷ 0 ∷ []) first_answered
unfolding begin_request new_link
first_answered-LinkRun =
    responded 0 42 (requested true (omega arith) (requested true (omega arith) opened))

LinkRun-IsBalanced_example : IsBalanced (1 ∷ 0 ∷ []) first_answered
LinkRun-IsBalanced_example = LinkRun-IsBalanced first_answered-LinkRun

-- The agent is listed, and the hub comes first.
online_iff_example :
    In (agent_info.name, 7) (online joined) ↔ (remote agent_info.name joined ≡ remote_online 7)
online_iff_example =
    online_iff joined agent_info.name 7
      (AgentRun-IsRegistered 1 hub_info joined (and_then begin (asked 5 agent_info 7 alone)))

both_listed :
    (summaries 6 joined).0
    ≡ record { info = hub_info; local = true; status = HostStatus.online 1 }
      ∷ record { info = agent_info; local = false; status = HostStatus.online 5 }
      ∷ []
unfolding summaries summaries_in sort_by insert_by name_lt text_lt admit valid_host_name all_bytes
    is_label_byte same_text new_registry admit_named refusal find_host put_host prune retain_hosts
both_listed = refl

abbrev steady : Privacy
steady = record {
  key = [];
  find = λ text. [];
  digest = λ text. 1 ∷ 2 ∷ 3 ∷ 171 ∷ [];
  lossy = λ text. text;
}

masked_name : (protect_remote (some steady) agent_info).name ≡ codes "host-010203ab"
unfolding protect_remote mask_identity remove_shade pseudonym
masked_name = refl

protect_remote_valid_example : valid_host_name (protect_remote (some steady) agent_info).name ≡ true
protect_remote_valid_example =
    protect_remote_valid steady agent_info
      (λ text. (omega arith, (omega arith, (omega arith, (omega arith, tt)))))
