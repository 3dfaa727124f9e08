-- ===== src/Hub/Agents.antt =====
-- The registry of src/http_server/hosts/registry.rs while agents connect and links end, in any order.
use procinsh.Prelude.{ℕ, List, arith}
use procinsh.Hub.Names.{HostInfo}
use procinsh.Hub.Registry.{HostRegistry, new_registry, prune, admit, disconnected}
use procinsh.Hub.Hosts.{IsDistinct}
use procinsh.Hub.Registered.{
  IsRegistered, prune-IsRegistered, admit-IsRegistered, disconnected-IsRegistered,
}

pub data AgentStep : HostRegistry → HostRegistry → Type 0 where
  -- An agent asks to be admitted, with the handle of its link.
  asked :
      (now : ℕ) (info : HostInfo) (handle : ℕ) (r : HostRegistry)
      → AgentStep r (admit now info handle r).1
  -- A link ends, current or not.
  ended :
      (now : ℕ) (name : List ℕ) (id : ℕ) (r : HostRegistry)
      → AgentStep r (disconnected now name id r)
  -- The list of hosts is asked for, which prunes it.
  listed : (now : ℕ) (r : HostRegistry) → AgentStep r (prune now r)

pub data AgentRun (r : HostRegistry) : HostRegistry → Type 0 where
  begin : AgentRun r r
  and_then : {s t : HostRegistry} → AgentRun r s → AgentStep s t → AgentRun r t

AgentStep-IsRegistered : {r s : HostRegistry} → AgentStep r s → IsRegistered r → IsRegistered s
AgentStep-IsRegistered (asked now info handle r) h = admit-IsRegistered now info handle r h
AgentStep-IsRegistered (ended now name id r) h = disconnected-IsRegistered now name id r h
AgentStep-IsRegistered (listed now r) h = prune-IsRegistered now r h

-- In every registry that a new one can become, there are at most 64 hosts, no name stands twice, and
-- every name is valid and not the hub's own.
pub AgentRun-IsRegistered :
    (now : ℕ) (local : HostInfo) (r : HostRegistry)
    → AgentRun (new_registry now local) r
    → IsRegistered r
unfolding new_registry IsRegistered IsDistinct
AgentRun-IsRegistered now local r begin = (tt, tt, omega arith)
AgentRun-IsRegistered now local r (and_then run step) =
    AgentStep-IsRegistered step (AgentRun-IsRegistered now local _ run)
