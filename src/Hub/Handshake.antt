-- ===== src/Hub/Handshake.antt =====
-- src/http_server/hosts/listener.rs: the handshake with an agent, and the end of its link. `protect` is
-- `protect_remote` of Identity, whichever the mode, and `describe` the text of an
-- error; what the socket does is an argument.
pub mod Accepted
pub mod Served
use procinsh.Prelude.{
  ℕ, ◌≡◌, ◌==◌, Bool, true, false, ◌&&◌, not, if◌then◌else◌, Option, none, some, List, [], ◌∷◌,
  Result, ok, err,
}
use procinsh.Hub.Names.{HostInfo, valid_host_name}
use procinsh.Hub.Registry.{HostRegistry, AdmitError, admit, disconnected}
use procinsh.Hub.Frames.{Message, Hello, protocol_version}
use procinsh.Hub.Secrets.{same_secret}

pub data HandshakeError : Type 0 where
  -- No frame before the deadline, or one that is not read; a first message that is no hello.
  unread no_hello : HandshakeError
  unsupported_protocol token_mismatch invalid_host_name : HandshakeError
  refused : AdmitError → HandshakeError
  write_failed : HandshakeError

abbrev pub host_info : Hello → HostInfo
host_info h = record {
  name = h.host;
  machine_id = h.machine_id;
  version = h.version;
  kernel = h.kernel;
  arch = h.arch;
}

abbrev pub unwrap_or_default : Option (List ℕ) → List ℕ
unwrap_or_default none = []
unwrap_or_default (some text) = text

-- The agent's token is not the one that the hub wants.
unfoldable pub is_mismatch : Option (List ℕ) → Option (List ℕ) → Bool
unfolding same_secret
is_mismatch none offered = false
is_mismatch (some expected) offered = not (same_secret expected (unwrap_or_default offered))

abbrev pub refusing : Result AdmitError ℕ × HostRegistry → Result HandshakeError ℕ × HostRegistry
refusing (err e, r) = (err (refused e), r)
refusing (ok id, r) = (ok id, r)

-- The name and the link id, or the error; what is written to the agent; the registry.
pub record Handshake (R : Type 0) : Type 0 where
  pub result : Result HandshakeError (List ℕ × ℕ)
  pub answer : Option (Message R)
  pub registry : HostRegistry

-- The chain of tests that ends in `admitted`.
unfoldable pub admission :
    (HostInfo → HostInfo)
    → Option (List ℕ)
    → ℕ
    → ℕ
    → Hello
    → HostRegistry
    → Result HandshakeError ℕ × HostRegistry
unfolding is_mismatch valid_host_name admit
admission protect token now handle h r =
    if not (h.protocol == protocol_version)
    then (err unsupported_protocol, r)
    else if is_mismatch token h.token
    then (err token_mismatch, r)
    else if not (valid_host_name h.host)
    then (err invalid_host_name, r)
    else refusing (admit now (protect (host_info h)) handle r)

-- `serve_agent` behind the handshake: `later` is the time at which the link ends, and `meanwhile` what
-- happens to the registry until then.
unfoldable pub finish_agent :
    {R : Type 0}
    → ℕ
    → (HostRegistry → HostRegistry)
    → Handshake R
    → Result HandshakeError Unit × HostRegistry
unfolding disconnected
finish_agent later meanwhile out = elim out.result [
  | err e ↦ (err e, out.registry)
  | ok (name, id) ↦ (ok tt, disconnected later name id (meanwhile out.registry))
]

module _ {R : Type 0} (protect : HostInfo → HostInfo) (describe : HandshakeError → List ℕ)
    (version : List ℕ) where
  -- The answer, whose write may fail.
  unfoldable pub answered : Bool → Hello → Result HandshakeError ℕ × HostRegistry → Handshake R
  answered written h (ok id, r) = record {
    result = if written then ok ((protect (host_info h)).name, id) else err write_failed;
    answer = some (Message.welcome protocol_version version);
    registry = r;
  }
  answered written h (err e, r) = record {
    result = if written then err e else err write_failed;
    answer = some (Message.reject (describe e));
    registry = r;
  }

  unfoldable pub accept_agent_handshake :
      Option (List ℕ) → ℕ → ℕ → Bool → Option (Message R) → HostRegistry → Handshake R
  unfolding admission answered
  accept_agent_handshake token now handle written none r = record {
    result = err unread;
    answer = none;
    registry = r;
  }
  accept_agent_handshake token now handle written (some (Message.hello h)) r =
      answered written h (admission protect token now handle h r)
  accept_agent_handshake token now handle written (some _) r = record {
    result = err no_hello;
    answer = none;
    registry = r;
  }

  unfoldable pub serve_agent :
      Option (List ℕ)
      → ℕ
      → ℕ
      → Bool
      → Option (Message R)
      → ℕ
      → (HostRegistry → HostRegistry)
      → HostRegistry
      → Result HandshakeError Unit × HostRegistry
  unfolding accept_agent_handshake finish_agent
  serve_agent token now handle written first later meanwhile r =
      finish_agent later meanwhile (accept_agent_handshake token now handle written first r)
