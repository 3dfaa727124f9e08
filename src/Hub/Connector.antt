-- ===== src/Hub/Connector.antt =====
-- src/http_server/hosts/connector.rs: an agent's side of a link, which answers the requests of the hub.
-- The set of sessions is a list; what the client answers is an argument. `V` is a JSON value.
pub mod Ledger
use procinsh.Prelude.{
  ℕ, ◌*◌, Bool, true, false, ◌&&◌, ◌||◌, not, leb, min, if◌then◌else◌, Option, none, some, List, [],
  ◌∷◌, Result, ok, err,
}
use procinsh.Ipc.Schema.Request.{MonitorRequest}
use procinsh.Hub.Link.{remove, contains}
use procinsh.Helper.Serve.{codes}

-- src/http_server/protocol.rs: a response for HTTP output.
pub data Answer (V : Type 0) : Type 0 where
  data_answer : V → Answer V
  started : ℕ → V → Answer V
  event : Option V → Bool → Answer V
  closed : Answer V

abbrev pub AgentResponse : Type 0 → Type 0
AgentResponse V = Result (List ℕ) (Answer V)

unfoldable pub insert : ℕ → List ℕ → List ℕ
unfolding contains
insert session sessions = if contains session sessions then sessions else session ∷ sessions

-- The session that a request is about, and whether it closes it.
unfoldable pub used_session : MonitorRequest → Option ℕ × Bool
used_session (MonitorRequest.poll session) = (some session, false)
used_session (MonitorRequest.close session) = (some session, true)
used_session _ = (none, false)

abbrev pub remove_used : Option ℕ → List ℕ → List ℕ
remove_used none sessions = sessions
remove_used (some session) sessions = remove session sessions

module _ {V : Type 0} where
  unfoldable pub record_started : AgentResponse V → List ℕ → List ℕ
  unfolding insert
  record_started (ok (started session initial)) sessions = insert session sessions
  record_started _ sessions = sessions

  unfoldable pub has_ended : Bool → AgentResponse V → Bool
  has_ended closing (err text) = true
  has_ended closing (ok (event value true)) = true
  has_ended closing _ = closing

  unfoldable pub update : Option ℕ → Bool → AgentResponse V → List ℕ → List ℕ
  unfolding record_started has_ended remove
  update used closing response sessions =
      let recorded = record_started response sessions in
      if has_ended closing response then remove_used used recorded else recorded

-- The test before the client is asked.
unfoldable pub may_ask : MonitorRequest → List ℕ → Bool
unfolding used_session contains
may_ask request sessions = elim (used_session request).0 [
  | none ↦ true
  | some session ↦ contains session sessions
]

abbrev pub unknown : List ℕ
unknown = codes "unknown observation session"

-- The answer, and the sessions behind it: other requests may change them while the client is asked, from
-- `sessions` to `later`.
unfoldable pub answer_monitor_request :
    {V : Type 0} → MonitorRequest → AgentResponse V → List ℕ → List ℕ → AgentResponse V × List ℕ
unfolding may_ask update used_session
answer_monitor_request request response sessions later =
    let (used, closing) = used_session request in
    if may_ask request sessions
    then (response, update used closing response later)
    else (err unknown, later)

abbrev pub min_backoff : ℕ
min_backoff = 1000

abbrev pub max_backoff : ℕ
max_backoff = 30000

-- The wait of `run_hub_connector` behind a session of so many milliseconds, and the next backoff.
unfoldable pub backoff_behind : ℕ → ℕ → ℕ
backoff_behind elapsed backoff = if leb 30000 elapsed then min_backoff else backoff

unfoldable pub next_backoff : ℕ → ℕ → ℕ
unfolding backoff_behind
next_backoff elapsed backoff = min (backoff_behind elapsed backoff * 2) max_backoff
