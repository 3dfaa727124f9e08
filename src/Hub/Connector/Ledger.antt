-- ===== src/Hub/Connector/Ledger.antt =====
-- Whose sessions a hub polls and closes through src/http_server/hosts/connector.rs.
use procinsh.Prelude.{
  ℕ, ◌≡◌, refl, inl, inr, Bool, true, false, ◌||◌, ◌==◌, if_split, Bool-cases, if◌then◌else◌,
  Option, none, some, List, [], ◌∷◌, ok, arith,
}
use procinsh.Ipc.Schema.Request.{MonitorRequest}
use procinsh.Hub.Link.{remove, contains}
use procinsh.Hub.Connector.{
  answer_monitor_request, started, AgentResponse, insert, used_session, record_started, has_ended,
  remove_used, update, may_ask,
}

-- The sessions of a link; those that were started for it, those that the client was asked to poll or
-- close for it, and those whose use has ended.
pub record Ledger : Type 0 where
  pub sessions : List ℕ
  pub opened : List ℕ
  pub asked : List ℕ
  pub ended : List ℕ

abbrev pub linked : Ledger
linked = record { sessions = []; opened = []; asked = []; ended = [] }

abbrev pub cons_used : Option ℕ → List ℕ → List ℕ
cons_used none log = log
cons_used (some session) log = session ∷ log

abbrev pub log_started : {V : Type 0} → AgentResponse V → List ℕ → List ℕ
log_started (ok (started session initial)) log = session ∷ log
log_started _ log = log

-- The client is asked, if the sessions allow it.
unfoldable pub ask : MonitorRequest → Ledger → Ledger
unfolding may_ask used_session
ask request l =
    if may_ask request l.sessions
    then record l { asked = cons_used (used_session request).0 l.asked }
    else l

-- The client has answered a request that uses a session or none.
unfoldable pub settle_used : {V : Type 0} → Option ℕ → Bool → AgentResponse V → Ledger → Ledger
unfolding update
settle_used used closing response l = record l {
  sessions = update used closing response l.sessions;
  opened = log_started response l.opened;
  ended = if has_ended closing response then cons_used used l.ended else l.ended;
}

unfoldable pub settle : {V : Type 0} → MonitorRequest → AgentResponse V → Ledger → Ledger
unfolding settle_used used_session
settle request response l = settle_used (used_session request).0 (used_session request).1 response l

-- The sessions behind one request, as the code answers it, are those behind the two steps.
answer_monitor_request-settle :
    {V : Type 0} (request : MonitorRequest) (response : AgentResponse V) (l later : Ledger)
    → (answer_monitor_request request response l.sessions later.sessions).1
      ≡ (if may_ask request l.sessions then settle request response later else later).sessions
unfolding answer_monitor_request settle
answer_monitor_request-settle request response l later =
    elim (Bool-cases (may_ask request l.sessions)) [
      | inl known ↦ rw known refl
      | inr other ↦ rw other refl
    ]

-- Requests and answers in any order.
pub data LedgerRun (V : Type 0) : Ledger → Type 0 where
  begun : LedgerRun V linked
  asks : {l : Ledger} (request : MonitorRequest) → LedgerRun V l → LedgerRun V (ask request l)
  settles :
      {l : Ledger} (request : MonitorRequest) (response : AgentResponse V)
      → LedgerRun V l
      → LedgerRun V (settle request response l)

contains-remove :
    (n id : ℕ) (xs : List ℕ)
    → contains n (remove id xs) ≡ (if id == n then false else contains n xs)
unfolding contains remove
contains-remove n id [] = ground arith
contains-remove n id (x ∷ xs) = ground (arith, contains-remove n id xs)

contains-insert :
    (n id : ℕ) (xs : List ℕ) → contains n (insert id xs) ≡ (if id == n then true else contains n xs)
unfolding contains insert
contains-insert n id xs = elim (Bool-cases (contains id xs)) [
  | inl old ↦ elim (Bool-cases (id == n)) [
    | inl same ↦ let e : id ≡ n = ground arith in rw (old, same) (rw (← e) old)
    | inr other ↦ rw (old, other)
  ]
  | inr new ↦ rw new
]

-- What holds of each session: only those that were started for the link are known or asked for, and one
-- that was started is known until its use has ended.
unfoldable pub IsAccounted : Ledger → Type 0
unfolding contains
IsAccounted l =
    (s : ℕ)
    → (contains s l.sessions ≡ true → contains s l.opened ≡ true)
      × (contains s l.asked ≡ true → contains s l.opened ≡ true)
      × (contains s l.opened ≡ true → (contains s l.sessions || contains s l.ended) ≡ true)

-- One more that is asked for, if it is known.
ask_known :
    (id : ℕ) (l : Ledger)
    → IsAccounted l
    → contains id l.sessions ≡ true
    → IsAccounted (record l { asked = id ∷ l.asked })
unfolding IsAccounted
ask_known id l h known s =
    let (a, b, c) = h s in
    let own = (h id).0 known in
    (
      a,
      λ e. elim (Bool-cases (id == s)) [
        | inl same ↦ let here : id ≡ s = ground arith in rw (← here) own
        | inr other ↦ b (rw other at e)
      ],
      c,
    )

ask-IsAccounted :
    (request : MonitorRequest) (l : Ledger) → IsAccounted l → IsAccounted (ask request l)
unfolding ask
ask-IsAccounted (MonitorRequest.poll id) l h =
    if_split IsAccounted (contains id l.sessions) (ask_known id l h) (λ _. h)
ask-IsAccounted (MonitorRequest.close id) l h =
    if_split IsAccounted (contains id l.sessions) (ask_known id l h) (λ _. h)
ask-IsAccounted _ l h = h

record-IsAccounted :
    (id : ℕ) (l : Ledger)
    → IsAccounted l
    → IsAccounted (record l { sessions = insert id l.sessions; opened = id ∷ l.opened })
unfolding IsAccounted
record-IsAccounted id l h s =
    let (a, b, c) = h s in
    let new = contains-insert s id l.sessions in
    elim (Bool-cases (id == s)) [
      | inl same ↦ (ground (arith, same), ground (arith, same), ground (arith, same, new))
      | inr other ↦ (
        λ e. rw other (a (rw (new, other) at e)),
        λ e. rw other (b e),
        λ e. rw (new, other) (c (rw other at e)),
      )
    ]

end-IsAccounted :
    (id : ℕ) (l : Ledger)
    → IsAccounted l
    → IsAccounted (record l { sessions = remove id l.sessions; ended = id ∷ l.ended })
unfolding IsAccounted
end-IsAccounted id l h s =
    let (a, b, c) = h s in
    let gone = contains-remove s id l.sessions in
    elim (Bool-cases (id == s)) [
      | inl same ↦ (λ e. absurd (cc (rw (gone, same) at e)), b, λ e. rw (gone, same) refl)
      | inr other ↦ (λ e. a (rw (gone, other) at e), b, λ e. rw (gone, other) (c e))
    ]

-- `settle_used` in two steps: what was started, then what has ended.
recorded : {V : Type 0} → AgentResponse V → Ledger → Ledger
recorded response l = record l {
  sessions = record_started response l.sessions;
  opened = log_started response l.opened;
}

recorded-IsAccounted :
    {V : Type 0} (response : AgentResponse V) (l : Ledger)
    → IsAccounted l
    → IsAccounted (recorded response l)
unfolding recorded record_started
recorded-IsAccounted (ok (started id initial)) l h = record-IsAccounted id l h
recorded-IsAccounted _ l h = h

end_used-IsAccounted :
    (used : Option ℕ) (l : Ledger)
    → IsAccounted l
    → IsAccounted
        (record l { sessions = remove_used used l.sessions; ended = cons_used used l.ended })
end_used-IsAccounted none l h = h
end_used-IsAccounted (some id) l h = end-IsAccounted id l h

settle_used-IsAccounted :
    {V : Type 0} (used : Option ℕ) (closing : Bool) (response : AgentResponse V) (l : Ledger)
    → IsAccounted l
    → IsAccounted (settle_used used closing response l)
unfolding settle_used recorded
settle_used-IsAccounted used closing response l h =
    let known = recorded-IsAccounted response l h in
    elim (Bool-cases (has_ended closing response)) [
      | inl done ↦ rw done (end_used-IsAccounted used (recorded response l) known)
      | inr open_ ↦ rw open_ known
    ]

-- In any order of requests and answers, a link knows and asks for only the sessions that were started for
-- it, and each that was started is known until an answer or its closing has ended its use.
pub LedgerRun-IsAccounted : {V : Type 0} {l : Ledger} → LedgerRun V l → IsAccounted l
unfolding IsAccounted settle
LedgerRun-IsAccounted begun s = (λ e. absurd (cc e), λ e. absurd (cc e), λ e. absurd (cc e))
LedgerRun-IsAccounted (asks {l} request run) s =
    ask-IsAccounted request l (LedgerRun-IsAccounted run) s
LedgerRun-IsAccounted (settles {l} request response run) s =
    settle_used-IsAccounted (used_session request).0 (used_session request).1 response l
      (LedgerRun-IsAccounted run) s
