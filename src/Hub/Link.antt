-- ===== src/Hub/Link.antt =====
-- src/http_server/hosts/link.rs: the requests of a hub to one agent that wait for their answers. A
-- sender of a one-shot channel is the id under which it is stored; `answered` is what the waiters have
-- been told, the last first. The queue of outgoing messages takes a message or is full or closed.
use procinsh.Prelude.{
  ℕ, ◌+◌, ◌%◌, ◌^◌, Bool, true, false, List, [], ◌∷◌, ◌++◌, leb, ◌==◌, if◌then◌else◌, length,
  Option, none, some, Result, ok, err,
}

pub data LinkError : Type 0 where
  link_closed queue_full send_failed : LinkError

-- How a wait ends: with the agent's response, since the link closed, or at the deadline.
pub data Outcome (R : Type 0) : Type 0 where
  response : R → Outcome R
  closed timed_out : Outcome R

pub record AgentLink (R : Type 0) : Type 0 where
  pub pending : Option (List ℕ)
  pub next : ℕ
  pub answered : List (ℕ × Outcome R)

abbrev pub pending_limit : ℕ
pending_limit = 64

unfoldable pub remove : ℕ → List ℕ → List ℕ
remove id [] = []
remove id (x ∷ xs) = let rest = remove id xs in if x == id then rest else x ∷ rest

unfoldable pub contains : ℕ → List ℕ → Bool
contains id [] = false
contains id (x ∷ xs) = if x == id then true else contains id xs

abbrev pub forget_in : ℕ → Option (List ℕ) → Option (List ℕ)
forget_in id none = none
forget_in id (some ids) = some (remove id ids)

abbrev pub waits_for : ℕ → Option (List ℕ) → Bool
waits_for id none = false
waits_for id (some ids) = contains id ids

module _ {R : Type 0} where
  unfoldable pub new_link : AgentLink R
  new_link = record { pending = some []; next = 0; answered = [] }

  unfoldable pub forget : ℕ → AgentLink R → AgentLink R
  unfolding remove
  forget id link = record link { pending = forget_in id link.pending }

  -- The first half of `request`, up to the wait: the id under which the caller waits. `sent` is what
  -- `try_send` returns.
  unfoldable pub begin_request : Bool → AgentLink R → Result LinkError ℕ × AgentLink R
  unfolding forget remove
  begin_request sent link =
      let id = link.next in
      let counted = record link { next = (link.next + 1) % 2 ^ 64 } in
      elim link.pending [
        | none ↦ (err link_closed, counted)
        | some ids ↦
            let waiting = record counted { pending = some (id ∷ remove id ids) } in
            if leb pending_limit (length ids)
            then (err queue_full, counted)
            else if sent
            then (ok id, waiting)
            else (err send_failed, forget id waiting)
      ]

  abbrev pub answer : ℕ → Outcome R → AgentLink R → AgentLink R
  answer id outcome link =
      if waits_for id link.pending
      then record link {
        pending = forget_in id link.pending;
        answered = (id, outcome) ∷ link.answered;
      }
      else link

  -- A response to a forgotten request is dropped.
  unfoldable pub complete : ℕ → R → AgentLink R → AgentLink R
  unfolding remove contains
  complete id value link = answer id (response value) link

  -- The second half of `request`, when its time is over.
  unfoldable pub expire : ℕ → AgentLink R → AgentLink R
  unfolding remove contains
  expire id link = answer id timed_out link

  abbrev pub all_closed : List ℕ → List (ℕ × Outcome R)
  all_closed [] = []
  all_closed (id ∷ ids) = (id, closed) ∷ all_closed ids

  -- The close of a session is sent, if the queue takes it, and nobody waits for its answer.
  unfoldable pub close_session : AgentLink R → AgentLink R
  close_session link = record link { next = (link.next + 1) % 2 ^ 64 }

  unfoldable pub close : AgentLink R → AgentLink R
  close link = elim link.pending [
    | none ↦ link
    | some ids ↦ record link { pending = none; answered = all_closed ids ++ link.answered }
  ]
