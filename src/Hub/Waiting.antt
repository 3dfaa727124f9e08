-- ===== src/Hub/Waiting.antt =====
-- Who waits on a link of src/http_server/hosts/link.rs, and who has been told, as requests and responses
-- come in any order.
use procinsh.Prelude.{
  ℕ, ◌+◌, ◌%◌, ◌^◌, ◌≤◌, ◌<◌, ◌≡◌, refl, ap, Bool, true, List, [], ◌∷◌, ◌++◌, leb, ◌==◌,
  if◌then◌else◌, if_split, option_split, length, Option, none, some, Result, ok, err, arith,
}
use procinsh.Hub.Link.{
  AgentLink, Outcome, LinkError, response, timed_out, pending_limit, remove, contains, forget_in,
  waits_for, answer, new_link, forget, begin_request, complete, expire, close, close_session,
  all_closed,
}

unfoldable pub occurrences : ℕ → List ℕ → ℕ
occurrences n [] = 0
occurrences n (x ∷ xs) = (if x == n then 1 else 0) + occurrences n xs

occurrences-remove :
    (n id : ℕ) (xs : List ℕ)
    → occurrences n (remove id xs) ≡ (if id == n then 0 else occurrences n xs)
unfolding occurrences remove
occurrences-remove n id [] = ground arith
occurrences-remove n id (x ∷ xs) = ground (arith, occurrences-remove n id xs)

length-remove_le : (id : ℕ) (xs : List ℕ) → length (remove id xs) ≤ length xs
unfolding remove
length-remove_le id [] = omega arith
length-remove_le id (x ∷ xs) = ground (arith, length-remove_le id xs)

contains_sound : (id : ℕ) (xs : List ℕ) → contains id xs ≡ true → 1 ≤ occurrences id xs
unfolding contains occurrences
contains_sound id [] h = absurd (cc h)
contains_sound id (x ∷ xs) h = ground (arith, contains_sound id xs)

-- The ids of the callers that wait.
abbrev pub waiting : Option (List ℕ) → List ℕ
waiting none = []
waiting (some ids) = ids

waits_for_sound :
    (id : ℕ) (pending : Option (List ℕ))
    → waits_for id pending ≡ true
    → 1 ≤ occurrences id (waiting pending)
waits_for_sound id none h = absurd (cc h)
waits_for_sound id (some ids) h = contains_sound id ids h

occurrences-forget_in :
    (n id : ℕ) (pending : Option (List ℕ))
    → occurrences n (waiting (forget_in id pending))
      ≡ (if id == n then 0 else occurrences n (waiting pending))
unfolding occurrences
occurrences-forget_in n id none = ground arith
occurrences-forget_in n id (some ids) = occurrences-remove n id ids

length-forget_in_le :
    (id : ℕ) (pending : Option (List ℕ))
    → length (waiting (forget_in id pending)) ≤ length (waiting pending)
length-forget_in_le id none = omega arith
length-forget_in_le id (some ids) = length-remove_le id ids

abbrev pub accept : Result LinkError ℕ → List ℕ → List ℕ
accept (ok id) accepted = id ∷ accepted
accept (err e) accepted = accepted

module _ {R : Type 0} where
  -- The ids of the callers that have been told something.
  abbrev pub told : List (ℕ × Outcome R) → List ℕ
  told [] = []
  told ((id, outcome) ∷ more) = id ∷ told more

  told-all_closed :
      (n : ℕ) (ids : List ℕ) (more : List (ℕ × Outcome R))
      → occurrences n (told (all_closed ids ++ more))
        ≡ occurrences n ids + occurrences n (told more)
  unfolding occurrences
  told-all_closed n [] more = omega arith
  told-all_closed n (id ∷ ids) more = omega (arith, told-all_closed n ids more)

  abbrev pub Balances : List ℕ → AgentLink R → ℕ → Type 0
  Balances accepted link n =
      (occurrences n (waiting link.pending) + occurrences n (told link.answered)
        ≡ occurrences n accepted)
      × (occurrences n accepted ≤ 1)
      × (link.next ≤ n → occurrences n accepted ≡ 0)

  -- Each accepted request waits, or has been told something once; 64 wait at most.
  unfoldable pub IsBalanced : List ℕ → AgentLink R → Type 0
  IsBalanced accepted link =
      ((n : ℕ) → Balances accepted link n) × (length (waiting link.pending) ≤ pending_limit)

  -- What can happen to a link, with the requests that it accepted; the ids have not wrapped.
  pub data LinkRun : List ℕ → AgentLink R → Type 0 where
    opened : LinkRun [] new_link
    asked :
        {accepted : List ℕ} {link : AgentLink R} (sent : Bool)
        → link.next + 1 < 2 ^ 64
        → LinkRun accepted link
        → LinkRun (accept (begin_request sent link).0 accepted) (begin_request sent link).1
    responded :
        {accepted : List ℕ} {link : AgentLink R} (id : ℕ) (value : R)
        → LinkRun accepted link
        → LinkRun accepted (complete id value link)
    waited :
        {accepted : List ℕ} {link : AgentLink R} (id : ℕ)
        → LinkRun accepted link
        → LinkRun accepted (expire id link)
    told_to_close :
        {accepted : List ℕ} {link : AgentLink R}
        → link.next + 1 < 2 ^ 64
        → LinkRun accepted link
        → LinkRun accepted (close_session link)
    shut :
        {accepted : List ℕ} {link : AgentLink R}
        → LinkRun accepted link
        → LinkRun accepted (close link)

  answer-IsBalanced :
      (accepted : List ℕ) (link : AgentLink R) (id : ℕ) (outcome : Outcome R)
      → IsBalanced accepted link
      → IsBalanced accepted (answer id outcome link)
  unfolding IsBalanced occurrences
  answer-IsBalanced accepted link id outcome (h, small) =
      if_split (IsBalanced accepted) (waits_for id link.pending)
        (λ there.
          let least = waits_for_sound id link.pending there in
          let own = h id in
          (
            λ n.
                let all = h n in
                let gone = occurrences-forget_in n id link.pending in
                (ground (arith, gone, least, own, all), all.1, all.2),
            omega (arith, small, length-forget_in_le id link.pending),
          ))
        (λ _. (h, small))

  close-IsBalanced :
      (accepted : List ℕ) (link : AgentLink R)
      → IsBalanced accepted link
      → IsBalanced accepted (close link)
  unfolding IsBalanced close occurrences
  close-IsBalanced accepted link (h, small) =
      option_split (IsBalanced accepted) link.pending _ _ (λ _. (h, small))
        (λ ids e. (
          λ n.
              let all = h n in
              let same = ap (λ (o : Option (List ℕ)). occurrences n (waiting o)) e in
              (omega (arith, all, same, told-all_closed n ids link.answered), all.1, all.2),
          omega arith,
        ))

  begin_request-IsBalanced :
      (accepted : List ℕ) (link : AgentLink R) (sent : Bool)
      → link.next + 1 < 2 ^ 64
      → IsBalanced accepted link
      → IsBalanced (accept (begin_request sent link).0 accepted) (begin_request sent link).1
  unfolding IsBalanced begin_request forget occurrences
  begin_request-IsBalanced accepted link sent room (h, small) =
      let P = λ (o : Result LinkError ℕ × AgentLink R). IsBalanced (accept o.0 accepted) o.1 in
      let id = link.next in
      let grown : (id + 1) % 2 ^ 64 ≡ id + 1 = omega arith in
      let counted : (n : ℕ) → Balances accepted (record link { next = (id + 1) % 2 ^ 64 }) n =
        λ n. ((h n).0, (h n).1, λ b. (h n).2 (omega (arith, grown))) in
      option_split P link.pending _ _ (λ _. (counted, small))
        (λ ids e.
          let at_ = λ (n : ℕ). ap (λ (o : Option (List ℕ)). occurrences n (waiting o)) e in
          let size = ap (λ (o : Option (List ℕ)). length (waiting o)) e in
          if_split P (leb pending_limit (length ids)) (λ _. (counted, small))
            (λ few.
              let fresh = h id in
              if_split P sent
                (λ _. (
                  λ n.
                      let all = h n in
                      let gone = occurrences-remove n id ids in
                      (
                        ground (arith, all, at_ n, gone, fresh, at_ id),
                        ground (arith, all, fresh),
                        λ b. ground (arith, all, grown),
                      ),
                  ground (arith, length-remove_le id ids),
                ))
                (λ _. (
                  λ n.
                      let all = h n in
                      let once = occurrences-remove n id ids in
                      let gone = occurrences-remove n id (id ∷ remove id ids) in
                      (ground (arith, all, at_ n, once, gone, fresh, at_ id), all.1, (counted n).2),
                  ground (arith, length-remove_le id ids, length-remove_le id (remove id ids)),
                ))))

  -- Whatever the order of requests, responses, deadlines and closing: each request that was accepted
  -- either waits or has been told one outcome, no other id has, and 64 wait at most.
  pub LinkRun-IsBalanced :
      {accepted : List ℕ} {link : AgentLink R} → LinkRun accepted link → IsBalanced accepted link
  unfolding IsBalanced new_link occurrences complete expire close_session
  LinkRun-IsBalanced opened = ((λ n. (refl, omega arith, λ _. refl)), omega arith)
  LinkRun-IsBalanced (asked {accepted} {link} sent room run) =
      begin_request-IsBalanced accepted link sent room (LinkRun-IsBalanced run)
  LinkRun-IsBalanced (responded {accepted} {link} id value run) =
      answer-IsBalanced accepted link id (response value) (LinkRun-IsBalanced run)
  LinkRun-IsBalanced (waited {accepted} {link} id run) =
      answer-IsBalanced accepted link id timed_out (LinkRun-IsBalanced run)
  LinkRun-IsBalanced (told_to_close {accepted} {link} room run) =
      let (h, small) = LinkRun-IsBalanced run in
      let grown : (link.next + 1) % 2 ^ 64 ≡ link.next + 1 = omega arith in
      ((λ n. ((h n).0, (h n).1, λ b. (h n).2 (omega (arith, grown)))), small)
  LinkRun-IsBalanced (shut {accepted} {link} run) =
      close-IsBalanced accepted link (LinkRun-IsBalanced run)
