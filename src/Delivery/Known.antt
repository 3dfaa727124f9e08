-- ===== src/Delivery/Known.antt =====
-- src/http_server/delivery.rs and web/src/space/snapshot-merge.ts: the process that the encoder finds is
-- the one that the client has.
use procinsh.Prelude.{
  ◌≡◌, refl, ap, ◌∙◌, Option, none, some, List, [], ◌∷◌, map, arith, inl, inr, Bool-cases,
  Option-cases,
}
use procinsh.Delivery.{Json, HasEquality}
use procinsh.Delivery.Delta.{get, contains, overlay}
use procinsh.Delivery.Applied.{contains-map_key}
use procinsh.Delivery.Encoder.{Process, find_process, epoch_of, find_epoch}
use procinsh.Delivery.Merge.{ProcessView, view_process}

module _ (J : Json) (h : HasEquality J) where
  -- The epochs are those of the processes.
  abbrev pub HasEpochs : List (Process J) → List (J.Key × J.Value) → Type 0
  HasEpochs processes epochs = map (λ p. p.identity) processes ≡ map (λ e. e.0) epochs

  -- The processes with the epochs that the encoder keeps for them.
  unfoldable pub view_processes : List (Process J) → List (J.Key × J.Value) → List (ProcessView J)
  view_processes [] epochs = []
  view_processes (p ∷ ps) [] = []
  view_processes (p ∷ ps) (e ∷ epochs) = view_process J p e.1 ∷ view_processes ps epochs

  pub find_stored :
      (k : J.Key) (ps : List (Process J)) (p : Process J) (epochs : List (J.Key × J.Value))
      → HasEpochs ps epochs
      → find_process J k ps ≡ some p
      → (e : J.Key × J.Value) × (get J.same_key (λ e. e.0) k epochs ≡ some e)
  find_stored k ps p epochs same found =
      let known = contains-map_key J.same_key (λ p. p.identity) h.same_key_sound k ps in
      let kept = contains-map_key J.same_key (λ e. e.0) h.same_key_sound k epochs in
      let moved = ap (contains J.same_key k) same in
      elim (Option-cases (get J.same_key (λ e. e.0) k epochs)) [
        | inl missing ↦ absurd (ground arith)
        | inr stored ↦ stored
      ]

  find_no_epoch :
      (k : J.Key) (ps : List (Process J)) (epochs : List (J.Key × J.Value))
      → HasEpochs ps epochs
      → find_process J k ps ≡ none
      → get J.same_key (λ e. e.0) k epochs ≡ none
  find_no_epoch k ps epochs same missing =
      let known = contains-map_key J.same_key (λ p. p.identity) h.same_key_sound k ps in
      let kept = contains-map_key J.same_key (λ e. e.0) h.same_key_sound k epochs in
      let moved = ap (contains J.same_key k) same in
      elim (Option-cases (get J.same_key (λ e. e.0) k epochs)) [
        | inl none_kept ↦ none_kept
        | inr (e, stored) ↦ absurd (ground arith)
      ]

  unfoldable pub viewed : Option (Process J) → Option J.Value → Option (ProcessView J)
  viewed (some p) (some epoch) = some (view_process J p epoch)
  viewed _ _ = none

  pub find_known :
      (k : J.Key) (ps : List (Process J)) (epochs : List (J.Key × J.Value))
      → HasEpochs ps epochs
      → get J.same_key (λ q. q.identity) k (view_processes ps epochs)
        ≡ viewed (find_process J k ps) (find_epoch J k epochs)
  unfolding get overlay viewed view_processes find_epoch
  find_known k [] [] same = refl
  find_known k [] (e ∷ epochs) same = absurd (cc same)
  find_known k (p ∷ ps) [] same = absurd (cc same)
  find_known k (p ∷ ps) (e ∷ epochs) same =
      let own : p.identity ≡ e.0 = cc same in
      let others : HasEpochs ps epochs = cc same in
      let rest = find_known k ps epochs others in
      elim (Option-cases (find_process J k ps)) [
        | inl missing ↦
            let gone = find_no_epoch k ps epochs others missing in
            let unknown : get J.same_key (λ q. q.identity) k (view_processes ps epochs) ≡ none =
              rest ∙ ap (λ (o : Option (Process J)). viewed o (find_epoch J k epochs)) missing in
            elim (Bool-cases (J.same_key e.0 k)) [
              | inl here ↦ rw (unknown, missing, gone, own, here) refl
              | inr other ↦ rw (unknown, missing, gone, own, other) refl
            ]
        | inr (q, found) ↦
            let (kept, stored) = find_stored k ps q epochs others found in
            let known : get J.same_key (λ q. q.identity) k (view_processes ps epochs)
                ≡ some (view_process J q kept.1) =
              rest
              ∙ ap (λ (o : Option (Process J)). viewed o (find_epoch J k epochs)) found
              ∙ ap (λ (o : Option (J.Key × J.Value)). viewed (some q) (epoch_of J o)) stored in
            rw (known, found, stored) refl
      ]
