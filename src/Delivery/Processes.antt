-- ===== src/Delivery/Processes.antt =====
-- src/http_server/delivery.rs and web/src/space/snapshot-merge.ts: what the client makes of one array and
-- of the processes.
use procinsh.Prelude.{
  Bool, true, false, ◌≡◌, refl, sym, ap, ◌∙◌, subst, not, ◌&&◌, Option, none, some, List, [], ◌∷◌,
  map, if◌then◌else◌, arith, inl, inr, Bool-cases, Option-cases, All,
}
use procinsh.Delivery.{Json, HasEquality}
use procinsh.Delivery.Delta.{get, build_array_delta, Entries, entries}
use procinsh.Delivery.Applied.{IsDistinct, apply_array_delta-build_array_delta}
use procinsh.Delivery.Encoder.{
  Process, whole, absent, delta, ProcessUpdate, same_values, find_process, epoch_of, find_epoch,
  with_epoch, encode_known, updated, changed_array, encode_process, encode_processes,
}
use procinsh.Delivery.Merge.{
  ProcessView, view_process, epoch_before, merge_array, merge_maps, merge_process, merge_processes,
}
use procinsh.Delivery.Known.{HasEpochs, view_processes, viewed, find_stored, find_known}

module _ (J : Json) (h : HasEquality J) where
  -- No two maps of a process start at the same address.
  abbrev pub IsMapped : Process J → Type 0
  IsMapped p = IsDistinct J.same_key J.start p.maps

  same_values_sound : (vs ws : List J.Value) → same_values J vs ws ≡ true → vs ≡ ws
  unfolding same_values
  same_values_sound [] [] e = refl
  same_values_sound [] (w ∷ ws) e = absurd (cc e)
  same_values_sound (v ∷ vs) [] e = absurd (cc e)
  same_values_sound (v ∷ vs) (w ∷ ws) e =
      let head : v ≡ w = h.same_value_sound v w (ground arith) in
      let tail : vs ≡ ws = same_values_sound vs ws (ground arith) in rw (head, tail)

  -- An array that the client has the baseline of becomes the current one.
  pub merge_array-changed_array :
      (key : J.Value → J.Key) (is_full : Bool) (old current : List J.Value) (before : Entries J)
      → IsDistinct J.same_key key current
      → (is_full ≡ false → before ≡ entries J key old)
      → merge_array J key (changed_array J key is_full old current) before ≡ entries J key current
  unfolding merge_array changed_array
  merge_array-changed_array key true old current before d same = refl
  merge_array-changed_array key false old current before d same =
      elim (Option-cases (build_array_delta J key old current)) [
        | inl too_long ↦ rw too_long
        | inr (change, sent) ↦
            rw (sent, same refl)
              (apply_array_delta-build_array_delta J h key old current change d sent)
      ]

  -- Whether the process had these maps in the previous snapshot.
  unfoldable pub keeps_maps : List (Process J) → Process J → Bool
  unfolding same_values get
  keeps_maps old p = elim (find_process J p.identity old) [
    | none ↦ false
    | some before ↦ same_values J before.maps p.maps
  ]

  -- The epoch that the client has to have: the one that it has, for the maps that it has, and else that
  -- of the snapshot.
  unfoldable pub shown_epoch : Bool → List (Process J) → List (ProcessView J) → Process J → J.Value
  unfolding keeps_maps get
  shown_epoch is_full old known p =
      if not is_full && keeps_maps old p
      then epoch_before J (get J.same_key (λ q. q.identity) p.identity known)
      else p.maps_epoch

  unfoldable pub base_processes :
      Bool → List (Process J) → List (J.Key × J.Value) → List (ProcessView J)
  base_processes is_full ps epochs = if is_full then [] else view_processes J h ps epochs

  -- One process of the output, and what the client makes of it.
  unfoldable pub Encodes :
      Bool → List (Process J) → List (J.Key × J.Value) → List (ProcessView J) → Process J → Type 0
  Encodes is_full ps epochs known p =
      (u : ProcessUpdate J) × (encode_process J is_full ps epochs p ≡ some u)
      × (merge_process J (base_processes is_full ps epochs) u
          ≡ some (view_process J p u.maps_epoch))
      × (u.identity ≡ p.identity)
      × (u.maps_epoch ≡ shown_epoch is_full ps known p)

  Encodes-whole :
      (ps : List (Process J)) (epochs : List (J.Key × J.Value)) (known : List (ProcessView J))
      (p : Process J)
      → Encodes true ps epochs known p
  unfolding Encodes encode_process encode_known with_epoch changed_array merge_process merge_maps
      base_processes merge_array shown_epoch
  Encodes-whole ps epochs known p = elim (Option-cases (find_process J p.identity ps)) [
    | inl missing ↦ (updated J p (whole p.maps) p.maps_epoch, rw missing, refl, refl, refl)
    | inr (before, found) ↦ (updated J p (whole p.maps) p.maps_epoch, rw found, refl, refl, refl)
  ]

  Encodes-change :
      (ps : List (Process J)) (epochs : List (J.Key × J.Value)) (p before : Process J)
      → HasEpochs J h ps epochs
      → IsMapped p
      → find_process J p.identity ps ≡ some before
      → Encodes false ps epochs (view_processes J h ps epochs) p
  unfolding Encodes encode_process encode_known with_epoch changed_array merge_process merge_maps
      base_processes viewed merge_array find_epoch shown_epoch keeps_maps
  Encodes-change ps epochs p before e d found =
      let (kept, stored) = find_stored J h p.identity ps before epochs e found in
      let known : get J.same_key (λ q. q.identity) p.identity (view_processes J h ps epochs)
          ≡ some (view_process J before kept.1) =
        find_known J h p.identity ps epochs e
        ∙ ap (λ (o : Option (Process J)). viewed J h o (find_epoch J p.identity epochs)) found
        ∙ ap (λ (o : Option (J.Key × J.Value)). viewed J h (some before) (epoch_of J o)) stored in
      elim (Bool-cases (same_values J before.maps p.maps)) [
        | inl same ↦
            let equal = same_values_sound before.maps p.maps same in
            (
              updated J p absent kept.1,
              rw (found, encode_known, same, stored),
              rw (known, equal),
              refl,
              rw (shown_epoch, keeps_maps, found, same, known) refl,
            )
        | inr differs ↦ elim (Option-cases (build_array_delta J J.start before.maps p.maps)) [
          | inl too_long ↦ (
            updated J p (whole p.maps) p.maps_epoch,
            rw (found, encode_known, differs, too_long),
            refl,
            refl,
            rw (shown_epoch, keeps_maps, found, differs) refl,
          )
          | inr (change, sent) ↦ (
            updated J p (delta change) p.maps_epoch,
            rw (found, encode_known, differs, sent),
            rw (
              known,
              apply_array_delta-build_array_delta J h J.start before.maps p.maps change d sent,
            ),
            refl,
            rw (shown_epoch, keeps_maps, found, differs) refl,
          )
        ]
      ]

  -- The client makes of one process of the output what the snapshot has.
  Encodes-process :
      (is_full : Bool) (ps : List (Process J)) (epochs : List (J.Key × J.Value))
      (known : List (ProcessView J)) (p : Process J)
      → (is_full ≡ false → HasEpochs J h ps epochs × (known ≡ view_processes J h ps epochs))
      → IsMapped p
      → Encodes is_full ps epochs known p
  unfolding Encodes encode_process encode_known merge_process merge_maps merge_array shown_epoch
      keeps_maps
  Encodes-process true ps epochs known p e d = Encodes-whole ps epochs known p
  Encodes-process false ps epochs known p e d = elim (Option-cases (find_process J p.identity ps)) [
    | inl missing ↦ (
      updated J p (whole p.maps) p.maps_epoch,
      rw missing,
      refl,
      refl,
      rw (shown_epoch, keeps_maps, missing) refl,
    )
    | inr (before, found) ↦
        subst (λ (k : List (ProcessView J)). Encodes false ps epochs k p) (sym (e refl).1)
          (Encodes-change ps epochs p before (e refl).0 d found)
  ]

  abbrev pub shown_processes :
      Bool → List (Process J) → List (ProcessView J) → List (Process J) → List (ProcessView J)
  shown_processes is_full old known qs =
      map (λ q. view_process J q (shown_epoch is_full old known q)) qs

  pub processes-Encodes :
      (is_full : Bool) (ps : List (Process J)) (epochs : List (J.Key × J.Value))
      (known : List (ProcessView J)) (qs : List (Process J))
      → (is_full ≡ false → HasEpochs J h ps epochs × (known ≡ view_processes J h ps epochs))
      → All IsMapped qs
      → (us : List (ProcessUpdate J)) × (encode_processes J is_full ps epochs qs ≡ some us)
        × (merge_processes J (base_processes is_full ps epochs) us
            ≡ some (shown_processes is_full ps known qs))
        × HasEpochs J h qs (map (λ u. (u.identity, u.maps_epoch)) us)
        × (shown_processes is_full ps known qs
            ≡ view_processes J h qs (map (λ u. (u.identity, u.maps_epoch)) us))
  unfolding Encodes encode_processes merge_processes view_processes
  processes-Encodes is_full ps epochs known [] e d = ([], refl, refl, refl, refl)
  processes-Encodes is_full ps epochs known (q ∷ qs) e (d, ds) =
      let (u, a, b, c, f) = Encodes-process is_full ps epochs known q e d in
      let (us, as', bs, cs, fs) = processes-Encodes is_full ps epochs known qs e ds in
      (u ∷ us, rw (a, as'), rw (b, bs, f), rw (c, cs), rw (f, fs))
