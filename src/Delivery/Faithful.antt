-- ===== src/Delivery/Faithful.antt =====
-- src/http_server/delivery.rs and web/src/space/snapshot-merge.ts: the encoder and a client that merges.
use procinsh.Prelude.{
  ℕ, ◌+◌, Bool, true, false, ◌||◌, ◌≡◌, ◌≢◌, refl, sym, ap, subst, ◌==◌, Option, none, some, List,
  arith, All,
}
use procinsh.Delivery.{Json, HasEquality}
use procinsh.Delivery.Delta.{entries}
use procinsh.Delivery.Applied.{IsDistinct}
use procinsh.Delivery.Encoder.{
  Snapshot, Update, SnapshotEncoder, output, remember, finish, changed_array, encode_processes,
  is_due, encode, old_processes,
}
use procinsh.Delivery.Merge.{View, view, merge_array, baseline, merge}
use procinsh.Delivery.Known.{HasEpochs, view_processes}
use procinsh.Delivery.Processes.{
  IsMapped, merge_array-changed_array, base_processes, shown_processes, processes-Encodes,
}

module _ (J : Json) (h : HasEquality J) where
  -- The keys of each array differ.
  abbrev pub IsKeyed : Snapshot J → Type 0
  IsKeyed s =
      All (IsMapped J h) s.processes
      × IsDistinct J.same_key J.id s.fd_relations
      × IsDistinct J.same_key J.id s.rdma_relations
      × IsDistinct J.same_key J.id s.device_handles

  -- What the encoder remembers is what the client shows; before the first snapshot nothing is asked of
  -- the client.
  unfoldable pub IsInStep : SnapshotEncoder J → View J → Type 0
  IsInStep encoder client = elim encoder.previous [
    | none ↦ encoder.last_full ≡ none
    | some s ↦
        HasEpochs J h s.processes encoder.epochs
        × (client ≡ view J encoder.sequence s (view_processes J h s.processes encoder.epochs))
  ]

  -- What the client has to show then: the snapshot, with the epoch that each process's maps have for
  -- the client.
  abbrev pub shown : Snapshot J → Bool → SnapshotEncoder J → View J → View J
  shown snapshot is_full encoder client = view J (encoder.sequence + 1) snapshot (
      shown_processes J h is_full (old_processes J encoder.previous) client.processes
        snapshot.processes)

  -- What one update achieves.
  Shows : Snapshot J → Bool → ℕ → SnapshotEncoder J → View J → Type 0
  Shows snapshot is_full now encoder client =
      (update : Update J) × (next : SnapshotEncoder J) × (finish J snapshot is_full now encoder (
          encode_processes J is_full (old_processes J encoder.previous) encoder.epochs
            snapshot.processes)
        ≡ some (update, next))
      × (merge J update client ≡ some (shown snapshot is_full encoder client))
      × IsInStep next (shown snapshot is_full encoder client)
      × (next.sequence ≡ encoder.sequence + 1)

  Shows-full :
      (snapshot : Snapshot J) (now : ℕ) (encoder : SnapshotEncoder J) (client : View J)
      → IsKeyed snapshot
      → Shows snapshot true now encoder client
  unfolding Shows finish output remember merge baseline IsInStep changed_array merge_array
      base_processes
  Shows-full snapshot now encoder client (ds, d₁, d₂, d₃) =
      let (us, a, b, c, f) =
        processes-Encodes J h true (old_processes J encoder.previous) encoder.epochs
          client.processes snapshot.processes (λ wrong. absurd (cc wrong)) ds in
      (
        output J snapshot true encoder us,
        remember J snapshot true now encoder us,
        rw a,
        rw b,
        (c, ap (view J (encoder.sequence + 1) snapshot) f),
        refl,
      )

  Shows-delta :
      (snapshot s : Snapshot J) (now : ℕ) (last_full : Option ℕ) (epochs : List (J.Key × J.Value))
      (sequence : ℕ)
      → IsKeyed snapshot
      → HasEpochs J h s.processes epochs
      → Shows snapshot false now
          (record {
            previous = some s;
            last_full = last_full;
            epochs = epochs;
            sequence = sequence;
          })
          (view J sequence s (view_processes J h s.processes epochs))
  unfolding Shows finish output remember merge baseline IsInStep base_processes
  Shows-delta snapshot s now last_full epochs sequence (ds, d₁, d₂, d₃) e =
      let (us, a, b, c, f) =
        processes-Encodes J h false s.processes epochs (view_processes J h s.processes epochs)
          snapshot.processes (λ _. (e, refl)) ds in
      let field =
        λ (read : Snapshot J → List J.Value) (d : IsDistinct J.same_key J.id (read snapshot)).
          merge_array-changed_array J h J.id false (read s) (read snapshot)
            (entries J J.id (read s)) d (λ _. refl) in
      let same : (sequence == sequence) ≡ true = ground arith in
      let encoder : SnapshotEncoder J = record {
        previous = some s;
        last_full = last_full;
        epochs = epochs;
        sequence = sequence;
      } in
      (
        output J snapshot false encoder us,
        remember J snapshot false now encoder us,
        rw a,
        rw (
          same,
          b,
          field (λ x. x.fd_relations) d₁,
          field (λ x. x.rdma_relations) d₂,
          field (λ x. x.device_handles) d₃,
        ),
        (c, ap (view J (encoder.sequence + 1) snapshot) f),
        refl,
      )

  shows :
      (snapshot : Snapshot J) (now : ℕ) (previous : Option (Snapshot J)) (last_full : Option ℕ)
      (epochs : List (J.Key × J.Value)) (sequence : ℕ) (client : View J) (is_full : Bool)
      → IsKeyed snapshot
      → IsInStep
          (record {
            previous = previous;
            last_full = last_full;
            epochs = epochs;
            sequence = sequence;
          })
          client
      → (is_full ≡ false → last_full ≢ none)
      → Shows snapshot is_full now
          (record {
            previous = previous;
            last_full = last_full;
            epochs = epochs;
            sequence = sequence;
          })
          client
  unfolding IsInStep
  shows snapshot now previous last_full epochs sequence client true keyed step due =
      Shows-full snapshot now _ client keyed
  shows snapshot now none last_full epochs sequence client false keyed step due =
      absurd (due refl step)
  shows snapshot now (some s) last_full epochs sequence client false keyed (kept, same) due =
      subst
        (λ c.
          Shows snapshot false now
            (record {
              previous = some s;
              last_full = last_full;
              epochs = epochs;
              sequence = sequence;
            })
            c)
        (sym same) (Shows-delta snapshot s now last_full epochs sequence keyed kept)

  delta_not_due :
      (force_full : Bool) (last_full : Option ℕ) (now : ℕ)
      → (force_full || is_due J last_full now) ≡ false
      → last_full ≢ none
  delta_not_due force_full (some last) now e wrong = cc wrong
  delta_not_due true none now e wrong = cc e
  delta_not_due false none now e wrong = cc e

  -- Whatever a client that is in step with the encoder has, encoding a snapshot whose keys differ
  -- succeeds, and merging the update gives the client the view of that snapshot: its sequence, processes,
  -- maps, relations and all else, where each process has the epoch that it has for the client when the
  -- update is not full and its maps are those of the previous snapshot, and else the snapshot's. The
  -- next encoder, with these epochs, and the client are in step again.
  pub encode-merge :
      (snapshot : Snapshot J) (force_full : Bool) (now : ℕ) (encoder : SnapshotEncoder J)
      (client : View J)
      → IsKeyed snapshot
      → IsInStep encoder client
      → (update : Update J) × (next : SnapshotEncoder J) × (encode J snapshot force_full now encoder
          ≡ some (update, next))
        × (merge J update client
            ≡ some (shown snapshot (force_full || is_due J encoder.last_full now) encoder client))
        × IsInStep next
            (shown snapshot (force_full || is_due J encoder.last_full now) encoder client)
        × (next.sequence ≡ encoder.sequence + 1)
  unfolding encode Shows
  encode-merge snapshot force_full now encoder client keyed step =
      shows snapshot now encoder.previous encoder.last_full encoder.epochs encoder.sequence client
        (force_full || is_due J encoder.last_full now) keyed step
        (delta_not_due force_full encoder.last_full now)
