-- ===== src/Tests/Delivery.antt =====
-- The encoder of src/http_server/delivery.rs and a client, one snapshot apart. A JSON value is a pair of
-- its key and what else it holds.
use procinsh.Prelude.{
  ℕ, ◌+◌, ◌≡◌, refl, Bool, true, false, ◌&&◌, ltb, ◌==◌, List, [], ◌∷◌, some, length, arith,
}
use procinsh.Delivery.{Json, HasEquality}
use procinsh.Delivery.Delta.{
  overlay, get, ArrayDelta, build_array_delta, entries, apply_array_delta,
}
use procinsh.Delivery.Applied.{apply_array_delta-build_array_delta}
use procinsh.Delivery.Encoder.{Process, Snapshot, SnapshotEncoder, Update, is_due, encode}
use procinsh.Delivery.Merge.{View, view, merge}
use procinsh.Delivery.Faithful.{IsInStep, IsKeyed, shown, encode-merge}
use procinsh.Delivery.Known.{view_processes}

abbrev same_pair : ℕ × ℕ → ℕ × ℕ → Bool
same_pair (a, b) (c, d) = (a == c) && (b == d)

-- Values print as their number of entries.
abbrev pairs : Json
pairs = record {
  Key = ℕ;
  Value = ℕ × ℕ;
  zero = (0, 0);
  start = λ v. v.0;
  id = λ v. v.0;
  same_key = λ k l. k == l;
  same_value = same_pair;
  is_shorter = λ upsert remove current. ltb (length upsert + length remove) (length current);
}

pair_sound : (v w : ℕ × ℕ) → same_pair v w ≡ true → v ≡ w
pair_sound (a, b) (c, d) e = ground arith

pairs-HasEquality : HasEquality pairs
pairs-HasEquality = record {
  same_key_refl = λ k. ground arith;
  same_key_sound = λ k l e. ground arith;
  same_value_sound = pair_sound;
}

abbrev process : ℕ → List (ℕ × ℕ) → Process pairs
process identity maps = record {
  identity = identity;
  maps = maps;
  maps_epoch = (identity, 1);
  rest = (0, 0);
}

abbrev snapshot : List (Process pairs) → List (ℕ × ℕ) → Snapshot pairs
snapshot processes relations = record {
  processes = processes;
  fd_relations = relations;
  rdma_relations = [];
  device_handles = [];
  rest = (0, 0);
}

abbrev before : Snapshot pairs
before =
    snapshot
      (process 4 ((10, 1) ∷ [])
        ∷ process 1 ((10, 1) ∷ (20, 1) ∷ (30, 1) ∷ [])
        ∷ process 2 ((10, 1) ∷ [])
        ∷ [])
      ((1, 1) ∷ (2, 1) ∷ [])

-- Process 4 has the same maps, process 1 has one changed map, process 3 is new, and one relation is gone.
abbrev after : Snapshot pairs
after =
    snapshot
      (process 4 ((10, 1) ∷ [])
        ∷ process 1 ((10, 1) ∷ (20, 2) ∷ (30, 1) ∷ [])
        ∷ process 3 ((10, 1) ∷ [])
        ∷ [])
      ((2, 1) ∷ [])

-- The client has the maps of process 4 under an earlier epoch.
abbrev encoder : SnapshotEncoder pairs
encoder = record {
  previous = some before;
  last_full = some 0;
  epochs = (4, (0, 7)) ∷ (1, (1, 1)) ∷ (2, (2, 1)) ∷ [];
  sequence = 1;
}

abbrev client : View pairs
client =
    view pairs 1 before (view_processes pairs pairs-HasEquality before.processes encoder.epochs)

client-IsInStep : IsInStep pairs pairs-HasEquality encoder client
unfolding IsInStep
client-IsInStep = (refl, refl)

after-IsKeyed : IsKeyed pairs pairs-HasEquality after
unfolding get overlay
after-IsKeyed = (((refl, tt), ((refl, (refl, (refl, tt))), ((refl, tt), tt))), (refl, tt), tt, tt)

encode-merge_example :
    (update : Update pairs) × (next : SnapshotEncoder pairs) × (encode pairs after false 1000
        encoder
      ≡ some (update, next))
    × (merge pairs update client
        ≡ some (shown pairs pairs-HasEquality after (is_due pairs (some 0) 1000) encoder client))
    × IsInStep pairs pairs-HasEquality next
        (shown pairs pairs-HasEquality after (is_due pairs (some 0) 1000) encoder client)
    × (next.sequence ≡ 2)
encode-merge_example =
    encode-merge pairs pairs-HasEquality after false 1000 encoder client after-IsKeyed
      client-IsInStep

abbrev new_maps : List (ℕ × ℕ)
new_maps = (10, 1) ∷ (20, 2) ∷ (40, 1) ∷ (50, 1) ∷ []

abbrev maps_delta : ArrayDelta pairs
maps_delta = record { upsert = (20, 2) ∷ []; remove = 30 ∷ [] }

abbrev kept_maps : List (ℕ × ℕ)
kept_maps = (10, 1) ∷ (20, 1) ∷ (30, 1) ∷ (40, 1) ∷ (50, 1) ∷ []

new_maps-delta : build_array_delta pairs (λ v. v.0) kept_maps new_maps ≡ some maps_delta
unfolding build_array_delta
new_maps-delta = refl

apply_array_delta-build_array_delta_example :
    apply_array_delta pairs (λ v. v.0) maps_delta (entries pairs (λ v. v.0) kept_maps)
    ≡ entries pairs (λ v. v.0) new_maps
unfolding get overlay
apply_array_delta-build_array_delta_example =
    apply_array_delta-build_array_delta pairs pairs-HasEquality (λ v. v.0) kept_maps new_maps
      maps_delta (refl, (refl, (refl, (refl, tt)))) new_maps-delta
