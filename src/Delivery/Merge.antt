-- ===== src/Delivery/Merge.antt =====
-- web/src/space/snapshot-merge.ts: what the client makes of an update. Its view keeps, for each array, the
-- map of its entries.
use procinsh.Prelude.{ℕ, ◌==◌, Option, none, some, List, [], ◌∷◌, if◌then◌else◌}
use procinsh.Delivery.{Json}
use procinsh.Delivery.Delta.{get, Entries, entries, apply_array_delta}
use procinsh.Delivery.Encoder.{
  Process, Snapshot, ArrayUpdate, whole, absent, delta, ProcessUpdate, full, based_on, Update, both,
}

module _ (J : Json) where
  pub record ProcessView : Type 0 where
    pub identity : J.Key
    pub maps : Entries J
    pub maps_epoch : J.Value
    pub rest : J.Value

  pub record View : Type 0 where
    pub sequence : ℕ
    pub processes : List ProcessView
    pub fd_relations : Entries J
    pub rdma_relations : Entries J
    pub device_handles : Entries J
    pub rest : J.Value

  -- A process with the epoch that its maps have for the client.
  abbrev pub view_process : Process J → J.Value → ProcessView
  view_process p epoch = record {
    identity = p.identity;
    maps = entries J J.start p.maps;
    maps_epoch = epoch;
    rest = p.rest;
  }

  abbrev pub view : ℕ → Snapshot J → List ProcessView → View
  view sequence s processes = record {
    sequence = sequence;
    processes = processes;
    fd_relations = entries J J.id s.fd_relations;
    rdma_relations = entries J J.id s.rdma_relations;
    device_handles = entries J J.id s.device_handles;
    rest = s.rest;
  }

  abbrev pub no_entries : Entries J
  no_entries = λ k. none

  -- An array that the update leaves out is kept.
  unfoldable pub merge_array : (J.Value → J.Key) → ArrayUpdate J → Entries J → Entries J
  unfolding entries apply_array_delta
  merge_array key (whole values) before = entries J key values
  merge_array key absent before = before
  merge_array key (delta change) before = apply_array_delta J key change before

  abbrev pub maps_of : Option ProcessView → Entries J
  maps_of none = no_entries
  maps_of (some p) = p.maps

  -- "Missing process maps baseline" is `none`.
  unfoldable pub merge_maps : ArrayUpdate J → Option ProcessView → Option (Entries J)
  unfolding merge_array
  merge_maps (whole values) known = some (merge_array J.start (whole values) (maps_of known))
  merge_maps absent known = some (maps_of known)
  merge_maps (delta change) none = none
  merge_maps (delta change) (some p) = some (merge_array J.start (delta change) p.maps)

  -- An epoch is a number, so `old?.maps_epoch ?? 0` is 0 only where no process is known.
  abbrev pub epoch_before : Option ProcessView → J.Value
  epoch_before none = J.zero
  epoch_before (some p) = p.maps_epoch

  -- Where the maps are left out, their epoch is kept with them.
  abbrev pub merge_epoch : ArrayUpdate J → J.Value → Option ProcessView → J.Value
  merge_epoch absent sent known = epoch_before known
  merge_epoch (whole values) sent known = sent
  merge_epoch (delta change) sent known = sent

  abbrev pub with_maps :
      ProcessUpdate J → Option ProcessView → Option (Entries J) → Option ProcessView
  with_maps p known none = none
  with_maps p known (some maps) = some (record {
    identity = p.identity;
    maps = maps;
    maps_epoch = merge_epoch p.maps p.maps_epoch known;
    rest = p.rest;
  })

  unfoldable pub merge_process : List ProcessView → ProcessUpdate J → Option ProcessView
  unfolding get merge_maps
  merge_process known p =
      let old = get J.same_key (λ q. q.identity) p.identity known in
      with_maps p old (merge_maps p.maps old)

  unfoldable pub merge_processes :
      List ProcessView → List (ProcessUpdate J) → Option (List ProcessView)
  unfolding merge_process
  merge_processes known [] = some []
  merge_processes known (p ∷ ps) = both (merge_process known p) (merge_processes known ps)

  -- What the arrays of an update are applied to; a delta of another baseline is refused.
  unfoldable pub baseline : Update J → View → Option View
  baseline update previous = elim update.kind [
    | full ↦ some (record previous {
      processes = [];
      fd_relations = no_entries;
      rdma_relations = no_entries;
      device_handles = no_entries;
    })
    | based_on sequence ↦ if sequence == previous.sequence then some previous else none
  ]

  abbrev pub with_processes : Update J → View → Option (List ProcessView) → Option View
  with_processes update base none = none
  with_processes update base (some processes) = some (record {
    sequence = update.sequence;
    processes = processes;
    fd_relations = merge_array J.id update.fd_relations base.fd_relations;
    rdma_relations = merge_array J.id update.rdma_relations base.rdma_relations;
    device_handles = merge_array J.id update.device_handles base.device_handles;
    rest = update.rest;
  })

  abbrev pub merge_on : Update J → Option View → Option View
  merge_on update none = none
  merge_on update (some base) =
      with_processes update base (merge_processes base.processes update.processes)

  unfoldable pub merge : Update J → View → Option View
  unfolding baseline merge_processes merge_array
  merge update previous = merge_on update (baseline update previous)
