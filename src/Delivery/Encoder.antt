-- ===== src/Delivery/Encoder.antt =====
-- src/http_server/delivery.rs: `SnapshotEncoder::encode`, up to the printing of the JSON value. Times are
-- milliseconds; the fields of a snapshot that the encoder passes on as they are stand as one value.
use procinsh.Prelude.{
  ℕ, ◌+◌, ◌-◌, Bool, true, false, ◌&&◌, not, ◌||◌, leb, Option, none, some, List, [], ◌∷◌, map,
  if◌then◌else◌,
}
use procinsh.Delivery.{Json}
use procinsh.Delivery.Delta.{get, ArrayDelta, build_array_delta}

-- A list of results that all have to be there.
abbrev pub both : {A : Type 0} → Option A → Option (List A) → Option (List A)
both none rest = none
both (some x) none = none
both (some x) (some xs) = some (x ∷ xs)

module _ (J : Json) where
  -- An entry of "processes".
  pub record Process : Type 0 where
    pub identity : J.Key
    pub maps : List J.Value
    pub maps_epoch : J.Value
    pub rest : J.Value

  pub record Snapshot : Type 0 where
    pub processes : List Process
    pub fd_relations : List J.Value
    pub rdma_relations : List J.Value
    pub device_handles : List J.Value
    pub rest : J.Value

  -- A field of the output: the array itself, nothing, or the field with `_delta` behind its name.
  pub data ArrayUpdate : Type 0 where
    whole : List J.Value → ArrayUpdate
    absent : ArrayUpdate
    delta : ArrayDelta J → ArrayUpdate

  pub record ProcessUpdate : Type 0 where
    pub identity : J.Key
    pub maps : ArrayUpdate
    pub maps_epoch : J.Value
    pub rest : J.Value

  -- "kind", with the "base_sequence" of a delta.
  pub data Kind : Type 0 where
    full : Kind
    based_on : ℕ → Kind

  pub record Update : Type 0 where
    pub kind : Kind
    pub sequence : ℕ
    pub processes : List ProcessUpdate
    pub fd_relations : ArrayUpdate
    pub rdma_relations : ArrayUpdate
    pub device_handles : ArrayUpdate
    pub rest : J.Value

  -- The times and the epochs that the encoder keeps; the map of epochs is a list of pairs.
  pub record SnapshotEncoder : Type 0 where
    pub previous : Option Snapshot
    pub last_full : Option ℕ
    pub epochs : List (J.Key × J.Value)
    pub sequence : ℕ

  unfoldable pub new_encoder : SnapshotEncoder
  new_encoder = record { previous = none; last_full = none; epochs = []; sequence = 0 }

  unfoldable pub same_values : List J.Value → List J.Value → Bool
  same_values [] [] = true
  same_values [] (w ∷ ws) = false
  same_values (v ∷ vs) [] = false
  same_values (v ∷ vs) (w ∷ ws) = J.same_value v w && same_values vs ws

  abbrev pub find_process : J.Key → List Process → Option Process
  find_process identity processes = get J.same_key (λ p. p.identity) identity processes

  abbrev pub epoch_of : Option (J.Key × J.Value) → Option J.Value
  epoch_of none = none
  epoch_of (some e) = some e.1

  unfoldable pub find_epoch : J.Key → List (J.Key × J.Value) → Option J.Value
  unfolding get
  find_epoch identity epochs = epoch_of (get J.same_key (λ e. e.0) identity epochs)

  abbrev pub sent_array : List J.Value → Option (ArrayDelta J) → ArrayUpdate
  sent_array current none = whole current
  sent_array current (some change) = delta change

  unfoldable pub changed_array :
      (J.Value → J.Key) → Bool → List J.Value → List J.Value → ArrayUpdate
  unfolding build_array_delta
  changed_array key is_full old current =
      if is_full then whole current else sent_array current (build_array_delta J key old current)

  abbrev pub updated : Process → ArrayUpdate → J.Value → ProcessUpdate
  updated p maps epoch = record {
    identity = p.identity;
    maps = maps;
    maps_epoch = epoch;
    rest = p.rest;
  }

  -- `self.epochs[&id]` panics where there is no epoch.
  unfoldable pub with_epoch : Process → Option J.Value → Option ProcessUpdate
  with_epoch p none = none
  with_epoch p (some epoch) = some (updated p absent epoch)

  unfoldable pub encode_known :
      Bool → Option Process → List (J.Key × J.Value) → Process → Option ProcessUpdate
  unfolding same_values changed_array with_epoch find_epoch
  encode_known is_full none epochs p = some (updated p (whole p.maps) p.maps_epoch)
  encode_known is_full (some before) epochs p =
      if not is_full && same_values before.maps p.maps
      then with_epoch p (find_epoch p.identity epochs)
      else some (updated p (changed_array J.start is_full before.maps p.maps) p.maps_epoch)

  -- One process of the output.
  unfoldable pub encode_process :
      Bool → List Process → List (J.Key × J.Value) → Process → Option ProcessUpdate
  unfolding get encode_known
  encode_process is_full previous epochs p =
      encode_known is_full (find_process p.identity previous) epochs p

  unfoldable pub encode_processes :
      Bool → List Process → List (J.Key × J.Value) → List Process → Option (List ProcessUpdate)
  unfolding encode_process
  encode_processes is_full previous epochs [] = some []
  encode_processes is_full previous epochs (p ∷ ps) =
      both (encode_process is_full previous epochs p) (encode_processes is_full previous epochs ps)

  abbrev pub is_due : Option ℕ → ℕ → Bool
  is_due none now = true
  is_due (some last) now = leb 60000 (now - last)

  abbrev pub old_array : (Snapshot → List J.Value) → Option Snapshot → List J.Value
  old_array field none = []
  old_array field (some snapshot) = field snapshot

  abbrev pub old_processes : Option Snapshot → List Process
  old_processes none = []
  old_processes (some snapshot) = snapshot.processes

  unfoldable pub output : Snapshot → Bool → SnapshotEncoder → List ProcessUpdate → Update
  unfolding changed_array
  output snapshot is_full encoder processes =
      let field : (J.Value → J.Key) → (Snapshot → List J.Value) → ArrayUpdate =
        λ key read. changed_array key is_full (old_array read encoder.previous) (read snapshot) in
      record {
        kind = if is_full then full else based_on encoder.sequence;
        sequence = encoder.sequence + 1;
        processes = processes;
        fd_relations = field J.id (λ s. s.fd_relations);
        rdma_relations = field J.id (λ s. s.rdma_relations);
        device_handles = field J.id (λ s. s.device_handles);
        rest = snapshot.rest;
      }

  unfoldable pub remember :
      Snapshot → Bool → ℕ → SnapshotEncoder → List ProcessUpdate → SnapshotEncoder
  remember snapshot is_full now encoder processes = record {
    previous = some snapshot;
    last_full = if is_full then some now else encoder.last_full;
    epochs = map (λ p. (p.identity, p.maps_epoch)) processes;
    sequence = encoder.sequence + 1;
  }

  unfoldable pub finish :
      Snapshot
      → Bool
      → ℕ
      → SnapshotEncoder
      → Option (List ProcessUpdate)
      → Option (Update × SnapshotEncoder)
  unfolding output remember
  finish snapshot is_full now encoder none = none
  finish snapshot is_full now encoder (some processes) =
      some
        (output snapshot is_full encoder processes, remember snapshot is_full now encoder processes)

  -- The output, and the encoder behind it.
  unfoldable pub encode : Snapshot → Bool → ℕ → SnapshotEncoder → Option (Update × SnapshotEncoder)
  unfolding encode_processes finish
  encode snapshot force_full now encoder =
      let is_full = force_full || is_due encoder.last_full now in
      finish snapshot is_full now encoder (
        encode_processes is_full (old_processes encoder.previous) encoder.epochs snapshot.processes)
