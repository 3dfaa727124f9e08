-- ===== src/Delivery/Delta.antt =====
-- src/http_server/delivery.rs: `build_array_delta`, which lists what changed between two arrays.
use procinsh.Prelude.{
  Bool, true, false, not, ◌||◌, Option, none, some, List, [], ◌∷◌, map, if◌then◌else◌,
}
use procinsh.Delivery.{Json}

unfoldable pub filter : {A : Type 0} → (A → Bool) → List A → List A
filter keep [] = []
filter keep (x ∷ xs) = let rest = filter keep xs in if keep x then x ∷ rest else rest

-- What a later entry leaves of an earlier one.
unfoldable pub overlay : {A : Type 0} → Option A → Option A → Option A
overlay none before = before
overlay (some x) before = some x

-- `get` in a `HashMap` that was collected from an array: the last entry of a key counts.
unfoldable pub get : {K A : Type 0} → (K → K → Bool) → (A → K) → K → List A → Option A
unfolding overlay
get same key k [] = none
get same key k (x ∷ xs) = overlay (get same key k xs) (if same (key x) k then some x else none)

unfoldable pub contains : {K : Type 0} → (K → K → Bool) → K → List K → Bool
contains same k [] = false
contains same k (x ∷ xs) = same x k || contains same k xs

module _ (J : Json) where
  -- The object with the fields "upsert" and "remove".
  pub record ArrayDelta : Type 0 where
    pub upsert : List J.Value
    pub remove : List J.Key

  abbrev pub is_new : (J.Value → J.Key) → List J.Value → J.Value → Bool
  is_new key old v = elim (get J.same_key key (key v) old) [
    | none ↦ true
    | some p ↦ not (J.same_value p v)
  ]

  abbrev pub is_gone : (J.Value → J.Key) → List J.Value → J.Value → Bool
  is_gone key current v = not (contains J.same_key (key v) (map key current))

  unfoldable pub build_array_delta :
      (J.Value → J.Key) → List J.Value → List J.Value → Option ArrayDelta
  unfolding filter get contains
  build_array_delta key old current =
      let upsert = filter (is_new key old) current in
      let remove = map key (filter (is_gone key current) old) in
      if J.is_shorter upsert remove current
      then some (record { upsert = upsert; remove = remove })
      else none

  -- What a `Map` of the client holds that was filled from an array.
  abbrev pub Entries : Type 0
  Entries = J.Key → Option J.Value

  unfoldable pub entries : (J.Value → J.Key) → List J.Value → Entries
  unfolding get
  entries key values = λ k. get J.same_key key k values

  -- web/src/space/snapshot-merge.ts: the keys to remove are deleted, then the other entries are set.
  unfoldable pub apply_array_delta : (J.Value → J.Key) → ArrayDelta → Entries → Entries
  unfolding overlay get contains
  apply_array_delta key delta before = λ k.
      overlay (get J.same_key key k delta.upsert)
        (if contains J.same_key k delta.remove then none else before k)
