-- ===== src/Delivery/Applied.antt =====
-- src/http_server/delivery.rs: an array delta at its receiver.
use procinsh.Prelude.{
  Bool, true, false, ◌&&◌, not, ◌≡◌, refl, subst, ap, ◌∙◌, Option, none, some, List, [], ◌∷◌, map,
  if◌then◌else◌, arith, inl, inr, Bool-cases, Option-cases,
}
use mathlib.Core.Path.{fun_ext}
use procinsh.Delivery.{Json, HasEquality}
use procinsh.Delivery.Delta.{
  filter, overlay, get, contains, ArrayDelta, is_new, is_gone, build_array_delta, entries,
  apply_array_delta,
}

abbrev pub is_some : {A : Type 0} → Option A → Bool
is_some none = false
is_some (some x) = true

abbrev pub keep : {A : Type 0} → (A → Bool) → Option A → Option A
keep p none = none
keep p (some x) = if p x then some x else none

sent_value :
    {A : Type 0} (b : Bool) {x y : A}
    → ◌≡◌ {A = Option A} (if b then some x else none) (some y)
    → x ≡ y
sent_value true e = ground arith
sent_value false e = absurd (cc e)

settled :
    {A : Type 0} (p : A → Bool) (before now : Option A)
    → ((x : A) → now ≡ some x → p x ≡ false → before ≡ some x)
    → overlay (keep p now) (if is_some before && not (is_some now) then none else before) ≡ now
unfolding overlay
settled p none none h = refl
settled p (some x) none h = refl
settled p before (some x) h = elim (Bool-cases (p x)) [
  | inl sent ↦ rw sent
  | inr kept ↦ rw (kept, h x refl kept)
]

module _ {K A : Type 0} (same : K → K → Bool) (key : A → K) where
  -- No two entries have the same key.
  abbrev pub IsDistinct : List A → Type 0
  IsDistinct [] = Unit
  IsDistinct (x ∷ xs) = (get same key (key x) xs ≡ none) × IsDistinct xs

  pub get_sound : (k : K) (xs : List A) (x : A) → get same key k xs ≡ some x → same (key x) k ≡ true
  unfolding overlay get
  get_sound k [] x e = cc e
  get_sound k (y ∷ ys) x e = elim (Option-cases (get same key k ys)) [
    | inl missing ↦ ground arith
    | inr (z, found) ↦ get_sound k ys x (ground arith)
  ]

  module _ (sound : (k l : K) → same k l ≡ true → k ≡ l) where
    differs_of_found :
        (k : K) (x : A) (xs : List A) (y : A)
        → get same key (key x) xs ≡ none
        → get same key k xs ≡ some y
        → same (key x) k ≡ false
    differs_of_found k x xs y unique found = elim (Bool-cases (same (key x) k)) [
      | inl equal ↦
          let wrong = subst (λ l. get same key l xs ≡ none) (sound (key x) k equal) unique in
          absurd (cc (wrong, found))
      | inr differs ↦ differs
    ]

    pub get-filter :
        (p : A → Bool) (k : K) (xs : List A)
        → IsDistinct xs
        → get same key k (filter p xs) ≡ keep p (get same key k xs)
    unfolding overlay get filter
    get-filter p k [] d = refl
    get-filter p k (x ∷ xs) (unique, d) =
        let rest = get-filter p k xs d in
        elim (Option-cases (get same key k xs)) [
          | inl missing ↦ elim (Bool-cases (p x)) [
            | inl kept ↦ ground arith
            | inr dropped ↦ ground arith
          ]
          | inr (y, found) ↦
              let differs = differs_of_found k x xs y unique found in
              elim (Bool-cases (p x)) [ inl kept ↦ ground arith | inr dropped ↦ ground arith ]
        ]

    pub contains-map_key :
        (k : K) (xs : List A) → contains same k (map key xs) ≡ is_some (get same key k xs)
    unfolding overlay get contains
    contains-map_key k [] = refl
    contains-map_key k (x ∷ xs) = elim (Option-cases (get same key k xs)) [
      | inl missing ↦ let rest = contains-map_key k xs in ground arith
      | inr (y, found) ↦ let rest = contains-map_key k xs in ground arith
    ]

module _ (J : Json) (h : HasEquality J) (key : J.Value → J.Key) where
  -- The key of an entry that was found is the key that was looked for.
  found_key :
      (k : J.Key) (xs : List J.Value) (x : J.Value) → get J.same_key key k xs ≡ some x → key x ≡ k
  found_key k xs x e = h.same_key_sound (key x) k (get_sound J.same_key key k xs x e)

  get-upsert :
      (k : J.Key) (old current : List J.Value)
      → IsDistinct J.same_key key current
      → get J.same_key key k (filter (is_new J key old) current)
        ≡ keep (is_new J key old) (get J.same_key key k current)
  get-upsert k old current d =
      get-filter J.same_key key h.same_key_sound (is_new J key old) k current d

  contains-filter :
      (q : J.Key → Bool) (k : J.Key) (xs : List J.Value)
      → contains J.same_key k (map key (filter (λ v. q (key v)) xs))
        ≡ (contains J.same_key k (map key xs) && q k)
  unfolding filter contains
  contains-filter q k [] = refl
  contains-filter q k (x ∷ xs) =
      let rest = contains-filter q k xs in
      elim (Bool-cases (J.same_key (key x) k)) [
        | inl equal ↦
            let same : q (key x) ≡ q k = ap q (h.same_key_sound (key x) k equal) in ground arith
        | inr differs ↦ ground arith
      ]

  -- A key is to be removed exactly when it was there and no longer is.
  contains-remove :
      (k : J.Key) (old current : List J.Value)
      → contains J.same_key k (map key (filter (is_gone J key current) old))
        ≡ (is_some (get J.same_key key k old) && not (is_some (get J.same_key key k current)))
  contains-remove k old current = rw (
    contains-filter (λ l. not (contains J.same_key l (map key current))) k old,
    contains-map_key J.same_key key h.same_key_sound k old,
    contains-map_key J.same_key key h.same_key_sound k current,
  )

  -- An entry that is not sent stands in the old array.
  unchanged_entry :
      (k : J.Key) (old current : List J.Value) (v : J.Value)
      → get J.same_key key k current ≡ some v
      → is_new J key old v ≡ false
      → get J.same_key key k old ≡ some v
  unchanged_entry k old current v found e =
      let at_k = found_key k current v found in
      elim (Option-cases (get J.same_key key (key v) old)) [
        | inl missing ↦ absurd (ground arith)
        | inr (p, before) ↦
            let same : p ≡ v = h.same_value_sound p v (ground arith) in
            subst (λ l. get J.same_key key l old ≡ some v) at_k (before ∙ ap some same)
      ]

  merged-current :
      (k : J.Key) (old current : List J.Value)
      → IsDistinct J.same_key key current
      → overlay (get J.same_key key k (filter (is_new J key old) current)) (
          if contains J.same_key k (map key (filter (is_gone J key current) old))
          then none
          else get J.same_key key k old)
        ≡ get J.same_key key k current
  merged-current k old current d =
      rw (get-upsert k old current d, contains-remove k old current)
        (settled (is_new J key old) (get J.same_key key k old) (get J.same_key key k current)
          (λ v. unchanged_entry k old current v))

  -- An array delta that is sent turns the entries of the old array into those of the current one, when
  -- no two current entries have the same key.
  pub apply_array_delta-build_array_delta :
      (old current : List J.Value) (delta : ArrayDelta J)
      → IsDistinct J.same_key key current
      → build_array_delta J key old current ≡ some delta
      → apply_array_delta J key delta (entries J key old) ≡ entries J key current
  unfolding build_array_delta apply_array_delta entries
  apply_array_delta-build_array_delta old current delta d e =
      let sent =
        sent_value
          (J.is_shorter (filter (is_new J key old) current)
            (map key (filter (is_gone J key current) old)) current)
          e in
      subst
        (λ (x : ArrayDelta J).
          apply_array_delta J key x (entries J key old) ≡ entries J key current)
        sent (fun_ext (λ k. merged-current k old current d))
