-- ===== src/Privacy/Scans.antt =====
-- One scan of src/http_server/privacy.rs, whether or not the cache has its result.
use procinsh.Prelude.{
  ℕ, ◌≤◌, ◌≡◌, refl, sym, ◌∙◌, ap, subst, inl, inr, Bool-cases, leb, Option-cases, some, List, [],
  ◌∷◌, length, All, map, ok, arith,
}
use procinsh.Hub.Names.{same_text, same_text_sound}
use procinsh.Privacy.{
  Privacy, Cache, cache_limit, join, split, get, remove_key, remember_masked, mask_items, scan,
}
use procinsh.Privacy.Texts.{NulFree, NulFree-join, split-join, join-injective}
use procinsh.Privacy.Redaction.{IsOrdered}
use procinsh.Privacy.Items.{Redactions, NulFree-Redactions, mask_items-Redactions}

module _ (p : Privacy) where
  -- The engine gives its hits in order and apart, and the replacement of bytes that are not UTF-8 stops
  -- at a NUL.
  pub record IsEngine : Type 0 where
    pub ordered : (text : List ℕ) → IsOrdered 0 (p.find text)
    pub lossy_split : (bytes : List ℕ) → split (p.lossy bytes) ≡ map p.lossy (split bytes)

  -- For each item there is a text, the item with each share of a hit replaced by its pseudonym.
  abbrev pub IsMasked : List (List ℕ) → List (List ℕ) → Type 0
  IsMasked items outs =
      (masked : List (List ℕ)) × Redactions p (join 32 items) (p.find (join 32 items)) 0 items
        masked
      × (outs ≡ map p.lossy masked)

  -- An entry holds the result for the items that have its key.
  abbrev IsSound : List ℕ × List ℕ → Type 0
  IsSound (key, value) =
      (item : List ℕ) (items : List (List ℕ))
      → All NulFree (item ∷ items)
      → join 0 (item ∷ items) ≡ key
      → IsMasked (item ∷ items) (split value)

  abbrev pub IsCache : Cache → Type 0
  IsCache cache = All IsSound cache × (length cache ≤ cache_limit)

  get-IsSound :
      (key value : List ℕ) (cache : Cache)
      → All IsSound cache
      → get key cache ≡ some value
      → IsSound (key, value)
  unfolding get
  get-IsSound key value [] h e = absurd (cc e)
  get-IsSound key value ((other, old) ∷ cache) (s, h) e = elim (Bool-cases (same_text other key)) [
    | inl same ↦
        let own : old ≡ value = cc (rw same at e) in
        subst (λ (v : List ℕ). IsSound (key, v)) own
          (subst (λ (k : List ℕ). IsSound (k, old)) (same_text_sound other key same) s)
    | inr apart ↦ get-IsSound key value cache h (rw apart at e)
  ]

  remove_key-All :
      (key : List ℕ) (cache : Cache)
      → All IsSound cache
      → All IsSound (remove_key key cache) × (length (remove_key key cache) ≤ length cache)
  unfolding remove_key
  remove_key-All key [] h = (tt, omega arith)
  remove_key-All key (entry ∷ cache) (s, h) =
      let (all, small) = remove_key-All key cache h in
      elim (Bool-cases (same_text entry.0 key)) [
        | inl same ↦ rw same (all, omega arith)
        | inr apart ↦ rw apart ((s, all), omega arith)
      ]

  remember_masked-IsCache :
      (key value : List ℕ) (cache : Cache)
      → IsSound (key, value)
      → IsCache cache
      → IsCache (remember_masked key value cache)
  unfolding remember_masked
  remember_masked-IsCache key value cache s (h, small) =
      elim (Bool-cases (leb cache_limit (length cache))) [
        | inl full ↦ rw full ((s, tt), omega arith)
        | inr room ↦
            let (all, less) = remove_key-All key cache h in rw room ((s, all), ground arith)
      ]

  module _ (engine : IsEngine) (item : List ℕ) (items : List (List ℕ))
      (free : All NulFree (item ∷ items)) where
    split-join_redacted :
        (text : List ℕ) (outs : List (List ℕ))
        → Redactions p text (p.find text) 0 (item ∷ items) outs
        → All NulFree outs
        → split (join 0 outs) ≡ outs
    split-join_redacted text [] r clean = absurd r
    split-join_redacted text (out ∷ outs) r clean = split-join out outs clean

    -- What the loops make, cut at each NUL.
    IsMasked-anew :
        (masked : List ℕ) × (mask_items p
            (join 32 (item ∷ items))
            (p.find (join 32 (item ∷ items)))
            0
            0
            (item ∷ items)
          ≡ ok masked)
        × IsMasked (item ∷ items) (split (p.lossy masked))
    unfolding join
    IsMasked-anew =
        let text = join 32 (item ∷ items) in
        let (outs, e, r) =
          mask_items-Redactions p text (p.find text) 0 0 (item ∷ items) (engine.ordered text)
            (omega arith) in
        let clean =
          NulFree-Redactions p text (p.find text) 0 (item ∷ items) outs
            (NulFree-join (item ∷ items) free) r in
        (
          join 0 outs,
          e,
          (
            outs,
            r,
            engine.lossy_split (join 0 outs)
                ∙ ap (map p.lossy) (split-join_redacted text outs r clean),
          ),
        )

    pub scan-IsMasked :
        (cache : Cache)
        → IsCache cache
        → (outs : List (List ℕ)) × (after : Cache) × (scan p (item ∷ items) cache
            ≡ ok (outs, after))
          × IsMasked (item ∷ items) outs
          × IsCache after
    unfolding scan
    scan-IsMasked cache (sound, small) =
        let key = join 0 (item ∷ items) in
        elim (Option-cases (get key cache)) [
          | inr (value, found) ↦ (
            split value,
            cache,
            rw (scan, found) refl,
            get-IsSound key value cache sound found item items free refl,
            (sound, small),
          )
          | inl missing ↦
              let (masked, e, made) = IsMasked-anew in
              let entry : IsSound (key, p.lossy masked) = λ other others clean same.
                subst (λ (xs : List (List ℕ)). IsMasked xs (split (p.lossy masked)))
                  (join-injective item other items others free clean (sym same)) made in
              (
                split (p.lossy masked),
                remember_masked key (p.lossy masked) cache,
                rw (scan, missing, e) refl,
                made,
                remember_masked-IsCache key (p.lossy masked) cache entry (sound, small),
              )
        ]
