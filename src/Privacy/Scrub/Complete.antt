-- ===== src/Privacy/Scrub/Complete.antt =====
-- That `scrub` of src/http_server/privacy.rs reaches every string of a reply and leaves all else.
use procinsh.Prelude.{
  ℕ, ◌≡◌, refl, subst, inl, inr, true, false, Bool-cases, ltb, Option, List, [], ◌∷◌, length,
  Result, ok, ◌>>=◌, arith,
}
use procinsh.Ipc.Codec.Addresses.{IpAddr}
use procinsh.Privacy.{Privacy, Panic, Cache, pseudonym, scan}
use procinsh.Privacy.Texts.{NulFree}
use procinsh.Privacy.Scans.{IsEngine, IsMasked, IsCache, scan-IsMasked}
use procinsh.Privacy.Scrub.{
  Value, null, boolean, number, string, array, object, Values, no_values, value, Fields, no_fields,
  field, is_whole, is_whole_field, count, as_texts, put_texts, scrub_text, is_scanned, scrub,
  scrub_values, scrub_fields,
}
use procinsh.Privacy.Scrub.Replacement.{
  IsNulFree, AreNulFree, FieldsNulFree, strings, IsHidden, IsScrubbed, null_kept, boolean_kept,
  number_kept, empty_kept, hides, together, each, fields, AreScrubbed, no_more, more,
  FieldsScrubbed, no_more_fields, more_fields, length-IsMasked, count-strings, only,
  put_texts-strings, strings-as_texts, NulFree-as_texts,
}

module _ (p : Privacy) (parse : List ℕ → Option IpAddr) (engine : IsEngine p) where
  -- A step that ends without a panic, with a result of some kind and a cache that is sound.
  abbrev pub Succeeds : {A : Type 0} → (A → Type 0) → Result Panic (A × Cache) → Type 0
  Succeeds {A} P r = (a : A) × (after : Cache) × (r ≡ ok (a, after)) × P a × IsCache p after

  scrub_text-Succeeds :
      (name : Option (List ℕ)) (text : List ℕ) (cache : Cache)
      → NulFree text
      → IsCache p cache
      → Succeeds
          (λ out. IsScrubbed p parse name (string text) (string out))
          (scrub_text p parse name text cache)
  unfolding scrub_text
  scrub_text-Succeeds name [] cache free sound = ([], cache, refl, empty_kept, sound)
  scrub_text-Succeeds name (b ∷ text) cache free sound =
      elim (Bool-cases (is_whole parse name (b ∷ text))) [
        | inl whole ↦
            let hidden : IsHidden p parse name (b ∷ text) (pseudonym p (b ∷ text)) =
              (λ e. refl, λ e. absurd (cc (whole, e))) in
            (
              pseudonym p (b ∷ text),
              cache,
              rw whole refl,
              hides (b ∷ text) (pseudonym p (b ∷ text)) hidden,
              sound,
            )
        | inr part ↦
            let (outs, after, e, m, good) =
              scan-IsMasked p engine (b ∷ text) [] (free, tt) cache sound in
            let (out, one) = only outs (length-IsMasked p ((b ∷ text) ∷ []) outs m) in
            let single = subst (IsMasked p ((b ∷ text) ∷ [])) one m in
            let hidden : IsHidden p parse name (b ∷ text) out =
              (λ f. absurd (cc (part, f)), λ f. single) in
            (out, after, rw (part, e, one) refl, hides (b ∷ text) out hidden, good)
      ]

  together-Succeeds :
      (name : Option (List ℕ)) (texts : List (List ℕ)) (cache : Cache)
      → AreNulFree (strings texts)
      → ltb 1 (length texts) ≡ true
      → is_whole_field name ≡ false
      → IsCache p cache
      → Succeeds (IsScrubbed p parse name (array (strings texts))) (do
        (masked, cache) ← scan p texts cache
        ok (array (put_texts (strings texts) masked), cache))
  together-Succeeds name [] cache free long part sound = absurd (ground arith)
  together-Succeeds name (text ∷ texts) cache free long part sound =
      let (outs, after, e, m, good) =
        scan-IsMasked p engine text texts (NulFree-as_texts (text ∷ texts) free) cache sound in
      let same = put_texts-strings (text ∷ texts) outs (length-IsMasked p (text ∷ texts) outs m) in
      (array (strings outs), after, rw (e, same) refl, together (text ∷ texts) outs part m, good)

  -- The array as the code has it.
  scanned-Succeeds :
      (name : Option (List ℕ)) (vs : Values) (cache : Cache)
      → AreNulFree vs
      → is_scanned name vs ≡ true
      → IsCache p cache
      → Succeeds
          (IsScrubbed p parse name (array vs))
          (do (masked, cache) ← scan p (as_texts vs) cache; ok (array (put_texts vs masked), cache))
  scanned-Succeeds name vs cache free scanned sound =
      let texts = as_texts vs in
      let same = strings-as_texts vs (ground arith) in
      let long : ltb 1 (count vs) ≡ true = ground arith in
      let part : is_whole_field name ≡ false = ground arith in
      subst
        (λ (us : Values).
          Succeeds (IsScrubbed p parse name (array us))
            (do (masked, cache) ← scan p texts cache; ok (array (put_texts us masked), cache)))
        same
        (together-Succeeds name texts cache (rw same free) (rw (← count-strings texts, same) long)
          part sound)

  mutual
    unfolding scrub scrub_text IsNulFree

    scrub-Succeeds :
        (name : Option (List ℕ)) (v : Value) (cache : Cache)
        → IsNulFree v
        → IsCache p cache
        → Succeeds (IsScrubbed p parse name v) (scrub p parse name v cache)
    scrub-Succeeds name null cache h sound = (null, cache, refl, null_kept, sound)
    scrub-Succeeds name (boolean b) cache h sound = (boolean b, cache, refl, boolean_kept b, sound)
    scrub-Succeeds name (number text) cache h sound =
        (number text, cache, refl, number_kept text, sound)
    scrub-Succeeds name (string text) cache h sound =
        let (out, after, e, done, good) = scrub_text-Succeeds name text cache h sound in
        (string out, after, rw e refl, done, good)
    scrub-Succeeds name (array vs) cache h sound =
        let (ws, after, e, done, good) = scrub_values-Succeeds name vs cache h sound in
        elim (Bool-cases (is_scanned name vs)) [
          | inr apart ↦ (array ws, after, rw (apart, e) refl, each done, good)
          | inl scanned ↦ rw scanned (scanned-Succeeds name vs cache h scanned sound)
        ]
    scrub-Succeeds name (object fs) cache h sound =
        let (gs, after, e, done, good) = scrub_fields-Succeeds fs cache h sound in
        (object gs, after, rw e refl, fields done, good)

    scrub_values-Succeeds :
        (name : Option (List ℕ)) (vs : Values) (cache : Cache)
        → AreNulFree vs
        → IsCache p cache
        → Succeeds (AreScrubbed p parse name vs) (scrub_values p parse name vs cache)
    scrub_values-Succeeds name no_values cache h sound = (no_values, cache, refl, no_more, sound)
    scrub_values-Succeeds name (value v vs) cache (h, k) sound =
        let (w, mid, e, done, good) = scrub-Succeeds name v cache h sound in
        let (ws, after, f, rest, fine) = scrub_values-Succeeds name vs mid k good in
        (value w ws, after, rw (e, f) refl, more done rest, fine)

    scrub_fields-Succeeds :
        (fs : Fields) (cache : Cache)
        → FieldsNulFree fs
        → IsCache p cache
        → Succeeds (FieldsScrubbed p parse fs) (scrub_fields p parse fs cache)
    scrub_fields-Succeeds no_fields cache h sound = (no_fields, cache, refl, no_more_fields, sound)
    scrub_fields-Succeeds (field name v fs) cache (h, k) sound =
        let (w, mid, e, done, good) = scrub-Succeeds (Option.some name) v cache h sound in
        let (gs, after, f, rest, fine) = scrub_fields-Succeeds fs mid k good in
        (field name w gs, after, rw (e, f) refl, more_fields name done rest, fine)

  -- Scrubbing a value whose strings have no NUL ends without a panic, with a sound cache. The result is
  -- the value with each string that is not empty replaced: by its pseudonym in an identifying field, and
  -- else by its part of a scan.
  pub scrub-IsScrubbed :
      (name : Option (List ℕ)) (v : Value) (cache : Cache)
      → IsNulFree v
      → IsCache p cache
      → Succeeds (IsScrubbed p parse name v) (scrub p parse name v cache)
  scrub-IsScrubbed name v cache h sound = scrub-Succeeds name v cache h sound
