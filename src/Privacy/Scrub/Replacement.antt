-- ===== src/Privacy/Scrub/Replacement.antt =====
-- What a JSON value is replaced by when src/http_server/privacy.rs scrubs it.
use procinsh.Prelude.{
  ℕ, suc, ◌+◌, ◌≡◌, refl, ◌∙◌, ap, Bool, true, false, Option, List, [], ◌∷◌, length, All, map,
  arith,
}
use procinsh.Ipc.Codec.Addresses.{IpAddr}
use procinsh.Privacy.{Privacy, join, pseudonym}
use procinsh.Privacy.Texts.{NulFree}
use procinsh.Privacy.Items.{Redactions}
use procinsh.Privacy.Scans.{IsMasked}
use procinsh.Privacy.Scrub.{
  Value, null, boolean, number, string, array, object, Values, no_values, value, Fields, no_fields,
  field, is_whole, is_whole_field, count, all_strings, as_texts, put_texts,
}

unfoldable mutual
  pub IsNulFree : Value → Type 0
  IsNulFree (string text) = NulFree text
  IsNulFree (array vs) = AreNulFree vs
  IsNulFree (object fs) = FieldsNulFree fs
  IsNulFree _ = Unit

  pub AreNulFree : Values → Type 0
  AreNulFree no_values = Unit
  AreNulFree (value v vs) = IsNulFree v × AreNulFree vs

  pub FieldsNulFree : Fields → Type 0
  FieldsNulFree no_fields = Unit
  FieldsNulFree (field name v fs) = IsNulFree v × FieldsNulFree fs

abbrev pub strings : List (List ℕ) → Values
strings [] = no_values
strings (text ∷ texts) = value (string text) (strings texts)

module _ (p : Privacy) (parse : List ℕ → Option IpAddr) where
  -- What becomes of the text of a field that is not empty: the pseudonym of an identifying one, and else
  -- the scan of it alone.
  abbrev pub IsHidden : Option (List ℕ) → List ℕ → List ℕ → Type 0
  IsHidden name text out =
      (is_whole parse name text ≡ true → out ≡ pseudonym p text)
      × (is_whole parse name text ≡ false → IsMasked p (text ∷ []) (out ∷ []))

  -- A value and what it is replaced by: the same but for its strings, and no string is left out.
  mutual
    pub data IsScrubbed : Option (List ℕ) → Value → Value → Type 0 where
      null_kept : {name : Option (List ℕ)} → IsScrubbed name null null
      boolean_kept : {name : Option (List ℕ)} (b : Bool) → IsScrubbed name (boolean b) (boolean b)
      number_kept :
          {name : Option (List ℕ)} (text : List ℕ) → IsScrubbed name (number text) (number text)
      empty_kept : {name : Option (List ℕ)} → IsScrubbed name (string []) (string [])
      hides :
          {name : Option (List ℕ)} (text out : List ℕ)
          → IsHidden name text out
          → IsScrubbed name (string text) (string out)
      together :
          {name : Option (List ℕ)} (texts outs : List (List ℕ))
          → is_whole_field name ≡ false
          → IsMasked p texts outs
          → IsScrubbed name (array (strings texts)) (array (strings outs))
      each :
          {name : Option (List ℕ)} {vs ws : Values}
          → AreScrubbed name vs ws
          → IsScrubbed name (array vs) (array ws)
      fields :
          {name : Option (List ℕ)} {fs gs : Fields}
          → FieldsScrubbed fs gs
          → IsScrubbed name (object fs) (object gs)

    pub data AreScrubbed : Option (List ℕ) → Values → Values → Type 0 where
      no_more : {name : Option (List ℕ)} → AreScrubbed name no_values no_values
      more :
          {name : Option (List ℕ)} {v w : Value} {vs ws : Values}
          → IsScrubbed name v w
          → AreScrubbed name vs ws
          → AreScrubbed name (value v vs) (value w ws)

    pub data FieldsScrubbed : Fields → Fields → Type 0 where
      no_more_fields : FieldsScrubbed no_fields no_fields
      more_fields :
          {v w : Value} {fs gs : Fields} (name : List ℕ)
          → IsScrubbed (Option.some name) v w
          → FieldsScrubbed fs gs
          → FieldsScrubbed (field name v fs) (field name w gs)

length-map-Redactions :
    (p : Privacy) (text : List ℕ) (start : ℕ) (items masked : List (List ℕ))
    → Redactions p text (p.find text) start items masked
    → length (map p.lossy masked) ≡ length items
length-map-Redactions p text start [] [] r = refl
length-map-Redactions p text start [] (out ∷ outs) r = absurd r
length-map-Redactions p text start (item ∷ items) [] r = absurd r
length-map-Redactions p text start (item ∷ items) (out ∷ outs) (r, s) =
    ap suc (length-map-Redactions p text (start + length item + 1) items outs s)

pub length-IsMasked :
    (p : Privacy) (items outs : List (List ℕ)) → IsMasked p items outs → length outs ≡ length items
length-IsMasked p items outs (masked, r, e) =
    ap length e ∙ length-map-Redactions p (join 32 items) 0 items masked r

pub count-strings : (texts : List (List ℕ)) → count (strings texts) ≡ length texts
count-strings [] = refl
count-strings (text ∷ texts) = ap suc (count-strings texts)

pub only : (outs : List (List ℕ)) → length outs ≡ 1 → (out : List ℕ) × (outs ≡ out ∷ [])
only [] e = absurd (omega (arith, e))
only (out ∷ []) e = (out, refl)
only (out ∷ other ∷ outs) e = absurd (omega (arith, e))

pub put_texts-strings :
    (texts outs : List (List ℕ))
    → length outs ≡ length texts
    → put_texts (strings texts) outs ≡ strings outs
unfolding put_texts
put_texts-strings [] [] e = refl
put_texts-strings [] (out ∷ outs) e = absurd (omega (arith, e))
put_texts-strings (text ∷ texts) [] e = absurd (omega (arith, e))
put_texts-strings (text ∷ texts) (out ∷ outs) e =
    ap (value (string out)) (put_texts-strings texts outs (omega (arith, e)))

pub strings-as_texts : (vs : Values) → all_strings vs ≡ true → strings (as_texts vs) ≡ vs
unfolding all_strings as_texts
strings-as_texts no_values e = refl
strings-as_texts (value (string text) vs) e = ap (value (string text)) (strings-as_texts vs e)
strings-as_texts (value null vs) e = absurd (cc e)
strings-as_texts (value (boolean b) vs) e = absurd (cc e)
strings-as_texts (value (number text) vs) e = absurd (cc e)
strings-as_texts (value (array ws) vs) e = absurd (cc e)
strings-as_texts (value (object fs) vs) e = absurd (cc e)

pub NulFree-as_texts : (texts : List (List ℕ)) → AreNulFree (strings texts) → All NulFree texts
unfolding AreNulFree
NulFree-as_texts [] h = tt
NulFree-as_texts (text ∷ texts) (free, h) = (free, NulFree-as_texts texts h)
