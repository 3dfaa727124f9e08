-- ===== src/Privacy/Scrub.antt =====
-- src/http_server/privacy.rs: `scrub`, over the JSON value of a reply. Parsing an IP address is a
-- parameter; a number is its printed text.
pub mod Replacement
pub mod Complete
use procinsh.Prelude.{
  ℕ, suc, Bool, true, false, ◌&&◌, ◌||◌, not, ltb, if◌then◌else◌, Option, none, some, List, [], ◌∷◌,
  length, Result, ok, err, ◌>>=◌,
}
use procinsh.Helper.Serve.{codes}
use procinsh.Hub.Correlate.{is_loopback, is_unspecified}
use procinsh.Hub.Names.{same_text}
use procinsh.Ipc.Codec.Addresses.{IpAddr}
use procinsh.Privacy.{Privacy, Panic, out_of_bounds, Cache, pseudonym, scan}

mutual
  pub data Value : Type 0 where
    null : Value
    boolean : Bool → Value
    number string : List ℕ → Value
    array : Values → Value
    object : Fields → Value

  pub data Values : Type 0 where
    no_values : Values
    value : Value → Values → Values

  pub data Fields : Type 0 where
    no_fields : Fields
    field : List ℕ → Value → Fields → Fields

abbrev pub contains_text : List ℕ → List (List ℕ) → Bool
contains_text text [] = false
contains_text text (other ∷ others) = same_text other text || contains_text text others

abbrev pub whole_fields : List (List ℕ)
whole_fields =
    codes "remote_hostname" ∷ codes "gid" ∷ codes "remote_gid" ∷ codes "uuid" ∷ codes "serial" ∷ []

unfoldable pub is_whole_field : Option (List ℕ) → Bool
unfolding same_text
is_whole_field none = false
is_whole_field (some name) = contains_text name whole_fields

-- Whether the text of the field is replaced whole.
unfoldable pub is_whole : (List ℕ → Option IpAddr) → Option (List ℕ) → List ℕ → Bool
unfolding is_whole_field is_loopback is_unspecified same_text
is_whole parse none text = false
is_whole parse (some name) text =
    if same_text name (codes "ip")
    then elim (parse text) [
      | none ↦ false
      | some ip ↦ not (is_loopback ip) && not (is_unspecified ip)
    ]
    else is_whole_field (some name)

-- `items.len()`, `all(Value::is_string)`, the texts, and the texts written back by `zip`.
abbrev pub count : Values → ℕ
count no_values = 0
count (value v vs) = suc (count vs)

unfoldable pub all_strings : Values → Bool
all_strings no_values = true
all_strings (value (string text) vs) = all_strings vs
all_strings (value _ vs) = false

unfoldable pub as_texts : Values → List (List ℕ)
as_texts no_values = []
as_texts (value (string text) vs) = text ∷ as_texts vs
as_texts (value _ vs) = as_texts vs

unfoldable pub put_texts : Values → List (List ℕ) → Values
put_texts no_values texts = no_values
put_texts (value v vs) [] = value v vs
put_texts (value v vs) (text ∷ texts) = value (string text) (put_texts vs texts)

abbrev pub remove_first : List (List ℕ) → Result Panic (List ℕ)
remove_first [] = err out_of_bounds
remove_first (text ∷ texts) = ok text

-- Whether the strings of an array are scanned together.
abbrev pub is_scanned : Option (List ℕ) → Values → Bool
is_scanned name vs = ltb 1 (count vs) && not (is_whole_field name) && all_strings vs

module _ (p : Privacy) (parse : List ℕ → Option IpAddr) where
  unfoldable pub scrub_text : Option (List ℕ) → List ℕ → Cache → Result Panic (List ℕ × Cache)
  unfolding is_whole pseudonym scan
  scrub_text name [] cache = ok ([], cache)
  scrub_text name (b ∷ text) cache =
      let scanned = (do
        (masked, cache) ← scan p ((b ∷ text) ∷ []) cache
        first ← remove_first masked
        ok (first, cache)) in
      if is_whole parse name (b ∷ text) then ok (pseudonym p (b ∷ text), cache) else scanned

  unfoldable mutual
    unfolding scrub_text is_whole_field all_strings as_texts put_texts scan

    pub scrub : Option (List ℕ) → Value → Cache → Result Panic (Value × Cache)
    scrub name null cache = ok (null, cache)
    scrub name (boolean b) cache = ok (boolean b, cache)
    scrub name (number text) cache = ok (number text, cache)
    scrub name (string text) cache = do
      (masked, cache) ← scrub_text name text cache
      ok (string masked, cache)
    scrub name (array vs) cache =
        let together = (do
          (masked, cache) ← scan p (as_texts vs) cache
          ok (array (put_texts vs masked), cache)) in
        let each = (do (ws, cache) ← scrub_values name vs cache; ok (array ws, cache)) in
        if is_scanned name vs then together else each
    scrub name (object fs) cache = do (gs, cache) ← scrub_fields fs cache; ok (object gs, cache)

    pub scrub_values : Option (List ℕ) → Values → Cache → Result Panic (Values × Cache)
    scrub_values name no_values cache = ok (no_values, cache)
    scrub_values name (value v vs) cache = do
      (w, cache) ← scrub name v cache
      (ws, cache) ← scrub_values name vs cache
      ok (value w ws, cache)

    pub scrub_fields : Fields → Cache → Result Panic (Fields × Cache)
    scrub_fields no_fields cache = ok (no_fields, cache)
    scrub_fields (field name v fs) cache = do
      (w, cache) ← scrub (some name) v cache
      (gs, cache) ← scrub_fields fs cache
      ok (field name w gs, cache)
