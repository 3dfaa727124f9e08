-- ===== src/Privacy.antt =====
-- src/http_server/privacy.rs: masking sensitive text before a reply leaves the process. A text is its
-- bytes. The hits of logblur's engine, the digest of SHA-256 and `from_utf8_lossy` are parameters; an
-- index out of bounds, on which Rust panics, is an error. One scan runs at a time.
pub mod Texts
pub mod Redaction
pub mod Items
pub mod Scans
pub mod Scrub
pub mod Responses
use Prim.Native.Nat.{max}
use procinsh.Prelude.{
  ℕ, zero, suc, ◌+◌, ◌-◌, ◌/◌, ◌%◌, min, Bool, true, false, ◌&&◌, ltb, leb, ◌==◌, if◌then◌else◌,
  Option, none, some, List, [], ◌∷◌, ◌++◌, length, take, drop, Result, ok, err, ◌>>=◌,
}
use procinsh.Hub.Names.{same_text}

pub record Found : Type 0 where
  pub start : ℕ
  pub end : ℕ

-- `find` is that of the engine, and `digest` hashes the key followed by the value.
pub record Privacy : Type 0 where
  pub key : List ℕ
  pub find : List ℕ → List Found
  pub digest : List ℕ → List ℕ
  pub lossy : List ℕ → List ℕ

pub data Panic : Type 0 where
  out_of_bounds : Panic

abbrev pub cache_limit : ℕ
cache_limit = 200000

-- A digit of `{b:02x}`, and the UTF-8 of the shade character.
abbrev pub hex_digit : ℕ → ℕ
hex_digit d = if ltb d 10 then 48 + d else 87 + d

abbrev pub hex : List ℕ → List ℕ
hex [] = []
hex (b ∷ bytes) = hex_digit (b / 16) ∷ hex_digit (b % 16) ∷ hex bytes

abbrev pub shade : List ℕ
shade = 226 ∷ 150 ∷ 145 ∷ []

unfoldable pub pseudonym : Privacy → List ℕ → List ℕ
pseudonym p value = shade ++ (hex (take 4 (p.digest (p.key ++ value))) ++ shade)

-- `items.join`, for a separator of one byte; `follow` is what stands behind the first item.
abbrev pub follow : ℕ → List (List ℕ) → List ℕ
follow separator [] = []
follow separator (item ∷ items) = separator ∷ (item ++ follow separator items)

unfoldable pub join : ℕ → List (List ℕ) → List ℕ
join separator [] = []
join separator (item ∷ items) = item ++ follow separator items

abbrev pub cons_first : ℕ → List (List ℕ) → List (List ℕ)
cons_first b [] = (b ∷ []) ∷ []
cons_first b (part ∷ parts) = (b ∷ part) ∷ parts

-- `split('\0')`.
unfoldable pub split : List ℕ → List (List ℕ)
split [] = [] ∷ []
split (b ∷ bytes) = let rest = split bytes in if b == 0 then [] ∷ rest else cons_first b rest

-- `&bytes[from..to]`.
unfoldable pub slice : ℕ → ℕ → List ℕ → Result Panic (List ℕ)
slice from to bytes =
    if leb from to && leb to (length bytes)
    then ok (take (to - from) (drop from bytes))
    else err out_of_bounds

-- The hits that the loop over an item's hits keeps.
unfoldable pub overlapping : ℕ → ℕ → List Found → List Found
overlapping start end [] = []
overlapping start end (hit ∷ hits) =
    let rest = overlapping start end hits in
    if ltb hit.start end && ltb start hit.end then hit ∷ rest else rest

-- That loop, and the rest of the item behind it.
unfoldable pub mask_hits : Privacy → List ℕ → ℕ → ℕ → List Found → ℕ → Result Panic (List ℕ)
unfolding slice pseudonym
mask_hits p bytes start end [] done = slice done end bytes
mask_hits p bytes start end (hit ∷ hits) done = do
  let from = max hit.start start
  let to = min hit.end end
  clear ← slice done from bytes
  secret ← slice from to bytes
  rest ← mask_hits p bytes start end hits to
  ok (clear ++ (pseudonym p secret ++ rest))

abbrev pub separator : ℕ → List ℕ
separator zero = []
separator (suc index) = 0 ∷ []

-- The items from `index` on, which start at `start`.
unfoldable pub mask_items :
    Privacy → List ℕ → List Found → ℕ → ℕ → List (List ℕ) → Result Panic (List ℕ)
unfolding mask_hits overlapping
mask_items p bytes found index start [] = ok []
mask_items p bytes found index start (item ∷ items) = do
  let end = start + length item
  masked ← mask_hits p bytes start end (overlapping start end found) start
  rest ← mask_items p bytes found (suc index) (end + 1) items
  ok (separator index ++ (masked ++ rest))

abbrev pub Cache : Type 0
Cache = List (List ℕ × List ℕ)

unfoldable pub get : List ℕ → Cache → Option (List ℕ)
unfolding same_text
get key [] = none
get key (entry ∷ cache) =
    let rest = get key cache in if same_text entry.0 key then some entry.1 else rest

unfoldable pub remove_key : List ℕ → Cache → Cache
unfolding same_text
remove_key key [] = []
remove_key key (entry ∷ cache) =
    let rest = remove_key key cache in if same_text entry.0 key then rest else entry ∷ rest

-- `cache.clear()` at the limit, and `cache.insert`.
unfoldable pub remember_masked : List ℕ → List ℕ → Cache → Cache
unfolding remove_key
remember_masked key masked cache =
    let room = if leb cache_limit (length cache) then [] else cache in
    (key, masked) ∷ remove_key key room

unfoldable pub scan : Privacy → List (List ℕ) → Cache → Result Panic (List (List ℕ) × Cache)
unfolding join split mask_items get remember_masked
scan p items cache =
    let key = join 0 items in
    elim (get key cache) [
      | some masked ↦ ok (split masked, cache)
      | none ↦ do
        let text = join 32 items
        masked ← mask_items p text (p.find text) 0 0 items
        let masked = p.lossy masked
        ok (split masked, remember_masked key masked cache)
    ]
