-- ===== src/Privacy/Texts.antt =====
-- Joining and splitting texts at NUL, for src/http_server/privacy.rs.
use procinsh.Prelude.{
  ℕ, zero, suc, ◌≡◌, ◌≢◌, refl, sym, ◌∙◌, ap, false, List, [], ◌∷◌, ◌++◌, take, drop, All,
  All-append_of, ◌==◌, arith,
}
use procinsh.Privacy.{join, follow, split}

abbrev pub NulFree : List ℕ → Type 0
NulFree bytes = All (λ (b : ℕ). b ≢ 0) bytes

split_prefix :
    (item tail : List ℕ) (items : List (List ℕ))
    → NulFree item
    → split tail ≡ [] ∷ items
    → split (item ++ tail) ≡ item ∷ items
unfolding split
split_prefix [] tail items h e = e
split_prefix (b ∷ item) tail items (nonzero, h) e =
    let other : (b == 0) ≡ false = ground arith in rw (other, split_prefix item tail items h e)

split-follow : (items : List (List ℕ)) → All NulFree items → split (follow 0 items) ≡ [] ∷ items
unfolding split
split-follow [] h = refl
split-follow (item ∷ items) (free, h) =
    ap (λ (r : List (List ℕ)). [] ∷ r)
      (split_prefix item (follow 0 items) items free (split-follow items h))

-- One item or more, without NUL, are what they are split into when they have been joined.
pub split-join :
    (item : List ℕ) (items : List (List ℕ))
    → All NulFree (item ∷ items)
    → split (join 0 (item ∷ items)) ≡ item ∷ items
unfolding join
split-join item items (free, h) =
    split_prefix item (follow 0 items) items free (split-follow items h)

-- The key of the cache tells such lists of items apart.
pub join-injective :
    (x y : List ℕ) (xs ys : List (List ℕ))
    → All NulFree (x ∷ xs)
    → All NulFree (y ∷ ys)
    → join 0 (x ∷ xs) ≡ join 0 (y ∷ ys)
    → x ∷ xs ≡ y ∷ ys
join-injective x y xs ys h k e = sym (split-join x xs h) ∙ (ap split e ∙ split-join y ys k)

NulFree-follow : (items : List (List ℕ)) → All NulFree items → NulFree (follow 32 items)
NulFree-follow [] h = tt
NulFree-follow (item ∷ items) (free, h) =
    (λ e. absurd (omega arith), All-append_of _ item _ free (NulFree-follow items h))

pub NulFree-join : (items : List (List ℕ)) → All NulFree items → NulFree (join 32 items)
unfolding join
NulFree-join [] h = tt
NulFree-join (item ∷ items) (free, h) = All-append_of _ item _ free (NulFree-follow items h)

-- A part of a text without NUL has none.
pub NulFree-take : (n : ℕ) (bytes : List ℕ) → NulFree bytes → NulFree (take n bytes)
NulFree-take zero bytes h = tt
NulFree-take (suc n) [] h = tt
NulFree-take (suc n) (b ∷ bytes) (free, h) = (free, NulFree-take n bytes h)

pub NulFree-drop : (n : ℕ) (bytes : List ℕ) → NulFree bytes → NulFree (drop n bytes)
NulFree-drop zero bytes h = h
NulFree-drop (suc n) [] h = tt
NulFree-drop (suc n) (b ∷ bytes) (free, h) = NulFree-drop n bytes h
