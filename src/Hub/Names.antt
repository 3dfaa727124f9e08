-- ===== src/Hub/Names.antt =====
-- src/http_server/hosts/identity.rs: what a host says of itself, and which names it may have. A string
-- is its bytes.
use procinsh.Prelude.{
  ℕ, ◌≡◌, refl, inl, inr, Bool, true, false, ◌&&◌, ◌||◌, not, Option, List, [], ◌∷◌, leb, ◌==◌,
  length, Bool-cases, arith,
}

pub record HostInfo : Type 0 where
  pub name : List ℕ
  pub machine_id : List ℕ
  pub version : List ℕ
  pub kernel : Option (List ℕ)
  pub arch : List ℕ

-- `==` of strings.
unfoldable pub same_text : List ℕ → List ℕ → Bool
same_text [] [] = true
same_text [] (y ∷ ys) = false
same_text (x ∷ xs) [] = false
same_text (x ∷ xs) (y ∷ ys) = (x == y) && same_text xs ys

pub same_text_sound : (xs ys : List ℕ) → same_text xs ys ≡ true → xs ≡ ys
unfolding same_text
same_text_sound [] [] e = refl
same_text_sound [] (y ∷ ys) e = absurd (cc e)
same_text_sound (x ∷ xs) [] e = absurd (cc e)
same_text_sound (x ∷ xs) (y ∷ ys) e = elim (Bool-cases (x == y)) [
  | inl same ↦
      let tails = same_text_sound xs ys (rw same at e) in
      let heads : x ≡ y = ground arith in cc (heads, tails)
  | inr other ↦ absurd (cc (rw other at e))
]

pub same_text_refl : (xs : List ℕ) → same_text xs xs ≡ true
unfolding same_text
same_text_refl [] = refl
same_text_refl (x ∷ xs) =
    let same : (x == x) ≡ true = ground arith in rw (same, same_text_refl xs) refl

abbrev between : ℕ → ℕ → ℕ → Bool
between low high b = leb low b && leb b high

-- ASCII letters and digits, `.`, `_` and `-`.
unfoldable pub is_label_byte : ℕ → Bool
is_label_byte b =
    between 48 57 b || between 65 90 b || between 97 122 b || (b == 46) || (b == 95) || (b == 45)

unfoldable pub all_bytes : (ℕ → Bool) → List ℕ → Bool
all_bytes test [] = true
all_bytes test (b ∷ bytes) = test b && all_bytes test bytes

-- `ALL_HOSTS`, the name of the merged view: "all".
abbrev pub all_hosts : List ℕ
all_hosts = 97 ∷ 108 ∷ 108 ∷ []

unfoldable pub valid_host_name : List ℕ → Bool
unfolding all_bytes is_label_byte same_text
valid_host_name name =
    between 1 63 (length name) && all_bytes is_label_byte name && not (same_text name all_hosts)
