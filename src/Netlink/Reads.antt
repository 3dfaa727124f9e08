-- ===== src/Netlink/Reads.antt =====
-- Any bytes as an attribute stream of src/privileged_helper/netlink.rs.
use procinsh.Prelude.{
  ℕ, ◌+◌, ◌*◌, ◌%◌, ◌<◌, ◌≡◌, ◌⊎◌, List, [], ◌∷◌, ◌++◌, length, drop, ok, err, ◌>>=◌,
}
use procinsh.Netlink.{Answer, short_attribute, invalid_attribute_length, attributes}

-- An attribute in front of what follows it, if that is read.
abbrev pub cons_attribute : ℕ × List ℕ → Answer (List (ℕ × List ℕ)) → Answer (List (ℕ × List ℕ))
cons_attribute a (ok found) = ok (a ∷ found)
cons_attribute a (err e) = err e

-- Padding up to a multiple of 4 bytes, which the last attribute may leave out.
abbrev pub IsPadding : List ℕ → List ℕ → List ℕ → Type 0
IsPadding payload padding rest =
    (length padding < 4) × (((4 + length payload + length padding) % 4 ≡ 0) ⊎ (rest ≡ []))

-- What a stream says, attribute by attribute to its end: each has two bytes of length, two of type, of
-- which 14 bits count, its payload and its padding. A stream that does not go on so is refused where the
-- first attribute is that has no header or a wrong length.
pub data Reads : List ℕ → Answer (List (ℕ × List ℕ)) → Type 0 where
  ended : Reads [] (ok [])
  short : {bytes : List ℕ} → 0 < length bytes → length bytes < 4 → Reads bytes (err short_attribute)
  wrong_length :
      (b₀ b₁ k₀ k₁ : ℕ) (body : List ℕ)
      → (b₀ + 256 * b₁ < 4) ⊎ (4 + length body < b₀ + 256 * b₁)
      → Reads (b₀ ∷ b₁ ∷ k₀ ∷ k₁ ∷ body) (err invalid_attribute_length)
  attribute :
      (b₀ b₁ k₀ k₁ : ℕ) (payload padding rest : List ℕ) {r : Answer (List (ℕ × List ℕ))}
      → b₀ + 256 * b₁ ≡ 4 + length payload
      → IsPadding payload padding rest
      → Reads rest r
      → Reads
          (b₀ ∷ b₁ ∷ k₀ ∷ k₁ ∷ (payload ++ (padding ++ rest)))
          (cons_attribute ((k₀ + 256 * k₁) % 16384, payload) r)

module _ (rounds b₀ b₁ k₀ k₁ : ℕ) (body : List ℕ)
    (again : (n : ℕ) → Reads (drop n body) (attributes rounds (drop n body))) where
  abbrev size : ℕ
  size = b₀ + 256 * b₁
