-- ===== src/Prelude/Int.antt =====
-- Signed machine integers: the integers, and the two's complement pattern of `w` bits.
use procinsh.Prelude.{ℕ, suc, ◌-◌, ◌*◌, ◌<◌, ◌≡◌, arith, ltb, if◌then◌else◌}

-- `negsuc n` is -(n + 1).
pub data ℤ : Type 0 where
  pos : ℕ → ℤ
  negsuc : ℕ → ℤ

-- The values of a signed type whose half range is `half`: from -half to half - 1.
abbrev pub IsSigned : ℕ → ℤ → Type 0
IsSigned half (pos n) = n < half
IsSigned half (negsuc n) = n < half

unfoldable pub to_pattern : ℕ → ℤ → ℕ
to_pattern half (pos n) = n
to_pattern half (negsuc n) = 2 * half - suc n

unfoldable pub of_pattern : ℕ → ℕ → ℤ
of_pattern half b = if ltb b half then pos b else negsuc (2 * half - suc b)

pub of_pattern-to_pattern :
    (half : ℕ) (z : ℤ) → IsSigned half z → of_pattern half (to_pattern half z) ≡ z
unfolding of_pattern to_pattern
of_pattern-to_pattern half (pos n) h = ground arith
of_pattern-to_pattern half (negsuc n) h = ground arith

pub to_pattern_lt : (half : ℕ) (z : ℤ) → IsSigned half z → to_pattern half z < 2 * half
unfolding to_pattern
to_pattern_lt half (pos n) h = omega arith
to_pattern_lt half (negsuc n) h = omega arith

pub to_pattern-of_pattern :
    (half b : ℕ)
    → b < 2 * half
    → IsSigned half (of_pattern half b) × (to_pattern half (of_pattern half b) ≡ b)
unfolding of_pattern to_pattern
to_pattern-of_pattern half b h = ground arith
