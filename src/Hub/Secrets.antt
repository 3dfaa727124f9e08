-- ===== src/Hub/Secrets.antt =====
-- src/http_server/hosts/wire.rs: `same_secret`, which compares tokens without an early exit.
use Prim.Native.Nat.{bit_or, bit_xor, digits, differ, max, bit_or-bitwise, bit_xor-bitwise}
use procinsh.Prelude.{
  ℕ, zero, suc, ◌/◌, ◌%◌, ◌≤◌, ◌≡◌, refl, sym, ◌∙◌, ap, Bool, true, ◌&&◌, ◌==◌, List, [], ◌∷◌,
  length, arith,
}
use mathlib.Core.Logic.{◌↔◌}

-- `expected.iter().zip(actual).fold(0u8, |difference, (a, b)| difference | (a ^ b))`.
unfoldable pub differences : ℕ → List ℕ → List ℕ → ℕ
differences difference [] actual = difference
differences difference (a ∷ expected) [] = difference
differences difference (a ∷ expected) (b ∷ actual) =
    differences (bit_or difference (bit_xor a b)) expected actual

unfoldable pub same_secret : List ℕ → List ℕ → Bool
unfolding differences
same_secret expected actual =
    (length expected == length actual) && (differences 0 expected actual == 0)

differ-zero : (x y : ℕ) → differ x y ≡ 0 → x ≡ y
differ-zero zero y e = sym e
differ-zero (suc x) zero e = absurd (omega (arith, e))
differ-zero (suc x) (suc y) e = ap suc (differ-zero x y e)

differ_self : (x : ℕ) → differ x x ≡ 0
differ_self zero = refl
differ_self (suc x) = differ_self x

or_digits-zero : (n a b : ℕ) → a ≤ n → digits (λ b. b) max n a b ≡ 0 → (a ≡ 0) × (b ≡ 0)
or_digits-zero zero zero b h e = (refl, e)
or_digits-zero zero (suc a) b h e = absurd (omega arith)
or_digits-zero (suc n) zero b h e = (refl, e)
or_digits-zero (suc n) (suc a) b h e =
    let (low, high) = or_digits-zero n (suc a / 2) (b / 2) (omega arith) (omega (arith, e)) in
    absurd (omega (arith, e, low))

xor_digits-zero : (n a b : ℕ) → a ≤ n → digits (λ b. b) differ n a b ≡ 0 → a ≡ b
xor_digits-zero zero zero b h e = sym e
xor_digits-zero zero (suc a) b h e = absurd (omega arith)
xor_digits-zero (suc n) zero b h e = sym e
xor_digits-zero (suc n) (suc a) b h e =
    let high = xor_digits-zero n (suc a / 2) (b / 2) (omega arith) (omega (arith, e)) in
    let low = differ-zero (suc a % 2) (b % 2) (omega (arith, e)) in omega (arith, high, low)

xor_digits_self : (n a : ℕ) → a ≤ n → digits (λ b. b) differ n a a ≡ 0
xor_digits_self zero zero h = refl
xor_digits_self zero (suc a) h = absurd (omega arith)
xor_digits_self (suc n) zero h = refl
xor_digits_self (suc n) (suc a) h =
    let high = xor_digits_self n (suc a / 2) (omega arith) in
    omega (arith, high, differ_self (suc a % 2))

bit_or-zero : (a b : ℕ) → bit_or a b ≡ 0 → (a ≡ 0) × (b ≡ 0)
bit_or-zero a b e = or_digits-zero a a b (omega arith) (sym (bit_or-bitwise a b) ∙ e)

bit_xor-zero : (a b : ℕ) → bit_xor a b ≡ 0 → a ≡ b
bit_xor-zero a b e = xor_digits-zero a a b (omega arith) (sym (bit_xor-bitwise a b) ∙ e)

bit_xor_self : (a : ℕ) → bit_xor a a ≡ 0
bit_xor_self a = bit_xor-bitwise a a ∙ xor_digits_self a a (omega arith)

differences_sound :
    (d : ℕ) (xs ys : List ℕ) → length xs ≡ length ys → differences d xs ys ≡ 0 → (d ≡ 0) × (xs ≡ ys)
unfolding differences
differences_sound d [] [] e z = (z, refl)
differences_sound d [] (y ∷ ys) e z = absurd (omega (arith, e))
differences_sound d (x ∷ xs) [] e z = absurd (omega (arith, e))
differences_sound d (x ∷ xs) (y ∷ ys) e z =
    let (here, rest) = differences_sound (bit_or d (bit_xor x y)) xs ys (omega (arith, e)) z in
    let (before, same) = bit_or-zero d (bit_xor x y) here in
    let head = bit_xor-zero x y same in (before, cc (head, rest))

differences_self : (xs : List ℕ) → differences 0 xs xs ≡ 0
unfolding differences
differences_self [] = refl
differences_self (x ∷ xs) = rw (bit_xor_self x) (differences_self xs)

-- The comparison holds exactly for the same bytes.
pub same_secret_iff :
    (expected actual : List ℕ) → (same_secret expected actual ≡ true) ↔ (expected ≡ actual)
unfolding same_secret
same_secret_iff expected actual = (
  λ e. (differences_sound 0 expected actual (ground arith) (ground arith)).1,
  λ e. rw (← e) (ground (arith, differences_self expected)),
)
