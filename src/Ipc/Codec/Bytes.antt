-- ===== src/Ipc/Codec/Bytes.antt =====
-- The native byte representation of a number: `to_ne_bytes` and `from_ne_bytes`.
use procinsh.Prelude.{
  ℕ, zero, suc, ◌+◌, ◌*◌, ◌^◌, ◌/◌, ◌<◌, ◌≡◌, refl, ap, List, [], ◌∷◌, arith, length, All,
}
use procinsh.Ipc.Codec.{to_ne_bytes, from_ne_bytes}
use native.Mathlib.Nat.{pow-suc}

abbrev pub IsByte : ℕ → Type 0
IsByte b = b < 256

pub length-to_ne_bytes : (size value : ℕ) → length (to_ne_bytes size value) ≡ size
unfolding to_ne_bytes
length-to_ne_bytes zero value = refl
length-to_ne_bytes (suc size) value = ap suc (length-to_ne_bytes size (value / 256))

pub to_ne_bytes-IsByte : (size value : ℕ) → All IsByte (to_ne_bytes size value)
unfolding to_ne_bytes
to_ne_bytes-IsByte zero value = tt
to_ne_bytes-IsByte (suc size) value = (omega arith, to_ne_bytes-IsByte size (value / 256))

pow_step : (size : ℕ) → 256 ^ suc size ≡ 256 * 256 ^ size
pow_step size = omega (arith, pow-suc 256 size)

pub from_ne_bytes-to_ne_bytes :
    (size value : ℕ) → value < 256 ^ size → from_ne_bytes (to_ne_bytes size value) ≡ value
unfolding to_ne_bytes from_ne_bytes
from_ne_bytes-to_ne_bytes zero value h = omega arith
from_ne_bytes-to_ne_bytes (suc size) value h =
    omega (arith, from_ne_bytes-to_ne_bytes size (value / 256) (omega (arith, pow_step size)))

pub from_ne_bytes_lt :
    (bytes : List ℕ) → All IsByte bytes → from_ne_bytes bytes < 256 ^ length bytes
unfolding from_ne_bytes
from_ne_bytes_lt [] h = omega arith
from_ne_bytes_lt (b ∷ bytes) (hb, h) =
    omega (arith, from_ne_bytes_lt bytes h, pow_step (length bytes))

pub to_ne_bytes-from_ne_bytes :
    (bytes : List ℕ) → All IsByte bytes → to_ne_bytes (length bytes) (from_ne_bytes bytes) ≡ bytes
unfolding to_ne_bytes from_ne_bytes
to_ne_bytes-from_ne_bytes [] h = refl
to_ne_bytes-from_ne_bytes (b ∷ bytes) (hb, h) =
    ground (arith, to_ne_bytes-from_ne_bytes bytes h, quotient b (from_ne_bytes bytes) hb)
  where
    quotient : (b n : ℕ) → b < 256 → (b + 256 * n) / 256 ≡ n
    quotient b n hb = omega arith
