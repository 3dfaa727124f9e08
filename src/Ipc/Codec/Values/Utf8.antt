-- ===== src/Ipc/Codec/Values/Utf8.antt =====
-- Text as Rust holds it: bytes in UTF-8. `is_utf8` is the test of `std::str::from_utf8`, by the
-- table of well-formed byte sequences of the Unicode standard.
use procinsh.Prelude.{
  ℕ, zero, suc, Bool, true, false, ◌&&◌, List, [], ◌∷◌, leb, ltb, if◌then◌else◌, ◌==◌, ◌≡◌, refl,
}

pub record Text : Type 0 where
  pub bytes : List ℕ

-- What a lead byte asks for: the number of bytes that follow, and the range of the first of these.
-- The range 1 to 0 is empty and marks a byte that starts nothing.
lead : ℕ → ℕ × ℕ × ℕ
lead b =
    if ltb b 0x80
    then (0, 0, 0)
    else if ltb b 0xC2
    then (1, 1, 0)
    else if ltb b 0xE0
    then (1, 0x80, 0xBF)
    else if b == 0xE0
    then (2, 0xA0, 0xBF)
    else if b == 0xED
    then (2, 0x80, 0x9F)
    else if ltb b 0xF0
    then (2, 0x80, 0xBF)
    else if b == 0xF0
    then (3, 0x90, 0xBF)
    else if ltb b 0xF4
    then (3, 0x80, 0xBF)
    else if b == 0xF4
    then (3, 0x80, 0x8F)
    else (1, 1, 0)

-- `more` bytes of a character are still to come, the next of them between `lo` and `hi`.
utf8_from : ℕ → ℕ → ℕ → List ℕ → Bool
unfolding lead
utf8_from zero lo hi [] = true
utf8_from (suc more) lo hi [] = false
utf8_from zero lo hi (b ∷ bytes) = let (more, lo', hi') = lead b in utf8_from more lo' hi' bytes
utf8_from (suc more) lo hi (b ∷ bytes) = (leb lo b && leb b hi) && utf8_from more 0x80 0xBF bytes

unfoldable pub is_utf8 : List ℕ → Bool
unfolding utf8_from
is_utf8 bytes = utf8_from 0 0 0 bytes

-- "日本" and a lone continuation byte.
is_utf8_examples :
    (is_utf8 (0xE6 ∷ 0x97 ∷ 0xA5 ∷ 0xE6 ∷ 0x9C ∷ 0xAC ∷ []) ≡ true)
    × (is_utf8 (0x41 ∷ 0x80 ∷ []) ≡ false)
    × (is_utf8 (0xED ∷ 0xA0 ∷ 0x80 ∷ []) ≡ false)
unfolding is_utf8
is_utf8_examples = (refl, refl, refl)
