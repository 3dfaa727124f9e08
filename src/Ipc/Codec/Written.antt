-- ===== src/Ipc/Codec/Written.antt =====
-- src/ipc/codec.rs: two values that are written alike, as parts of values that are then written alike.
use procinsh.Prelude.{suc, ◌≡◌, refl, ap, some, List, [], ◌∷◌, map, length, ◌>>=◌}
use procinsh.Ipc.Codec.{write_number, write_length}
use procinsh.Ipc.Codec.Wire.{Wire, IsWrittenAs}
use procinsh.Ipc.Codec.Combine.{◌⊗◌}
use procinsh.Ipc.Codec.Lists.{vec, write_items}
use procinsh.Ipc.Codec.Choices.{option}

module _ {A B : Type 0} (v : Wire A) (w : Wire B) where
  pub pair-first : (a b : A) (c : B) → IsWrittenAs v a b → IsWrittenAs (v ⊗ w) (a, c) (b, c)
  unfolding ◌⊗◌
  pair-first a b c h = λ i output. h i output >>= w.write c

  pub pair-second : (a : A) (b c : B) → IsWrittenAs w b c → IsWrittenAs (v ⊗ w) (a, b) (a, c)
  unfolding ◌⊗◌
  pair-second a b c h = λ i output. v.write a output >>= h i

module _ {A : Type 0} (w : Wire A) where
  pub option-some : (a b : A) → IsWrittenAs w a b → IsWrittenAs (option w) (some a) (some b)
  unfolding option
  option-some a b h = λ i output. write_number 1 1 output >>= h i

  module _ (f : A → A) (f_written : (a : A) → IsWrittenAs w a (f a)) where
    items-map : (xs : List A) → write_items w xs ≡ write_items w (map f xs)
    unfolding write_items
    items-map [] = refl
    items-map (x ∷ xs) = λ i output. f_written x i output >>= items-map xs i

    length-map : (xs : List A) → length xs ≡ length (map f xs)
    length-map [] = refl
    length-map (x ∷ xs) = ap suc (length-map xs)

    pub vec-map : (xs : List A) → IsWrittenAs (vec w) xs (map f xs)
    unfolding vec
    vec-map xs = λ i output. write_length (length-map xs i) output >>= items-map xs i
