-- ===== src/Netlink/Attributes.antt =====
-- The attribute streams of src/privileged_helper/netlink.rs, as the kernel lays them out.
use procinsh.Prelude.{
  ℕ, zero, suc, ◌+◌, ◌-◌, ◌*◌, ◌/◌, ◌%◌, ◌≤◌, ◌<◌, ◌≡◌, refl, sym, ◌∙◌, ap, true, false, List, [],
  ◌∷◌, ◌++◌, leb, ltb, length, take, drop, ok, ◌>>=◌, All, length-append, take-length_append,
  drop-length_append, arith,
}
use mathlib.Core.List.{append_assoc}
use procinsh.Ipc.Codec.{from_ne_bytes, to_ne_bytes}
use procinsh.Netlink.{align, attributes, parse_netlink_attributes}

abbrev pub zeros : ℕ → List ℕ
zeros zero = []
zeros (suc n) = 0 ∷ zeros n

pub length-zeros : (n : ℕ) → length (zeros n) ≡ n
length-zeros zero = refl
length-zeros (suc n) = ap suc (length-zeros n)

-- `padded n bytes`: `bytes`, whose length is `n`, filled up to the alignment.
abbrev pub attribute_code : ℕ × List ℕ → List ℕ
attribute_code (kind, payload) =
    to_ne_bytes 2 (4 + length payload)
    ++ (to_ne_bytes 2 kind
        ++ (payload ++ zeros (align (4 + length payload) - (4 + length payload))))

unfoldable pub attributes_code : List (ℕ × List ℕ) → List ℕ
unfolding to_ne_bytes
attributes_code [] = []
attributes_code (a ∷ more) = attribute_code a ++ attributes_code more

-- What fits into an attribute: 14 bits of type, and a length of 16 bits.
abbrev pub IsAttribute : ℕ × List ℕ → Type 0
IsAttribute (kind, payload) = (kind < 16384) × (4 + length payload < 65536)

module _ {A : Type 0} where
  pub take_prefix : (n : ℕ) (xs ys : List A) → n ≡ length xs → take n (xs ++ ys) ≡ xs
  take_prefix n xs ys e = rw e (take-length_append xs ys)

  pub drop_prefix : (n : ℕ) (xs ys : List A) → n ≡ length xs → drop n (xs ++ ys) ≡ ys
  drop_prefix n xs ys e = rw e (drop-length_append xs ys)

length-attribute_code : (a : ℕ × List ℕ) → length (attribute_code a) ≡ align (4 + length a.1)
unfolding to_ne_bytes
length-attribute_code (kind, payload) = omega (
  arith,
  length-append payload (zeros (align (4 + length payload) - (4 + length payload))),
  length-zeros (align (4 + length payload) - (4 + length payload)),
)

-- One round of the loop, at an attribute whose length fits.
pub attributes-header :
    (rounds b₀ b₁ k₀ k₁ size kind : ℕ) (body : List ℕ)
    → b₀ + 256 * (b₁ + 256 * 0) ≡ size
    → (k₀ + 256 * (k₁ + 256 * 0)) % 16384 ≡ kind
    → 4 ≤ size
    → size ≤ 4 + length body
    → attributes (suc rounds) (b₀ ∷ b₁ ∷ k₀ ∷ k₁ ∷ body) ≡ (do
      more ← attributes rounds (drop (align size) (b₀ ∷ b₁ ∷ k₀ ∷ k₁ ∷ body))
      ok ((kind, take (size - 4) body) ∷ more))
unfolding attributes from_ne_bytes
attributes-header rounds b₀ b₁ k₀ k₁ size kind body es ek low high =
    let long : ltb (suc (suc (suc (suc (length body))))) 4 ≡ false = ground arith in
    let above : leb 4 size ≡ true = ground arith in
    let below : leb size (suc (suc (suc (suc (length body))))) ≡ true = ground arith in
    rw (es, ek, long, above, below) refl

attributes-attribute_code :
    (rounds : ℕ) (a : ℕ × List ℕ) (tail : List ℕ)
    → IsAttribute a
    → attributes (suc rounds) (attribute_code a ++ tail)
      ≡ (do more ← attributes rounds tail; ok (a ∷ more))
unfolding to_ne_bytes
attributes-attribute_code rounds (kind, payload) tail (hk, hs) =
    let size = 4 + length payload in
    let padding = zeros (align size - size) in
    let body = (payload ++ padding) ++ tail in
    let skip : drop (align size) (attribute_code (kind, payload) ++ tail) ≡ tail =
      drop_prefix (align size) (attribute_code (kind, payload)) tail
        (sym (length-attribute_code (kind, payload))) in
    let keep : take (size - 4) body ≡ payload =
      rw (append_assoc payload padding tail)
        (take_prefix (size - 4) payload (padding ++ tail) (omega arith)) in
    let fits = length-append (payload ++ padding) tail in
    let inner = length-append payload padding in
    attributes-header rounds (size % 256) (size / 256 % 256) (kind % 256) (kind / 256 % 256) size
      kind body (omega arith) (omega arith) (omega arith) (omega (arith, fits, inner))
    ∙ rw (skip, keep) refl

attributes-attributes_code :
    (rounds : ℕ) (sent : List (ℕ × List ℕ))
    → length sent < rounds
    → All IsAttribute sent
    → attributes rounds (attributes_code sent) ≡ ok sent
unfolding attributes_code attributes
attributes-attributes_code zero sent h all = absurd (omega arith)
attributes-attributes_code (suc rounds) [] h all = refl
attributes-attributes_code (suc rounds) (a ∷ sent) h (p, all) =
    attributes-attribute_code rounds a (attributes_code sent) p
    ∙ rw (attributes-attributes_code rounds sent (omega arith) all) refl

length-attributes_code_le : (sent : List (ℕ × List ℕ)) → length sent ≤ length (attributes_code sent)
unfolding attributes_code
length-attributes_code_le [] = omega arith
length-attributes_code_le (a ∷ sent) =
    let more = length-attributes_code_le sent in
    omega (arith, length-append (attribute_code a) (attributes_code sent), length-attribute_code a)

-- The attributes that the kernel lays out, with padding, are the attributes that are parsed, when their
-- types have 14 bits and their lengths 16.
pub parse_netlink_attributes-attributes_code :
    (sent : List (ℕ × List ℕ))
    → All IsAttribute sent
    → parse_netlink_attributes (attributes_code sent) ≡ ok sent
unfolding parse_netlink_attributes
parse_netlink_attributes-attributes_code sent all =
    attributes-attributes_code (suc (length (attributes_code sent))) sent
      (omega (arith, length-attributes_code_le sent)) all
