-- ===== src/Hub/Identity.antt =====
-- src/http_server/hosts/identity.rs: what a hub keeps of an agent's identity in privacy mode.
use procinsh.Prelude.{
  ℕ, zero, suc, ◌+◌, ◌/◌, ◌%◌, ◌≤◌, ◌<◌, ◌≡◌, refl, ap, inl, inr, Bool-cases, true, false, ◌&&◌,
  ltb, leb, ◌==◌, Option, none, some, List, [], ◌∷◌, ◌++◌, length, take, All, arith,
}
use procinsh.Helper.Serve.{codes}
use procinsh.Hub.Names.{HostInfo, valid_host_name, all_bytes, is_label_byte, same_text}
use procinsh.Privacy.{Privacy, pseudonym, hex, hex_digit, shade}

-- `replace('░', "")`, over the UTF-8 of the shade character.
unfoldable pub remove_shade : List ℕ → List ℕ
remove_shade [] = []
remove_shade (a ∷ []) = a ∷ []
remove_shade (a ∷ b ∷ []) = a ∷ b ∷ []
remove_shade (a ∷ b ∷ c ∷ bytes) = elim ((a == 226) && (b == 150) && (c == 145)) [
  | true ↦ remove_shade bytes
  | false ↦ a ∷ remove_shade (b ∷ c ∷ bytes)
]

unfoldable pub mask_identity : (List ℕ → List ℕ) → HostInfo → HostInfo
unfolding remove_shade
mask_identity mask info = record info {
  name = codes "host-" ++ remove_shade (mask info.name);
  machine_id = remove_shade (mask info.machine_id);
}

-- `privacy_enabled` is whether there is a `Privacy`.
unfoldable pub protect_remote : Option Privacy → HostInfo → HostInfo
unfolding mask_identity pseudonym
protect_remote none info = info
protect_remote (some p) info = mask_identity (pseudonym p) info

-- Bytes of ASCII in front of a shade, from which the shade is removed.
remove_shade-append : (xs : List ℕ) → All (λ (b : ℕ). b < 128) xs → remove_shade (xs ++ shade) ≡ xs
unfolding remove_shade
remove_shade-append [] h = refl
remove_shade-append (a ∷ []) (low, h) =
    let other : (a == 226) ≡ false = ground arith in rw (remove_shade, other) refl
remove_shade-append (a ∷ b ∷ []) (low, h) =
    let other : (a == 226) ≡ false = ground arith in
    rw (remove_shade, other) (ap (λ (r : List ℕ). a ∷ r) (remove_shade-append (b ∷ []) h))
remove_shade-append (a ∷ b ∷ c ∷ xs) (low, h) =
    let other : (a == 226) ≡ false = ground arith in
    rw (remove_shade, other) (ap (λ (r : List ℕ). a ∷ r) (remove_shade-append (b ∷ c ∷ xs) h))

IsHex : ℕ → Type 0
IsHex b = (b < 128) × (is_label_byte b ≡ true)

hex_digit-IsHex : (d : ℕ) → d < 16 → IsHex (hex_digit d)
unfolding IsHex is_label_byte
hex_digit-IsHex d h = elim (Bool-cases (ltb d 10)) [
  | inl low ↦ rw low (omega arith, ground arith)
  | inr high ↦ rw high (omega arith, ground arith)
]

hex-IsHex : (bytes : List ℕ) → All (λ (b : ℕ). b < 256) bytes → All IsHex (hex bytes)
hex-IsHex [] h = tt
hex-IsHex (b ∷ bytes) (low, h) = (
  hex_digit-IsHex (b / 16) (omega arith),
  (hex_digit-IsHex (b % 16) (omega arith), hex-IsHex bytes h),
)

low_of : (xs : List ℕ) → All IsHex xs → All (λ (b : ℕ). b < 128) xs
unfolding IsHex
low_of [] h = tt
low_of (x ∷ xs) (p, h) = (p.0, low_of xs h)

labels_of : (xs : List ℕ) → All IsHex xs → all_bytes is_label_byte xs ≡ true
unfolding IsHex all_bytes
labels_of [] h = refl
labels_of (x ∷ xs) (p, h) = rw (p.1, labels_of xs h) refl

remove_shade-pseudonym :
    (p : Privacy) (value : List ℕ)
    → All (λ (b : ℕ). b < 256) (take 4 (p.digest (p.key ++ value)))
    → remove_shade (pseudonym p value) ≡ hex (take 4 (p.digest (p.key ++ value)))
unfolding remove_shade pseudonym
remove_shade-pseudonym p value h =
    let digits = hex (take 4 (p.digest (p.key ++ value))) in
    remove_shade-append digits (low_of digits (hex-IsHex (take 4 (p.digest (p.key ++ value))) h))

-- "host-" and some digits of a pseudonym.
prefixed-IsValid :
    (digits : List ℕ)
    → All IsHex digits
    → length digits ≤ 58
    → valid_host_name (codes "host-" ++ digits) ≡ true
unfolding valid_host_name all_bytes is_label_byte same_text
prefixed-IsValid digits h short =
    let fits : leb (length (codes "host-" ++ digits)) 63 ≡ true = ground arith in
    let filled : leb 1 (length (codes "host-" ++ digits)) ≡ true = ground arith in
    rw (valid_host_name, filled, fits, labels_of digits h) refl

length-hex : (bytes : List ℕ) → length (hex bytes) ≡ length bytes + length bytes
length-hex [] = omega arith
length-hex (b ∷ bytes) = omega (arith, length-hex bytes)

length-take_le : {A : Type 0} (n : ℕ) (xs : List A) → length (take n xs) ≤ n
length-take_le zero xs = omega arith
length-take_le (suc n) [] = omega arith
length-take_le (suc n) (x ∷ xs) = omega (arith, length-take_le n xs)

-- In privacy mode an agent gets a name that a host may have, whatever it calls itself, when the digest
-- is made of bytes.
pub protect_remote_valid :
    (p : Privacy) (info : HostInfo)
    → ((text : List ℕ) → All (λ (b : ℕ). b < 256) (take 4 (p.digest text)))
    → valid_host_name (protect_remote (some p) info).name ≡ true
unfolding protect_remote mask_identity
protect_remote_valid p info bytes =
    let digest = take 4 (p.digest (p.key ++ info.name)) in
    let size = length-hex digest in
    let few = length-take_le 4 (p.digest (p.key ++ info.name)) in
    rw (remove_shade-pseudonym p info.name (bytes (p.key ++ info.name))) (
      prefixed-IsValid (hex digest) (hex-IsHex digest (bytes (p.key ++ info.name)))
        (omega (arith, size, few)))
