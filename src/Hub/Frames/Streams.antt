-- ===== src/Hub/Frames/Streams.antt =====
-- A message of src/http_server/hosts/wire.rs that one side writes and the other reads.
use procinsh.Prelude.{
  ℕ, zero, suc, ◌+◌, ◌-◌, ◌^◌, ◌%◌, ◌≤◌, ◌<◌, ◌≡◌, refl, ap, subst, ◌∙◌, inl, inr, Bool, true,
  false, leb, ltb, if◌then◌else◌, length, take, some, List, [], ◌∷◌, ◌++◌, Result, ok, err, ◌>>=◌,
  Bool-cases, Option-cases, length-append, take-length_append, drop-length_append, bind-HasRun,
  ok-injective, arith,
}
use mathlib.Core.List.{append_assoc}
use procinsh.Hub.Frames.{
  Formats, IsFaithful, WireError, too_large, invalid_json, or_fail, max_frame_bytes, compress_above,
  gzipped, read_u32, write_u32, read_u8, read_exact, encode_host_message, decode_host_message,
  read_host_message, write_host_message,
}

take-short : (n : ℕ) (xs : List ℕ) → length xs ≤ n → take n xs ≡ xs
take-short zero [] h = refl
take-short (suc n) [] h = refl
take-short zero (x ∷ xs) h = absurd (omega arith)
take-short (suc n) (x ∷ xs) h = ap (λ t. x ∷ t) (take-short n xs (omega arith))

length-take_long : (n : ℕ) (xs : List ℕ) → n ≤ length xs → length (take n xs) ≡ n
length-take_long zero xs h = refl
length-take_long (suc n) [] h = absurd (omega arith)
length-take_long (suc n) (x ∷ xs) h = ap suc (length-take_long n xs (omega arith))

-- A decoder that stops one byte above a limit sees whether the limit is kept.
leb-length-take : (n : ℕ) (xs : List ℕ) → leb (length (take (n + 1) xs)) n ≡ leb (length xs) n
leb-length-take n xs = elim (Bool-cases (leb (length xs) n)) [
  | inl fits ↦ let whole = take-short (n + 1) xs (ground arith) in rw whole
  | inr long ↦
      let cut = length-take_long (n + 1) xs (ground arith) in
      let over : leb (length (take (n + 1) xs)) n ≡ false = ground (arith, cut) in rw (over, long)
]

take-within : (n : ℕ) (xs : List ℕ) → leb (length xs) n ≡ true → take (n + 1) xs ≡ xs
take-within n xs fits = take-short (n + 1) xs (ground arith)

read_u32-write_u32 :
    (n : ℕ) (rest : List ℕ) → n < 2 ^ 32 → read_u32 (write_u32 n ++ rest) ≡ ok (n, rest)
unfolding read_u32 write_u32
read_u32-write_u32 n rest h = ap (λ (k : ℕ). ok (k, rest)) (omega arith)

read_exact-append :
    (xs rest : List ℕ) (n : ℕ) → n ≡ length xs → read_exact n (xs ++ rest) ≡ ok (xs, rest)
unfolding read_exact
read_exact-append xs rest n e =
    let fits : leb (length xs) (length (xs ++ rest)) ≡ true =
      ground (arith, length-append xs rest) in
    rw (e, fits, take-length_append xs rest, drop-length_append xs rest)

with_rest :
    {M : Type 0} (m : Result WireError M) (rest : List ℕ) (fits : Bool)
    → ◌>>=◌ {B = M × List ℕ} (if fits then m else err too_large) (λ a. ok (a, rest))
      ≡ (if fits then (do a ← m; ok (a, rest)) else err too_large)
with_rest m rest true = refl
with_rest m rest false = refl

module _ {M : Type 0} (F : Formats M) where
  -- A frame whose payload is within the limit is decoded, and what follows it is left.
  read_frame :
      (encoding : ℕ) (payload rest : List ℕ)
      → 1 ≤ length payload
      → length payload < max_frame_bytes
      → read_host_message F
          ((write_u32 (length payload % 2 ^ 32 + 1) ++ (encoding ∷ payload)) ++ rest)
        ≡ (do m ← decode_host_message F encoding payload; ok (m, rest))
  unfolding read_host_message read_u8
  read_frame encoding payload rest low high =
      let size : length payload % 2 ^ 32 + 1 ≡ length payload + 1 = omega arith in
      let header =
        read_u32-write_u32 (length payload % 2 ^ 32 + 1) (encoding ∷ (payload ++ rest))
          (omega arith) in
      let enough : leb 2 (length payload % 2 ^ 32 + 1) ≡ true = ground (arith, size) in
      let fits : leb (length payload % 2 ^ 32 + 1) max_frame_bytes ≡ true = ground (arith, size) in
      let exact = read_exact-append payload rest (length payload % 2 ^ 32 + 1 - 1) (omega arith) in
      rw (
        append_assoc (write_u32 (length payload % 2 ^ 32 + 1)) (encoding ∷ payload) rest,
        header,
        enough,
        fits,
        exact,
      )

  module _ (h : IsFaithful F) (m : M) (json : List ℕ) (as_json : F.to_json m ≡ some json) where
    -- What serde_json makes of the JSON that the message was printed as.
    abbrev pub parsed : Result WireError M
    parsed = or_fail invalid_json (F.from_json json)

    -- What the other side makes of the message.
    abbrev understood : Result WireError M
    understood = if leb (length json) max_frame_bytes then parsed else err too_large

    Encodes : ℕ × List ℕ → Type 0
    Encodes (encoding, payload) =
        (1 ≤ length payload) × (decode_host_message F encoding payload ≡ understood)

    gunzip_short :
        (packed : List ℕ)
        → F.gzip json ≡ some packed
        → decode_host_message F gzipped packed ≡ understood
    unfolding decode_host_message
    gunzip_short packed e =
        let back = h.gzip_back json packed (max_frame_bytes + 1) e in
        let same = leb-length-take max_frame_bytes json in
        elim (Bool-cases (leb (length json) max_frame_bytes)) [
          | inl fits ↦ rw (back, same, fits, take-within max_frame_bytes json fits)
          | inr long ↦ rw (back, same, long)
        ]

    encode-Encodes : (encoded : ℕ × List ℕ) → encode_host_message F m ≡ ok encoded → Encodes encoded
    unfolding Encodes encode_host_message decode_host_message
    encode-Encodes encoded e =
        let sent = rw as_json at e in
        elim (Bool-cases (leb (length json) compress_above)) [
          | inl small ↦
              let fits : leb (length json) max_frame_bytes ≡ true = ground arith in
              subst Encodes (ok-injective (rw small at sent))
                (h.json_pos m json as_json, rw fits refl)
          | inr large ↦ elim (Option-cases (F.gzip json)) [
            | inl missing ↦ absurd (cc (rw (large, missing) at sent))
            | inr (packed, found) ↦
                subst Encodes (ok-injective (rw (large, found) at sent))
                  (h.gzip_pos json packed found, gunzip_short packed found)
          ]
        ]

    framed :
        (encoded : ℕ × List ℕ) (bytes rest : List ℕ)
        → Encodes encoded
        → (if ltb (length encoded.1) max_frame_bytes
            then ok (write_u32 (length encoded.1 % 2 ^ 32 + 1) ++ (encoded.0 ∷ encoded.1))
            else err too_large)
          ≡ ok bytes
        → read_host_message F (bytes ++ rest) ≡ (do m ← understood; ok (m, rest))
    unfolding Encodes
    framed (encoding, payload) bytes rest (low, back) e =
        elim (Bool-cases (ltb (length payload) max_frame_bytes)) [
          | inl fits ↦
              let sent = ok-injective (rw fits at e) in
              rw (← sent) (read_frame encoding payload rest low (ground arith) ∙ rw back)
          | inr long ↦ absurd (cc (rw long at e))
        ]

    -- From any stream that starts with the frame of a message, the other side gets exactly the JSON that
    -- the message was printed as, returns what serde_json parses from it, and leaves what follows, when
    -- that JSON is within the limit of a frame; when it is above, and only its compressed form is within,
    -- the message is written and the other side refuses it. A gzip decoder gives back what was
    -- compressed, and neither JSON nor gzip is empty.
    pub read_host_message-write_host_message :
        (bytes rest : List ℕ)
        → write_host_message F m ≡ ok bytes
        → read_host_message F (bytes ++ rest) ≡ (
            if leb (length json) max_frame_bytes
            then (do a ← parsed; ok (a, rest))
            else err too_large)
    unfolding write_host_message
    read_host_message-write_host_message bytes rest e =
        let (encoded, first, second) = bind-HasRun (encode_host_message F m) _ e in
        framed encoded bytes rest (encode-Encodes encoded first) second
        ∙ with_rest parsed rest (leb (length json) max_frame_bytes)
