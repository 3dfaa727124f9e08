-- ===== src/Ipc/Codec/Wire/Correct.antt =====
-- What `encode` and `decode` of src/ipc/codec.rs promise, for every type on the wire.
use procinsh.Prelude.{
  ℕ, suc, ◌+◌, ◌≤◌, ◌≡◌, ◌≢◌, refl, sym, ap, ◌∙◌, List, [], ◌∷◌, ◌++◌, min, leb, arith, All, length,
  length-append, if◌then◌else◌, Result, ok, err, bind-HasRun, le→leb, All-append, ok-injective,
}
use procinsh.Ipc.Codec.{CodecError, u32_max, limit_exceeded, trailing_bytes, append}
use procinsh.Ipc.Codec.Bytes.{IsByte}
use procinsh.Ipc.Codec.Laws.{on}
use procinsh.Ipc.Codec.Wire.{Wire, encode, decode, is_empty}
use mathlib.Core.List.{append-nil}

module _ {A : Type 0} (w : Wire A) where
  -- `encode` yields the code of a representable value if that fits the caller's limit and a u32,
  -- and `limit_exceeded` otherwise: nothing is cut short.
  pub encode-exact :
      (a : A) (limit : ℕ)
      → w.IsRepresentable a
      → encode w a limit ≡ (
          if leb (length (w.code a)) (min limit u32_max) then ok (w.code a) else err limit_exceeded)
  unfolding encode append
  encode-exact a limit r =
      rw (w.write-code a (record { bytes = []; limit = min limit u32_max }) r (omega arith))
        (ground arith)

  encode-eq-code :
      (a : A) (limit : ℕ) (bytes : List ℕ)
      → w.IsRepresentable a
      → encode w a limit ≡ ok bytes
      → (bytes ≡ w.code a) × (length (w.code a) ≤ min limit u32_max)
  encode-eq-code a limit bytes r e = ground (arith, encode-exact a limit r)

  pub decode-code :
      (a : A) → w.IsRepresentable a → length (w.code a) ≤ u32_max → decode w (w.code a) ≡ ok a
  unfolding decode
  decode-code a r h =
      let whole = w.read-code a [] r h in
      let exact : w.read (on (w.code a)) ≡ ok (a, on []) = rw append-nil at whole in rw exact

  -- A representable value that `encode` accepts under any limit is read back by `decode`.
  pub decode-encode :
      (a : A) (limit : ℕ) (bytes : List ℕ)
      → w.IsRepresentable a
      → encode w a limit ≡ ok bytes
      → decode w bytes ≡ ok a
  decode-encode a limit bytes r e =
      let (same, fits) = encode-eq-code a limit bytes r e in rw same (decode-code a r (omega arith))

  nothing_left :
      (xs : List ℕ) (a b : A)
      → ◌≡◌ {A = Result CodecError A} (if is_empty xs then ok a else err trailing_bytes) (ok b)
      → (xs ≡ []) × (a ≡ b)
  unfolding is_empty
  nothing_left [] a b h = (refl, ok-injective h)
  nothing_left (x ∷ xs) a b h = cc

  pub decode-eq-code :
      (bytes : List ℕ) (a : A)
      → All IsByte bytes
      → decode w bytes ≡ ok a
      → w.IsRepresentable a × (bytes ≡ w.code a)
  unfolding decode
  decode-eq-code bytes a h e =
      let (p, e₁, e₂) = bind-HasRun (w.read (on bytes)) _ e in
      let (a', rest) = p in
      let (r, whole) = w.read_sound bytes a' rest h e₁ in
      let (empty, same) = nothing_left rest.bytes a' a e₂ in
      (rw (← same) r, rw (whole, empty) (append-nil (w.code a') ∙ ap w.code same))

  -- The format is canonical: whatever bytes `decode` accepts, its result is representable, and
  -- `encode` yields those very bytes under every limit that they fit.
  pub encode-decode :
      (bytes : List ℕ) (a : A) (limit : ℕ)
      → All IsByte bytes
      → decode w bytes ≡ ok a
      → length bytes ≤ min limit u32_max
      → w.IsRepresentable a × (encode w a limit ≡ ok bytes)
  encode-decode bytes a limit h e fits =
      let (r, same) = decode-eq-code bytes a h e in
      (r, rw (encode-exact a limit r, ← same, le→leb (length bytes) (min limit u32_max) fits))

  -- No proper prefix of an encoded value is a value: a frame that was cut short is refused.
  pub decode_truncated :
      (a b : A) (limit : ℕ) (front back : List ℕ) (x : ℕ)
      → w.IsRepresentable a
      → All IsByte (front ++ (x ∷ back))
      → encode w a limit ≡ ok (front ++ (x ∷ back))
      → decode w front ≢ ok b
  decode_truncated a b limit front back x r bytes e d =
      let (whole, fits) = encode-eq-code a limit (front ++ (x ∷ back)) r e in
      let (rb, same) = decode-eq-code front b (All-append IsByte front (x ∷ back) bytes).0 d in
      let split : front ++ (x ∷ back) ≡ w.code b ++ (x ∷ back) = rw same in
      let long = length-append (w.code b) (x ∷ back) in
      let lens : length (w.code a) ≡ length (w.code b) + suc (length back) =
        ap length (sym whole ∙ split) ∙ long in
      let first = w.read-code a [] r (omega arith) in
      let second = w.read-code b (x ∷ back) rb (omega arith) in
      let same_input : w.code a ++ [] ≡ w.code b ++ (x ∷ back) =
        append-nil (w.code a) ∙ sym whole ∙ split in
      cc (first, second, same_input)
