-- ===== src/Ipc/Transport/Frames.antt =====
-- Frames of src/ipc/transport.rs: what `send` writes is what `read_timeout` reads, under every schedule
-- of the two sockets that lets the loops end.
use procinsh.Prelude.{
  ℕ, ◌+◌, ◌≤◌, ◌<◌, min, ◌≡◌, sym, ap, ◌∙◌, ◌⊎◌, inl, inr, true, false, ◌&&◌, List, [], ◌++◌, arith,
  leb, ltb, All, All-append, length, if◌then◌else◌, Bool-cases, le→leb, Result, ok, err,
  bind-HasRun,
}
use procinsh.Ipc.Codec.{CodecError, u32_max, limit_exceeded, to_ne_bytes, from_ne_bytes}
use procinsh.Ipc.Codec.Bytes.{
  IsByte, length-to_ne_bytes, from_ne_bytes-to_ne_bytes, to_ne_bytes-from_ne_bytes,
}
use procinsh.Ipc.Codec.Laws.{blob_code}
use procinsh.Ipc.Codec.Wire.{Wire, IsWrittenAs, encode, decode}
use procinsh.Ipc.Codec.Wire.Correct.{encode-exact, decode-code, decode-eq-code}
use procinsh.Ipc.Transport.{
  Turn, Io, codec, invalid_frame_length, read_until, lift, send, read_timeout,
}
use procinsh.Ipc.Transport.Loops.{read_until_sound}
use procinsh.Ipc.Transport.Schedules.{
  IsPrompt, moves, Leaves, read_until-fragments, write_until-fragments,
}
use mathlib.Core.List.{append_assoc, append-nil}

header-roundtrip : (n : ℕ) → n ≤ u32_max → from_ne_bytes (to_ne_bytes 4 n) ≡ n
header-roundtrip n h = from_ne_bytes-to_ne_bytes 4 n (omega arith)

size_accepted : (n limit : ℕ) → 1 ≤ n → n ≤ limit → (ltb 0 n && leb n limit) ≡ true
size_accepted n limit h k = ground arith

size_refused : (n limit : ℕ) → (n ≡ 0) ⊎ (limit < n) → (ltb 0 n && leb n limit) ≡ false
size_refused n limit bad = ground arith

accepted :
    {B : Type 0} (n limit : ℕ) (m : Io B) (b : B)
    → (if ltb 0 n && leb n limit then m else err invalid_frame_length) ≡ ok b
    → (n ≤ limit) × (m ≡ ok b)
accepted n limit m b h = elim (Bool-cases (ltb 0 n && leb n limit)) [
  | inl fits ↦ (within n limit fits, rw fits at h)
  | inr bad ↦ let wrong : err invalid_frame_length ≡ ok b = rw bad at h in cc wrong
]
  where
    within : (n limit : ℕ) → (ltb 0 n && leb n limit) ≡ true → n ≤ limit
    within n limit t = ground arith

lift-ok : {B : Type 0} (m : Result CodecError B) (b : B) → lift m ≡ ok b → m ≡ ok b
lift-ok (ok x) b h = cc h
lift-ok (err e) b h = cc h

-- Two values that are written alike are sent alike.
pub send-IsWrittenAs :
    {A : Type 0} (w : Wire A) (a b : A) (limit deadline : ℕ) (turns : List Turn) (sent : List ℕ)
    → IsWrittenAs w a b
    → send w a limit deadline turns sent ≡ send w b limit deadline turns sent
unfolding send encode
send-IsWrittenAs w a b limit deadline turns sent alike = rw alike

-- `read_until` of a header that is on the stream.
read_header :
    (deadline : ℕ) (turns : List Turn) (n : ℕ) (rest : List ℕ)
    → All (IsPrompt deadline) turns
    → 4 ≤ moves turns
    → (left : List Turn) × (read_until deadline turns 4 (to_ne_bytes 4 n ++ rest)
        ≡ ok (to_ne_bytes 4 n, (rest, left)))
      × Leaves deadline turns 4 left
read_header deadline turns n rest p m =
    let four = length-to_ne_bytes 4 n in
    let (left, e, l) =
      read_until-fragments deadline turns (to_ne_bytes 4 n) rest p (omega (arith, four)) in
    (left, rw four at e, rw four at l)

module _ {A : Type 0} (w : Wire A) (a : A) (limit deadline : ℕ) (turns : List Turn) where
  -- `send` puts the length and the code of the value behind what was sent before.
  pub send-frame :
      (sent : List ℕ)
      → w.IsRepresentable a
      → length (w.code a) ≤ min limit u32_max
      → All (IsPrompt deadline) turns
      → 4 + length (w.code a) ≤ moves turns
      → (left : List Turn) × (send w a limit deadline turns sent
          ≡ ok (sent ++ blob_code (w.code a), left))
  unfolding send
  send-frame sent r fits p m =
      let code = w.code a in
      let head = to_ne_bytes 4 (length code) in
      let four = length-to_ne_bytes 4 (length code) in
      let (left₁, e₁, l₁) =
        write_until-fragments deadline turns head sent p (omega (arith, four)) in
      let (left₂, e₂, l₂) =
        write_until-fragments deadline left₁ code (sent ++ head) l₁.0 (omega (arith, four, l₁.1)) in
      (
        left₂,
        rw (encode-exact w a limit r, le→leb (length code) (min limit u32_max) fits, e₁)
            (e₂ ∙ ap (λ (t : List ℕ). ok (t, left₂)) (append_assoc sent head code)),
      )

  -- A representable value whose code exceeds the limit of the caller or a u32 is refused with the limit
  -- error, whatever the socket does.
  pub send_too_large :
      (sent : List ℕ)
      → w.IsRepresentable a
      → min limit u32_max < length (w.code a)
      → send w a limit deadline turns sent ≡ err (codec limit_exceeded)
  unfolding send
  send_too_large sent r long =
      let over : leb (length (w.code a)) (min limit u32_max) ≡ false = ground arith in
      rw (encode-exact w a limit r, over)

  -- `read_timeout` reads back the value of a frame, and leaves what follows the frame.
  pub read_timeout-frame :
      (rest : List ℕ)
      → w.IsRepresentable a
      → length (w.code a) ≤ min limit u32_max
      → All (IsPrompt deadline) turns
      → 4 + length (w.code a) ≤ moves turns
      → (left : List Turn) × (read_timeout w limit deadline turns (blob_code (w.code a) ++ rest)
          ≡ ok (a, (rest, left)))
  unfolding read_timeout
  read_timeout-frame rest r fits p m =
      let code = w.code a in
      let (left₁, e₁, l₁) =
        read_header deadline turns (length code) (code ++ rest) p (omega arith) in
      let (left₂, e₂, l₂) =
        read_until-fragments deadline left₁ code rest l₁.0 (omega (arith, l₁.1)) in
      let size = header-roundtrip (length code) (omega arith) in
      let pos = w.code_pos a r in
      let tests = size_accepted (length code) limit pos (omega arith) in
      (
        left₂,
        rw (
          append_assoc (to_ne_bytes 4 (length code)) code rest,
          e₁,
          size,
          tests,
          e₂,
          decode-code w a r (omega arith),
        ),
      )

module _ {A : Type 0} (w : Wire A) (limit deadline : ℕ) (turns : List Turn) where
  -- A frame whose header is 0 or above the limit is refused, under a prompt schedule that moves the
  -- header.
  pub read_timeout_bad_length :
      (n : ℕ) (rest : List ℕ)
      → n ≤ u32_max
      → (n ≡ 0) ⊎ (limit < n)
      → All (IsPrompt deadline) turns
      → 4 ≤ moves turns
      → read_timeout w limit deadline turns (to_ne_bytes 4 n ++ rest) ≡ err invalid_frame_length
  unfolding read_timeout
  read_timeout_bad_length n rest h bad p m =
      let (left, e, l) = read_header deadline turns n rest p m in
      let tests = size_refused n limit bad in rw (e, header-roundtrip n h, tests)

-- A value that one side sends is read by the other side as the representable value that it is written
-- as, and nothing of the stream is left, when its code fits the limit and both schedules are prompt and
-- move enough bytes; the two sockets may cut the frame differently. A representable value is written as
-- itself, and a live sample with a context as the sample without it, which alone is representable.
pub read_timeout-send :
    {A : Type 0} (w : Wire A) (sent a : A) (limit deadline₁ deadline₂ : ℕ)
    (writes reads : List Turn)
    → IsWrittenAs w sent a
    → w.IsRepresentable a
    → length (w.code a) ≤ min limit u32_max
    → All (IsPrompt deadline₁) writes
    → 4 + length (w.code a) ≤ moves writes
    → All (IsPrompt deadline₂) reads
    → 4 + length (w.code a) ≤ moves reads
    → (wire : List ℕ) × (written : List Turn) × (left : List Turn) × (send w sent limit deadline₁
          writes []
        ≡ ok (wire, written))
      × (read_timeout w limit deadline₂ reads wire ≡ ok (a, ([], left)))
read_timeout-send w sent a limit deadline₁ deadline₂ writes reads alike r fits p m q n =
    let (written, e₁) = send-frame w a limit deadline₁ writes [] r fits p m in
    let (left, e₂) = read_timeout-frame w a limit deadline₂ reads [] r fits q n in
    let same = send-IsWrittenAs w sent a limit deadline₁ writes [] alike in
    (blob_code (w.code a), written, left, same ∙ e₁, rw append-nil at e₂)

abbrev IsFrame : {A : Type 0} → Wire A → ℕ → List ℕ → A → List ℕ → Type 0
IsFrame w limit stream a rest =
    w.IsRepresentable a × (stream ≡ blob_code (w.code a) ++ rest) × (length (w.code a) ≤ limit)

IsFrame-subst :
    {A : Type 0} (w : Wire A) (limit : ℕ) (stream : List ℕ) {a b : A} {rest rest' : List ℕ}
    → a ≡ b
    → rest ≡ rest'
    → IsFrame w limit stream a rest
    → IsFrame w limit stream b rest'
IsFrame-subst w limit stream p q h = rw q at (rw p at h)

-- What `read_timeout` accepts is a frame of the value that it returns, within the limit, whatever
-- bytes the stream has.
pub read_timeout_sound :
    {A : Type 0} (w : Wire A) (limit deadline : ℕ) (turns : List Turn) (stream : List ℕ) (a : A)
    (rest : List ℕ) (left : List Turn)
    → All IsByte stream
    → read_timeout w limit deadline turns stream ≡ ok (a, (rest, left))
    → w.IsRepresentable a × (stream ≡ blob_code (w.code a) ++ rest) × (length (w.code a) ≤ limit)
unfolding read_timeout
read_timeout_sound w limit deadline turns stream a rest left h e =
    let (p, e₁, e₂) = bind-HasRun (read_until deadline turns 4 stream) _ e in
    let (header, s) = p in
    let (whole, four) = read_until_sound deadline turns 4 stream header s.0 s.1 e₁ in
    let (hb, sb) = All-append IsByte header s.0 (rw whole at h) in
    let n = from_ne_bytes header in
    let (fits, e₃) = accepted n limit _ (a, (rest, left)) e₂ in
    let (q, e₄, e₅) = bind-HasRun (read_until deadline s.1 n s.0) _ e₃ in
    let (bytes, s') = q in
    let (tail, len) = read_until_sound deadline s.1 n s.0 bytes s'.0 s'.1 e₄ in
    let (value, e₆, e₇) = bind-HasRun (lift (decode w bytes)) _ e₅ in
    let (r, code) =
      decode-eq-code w bytes value (All-append IsByte bytes s'.0 (rw tail at sb)).0
        (lift-ok _ _ e₆) in
    let same : value ≡ a = cc e₇ in
    let same_rest : s'.0 ≡ rest = cc e₇ in
    let back = to_ne_bytes-from_ne_bytes header hb in
    let head : header ≡ to_ne_bytes 4 n = sym (rw four at back) in
    let size : length (w.code value) ≡ n = ap length (sym code) ∙ len in
    IsFrame-subst w limit stream same same_rest (
      r,
      whole
          ∙ ap (λ (t : List ℕ). t ++ s.0) (head ∙ ap (λ (k : ℕ). to_ne_bytes 4 k) (sym size))
          ∙ ap (λ (t : List ℕ). to_ne_bytes 4 (length (w.code value)) ++ t)
              (tail ∙ ap (λ (t : List ℕ). t ++ s'.0) code)
          ∙ sym (append_assoc (to_ne_bytes 4 (length (w.code value))) (w.code value) s'.0),
      omega arith,
    )
