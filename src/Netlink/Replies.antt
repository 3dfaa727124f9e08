-- ===== src/Netlink/Replies.antt =====
-- The replies of the kernel to a dump of src/privileged_helper/netlink.rs.
use procinsh.Prelude.{
  ℕ, zero, suc, ◌+◌, ◌-◌, ◌/◌, ◌%◌, ◌^◌, ◌≤◌, ◌<◌, ◌≡◌, refl, sym, ◌∙◌, ap, true, false, List, [],
  ◌∷◌, ◌++◌, leb, ltb, ◌==◌, length, take, drop, ok, All, map, length-append, take-length_append,
  arith,
}
use mathlib.Core.List.{append_assoc, append-nil}
use procinsh.Ipc.Codec.{from_ne_bytes, to_ne_bytes}
use procinsh.Ipc.Codec.Bytes.{length-to_ne_bytes, from_ne_bytes-to_ne_bytes}
use procinsh.Netlink.{u32_at, align}
use procinsh.Netlink.Attributes.{zeros, length-zeros, take_prefix, drop_prefix}
use procinsh.Netlink.Dump.{
  NetlinkDumpRequest, header, reply_limit, buffer_size, message, is_current, unless_done, messages,
  nothing, packet, Round, accept_packet,
}

-- One round of the loop over a packet, at a message whose length fits.
messages-header :
    (rounds : ℕ) (request : NetlinkDumpRequest) (replies : List (List ℕ))
    (l₀ l₁ l₂ l₃ k₀ k₁ f₀ f₁ s₀ s₁ s₂ s₃ p₀ p₁ p₂ p₃ size kind : ℕ) (body : List ℕ)
    → from_ne_bytes (l₀ ∷ l₁ ∷ l₂ ∷ l₃ ∷ []) ≡ size
    → from_ne_bytes (k₀ ∷ k₁ ∷ []) ≡ kind
    → (from_ne_bytes (f₀ ∷ f₁ ∷ []) / 16) % 2 ≡ 0
    → from_ne_bytes (s₀ ∷ s₁ ∷ s₂ ∷ s₃ ∷ []) ≡ request.sequence
    → 16 ≤ size
    → size ≤ 16 + length body
    → let rest =
        l₀ ∷ l₁ ∷ l₂ ∷ l₃ ∷ k₀ ∷ k₁ ∷ f₀ ∷ f₁ ∷ s₀ ∷ s₁ ∷ s₂ ∷ s₃ ∷ p₀ ∷ p₁ ∷ p₂ ∷ p₃ ∷ body in
      messages (suc rounds) request rest replies
      ≡ unless_done
          (message request kind (take (size - 16) body) replies)
          (λ more. messages rounds request (drop (align size) rest) more)
unfolding messages from_ne_bytes
messages-header rounds request replies l₀ l₁ l₂ l₃ k₀ k₁ f₀ f₁ s₀ s₁ s₂ s₃ p₀ p₁ p₂ p₃ size kind
      body el ek ef es low high =
    let rest =
      l₀ ∷ l₁ ∷ l₂ ∷ l₃ ∷ k₀ ∷ k₁ ∷ f₀ ∷ f₁ ∷ s₀ ∷ s₁ ∷ s₂ ∷ s₃ ∷ p₀ ∷ p₁ ∷ p₂ ∷ p₃ ∷ body in
    let long : ltb (length rest) header ≡ false = ground arith in
    let above : leb header size ≡ true = ground arith in
    let below : leb size (length rest) ≡ true = ground arith in
    let current : is_current request rest ≡ true = ground (arith, es, ef) in
    rw (el, ek, long, above, below, current) refl

-- A message that the kernel sends: its flags and the port that it is for stand in the header.
pub record KernelMessage : Type 0 where
  pub flags : ℕ
  pub port : ℕ
  pub body : List ℕ

abbrev pub bodies : List KernelMessage → List (List ℕ)
bodies sent = map (λ m. m.body) sent

pub bodies-append : (xs ys : List KernelMessage) → bodies (xs ++ ys) ≡ bodies xs ++ bodies ys
bodies-append [] ys = refl
bodies-append (x ∷ xs) ys = ap (λ (t : List (List ℕ)). x.body ∷ t) (bodies-append xs ys)

module _ (request : NetlinkDumpRequest) where
  -- A message as the kernel lays it out, filled up to the alignment.
  abbrev pub message_code : ℕ → KernelMessage → List ℕ
  message_code kind m =
      to_ne_bytes 4 (16 + length m.body)
      ++ (to_ne_bytes 2 kind
          ++ (to_ne_bytes 2 m.flags
              ++ (to_ne_bytes 4 request.sequence
                  ++ (to_ne_bytes 4 m.port
                      ++ (m.body ++ zeros (align (16 + length m.body) - (16 + length m.body)))))))

  unfoldable pub replies_code : List KernelMessage → List ℕ
  unfolding to_ne_bytes
  replies_code [] = []
  replies_code (m ∷ sent) = message_code request.reply_type m ++ replies_code sent

  -- A length of 32 bits and flags of 16, any but NLM_F_DUMP_INTR.
  abbrev pub IsMessage : KernelMessage → Type 0
  IsMessage m = (16 + length m.body < 2 ^ 32) × (m.flags < 65536) × ((m.flags / 16) % 2 ≡ 0)

  -- The requests that the program makes: no reply has the type of a control message.
  abbrev pub IsRequest : Type 0
  IsRequest = (request.sequence < 2 ^ 32) × (3 < request.reply_type) × (request.reply_type < 65536)

  length-message_code :
      (kind : ℕ) (m : KernelMessage) → length (message_code kind m) ≡ align (16 + length m.body)
  unfolding to_ne_bytes
  length-message_code kind m =
      let body = m.body in
      let size = 16 + length body in
      omega
        (arith, length-append body (zeros (align size - size)), length-zeros (align size - size))

  messages-message_code :
      (rounds kind : ℕ) (m : KernelMessage) (tail : List ℕ) (replies : List (List ℕ))
      → request.sequence < 2 ^ 32
      → kind < 65536
      → IsMessage m
      → messages (suc rounds) request (message_code kind m ++ tail) replies
        ≡ unless_done
            (message request kind m.body replies)
            (λ more. messages rounds request tail more)
  unfolding to_ne_bytes
  messages-message_code rounds kind m tail replies hs hk (hb, hf, current) =
      let body = m.body in
      let size = 16 + length body in
      let q = request.sequence in
      let f = m.flags in
      let to = m.port in
      let padding = zeros (align size - size) in
      let skip : drop (align size) (message_code kind m ++ tail) ≡ tail =
        drop_prefix (align size) (message_code kind m) tail (sym (length-message_code kind m)) in
      let keep : take (size - 16) ((body ++ padding) ++ tail) ≡ body =
        rw (append_assoc body padding tail)
          (take_prefix (size - 16) body (padding ++ tail) (omega arith)) in
      let fits = length-append (body ++ padding) tail in
      let inner = length-append body padding in
      messages-header rounds request replies (size % 256) (size / 256 % 256)
        (size / 256 / 256 % 256) (size / 256 / 256 / 256 % 256) (kind % 256) (kind / 256 % 256)
        (f % 256) (f / 256 % 256) (q % 256) (q / 256 % 256) (q / 256 / 256 % 256)
        (q / 256 / 256 / 256 % 256) (to % 256) (to / 256 % 256) (to / 256 / 256 % 256)
        (to / 256 / 256 / 256 % 256) size kind ((body ++ padding) ++ tail) (number size hb)
        (number2 kind hk) (ap (λ (n : ℕ). (n / 16) % 2) (number2 f hf) ∙ current) (number q hs)
        (omega arith) (omega (arith, fits, inner))
      ∙ rw (skip, keep) refl
    where
      number : (n : ℕ) → n < 2 ^ 32 → from_ne_bytes (to_ne_bytes 4 n) ≡ n
      number n h = from_ne_bytes-to_ne_bytes 4 n (omega arith)

      number2 : (n : ℕ) → n < 65536 → from_ne_bytes (to_ne_bytes 2 n) ≡ n
      number2 n h = from_ne_bytes-to_ne_bytes 2 n (omega arith)

  message_reply :
      (body : List ℕ) (replies : List (List ℕ))
      → 3 < request.reply_type
      → message request request.reply_type body replies ≡ ok (false, replies ++ body ∷ [])
  unfolding message
  message_reply body replies h =
      let a : (request.reply_type == 3) ≡ false = ground arith in
      let b : (request.reply_type == 2) ≡ false = ground arith in
      let c : (request.reply_type == request.reply_type) ≡ true = ground arith in
      rw (message, a, b, c) refl

  pub messages-replies_code :
      (fuel rounds : ℕ) (sent : List KernelMessage) (tail : List ℕ) (replies : List (List ℕ))
      → fuel ≡ length sent + rounds
      → IsRequest
      → All IsMessage sent
      → messages fuel request (replies_code sent ++ tail) replies
        ≡ messages rounds request tail (replies ++ bodies sent)
  unfolding replies_code
  messages-replies_code fuel rounds [] tail replies e h all =
      let same : fuel ≡ rounds = omega (arith, e) in rw (append-nil replies, same) refl
  messages-replies_code zero rounds (m ∷ sent) tail replies e h all = absurd (omega (arith, e))
  messages-replies_code (suc fuel) rounds (m ∷ sent) tail replies e h all =
      let code = message_code request.reply_type m in
      ap (λ (t : List ℕ). messages (suc fuel) request t replies)
        (append_assoc code (replies_code sent) tail)
      ∙ messages-message_code fuel request.reply_type m (replies_code sent ++ tail) replies h.0 h.2
          all.0
      ∙ rw (message_reply m.body replies h.1) (
          messages-replies_code fuel rounds sent tail (replies ++ m.body ∷ []) (omega (arith, e)) h
            all.1
          ∙ rw (append_assoc replies (m.body ∷ []) (bodies sent)) refl)

  -- The message that ends a dump, with no error.
  abbrev pub done_code : ℕ → ℕ → List ℕ
  done_code flags port =
      message_code 3 (record { flags = flags; port = port; body = to_ne_bytes 4 0 })

  message_done :
      (replies : List (List ℕ)) → message request 3 (to_ne_bytes 4 0) replies ≡ ok (true, replies)
  unfolding message u32_at to_ne_bytes from_ne_bytes
  message_done replies = refl

  pub messages-done_code :
      (rounds flags port : ℕ) (replies : List (List ℕ))
      → IsRequest
      → flags < 65536
      → (flags / 16) % 2 ≡ 0
      → messages (suc rounds) request (done_code flags port) replies ≡ ok (true, replies)
  messages-done_code rounds flags port replies h small current =
      let code = done_code flags port in
      ap (λ (t : List ℕ). messages (suc rounds) request t replies) (sym (append-nil code))
      ∙ messages-message_code rounds 3
          (record { flags = flags; port = port; body = to_ne_bytes 4 0 }) [] replies h.0
          (omega arith) (omega (arith, length-to_ne_bytes 4 0), small, current)
      ∙ rw (message_done replies) refl

  pub length-replies_code_le :
      (sent : List KernelMessage) → length sent ≤ length (replies_code sent)
  unfolding replies_code
  length-replies_code_le [] = omega arith
  length-replies_code_le (m ∷ sent) = omega (
    arith,
    length-replies_code_le sent,
    length-append (message_code request.reply_type m) (replies_code sent),
    length-message_code request.reply_type m,
  )

  -- A packet of the kernel with these bytes, at a total that it keeps within the limit.
  abbrev pub IsPacket : ℕ → ℕ → ℕ → List ℕ → Round → Type 0
  IsPacket deadline before after bytes round =
      (round.now < deadline)
      × (round.arrival ≡ packet (length bytes) 0 bytes)
      × (0 < length bytes)
      × (length bytes ≤ buffer_size)
      × (after ≡ before + length bytes)
      × (after ≤ reply_limit)

  -- The kernel answers with these messages from `total` bytes on: in any packets, with any rounds in
  -- which nothing arrives, and with the end of the dump behind the messages of the last packet.
  pub data Sends (deadline : ℕ) : ℕ → List Round → List KernelMessage → Type 0 where
    waits :
        {total : ℕ} {rounds : List Round} {sent : List KernelMessage} (round : Round)
        → round.now < deadline
        → round.arrival ≡ nothing
        → Sends deadline total rounds sent
        → Sends deadline total (round ∷ rounds) sent
    sends :
        {total after : ℕ} {rounds : List Round} {later : List KernelMessage} (round : Round)
        (now : List KernelMessage)
        → All IsMessage now
        → IsPacket deadline total after (replies_code now) round
        → Sends deadline after rounds later
        → Sends deadline total (round ∷ rounds) (now ++ later)
    ends :
        {total after : ℕ} {rounds : List Round} (round : Round) (now : List KernelMessage)
        (flags port : ℕ)
        → All IsMessage now
        → flags < 65536
        → (flags / 16) % 2 ≡ 0
        → IsPacket deadline total after (replies_code now ++ done_code flags port) round
        → Sends deadline total (round ∷ rounds) now

  pub accept_packet_lem :
      (count before after : ℕ)
      → 0 < count
      → count ≤ buffer_size
      → after ≡ before + count
      → after ≤ reply_limit
      → accept_packet count 0 before ≡ ok after
  unfolding accept_packet
  accept_packet_lem count before after p b e l = ground arith

  pub take_all : (bytes : List ℕ) → take (length bytes) bytes ≡ bytes
  take_all bytes = ap (take (length bytes)) (sym (append-nil bytes)) ∙ take-length_append bytes []
