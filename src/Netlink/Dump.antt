-- ===== src/Netlink/Dump.antt =====
-- src/privileged_helper/netlink.rs: one dump, a request and the packets of its reply. What the socket
-- and the clock do is a list of arrivals, one for each round of `receive_replies`.
use procinsh.Prelude.{
  ℕ, zero, suc, ◌+◌, ◌-◌, ◌*◌, ◌/◌, ◌%◌, ◌^◌, Bool, true, false, ◌&&◌, not, List, [], ◌∷◌, ◌++◌,
  leb, ltb, ◌==◌, if◌then◌else◌, length, take, drop, ok, err, ◌>>=◌,
}
use procinsh.Ipc.Codec.{from_ne_bytes, to_ne_bytes}
use procinsh.Netlink.{
  NetlinkError, timed_out, io_failed, truncated_packet, not_kernel, above_limit, short_header,
  invalid_length, interrupted, dump_failed, kernel_error, unexpected_message, unscheduled, Answer,
  number_at, u32_at, align,
}

abbrev pub header : ℕ
header = 16

abbrev pub reply_limit : ℕ
reply_limit = 8 * 1024 * 1024

abbrev pub buffer_size : ℕ
buffer_size = 65536

abbrev dump_flags : ℕ
dump_flags = 769

pub record NetlinkDumpRequest : Type 0 where
  pub message_type : ℕ
  pub reply_type : ℕ
  pub sequence : ℕ
  pub payload : List ℕ

-- The packet that is sent: length, type, flags, sequence, the port 0, and the payload.
unfoldable pub request_packet : NetlinkDumpRequest → List ℕ
unfolding to_ne_bytes
request_packet r =
    to_ne_bytes 4 ((header + length r.payload) % 2 ^ 32)
    ++ (to_ne_bytes 2 r.message_type
        ++ (to_ne_bytes 2 dump_flags
            ++ (to_ne_bytes 4 r.sequence ++ (to_ne_bytes 4 0 ++ r.payload))))

-- What a packet leaves behind: the dump is done, or there may be more; and the replies so far.
abbrev pub Progress : Type 0
Progress = Bool × List (List ℕ)

abbrev pub kernel_code : (ℕ → NetlinkError) → List ℕ → Answer (Unit {0})
kernel_code error body = do code ← u32_at body 0; if code == 0 then ok tt else err (error code)

-- The match on the type of a message: what it adds, and whether it ends the dump.
unfoldable pub message : NetlinkDumpRequest → ℕ → List ℕ → List (List ℕ) → Answer Progress
unfolding u32_at
message request kind body replies =
    if kind == 3
    then (do
      _ ← if leb 4 (length body) then kernel_code dump_failed body else ok tt
      ok (true, replies))
    else if kind == 2
    then (do _ ← kernel_code kernel_error body; ok (false, replies))
    else if kind == request.reply_type
    then ok (false, replies ++ body ∷ [])
    else err (unexpected_message kind)

-- The flag NLM_F_DUMP_INTR is bit 4.
abbrev pub is_current : NetlinkDumpRequest → List ℕ → Bool
is_current request rest =
    number_at 4 8 rest == request.sequence && (number_at 2 6 rest / 16) % 2 == 0

abbrev pub unless_done : Answer Progress → (List (List ℕ) → Answer Progress) → Answer Progress
unless_done (err e) next = err e
unless_done (ok (true, replies)) next = ok (true, replies)
unless_done (ok (false, replies)) next = next replies

-- The messages of one packet.
unfoldable pub messages : ℕ → NetlinkDumpRequest → List ℕ → List (List ℕ) → Answer Progress
unfolding message from_ne_bytes
messages zero request rest replies = err unscheduled
messages (suc rounds) request [] replies = ok (false, replies)
messages (suc rounds) request (b ∷ bytes) replies =
    let rest = b ∷ bytes in
    let size = number_at 4 0 rest in
    let kind = number_at 2 4 rest in
    if ltb (length rest) header
    then err short_header
    else if not (leb header size && leb size (length rest))
    then err invalid_length
    else if not (is_current request rest)
    then err interrupted
    else unless_done (message request kind (take (size - header) (drop header rest)) replies)
        (λ more. messages rounds request (drop (align size) rest) more)

-- What a round finds: `poll` is interrupted or has nothing, or fails; `recvfrom` is interrupted, or
-- fails, or gives the length of a packet, the port of its sender, and what the buffer then holds.
pub data Arrival : Type 0 where
  nothing failed : Arrival
  packet : ℕ → ℕ → List ℕ → Arrival

pub record Round : Type 0 where
  pub now : ℕ
  pub arrival : Arrival

-- The tests of a packet before its messages.
unfoldable pub accept_packet : ℕ → ℕ → ℕ → Answer ℕ
accept_packet count pid total =
    if not (ltb 0 count && leb count buffer_size)
    then err truncated_packet
    else if not (pid == 0)
    then err not_kernel
    else if ltb reply_limit (total + count)
    then err above_limit
    else ok (total + count)

-- `receive_replies`, at `total` bytes and with the replies so far.
unfoldable pub receive_replies :
    NetlinkDumpRequest → ℕ → List Round → ℕ → List (List ℕ) → Answer (List (List ℕ))
unfolding messages accept_packet
receive_replies request deadline [] total replies = err unscheduled
receive_replies request deadline (round ∷ rounds) total replies =
    if leb deadline round.now then err timed_out else elim round.arrival [
      | nothing ↦ receive_replies request deadline rounds total replies
      | failed ↦ err io_failed
      | packet count pid bytes ↦ do
        total ← accept_packet count pid total
        (finished, replies) ← messages (suc count) request (take count bytes) replies
        let rest = receive_replies request deadline rounds total replies
        if finished then ok replies else rest
    ]

-- `collect_netlink_dump`: how much of the request `sendto` took, and the rounds that follow.
unfoldable pub collect_netlink_dump :
    NetlinkDumpRequest → ℕ → ℕ → ℕ → List Round → Answer (List (List ℕ))
unfolding request_packet receive_replies
collect_netlink_dump request deadline now sent rounds =
    if leb deadline now
    then err timed_out
    else if sent == length (request_packet request)
    then receive_replies request deadline rounds 0 []
    else err io_failed
