-- ===== src/Netlink.antt =====
-- src/privileged_helper/netlink.rs: dumps of kernel tables, and the attributes in them. A loop over
-- `bytes` from an offset is a recursion on what is left behind the offset.
pub mod Dump
pub mod Attributes
pub mod Reads
pub mod Replies
pub mod Receive
use procinsh.Prelude.{
  ℕ, zero, suc, ◌+◌, ◌-◌, ◌*◌, ◌/◌, ◌%◌, Bool, true, false, ◌&&◌, not, List, [], ◌∷◌, ◌++◌, leb,
  ltb, ◌==◌, if◌then◌else◌, length, take, drop, Result, ok, err, ◌>>=◌,
}
use procinsh.Ipc.Codec.{from_ne_bytes, to_ne_bytes}

pub data NetlinkError : Type 0 where
  short_field short_attribute invalid_attribute_length timed_out io_failed truncated_packet :
      NetlinkError
  not_kernel above_limit short_header invalid_length interrupted : NetlinkError
  -- With the pattern of the errno that the kernel sent.
  dump_failed kernel_error : ℕ → NetlinkError
  unexpected_message : ℕ → NetlinkError
  -- No error of the program: the model ran out of rounds, or of events on the socket.
  unscheduled : NetlinkError

abbrev pub Answer : Type 0 → Type 0
Answer A = Result NetlinkError A

-- `bytes[offset..offset + size]` as a number.
abbrev pub number_at : ℕ → ℕ → List ℕ → ℕ
number_at size offset bytes = from_ne_bytes (take size (drop offset bytes))

unfoldable pub u32_at : List ℕ → ℕ → Answer ℕ
unfolding from_ne_bytes
u32_at bytes offset =
    if leb (offset + 4) (length bytes) then ok (number_at 4 offset bytes) else err short_field

-- `(length + 3) & !3`.
abbrev pub align : ℕ → ℕ
align n = (n + 3) / 4 * 4

-- `& 0x3fff` drops the nested and the byte-order flag.
unfoldable pub attributes : ℕ → List ℕ → Answer (List (ℕ × List ℕ))
unfolding from_ne_bytes
attributes zero rest = err unscheduled
attributes (suc rounds) [] = ok []
attributes (suc rounds) (b ∷ bytes) =
    let rest = b ∷ bytes in
    let size = number_at 2 0 rest in
    let kind = number_at 2 2 rest % 16384 in
    if ltb (length rest) 4
    then err short_attribute
    else if not (leb 4 size && leb size (length rest))
    then err invalid_attribute_length
    else do
      more ← attributes rounds (drop (align size) rest)
      ok ((kind, take (size - 4) (drop 4 rest)) ∷ more)

-- Each attribute takes a byte at least, so the rounds suffice.
unfoldable pub parse_netlink_attributes : List ℕ → Answer (List (ℕ × List ℕ))
unfolding attributes
parse_netlink_attributes bytes = attributes (suc (length bytes)) bytes
