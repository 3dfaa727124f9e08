-- ===== src/Sampling/Ring.antt =====
-- src/privileged_helper/process/snapshot/perf.rs: `drain`, which reads the records between the tail of
-- the ring and its head.
pub mod Drains
use procinsh.Prelude.{
  ℕ, zero, suc, ◌+◌, ◌-◌, ◌/◌, ◌%◌, ◌^◌, Bool, true, false, ◌&&◌, ◌||◌, not, List, [], ◌∷◌, leb,
  ltb, ◌==◌, min, if◌then◌else◌, length, take, drop, Option, none, some, Result, ok, err, ◌>>=◌,
}
use procinsh.Prelude.Int.{ℤ, to_pattern}
use procinsh.Ipc.Codec.{from_ne_bytes}
use procinsh.Ipc.Registers.{Target}
use procinsh.Ipc.Acquisition.Live.{SampleSource}
use procinsh.Sampling.Perf.{
  RawSample, PerfError, ring_overrun, truncated_header, invalid_size, out_of_rounds, Reading,
  take_bytes, take_u64, thread_of, parse_perf_sample,
}

-- The descriptor and the mapping are the kernel's: of the mapping there are `ring` and `capacity`.
pub record PerfEventReader : Type 0 where
  pub ring : ℕ → ℕ
  pub capacity : ℕ
  pub tail : ℕ
  pub lost : ℕ
  pub context_switch : Bool
  pub pending : Option RawSample

abbrev pub u64_count : ℕ
u64_count = 2 ^ 64

abbrev pub wrapping_sub : ℕ → ℕ → ℕ
wrapping_sub a b = (a + u64_count - b) % u64_count

abbrev pub wrapping_add : ℕ → ℕ → ℕ
wrapping_add a b = (a + b) % u64_count

abbrev pub saturating_add : ℕ → ℕ → ℕ
saturating_add a b = min (a + b) (u64_count - 1)

-- The bytes at a position, which go round at the capacity.
unfoldable pub copy : PerfEventReader → ℕ → ℕ → List ℕ
copy reader position zero = []
copy reader position (suc length) =
    reader.ring (position % reader.capacity) ∷ copy reader (wrapping_add position 1) length

abbrev pub header_size : ℕ
header_size = 8

-- Bits 13 and 14 of `misc`: the thread left the CPU, and was preempted.
abbrev pub is_switch_out : ℕ → Bool
is_switch_out misc = (misc / 2 ^ 13) % 2 == 1

abbrev pub is_preempted : ℕ → Bool
is_preempted misc = (misc / 2 ^ 14) % 2 == 1

abbrev pub same_tid : ℤ → ℤ → Bool
same_tid a b = to_pattern (2 ^ 31) a == to_pattern (2 ^ 31) b

abbrev pub same_cpu : Option ℕ → ℕ → Bool
same_cpu none cpu = false
same_cpu (some c) cpu = c == cpu

-- Whether a switch record explains the pending sample.
unfoldable pub explains : ℕ → ℤ → ℕ → ℕ → RawSample → Bool
explains misc tid time cpu sample =
    is_switch_out misc
    && same_tid sample.tid tid
    && leb sample.time_ns time
    && same_cpu sample.cpu cpu

-- What `drain` has so far: the latest sample, or an error, and the reader.
abbrev pub Drained : Type 0
Drained = Reading (Option RawSample) × PerfEventReader

abbrev pub forget : PerfEventReader → PerfEventReader
forget reader = record reader { pending = none }

abbrev pub classified : ℕ → Option RawSample → Option RawSample → Bool → Option RawSample
classified misc none latest matches = latest
classified misc (some sample) latest matches =
    if matches
    then some (record sample { source = SampleSource.context_switch (is_preempted misc) })
    else latest

abbrev pub explained : ℕ → ℤ → ℕ → ℕ → Option RawSample → Bool
explained misc tid time cpu none = false
explained misc tid time cpu (some sample) = explains misc tid time cpu sample

unfoldable pub sample_record : Target → List ℕ → Option RawSample → PerfEventReader → Drained
unfolding parse_perf_sample
sample_record target bytes latest reader = elim (parse_perf_sample target bytes) [
  | err e ↦ (err e, reader)
  | ok sample ↦
      if reader.context_switch
      then (ok latest, record reader { pending = sample })
      else elim sample [ none ↦ (ok latest, reader) | some s ↦ (ok (some s), reader) ]
]

-- The trailer of a switch record: the thread, the time and the CPU.
unfoldable pub switch_trailer : List ℕ → Reading (ℤ × (ℕ × ℕ))
unfolding take_bytes take_u64 from_ne_bytes
switch_trailer bytes = do
  (tids, bytes) ← take_bytes 8 bytes
  (time, bytes) ← take_u64 bytes
  (cpu, bytes) ← take_u64 bytes
  ok (thread_of tids, (time, cpu % 2 ^ 32))

unfoldable pub switch_record : ℕ → List ℕ → Option RawSample → PerfEventReader → Drained
unfolding switch_trailer explains
switch_record misc bytes latest reader = elim (switch_trailer bytes) [
  | err e ↦ (err e, reader)
  | ok (tid, (time, cpu)) ↦ (
    ok (classified misc reader.pending latest (explained misc tid time cpu reader.pending)),
    forget reader,
  )
]

unfoldable pub lost_record : List ℕ → Option RawSample → PerfEventReader → Drained
unfolding take_u64
lost_record bytes latest reader = elim (do (id, bytes) ← take_u64 bytes; take_u64 bytes) [
  | err e ↦ (err e, forget reader)
  | ok (count, _) ↦
      (ok latest, record reader { pending = none; lost = saturating_add reader.lost count })
]

-- The match on the type of a record: LOST 2, THROTTLE 5, UNTHROTTLE 6, SAMPLE 9, SWITCH 14.
unfoldable pub handle_record :
    Target → ℕ → ℕ → List ℕ → Option RawSample → PerfEventReader → Drained
unfolding sample_record switch_record lost_record
handle_record target kind misc bytes latest reader =
    if kind == 9
    then sample_record target bytes latest reader
    else if kind == 14 && reader.context_switch
    then switch_record misc bytes latest reader
    else if (kind == 5 || kind == 6) && reader.context_switch
    then (ok latest, forget reader)
    else if kind == 2
    then lost_record bytes latest reader
    else (ok latest, reader)

abbrev pub next_record : Drained → (Option RawSample → PerfEventReader → Drained) → Drained
next_record (err e, after) next = (err e, after)
next_record (ok later, after) next = next later after

-- The loop; the second argument bounds its rounds.
unfoldable pub drain_records : Target → ℕ → ℕ → Option RawSample → PerfEventReader → Drained
unfolding copy handle_record from_ne_bytes
drain_records target zero head latest reader = (err out_of_rounds, reader)
drain_records target (suc rounds) head latest reader =
    let header = copy reader reader.tail header_size in
    let kind = from_ne_bytes (take 4 header) in
    let misc = from_ne_bytes (take 2 (drop 4 header)) in
    let size = from_ne_bytes (drop 6 header) in
    let left = wrapping_sub head reader.tail in
    let bytes = copy reader (wrapping_add reader.tail header_size) (size - header_size) in
    let moved = record reader { tail = wrapping_add reader.tail size } in
    if reader.tail == head
    then (ok latest, reader)
    else if ltb left header_size
    then (err truncated_header, reader)
    else if not (leb header_size size && leb size reader.capacity && leb size left)
    then (err invalid_size, reader)
    else next_record (handle_record target kind misc bytes latest moved)
        (λ later after. drain_records target rounds head later after)

-- What `drain` does behind the loop: an error skips all that is there, and counts as a loss.
unfoldable pub resync : ℕ → Drained → Drained
resync head (ok latest, reader) = (ok latest, reader)
resync head (err e, reader) =
    (err e, record reader { lost = saturating_add reader.lost 1; tail = head; pending = none })

unfoldable pub drain : Target → ℕ → PerfEventReader → Drained
unfolding drain_records resync
drain target head reader = resync head (
    if not (leb (wrapping_sub head reader.tail) reader.capacity)
    then (err ring_overrun, reader)
    else drain_records target (suc reader.capacity) head none reader)
