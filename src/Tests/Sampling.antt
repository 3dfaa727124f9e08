-- ===== src/Tests/Sampling.antt =====
-- The ring of src/privileged_helper/process/snapshot/perf.rs with nothing in it, and the walk of
-- unwind_fp.rs over a stack with one frame.
use procinsh.Prelude.{
  ℕ, ◌≡◌, refl, arith, true, List, [], ◌∷◌, ◌++◌, Option, none, some, ok, err, ltb, ◌==◌,
  if◌then◌else◌,
}
use procinsh.Ipc.Codec.{to_ne_bytes, from_ne_bytes}
use procinsh.Ipc.Memory.{MemoryMap}
use procinsh.Ipc.Registers.{x86_64}
use procinsh.Sampling.FramePointers.{
  raw_frame, outside_stack, non_increasing, find_stack, unwind_frame_pointers,
}
use procinsh.Sampling.FramePointers.Walks.{
  IsEnded, unwind_frame_pointers-IsEnded, AgreesOnStack, unwind_frame_pointers_read,
}
use procinsh.Sampling.Perf.{invalid_size}
use procinsh.Sampling.Ring.{PerfEventReader, handle_record, drain_records, drain}
use procinsh.Sampling.Ring.Drains.{IsDrained, drain-IsDrained}

-- A record of type 2 and 24 bytes (LOST, with the count 5), which starts 8 bytes before the end of a
-- ring of 64 bytes and goes round.
abbrev lost_bytes : ℕ → ℕ
lost_bytes position =
    if position == 56 then 2 else if position == 62 then 24 else if position == 8 then 5 else 0

abbrev reader : PerfEventReader
reader = record {
  ring = lost_bytes;
  capacity = 64;
  tail = 56;
  lost = 1;
  context_switch = true;
  pending = none;
}

-- The record is counted across the end of the ring; with a head inside it, it is refused.
counts_lost : drain x86_64 80 reader ≡ (ok none, record reader { tail = 80; lost = 6 })
unfolding drain drain_records handle_record
counts_lost = refl

refuses_part :
    drain x86_64 72 reader
    ≡ (err invalid_size, record reader { tail = 72; lost = 2; pending = none })
unfolding drain drain_records
refuses_part = refl

drain-IsDrained_example : IsDrained 80 reader (drain x86_64 80 reader)
drain-IsDrained_example = drain-IsDrained x86_64 80 reader (omega arith) (omega arith) (omega arith)

abbrev memory_map : ℕ → ℕ → MemoryMap
memory_map start end = record {
  start = start;
  end = end;
  readable = true;
  writable = true;
  executable = true;
  private = true;
  file_offset = 0;
  device = record { major = 0; minor = 0 };
  inode = 0;
  pathname = none;
}

abbrev stack : MemoryMap
stack = memory_map 0x1000 0x2000

abbrev maps : List MemoryMap
maps = stack ∷ memory_map 0x3000 0x4000 ∷ []

-- A frame at every address whose caller is at 0x3020, and whose own frame is at 0x1100.
abbrev looping : ℕ → Option (List ℕ)
looping address = some (to_ne_bytes 8 0x1100 ++ to_ne_bytes 8 0x3020)

stops_on_cycle :
    unwind_frame_pointers 0x3010 0x1000 0x1100 maps looping
    ≡ (raw_frame 0x3010 ∷ raw_frame 0x3020 ∷ [], non_increasing)
unfolding unwind_frame_pointers to_ne_bytes from_ne_bytes
stops_on_cycle = refl

reads_inside :
    unwind_frame_pointers 0x3010 0x1000 0x1ff8 maps looping ≡ (raw_frame 0x3010 ∷ [], outside_stack)
unfolding unwind_frame_pointers
reads_inside = refl

unwind_frame_pointers-IsEnded_example :
    IsEnded maps (raw_frame 0x3010) (unwind_frame_pointers 0x3010 0x1000 0x1100 maps looping)
unwind_frame_pointers-IsEnded_example =
    unwind_frame_pointers-IsEnded 0x3010 0x1000 0x1100 maps looping

-- The same memory, and nothing behind the stack.
abbrev short : ℕ → Option (List ℕ)
short address = if ltb address 0x2000 then looping address else none

short-AgreesOnStack : AgreesOnStack 0x1000 stack looping short
short-AgreesOnStack address a b c d =
    let inside : ltb address 0x2000 ≡ true = ground arith in rw inside

unwind_frame_pointers_read_example :
    unwind_frame_pointers 0x3010 0x1000 0x1100 maps looping
    ≡ unwind_frame_pointers 0x3010 0x1000 0x1100 maps short
unfolding find_stack
unwind_frame_pointers_read_example =
    unwind_frame_pointers_read 0x3010 0x1000 0x1100 maps stack looping short refl
      short-AgreesOnStack
