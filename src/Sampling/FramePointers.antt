-- ===== src/Sampling/FramePointers.antt =====
-- src/privileged_helper/process/snapshot/unwind_fp.rs: the walk along the chain of frame pointers.
-- `read` is what the kernel returns for 16 bytes of the target at an address.
pub mod Walks
use procinsh.Prelude.{
  ℕ, zero, suc, ◌+◌, ◌-◌, ◌^◌, ◌%◌, Bool, true, false, ◌&&◌, ◌||◌, not, List, [], ◌∷◌, ◌++◌, Option,
  none, some, leb, ltb, ◌==◌, if◌then◌else◌, length, take, drop,
}
use procinsh.Ipc.Codec.{from_ne_bytes}
use procinsh.Ipc.Memory.{MemoryMap}
use procinsh.Ipc.Stack.{StackFrame}

-- Why a walk ends; the source says it in words.
pub data Reason : Type 0 where
  no_stack frame_limit end_of_chain outside_stack unreadable not_executable non_increasing : Reason
  -- No reason of the program: the model has run out of rounds.
  out_of_rounds : Reason

-- `StackFrame::raw`.
abbrev pub raw_frame : ℕ → StackFrame
raw_frame address = record {
  address = address;
  symbol = none;
  symbol_offset = none;
  source_file = none;
  line = none;
  inline_frames = [];
}

-- `MemoryMap::contains`.
abbrev pub contains : MemoryMap → ℕ → Bool
contains m address = leb m.start address && ltb address m.end

unfoldable pub find_stack : ℕ → List MemoryMap → Option MemoryMap
find_stack rsp [] = none
find_stack rsp (m ∷ maps) =
    let rest = find_stack rsp maps in if contains m rsp && m.readable then some m else rest

unfoldable pub is_code : List MemoryMap → ℕ → Bool
is_code [] address = false
is_code (m ∷ maps) address = (m.executable && contains m (address - 1)) || is_code maps address

-- The test before a read: `checked_add` fails above the largest u64.
abbrev pub is_outside : ℕ → MemoryMap → ℕ → Bool
is_outside rsp stack bp =
    not (bp % 8 == 0)
    || ltb bp rsp
    || ltb bp stack.start
    || leb (2 ^ 64) (bp + 16)
    || ltb stack.end (bp + 16)

module _ (rsp : ℕ) (stack : MemoryMap) (maps : List MemoryMap) (read : ℕ → Option (List ℕ)) where
  -- The loop; the first argument bounds its rounds.
  unfoldable pub walk : ℕ → ℕ → List StackFrame → List StackFrame × Reason
  unfolding is_code from_ne_bytes
  walk zero bp frames = (frames, out_of_rounds)
  walk (suc rounds) bp frames =
      if leb 256 (length frames)
      then (frames, frame_limit)
      else if bp == 0
      then (frames, end_of_chain)
      else if is_outside rsp stack bp
      then (frames, outside_stack)
      else elim (read bp) [
        | none ↦ (frames, unreadable)
        | some bytes ↦
            let previous = from_ne_bytes (take 8 bytes) in
            let address = from_ne_bytes (drop 8 bytes) in
            let rest = walk rounds previous (frames ++ raw_frame address ∷ []) in
            if address == 0
            then (frames, end_of_chain)
            else if not (is_code maps address)
            then (frames, not_executable)
            else if leb previous bp
            then (frames ++ raw_frame address ∷ [], non_increasing)
            else rest
      ]

unfoldable pub unwind_frame_pointers :
    ℕ → ℕ → ℕ → List MemoryMap → (ℕ → Option (List ℕ)) → List StackFrame × Reason
unfolding find_stack walk
unwind_frame_pointers rip rsp rbp maps read = elim (find_stack rsp maps) [
  | none ↦ (raw_frame rip ∷ [], no_stack)
  | some stack ↦ walk rsp stack maps read 256 rbp (raw_frame rip ∷ [])
]
