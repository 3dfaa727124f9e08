-- ===== src/Sampling/FramePointers/Walks.antt =====
-- The walk of src/privileged_helper/process/snapshot/unwind_fp.rs over any memory of the target.
use procinsh.Prelude.{
  ℕ, zero, suc, ◌+◌, ◌%◌, ◌≤◌, ◌<◌, ◌≡◌, ◌≢◌, refl, true, false, not, List, [], ◌∷◌, ◌++◌, Option,
  some, leb, ◌==◌, if_both, if_else, option_else, if_split, option_split, length, take, drop, All,
  All-append_of, length-append, arith,
}
use procinsh.Ipc.Codec.{from_ne_bytes}
use procinsh.Ipc.Memory.{MemoryMap}
use procinsh.Ipc.Stack.{StackFrame}
use procinsh.Sampling.FramePointers.{
  Reason, no_stack, frame_limit, end_of_chain, outside_stack, unreadable, not_executable,
  non_increasing, out_of_rounds, raw_frame, find_stack, is_code, is_outside, walk,
  unwind_frame_pointers,
}

-- The frame of an address that a call in executable memory can return to.
abbrev pub IsReturn : List MemoryMap → StackFrame → Type 0
IsReturn maps frame = is_code maps frame.address ≡ true

-- A walk that started behind `first` has ended for a reason of the program.
abbrev pub IsEnded : List MemoryMap → StackFrame → List StackFrame × Reason → Type 0
IsEnded maps first r =
    (r.1 ≢ out_of_rounds)
    × (length r.0 ≤ 256)
    × ((found : List StackFrame) × (r.0 ≡ first ∷ found) × All (IsReturn maps) found)

module _ (maps : List MemoryMap) (first : StackFrame) where
  IsEnded-here :
      (found : List StackFrame) (reason : Reason)
      → length (first ∷ found) ≤ 256
      → All (IsReturn maps) found
      → reason ≢ out_of_rounds
      → IsEnded maps first (first ∷ found, reason)
  IsEnded-here found reason small h other = (other, small, (found, refl, h))

  module _ (rsp : ℕ) (stack : MemoryMap) (read : ℕ → Option (List ℕ)) where
    walk-IsEnded :
        (rounds bp : ℕ) (found : List StackFrame)
        → 256 < rounds + length (first ∷ found)
        → length (first ∷ found) ≤ 256
        → All (IsReturn maps) found
        → IsEnded maps first (walk rsp stack maps read rounds bp (first ∷ found))
    unfolding walk
    walk-IsEnded zero bp found enough small h = absurd (omega arith)
    walk-IsEnded (suc rounds) bp found enough small h =
        let P = IsEnded maps first in
        let stop = λ (r : Reason). IsEnded-here found r small h in
        if_split P (leb 256 (length (first ∷ found))) (λ _. stop frame_limit (λ e. cc e))
          (λ room. if_both P (bp == 0) (stop end_of_chain (λ e. cc e)) (
            if_both P (is_outside rsp stack bp) (stop outside_stack (λ e. cc e)) (
              option_split P (read bp) _ _ (λ _. stop unreadable (λ e. cc e))
                (λ bytes _.
                  let previous = from_ne_bytes (take 8 bytes) in
                  let address = from_ne_bytes (drop 8 bytes) in
                  let longer = length-append found (raw_frame address ∷ []) in
                  let room' : length (first ∷ found) < 256 = ground arith in
                  if_both P (address == 0) (stop end_of_chain (λ e. cc e)) (
                    if_split P (not (is_code maps address)) (λ _. stop not_executable (λ e. cc e))
                      (λ code.
                        let more =
                          All-append_of (IsReturn maps) found (raw_frame address ∷ []) h
                            (ground (arith, code), tt) in
                        if_both P (leb previous bp)
                          (IsEnded-here (found ++ raw_frame address ∷ []) non_increasing
                            (omega (arith, longer)) more (λ e. cc e))
                          (walk-IsEnded rounds previous (found ++ raw_frame address ∷ [])
                            (omega (arith, longer)) (omega (arith, longer)) more)))))))

-- Whatever the memory of the target holds, a walk ends, with the sampled address in front, 256 frames at
-- most, and behind the first only addresses that a call in executable memory can return to.
pub unwind_frame_pointers-IsEnded :
    (rip rsp rbp : ℕ) (maps : List MemoryMap) (read : ℕ → Option (List ℕ))
    → IsEnded maps (raw_frame rip) (unwind_frame_pointers rip rsp rbp maps read)
unfolding unwind_frame_pointers
unwind_frame_pointers-IsEnded rip rsp rbp maps read =
    option_split (IsEnded maps (raw_frame rip)) (find_stack rsp maps) _ _
      (λ _. IsEnded-here maps (raw_frame rip) [] no_stack (omega arith) tt (λ e. cc e))
      (λ stack _.
        walk-IsEnded maps (raw_frame rip) rsp stack read 256 rbp [] (omega arith) (omega arith) tt)

-- The two memories agree on the aligned addresses between the stack pointer and the end of the stack.
abbrev pub AgreesOnStack : ℕ → MemoryMap → (ℕ → Option (List ℕ)) → (ℕ → Option (List ℕ)) → Type 0
AgreesOnStack rsp stack read other =
    (address : ℕ)
    → address % 8 ≡ 0
    → rsp ≤ address
    → stack.start ≤ address
    → address + 16 ≤ stack.end
    → read address ≡ other address

module _ (rsp : ℕ) (stack : MemoryMap) (maps : List MemoryMap) (read other : ℕ → Option (List ℕ))
    (same : AgreesOnStack rsp stack read other) where
  same_inside : (bp : ℕ) → is_outside rsp stack bp ≡ false → read bp ≡ other bp
  same_inside bp e = same bp (ground arith) (ground arith) (ground arith) (ground arith)

  walk_read :
      (rounds bp : ℕ) (frames : List StackFrame)
      → walk rsp stack maps read rounds bp frames ≡ walk rsp stack maps other rounds bp frames
  unfolding walk
  walk_read zero bp frames = refl
  walk_read (suc rounds) bp frames = if_else (leb 256 (length frames)) _ (λ _.
      if_else (bp == 0) _ (λ _. if_else (is_outside rsp stack bp) _ (λ inside.
        rw (same_inside bp inside) (
          option_else (other bp) _ _ _ (λ bytes.
            let previous = from_ne_bytes (take 8 bytes) in
            let address = from_ne_bytes (drop 8 bytes) in
            if_else (address == 0) _ (λ _. if_else (not (is_code maps address)) _ (λ _.
              if_else (leb previous bp) _
                (λ _. walk_read rounds previous (frames ++ raw_frame address ∷ [])))))))))

-- The walk reads nothing but aligned words of the stack mapping, from the stack pointer up: another memory
-- that agrees there gives the same frames and the same reason.
pub unwind_frame_pointers_read :
    (rip rsp rbp : ℕ) (maps : List MemoryMap) (stack : MemoryMap) (read other : ℕ → Option (List ℕ))
    → find_stack rsp maps ≡ some stack
    → AgreesOnStack rsp stack read other
    → unwind_frame_pointers rip rsp rbp maps read ≡ unwind_frame_pointers rip rsp rbp maps other
unfolding unwind_frame_pointers
unwind_frame_pointers_read rip rsp rbp maps stack read other found same =
    rw (unwind_frame_pointers, found)
      (walk_read rsp stack maps read other same 256 rbp (raw_frame rip ∷ []))
