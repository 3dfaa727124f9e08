-- ===== src/Sampling/Perf.antt =====
-- src/privileged_helper/process/snapshot/perf.rs: the records that the kernel writes into a ring. The
-- memory of the ring is a function, its size a field; `head` is what a load of the kernel's head returns.
use procinsh.Prelude.{
  ℕ, zero, suc, ◌+◌, ◌-◌, ◌/◌, ◌%◌, ◌^◌, Bool, true, false, List, [], ◌∷◌, leb, ◌==◌, if◌then◌else◌,
  length, take, drop, Option, none, some, Result, ok, err, ◌>>=◌,
}
use procinsh.Prelude.Int.{ℤ, of_pattern}
use procinsh.Ipc.Codec.{from_ne_bytes}
use procinsh.Ipc.Registers.{Target, x86_64, aarch64, RegisterSet, register_count}
use procinsh.Ipc.Acquisition.Live.{SampleSource}

pub record RawSample : Type 0 where
  pub source : SampleSource
  pub tid : ℤ
  pub time_ns : ℕ
  pub cpu : Option ℕ
  pub registers : RegisterSet
  pub stack : List ℕ

pub data PerfError : Type 0 where
  ring_overrun truncated_header invalid_size truncated_sample not_user_mode invalid_stack :
      PerfError
  -- No error of the program: the model has run out of rounds.
  out_of_rounds : PerfError

abbrev pub Reading : Type 0 → Type 0
Reading A = Result PerfError A

-- `Cursor::take` and `Cursor::u64`: what is taken, and what the cursor is left with.
unfoldable pub take_bytes : ℕ → List ℕ → Reading (List ℕ × List ℕ)
take_bytes n bytes =
    if leb n (length bytes) then ok (take n bytes, drop n bytes) else err truncated_sample

unfoldable pub take_u64 : List ℕ → Reading (ℕ × List ℕ)
unfolding take_bytes from_ne_bytes
take_u64 bytes = do (value, rest) ← take_bytes 8 bytes; ok (from_ne_bytes value, rest)

-- `i32::from_ne_bytes(tids[4..])`.
abbrev pub thread_of : List ℕ → ℤ
thread_of tids = of_pattern (2 ^ 31) (from_ne_bytes (drop 4 tids))

unfoldable pub perf_regs_mask : Target → ℕ
perf_regs_mask x86_64 = 0xff03ff
perf_regs_mask aarch64 = 2 ^ 33 - 1

abbrev pub is_captured : Target → ℕ → Bool
is_captured target i = (perf_regs_mask target / 2 ^ i) % 2 == 1

-- The registers from index `i` on: one that the mask leaves out keeps its 0.
unfoldable pub take_registers : Target → ℕ → ℕ → List ℕ → Reading (List ℕ × List ℕ)
unfolding perf_regs_mask take_u64
take_registers target zero i bytes = ok ([], bytes)
take_registers target (suc count) i bytes = do
  (value, bytes) ← if is_captured target i then take_u64 bytes else ok (0, bytes)
  (values, bytes) ← take_registers target count (i + 1) bytes
  ok (value ∷ values, bytes)

abbrev pub has_flags : Target → Bool
has_flags x86_64 = true
has_flags aarch64 = false

unfoldable pub parse_perf_sample : Target → List ℕ → Reading (Option RawSample)
unfolding take_registers take_u64 take_bytes from_ne_bytes register_count
parse_perf_sample target bytes = do
  (tids, bytes) ← take_bytes 8 bytes
  (time_ns, bytes) ← take_u64 bytes
  (cpu, bytes) ← take_u64 bytes
  (abi, bytes) ← take_u64 bytes
  let user_mode = do
    (values, bytes) ← take_registers target (register_count target) 0 bytes
    (size, bytes) ← take_u64 bytes
    (stack, bytes) ← take_bytes size bytes
    (used, bytes) ← if size == 0 then ok (0, bytes) else take_u64 bytes
    let sample : RawSample = record {
      source = SampleSource.cpu_clock;
      tid = thread_of tids;
      time_ns = time_ns;
      cpu = some (cpu % 2 ^ 32);
      registers = record {
        values = values;
        flags_available = has_flags target;
        code_pac_mask = none;
      };
      stack = take used stack;
    }
    if leb used size then ok (some sample) else err invalid_stack
  if abi == 0 then ok none else if abi == 2 then user_mode else err not_user_mode
