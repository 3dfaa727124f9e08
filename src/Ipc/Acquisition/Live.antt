-- ===== src/Ipc/Acquisition/Live.antt =====
-- src/ipc/acquisition.rs: live samples, as they go over the wire.
use procinsh.Prelude.{ℕ, ◌≡◌, refl, sym, ap, ◌⊎◌, inl, inr, Bool, Option, none, List, ok-injective}
use procinsh.Prelude.{ok}
use procinsh.Prelude.Int.{ℤ}
use procinsh.Ipc.Codec.{Fallible, invalid_tag}
use procinsh.Ipc.Codec.Wire.{Wire}
use procinsh.Ipc.Codec.Combine.{◌⊗◌, wire_struct, wire_as}
use procinsh.Ipc.Codec.Values.{u8, u32, u64, i32, bool, Text, string}
use procinsh.Ipc.Codec.Lists.{vec, array}
use procinsh.Ipc.Codec.Choices.{option}
use procinsh.Ipc.Codec.Enums.{arm, last, bare, with, wire_enum}
use procinsh.Ipc.Memory.{MappingSnapshot}
use procinsh.Ipc.Registers.{Register, RegisterSet, register_set_wire, register_wire}
use procinsh.Ipc.Stack.{StackFrame, stack_frame_wire}
use procinsh.Ipc.Registers.{Target}

pub record InstructionBytes : Type 0 where
  pub address : ℕ
  pub bytes : List ℕ
  pub error : Option Text

unfoldable pub instruction_bytes_wire : Wire InstructionBytes
unfolding wire_struct
instruction_bytes_wire =
    wire_struct (u64 ⊗ vec u8 ⊗ option string) (λ r. (r.address, (r.bytes, r.error)))
      (λ t. record { address = t.0; bytes = t.1.0; error = t.1.1 }) (λ r. refl) (λ t. refl)

pub record LiveSample : Type 0 where
  pub tid : ℤ
  pub executable_header : Option (List ℕ)
  pub sampled_at : Option ℕ
  pub sample_time_ns : Option ℕ
  pub sample_age_ms : Option ℕ
  pub cpu : Option ℕ
  pub lost_samples : ℕ
  pub registers : List Register
  pub raw_registers : Option RegisterSet
  pub stack_bytes : List ℕ
  pub map_epoch : Option ℕ
  pub context : Option MappingSnapshot
  pub call_stack : List StackFrame
  pub disassembly : Option InstructionBytes
  pub unwind_stop : Text
  pub error : Option Text

abbrev LiveFields : Type 0
LiveFields =
    ℤ
    × (Option (List ℕ)
        × (Option ℕ
            × (Option ℕ
                × (Option ℕ
                    × (Option ℕ
                        × (ℕ
                            × (List Register
                                × (Option RegisterSet
                                    × (List ℕ
                                        × (Option ℕ
                                            × (List StackFrame
                                                × (Option InstructionBytes
                                                    × (Text × Option Text)))))))))))))

abbrev live_fields : LiveSample → LiveFields
live_fields r = (
  r.tid,
  (
    r.executable_header,
    (
      r.sampled_at,
      (
        r.sample_time_ns,
        (
          r.sample_age_ms,
          (
            r.cpu,
            (
              r.lost_samples,
              (
                r.registers,
                (
                  r.raw_registers,
                  (
                    r.stack_bytes,
                    (r.map_epoch, (r.call_stack, (r.disassembly, (r.unwind_stop, r.error)))),
                  ),
                ),
              ),
            ),
          ),
        ),
      ),
    ),
  ),
)

-- `context` does not travel: `read` leaves it at its default.
abbrev of_live_fields : LiveFields → LiveSample
of_live_fields t = record {
  tid = t.0;
  executable_header = t.1.0;
  sampled_at = t.1.1.0;
  sample_time_ns = t.1.1.1.0;
  sample_age_ms = t.1.1.1.1.0;
  cpu = t.1.1.1.1.1.0;
  lost_samples = t.1.1.1.1.1.1.0;
  registers = t.1.1.1.1.1.1.1.0;
  raw_registers = t.1.1.1.1.1.1.1.1.0;
  stack_bytes = t.1.1.1.1.1.1.1.1.1.0;
  map_epoch = t.1.1.1.1.1.1.1.1.1.1.0;
  context = none;
  call_stack = t.1.1.1.1.1.1.1.1.1.1.1.0;
  disassembly = t.1.1.1.1.1.1.1.1.1.1.1.1.0;
  unwind_stop = t.1.1.1.1.1.1.1.1.1.1.1.1.1.0;
  error = t.1.1.1.1.1.1.1.1.1.1.1.1.1.1;
}

live_wire : Target → Wire LiveFields
live_wire target =
    i32
    ⊗ option (array 19 u8)
    ⊗ option u64
    ⊗ option u64
    ⊗ option u64
    ⊗ option u32
    ⊗ u64
    ⊗ vec register_wire
    ⊗ option (register_set_wire target)
    ⊗ vec u8
    ⊗ option u64
    ⊗ vec stack_frame_wire
    ⊗ option instruction_bytes_wire
    ⊗ string
    ⊗ option string

abbrev IsLiveSample : Target → LiveSample → Type 0
IsLiveSample target r = (live_wire target).IsRepresentable (live_fields r) × (r.context ≡ none)

live_rep :
    (target : Target) (r : LiveSample)
    → IsLiveSample target r
    → (live_wire target).IsRepresentable (live_fields r)
      × (◌≡◌ {A = Fallible LiveSample} (ok (of_live_fields (live_fields r))) (ok r))
live_rep target r (rep, alone) = (rep, λ i. ok (record r { context = sym alone i }))

live_sound :
    (target : Target) (t : LiveFields) (r : LiveSample)
    → (live_wire target).IsRepresentable t
    → ◌≡◌ {A = Fallible LiveSample} (ok (of_live_fields t)) (ok r)
    → IsLiveSample target r × (t ≡ live_fields r)
live_sound target t r rep e =
    let same : of_live_fields t ≡ r = ok-injective e in
    let fields : t ≡ live_fields r = ap live_fields same in
    ((rw fields at rep, ap (λ (x : LiveSample). x.context) (sym same)), fields)

unfoldable pub live_sample_wire : Target → Wire LiveSample
unfolding live_wire live_rep live_sound wire_as
live_sample_wire target =
    wire_as (live_wire target) live_fields (λ t. ok (of_live_fields t)) (IsLiveSample target)
      (live_rep target) (live_sound target)

pub data SampleSource : Type 0 where
  cpu_clock ptrace : SampleSource
  context_switch : Bool → SampleSource

abbrev SampleSourceSum : Type 0
SampleSourceSum = Unit {0} ⊎ (Unit {0} ⊎ Bool)

to_sample_source : SampleSource → SampleSourceSum
to_sample_source SampleSource.cpu_clock = inl tt
to_sample_source SampleSource.ptrace = inr (inl tt)
to_sample_source (SampleSource.context_switch a) = inr (inr a)

of_sample_source : SampleSourceSum → SampleSource
of_sample_source (inl _) = SampleSource.cpu_clock
of_sample_source (inr (inl _)) = SampleSource.ptrace
of_sample_source (inr (inr x)) = SampleSource.context_switch x

of_sample_source-to_sample_source : (e : SampleSource) → of_sample_source (to_sample_source e) ≡ e
unfolding of_sample_source to_sample_source
of_sample_source-to_sample_source SampleSource.cpu_clock = refl
of_sample_source-to_sample_source _ = refl

to_sample_source-of_sample_source :
    (x : SampleSourceSum) → to_sample_source (of_sample_source x) ≡ x
unfolding of_sample_source to_sample_source
to_sample_source-of_sample_source (inl x) = refl
to_sample_source-of_sample_source (inr (inl x)) = refl
to_sample_source-of_sample_source (inr (inr x)) = refl

unfoldable pub sample_source_wire : Wire SampleSource
unfolding wire_enum arm last bare with to_sample_source of_sample_source
    of_sample_source-to_sample_source to_sample_source-of_sample_source
sample_source_wire =
    wire_enum (arm 0 refl bare (arm 1 refl bare (last invalid_tag 2 refl (with bool)) refl) refl)
      to_sample_source of_sample_source of_sample_source-to_sample_source
      to_sample_source-of_sample_source
