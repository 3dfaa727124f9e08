-- ===== src/Ipc/Stack.antt =====
-- src/ipc/stack.rs: stack frames, as they go over the wire.
use procinsh.Prelude.{ℕ, refl, Option, List}
use procinsh.Ipc.Codec.Wire.{Wire}
use procinsh.Ipc.Codec.Combine.{◌⊗◌, wire_struct}
use procinsh.Ipc.Codec.Values.{u32, u64, Text, string}
use procinsh.Ipc.Codec.Lists.{vec}
use procinsh.Ipc.Codec.Choices.{option}

pub record SourceFrame : Type 0 where
  pub function : Option Text
  pub file : Option Text
  pub line : Option ℕ

unfoldable pub source_frame_wire : Wire SourceFrame
unfolding wire_struct
source_frame_wire =
    wire_struct (option string ⊗ option string ⊗ option u32) (λ r. (r.function, (r.file, r.line)))
      (λ t. record { function = t.0; file = t.1.0; line = t.1.1 }) (λ r. refl) (λ t. refl)

pub record StackFrame : Type 0 where
  pub address : ℕ
  pub symbol : Option Text
  pub symbol_offset : Option Text
  pub source_file : Option Text
  pub line : Option ℕ
  pub inline_frames : List SourceFrame

unfoldable pub stack_frame_wire : Wire StackFrame
unfolding wire_struct
stack_frame_wire =
    wire_struct
      (u64 ⊗ option string ⊗ option string ⊗ option string ⊗ option u32 ⊗ vec source_frame_wire)
      (λ r. (r.address, (r.symbol, (r.symbol_offset, (r.source_file, (r.line, r.inline_frames))))))
      (λ t. record {
        address = t.0;
        symbol = t.1.0;
        symbol_offset = t.1.1.0;
        source_file = t.1.1.1.0;
        line = t.1.1.1.1.0;
        inline_frames = t.1.1.1.1.1;
      })
      (λ r. refl) (λ t. refl)
