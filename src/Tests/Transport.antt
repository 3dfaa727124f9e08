-- ===== src/Tests/Transport.antt =====
-- The transport of src/ipc/transport.rs at a frame of one byte.
use procinsh.Prelude.{
  ℕ, zero, suc, ◌≡◌, ◌≤◌, refl, ap, arith, inr, List, [], ◌∷◌, ◌++◌, All, length, ok, err,
}
use procinsh.Ipc.Codec.{limit_exceeded, to_ne_bytes, from_ne_bytes, take_bytes, read_number}
use procinsh.Ipc.Codec.Wire.{decode}
use procinsh.Ipc.Codec.Bytes.{IsByte}
use procinsh.Ipc.Codec.Laws.{blob_code}
use procinsh.Ipc.Schema.Request.{ProcessResource, process_resource_wire}
use procinsh.Prelude.{Option, none, some}
use procinsh.Prelude.Int.{pos}
use procinsh.Ipc.Codec.Combine.{◌⊗◌}
use procinsh.Ipc.Codec.Values.{i32, number, string, is_utf8}
use procinsh.Ipc.Codec.Choices.{option, option_code}
use procinsh.Ipc.Codec.Lists.{vec, vec_code, items_code}
use procinsh.Ipc.Acquisition.Live.{LiveSample, live_sample_wire}
use procinsh.Ipc.Memory.{MappingSnapshot}
use procinsh.Ipc.Registers.{x86_64}
use procinsh.Ipc.Schema.Contexts.{context-IsWritten}
use procinsh.Ipc.Transport.{
  Turn, moved, interrupted, disconnected, timed_out, codec, invalid_frame_length, read_until,
  write_until, send, read_timeout,
}
use procinsh.Ipc.Transport.Schedules.{IsPrompt, Leaves, read_until-fragments, write_until-fragments}
use procinsh.Ipc.Transport.Frames.{
  send_too_large, read_timeout-send, read_timeout_sound, read_timeout_bad_length,
}

abbrev at_time : ℕ → Turn
at_time t = record { now = t; event = moved 1 }

abbrev stalled : ℕ → Turn
stalled t = record { now = t; event = interrupted }

-- Two bytes at most in a turn, with interruptions.
abbrev slow : List Turn
slow =
    at_time 1
    ∷ stalled 2
    ∷ at_time 3
    ∷ at_time 4
    ∷ stalled 5
    ∷ at_time 6
    ∷ at_time 7
    ∷ at_time 8
    ∷ []

abbrev maps_frame : List ℕ
maps_frame = 1 ∷ 0 ∷ 0 ∷ 0 ∷ 2 ∷ []

-- The stream ends inside the header; the deadline passes inside it.
read_until_errors :
    (read_until 30 slow 4 (1 ∷ 0 ∷ 0 ∷ []) ≡ err disconnected)
    × (read_until 3 slow 4 maps_frame ≡ err timed_out)
unfolding read_until
read_until_errors = (refl, refl)

slow-IsPrompt : All (IsPrompt 30) slow
slow-IsPrompt = omega arith

maps-code : process_resource_wire.code ProcessResource.maps ≡ 2 ∷ []
unfolding process_resource_wire
maps-code = refl

maps-size : length (process_resource_wire.code ProcessResource.maps) ≡ 1
maps-size = ap length maps-code

maps_representable : process_resource_wire.IsRepresentable ProcessResource.maps
unfolding process_resource_wire
maps_representable = tt

read_until-fragments_example :
    (left : List Turn) × (read_until 30 slow 5 (maps_frame ++ (9 ∷ []))
      ≡ ok (maps_frame, (9 ∷ [], left)))
    × Leaves 30 slow 5 left
read_until-fragments_example =
    read_until-fragments 30 slow maps_frame (9 ∷ []) slow-IsPrompt (omega arith)

write_until-fragments_example :
    (left : List Turn) × (write_until 30 slow maps_frame (9 ∷ []) ≡ ok (9 ∷ maps_frame, left))
    × Leaves 30 slow 5 left
write_until-fragments_example =
    write_until-fragments 30 slow maps_frame (9 ∷ []) slow-IsPrompt (omega arith)

abbrev pub mapping : MappingSnapshot
mapping = record { epoch = 1; maps = [] }

-- A sample of an idle thread.
abbrev pub sample : Option MappingSnapshot → LiveSample
sample context = record {
  tid = pos 7;
  executable_header = none;
  sampled_at = some 5;
  sample_time_ns = none;
  sample_age_ms = none;
  cpu = some 3;
  lost_samples = 0;
  registers = [];
  raw_registers = none;
  stack_bytes = [];
  map_epoch = some 1;
  context = context;
  call_stack = [];
  disassembly = none;
  unwind_stop = record { bytes = [] };
  error = none;
}

pub sample-IsRepresentable : (live_sample_wire x86_64).IsRepresentable (sample none)
unfolding live_sample_wire ◌⊗◌ i32 number option vec string is_utf8
sample-IsRepresentable = (
  (
    omega arith,
    (
      tt,
      (
        omega arith,
        (
          tt,
          (
            tt,
            (
              omega arith,
              (omega arith, (tt, (tt, (tt, (omega arith, (tt, (tt, ((tt, refl), tt)))))))),
            ),
          ),
        ),
      ),
    ),
  ),
  refl,
)

sample-size : length ((live_sample_wire x86_64).code (sample none)) ≡ 57
unfolding live_sample_wire ◌⊗◌ i32 number option vec vec_code items_code option_code string
    to_ne_bytes
sample-size = refl

abbrev fast : ℕ → List Turn
fast zero = []
fast (suc n) = at_time n ∷ at_time n ∷ at_time n ∷ fast n

fast-IsPrompt : All (IsPrompt 30) (fast 21)
fast-IsPrompt = omega arith

-- A sample with its context, which the reader does not get.
read_timeout-send_example :
    (wire : List ℕ) × (written : List Turn) × (left : List Turn) × (send
        (live_sample_wire x86_64)
        (sample (some mapping))
        1024
        30
        (fast 21)
        []
      ≡ ok (wire, written))
    × (read_timeout (live_sample_wire x86_64) 1024 30 (fast 21) wire ≡ ok (sample none, ([], left)))
read_timeout-send_example =
    read_timeout-send (live_sample_wire x86_64) (sample (some mapping)) (sample none) 1024 30 30
      (fast 21) (fast 21) (context-IsWritten x86_64 (sample (some mapping))) sample-IsRepresentable
      (omega (arith, sample-size)) fast-IsPrompt (omega (arith, sample-size)) fast-IsPrompt
      (omega (arith, sample-size))

-- A header that announces 1025 bytes against a limit of 1024.
read_timeout_bad_length_example :
    read_timeout process_resource_wire 1024 30 slow (to_ne_bytes 4 1025 ++ [])
    ≡ err invalid_frame_length
read_timeout_bad_length_example =
    read_timeout_bad_length process_resource_wire 1024 30 slow 1025 [] (omega arith)
      (inr (omega arith)) slow-IsPrompt (omega arith)

send_too_large_example :
    send process_resource_wire ProcessResource.maps 0 30 slow (9 ∷ []) ≡ err (codec limit_exceeded)
send_too_large_example =
    send_too_large process_resource_wire ProcessResource.maps 0 30 slow (9 ∷ []) maps_representable
      (omega (arith, maps-size))

abbrev last_turns : List Turn
last_turns = stalled 5 ∷ at_time 6 ∷ at_time 7 ∷ at_time 8 ∷ []

maps_read :
    read_timeout process_resource_wire 8 30 slow maps_frame
    ≡ ok (ProcessResource.maps, ([], last_turns))
unfolding read_timeout process_resource_wire read_number take_bytes from_ne_bytes decode
maps_read = refl

maps_frame-IsByte : All IsByte maps_frame
maps_frame-IsByte = omega arith

read_timeout_sound_example :
    process_resource_wire.IsRepresentable ProcessResource.maps
    × (maps_frame ≡ blob_code (process_resource_wire.code ProcessResource.maps) ++ [])
    × (length (process_resource_wire.code ProcessResource.maps) ≤ 8)
read_timeout_sound_example =
    read_timeout_sound process_resource_wire 8 30 slow maps_frame ProcessResource.maps [] last_turns
      maps_frame-IsByte maps_read
