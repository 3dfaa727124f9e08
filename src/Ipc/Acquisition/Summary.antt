-- ===== src/Ipc/Acquisition/Summary.antt =====
-- src/ipc/acquisition.rs: process summaries and on-demand data, as they go over the wire.
use procinsh.Prelude.{ℕ, refl, Bool, Option, List}
use procinsh.Prelude.Int.{ℤ}
use procinsh.Ipc.Codec.Wire.{Wire}
use procinsh.Ipc.Codec.Combine.{◌⊗◌, wire_struct}
use procinsh.Ipc.Codec.Values.{u8, u32, u64, usize, i32, F64, f64, bool, Text, string}
use procinsh.Ipc.Codec.Lists.{vec}
use procinsh.Ipc.Codec.Choices.{option}
use procinsh.Ipc.Identity.{ProcessId, process_id_wire}
use procinsh.Ipc.Memory.{SmapsEntry, smaps_entry_wire}
use procinsh.Ipc.Process.Sample.{ProcessSample, process_sample_wire}

pub record ProcessSummary : Type 0 where
  pub identity : ProcessId
  pub parent_pid : ℤ
  pub name : Text
  pub executable : Option Text
  pub command_line : Option (List Text)
  pub uid : Option ℕ
  pub username : Option Text
  pub euid : Option ℕ
  pub effective_username : Option Text
  pub state : Text
  pub started_at : Option ℕ
  pub cpu_percent : Option F64
  pub rss_bytes : ℕ
  pub thread_count : ℕ
  pub raw_ticks : ℕ
  pub raw_measured_ns : ℕ

unfoldable pub process_summary_wire : Wire ProcessSummary
unfolding wire_struct
process_summary_wire =
    wire_struct
      (process_id_wire
        ⊗ i32
        ⊗ string
        ⊗ option string
        ⊗ option (vec string)
        ⊗ option u32
        ⊗ option string
        ⊗ option u32
        ⊗ option string
        ⊗ string
        ⊗ option u64
        ⊗ option f64
        ⊗ u64
        ⊗ u32
        ⊗ u64
        ⊗ u64)
      (λ r. (
        r.identity,
        (
          r.parent_pid,
          (
            r.name,
            (
              r.executable,
              (
                r.command_line,
                (
                  r.uid,
                  (
                    r.username,
                    (
                      r.euid,
                      (
                        r.effective_username,
                        (
                          r.state,
                          (
                            r.started_at,
                            (
                              r.cpu_percent,
                              (r.rss_bytes, (r.thread_count, (r.raw_ticks, r.raw_measured_ns))),
                            ),
                          ),
                        ),
                      ),
                    ),
                  ),
                ),
              ),
            ),
          ),
        ),
      ))
      (λ t. record {
        identity = t.0;
        parent_pid = t.1.0;
        name = t.1.1.0;
        executable = t.1.1.1.0;
        command_line = t.1.1.1.1.0;
        uid = t.1.1.1.1.1.0;
        username = t.1.1.1.1.1.1.0;
        euid = t.1.1.1.1.1.1.1.0;
        effective_username = t.1.1.1.1.1.1.1.1.0;
        state = t.1.1.1.1.1.1.1.1.1.0;
        started_at = t.1.1.1.1.1.1.1.1.1.1.0;
        cpu_percent = t.1.1.1.1.1.1.1.1.1.1.1.0;
        rss_bytes = t.1.1.1.1.1.1.1.1.1.1.1.1.0;
        thread_count = t.1.1.1.1.1.1.1.1.1.1.1.1.1.0;
        raw_ticks = t.1.1.1.1.1.1.1.1.1.1.1.1.1.1.0;
        raw_measured_ns = t.1.1.1.1.1.1.1.1.1.1.1.1.1.1.1;
      })
      (λ r. refl) (λ t. refl)

pub record MemoryRollup : Type 0 where
  pub rss_bytes : Option ℕ
  pub pss_bytes : Option ℕ
  pub private_bytes : Option ℕ

unfoldable pub memory_rollup_wire : Wire MemoryRollup
unfolding wire_struct
memory_rollup_wire =
    wire_struct (option u64 ⊗ option u64 ⊗ option u64)
      (λ r. (r.rss_bytes, (r.pss_bytes, r.private_bytes)))
      (λ t. record { rss_bytes = t.0; pss_bytes = t.1.0; private_bytes = t.1.1 }) (λ r. refl)
      (λ t. refl)

pub record MemoryMaps : Type 0 where
  pub process_id : ProcessId
  pub maps : List SmapsEntry
  pub error : Option Text
  pub captured_at : Option ℕ
  pub rollup : Option MemoryRollup

unfoldable pub memory_maps_wire : Wire MemoryMaps
unfolding wire_struct
memory_maps_wire =
    wire_struct
      (process_id_wire
        ⊗ vec smaps_entry_wire
        ⊗ option string
        ⊗ option u64
        ⊗ option memory_rollup_wire)
      (λ r. (r.process_id, (r.maps, (r.error, (r.captured_at, r.rollup)))))
      (λ t. record {
        process_id = t.0;
        maps = t.1.0;
        error = t.1.1.0;
        captured_at = t.1.1.1.0;
        rollup = t.1.1.1.1;
      })
      (λ r. refl) (λ t. refl)

pub record ObservationData : Type 0 where
  pub process_sample : ProcessSample
  pub threads_only : Bool

unfoldable pub observation_data_wire : Wire ObservationData
unfolding wire_struct
observation_data_wire =
    wire_struct (process_sample_wire ⊗ bool) (λ r. (r.process_sample, r.threads_only))
      (λ t. record { process_sample = t.0; threads_only = t.1 }) (λ r. refl) (λ t. refl)

pub record EnvironmentData : Type 0 where
  pub process_id : ProcessId
  pub captured_at : ℕ
  pub raw_environment : List ℕ

unfoldable pub environment_data_wire : Wire EnvironmentData
unfolding wire_struct
environment_data_wire =
    wire_struct (process_id_wire ⊗ u64 ⊗ vec u8)
      (λ r. (r.process_id, (r.captured_at, r.raw_environment)))
      (λ t. record { process_id = t.0; captured_at = t.1.0; raw_environment = t.1.1 }) (λ r. refl)
      (λ t. refl)

pub record AuxData : Type 0 where
  pub process_id : ProcessId
  pub captured_at : ℕ
  pub word_bits : ℕ
  pub raw_auxv : List ℕ
  pub raw_aux_strings : List (ℕ × (Option Text × Option Text))

unfoldable pub aux_data_wire : Wire AuxData
unfolding wire_struct
aux_data_wire =
    wire_struct (process_id_wire ⊗ u64 ⊗ usize ⊗ vec u8 ⊗ vec (u64 ⊗ option string ⊗ option string))
      (λ r. (r.process_id, (r.captured_at, (r.word_bits, (r.raw_auxv, r.raw_aux_strings)))))
      (λ t. record {
        process_id = t.0;
        captured_at = t.1.0;
        word_bits = t.1.1.0;
        raw_auxv = t.1.1.1.0;
        raw_aux_strings = t.1.1.1.1;
      })
      (λ r. refl) (λ t. refl)
