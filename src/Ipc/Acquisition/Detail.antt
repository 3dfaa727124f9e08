-- ===== src/Ipc/Acquisition/Detail.antt =====
-- src/ipc/acquisition.rs: the process detail snapshot, as they go over the wire.
use procinsh.Prelude.{ℕ, refl, Bool, Option, List}
use procinsh.Ipc.Codec.Wire.{Wire}
use procinsh.Ipc.Codec.Combine.{◌⊗◌, wire_struct}
use procinsh.Ipc.Codec.Values.{u64, bool, Text, string}
use procinsh.Ipc.Codec.Lists.{vec}
use procinsh.Ipc.Codec.Choices.{option}
use procinsh.Ipc.Acquisition.Live.{LiveSample, live_sample_wire}
use procinsh.Ipc.Acquisition.Summary.{
  MemoryRollup, ProcessSummary, memory_rollup_wire, process_summary_wire,
}
use procinsh.Ipc.Memory.{MappingSnapshot, SmapsEntry, mapping_snapshot_wire, smaps_entry_wire}
use procinsh.Ipc.Process.Sample.{ProcessSample, process_sample_wire}
use procinsh.Ipc.Registers.{Target}

pub record ProcessDetailSnapshot : Type 0 where
  pub summary : ProcessSummary
  pub exited : Bool
  pub error : Option Text
  pub process_sample : ProcessSample
  pub maps : List SmapsEntry
  pub maps_error : Option Text
  pub maps_captured_at : Option ℕ
  pub rollup : Option MemoryRollup
  pub live_samples : List LiveSample
  pub mapping_snapshots : List MappingSnapshot
  pub sampling_error : Option Text

unfoldable pub process_detail_snapshot_wire : Target → Wire ProcessDetailSnapshot
unfolding wire_struct
process_detail_snapshot_wire target =
    wire_struct
      (process_summary_wire
        ⊗ bool
        ⊗ option string
        ⊗ process_sample_wire
        ⊗ vec smaps_entry_wire
        ⊗ option string
        ⊗ option u64
        ⊗ option memory_rollup_wire
        ⊗ vec (live_sample_wire target)
        ⊗ vec mapping_snapshot_wire
        ⊗ option string)
      (λ r. (
        r.summary,
        (
          r.exited,
          (
            r.error,
            (
              r.process_sample,
              (
                r.maps,
                (
                  r.maps_error,
                  (
                    r.maps_captured_at,
                    (r.rollup, (r.live_samples, (r.mapping_snapshots, r.sampling_error))),
                  ),
                ),
              ),
            ),
          ),
        ),
      ))
      (λ t. record {
        summary = t.0;
        exited = t.1.0;
        error = t.1.1.0;
        process_sample = t.1.1.1.0;
        maps = t.1.1.1.1.0;
        maps_error = t.1.1.1.1.1.0;
        maps_captured_at = t.1.1.1.1.1.1.0;
        rollup = t.1.1.1.1.1.1.1.0;
        live_samples = t.1.1.1.1.1.1.1.1.0;
        mapping_snapshots = t.1.1.1.1.1.1.1.1.1.0;
        sampling_error = t.1.1.1.1.1.1.1.1.1.1;
      })
      (λ r. refl) (λ t. refl)
