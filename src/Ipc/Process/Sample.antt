-- ===== src/Ipc/Process/Sample.antt =====
-- src/ipc/model/process.rs: raw samples, as they go over the wire.
use procinsh.Prelude.{ℕ, refl, Option, List}
use procinsh.Prelude.Int.{ℤ}
use procinsh.Ipc.Codec.Wire.{Wire}
use procinsh.Ipc.Codec.Combine.{◌⊗◌, wire_struct}
use procinsh.Ipc.Codec.Values.{u64, i32, i64}
use procinsh.Ipc.Codec.Lists.{vec}
use procinsh.Ipc.Codec.Choices.{option}
use procinsh.Ipc.Identity.{ProcessId, process_id_wire}
use procinsh.Ipc.Threads.Sample.{ThreadSample, thread_sample_wire}

pub record IoStats : Type 0 where
  pub read_bytes : ℕ
  pub write_bytes : ℕ

unfoldable pub io_stats_wire : Wire IoStats
unfolding wire_struct
io_stats_wire =
    wire_struct (u64 ⊗ u64) (λ r. (r.read_bytes, r.write_bytes))
      (λ t. record { read_bytes = t.0; write_bytes = t.1 }) (λ r. refl) (λ t. refl)

pub record ProcessSample : Type 0 where
  pub timestamp : ℕ
  pub process_id : ProcessId
  pub rss_bytes : ℕ
  pub vms_bytes : ℕ
  pub minor_faults : ℕ
  pub major_faults : ℕ
  pub voluntary_context_switches : Option ℕ
  pub nonvoluntary_context_switches : Option ℕ
  pub io : Option IoStats
  pub threads : List ThreadSample
  pub cpu : ℤ
  pub nice : ℤ
  pub priority : ℤ
  pub ticks : ℕ
  pub measured_at : ℕ

unfoldable pub process_sample_wire : Wire ProcessSample
unfolding wire_struct
process_sample_wire =
    wire_struct
      (u64
        ⊗ process_id_wire
        ⊗ u64
        ⊗ u64
        ⊗ u64
        ⊗ u64
        ⊗ option u64
        ⊗ option u64
        ⊗ option io_stats_wire
        ⊗ vec thread_sample_wire
        ⊗ i32
        ⊗ i64
        ⊗ i64
        ⊗ u64
        ⊗ u64)
      (λ r. (
        r.timestamp,
        (
          r.process_id,
          (
            r.rss_bytes,
            (
              r.vms_bytes,
              (
                r.minor_faults,
                (
                  r.major_faults,
                  (
                    r.voluntary_context_switches,
                    (
                      r.nonvoluntary_context_switches,
                      (
                        r.io,
                        (r.threads, (r.cpu, (r.nice, (r.priority, (r.ticks, r.measured_at))))),
                      ),
                    ),
                  ),
                ),
              ),
            ),
          ),
        ),
      ))
      (λ t. record {
        timestamp = t.0;
        process_id = t.1.0;
        rss_bytes = t.1.1.0;
        vms_bytes = t.1.1.1.0;
        minor_faults = t.1.1.1.1.0;
        major_faults = t.1.1.1.1.1.0;
        voluntary_context_switches = t.1.1.1.1.1.1.0;
        nonvoluntary_context_switches = t.1.1.1.1.1.1.1.0;
        io = t.1.1.1.1.1.1.1.1.0;
        threads = t.1.1.1.1.1.1.1.1.1.0;
        cpu = t.1.1.1.1.1.1.1.1.1.1.0;
        nice = t.1.1.1.1.1.1.1.1.1.1.1.0;
        priority = t.1.1.1.1.1.1.1.1.1.1.1.1.0;
        ticks = t.1.1.1.1.1.1.1.1.1.1.1.1.1.0;
        measured_at = t.1.1.1.1.1.1.1.1.1.1.1.1.1.1;
      })
      (λ r. refl) (λ t. refl)
