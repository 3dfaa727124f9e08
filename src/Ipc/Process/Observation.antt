-- ===== src/Ipc/Process/Observation.antt =====
-- src/ipc/model/process.rs: derived observations, as they go over the wire.
use procinsh.Prelude.{ℕ, refl, Option, List}
use procinsh.Prelude.Int.{ℤ}
use procinsh.Ipc.Codec.Wire.{Wire}
use procinsh.Ipc.Codec.Combine.{◌⊗◌, wire_struct}
use procinsh.Ipc.Codec.Values.{u64, i32, i64, F64, f64}
use procinsh.Ipc.Codec.Lists.{vec}
use procinsh.Ipc.Codec.Choices.{option}
use procinsh.Ipc.Identity.{ProcessId, process_id_wire}
use procinsh.Ipc.Process.Sample.{IoStats, io_stats_wire}
use procinsh.Ipc.Threads.Sample.{ThreadObservation, thread_observation_wire}

pub record Rates : Type 0 where
  pub minor_faults : Option F64
  pub major_faults : Option F64
  pub voluntary_context_switches : Option F64
  pub nonvoluntary_context_switches : Option F64
  pub read_bytes : Option F64
  pub write_bytes : Option F64

unfoldable pub rates_wire : Wire Rates
unfolding wire_struct
rates_wire =
    wire_struct (option f64 ⊗ option f64 ⊗ option f64 ⊗ option f64 ⊗ option f64 ⊗ option f64)
      (λ r. (
        r.minor_faults,
        (
          r.major_faults,
          (
            r.voluntary_context_switches,
            (r.nonvoluntary_context_switches, (r.read_bytes, r.write_bytes)),
          ),
        ),
      ))
      (λ t. record {
        minor_faults = t.0;
        major_faults = t.1.0;
        voluntary_context_switches = t.1.1.0;
        nonvoluntary_context_switches = t.1.1.1.0;
        read_bytes = t.1.1.1.1.0;
        write_bytes = t.1.1.1.1.1;
      })
      (λ r. refl) (λ t. refl)

pub record ProcessObservation : Type 0 where
  pub timestamp : ℕ
  pub process_id : ProcessId
  pub cpu_percent : Option F64
  pub rss_bytes : ℕ
  pub vms_bytes : ℕ
  pub minor_faults : ℕ
  pub major_faults : ℕ
  pub voluntary_context_switches : Option ℕ
  pub nonvoluntary_context_switches : Option ℕ
  pub io : Option IoStats
  pub rates : Rates
  pub threads : List ThreadObservation
  pub cpu : ℤ
  pub nice : ℤ
  pub priority : ℤ

unfoldable pub process_observation_wire : Wire ProcessObservation
unfolding wire_struct
process_observation_wire =
    wire_struct
      (u64
        ⊗ process_id_wire
        ⊗ option f64
        ⊗ u64
        ⊗ u64
        ⊗ u64
        ⊗ u64
        ⊗ option u64
        ⊗ option u64
        ⊗ option io_stats_wire
        ⊗ rates_wire
        ⊗ vec thread_observation_wire
        ⊗ i32
        ⊗ i64
        ⊗ i64)
      (λ r. (
        r.timestamp,
        (
          r.process_id,
          (
            r.cpu_percent,
            (
              r.rss_bytes,
              (
                r.vms_bytes,
                (
                  r.minor_faults,
                  (
                    r.major_faults,
                    (
                      r.voluntary_context_switches,
                      (
                        r.nonvoluntary_context_switches,
                        (r.io, (r.rates, (r.threads, (r.cpu, (r.nice, r.priority))))),
                      ),
                    ),
                  ),
                ),
              ),
            ),
          ),
        ),
      ))
      (λ t. record {
        timestamp = t.0;
        process_id = t.1.0;
        cpu_percent = t.1.1.0;
        rss_bytes = t.1.1.1.0;
        vms_bytes = t.1.1.1.1.0;
        minor_faults = t.1.1.1.1.1.0;
        major_faults = t.1.1.1.1.1.1.0;
        voluntary_context_switches = t.1.1.1.1.1.1.1.0;
        nonvoluntary_context_switches = t.1.1.1.1.1.1.1.1.0;
        io = t.1.1.1.1.1.1.1.1.1.0;
        rates = t.1.1.1.1.1.1.1.1.1.1.0;
        threads = t.1.1.1.1.1.1.1.1.1.1.1.0;
        cpu = t.1.1.1.1.1.1.1.1.1.1.1.1.0;
        nice = t.1.1.1.1.1.1.1.1.1.1.1.1.1.0;
        priority = t.1.1.1.1.1.1.1.1.1.1.1.1.1.1;
      })
      (λ r. refl) (λ t. refl)
