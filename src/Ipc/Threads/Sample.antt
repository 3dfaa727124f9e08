-- ===== src/Ipc/Threads/Sample.antt =====
-- src/ipc/model/threads.rs: raw samples, as they go over the wire.
use procinsh.Prelude.{ℕ, refl, Option, List}
use procinsh.Prelude.Int.{ℤ}
use procinsh.Ipc.Codec.Wire.{Wire}
use procinsh.Ipc.Codec.Combine.{◌⊗◌, wire_struct}
use procinsh.Ipc.Codec.Values.{u64, i32, i64, F64, f64, Text, string}
use procinsh.Ipc.Codec.Lists.{vec}
use procinsh.Ipc.Codec.Choices.{option}
use procinsh.Ipc.Threads.Policy.{CpuRange, SchedulerPolicy, cpu_range_wire, scheduler_policy_wire}

pub record ThreadObservation : Type 0 where
  pub tid : ℤ
  pub name : Text
  pub state : Text
  pub cpu : ℤ
  pub cpu_percent : Option F64
  pub priority : ℤ
  pub nice : ℤ
  pub scheduler : SchedulerPolicy
  pub affinity : Option (List CpuRange)
  pub voluntary_context_switches : Option ℕ
  pub nonvoluntary_context_switches : Option ℕ

unfoldable pub thread_observation_wire : Wire ThreadObservation
unfolding wire_struct
thread_observation_wire =
    wire_struct
      (i32
        ⊗ string
        ⊗ string
        ⊗ i32
        ⊗ option f64
        ⊗ i64
        ⊗ i64
        ⊗ scheduler_policy_wire
        ⊗ option (vec cpu_range_wire)
        ⊗ option u64
        ⊗ option u64)
      (λ r. (
        r.tid,
        (
          r.name,
          (
            r.state,
            (
              r.cpu,
              (
                r.cpu_percent,
                (
                  r.priority,
                  (
                    r.nice,
                    (
                      r.scheduler,
                      (r.affinity, (r.voluntary_context_switches, r.nonvoluntary_context_switches)),
                    ),
                  ),
                ),
              ),
            ),
          ),
        ),
      ))
      (λ t. record {
        tid = t.0;
        name = t.1.0;
        state = t.1.1.0;
        cpu = t.1.1.1.0;
        cpu_percent = t.1.1.1.1.0;
        priority = t.1.1.1.1.1.0;
        nice = t.1.1.1.1.1.1.0;
        scheduler = t.1.1.1.1.1.1.1.0;
        affinity = t.1.1.1.1.1.1.1.1.0;
        voluntary_context_switches = t.1.1.1.1.1.1.1.1.1.0;
        nonvoluntary_context_switches = t.1.1.1.1.1.1.1.1.1.1;
      })
      (λ r. refl) (λ t. refl)

pub record ThreadSample : Type 0 where
  pub tid : ℤ
  pub name : Text
  pub state : Text
  pub cpu : ℤ
  pub priority : ℤ
  pub nice : ℤ
  pub scheduler : SchedulerPolicy
  pub affinity : Option (List CpuRange)
  pub voluntary_context_switches : Option ℕ
  pub nonvoluntary_context_switches : Option ℕ
  pub ticks : ℕ
  pub start_time : ℕ

unfoldable pub thread_sample_wire : Wire ThreadSample
unfolding wire_struct
thread_sample_wire =
    wire_struct
      (i32
        ⊗ string
        ⊗ string
        ⊗ i32
        ⊗ i64
        ⊗ i64
        ⊗ scheduler_policy_wire
        ⊗ option (vec cpu_range_wire)
        ⊗ option u64
        ⊗ option u64
        ⊗ u64
        ⊗ u64)
      (λ r. (
        r.tid,
        (
          r.name,
          (
            r.state,
            (
              r.cpu,
              (
                r.priority,
                (
                  r.nice,
                  (
                    r.scheduler,
                    (
                      r.affinity,
                      (
                        r.voluntary_context_switches,
                        (r.nonvoluntary_context_switches, (r.ticks, r.start_time)),
                      ),
                    ),
                  ),
                ),
              ),
            ),
          ),
        ),
      ))
      (λ t. record {
        tid = t.0;
        name = t.1.0;
        state = t.1.1.0;
        cpu = t.1.1.1.0;
        priority = t.1.1.1.1.0;
        nice = t.1.1.1.1.1.0;
        scheduler = t.1.1.1.1.1.1.0;
        affinity = t.1.1.1.1.1.1.1.0;
        voluntary_context_switches = t.1.1.1.1.1.1.1.1.0;
        nonvoluntary_context_switches = t.1.1.1.1.1.1.1.1.1.0;
        ticks = t.1.1.1.1.1.1.1.1.1.1.0;
        start_time = t.1.1.1.1.1.1.1.1.1.1.1;
      })
      (λ r. refl) (λ t. refl)
