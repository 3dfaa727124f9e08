-- ===== src/Ipc/Acquisition/Status.antt =====
-- src/ipc/acquisition.rs: activity and sensor status, as they go over the wire.
use procinsh.Prelude.{ℕ, ◌≡◌, refl, ◌⊎◌, inl, inr, Bool, Option, List}
use procinsh.Ipc.Codec.{invalid_tag}
use procinsh.Ipc.Codec.Wire.{Wire}
use procinsh.Ipc.Codec.Combine.{◌⊗◌, wire_struct}
use procinsh.Ipc.Codec.Values.{u64, bool, Text, string}
use procinsh.Ipc.Codec.Lists.{vec}
use procinsh.Ipc.Codec.Choices.{option}
use procinsh.Ipc.Codec.Enums.{arm, last, bare, with, wire_enum}
use procinsh.Ipc.Activity.{
  CpuActivity, FileActivity, IpcActivity, RawActivity, SignalEvent, cpu_activity_wire,
  file_activity_wire, ipc_activity_wire, raw_activity_wire, signal_event_wire,
}

pub data SensorState : Type 0 where
  idle observing : SensorState
  unavailable : Text → SensorState
  error : Text → SensorState

abbrev SensorStateSum : Type 0
SensorStateSum = Unit {0} ⊎ (Unit {0} ⊎ (Text ⊎ Text))

to_sensor_state : SensorState → SensorStateSum
to_sensor_state SensorState.idle = inl tt
to_sensor_state SensorState.observing = inr (inl tt)
to_sensor_state (SensorState.unavailable a) = inr (inr (inl a))
to_sensor_state (SensorState.error a) = inr (inr (inr a))

of_sensor_state : SensorStateSum → SensorState
of_sensor_state (inl _) = SensorState.idle
of_sensor_state (inr (inl _)) = SensorState.observing
of_sensor_state (inr (inr (inl x))) = SensorState.unavailable x
of_sensor_state (inr (inr (inr x))) = SensorState.error x

of_sensor_state-to_sensor_state : (e : SensorState) → of_sensor_state (to_sensor_state e) ≡ e
unfolding of_sensor_state to_sensor_state
of_sensor_state-to_sensor_state SensorState.idle = refl
of_sensor_state-to_sensor_state _ = refl

to_sensor_state-of_sensor_state : (x : SensorStateSum) → to_sensor_state (of_sensor_state x) ≡ x
unfolding of_sensor_state to_sensor_state
to_sensor_state-of_sensor_state (inl x) = refl
to_sensor_state-of_sensor_state (inr (inl x)) = refl
to_sensor_state-of_sensor_state (inr (inr (inl x))) = refl
to_sensor_state-of_sensor_state (inr (inr (inr x))) = refl

unfoldable pub sensor_state_wire : Wire SensorState
unfolding wire_enum arm last bare with to_sensor_state of_sensor_state
    of_sensor_state-to_sensor_state to_sensor_state-of_sensor_state
sensor_state_wire =
    wire_enum
      (arm 0 refl bare
        (arm 1 refl bare (arm 2 refl (with string) (last invalid_tag 3 refl (with string)) refl)
          refl)
        refl)
      to_sensor_state of_sensor_state of_sensor_state-to_sensor_state
      to_sensor_state-of_sensor_state

pub record SystemMonitorStatus : Type 0 where
  pub active : Bool
  pub ipc : SensorState
  pub cpu : SensorState
  pub files : SensorState
  pub signals : SensorState
  pub signals_lost : Option ℕ
  pub coverage : Option Text
  pub files_coverage : Option Text
  pub lost : Option ℕ
  pub unresolved : Option ℕ
  pub files_lost : Option ℕ

unfoldable pub system_monitor_status_wire : Wire SystemMonitorStatus
unfolding wire_struct
system_monitor_status_wire =
    wire_struct
      (bool
        ⊗ sensor_state_wire
        ⊗ sensor_state_wire
        ⊗ sensor_state_wire
        ⊗ sensor_state_wire
        ⊗ option u64
        ⊗ option string
        ⊗ option string
        ⊗ option u64
        ⊗ option u64
        ⊗ option u64)
      (λ r. (
        r.active,
        (
          r.ipc,
          (
            r.cpu,
            (
              r.files,
              (
                r.signals,
                (
                  r.signals_lost,
                  (r.coverage, (r.files_coverage, (r.lost, (r.unresolved, r.files_lost)))),
                ),
              ),
            ),
          ),
        ),
      ))
      (λ t. record {
        active = t.0;
        ipc = t.1.0;
        cpu = t.1.1.0;
        files = t.1.1.1.0;
        signals = t.1.1.1.1.0;
        signals_lost = t.1.1.1.1.1.0;
        coverage = t.1.1.1.1.1.1.0;
        files_coverage = t.1.1.1.1.1.1.1.0;
        lost = t.1.1.1.1.1.1.1.1.0;
        unresolved = t.1.1.1.1.1.1.1.1.1.0;
        files_lost = t.1.1.1.1.1.1.1.1.1.1;
      })
      (λ r. refl) (λ t. refl)

pub record SystemActivity : Type 0 where
  pub captured_at : ℕ
  pub window_ms : ℕ
  pub files : List FileActivity
  pub ipc : List IpcActivity
  pub cpu : List CpuActivity
  pub signals : List SignalEvent
  pub status : SystemMonitorStatus
  pub raw_activity : Option RawActivity

unfoldable pub system_activity_wire : Wire SystemActivity
unfolding wire_struct
system_activity_wire =
    wire_struct
      (u64
        ⊗ u64
        ⊗ vec file_activity_wire
        ⊗ vec ipc_activity_wire
        ⊗ vec cpu_activity_wire
        ⊗ vec signal_event_wire
        ⊗ system_monitor_status_wire
        ⊗ option raw_activity_wire)
      (λ r. (
        r.captured_at,
        (r.window_ms, (r.files, (r.ipc, (r.cpu, (r.signals, (r.status, r.raw_activity)))))),
      ))
      (λ t. record {
        captured_at = t.0;
        window_ms = t.1.0;
        files = t.1.1.0;
        ipc = t.1.1.1.0;
        cpu = t.1.1.1.1.0;
        signals = t.1.1.1.1.1.0;
        status = t.1.1.1.1.1.1.0;
        raw_activity = t.1.1.1.1.1.1.1;
      })
      (λ r. refl) (λ t. refl)
