-- ===== src/Ipc/Schema/Event.antt =====
-- src/ipc/schema.rs: events and acquired data, as they go over the wire.
use procinsh.Prelude.{ℕ, ◌≡◌, refl, ◌⊎◌, inl, inr, List}
use procinsh.Ipc.Codec.{invalid_tag}
use procinsh.Ipc.Codec.Wire.{Wire}
use procinsh.Ipc.Codec.Combine.{◌⊗◌}
use procinsh.Ipc.Codec.Values.{u64}
use procinsh.Ipc.Codec.Lists.{vec}
use procinsh.Ipc.Codec.Enums.{arm, last, bare, with, wire_enum}
use procinsh.Ipc.Acquisition.Detail.{ProcessDetailSnapshot, process_detail_snapshot_wire}
use procinsh.Ipc.Acquisition.Status.{SystemActivity, system_activity_wire}
use procinsh.Ipc.Acquisition.Summary.{
  AuxData, EnvironmentData, MemoryMaps, ObservationData, ProcessSummary, aux_data_wire,
  environment_data_wire, memory_maps_wire, observation_data_wire, process_summary_wire,
}
use procinsh.Ipc.Descriptors.{FileDescriptors, file_descriptors_wire}
use procinsh.Ipc.System.Snapshot.{SystemSnapshot, system_snapshot_wire}
use procinsh.Ipc.Registers.{Target}

pub data MonitorEvent : Type 0 where
  observation : ProcessDetailSnapshot → MonitorEvent
  acquired_snapshot : SystemSnapshot → MonitorEvent
  acquisition_gap : ℕ → SystemSnapshot → MonitorEvent
  activity : SystemActivity → MonitorEvent

abbrev MonitorEventSum : Type 0
MonitorEventSum = ProcessDetailSnapshot ⊎ (SystemSnapshot ⊎ ((ℕ × SystemSnapshot) ⊎ SystemActivity))

to_monitor_event : MonitorEvent → MonitorEventSum
to_monitor_event (MonitorEvent.observation a) = inl a
to_monitor_event (MonitorEvent.acquired_snapshot a) = inr (inl a)
to_monitor_event (MonitorEvent.acquisition_gap a b) = inr (inr (inl (a, b)))
to_monitor_event (MonitorEvent.activity a) = inr (inr (inr a))

of_monitor_event : MonitorEventSum → MonitorEvent
of_monitor_event (inl x) = MonitorEvent.observation x
of_monitor_event (inr (inl x)) = MonitorEvent.acquired_snapshot x
of_monitor_event (inr (inr (inl x))) = MonitorEvent.acquisition_gap x.0 x.1
of_monitor_event (inr (inr (inr x))) = MonitorEvent.activity x

of_monitor_event-to_monitor_event : (e : MonitorEvent) → of_monitor_event (to_monitor_event e) ≡ e
unfolding of_monitor_event to_monitor_event
of_monitor_event-to_monitor_event (MonitorEvent.observation a) = refl
of_monitor_event-to_monitor_event _ = refl

to_monitor_event-of_monitor_event :
    (x : MonitorEventSum) → to_monitor_event (of_monitor_event x) ≡ x
unfolding of_monitor_event to_monitor_event
to_monitor_event-of_monitor_event (inl x) = refl
to_monitor_event-of_monitor_event (inr (inl x)) = refl
to_monitor_event-of_monitor_event (inr (inr (inl x))) = refl
to_monitor_event-of_monitor_event (inr (inr (inr x))) = refl

unfoldable pub monitor_event_wire : Target → Wire MonitorEvent
unfolding wire_enum arm last bare with to_monitor_event of_monitor_event
    of_monitor_event-to_monitor_event to_monitor_event-of_monitor_event
monitor_event_wire target =
    wire_enum
      (arm 0 refl (with (process_detail_snapshot_wire target))
        (arm 1 refl (with system_snapshot_wire)
          (arm 2 refl (with (u64 ⊗ system_snapshot_wire))
            (last invalid_tag 3 refl (with system_activity_wire)) refl)
          refl)
        refl)
      to_monitor_event of_monitor_event of_monitor_event-to_monitor_event
      to_monitor_event-of_monitor_event

pub data AcquiredData : Type 0 where
  processes : List ProcessSummary → AcquiredData
  observation : ObservationData → AcquiredData
  maps : MemoryMaps → AcquiredData
  environment : EnvironmentData → AcquiredData
  auxv : AuxData → AcquiredData
  fds : FileDescriptors → AcquiredData

abbrev AcquiredDataSum : Type 0
AcquiredDataSum =
    List ProcessSummary
    ⊎ (ObservationData ⊎ (MemoryMaps ⊎ (EnvironmentData ⊎ (AuxData ⊎ FileDescriptors))))

to_acquired_data : AcquiredData → AcquiredDataSum
to_acquired_data (AcquiredData.processes a) = inl a
to_acquired_data (AcquiredData.observation a) = inr (inl a)
to_acquired_data (AcquiredData.maps a) = inr (inr (inl a))
to_acquired_data (AcquiredData.environment a) = inr (inr (inr (inl a)))
to_acquired_data (AcquiredData.auxv a) = inr (inr (inr (inr (inl a))))
to_acquired_data (AcquiredData.fds a) = inr (inr (inr (inr (inr a))))

of_acquired_data : AcquiredDataSum → AcquiredData
of_acquired_data (inl x) = AcquiredData.processes x
of_acquired_data (inr (inl x)) = AcquiredData.observation x
of_acquired_data (inr (inr (inl x))) = AcquiredData.maps x
of_acquired_data (inr (inr (inr (inl x)))) = AcquiredData.environment x
of_acquired_data (inr (inr (inr (inr (inl x))))) = AcquiredData.auxv x
of_acquired_data (inr (inr (inr (inr (inr x))))) = AcquiredData.fds x

of_acquired_data-to_acquired_data : (e : AcquiredData) → of_acquired_data (to_acquired_data e) ≡ e
unfolding of_acquired_data to_acquired_data
of_acquired_data-to_acquired_data (AcquiredData.processes a) = refl
of_acquired_data-to_acquired_data _ = refl

to_acquired_data-of_acquired_data :
    (x : AcquiredDataSum) → to_acquired_data (of_acquired_data x) ≡ x
unfolding of_acquired_data to_acquired_data
to_acquired_data-of_acquired_data (inl x) = refl
to_acquired_data-of_acquired_data (inr (inl x)) = refl
to_acquired_data-of_acquired_data (inr (inr (inl x))) = refl
to_acquired_data-of_acquired_data (inr (inr (inr (inl x)))) = refl
to_acquired_data-of_acquired_data (inr (inr (inr (inr (inl x))))) = refl
to_acquired_data-of_acquired_data (inr (inr (inr (inr (inr x))))) = refl

unfoldable pub acquired_data_wire : Wire AcquiredData
unfolding wire_enum arm last bare with to_acquired_data of_acquired_data
    of_acquired_data-to_acquired_data to_acquired_data-of_acquired_data
acquired_data_wire =
    wire_enum
      (arm 0 refl (with (vec process_summary_wire))
        (arm 1 refl (with observation_data_wire)
          (arm 2 refl (with memory_maps_wire)
            (arm 3 refl (with environment_data_wire)
              (arm 4 refl (with aux_data_wire)
                (last invalid_tag 5 refl (with file_descriptors_wire)) refl)
              refl)
            refl)
          refl)
        refl)
      to_acquired_data of_acquired_data of_acquired_data-to_acquired_data
      to_acquired_data-of_acquired_data
