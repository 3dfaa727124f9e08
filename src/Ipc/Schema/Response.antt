-- ===== src/Ipc/Schema/Response.antt =====
-- src/ipc/schema.rs: responses, as they go over the wire.
use procinsh.Prelude.{ℕ, ◌≡◌, refl, ◌⊎◌, inl, inr, Bool, Option}
use procinsh.Ipc.Codec.{invalid_tag}
use procinsh.Ipc.Codec.Wire.{Wire}
use procinsh.Ipc.Codec.Combine.{◌⊗◌}
use procinsh.Ipc.Codec.Values.{u64, bool}
use procinsh.Ipc.Codec.Choices.{option}
use procinsh.Ipc.Codec.Enums.{arm, last, bare, with, wire_enum}
use procinsh.Ipc.Elf.{MappedFileData, mapped_file_data_wire}
use procinsh.Ipc.Schema.Event.{AcquiredData, MonitorEvent, acquired_data_wire, monitor_event_wire}
use procinsh.Ipc.Registers.{Target}

pub data MonitorResponse : Type 0 where
  data_response : AcquiredData → MonitorResponse
  elf : Option MappedFileData → MonitorResponse
  started : ℕ → MonitorEvent → MonitorResponse
  event : Option MonitorEvent → Bool → MonitorResponse
  closed : MonitorResponse

abbrev MonitorResponseSum : Type 0
MonitorResponseSum =
    AcquiredData
    ⊎ (Option MappedFileData ⊎ ((ℕ × MonitorEvent) ⊎ ((Option MonitorEvent × Bool) ⊎ Unit {0})))

to_monitor_response : MonitorResponse → MonitorResponseSum
to_monitor_response (MonitorResponse.data_response a) = inl a
to_monitor_response (MonitorResponse.elf a) = inr (inl a)
to_monitor_response (MonitorResponse.started a b) = inr (inr (inl (a, b)))
to_monitor_response (MonitorResponse.event a b) = inr (inr (inr (inl (a, b))))
to_monitor_response MonitorResponse.closed = inr (inr (inr (inr tt)))

of_monitor_response : MonitorResponseSum → MonitorResponse
of_monitor_response (inl x) = MonitorResponse.data_response x
of_monitor_response (inr (inl x)) = MonitorResponse.elf x
of_monitor_response (inr (inr (inl x))) = MonitorResponse.started x.0 x.1
of_monitor_response (inr (inr (inr (inl x)))) = MonitorResponse.event x.0 x.1
of_monitor_response (inr (inr (inr (inr _)))) = MonitorResponse.closed

of_monitor_response-to_monitor_response :
    (e : MonitorResponse) → of_monitor_response (to_monitor_response e) ≡ e
unfolding of_monitor_response to_monitor_response
of_monitor_response-to_monitor_response (MonitorResponse.data_response a) = refl
of_monitor_response-to_monitor_response _ = refl

to_monitor_response-of_monitor_response :
    (x : MonitorResponseSum) → to_monitor_response (of_monitor_response x) ≡ x
unfolding of_monitor_response to_monitor_response
to_monitor_response-of_monitor_response (inl x) = refl
to_monitor_response-of_monitor_response (inr (inl x)) = refl
to_monitor_response-of_monitor_response (inr (inr (inl x))) = refl
to_monitor_response-of_monitor_response (inr (inr (inr (inl x)))) = refl
to_monitor_response-of_monitor_response (inr (inr (inr (inr x)))) = refl

unfoldable pub monitor_response_wire : Target → Wire MonitorResponse
unfolding wire_enum arm last bare with to_monitor_response of_monitor_response
    of_monitor_response-to_monitor_response to_monitor_response-of_monitor_response
monitor_response_wire target =
    wire_enum
      (arm 0 refl (with acquired_data_wire)
        (arm 1 refl (with (option mapped_file_data_wire))
          (arm 3 refl (with (u64 ⊗ (monitor_event_wire target)))
            (arm 4 refl (with (option (monitor_event_wire target) ⊗ bool))
              (last invalid_tag 5 refl bare) refl)
            refl)
          refl)
        refl)
      to_monitor_response of_monitor_response of_monitor_response-to_monitor_response
      to_monitor_response-of_monitor_response
