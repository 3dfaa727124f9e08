-- ===== src/Ipc/Schema/Contexts.antt =====
-- src/ipc/acquisition.rs and src/ipc/schema.rs: a live sample is written without its `context`. What a
-- response is without the contexts of its samples, and that it is written alike.
use procinsh.Prelude.{refl, none, some, map, ◌>>=◌}
use procinsh.Ipc.Codec.{write_number}
use procinsh.Ipc.Codec.Wire.{IsWrittenAs}
use procinsh.Ipc.Codec.Values.{u64, bool}
use procinsh.Ipc.Codec.Choices.{option}
use procinsh.Ipc.Codec.Written.{pair-first, pair-second, option-some, vec-map}
use procinsh.Ipc.Acquisition.Live.{LiveSample, live_sample_wire}
use procinsh.Ipc.Acquisition.Detail.{ProcessDetailSnapshot, process_detail_snapshot_wire}
use procinsh.Ipc.Registers.{Target}
use procinsh.Ipc.Schema.Event.{MonitorEvent, monitor_event_wire}
use procinsh.Ipc.Schema.Response.{MonitorResponse, monitor_response_wire}

abbrev pub without_context : LiveSample → LiveSample
without_context sample = record sample { context = none }

abbrev pub detail_without_contexts : ProcessDetailSnapshot → ProcessDetailSnapshot
detail_without_contexts d = record d { live_samples = map without_context d.live_samples }

unfoldable pub event_without_contexts : MonitorEvent → MonitorEvent
event_without_contexts (MonitorEvent.observation d) =
    MonitorEvent.observation (detail_without_contexts d)
event_without_contexts event = event

unfoldable pub response_without_contexts : MonitorResponse → MonitorResponse
unfolding event_without_contexts
response_without_contexts (MonitorResponse.started id event) =
    MonitorResponse.started id (event_without_contexts event)
response_without_contexts (MonitorResponse.event (some event) closed) =
    MonitorResponse.event (some (event_without_contexts event)) closed
response_without_contexts response = response

module _ (target : Target) where
  pub context-IsWritten :
      (sample : LiveSample) → IsWrittenAs (live_sample_wire target) sample (without_context sample)
  unfolding live_sample_wire
  context-IsWritten sample = refl

  pub detail-IsWritten :
      (d : ProcessDetailSnapshot)
      → IsWrittenAs (process_detail_snapshot_wire target) d (detail_without_contexts d)
  unfolding process_detail_snapshot_wire
  detail-IsWritten d =
      let samples =
        vec-map (live_sample_wire target) without_context context-IsWritten d.live_samples in
      pair-second _ _ _ _ _ (
        pair-second _ _ _ _ _ (
          pair-second _ _ _ _ _ (
            pair-second _ _ _ _ _ (
              pair-second _ _ _ _ _ (
                pair-second _ _ _ _ _ (
                  pair-second _ _ _ _ _ (pair-second _ _ _ _ _ (pair-first _ _ _ _ _ samples))))))))

  pub event-IsWritten :
      (event : MonitorEvent)
      → IsWrittenAs (monitor_event_wire target) event (event_without_contexts event)
  unfolding monitor_event_wire event_without_contexts
  event-IsWritten (MonitorEvent.observation d) =
      λ i output. write_number 1 0 output >>= detail-IsWritten d i
  event-IsWritten (MonitorEvent.acquired_snapshot s) = refl
  event-IsWritten (MonitorEvent.acquisition_gap n s) = refl
  event-IsWritten (MonitorEvent.activity a) = refl

  pub response-IsWritten :
      (response : MonitorResponse)
      → IsWrittenAs (monitor_response_wire target) response (response_without_contexts response)
  unfolding monitor_response_wire response_without_contexts
  response-IsWritten (MonitorResponse.started id event) =
      let rest = pair-second u64 (monitor_event_wire target) id _ _ (event-IsWritten event) in
      λ i output. write_number 1 3 output >>= rest i
  response-IsWritten (MonitorResponse.event (some event) closed) =
      let rest =
        pair-first (option (monitor_event_wire target)) bool _ _ closed
          (option-some (monitor_event_wire target) _ _ (event-IsWritten event)) in
      λ i output. write_number 1 4 output >>= rest i
  response-IsWritten (MonitorResponse.event none closed) = refl
  response-IsWritten (MonitorResponse.data_response d) = refl
  response-IsWritten (MonitorResponse.elf f) = refl
  response-IsWritten MonitorResponse.closed = refl
