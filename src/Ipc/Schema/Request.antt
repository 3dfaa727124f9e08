-- ===== src/Ipc/Schema/Request.antt =====
-- src/ipc/schema.rs: requests, as they go over the wire.
use procinsh.Prelude.{ℕ, ◌≡◌, refl, ◌⊎◌, inl, inr, List}
use procinsh.Ipc.Codec.{invalid_tag}
use procinsh.Ipc.Codec.Wire.{Wire}
use procinsh.Ipc.Codec.Combine.{◌⊗◌}
use procinsh.Ipc.Codec.Values.{u64}
use procinsh.Ipc.Codec.Lists.{vec}
use procinsh.Ipc.Codec.Enums.{arm, last, bare, with, wire_enum}
use procinsh.Ipc.Elf.{FileRange, file_range_wire}
use procinsh.Ipc.Identity.{ProcessId, process_id_wire}

pub data ProcessResource : Type 0 where
  observation threads maps environment auxv fds : ProcessResource

abbrev ProcessResourceSum : Type 0
ProcessResourceSum = Unit {0} ⊎ (Unit {0} ⊎ (Unit {0} ⊎ (Unit {0} ⊎ (Unit {0} ⊎ Unit {0}))))

to_process_resource : ProcessResource → ProcessResourceSum
to_process_resource ProcessResource.observation = inl tt
to_process_resource ProcessResource.threads = inr (inl tt)
to_process_resource ProcessResource.maps = inr (inr (inl tt))
to_process_resource ProcessResource.environment = inr (inr (inr (inl tt)))
to_process_resource ProcessResource.auxv = inr (inr (inr (inr (inl tt))))
to_process_resource ProcessResource.fds = inr (inr (inr (inr (inr tt))))

of_process_resource : ProcessResourceSum → ProcessResource
of_process_resource (inl _) = ProcessResource.observation
of_process_resource (inr (inl _)) = ProcessResource.threads
of_process_resource (inr (inr (inl _))) = ProcessResource.maps
of_process_resource (inr (inr (inr (inl _)))) = ProcessResource.environment
of_process_resource (inr (inr (inr (inr (inl _))))) = ProcessResource.auxv
of_process_resource (inr (inr (inr (inr (inr _))))) = ProcessResource.fds

of_process_resource-to_process_resource :
    (e : ProcessResource) → of_process_resource (to_process_resource e) ≡ e
unfolding of_process_resource to_process_resource
of_process_resource-to_process_resource ProcessResource.observation = refl
of_process_resource-to_process_resource _ = refl

to_process_resource-of_process_resource :
    (x : ProcessResourceSum) → to_process_resource (of_process_resource x) ≡ x
unfolding of_process_resource to_process_resource
to_process_resource-of_process_resource (inl x) = refl
to_process_resource-of_process_resource (inr (inl x)) = refl
to_process_resource-of_process_resource (inr (inr (inl x))) = refl
to_process_resource-of_process_resource (inr (inr (inr (inl x)))) = refl
to_process_resource-of_process_resource (inr (inr (inr (inr (inl x))))) = refl
to_process_resource-of_process_resource (inr (inr (inr (inr (inr x))))) = refl

unfoldable pub process_resource_wire : Wire ProcessResource
unfolding wire_enum arm last bare with to_process_resource of_process_resource
    of_process_resource-to_process_resource to_process_resource-of_process_resource
process_resource_wire =
    wire_enum
      (arm 0 refl bare
        (arm 1 refl bare
          (arm 2 refl bare
            (arm 3 refl bare (arm 4 refl bare (last invalid_tag 5 refl bare) refl) refl) refl)
          refl)
        refl)
      to_process_resource of_process_resource of_process_resource-to_process_resource
      to_process_resource-of_process_resource

pub data MonitorRequest : Type 0 where
  processes : MonitorRequest
  process : ProcessId → ProcessResource → MonitorRequest
  mapped_elf : ProcessId → ℕ → List FileRange → MonitorRequest
  observe_process : ProcessId → MonitorRequest
  observe_system : MonitorRequest
  poll : ℕ → MonitorRequest
  close : ℕ → MonitorRequest

abbrev MonitorRequestSum : Type 0
MonitorRequestSum =
    Unit {0}
    ⊎ ((ProcessId × ProcessResource)
        ⊎ ((ProcessId × (ℕ × List FileRange)) ⊎ (ProcessId ⊎ (Unit {0} ⊎ (ℕ ⊎ ℕ)))))

to_monitor_request : MonitorRequest → MonitorRequestSum
to_monitor_request MonitorRequest.processes = inl tt
to_monitor_request (MonitorRequest.process a b) = inr (inl (a, b))
to_monitor_request (MonitorRequest.mapped_elf a b c) = inr (inr (inl (a, (b, c))))
to_monitor_request (MonitorRequest.observe_process a) = inr (inr (inr (inl a)))
to_monitor_request MonitorRequest.observe_system = inr (inr (inr (inr (inl tt))))
to_monitor_request (MonitorRequest.poll a) = inr (inr (inr (inr (inr (inl a)))))
to_monitor_request (MonitorRequest.close a) = inr (inr (inr (inr (inr (inr a)))))

of_monitor_request : MonitorRequestSum → MonitorRequest
of_monitor_request (inl _) = MonitorRequest.processes
of_monitor_request (inr (inl x)) = MonitorRequest.process x.0 x.1
of_monitor_request (inr (inr (inl x))) = MonitorRequest.mapped_elf x.0 x.1.0 x.1.1
of_monitor_request (inr (inr (inr (inl x)))) = MonitorRequest.observe_process x
of_monitor_request (inr (inr (inr (inr (inl _))))) = MonitorRequest.observe_system
of_monitor_request (inr (inr (inr (inr (inr (inl x)))))) = MonitorRequest.poll x
of_monitor_request (inr (inr (inr (inr (inr (inr x)))))) = MonitorRequest.close x

of_monitor_request-to_monitor_request :
    (e : MonitorRequest) → of_monitor_request (to_monitor_request e) ≡ e
unfolding of_monitor_request to_monitor_request
of_monitor_request-to_monitor_request MonitorRequest.processes = refl
of_monitor_request-to_monitor_request _ = refl

to_monitor_request-of_monitor_request :
    (x : MonitorRequestSum) → to_monitor_request (of_monitor_request x) ≡ x
unfolding of_monitor_request to_monitor_request
to_monitor_request-of_monitor_request (inl x) = refl
to_monitor_request-of_monitor_request (inr (inl x)) = refl
to_monitor_request-of_monitor_request (inr (inr (inl x))) = refl
to_monitor_request-of_monitor_request (inr (inr (inr (inl x)))) = refl
to_monitor_request-of_monitor_request (inr (inr (inr (inr (inl x))))) = refl
to_monitor_request-of_monitor_request (inr (inr (inr (inr (inr (inl x)))))) = refl
to_monitor_request-of_monitor_request (inr (inr (inr (inr (inr (inr x)))))) = refl

unfoldable pub monitor_request_wire : Wire MonitorRequest
unfolding wire_enum arm last bare with to_monitor_request of_monitor_request
    of_monitor_request-to_monitor_request to_monitor_request-of_monitor_request
monitor_request_wire =
    wire_enum
      (arm 0 refl bare
        (arm 1 refl (with (process_id_wire ⊗ process_resource_wire))
          (arm 2 refl (with (process_id_wire ⊗ u64 ⊗ vec file_range_wire))
            (arm 3 refl (with process_id_wire)
              (arm 4 refl bare (arm 5 refl (with u64) (last invalid_tag 6 refl (with u64)) refl)
                refl)
              refl)
            refl)
          refl)
        refl)
      to_monitor_request of_monitor_request of_monitor_request-to_monitor_request
      to_monitor_request-of_monitor_request
