-- ===== src/Ipc/Activity.antt =====
-- src/ipc/activity.rs: file, IPC, CPU and signal activity, as they go over the wire.
use procinsh.Prelude.{ℕ, refl, Bool, Option, List}
use procinsh.Prelude.Int.{ℤ}
use procinsh.Ipc.Codec.Wire.{Wire}
use procinsh.Ipc.Codec.Combine.{◌⊗◌, wire_struct}
use procinsh.Ipc.Codec.Values.{u8, u32, u64, usize, i32, bool, Text, string}
use procinsh.Ipc.Codec.Lists.{vec, array}
use procinsh.Ipc.Codec.Choices.{option}
use procinsh.Ipc.Identity.{ProcessId, process_id_wire}
use procinsh.Ipc.Resource.{FileIdentity, IpcIdentity, file_identity_wire, ipc_identity_wire}

pub record CpuCounters : Type 0 where
  pub now : ℕ
  pub current : List (List ℕ)
  pub totals : List (List ℕ × List (List ℕ))

unfoldable pub cpu_counters_wire : Wire CpuCounters
unfolding wire_struct
cpu_counters_wire =
    wire_struct (u64 ⊗ vec (vec u8) ⊗ vec (vec u8 ⊗ vec (array 1 u64)))
      (λ r. (r.now, (r.current, r.totals)))
      (λ t. record { now = t.0; current = t.1.0; totals = t.1.1 }) (λ r. refl) (λ t. refl)

pub record FileActivity : Type 0 where
  pub process_id : ProcessId
  pub file : FileIdentity
  pub path : Option Text
  pub write : Bool
  pub bytes : ℕ
  pub count : ℕ

unfoldable pub file_activity_wire : Wire FileActivity
unfolding wire_struct
file_activity_wire =
    wire_struct (process_id_wire ⊗ file_identity_wire ⊗ option string ⊗ bool ⊗ u64 ⊗ u64)
      (λ r. (r.process_id, (r.file, (r.path, (r.write, (r.bytes, r.count))))))
      (λ t. record {
        process_id = t.0;
        file = t.1.0;
        path = t.1.1.0;
        write = t.1.1.1.0;
        bytes = t.1.1.1.1.0;
        count = t.1.1.1.1.1;
      })
      (λ r. refl) (λ t. refl)

pub record IpcEvent : Type 0 where
  pub start : ℕ
  pub inode : ℕ
  pub device : ℕ
  pub bytes : ℕ
  pub pid : ℕ
  pub kind : ℕ
  pub write : Bool
  pub worker : Bool

unfoldable pub ipc_event_wire : Wire IpcEvent
unfolding wire_struct
ipc_event_wire =
    wire_struct (u64 ⊗ u64 ⊗ u64 ⊗ u64 ⊗ u32 ⊗ u32 ⊗ bool ⊗ bool)
      (λ r. (r.start, (r.inode, (r.device, (r.bytes, (r.pid, (r.kind, (r.write, r.worker))))))))
      (λ t. record {
        start = t.0;
        inode = t.1.0;
        device = t.1.1.0;
        bytes = t.1.1.1.0;
        pid = t.1.1.1.1.0;
        kind = t.1.1.1.1.1.0;
        write = t.1.1.1.1.1.1.0;
        worker = t.1.1.1.1.1.1.1;
      })
      (λ r. refl) (λ t. refl)

pub record SignalSample : Type 0 where
  pub timestamp_ns : ℕ
  pub src_start : ℕ
  pub dst_start : ℕ
  pub src_pid : ℕ
  pub dst_pid : ℕ
  pub signal : ℤ

unfoldable pub signal_sample_wire : Wire SignalSample
unfolding wire_struct
signal_sample_wire =
    wire_struct (u64 ⊗ u64 ⊗ u64 ⊗ u32 ⊗ u32 ⊗ i32)
      (λ r. (r.timestamp_ns, (r.src_start, (r.dst_start, (r.src_pid, (r.dst_pid, r.signal))))))
      (λ t. record {
        timestamp_ns = t.0;
        src_start = t.1.0;
        dst_start = t.1.1.0;
        src_pid = t.1.1.1.0;
        dst_pid = t.1.1.1.1.0;
        signal = t.1.1.1.1.1;
      })
      (λ r. refl) (λ t. refl)

pub record RawActivity : Type 0 where
  pub files : List FileActivity
  pub ipc : List IpcEvent
  pub signals : List SignalSample
  pub cpu : CpuCounters

unfoldable pub raw_activity_wire : Wire RawActivity
unfolding wire_struct
raw_activity_wire =
    wire_struct
      (vec file_activity_wire ⊗ vec ipc_event_wire ⊗ vec signal_sample_wire ⊗ cpu_counters_wire)
      (λ r. (r.files, (r.ipc, (r.signals, r.cpu))))
      (λ t. record { files = t.0; ipc = t.1.0; signals = t.1.1.0; cpu = t.1.1.1 }) (λ r. refl)
      (λ t. refl)

pub record ProcessKey : Type 0 where
  pub start : ℕ
  pub pid : ℕ

unfoldable pub process_key_wire : Wire ProcessKey
unfolding wire_struct
process_key_wire =
    wire_struct (u64 ⊗ u32) (λ r. (r.start, r.pid)) (λ t. record { start = t.0; pid = t.1 })
      (λ r. refl) (λ t. refl)

pub record CpuActivity : Type 0 where
  pub process_id : ProcessId
  pub runtime_ns : ℕ
  pub switches : ℕ
  pub running_threads : ℕ
  pub cpus : List ℕ

unfoldable pub cpu_activity_wire : Wire CpuActivity
unfolding wire_struct
cpu_activity_wire =
    wire_struct (process_id_wire ⊗ u64 ⊗ u64 ⊗ usize ⊗ vec usize)
      (λ r. (r.process_id, (r.runtime_ns, (r.switches, (r.running_threads, r.cpus)))))
      (λ t. record {
        process_id = t.0;
        runtime_ns = t.1.0;
        switches = t.1.1.0;
        running_threads = t.1.1.1.0;
        cpus = t.1.1.1.1;
      })
      (λ r. refl) (λ t. refl)

pub record IpcActivity : Type 0 where
  pub process_id : ProcessId
  pub resource : IpcIdentity
  pub write : Bool
  pub bytes : ℕ
  pub count : ℕ

unfoldable pub ipc_activity_wire : Wire IpcActivity
unfolding wire_struct
ipc_activity_wire =
    wire_struct (process_id_wire ⊗ ipc_identity_wire ⊗ bool ⊗ u64 ⊗ u64)
      (λ r. (r.process_id, (r.resource, (r.write, (r.bytes, r.count)))))
      (λ t. record {
        process_id = t.0;
        resource = t.1.0;
        write = t.1.1.0;
        bytes = t.1.1.1.0;
        count = t.1.1.1.1;
      })
      (λ r. refl) (λ t. refl)

pub record SignalEvent : Type 0 where
  pub timestamp_ns : ℕ
  pub src_pid : ℕ
  pub dst_pid : ℕ
  pub signal : ℤ
  pub source_id : ProcessId
  pub destination_id : ProcessId

unfoldable pub signal_event_wire : Wire SignalEvent
unfolding wire_struct
signal_event_wire =
    wire_struct (u64 ⊗ u32 ⊗ u32 ⊗ i32 ⊗ process_id_wire ⊗ process_id_wire)
      (λ r. (r.timestamp_ns, (r.src_pid, (r.dst_pid, (r.signal, (r.source_id, r.destination_id))))))
      (λ t. record {
        timestamp_ns = t.0;
        src_pid = t.1.0;
        dst_pid = t.1.1.0;
        signal = t.1.1.1.0;
        source_id = t.1.1.1.1.0;
        destination_id = t.1.1.1.1.1;
      })
      (λ r. refl) (λ t. refl)
