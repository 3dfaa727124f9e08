-- ===== src/Ipc/History.antt =====
-- src/ipc/history.rs: history points, as they go over the wire.
use procinsh.Prelude.{ℕ, refl, Option}
use procinsh.Ipc.Codec.Wire.{Wire}
use procinsh.Ipc.Codec.Combine.{◌⊗◌, wire_struct}
use procinsh.Ipc.Codec.Values.{u64, F64, f64}
use procinsh.Ipc.Codec.Choices.{option}

pub record HistoryPoint : Type 0 where
  pub timestamp : ℕ
  pub cpu_percent : Option F64
  pub rss_bytes : ℕ
  pub vms_bytes : ℕ

unfoldable pub history_point_wire : Wire HistoryPoint
unfolding wire_struct
history_point_wire =
    wire_struct (u64 ⊗ option f64 ⊗ u64 ⊗ u64)
      (λ r. (r.timestamp, (r.cpu_percent, (r.rss_bytes, r.vms_bytes))))
      (λ t. record {
        timestamp = t.0;
        cpu_percent = t.1.0;
        rss_bytes = t.1.1.0;
        vms_bytes = t.1.1.1;
      })
      (λ r. refl) (λ t. refl)
