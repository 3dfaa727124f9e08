-- ===== src/Ipc/Identity.antt =====
-- src/ipc/schema.rs: the identities of a process and of the helper, as they go over the wire.
use procinsh.Prelude.{ℕ, refl}
use procinsh.Prelude.Int.{ℤ}
use procinsh.Ipc.Codec.Wire.{Wire}
use procinsh.Ipc.Codec.Combine.{◌⊗◌, wire_struct}
use procinsh.Ipc.Codec.Values.{u32, u64, i32}

pub record ProcessId : Type 0 where
  pub pid : ℤ
  pub start_time_ticks : ℕ

unfoldable pub process_id_wire : Wire ProcessId
unfolding wire_struct
process_id_wire =
    wire_struct (i32 ⊗ u64) (λ r. (r.pid, r.start_time_ticks))
      (λ t. record { pid = t.0; start_time_ticks = t.1 }) (λ r. refl) (λ t. refl)

pub record HelperIdentity : Type 0 where
  pub pid : ℕ
  pub capabilities : ℕ

unfoldable pub helper_identity_wire : Wire HelperIdentity
unfolding wire_struct
helper_identity_wire =
    wire_struct (u32 ⊗ u64) (λ r. (r.pid, r.capabilities))
      (λ t. record { pid = t.0; capabilities = t.1 }) (λ r. refl) (λ t. refl)
