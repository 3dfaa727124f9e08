-- ===== src/Ipc/Registers.antt =====
-- src/ipc/registers.rs: register sets, as they go over the wire.
use procinsh.Prelude.{
  ◌>>=◌, ℕ, ◌≤◌, ◌≡◌, refl, ◌⊎◌, inl, inr, Bool, Option, List, length, ◌==◌, if◌then◌else◌,
  bind-HasRun, ok-injective,
}
use procinsh.Prelude.{ok, err}
use procinsh.Ipc.Codec.{Encoder, Fallible, u32_max, append, invalid_tag, invalid_register_count}
use procinsh.Ipc.Codec.Wire.{Wire}
use procinsh.Ipc.Codec.Combine.{◌⊗◌, wire_struct, wire_as}
use procinsh.Ipc.Codec.Values.{u64, bool, Text, string}
use procinsh.Ipc.Codec.Lists.{vec}
use procinsh.Ipc.Codec.Choices.{option}
use procinsh.Ipc.Codec.Enums.{arm, last, bare, with, wire_enum}
use procinsh.Ipc.Memory.{MemoryKind, memory_kind_wire}

-- The two architectures that the program is built for.
pub data Target : Type 0 where
  x86_64 aarch64 : Target

unfoldable pub register_count : Target → ℕ
register_count x86_64 = 24
register_count aarch64 = 34

pub record RegisterSet : Type 0 where
  pub values : List ℕ
  pub flags_available : Bool
  pub code_pac_mask : Option ℕ

unfoldable pub validate : Target → RegisterSet → Fallible (Unit {0})
validate target r =
    if length r.values == register_count target then ok tt else err invalid_register_count

abbrev RegisterFields : Type 0
RegisterFields = List ℕ × (Bool × Option ℕ)

abbrev register_fields : RegisterSet → RegisterFields
register_fields r = (r.values, (r.flags_available, r.code_pac_mask))

-- `read` builds the set and then validates it.
of_register_fields : Target → RegisterFields → Fallible RegisterSet
of_register_fields target t = do
  let r : RegisterSet = record { values = t.0; flags_available = t.1.0; code_pac_mask = t.1.1 }
  _ ← validate target r
  ok r

write_register_set : Target → RegisterSet → Encoder → Fallible Encoder
write_register_set target r output = do
  _ ← validate target r
  (vec u64 ⊗ bool ⊗ option u64).write (register_fields r) output

abbrev pub IsRegisterSet : Target → RegisterSet → Type 0
IsRegisterSet target r =
    (vec u64 ⊗ bool ⊗ option u64).IsRepresentable (r.values, (r.flags_available, r.code_pac_mask))
    × (validate target r ≡ ok tt)

register_rep :
    (target : Target) (r : RegisterSet)
    → IsRegisterSet target r
    → (vec u64 ⊗ bool ⊗ option u64).IsRepresentable (register_fields r)
      × (of_register_fields target (register_fields r) ≡ ok r)
unfolding of_register_fields
register_rep target r (rep, valid) = (rep, rw valid)

register_sound :
    (target : Target) (t : RegisterFields) (r : RegisterSet)
    → (vec u64 ⊗ bool ⊗ option u64).IsRepresentable t
    → of_register_fields target t ≡ ok r
    → IsRegisterSet target r × (t ≡ register_fields r)
unfolding of_register_fields
register_sound target t r rep e =
    let built : RegisterSet = record {
      values = t.0;
      flags_available = t.1.0;
      code_pac_mask = t.1.1;
    } in
    let (u, valid, e') = bind-HasRun (validate target built) _ e in
    let same : built ≡ r = ok-injective e' in rw (← same) ((rep, valid), refl)

register_base : Target → Wire RegisterSet
register_base target =
    wire_as (vec u64 ⊗ bool ⊗ option u64) register_fields (of_register_fields target)
      (IsRegisterSet target) (register_rep target) (register_sound target)

write_register_set-code :
    (target : Target) (r : RegisterSet) (o : Encoder)
    → IsRegisterSet target r
    → o.limit ≤ u32_max
    → write_register_set target r o
      ≡ append ((vec u64 ⊗ bool ⊗ option u64).code (register_fields r)) o
unfolding write_register_set
write_register_set-code target r o (rep, valid) h =
    rw valid ((vec u64 ⊗ bool ⊗ option u64).write-code (register_fields r) o rep h)

unfoldable pub register_set_wire : Target → Wire RegisterSet
unfolding register_base wire_as write_register_set of_register_fields register_rep register_sound
    write_register_set-code
register_set_wire target = record (register_base target) {
  write = write_register_set target;
  write-code = write_register_set-code target;
}

pub data RegisterRole : Type 0 where
  pc sp fp lr flags general : RegisterRole

abbrev RegisterRoleSum : Type 0
RegisterRoleSum = Unit {0} ⊎ (Unit {0} ⊎ (Unit {0} ⊎ (Unit {0} ⊎ (Unit {0} ⊎ Unit {0}))))

to_register_role : RegisterRole → RegisterRoleSum
to_register_role RegisterRole.pc = inl tt
to_register_role RegisterRole.sp = inr (inl tt)
to_register_role RegisterRole.fp = inr (inr (inl tt))
to_register_role RegisterRole.lr = inr (inr (inr (inl tt)))
to_register_role RegisterRole.flags = inr (inr (inr (inr (inl tt))))
to_register_role RegisterRole.general = inr (inr (inr (inr (inr tt))))

of_register_role : RegisterRoleSum → RegisterRole
of_register_role (inl _) = RegisterRole.pc
of_register_role (inr (inl _)) = RegisterRole.sp
of_register_role (inr (inr (inl _))) = RegisterRole.fp
of_register_role (inr (inr (inr (inl _)))) = RegisterRole.lr
of_register_role (inr (inr (inr (inr (inl _))))) = RegisterRole.flags
of_register_role (inr (inr (inr (inr (inr _))))) = RegisterRole.general

of_register_role-to_register_role : (e : RegisterRole) → of_register_role (to_register_role e) ≡ e
unfolding of_register_role to_register_role
of_register_role-to_register_role RegisterRole.pc = refl
of_register_role-to_register_role _ = refl

to_register_role-of_register_role :
    (x : RegisterRoleSum) → to_register_role (of_register_role x) ≡ x
unfolding of_register_role to_register_role
to_register_role-of_register_role (inl x) = refl
to_register_role-of_register_role (inr (inl x)) = refl
to_register_role-of_register_role (inr (inr (inl x))) = refl
to_register_role-of_register_role (inr (inr (inr (inl x)))) = refl
to_register_role-of_register_role (inr (inr (inr (inr (inl x))))) = refl
to_register_role-of_register_role (inr (inr (inr (inr (inr x))))) = refl

unfoldable pub register_role_wire : Wire RegisterRole
unfolding wire_enum arm last bare with to_register_role of_register_role
    of_register_role-to_register_role to_register_role-of_register_role
register_role_wire =
    wire_enum
      (arm 0 refl bare
        (arm 1 refl bare
          (arm 2 refl bare
            (arm 3 refl bare (arm 4 refl bare (last invalid_tag 5 refl bare) refl) refl) refl)
          refl)
        refl)
      to_register_role of_register_role of_register_role-to_register_role
      to_register_role-of_register_role

pub record RegisterMapping : Type 0 where
  pub pathname : Option Text
  pub readable : Bool
  pub writable : Bool
  pub executable : Bool
  pub private : Bool

unfoldable pub register_mapping_wire : Wire RegisterMapping
unfolding wire_struct
register_mapping_wire =
    wire_struct (option string ⊗ bool ⊗ bool ⊗ bool ⊗ bool)
      (λ r. (r.pathname, (r.readable, (r.writable, (r.executable, r.private)))))
      (λ t. record {
        pathname = t.0;
        readable = t.1.0;
        writable = t.1.1.0;
        executable = t.1.1.1.0;
        private = t.1.1.1.1;
      })
      (λ r. refl) (λ t. refl)

pub record Register : Type 0 where
  pub name : Text
  pub role : RegisterRole
  pub value : ℕ
  pub decimal : Text
  pub kind : MemoryKind
  pub mapping : Option RegisterMapping
  pub offset : Option ℕ

unfoldable pub register_wire : Wire Register
unfolding wire_struct
register_wire =
    wire_struct
      (string
        ⊗ register_role_wire
        ⊗ u64
        ⊗ string
        ⊗ memory_kind_wire
        ⊗ option register_mapping_wire
        ⊗ option u64)
      (λ r. (r.name, (r.role, (r.value, (r.decimal, (r.kind, (r.mapping, r.offset)))))))
      (λ t. record {
        name = t.0;
        role = t.1.0;
        value = t.1.1.0;
        decimal = t.1.1.1.0;
        kind = t.1.1.1.1.0;
        mapping = t.1.1.1.1.1.0;
        offset = t.1.1.1.1.1.1;
      })
      (λ r. refl) (λ t. refl)
