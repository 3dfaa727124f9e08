-- ===== src/Ipc/Threads/Policy.antt =====
-- src/ipc/model/threads.rs: scheduler policies and CPU ranges, as they go over the wire.
use procinsh.Prelude.{ℕ, ◌≡◌, refl, ◌⊎◌, inl, inr}
use procinsh.Ipc.Codec.{invalid_tag}
use procinsh.Ipc.Codec.Wire.{Wire}
use procinsh.Ipc.Codec.Combine.{◌⊗◌, wire_struct}
use procinsh.Ipc.Codec.Values.{u32}
use procinsh.Ipc.Codec.Enums.{arm, last, bare, with, wire_enum}

pub data SchedulerPolicy : Type 0 where
  other fifo rr batch idle deadline ext : SchedulerPolicy
  unknown : ℕ → SchedulerPolicy

abbrev SchedulerPolicySum : Type 0
SchedulerPolicySum =
    Unit {0} ⊎ (Unit {0} ⊎ (Unit {0} ⊎ (Unit {0} ⊎ (Unit {0} ⊎ (Unit {0} ⊎ (Unit {0} ⊎ ℕ))))))

to_scheduler_policy : SchedulerPolicy → SchedulerPolicySum
to_scheduler_policy SchedulerPolicy.other = inl tt
to_scheduler_policy SchedulerPolicy.fifo = inr (inl tt)
to_scheduler_policy SchedulerPolicy.rr = inr (inr (inl tt))
to_scheduler_policy SchedulerPolicy.batch = inr (inr (inr (inl tt)))
to_scheduler_policy SchedulerPolicy.idle = inr (inr (inr (inr (inl tt))))
to_scheduler_policy SchedulerPolicy.deadline = inr (inr (inr (inr (inr (inl tt)))))
to_scheduler_policy SchedulerPolicy.ext = inr (inr (inr (inr (inr (inr (inl tt))))))
to_scheduler_policy (SchedulerPolicy.unknown a) = inr (inr (inr (inr (inr (inr (inr a))))))

of_scheduler_policy : SchedulerPolicySum → SchedulerPolicy
of_scheduler_policy (inl _) = SchedulerPolicy.other
of_scheduler_policy (inr (inl _)) = SchedulerPolicy.fifo
of_scheduler_policy (inr (inr (inl _))) = SchedulerPolicy.rr
of_scheduler_policy (inr (inr (inr (inl _)))) = SchedulerPolicy.batch
of_scheduler_policy (inr (inr (inr (inr (inl _))))) = SchedulerPolicy.idle
of_scheduler_policy (inr (inr (inr (inr (inr (inl _)))))) = SchedulerPolicy.deadline
of_scheduler_policy (inr (inr (inr (inr (inr (inr (inl _))))))) = SchedulerPolicy.ext
of_scheduler_policy (inr (inr (inr (inr (inr (inr (inr x))))))) = SchedulerPolicy.unknown x

of_scheduler_policy-to_scheduler_policy :
    (e : SchedulerPolicy) → of_scheduler_policy (to_scheduler_policy e) ≡ e
unfolding of_scheduler_policy to_scheduler_policy
of_scheduler_policy-to_scheduler_policy SchedulerPolicy.other = refl
of_scheduler_policy-to_scheduler_policy _ = refl

to_scheduler_policy-of_scheduler_policy :
    (x : SchedulerPolicySum) → to_scheduler_policy (of_scheduler_policy x) ≡ x
unfolding of_scheduler_policy to_scheduler_policy
to_scheduler_policy-of_scheduler_policy (inl x) = refl
to_scheduler_policy-of_scheduler_policy (inr (inl x)) = refl
to_scheduler_policy-of_scheduler_policy (inr (inr (inl x))) = refl
to_scheduler_policy-of_scheduler_policy (inr (inr (inr (inl x)))) = refl
to_scheduler_policy-of_scheduler_policy (inr (inr (inr (inr (inl x))))) = refl
to_scheduler_policy-of_scheduler_policy (inr (inr (inr (inr (inr (inl x)))))) = refl
to_scheduler_policy-of_scheduler_policy (inr (inr (inr (inr (inr (inr (inl x))))))) = refl
to_scheduler_policy-of_scheduler_policy (inr (inr (inr (inr (inr (inr (inr x))))))) = refl

unfoldable pub scheduler_policy_wire : Wire SchedulerPolicy
unfolding wire_enum arm last bare with to_scheduler_policy of_scheduler_policy
    of_scheduler_policy-to_scheduler_policy to_scheduler_policy-of_scheduler_policy
scheduler_policy_wire =
    wire_enum
      (arm 0 refl bare
        (arm 1 refl bare
          (arm 2 refl bare
            (arm 3 refl bare
              (arm 4 refl bare
                (arm 5 refl bare (arm 6 refl bare (last invalid_tag 7 refl (with u32)) refl) refl)
                refl)
              refl)
            refl)
          refl)
        refl)
      to_scheduler_policy of_scheduler_policy of_scheduler_policy-to_scheduler_policy
      to_scheduler_policy-of_scheduler_policy

pub record CpuRange : Type 0 where
  pub start : ℕ
  pub end : ℕ

unfoldable pub cpu_range_wire : Wire CpuRange
unfolding wire_struct
cpu_range_wire =
    wire_struct (u32 ⊗ u32) (λ r. (r.start, r.end)) (λ t. record { start = t.0; end = t.1 })
      (λ r. refl) (λ t. refl)
