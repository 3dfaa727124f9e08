-- ===== src/Ipc/Rdma/Codes.antt =====
-- src/ipc/rdma.rs: queue pair types and states, as they go over the wire.
use procinsh.Prelude.{ℕ, ◌≡◌, refl, ◌⊎◌, inl, inr}
use procinsh.Ipc.Codec.{invalid_tag}
use procinsh.Ipc.Codec.Wire.{Wire}
use procinsh.Ipc.Codec.Values.{u8}
use procinsh.Ipc.Codec.Enums.{arm, last, bare, with, wire_enum}

pub data RdmaQpType : Type 0 where
  smi gsi rc uc ud raw_ipv6 raw_ethertype raw_packet : RdmaQpType
  xrc_ini xrc_tgt driver : RdmaQpType
  unknown : ℕ → RdmaQpType

abbrev RdmaQpTypeSum : Type 0
RdmaQpTypeSum =
    Unit {0}
    ⊎ (Unit {0}
        ⊎ (Unit {0}
            ⊎ (Unit {0}
                ⊎ (Unit {0}
                    ⊎ (Unit {0}
                        ⊎ (Unit {0} ⊎ (Unit {0} ⊎ (Unit {0} ⊎ (Unit {0} ⊎ (Unit {0} ⊎ ℕ))))))))))

to_rdma_qp_type : RdmaQpType → RdmaQpTypeSum
to_rdma_qp_type RdmaQpType.smi = inl tt
to_rdma_qp_type RdmaQpType.gsi = inr (inl tt)
to_rdma_qp_type RdmaQpType.rc = inr (inr (inl tt))
to_rdma_qp_type RdmaQpType.uc = inr (inr (inr (inl tt)))
to_rdma_qp_type RdmaQpType.ud = inr (inr (inr (inr (inl tt))))
to_rdma_qp_type RdmaQpType.raw_ipv6 = inr (inr (inr (inr (inr (inl tt)))))
to_rdma_qp_type RdmaQpType.raw_ethertype = inr (inr (inr (inr (inr (inr (inl tt))))))
to_rdma_qp_type RdmaQpType.raw_packet = inr (inr (inr (inr (inr (inr (inr (inl tt)))))))
to_rdma_qp_type RdmaQpType.xrc_ini = inr (inr (inr (inr (inr (inr (inr (inr (inl tt))))))))
to_rdma_qp_type RdmaQpType.xrc_tgt = inr (inr (inr (inr (inr (inr (inr (inr (inr (inl tt)))))))))
to_rdma_qp_type RdmaQpType.driver =
    inr (inr (inr (inr (inr (inr (inr (inr (inr (inr (inl tt))))))))))
to_rdma_qp_type (RdmaQpType.unknown a) =
    inr (inr (inr (inr (inr (inr (inr (inr (inr (inr (inr a))))))))))

of_rdma_qp_type : RdmaQpTypeSum → RdmaQpType
of_rdma_qp_type (inl _) = RdmaQpType.smi
of_rdma_qp_type (inr (inl _)) = RdmaQpType.gsi
of_rdma_qp_type (inr (inr (inl _))) = RdmaQpType.rc
of_rdma_qp_type (inr (inr (inr (inl _)))) = RdmaQpType.uc
of_rdma_qp_type (inr (inr (inr (inr (inl _))))) = RdmaQpType.ud
of_rdma_qp_type (inr (inr (inr (inr (inr (inl _)))))) = RdmaQpType.raw_ipv6
of_rdma_qp_type (inr (inr (inr (inr (inr (inr (inl _))))))) = RdmaQpType.raw_ethertype
of_rdma_qp_type (inr (inr (inr (inr (inr (inr (inr (inl _)))))))) = RdmaQpType.raw_packet
of_rdma_qp_type (inr (inr (inr (inr (inr (inr (inr (inr (inl _))))))))) = RdmaQpType.xrc_ini
of_rdma_qp_type (inr (inr (inr (inr (inr (inr (inr (inr (inr (inl _)))))))))) = RdmaQpType.xrc_tgt
of_rdma_qp_type (inr (inr (inr (inr (inr (inr (inr (inr (inr (inr (inl _))))))))))) =
    RdmaQpType.driver
of_rdma_qp_type (inr (inr (inr (inr (inr (inr (inr (inr (inr (inr (inr x))))))))))) =
    RdmaQpType.unknown x

of_rdma_qp_type-to_rdma_qp_type : (e : RdmaQpType) → of_rdma_qp_type (to_rdma_qp_type e) ≡ e
unfolding of_rdma_qp_type to_rdma_qp_type
of_rdma_qp_type-to_rdma_qp_type RdmaQpType.smi = refl
of_rdma_qp_type-to_rdma_qp_type _ = refl

to_rdma_qp_type-of_rdma_qp_type : (x : RdmaQpTypeSum) → to_rdma_qp_type (of_rdma_qp_type x) ≡ x
unfolding of_rdma_qp_type to_rdma_qp_type
to_rdma_qp_type-of_rdma_qp_type (inl x) = refl
to_rdma_qp_type-of_rdma_qp_type (inr (inl x)) = refl
to_rdma_qp_type-of_rdma_qp_type (inr (inr (inl x))) = refl
to_rdma_qp_type-of_rdma_qp_type (inr (inr (inr (inl x)))) = refl
to_rdma_qp_type-of_rdma_qp_type (inr (inr (inr (inr (inl x))))) = refl
to_rdma_qp_type-of_rdma_qp_type (inr (inr (inr (inr (inr (inl x)))))) = refl
to_rdma_qp_type-of_rdma_qp_type (inr (inr (inr (inr (inr (inr (inl x))))))) = refl
to_rdma_qp_type-of_rdma_qp_type (inr (inr (inr (inr (inr (inr (inr (inl x)))))))) = refl
to_rdma_qp_type-of_rdma_qp_type (inr (inr (inr (inr (inr (inr (inr (inr (inl x))))))))) = refl
to_rdma_qp_type-of_rdma_qp_type (inr (inr (inr (inr (inr (inr (inr (inr (inr (inl x)))))))))) = refl
to_rdma_qp_type-of_rdma_qp_type
      (inr (inr (inr (inr (inr (inr (inr (inr (inr (inr (inl x))))))))))) =
    refl
to_rdma_qp_type-of_rdma_qp_type
      (inr (inr (inr (inr (inr (inr (inr (inr (inr (inr (inr x))))))))))) =
    refl

unfoldable pub rdma_qp_type_wire : Wire RdmaQpType
unfolding wire_enum arm last bare with to_rdma_qp_type of_rdma_qp_type
    of_rdma_qp_type-to_rdma_qp_type to_rdma_qp_type-of_rdma_qp_type
rdma_qp_type_wire =
    wire_enum
      (arm 0 refl bare
        (arm 1 refl bare
          (arm 2 refl bare
            (arm 3 refl bare
              (arm 4 refl bare
                (arm 5 refl bare
                  (arm 6 refl bare
                    (arm 7 refl bare
                      (arm 8 refl bare
                        (arm 9 refl bare
                          (arm 10 refl bare (last invalid_tag 11 refl (with u8)) refl) refl)
                        refl)
                      refl)
                    refl)
                  refl)
                refl)
              refl)
            refl)
          refl)
        refl)
      to_rdma_qp_type of_rdma_qp_type of_rdma_qp_type-to_rdma_qp_type
      to_rdma_qp_type-of_rdma_qp_type

pub data RdmaQpState : Type 0 where
  reset init rtr rts sqd sqe error_state : RdmaQpState
  unknown : ℕ → RdmaQpState

abbrev RdmaQpStateSum : Type 0
RdmaQpStateSum =
    Unit {0} ⊎ (Unit {0} ⊎ (Unit {0} ⊎ (Unit {0} ⊎ (Unit {0} ⊎ (Unit {0} ⊎ (Unit {0} ⊎ ℕ))))))

to_rdma_qp_state : RdmaQpState → RdmaQpStateSum
to_rdma_qp_state RdmaQpState.reset = inl tt
to_rdma_qp_state RdmaQpState.init = inr (inl tt)
to_rdma_qp_state RdmaQpState.rtr = inr (inr (inl tt))
to_rdma_qp_state RdmaQpState.rts = inr (inr (inr (inl tt)))
to_rdma_qp_state RdmaQpState.sqd = inr (inr (inr (inr (inl tt))))
to_rdma_qp_state RdmaQpState.sqe = inr (inr (inr (inr (inr (inl tt)))))
to_rdma_qp_state RdmaQpState.error_state = inr (inr (inr (inr (inr (inr (inl tt))))))
to_rdma_qp_state (RdmaQpState.unknown a) = inr (inr (inr (inr (inr (inr (inr a))))))

of_rdma_qp_state : RdmaQpStateSum → RdmaQpState
of_rdma_qp_state (inl _) = RdmaQpState.reset
of_rdma_qp_state (inr (inl _)) = RdmaQpState.init
of_rdma_qp_state (inr (inr (inl _))) = RdmaQpState.rtr
of_rdma_qp_state (inr (inr (inr (inl _)))) = RdmaQpState.rts
of_rdma_qp_state (inr (inr (inr (inr (inl _))))) = RdmaQpState.sqd
of_rdma_qp_state (inr (inr (inr (inr (inr (inl _)))))) = RdmaQpState.sqe
of_rdma_qp_state (inr (inr (inr (inr (inr (inr (inl _))))))) = RdmaQpState.error_state
of_rdma_qp_state (inr (inr (inr (inr (inr (inr (inr x))))))) = RdmaQpState.unknown x

of_rdma_qp_state-to_rdma_qp_state : (e : RdmaQpState) → of_rdma_qp_state (to_rdma_qp_state e) ≡ e
unfolding of_rdma_qp_state to_rdma_qp_state
of_rdma_qp_state-to_rdma_qp_state RdmaQpState.reset = refl
of_rdma_qp_state-to_rdma_qp_state _ = refl

to_rdma_qp_state-of_rdma_qp_state : (x : RdmaQpStateSum) → to_rdma_qp_state (of_rdma_qp_state x) ≡ x
unfolding of_rdma_qp_state to_rdma_qp_state
to_rdma_qp_state-of_rdma_qp_state (inl x) = refl
to_rdma_qp_state-of_rdma_qp_state (inr (inl x)) = refl
to_rdma_qp_state-of_rdma_qp_state (inr (inr (inl x))) = refl
to_rdma_qp_state-of_rdma_qp_state (inr (inr (inr (inl x)))) = refl
to_rdma_qp_state-of_rdma_qp_state (inr (inr (inr (inr (inl x))))) = refl
to_rdma_qp_state-of_rdma_qp_state (inr (inr (inr (inr (inr (inl x)))))) = refl
to_rdma_qp_state-of_rdma_qp_state (inr (inr (inr (inr (inr (inr (inl x))))))) = refl
to_rdma_qp_state-of_rdma_qp_state (inr (inr (inr (inr (inr (inr (inr x))))))) = refl

unfoldable pub rdma_qp_state_wire : Wire RdmaQpState
unfolding wire_enum arm last bare with to_rdma_qp_state of_rdma_qp_state
    of_rdma_qp_state-to_rdma_qp_state to_rdma_qp_state-of_rdma_qp_state
rdma_qp_state_wire =
    wire_enum
      (arm 0 refl bare
        (arm 1 refl bare
          (arm 2 refl bare
            (arm 3 refl bare
              (arm 4 refl bare
                (arm 5 refl bare (arm 6 refl bare (last invalid_tag 7 refl (with u8)) refl) refl)
                refl)
              refl)
            refl)
          refl)
        refl)
      to_rdma_qp_state of_rdma_qp_state of_rdma_qp_state-to_rdma_qp_state
      to_rdma_qp_state-of_rdma_qp_state
