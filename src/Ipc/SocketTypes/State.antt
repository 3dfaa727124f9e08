-- ===== src/Ipc/SocketTypes/State.antt =====
-- src/ipc/model/socket_types.rs: connection states, as they go over the wire.
use procinsh.Prelude.{ℕ, ◌≡◌, refl, ◌⊎◌, inl, inr}
use procinsh.Ipc.Codec.{invalid_tag}
use procinsh.Ipc.Codec.Wire.{Wire}
use procinsh.Ipc.Codec.Values.{u32}
use procinsh.Ipc.Codec.Enums.{arm, last, bare, with, wire_enum}

pub data SocketConnectionStatus : Type 0 where
  listening unconnected peer_present unknown : SocketConnectionStatus

abbrev SocketConnectionStatusSum : Type 0
SocketConnectionStatusSum = Unit {0} ⊎ (Unit {0} ⊎ (Unit {0} ⊎ Unit {0}))

to_socket_connection_status : SocketConnectionStatus → SocketConnectionStatusSum
to_socket_connection_status SocketConnectionStatus.listening = inl tt
to_socket_connection_status SocketConnectionStatus.unconnected = inr (inl tt)
to_socket_connection_status SocketConnectionStatus.peer_present = inr (inr (inl tt))
to_socket_connection_status SocketConnectionStatus.unknown = inr (inr (inr tt))

of_socket_connection_status : SocketConnectionStatusSum → SocketConnectionStatus
of_socket_connection_status (inl _) = SocketConnectionStatus.listening
of_socket_connection_status (inr (inl _)) = SocketConnectionStatus.unconnected
of_socket_connection_status (inr (inr (inl _))) = SocketConnectionStatus.peer_present
of_socket_connection_status (inr (inr (inr _))) = SocketConnectionStatus.unknown

of_socket_connection_status-to_socket_connection_status :
    (e : SocketConnectionStatus) → of_socket_connection_status (to_socket_connection_status e) ≡ e
unfolding of_socket_connection_status to_socket_connection_status
of_socket_connection_status-to_socket_connection_status SocketConnectionStatus.listening = refl
of_socket_connection_status-to_socket_connection_status _ = refl

to_socket_connection_status-of_socket_connection_status :
    (x : SocketConnectionStatusSum)
    → to_socket_connection_status (of_socket_connection_status x) ≡ x
unfolding of_socket_connection_status to_socket_connection_status
to_socket_connection_status-of_socket_connection_status (inl x) = refl
to_socket_connection_status-of_socket_connection_status (inr (inl x)) = refl
to_socket_connection_status-of_socket_connection_status (inr (inr (inl x))) = refl
to_socket_connection_status-of_socket_connection_status (inr (inr (inr x))) = refl

unfoldable pub socket_connection_status_wire : Wire SocketConnectionStatus
unfolding wire_enum arm last bare with to_socket_connection_status of_socket_connection_status
    of_socket_connection_status-to_socket_connection_status
    to_socket_connection_status-of_socket_connection_status
socket_connection_status_wire =
    wire_enum
      (arm 0 refl bare (arm 1 refl bare (arm 2 refl bare (last invalid_tag 3 refl bare) refl) refl)
        refl)
      to_socket_connection_status of_socket_connection_status
      of_socket_connection_status-to_socket_connection_status
      to_socket_connection_status-of_socket_connection_status

pub data SocketState : Type 0 where
  established syn_sent syn_recv fin_wait1 fin_wait2 time_wait close close_wait : SocketState
  last_ack listen closing new_syn_recv unconnected connecting connected disconnecting : SocketState
  unknown_inet : ℕ → SocketState
  unknown_unix : ℕ → SocketState

abbrev SocketStateSum : Type 0
SocketStateSum =
    Unit {0}
    ⊎ (Unit {0}
        ⊎ (Unit {0}
            ⊎ (Unit {0}
                ⊎ (Unit {0}
                    ⊎ (Unit {0}
                        ⊎ (Unit {0}
                            ⊎ (Unit {0}
                                ⊎ (Unit {0}
                                    ⊎ (Unit {0}
                                        ⊎ (Unit {0}
                                            ⊎ (Unit {0}
                                                ⊎ (Unit {0}
                                                    ⊎ (Unit {0}
                                                        ⊎ (Unit {0}
                                                            ⊎ (Unit {0} ⊎ (ℕ ⊎ ℕ))))))))))))))))

to_socket_state : SocketState → SocketStateSum
to_socket_state SocketState.established = inl tt
to_socket_state SocketState.syn_sent = inr (inl tt)
to_socket_state SocketState.syn_recv = inr (inr (inl tt))
to_socket_state SocketState.fin_wait1 = inr (inr (inr (inl tt)))
to_socket_state SocketState.fin_wait2 = inr (inr (inr (inr (inl tt))))
to_socket_state SocketState.time_wait = inr (inr (inr (inr (inr (inl tt)))))
to_socket_state SocketState.close = inr (inr (inr (inr (inr (inr (inl tt))))))
to_socket_state SocketState.close_wait = inr (inr (inr (inr (inr (inr (inr (inl tt)))))))
to_socket_state SocketState.last_ack = inr (inr (inr (inr (inr (inr (inr (inr (inl tt))))))))
to_socket_state SocketState.listen = inr (inr (inr (inr (inr (inr (inr (inr (inr (inl tt)))))))))
to_socket_state SocketState.closing =
    inr (inr (inr (inr (inr (inr (inr (inr (inr (inr (inl tt))))))))))
to_socket_state SocketState.new_syn_recv =
    inr (inr (inr (inr (inr (inr (inr (inr (inr (inr (inr (inl tt)))))))))))
to_socket_state SocketState.unconnected =
    inr (inr (inr (inr (inr (inr (inr (inr (inr (inr (inr (inr (inl tt))))))))))))
to_socket_state SocketState.connecting =
    inr (inr (inr (inr (inr (inr (inr (inr (inr (inr (inr (inr (inr (inl tt)))))))))))))
to_socket_state SocketState.connected =
    inr (inr (inr (inr (inr (inr (inr (inr (inr (inr (inr (inr (inr (inr (inl tt))))))))))))))
to_socket_state SocketState.disconnecting =
    inr (inr (inr (inr (inr (inr (inr (inr (inr (inr (inr (inr (inr (inr (inr (inl tt)))))))))))))))
to_socket_state (SocketState.unknown_inet a) = inr (
    inr (inr (inr (inr (inr (inr (inr (inr (inr (inr (inr (inr (inr (inr (inr (inl a))))))))))))))))
to_socket_state (SocketState.unknown_unix a) = inr (
    inr (inr (inr (inr (inr (inr (inr (inr (inr (inr (inr (inr (inr (inr (inr (inr a))))))))))))))))

of_socket_state : SocketStateSum → SocketState
of_socket_state (inl _) = SocketState.established
of_socket_state (inr (inl _)) = SocketState.syn_sent
of_socket_state (inr (inr (inl _))) = SocketState.syn_recv
of_socket_state (inr (inr (inr (inl _)))) = SocketState.fin_wait1
of_socket_state (inr (inr (inr (inr (inl _))))) = SocketState.fin_wait2
of_socket_state (inr (inr (inr (inr (inr (inl _)))))) = SocketState.time_wait
of_socket_state (inr (inr (inr (inr (inr (inr (inl _))))))) = SocketState.close
of_socket_state (inr (inr (inr (inr (inr (inr (inr (inl _)))))))) = SocketState.close_wait
of_socket_state (inr (inr (inr (inr (inr (inr (inr (inr (inl _))))))))) = SocketState.last_ack
of_socket_state (inr (inr (inr (inr (inr (inr (inr (inr (inr (inl _)))))))))) = SocketState.listen
of_socket_state (inr (inr (inr (inr (inr (inr (inr (inr (inr (inr (inl _))))))))))) =
    SocketState.closing
of_socket_state (inr (inr (inr (inr (inr (inr (inr (inr (inr (inr (inr (inl _)))))))))))) =
    SocketState.new_syn_recv
of_socket_state (inr (inr (inr (inr (inr (inr (inr (inr (inr (inr (inr (inr (inl _))))))))))))) =
    SocketState.unconnected
of_socket_state
      (inr (inr (inr (inr (inr (inr (inr (inr (inr (inr (inr (inr (inr (inl _)))))))))))))) =
    SocketState.connecting
of_socket_state
      (inr (inr (inr (inr (inr (inr (inr (inr (inr (inr (inr (inr (inr (inr (inl _))))))))))))))) =
    SocketState.connected
of_socket_state
      (inr (
        inr
          (inr (inr (inr (inr (inr (inr (inr (inr (inr (inr (inr (inr (inr (inl _)))))))))))))))) =
    SocketState.disconnecting
of_socket_state
      (inr (
        inr (
          inr (
            inr
              (inr (inr (inr (inr (inr (inr (inr (inr (inr (inr (inr (inr (inl x))))))))))))))))) =
    SocketState.unknown_inet x
of_socket_state
      (inr (
        inr (
          inr (
            inr
              (inr (inr (inr (inr (inr (inr (inr (inr (inr (inr (inr (inr (inr x))))))))))))))))) =
    SocketState.unknown_unix x

of_socket_state-to_socket_state : (e : SocketState) → of_socket_state (to_socket_state e) ≡ e
unfolding of_socket_state to_socket_state
of_socket_state-to_socket_state SocketState.established = refl
of_socket_state-to_socket_state _ = refl

to_socket_state-of_socket_state : (x : SocketStateSum) → to_socket_state (of_socket_state x) ≡ x
unfolding of_socket_state to_socket_state
to_socket_state-of_socket_state (inl x) = refl
to_socket_state-of_socket_state (inr (inl x)) = refl
to_socket_state-of_socket_state (inr (inr (inl x))) = refl
to_socket_state-of_socket_state (inr (inr (inr (inl x)))) = refl
to_socket_state-of_socket_state (inr (inr (inr (inr (inl x))))) = refl
to_socket_state-of_socket_state (inr (inr (inr (inr (inr (inl x)))))) = refl
to_socket_state-of_socket_state (inr (inr (inr (inr (inr (inr (inl x))))))) = refl
to_socket_state-of_socket_state (inr (inr (inr (inr (inr (inr (inr (inl x)))))))) = refl
to_socket_state-of_socket_state (inr (inr (inr (inr (inr (inr (inr (inr (inl x))))))))) = refl
to_socket_state-of_socket_state (inr (inr (inr (inr (inr (inr (inr (inr (inr (inl x)))))))))) = refl
to_socket_state-of_socket_state
      (inr (inr (inr (inr (inr (inr (inr (inr (inr (inr (inl x))))))))))) =
    refl
to_socket_state-of_socket_state
      (inr (inr (inr (inr (inr (inr (inr (inr (inr (inr (inr (inl x)))))))))))) =
    refl
to_socket_state-of_socket_state
      (inr (inr (inr (inr (inr (inr (inr (inr (inr (inr (inr (inr (inl x))))))))))))) =
    refl
to_socket_state-of_socket_state
      (inr (inr (inr (inr (inr (inr (inr (inr (inr (inr (inr (inr (inr (inl x)))))))))))))) =
    refl
to_socket_state-of_socket_state
      (inr (inr (inr (inr (inr (inr (inr (inr (inr (inr (inr (inr (inr (inr (inl x))))))))))))))) =
    refl
to_socket_state-of_socket_state
      (inr (
        inr
          (inr (inr (inr (inr (inr (inr (inr (inr (inr (inr (inr (inr (inr (inl x)))))))))))))))) =
    refl
to_socket_state-of_socket_state
      (inr (
        inr (
          inr (
            inr
              (inr (inr (inr (inr (inr (inr (inr (inr (inr (inr (inr (inr (inl x))))))))))))))))) =
    refl
to_socket_state-of_socket_state
      (inr (
        inr (
          inr (
            inr
              (inr (inr (inr (inr (inr (inr (inr (inr (inr (inr (inr (inr (inr x))))))))))))))))) =
    refl

unfoldable pub socket_state_wire : Wire SocketState
unfolding wire_enum arm last bare with to_socket_state of_socket_state
    of_socket_state-to_socket_state to_socket_state-of_socket_state
socket_state_wire =
    wire_enum
      (arm 0 refl bare
        (arm 1 refl bare
          (arm 2 refl bare
            (arm 3 refl bare
              (arm 4 refl bare
                (arm 5 refl bare
                  (arm 6 refl bare
                    (arm 7 refl bare
                      (arm 8 refl bare
                        (arm 9 refl bare
                          (arm 10 refl bare
                            (arm 11 refl bare
                              (arm 12 refl bare
                                (arm 13 refl bare
                                  (arm 14 refl bare
                                    (arm 15 refl bare
                                      (arm 16 refl (with u32) (last invalid_tag 17 refl (with u32))
                                        refl)
                                      refl)
                                    refl)
                                  refl)
                                refl)
                              refl)
                            refl)
                          refl)
                        refl)
                      refl)
                    refl)
                  refl)
                refl)
              refl)
            refl)
          refl)
        refl)
      to_socket_state of_socket_state of_socket_state-to_socket_state
      to_socket_state-of_socket_state
