-- ===== src/Ipc/Transport.antt =====
-- src/ipc/transport.rs: frames on the socket between the server and its helper, each a u32 length
-- and a payload. What the operating system does is a schedule: one turn for each call of
-- `Read::read` or `Write::write`, with the time at which the loop looks at the clock before it.
pub mod Loops
pub mod Schedules
pub mod Frames
use procinsh.Prelude.{
  ℕ, zero, suc, ◌-◌, ◌<◌, min, Bool, true, false, ◌&&◌, List, [], ◌∷◌, ◌++◌, leb, ltb, length, take,
  drop, if◌then◌else◌, Result, ok, err, ◌>>=◌,
}
use procinsh.Ipc.Codec.{CodecError, to_ne_bytes, from_ne_bytes}
use procinsh.Ipc.Codec.Wire.{Wire, encode, decode}

pub data TransportError : Type 0 where
  disconnected timed_out io_failed invalid_frame_length : TransportError
  -- No error of the program: the schedule of the model ended before the loop did.
  unscheduled : TransportError
  codec : CodecError → TransportError

-- What a call of the socket returns: at most `suc k` bytes, `Ok(0)`, EINTR, or another error.
pub data Event : Type 0 where
  moved : ℕ → Event
  nothing interrupted failed : Event

pub record Turn : Type 0 where
  pub now : ℕ
  pub event : Event

abbrev pub Io : Type 0 → Type 0
Io A = Result TransportError A

-- What one round of a loop makes of its turn.
pub data Progress : Type 0 where
  chunk : List ℕ → Progress
  again : Progress
  stop : TransportError → Progress

non_empty : List ℕ → Progress
non_empty [] = stop disconnected
non_empty (b ∷ bytes) = chunk (b ∷ bytes)

-- The bytes that pass: no more than are wanted (or left to write), and none at the end of the stream.
outcome : Event → ℕ → List ℕ → Progress
unfolding non_empty
outcome (moved k) wanted stream = non_empty (take (min (suc k) wanted) stream)
outcome nothing wanted stream = stop disconnected
outcome interrupted wanted stream = again
outcome failed wanted stream = stop io_failed

-- `remaining_io_timeout(deadline)?`, which refuses a time that is not before the deadline, and the call.
unfoldable pub progress : ℕ → Turn → ℕ → List ℕ → Progress
unfolding outcome
progress deadline turn wanted stream =
    if leb deadline turn.now then stop timed_out else outcome turn.event wanted stream

abbrev pub prepend : {A : Type 0} → List ℕ → Io (List ℕ × A) → Io (List ℕ × A)
prepend bytes r = do (more, rest) ← r; ok (bytes ++ more, rest)

-- `read_until`, for `wanted` bytes: what was read, what the stream still holds, the turns left.
unfoldable pub read_until : ℕ → List Turn → ℕ → List ℕ → Io (List ℕ × (List ℕ × List Turn))
unfolding progress
read_until deadline turns zero stream = ok ([], (stream, turns))
read_until deadline [] (suc n) stream = err unscheduled
read_until deadline (turn ∷ turns) (suc n) stream = elim (progress deadline turn (suc n) stream) [
  | chunk bytes ↦
      prepend bytes (read_until deadline turns (suc n - length bytes) (drop (length bytes) stream))
  | again ↦ read_until deadline turns (suc n) stream
  | stop e ↦ err e
]

-- `write_until`: `sent` is what the socket has taken so far.
unfoldable pub write_until : ℕ → List Turn → List ℕ → List ℕ → Io (List ℕ × List Turn)
unfolding progress
write_until deadline turns [] sent = ok (sent, turns)
write_until deadline [] (b ∷ bytes) sent = err unscheduled
write_until deadline (turn ∷ turns) (b ∷ bytes) sent =
    elim (progress deadline turn (length (b ∷ bytes)) (b ∷ bytes)) [
      | chunk part ↦ write_until deadline turns (drop (length part) (b ∷ bytes)) (sent ++ part)
      | again ↦ write_until deadline turns (b ∷ bytes) sent
      | stop e ↦ err e
    ]

abbrev pub lift : {A : Type 0} → Result CodecError A → Io A
lift (ok a) = ok a
lift (err e) = err (codec e)

module _ {A : Type 0} (w : Wire A) where
  -- `deadline` is `Instant::now() + TIMEOUT`.
  unfoldable pub send : A → ℕ → ℕ → List Turn → List ℕ → Io (List ℕ × List Turn)
  unfolding write_until encode
  send value limit deadline turns sent = do
    bytes ← lift (encode w value limit)
    (sent, turns) ← write_until deadline turns (to_ne_bytes 4 (length bytes)) sent
    write_until deadline turns bytes sent

  -- The value, the bytes behind its frame, and the turns left.
  unfoldable pub read_timeout : ℕ → ℕ → List Turn → List ℕ → Io (A × (List ℕ × List Turn))
  unfolding read_until decode from_ne_bytes
  read_timeout limit deadline turns stream = do
    (header, s) ← read_until deadline turns 4 stream
    if ltb 0 (from_ne_bytes header) && leb (from_ne_bytes header) limit
        then (do
          (bytes, s) ← read_until deadline s.1 (from_ne_bytes header) s.0
          value ← lift (decode w bytes)
          ok (value, s))
        else err invalid_frame_length
