-- ===== src/Hub/Frames.antt =====
-- src/http_server/hosts/wire.rs: the messages between a hub and an agent, and their frames. JSON and gzip
-- are those of the crates that the code calls; the stream is the bytes that the other side sends.
pub mod Streams
use procinsh.Prelude.{
  ℕ, ◌+◌, ◌-◌, ◌*◌, ◌/◌, ◌%◌, ◌^◌, ◌≤◌, ◌≡◌, ◌&&◌, not, leb, ltb, ◌==◌, if◌then◌else◌, length, take,
  drop, Option, none, some, List, [], ◌∷◌, ◌++◌, Result, ok, err, ◌>>=◌,
}
use procinsh.Ipc.Schema.Request.{MonitorRequest}

pub record Hello : Type 0 where
  pub protocol : ℕ
  pub host : List ℕ
  pub machine_id : List ℕ
  pub version : List ℕ
  pub kernel : Option (List ℕ)
  pub arch : List ℕ
  pub token : Option (List ℕ)

-- `R` is the type of `AgentResponse`.
pub data Message (R : Type 0) : Type 0 where
  hello : Hello → Message R
  welcome : ℕ → List ℕ → Message R
  reject : List ℕ → Message R
  request : ℕ → MonitorRequest → Message R
  response : ℕ → R → Message R
  ping pong : Message R

-- `serde_json::to_vec` and `from_slice`; `GzEncoder`, and the first bytes that `GzDecoder` gives, if
-- there is no error in them.
pub record Formats (M : Type 0) : Type 0 where
  pub to_json : M → Option (List ℕ)
  pub from_json : List ℕ → Option M
  pub gzip : List ℕ → Option (List ℕ)
  pub gunzip : ℕ → List ℕ → Option (List ℕ)

-- What the crates promise: no JSON and no gzip stream is empty, and a gzip decoder gives the bytes that
-- were compressed. That JSON is read back as the same value is not promised: numbers may be rounded.
pub record IsFaithful {M : Type 0} (F : Formats M) : Type 0 where
  pub json_pos : (m : M) (json : List ℕ) → F.to_json m ≡ some json → 1 ≤ length json
  pub gzip_back :
      (json packed : List ℕ) (n : ℕ)
      → F.gzip json ≡ some packed
      → F.gunzip n packed ≡ some (take n json)
  pub gzip_pos : (json packed : List ℕ) → F.gzip json ≡ some packed → 1 ≤ length packed

pub data WireError : Type 0 where
  ended length_out_of_range invalid_json invalid_gzip too_large failed : WireError
  unknown_encoding : ℕ → WireError

abbrev pub protocol_version : ℕ
protocol_version = 2

-- `MAX_RESPONSE + 64 * 1024`.
abbrev pub max_frame_bytes : ℕ
max_frame_bytes = 1073741824 + 65536

abbrev pub compress_above : ℕ
compress_above = 1024

abbrev pub plain : ℕ
plain = 1

abbrev pub gzipped : ℕ
gzipped = 2

abbrev pub or_fail : {A : Type 0} → WireError → Option A → Result WireError A
or_fail e none = err e
or_fail e (some a) = ok a

-- `read_u32` and `write_u32`, which are big-endian.
unfoldable pub read_u32 : List ℕ → Result WireError (ℕ × List ℕ)
read_u32 (a ∷ b ∷ c ∷ d ∷ rest) = ok (a * 2 ^ 24 + b * 2 ^ 16 + c * 2 ^ 8 + d, rest)
read_u32 _ = err ended

unfoldable pub write_u32 : ℕ → List ℕ
write_u32 n = (n / 2 ^ 24) % 256 ∷ (n / 2 ^ 16) % 256 ∷ (n / 2 ^ 8) % 256 ∷ n % 256 ∷ []

unfoldable pub read_u8 : List ℕ → Result WireError (ℕ × List ℕ)
read_u8 [] = err ended
read_u8 (b ∷ rest) = ok (b, rest)

unfoldable pub read_exact : ℕ → List ℕ → Result WireError (List ℕ × List ℕ)
read_exact n stream = if leb n (length stream) then ok (take n stream, drop n stream) else err ended

module _ {M : Type 0} (F : Formats M) where
  unfoldable pub encode_host_message : M → Result WireError (ℕ × List ℕ)
  encode_host_message m = do
    json ← or_fail failed (F.to_json m)
    let compressed = (do packed ← or_fail failed (F.gzip json); ok (gzipped, packed))
    if leb (length json) compress_above then ok (plain, json) else compressed

  unfoldable pub decode_host_message : ℕ → List ℕ → Result WireError M
  decode_host_message encoding payload =
      if encoding == plain
      then or_fail invalid_json (F.from_json payload)
      else if encoding == gzipped
      then (do
        json ← or_fail invalid_gzip (F.gunzip (max_frame_bytes + 1) payload)
        let parsed = or_fail invalid_json (F.from_json json)
        if leb (length json) max_frame_bytes then parsed else err too_large)
      else err (unknown_encoding encoding)

  -- The message, and what is left of the stream.
  unfoldable pub read_host_message : List ℕ → Result WireError (M × List ℕ)
  unfolding read_u32 read_u8 read_exact decode_host_message
  read_host_message stream = do
    (size, stream) ← read_u32 stream
    let body = (do
      (encoding, stream) ← read_u8 stream
      (payload, stream) ← read_exact (size - 1) stream
      m ← decode_host_message encoding payload
      ok (m, stream))
    if leb 2 size && leb size max_frame_bytes then body else err length_out_of_range

  -- The bytes that are written.
  unfoldable pub write_host_message : M → Result WireError (List ℕ)
  unfolding encode_host_message write_u32
  write_host_message m = do
    (encoding, payload) ← encode_host_message m
    let bytes = ok (write_u32 (length payload % 2 ^ 32 + 1) ++ (encoding ∷ payload))
    if ltb (length payload) max_frame_bytes then bytes else err too_large
