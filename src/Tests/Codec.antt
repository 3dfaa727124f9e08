-- ===== src/Tests/Codec.antt =====
-- The codec of src/ipc/codec.rs at requests of src/ipc/schema.rs.
use procinsh.Prelude.{
  ℕ, ◌≡◌, ◌≢◌, refl, arith, List, [], ◌∷◌, ◌++◌, ok, err, length, min, leb, if◌then◌else◌,
}
use procinsh.Prelude.Int.{pos}
use procinsh.Ipc.Codec.{
  u32_max, limit_exceeded, to_ne_bytes, from_ne_bytes, append, write_number, read_number,
  take_bytes, trailing_bytes, truncated,
}
use procinsh.Ipc.Codec.Wire.{encode, decode}
use procinsh.Ipc.Codec.Wire.Correct.{encode-exact, decode-encode, encode-decode, decode_truncated}
use procinsh.Ipc.Codec.Combine.{◌⊗◌}
use procinsh.Ipc.Codec.Values.{i32, number}
use procinsh.Ipc.Identity.{process_id_wire}
use procinsh.Ipc.Schema.Request.{
  MonitorRequest, ProcessResource, monitor_request_wire, process_resource_wire,
}

abbrev request : MonitorRequest
request =
    MonitorRequest.process (record { pid = pos 42; start_time_ticks = 7 }) ProcessResource.maps

abbrev short_bytes : List ℕ
short_bytes = 1 ∷ 42 ∷ 0 ∷ 0 ∷ 0 ∷ 7 ∷ 0 ∷ 0 ∷ 0 ∷ 0 ∷ 0 ∷ 0 ∷ 0 ∷ []

abbrev request_bytes : List ℕ
request_bytes = 1 ∷ 42 ∷ 0 ∷ 0 ∷ 0 ∷ 7 ∷ 0 ∷ 0 ∷ 0 ∷ 0 ∷ 0 ∷ 0 ∷ 0 ∷ 2 ∷ []

encode-request : encode monitor_request_wire request 1024 ≡ ok request_bytes
unfolding encode monitor_request_wire process_resource_wire process_id_wire write_number append
    to_ne_bytes ◌⊗◌ i32 number
encode-request = refl

decode-request : decode monitor_request_wire request_bytes ≡ ok request
unfolding decode monitor_request_wire process_resource_wire process_id_wire read_number take_bytes
    from_ne_bytes ◌⊗◌ i32 number
decode-request = refl

-- The two requests that the source's own test refuses: one byte too many, one too few.
decode_refuses :
    (decode monitor_request_wire (request_bytes ++ (0 ∷ [])) ≡ err trailing_bytes)
    × (decode monitor_request_wire short_bytes ≡ err truncated)
unfolding decode monitor_request_wire process_resource_wire process_id_wire read_number take_bytes
    from_ne_bytes ◌⊗◌ i32 number
decode_refuses = (refl, refl)

abbrev IsRequest : MonitorRequest → Type 0
IsRequest = monitor_request_wire.IsRepresentable

request-IsRequest : IsRequest request
unfolding monitor_request_wire process_resource_wire process_id_wire ◌⊗◌ i32 number
request-IsRequest = (omega arith, tt)

encode-exact_example : encode monitor_request_wire request 4 ≡ (
    if leb (length (monitor_request_wire.code request)) (min 4 u32_max)
    then ok (monitor_request_wire.code request)
    else err limit_exceeded)
encode-exact_example = encode-exact monitor_request_wire request 4 request-IsRequest

decode-encode_example : decode monitor_request_wire request_bytes ≡ ok request
decode-encode_example =
    decode-encode monitor_request_wire request 1024 request_bytes request-IsRequest encode-request

encode-decode_example :
    IsRequest request × (encode monitor_request_wire request 1024 ≡ ok request_bytes)
encode-decode_example =
    encode-decode monitor_request_wire request_bytes request 1024 (omega arith) decode-request
      (omega arith)

decode_truncated_example : decode monitor_request_wire short_bytes ≢ ok request
decode_truncated_example =
    decode_truncated monitor_request_wire request request 1024 short_bytes [] 2 request-IsRequest
      (omega arith) encode-request
