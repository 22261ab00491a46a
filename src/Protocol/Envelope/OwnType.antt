-- ===== src/Protocol/Envelope/OwnType.antt =====
-- The message type that belongs to each struct, as internal/protocol/types.go names them, and that
-- `DecodeEnvelope` reads a struct under its own type and no other.
use udp_measure.Prelude.{arith, some, Bytes, ok, ◌≡◌, ◌↔◌}
use udp_measure.Protocol.Types.{
  MessageType, msg_hello, msg_prepare, msg_start, msg_send_complete, msg_fetch_result, msg_cancel,
  msg_ready, msg_result, msg_busy, msg_invalid_request, msg_internal_error,
}
use udp_measure.Protocol.Envelope.{
  Shape, hello_shape, prepare_shape, start_shape, send_complete_shape, fetch_result_shape,
  cancel_shape, ready_shape, result_shape, busy_shape, invalid_request_shape, internal_error_shape,
  Struct, Json, shape_for, encode_message, decode_envelope,
}
use udp_measure.Protocol.Envelope.RoundTrip.{
  IsLawful, decode_envelope-encode_message, decode_envelope-shape,
}

abbrev pub own_type : Shape → MessageType
own_type hello_shape = msg_hello
own_type prepare_shape = msg_prepare
own_type start_shape = msg_start
own_type send_complete_shape = msg_send_complete
own_type fetch_result_shape = msg_fetch_result
own_type cancel_shape = msg_cancel
own_type ready_shape = msg_ready
own_type result_shape = msg_result
own_type busy_shape = msg_busy
own_type invalid_request_shape = msg_invalid_request
own_type internal_error_shape = msg_internal_error

shape_for-own_type : (k : Shape) → shape_for (own_type k) ≡ some k
unfolding shape_for
shape_for-own_type k = ground arith

own_type-shape_for : (t : MessageType) (k : Shape) → shape_for t ≡ some k → t ≡ own_type k
unfolding shape_for
own_type-shape_for t k h = ground arith

-- A message that has been encoded with some type, and whose texts are UTF-8, is decoded as this
-- message of this type exactly if the type is that of its struct: Hello with hello, Prepare with
-- prepare, and so on.
pub decoded_as_own :
    (json : Json) (lawful : IsLawful json) (k : Shape) (m : Struct json.Float k) (t : MessageType)
    (e : Bytes)
    → lawful.IsUtf8 k m
    → encode_message json (k, m) t ≡ some e
    → (decode_envelope json e ≡ ok (t, (k, m))) ↔ (t ≡ own_type k)
decoded_as_own json lawful k m t e utf8 h = (
  λ d. own_type-shape_for t k (decode_envelope-shape json e t (k, m) d),
  λ own. decode_envelope-encode_message json lawful k m t e utf8 (rw own (shape_for-own_type k)) h,
)
