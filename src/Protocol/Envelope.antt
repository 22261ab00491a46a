-- ===== src/Protocol/Envelope.antt =====
-- internal/protocol/types.go: the control messages and the envelope that they travel in. What
-- `encoding/json` makes of a struct is a parameter, and so is the type of floating-point numbers.
pub mod RoundTrip
pub mod OwnType
use udp_measure.Prelude.{
  Option, none, some, List, Bytes, Outcome, ok, err, ◌>>=◌, ◌>>◌, if◌then◌else◌,
}
use udp_measure.Prelude.Int.{ℤ, ◌==ℤ◌}
use udp_measure.Protocol.Types.{
  Direction, Family, ErrorCode, MessageType, msg_hello, msg_prepare, msg_start, msg_send_complete,
  msg_fetch_result, msg_cancel, msg_ready, msg_result, msg_busy, msg_invalid_request,
  msg_internal_error,
}

pub record BaseMessage : Type 0 where
  pub version : ℤ
  pub type : MessageType
  pub session_id : Bytes
  pub test_id : Bytes
  pub sequence : ℤ
  pub timestamp : ℤ

pub record Hello : Type 0 where
  pub base : BaseMessage
  pub client_version : ℤ
  pub capability : List Bytes

pub record Prepare : Type 0 where
  pub base : BaseMessage
  pub direction : Direction
  pub family : Family
  pub udp_port : ℤ
  pub payload_size : ℤ
  pub packet_count : ℤ
  pub interval_ms : ℤ
  pub client_receive_port : ℤ

pub record Start : Type 0 where
  pub base : BaseMessage

pub record SendComplete : Type 0 where
  pub base : BaseMessage

pub record FetchResult : Type 0 where
  pub base : BaseMessage

pub record Cancel : Type 0 where
  pub base : BaseMessage
  pub reason : Bytes

pub record Ready : Type 0 where
  pub base : BaseMessage
  pub server_port : ℤ

pub record Result (Float : Type 0) : Type 0 where
  pub base : BaseMessage
  pub sent : ℤ
  pub received : ℤ
  pub loss_rate : Float
  pub critical_size : ℤ

pub record Busy : Type 0 where
  pub base : BaseMessage
  pub current_session : Bytes

pub record InvalidRequest : Type 0 where
  pub base : BaseMessage
  pub code : ErrorCode
  pub message : Bytes

pub record InternalError : Type 0 where
  pub base : BaseMessage
  pub code : ErrorCode
  pub message : Bytes

-- The struct types, by name, and the values of each.
pub data Shape : Type 0 where
  hello_shape prepare_shape start_shape send_complete_shape : Shape
  fetch_result_shape cancel_shape ready_shape result_shape : Shape
  busy_shape invalid_request_shape internal_error_shape : Shape

abbrev pub Struct : Type 0 → Shape → Type 0
Struct Float hello_shape = Hello
Struct Float prepare_shape = Prepare
Struct Float start_shape = Start
Struct Float send_complete_shape = SendComplete
Struct Float fetch_result_shape = FetchResult
Struct Float cancel_shape = Cancel
Struct Float ready_shape = Ready
Struct Float result_shape = Result Float
Struct Float busy_shape = Busy
Struct Float invalid_request_shape = InvalidRequest
Struct Float internal_error_shape = InternalError

pub record Envelope : Type 0 where
  pub type : MessageType
  pub payload : Bytes

-- `json.Marshal` and `json.Unmarshal` on these types; `none` where they return an error.
pub record Json : Type 1 where
  pub Float : Type 0
  pub marshal : (k : Shape) → Struct Float k → Option Bytes
  pub unmarshal : (k : Shape) → Bytes → Option (Struct Float k)
  pub marshal_envelope : Envelope → Option Bytes
  pub unmarshal_envelope : Bytes → Option Envelope

pub data DecodeError : Type 0 where
  bad_json : DecodeError
  unknown_message_type : MessageType → DecodeError

-- The struct that the switch of `Decode` declares for a type.
unfoldable pub shape_for : MessageType → Option Shape
shape_for t =
    if t ==ℤ msg_hello
    then some hello_shape
    else if t ==ℤ msg_prepare
    then some prepare_shape
    else if t ==ℤ msg_ready
    then some ready_shape
    else if t ==ℤ msg_start
    then some start_shape
    else if t ==ℤ msg_send_complete
    then some send_complete_shape
    else if t ==ℤ msg_fetch_result
    then some fetch_result_shape
    else if t ==ℤ msg_result
    then some result_shape
    else if t ==ℤ msg_cancel
    then some cancel_shape
    else if t ==ℤ msg_busy
    then some busy_shape
    else if t ==ℤ msg_invalid_request
    then some invalid_request_shape
    else if t ==ℤ msg_internal_error
    then some internal_error_shape
    else none

module _ (json : Json) where
  -- A message as an `any`: a struct with its type.
  abbrev pub AnyMessage : Type 0
  AnyMessage = (k : Shape) × Struct json.Float k

  abbrev read_struct : (k : Shape) → Option (Struct json.Float k) → Outcome DecodeError AnyMessage
  read_struct k (some m) = ok (k, m)
  read_struct k none = err bad_json

  unfoldable pub decode : Bytes → MessageType → Outcome DecodeError AnyMessage
  decode payload t = elim (shape_for t) [
    | some k ↦ read_struct k (json.unmarshal k payload)
    | none ↦ err (unknown_message_type t)
  ]

  unfoldable pub encode_message : AnyMessage → MessageType → Option Bytes
  encode_message (k, m) t = elim (json.marshal k m) [
    | none ↦ none
    | some payload ↦ json.marshal_envelope (record { type = t; payload = payload })
  ]

  abbrev with_type :
      MessageType → Outcome DecodeError AnyMessage → Outcome DecodeError (MessageType × AnyMessage)
  with_type t (ok m) = ok (t, m)
  with_type t (err e) = err e

  unfoldable pub decode_envelope : Bytes → Outcome DecodeError (MessageType × AnyMessage)
  unfolding decode
  decode_envelope bytes = elim (json.unmarshal_envelope bytes) [
    | none ↦ err bad_json
    | some env ↦ with_type env.type (decode env.payload env.type)
  ]
