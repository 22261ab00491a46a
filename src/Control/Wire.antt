-- ===== src/Control/Wire.antt =====
-- client.go and session.go: what the two ends write to the connection and read from it. The client's
-- messages and the session's responses are encoded by `EncodeMessage` and framed; the session's loop
-- and `recvResponse` read a frame and decode it. What arrives of a piece is one segment.
pub mod Received
pub mod Dialogue
use mathlib.Core.Option
use udp_measure.Prelude.{
  Option, none, some, List, [], ◌∷◌, ◌++◌, Bytes, codes, Bool, true, false, Outcome, ok, err,
}
use udp_measure.Prelude.Int.{ℤ, pos}
use udp_measure.Protocol.Types.{
  MessageType, err_invalid_request, err_internal_error, protocol_version, msg_hello, msg_prepare,
  msg_start, msg_send_complete, msg_fetch_result, msg_ready, msg_result, msg_invalid_request,
  msg_internal_error, state_string,
}
use udp_measure.Protocol.StateMachine.{error_text}
use udp_measure.Protocol.Envelope
use udp_measure.Protocol.Envelope.{
  BaseMessage, hello_shape, prepare_shape, start_shape, send_complete_shape, fetch_result_shape,
  ready_shape, result_shape, busy_shape, invalid_request_shape, internal_error_shape, DecodeError,
  Json, AnyMessage, decode, encode_message, decode_envelope,
}
use udp_measure.Control.Frame.{
  Arrival, segment, eof, timed_out, FrameError, read_failed, read_message, write_message,
}
use udp_measure.Control.Session.{
  Prepare, Message, hello, prepare, start, send_complete, fetch_result, Reason, decode_failed,
  version_mismatch, family_mismatch, unknown_type, unexpected_prepare, unexpected_start,
  unexpected_send_complete, unexpected_fetch_result, Fault, refused, Response, ready_response,
  sent_response, result_response, invalid_request, internal_error,
}
use udp_measure.Control.Session.Loop.{Input, garbage, quiet, message, broken}
use udp_measure.Control.Session.Dispatch.{message_of}
use udp_measure.Control.Client.Calls.{
  Reply, response, busy_reply, other_reply, RecvError, no_message, bad_envelope, bad_payload,
}

-- The fields that both ends fill in.
abbrev pub base_of : Bytes → MessageType → BaseMessage
base_of session_id type = record {
  version = protocol_version;
  type = type;
  session_id = session_id;
  test_id = [];
  sequence = pos 0;
  timestamp = pos 0;
}

-- The struct of a prepare message, with the port of the client's receiver.
abbrev pub prepare_struct : Bytes → Prepare → Envelope.Prepare
prepare_struct id m = record {
  base = base_of id msg_prepare;
  direction = m.direction;
  family = m.family;
  udp_port = m.udp_port;
  payload_size = m.payload_size;
  packet_count = m.packet_count;
  interval_ms = m.interval_ms;
  client_receive_port = m.client_receive_port;
}

-- The texts that `sendInvalidRequest` is given.
abbrev pub reason_text : Reason → Bytes
unfolding state_string
reason_text decode_failed = codes "failed to decode message"
reason_text version_mismatch = codes "protocol version mismatch"
reason_text family_mismatch =
    codes "IPv6 test requires IPv6 TCP connection; cannot use IPv4 address for IPv6 target"
reason_text unknown_type = codes "unknown message type"
reason_text (unexpected_prepare s) = codes "unexpected prepare in state " ++ state_string s
reason_text (unexpected_start s) = codes "unexpected start in state " ++ state_string s
reason_text (unexpected_send_complete s) =
    codes "unexpected send_complete in state " ++ state_string s
reason_text (unexpected_fetch_result s) =
    codes "unexpected fetch_result in state " ++ state_string s

-- `err.Error()` of what `sendError` is given; the texts of the library's errors are a parameter.
abbrev pub fault_text : (Fault → Bytes) → Fault → Bytes
unfolding error_text
fault_text library (refused e) = error_text e
fault_text library fault = library fault

-- `conn.Write` for each piece, on a connection that takes them, and what the other end gets of it.
abbrev pub segments : List Bytes → List Arrival
segments [] = []
segments (s ∷ ss) = segment s ∷ segments ss

-- What `writeMsg` and `writeMessage` return: an error if the message cannot be encoded.
abbrev pub written : Option Bytes → List Bytes × Bool
written none = ([], false)
written (some bytes) = (write_message bytes, true)

-- The error of a read as the loop of `handleMessages` tells it apart.
abbrev pub input_for : FrameError → Input
input_for (read_failed eof) = quiet
input_for (read_failed timed_out) = quiet
input_for _ = broken

-- What the client knows of a response: of an error response, its type.
abbrev pub reply_to : Response → Reply
reply_to (invalid_request _) = other_reply msg_invalid_request
reply_to (internal_error _) = other_reply msg_internal_error
reply_to r = response r

module _ (json : Json) where
  -- The messages that `RunUplink` and `RunDownlink` write; they write no other.
  abbrev pub request : Bytes → Message → Option (MessageType × AnyMessage json)
  request id (hello client_version) =
      let m : Envelope.Hello = record {
        base = base_of id msg_hello;
        client_version = client_version;
        capability = [];
      } in
      some (msg_hello, (hello_shape, m))
  request id (prepare m) = some (msg_prepare, (prepare_shape, prepare_struct id m))
  request id start = some (msg_start, (start_shape, record { base = base_of id msg_start }))
  request id send_complete =
      some
        (msg_send_complete, (send_complete_shape, record { base = base_of id msg_send_complete }))
  request id fetch_result =
      some (msg_fetch_result, (fetch_result_shape, record { base = base_of id msg_fetch_result }))
  request id _ = none

  -- `writeMsg`
  unfoldable pub write_request : Bytes → Message → List Bytes × Bool
  write_request id m = elim (request id m) [
    | none ↦ ([], false)
    | some (t, a) ↦ written (encode_message json a t)
  ]

  -- The head of a round of `handleMessages`; `none` where the dispatch would panic.
  abbrev pub input_of : Outcome DecodeError (MessageType × AnyMessage json) → Option Input
  input_of (err _) = some garbage
  input_of (ok (t, a)) = Option.map message (message_of json t a)

  unfoldable pub read_input : List Arrival → List Arrival × Option Input
  read_input arrivals =
      let (rest, r) = read_message arrivals in
      (
        rest,
        elim r [ ok bytes ↦ input_of (decode_envelope json bytes) | err e ↦ some (input_for e) ],
      )

  -- The messages that a session writes. The loss rate is computed in floating point from the two
  -- counts.
  module _ (loss_rate : ℤ → ℤ → json.Float) (library : Fault → Bytes) (id : Bytes) where
    abbrev pub response_message : Response → MessageType × AnyMessage json
    response_message (ready_response port) =
        let m : Envelope.Ready = record { base = base_of id msg_ready; server_port = port } in
        (msg_ready, (ready_shape, m))
    response_message sent_response =
        (msg_send_complete, (send_complete_shape, record { base = base_of id msg_send_complete }))
    response_message (result_response sent received) =
        let m : Envelope.Result json.Float = record {
          base = base_of id msg_result;
          sent = sent;
          received = received;
          loss_rate = loss_rate sent received;
          critical_size = pos 0;
        } in
        (msg_result, (result_shape, m))
    response_message (invalid_request reason) =
        let m : Envelope.InvalidRequest = record {
          base = base_of id msg_invalid_request;
          code = err_invalid_request;
          message = reason_text reason;
        } in
        (msg_invalid_request, (invalid_request_shape, m))
    response_message (internal_error fault) =
        let m : Envelope.InternalError = record {
          base = base_of id msg_internal_error;
          code = err_internal_error;
          message = fault_text library fault;
        } in
        (msg_internal_error, (internal_error_shape, m))

    unfoldable pub write_response : Response → List Bytes × Bool
    write_response r = let (t, a) = response_message r in written (encode_message json a t)

  -- What the client takes a decoded message for.
  abbrev pub reply_of : MessageType × AnyMessage json → Reply
  reply_of (_, (ready_shape, m)) = response (ready_response m.server_port)
  reply_of (_, (send_complete_shape, m)) = response sent_response
  reply_of (_, (result_shape, m)) = response (result_response m.sent m.received)
  reply_of (_, (busy_shape, m)) = busy_reply
  reply_of (t, _) = other_reply t

  -- `recvResponse`, behind the read: the envelope, and what `Decode` makes of its payload.
  unfoldable pub reply_in : Bytes → Outcome RecvError Reply
  unfolding decode
  reply_in bytes = elim (json.unmarshal_envelope bytes) [
    | none ↦ err bad_envelope
    | some env ↦ elim (decode json env.payload env.type) [
      | ok a ↦ ok (reply_of (env.type, a))
      | err e ↦ err bad_payload
    ]
  ]

  unfoldable pub read_reply : List Arrival → List Arrival × Outcome RecvError Reply
  unfolding reply_in
  read_reply arrivals =
      let (rest, r) = read_message arrivals in
      (rest, elim r [ ok bytes ↦ reply_in bytes | err e ↦ err no_message ])
