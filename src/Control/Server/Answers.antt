-- ===== src/Control/Server/Answers.antt =====
-- server.go: the answer to a connection that gets no session, and how a client reads it.
use udp_measure.Prelude.{
  ◌≤◌, ◌<◌, Option, none, some, List, [], ◌∷◌, ◌++◌, Bytes, length, arith, ◌⊎◌, ok, ◌≡◌, refl,
}
use udp_measure.Prelude.Int.{pos}
use udp_measure.Protocol.Types.{ErrorCode, protocol_version, msg_busy, msg_internal_error}
use udp_measure.Protocol.Envelope.{
  Busy, InternalError, busy_shape, internal_error_shape, shape_for, Json, encode_message,
  decode_envelope,
}
use udp_measure.Protocol.Envelope.RoundTrip.{IsLawful, decode_envelope-encode_message}
use udp_measure.Control.Frame.{
  Arrival, leftover, max_message, length_bytes, segment, read_message, write_message,
}
use udp_measure.Control.Client.Calls.{busy_reply}
use udp_measure.Control.Wire.{read_reply}
use udp_measure.Control.Wire.Received.{reply_in-decode_envelope}
use udp_measure.Control.Frame.Whole.{read_message_whole}

-- The message of `sendBusyResponse`, with the id of the current session or the empty text.
abbrev pub busy_message : Option Bytes → Busy
busy_message current =
    let session_id : Bytes = elim current [ none ↦ [] | some id ↦ id ] in
    record {
      base = record {
        version = protocol_version;
        type = msg_busy;
        session_id = session_id;
        test_id = [];
        sequence = pos 0;
        timestamp = pos 0;
      };
      current_session = session_id;
    }

-- The message of `sendErrorResponse`.
abbrev pub error_message : ErrorCode → Bytes → InternalError
error_message code text = record {
  base = record {
    version = protocol_version;
    type = msg_internal_error;
    session_id = [];
    test_id = [];
    sequence = pos 0;
    timestamp = pos 0;
  };
  code = code;
  message = text;
}

busy_message-names :
    (current : Option Bytes) (id : Bytes)
    → (current ≡ some id) ⊎ ((current ≡ none) × (id ≡ []))
    → (busy_message current).current_session ≡ id
busy_message-names none id named = ground (arith, named)
busy_message-names (some i) id named = ground (arith, named)

module _ (json : Json) where
  -- What the two functions write: nothing, if the message cannot be encoded.
  abbrev framed : Option Bytes → List Bytes
  framed none = []
  framed (some bytes) = write_message bytes

  unfoldable pub send_busy_response : Option Bytes → List Bytes
  send_busy_response current =
      framed (encode_message json (busy_shape, busy_message current) msg_busy)

  unfoldable pub send_error_response : ErrorCode → Bytes → List Bytes
  send_error_response code text =
      framed
        (encode_message json (internal_error_shape, error_message code text) msg_internal_error)

  -- A connection that is refused because a session is active is sent two pieces; a client to which
  -- they arrive in two segments reads them as one message, whatever follows, decodes it to a BUSY
  -- message of the protocol's version, which names the session that is active, or none, in both its
  -- fields, and so `recvResponse` tells it that the server is busy: if the message can be encoded, in
  -- 1 to 1048576 bytes, and the id is UTF-8.
  pub send_busy_response-read :
      (lawful : IsLawful json) (current : Option Bytes) (id bytes more : Bytes)
      (rest : List Arrival)
      → (current ≡ some id) ⊎ ((current ≡ none) × (id ≡ []))
      → lawful.IsUtf8 busy_shape (busy_message current)
      → encode_message json (busy_shape, busy_message current) msg_busy ≡ some bytes
      → 0 < length bytes
      → length bytes ≤ max_message
      → (len payload : Bytes) × (m : Busy) × (send_busy_response current ≡ len ∷ payload ∷ [])
        × (read_message (segment len ∷ segment (payload ++ more) ∷ rest)
            ≡ (leftover more rest, ok payload))
        × (decode_envelope json payload ≡ ok (msg_busy, (busy_shape, m)))
        × (m.current_session ≡ id)
        × (m.base.session_id ≡ id)
        × (m.base.type ≡ msg_busy)
        × (m.base.version ≡ protocol_version)
        × (read_reply json (segment len ∷ segment (payload ++ more) ∷ rest)
            ≡ (leftover more rest, ok busy_reply))
  unfolding send_busy_response write_message shape_for read_reply
  send_busy_response-read lawful current id bytes more rest named utf8 e low high =
      let read = (read_message_whole bytes low high more rest).1 in
      let decoded =
        decode_envelope-encode_message json lawful busy_shape (busy_message current) msg_busy bytes
          utf8 refl e in
      let inside =
        reply_in-decode_envelope json bytes msg_busy (busy_shape, busy_message current) decoded in
      (
        length_bytes bytes,
        bytes,
        busy_message current,
        rw e refl,
        read,
        decoded,
        busy_message-names current id named,
        busy_message-names current id named,
        refl,
        refl,
        rw (read, inside) refl,
      )
