-- ===== src/Control/Wire/Received.antt =====
-- What each end reads of what the other has written.
use udp_measure.Prelude.{
  arith, ◌≤◌, ◌<◌, none, some, List, [], ◌++◌, append-nil, Bytes, length, true, ok, Option-cases,
  Outcome-cases, inl, inr, ◌≡◌, refl,
}
use udp_measure.Prelude.Int.{ℤ}
use udp_measure.Protocol.Types.{MessageType}
use udp_measure.Protocol.Envelope.{
  Shape, Struct, Json, AnyMessage, shape_for, decode, encode_message, decode_envelope,
}
use udp_measure.Protocol.Envelope.RoundTrip.{IsLawful, decode_envelope-encode_message}
use udp_measure.Control.Frame.{Arrival, max_message, read_message, write_message}
use udp_measure.Control.Frame.Whole.{read_message_whole}
use udp_measure.Control.Session.{
  Message, hello, prepare, start, send_complete, fetch_result, cancel, other_type, Fault, Response,
  ready_response, sent_response, result_response, invalid_request, internal_error,
}
use udp_measure.Control.Session.Loop.{Input, garbage, message}
use udp_measure.Control.Session.Dispatch.{message_of, message_of_decoded}
use udp_measure.Control.Wire.{
  segments, request, write_request, input_for, input_of, read_input, response_message,
  write_response, reply_of, reply_to, reply_in, read_reply,
}

frame-read :
    (bytes : Bytes) (rest : List Arrival)
    → 0 < length bytes
    → length bytes ≤ max_message
    → read_message (segments (write_message bytes) ++ rest) ≡ (rest, ok bytes)
unfolding write_message
frame-read bytes rest low high =
    rw (append-nil bytes) at ((read_message_whole bytes low high [] rest).1)

module _ (json : Json) where
  pub reply_in-decode_envelope :
      (bytes : Bytes) (t : MessageType) (a : AnyMessage json)
      → decode_envelope json bytes ≡ ok (t, a)
      → reply_in json bytes ≡ ok (reply_of json (t, a))
  unfolding decode_envelope reply_in
  reply_in-decode_envelope bytes t a h = elim (Option-cases (json.unmarshal_envelope bytes)) [
    | inl bad ↦ absurd (ground (arith, h, bad))
    | inr (env, good) ↦ elim (Outcome-cases (decode json env.payload env.type)) [
      | inl (e, bad) ↦ absurd (ground (arith, h, good, bad))
      | inr (n, found) ↦ ground (arith, h, good, found)
    ]
  ]

  input_of-decode_envelope :
      (bytes : Bytes) → (i : Input) × (input_of json (decode_envelope json bytes) ≡ some i)
  input_of-decode_envelope bytes = elim (Outcome-cases (decode_envelope json bytes)) [
    | inl (e, bad) ↦ rw bad (garbage, refl)
    | inr ((t, a), good) ↦
        let (m, found) = message_of_decoded json bytes t a good in
        rw (good, found) (message m, refl)
  ]

  -- Whatever arrives on a connection, the loop of a session has a case for it: no type assertion of
  -- `handleMessage` on what the client sends panics.
  pub read_input_total :
      (arrivals : List Arrival) → (i : Input) × ((read_input json arrivals).1 ≡ some i)
  unfolding read_input
  read_input_total arrivals = elim (Outcome-cases (read_message arrivals).1) [
    | inl (e, bad) ↦ rw (read_input, bad) (input_for e, refl)
    | inr (bytes, good) ↦ rw (read_input, good) (input_of-decode_envelope bytes)
  ]

module _ (json : Json) (lawful : IsLawful json) where
  -- A struct that can be sent: its texts are UTF-8, and it is encoded in 1 to 1048576 bytes.
  pub record IsCarried (t : MessageType) (a : AnyMessage json) : Type 0 where
    pub bytes : Bytes
    pub utf8 : lawful.IsUtf8 a.0 a.1
    pub encoded : encode_message json a t ≡ some bytes
    pub some_bytes : 0 < length bytes
    pub few : length bytes ≤ max_message

  -- The type and the struct of a message belong together.
  carried-decoded :
      (t : MessageType) (k : Shape) (m : Struct json.Float k) (c : IsCarried t (k, m))
      → shape_for t ≡ some k
      → decode_envelope json c.bytes ≡ ok (t, (k, m))
  carried-decoded t k m c own =
      decode_envelope-encode_message json lawful k m t c.bytes c.utf8 own c.encoded

  read_input-frame :
      (t : MessageType) (k : Shape) (m : Struct json.Float k) (x : Message) (c : IsCarried t (k, m))
      (rest : List Arrival)
      → shape_for t ≡ some k
      → message_of json t (k, m) ≡ some x
      → read_input json (segments (write_message c.bytes) ++ rest) ≡ (rest, some (message x))
  unfolding read_input
  read_input-frame t k m x c rest own dispatch =
      let read = frame-read c.bytes rest c.some_bytes c.few in
      let decoded = carried-decoded t k m c own in rw (read, decoded, dispatch) refl

  -- A message of the client that can be carried.
  abbrev pub IsSendable : Bytes → Message → Type 0
  IsSendable id m = elim (request json id m) [ none ↦ ⊥ | some (t, a) ↦ IsCarried t a ]

  module _ (id : Bytes) where
    write_request-carried :
        (m : Message) (t : MessageType) (a : AnyMessage json) (c : IsCarried t a)
        → request json id m ≡ some (t, a)
        → write_request json id m ≡ (write_message c.bytes, true)
    unfolding write_request write_message
    write_request-carried m t a c e = rw (write_request, e, c.encoded) refl

    taken :
        (m : Message) (t : MessageType) (k : Shape) (a : Struct json.Float k)
        (c : IsCarried t (k, a)) (rest : List Arrival)
        → request json id m ≡ some (t, (k, a))
        → shape_for t ≡ some k
        → message_of json t (k, a) ≡ some m
        → ((write_request json id m).1 ≡ true)
          × (read_input json (segments (write_request json id m).0 ++ rest)
              ≡ (rest, some (message m)))
    taken m t k a c rest e own dispatch =
        rw (write_request-carried m t (k, a) c e)
          (refl, read_input-frame t k a m c rest own dispatch)

    -- What `writeMsg` writes of a message of the dialogue is read by the loop of the session as this
    -- message, and what follows it is left: if the message can be encoded, in 1 to 1048576 bytes,
    -- holds UTF-8, and its two pieces arrive in one segment each.
    pub read_input-write_request :
        (m : Message) (rest : List Arrival)
        → IsSendable id m
        → ((write_request json id m).1 ≡ true)
          × (read_input json (segments (write_request json id m).0 ++ rest)
              ≡ (rest, some (message m)))
    unfolding message_of shape_for
    read_input-write_request (hello v) rest c = taken (hello v) _ _ _ c rest refl refl refl
    read_input-write_request (prepare p) rest c = taken (prepare p) _ _ _ c rest refl refl refl
    read_input-write_request start rest c = taken start _ _ _ c rest refl refl refl
    read_input-write_request send_complete rest c = taken send_complete _ _ _ c rest refl refl refl
    read_input-write_request fetch_result rest c = taken fetch_result _ _ _ c rest refl refl refl
    read_input-write_request cancel rest c = absurd c
    read_input-write_request (other_type t) rest c = absurd c

  read_reply-frame :
      (t : MessageType) (k : Shape) (a : Struct json.Float k) (c : IsCarried t (k, a))
      (rest : List Arrival)
      → shape_for t ≡ some k
      → read_reply json (segments (write_message c.bytes) ++ rest)
        ≡ (rest, ok (reply_of json (t, (k, a))))
  unfolding read_reply
  read_reply-frame t k a c rest own =
      let read = frame-read c.bytes rest c.some_bytes c.few in
      let inside = reply_in-decode_envelope json c.bytes t (k, a) (carried-decoded t k a c own) in
      rw (read, inside) refl

  module _ (loss_rate : ℤ → ℤ → json.Float) (library : Fault → Bytes) (id : Bytes) where
    -- A response that can be carried.
    abbrev pub IsAnswerable : Response → Type 0
    IsAnswerable r =
        IsCarried (response_message json loss_rate library id r).0
          (response_message json loss_rate library id r).1

    response-shape :
        (r : Response)
        → let (t, a) = response_message json loss_rate library id r in
          (shape_for t ≡ some a.0) × (reply_of json (t, a) ≡ reply_to r)
    unfolding shape_for
    response-shape (ready_response port) = (refl, refl)
    response-shape sent_response = (refl, refl)
    response-shape (result_response sent received) = (refl, refl)
    response-shape (invalid_request reason) = (refl, refl)
    response-shape (internal_error fault) = (refl, refl)

    -- What `writeMessage` writes of a response is read by `recvResponse` as this response, of which
    -- the client knows only the type if it reports an error, and what follows it is left: if the
    -- response can be encoded, in 1 to 1048576 bytes, holds UTF-8, and its two pieces arrive in one
    -- segment each.
    pub read_reply-write_response :
        (r : Response) (rest : List Arrival)
        → IsAnswerable r
        → ((write_response json loss_rate library id r).1 ≡ true)
          × (read_reply json (segments (write_response json loss_rate library id r).0 ++ rest)
              ≡ (rest, ok (reply_to r)))
    unfolding write_response write_message
    read_reply-write_response r rest c =
        let (own, known) = response-shape r in
        rw c.encoded (refl, rw⁻¹ known (read_reply-frame _ _ _ c rest own))
