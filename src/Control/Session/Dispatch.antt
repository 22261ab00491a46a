-- ===== src/Control/Session/Dispatch.antt =====
-- session.go: how `handleMessage` takes a decoded message. Its type assertions panic on a struct of
-- another type, which is `none` here.
use mathlib.Core.Path.{subst}
use udp_measure.Prelude.{
  arith, Option, none, some, Bytes, ok, Bool-cases, inl, inr, ◌≡◌, refl, if◌then◌else◌,
}
use udp_measure.Prelude.Int.{◌==ℤ◌}
use udp_measure.Protocol.Types.{
  MessageType, msg_hello, msg_prepare, msg_start, msg_send_complete, msg_fetch_result, msg_cancel,
}
use udp_measure.Protocol.Envelope
use udp_measure.Protocol.Envelope.{
  Shape, hello_shape, prepare_shape, Json, AnyMessage, shape_for, decode_envelope,
}
use udp_measure.Protocol.Envelope.RoundTrip.{decode_envelope-shape}
use udp_measure.Control.Session.{
  Message, hello, prepare, start, send_complete, fetch_result, cancel, other_type, Prepare,
}

-- The fields of a prepare message that `handlePrepare` reads.
abbrev request_of : Envelope.Prepare → Prepare
request_of m = record {
  direction = m.direction;
  family = m.family;
  udp_port = m.udp_port;
  payload_size = m.payload_size;
  packet_count = m.packet_count;
  interval_ms = m.interval_ms;
  client_receive_port = m.client_receive_port;
}

-- The cases of the switch that read nothing from the message, and its default.
abbrev plain_message : MessageType → Message
plain_message t =
    if t ==ℤ msg_start
    then start
    else if t ==ℤ msg_send_complete
    then send_complete
    else if t ==ℤ msg_fetch_result
    then fetch_result
    else if t ==ℤ msg_cancel
    then cancel
    else other_type t

module _ (json : Json) where
  -- `msg.(protocol.Hello)` and `msg.(protocol.Prepare)`, with what is read of them.
  abbrev as_hello : AnyMessage json → Option Message
  as_hello (hello_shape, m) = some (hello m.client_version)
  as_hello (_, m) = none

  abbrev as_prepare : AnyMessage json → Option Message
  as_prepare (prepare_shape, m) = some (prepare (request_of m))
  as_prepare (_, m) = none

  -- The switch of `handleMessage`.
  unfoldable pub message_of : MessageType → AnyMessage json → Option Message
  message_of t m =
      if t ==ℤ msg_hello
      then as_hello m
      else if t ==ℤ msg_prepare
      then as_prepare m
      else some (plain_message t)

  as_hello-hello_shape :
      (m : AnyMessage json) → hello_shape ≡ m.0 → (x : Message) × (as_hello m ≡ some x)
  as_hello-hello_shape (k, m) e =
      subst (λ j. (n : Envelope.Struct json.Float j) → (x : Message) × (as_hello (j, n) ≡ some x)) e
        (λ n. (hello n.client_version, refl)) m

  as_prepare-prepare_shape :
      (m : AnyMessage json) → prepare_shape ≡ m.0 → (x : Message) × (as_prepare m ≡ some x)
  as_prepare-prepare_shape (k, m) e =
      subst (λ j. (n : Envelope.Struct json.Float j) → (x : Message) × (as_prepare (j, n) ≡ some x))
        e (λ n. (prepare (request_of n), refl)) m

  -- `handleMessage` has a case for every message that `DecodeEnvelope` returns, whatever bytes the
  -- client has sent: no type assertion panics.
  pub message_of_decoded :
      (bytes : Bytes) (t : MessageType) (m : AnyMessage json)
      → decode_envelope json bytes ≡ ok (t, m)
      → (x : Message) × (message_of t m ≡ some x)
  unfolding message_of shape_for
  message_of_decoded bytes t m h =
      let own = decode_envelope-shape json bytes t m h in
      elim (Bool-cases (t ==ℤ msg_hello)) [
        | inl h ↦ rw h (as_hello-hello_shape m (ground (arith, own)))
        | inr n ↦ elim (Bool-cases (t ==ℤ msg_prepare)) [
          | inl p ↦ rw (n, p) (as_prepare-prepare_shape m (ground (arith, own)))
          | inr q ↦ rw (n, q) (plain_message t, refl)
        ]
      ]
