-- ===== src/Protocol/Envelope/RoundTrip.antt =====
-- `EncodeMessage` and `DecodeEnvelope` against each other, and what a decoded message is.
use udp_measure.Prelude.{
  arith, some, Option-cases, Outcome-cases, sym, Bytes, ok, inl, inr, ◌≡◌, refl, ◌∙◌, ap,
}
use udp_measure.Protocol.Types.{MessageType}
use udp_measure.Protocol.Envelope.{
  Shape, Struct, Json, AnyMessage, shape_for, decode, encode_message, decode_envelope,
}

module _ (json : Json) where
  -- What the program relies on: a struct whose texts are UTF-8 is read back as it was, and so is the
  -- envelope of a payload that was marshalled.
  pub record IsLawful : Type 1 where
    pub IsUtf8 : (k : Shape) → Struct json.Float k → Type 0
    pub unmarshal-marshal :
        (k : Shape) (m : Struct json.Float k) (b : Bytes)
        → IsUtf8 k m
        → json.marshal k m ≡ some b
        → json.unmarshal k b ≡ some m
    pub unmarshal_envelope-marshal :
        (k : Shape) (m : Struct json.Float k) (t : MessageType) (b e : Bytes)
        → json.marshal k m ≡ some b
        → json.marshal_envelope (record { type = t; payload = b }) ≡ some e
        → json.unmarshal_envelope e ≡ some (record { type = t; payload = b })

  -- A message that is encoded with a type whose struct is its own is decoded to that type and that
  -- message, if its texts are UTF-8.
  pub decode_envelope-encode_message :
      (lawful : IsLawful) (k : Shape) (m : Struct json.Float k) (t : MessageType) (e : Bytes)
      → lawful.IsUtf8 k m
      → shape_for t ≡ some k
      → encode_message json (k, m) t ≡ some e
      → decode_envelope json e ≡ ok (t, (k, m))
  unfolding encode_message decode_envelope decode
  decode_envelope-encode_message lawful k m t e utf8 own h =
      elim (Option-cases (json.marshal k m)) [
        | inl f ↦ absurd (ground arith)
        | inr (b, f) ↦
            let sent : json.marshal_envelope (record { type = t; payload = b }) ≡ some e =
              rw⁻¹ h (rw (encode_message, f) refl) in
            rw
              (
                decode_envelope,
                lawful.unmarshal_envelope-marshal k m t b e f sent,
                decode,
                own,
                lawful.unmarshal-marshal k m b utf8 f,
              )
              refl
      ]

  read_struct-shape :
      (payload : Bytes) (t : MessageType) (k : Shape) (m : AnyMessage json)
      → shape_for t ≡ some k
      → decode json payload t ≡ ok m
      → shape_for t ≡ some m.0
  unfolding decode
  read_struct-shape payload t k m own h = elim (Option-cases (json.unmarshal k payload)) [
    | inl bad ↦ absurd (ground arith)
    | inr (s, good) ↦ let same : m ≡ (k, s) = ground arith in own ∙ ap (λ n. some n.0) (sym same)
  ]

  decode-shape :
      (payload : Bytes) (t : MessageType) (m : AnyMessage json)
      → decode json payload t ≡ ok m
      → shape_for t ≡ some m.0
  unfolding decode
  decode-shape payload t m h = elim (Option-cases (shape_for t)) [
    | inl unknown ↦ absurd (ground arith)
    | inr (k, own) ↦ read_struct-shape payload t k m own h
  ]

  -- A message that is decoded has the struct of its type: no type assertion on it panics.
  pub decode_envelope-shape :
      (e : Bytes) (t : MessageType) (m : AnyMessage json)
      → decode_envelope json e ≡ ok (t, m)
      → shape_for t ≡ some m.0
  unfolding decode_envelope
  decode_envelope-shape e t m h = elim (Option-cases (json.unmarshal_envelope e)) [
    | inl bad ↦ absurd (ground arith)
    | inr (env, good) ↦ elim (Outcome-cases (decode json env.payload env.type)) [
      | inl (f, bad) ↦ absurd (ground arith)
      | inr (n, found) ↦
          let kind : t ≡ env.type = ground arith in
          let same : m ≡ n = ground arith in
          rw (kind, same) (decode-shape env.payload env.type n found)
    ]
  ]
