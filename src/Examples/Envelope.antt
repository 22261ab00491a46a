-- ===== src/Examples/Envelope.antt =====
-- The envelope at a concrete input, with a small codec in place of JSON: it knows `Start` and `Busy`,
-- writes a number as its sign and its size, and has no place for a test.
use udp_measure.Examples.Codec.{small, small-IsLawful, small_unmarshal, write_start, read_start}
use udp_measure.Prelude.{arith, some, [], ◌∷◌, Bytes, codes, ok, ◌≡◌, ◌↔◌, inl, refl, ◌++◌}
use udp_measure.Prelude.Int.{pos, negsuc}
use udp_measure.Protocol.Types.{msg_start, protocol_version}
use udp_measure.Protocol.Envelope.{
  Busy, Start, start_shape, busy_shape, shape_for, decode, encode_message, decode_envelope,
}
use udp_measure.Protocol.Envelope.OwnType.{own_type, decoded_as_own}
use udp_measure.Control.Client.Calls.{busy_reply}
use udp_measure.Control.Wire.{read_reply}
use udp_measure.Protocol.Types.{msg_busy}
use udp_measure.Control.Frame.{segment, read_message}
use udp_measure.Control.Server.Answers.{busy_message, send_busy_response, send_busy_response-read}

abbrev hello_all : Start
hello_all = record {
  base = record {
    version = pos 1;
    type = msg_start;
    session_id = codes "s";
    test_id = [];
    sequence = negsuc 4;
    timestamp = pos 99;
  };
}

abbrev on_wire : Bytes
on_wire = 0 ∷ 2 ∷ 0 ∷ 1 ∷ 0 ∷ 2 ∷ 1 ∷ 4 ∷ 0 ∷ 99 ∷ codes "s"

decoded_as_own_example :
    (decode_envelope small on_wire ≡ ok (msg_start, (start_shape, hello_all)))
    ↔ (msg_start ≡ own_type start_shape)
unfolding encode_message write_start small-IsLawful
decoded_as_own_example =
    decoded_as_own small small-IsLawful start_shape hello_all msg_start on_wire refl refl

read_back : decode_envelope small on_wire ≡ ok (msg_start, (start_shape, hello_all))
unfolding decode_envelope decode shape_for read_start small_unmarshal
read_back = refl

busy_bytes :
    encode_message small (busy_shape, busy_message (some (codes "s7"))) msg_busy
    ≡ some (0 ∷ 8 ∷ 0 ∷ 1 ∷ 0 ∷ 8 ∷ 0 ∷ 0 ∷ 0 ∷ 0 ∷ codes "s7")
unfolding encode_message write_start
busy_bytes = refl

send_busy_response-read_example :
    (len payload : Bytes) × (m : Busy) × (send_busy_response small (some (codes "s7"))
      ≡ len ∷ payload ∷ [])
    × (read_message (segment len ∷ segment (payload ++ []) ∷ []) ≡ ([], ok payload))
    × (decode_envelope small payload ≡ ok (msg_busy, (busy_shape, m)))
    × (m.current_session ≡ codes "s7")
    × (m.base.session_id ≡ codes "s7")
    × (m.base.type ≡ msg_busy)
    × (m.base.version ≡ protocol_version)
    × (read_reply small (segment len ∷ segment (payload ++ []) ∷ []) ≡ ([], ok busy_reply))
unfolding small-IsLawful
send_busy_response-read_example =
    send_busy_response-read small small-IsLawful (some (codes "s7")) (codes "s7")
      (0 ∷ 8 ∷ 0 ∷ 1 ∷ 0 ∷ 8 ∷ 0 ∷ 0 ∷ 0 ∷ 0 ∷ codes "s7") [] [] (inl refl) (refl, refl) busy_bytes
      (omega arith) (omega arith)
