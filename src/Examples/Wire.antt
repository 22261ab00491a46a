-- ===== src/Examples/Wire.antt =====
-- What the two ends read of each other, with the codec in place of JSON.
use udp_measure.Prelude.{ℕ, arith, some, List, [], ◌∷◌, ◌++◌, Bytes, codes, true, ok, ◌≡◌, refl}
use udp_measure.Prelude.Int.{ℤ, pos}
use udp_measure.Protocol.Types.{
  MessageType, protocol_version, msg_hello, msg_prepare, msg_start, msg_send_complete,
  msg_fetch_result, msg_ready, msg_result, completed,
}
use udp_measure.Protocol.Envelope.{encode_message}
use udp_measure.Control.Frame.{segment, failure, eof}
use udp_measure.Control.Session.{
  Session, hello, prepare, start, send_complete, fetch_result, Fault, ready_response, sent_response,
  result_response, new_session,
}
use udp_measure.Control.Session.Loop.{Input, message, run, Reach}
use udp_measure.Control.Client.{prepare_for, run_uplink}
use udp_measure.Control.Client.Calls.{response}
use udp_measure.Control.Client.Against.Uplink.{uplink_result}
use udp_measure.Control.Wire.{
  base_of, prepare_struct, segments, write_request, read_input, write_response, read_reply,
}
use udp_measure.Control.Wire.Received.{
  IsSendable, IsAnswerable, read_input_total, read_input-write_request, read_reply-write_response,
}
use udp_measure.Control.Wire.Dialogue.{linked, over_wire, uplink_over_wire}
use udp_measure.Examples.Codec.{
  small, small-IsLawful, write_start, with_base, put_int, put_all, prepare_numbers,
}
use udp_measure.Examples.Client.{peer, test, test_down}

abbrev pub client : Bytes
client = codes "client-7"

abbrev pub server : Bytes
server = codes "session-8"

-- A client without a codec for fractions, and the texts of the library's errors.
abbrev pub no_rate : ℤ → ℤ → small.Float
no_rate _ _ = tt

abbrev pub no_text : Fault → Bytes
no_text _ = []

-- A message in its envelope.
abbrev packet : Bytes → MessageType → List ℤ → Bytes
packet id t numbers = put_int t (put_all numbers (write_start (with_base (base_of id t))))

pub hello_carried : IsSendable small small-IsLawful client (hello protocol_version)
unfolding encode_message write_start small-IsLawful
hello_carried = record {
  bytes = packet client msg_hello (protocol_version ∷ []);
  utf8 = (refl, refl);
  encoded = refl;
  some_bytes = omega arith;
  few = omega arith;
}

pub prepare_carried : IsSendable small small-IsLawful client (prepare (prepare_for test (pos 0)))
unfolding encode_message write_start small-IsLawful
prepare_carried = record {
  bytes =
      packet client msg_prepare
        (prepare_numbers (prepare_struct client (prepare_for test (pos 0))));
  utf8 = refl;
  encoded = refl;
  some_bytes = omega arith;
  few = omega arith;
}

pub prepare_down_carried :
    IsSendable small small-IsLawful client (prepare (prepare_for test_down (pos 5000)))
unfolding encode_message write_start small-IsLawful
prepare_down_carried = record {
  bytes =
      packet client msg_prepare
        (prepare_numbers (prepare_struct client (prepare_for test_down (pos 5000))));
  utf8 = refl;
  encoded = refl;
  some_bytes = omega arith;
  few = omega arith;
}

pub start_carried : IsSendable small small-IsLawful client start
unfolding encode_message write_start small-IsLawful
start_carried = record {
  bytes = packet client msg_start ([]);
  utf8 = refl;
  encoded = refl;
  some_bytes = omega arith;
  few = omega arith;
}

pub complete_carried : IsSendable small small-IsLawful client send_complete
unfolding encode_message write_start small-IsLawful
complete_carried = record {
  bytes = packet client msg_send_complete ([]);
  utf8 = refl;
  encoded = refl;
  some_bytes = omega arith;
  few = omega arith;
}

pub fetch_carried : IsSendable small small-IsLawful client fetch_result
unfolding encode_message write_start small-IsLawful
fetch_carried = record {
  bytes = packet client msg_fetch_result ([]);
  utf8 = refl;
  encoded = refl;
  some_bytes = omega arith;
  few = omega arith;
}

pub ready_carried :
    IsAnswerable small small-IsLawful no_rate no_text server (ready_response (pos 9000))
unfolding encode_message write_start small-IsLawful
ready_carried = record {
  bytes = packet server msg_ready (pos 9000 ∷ []);
  utf8 = refl;
  encoded = refl;
  some_bytes = omega arith;
  few = omega arith;
}

pub sent_carried : IsAnswerable small small-IsLawful no_rate no_text server sent_response
unfolding encode_message write_start small-IsLawful
sent_carried = record {
  bytes = packet server msg_send_complete ([]);
  utf8 = refl;
  encoded = refl;
  some_bytes = omega arith;
  few = omega arith;
}

pub result_carried :
    (received : ℕ)
    → IsAnswerable small small-IsLawful no_rate no_text server
        (result_response (pos 10) (pos received))
unfolding encode_message write_start small-IsLawful
result_carried received = record {
  bytes = packet server msg_result (pos 10 ∷ pos received ∷ pos 0 ∷ []);
  utf8 = refl;
  encoded = refl;
  some_bytes = omega arith;
  few = omega arith;
}

read_input_total_example :
    (i : Input) × ((read_input small (segment (1 ∷ 2 ∷ []) ∷ failure eof ∷ [])).1 ≡ some i)
read_input_total_example = read_input_total small (segment (1 ∷ 2 ∷ []) ∷ failure eof ∷ [])

read_input-write_request_example :
    ((write_request small client (prepare (prepare_for test (pos 0)))).1 ≡ true)
    × (read_input small (
          segments (write_request small client (prepare (prepare_for test (pos 0)))).0
          ++ (segment (0 ∷ []) ∷ []))
        ≡ (segment (0 ∷ []) ∷ [], some (message (prepare (prepare_for test (pos 0))))))
read_input-write_request_example =
    read_input-write_request small small-IsLawful client (prepare (prepare_for test (pos 0)))
      (segment (0 ∷ []) ∷ []) prepare_carried

read_reply-write_response_example :
    ((write_response small no_rate no_text server (result_response (pos 10) (pos 7))).1 ≡ true)
    × (read_reply small (
          segments
            (write_response small no_rate no_text server (result_response (pos 10) (pos 7))).0
          ++ [])
        ≡ ([], ok (response (result_response (pos 10) (pos 7)))))
read_reply-write_response_example =
    read_reply-write_response small small-IsLawful no_rate no_text server
      (result_response (pos 10) (pos 7)) [] (result_carried 7)

uplink_over_wire_example :
    (s : Session) × Reach s
    × (s.state ≡ completed)
    × (run_uplink
          (over_wire small client server no_rate no_text peer 7 0 (pos 5000))
          test
          (linked 0 (run true new_session))
        ≡ (linked 2 s, ok (uplink_result test 7)))
uplink_over_wire_example =
    uplink_over_wire small client server no_rate no_text peer 7 0 (pos 5000) small-IsLawful test
      refl refl
      (hello_carried, (prepare_carried, (start_carried, (complete_carried, (fetch_carried, tt)))))
      (ready_carried, (result_carried 7, tt))
