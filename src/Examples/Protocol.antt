-- ===== src/Examples/Protocol.antt =====
-- internal/protocol at concrete inputs.
use udp_measure.Prelude.{
  ◌≤◌, ◌<◌, arith, none, some, [], ◌∷◌, ◌++◌, Bytes, codes, ok, ◌≡◌, ◌⊎◌, refl,
}
use udp_measure.Prelude.Int.{negsuc}
use udp_measure.Protocol.Types.{
  state_string, idle, preparing, ready, running, collecting, completed, cancelled,
}
use udp_measure.Protocol.StateMachine.{transition, error_text}
use udp_measure.Protocol.StateMachine.Graph.{Walk, stop, move}
use udp_measure.Protocol.Header.{
  ProbeHeader, zero_header, probe_header_size, marshal_binary, unmarshal_binary, buffer_too_short,
}
use udp_measure.Protocol.Header.Layout.{unmarshal_binary_cases}
use udp_measure.Protocol.Header.RoundTrip.{unmarshal-marshal_binary}

refused_text :
    error_text (record { from_state = idle; to_state = completed })
    ≡ codes "invalid transition: idle -> completed"
unfolding error_text state_string
refused_text = refl

aborted : Walk idle (preparing ∷ ready ∷ cancelled ∷ []) cancelled
unfolding transition
aborted = move refl (move refl (move refl stop))

whole : Walk idle (preparing ∷ ready ∷ running ∷ collecting ∷ completed ∷ []) completed
unfolding transition
whole = move refl (move refl (move refl (move refl (move refl stop))))

abbrev probe : ProbeHeader
probe = record {
  version = 1;
  session_id = 7;
  test_id = 0xdeadbeef;
  direction = 1;
  family = 0;
  udp_port = 40000;
  payload_size = 1200;
  sequence = 99;
  send_unix_nano = negsuc 41;
}

unmarshal-marshal_binary_example :
    (bs : Bytes) × (marshal_binary (some probe) ≡ ok bs)
    × (unmarshal_binary zero_header (bs ++ 5 ∷ []) ≡ (probe, none))
unmarshal-marshal_binary_example = unmarshal-marshal_binary probe zero_header (5 ∷ []) (omega arith)

unmarshal_binary_cases_example :
    (2 < probe_header_size)
      × (unmarshal_binary probe (1 ∷ 2 ∷ []) ≡ (probe, some (buffer_too_short 2)))
    ⊎ (probe_header_size ≤ 2)
      × ((unmarshal_binary probe (1 ∷ 2 ∷ [])).1 ≡ none)
      × (unmarshal_binary probe (1 ∷ 2 ∷ []) ≡ unmarshal_binary zero_header (1 ∷ 2 ∷ []))
unmarshal_binary_cases_example = unmarshal_binary_cases probe zero_header (1 ∷ 2 ∷ [])
