-- ===== src/Examples/Client.antt =====
-- The client's dialogue at concrete inputs.
use udp_measure.Prelude.{ℕ, suc, true, false, [], ◌∷◌, ok, err, ◌≡◌, ◌⊎◌, refl}
use udp_measure.Prelude.Int.{pos}
use udp_measure.Protocol.Types.{direction_uplink, direction_downlink, family_ipv4}
use udp_measure.Control.Session.{Peer}
use udp_measure.Control.Client.{TestResult, TestParams, run_uplink}
use udp_measure.Control.Client.Calls.{
  World, ClientError, ready_missing, no_message, sent_all, ◌>>=◌, ◌>>◌,
}
use udp_measure.Control.Client.Course.{UplinkBegun, UplinkDone, uplink_in_order}
use udp_measure.Control.Client.Keeps.{logged}

abbrev pub peer : Peer
peer = record { ip = 192 ∷ 0 ∷ 2 ∷ 1 ∷ []; is_ipv6 = false }

abbrev pub test : TestParams
test = record {
  direction = direction_uplink;
  family = family_ipv4;
  target4 = 192 ∷ 0 ∷ 2 ∷ 7 ∷ [];
  target6 = [];
  port = pos 9000;
  payload_size = pos 100;
  packet_count = pos 10;
  interval_ms = pos 1;
}

abbrev pub test_down : TestParams
test_down = record test { direction = direction_downlink }

-- A world whose state counts the messages, and whose server never answers.
abbrev silent : World ℕ
silent = record {
  write_msg = λ _ n. (suc n, true);
  recv_response = λ n. (n, err no_message);
  send_to = λ _ _ n. (n, sent_all);
  listen = λ _ n. (n, ok (pos 5000));
  start_receiver = λ n. n;
  matched = λ _. 0;
  reconnect = λ n. (n, true);
}

silent_uplink : (run_uplink (logged silent) test (0, [])).1 ≡ err (ready_missing no_message)
unfolding run_uplink ◌>>◌ ◌>>=◌
silent_uplink = refl

uplink_in_order_example :
    let r = run_uplink (logged silent) test (0, []) in
    ((e : ClientError) × (r.1 ≡ err e) × UplinkBegun silent test r.0.1)
    ⊎ ((a : TestResult) × (r.1 ≡ ok a) × UplinkDone silent test a r.0.1)
uplink_in_order_example = uplink_in_order silent test 0
