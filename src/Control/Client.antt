-- ===== src/Control/Client.antt =====
-- client.go: the dialogue that the client leads for one test. What it calls is a record of
-- operations on a state that stands for the connection, the server behind it and the network.
-- `readMsg` and `writeMsg` are those of `Control.Frame`.
pub mod Calls
pub mod Keeps
pub mod Course
pub mod Against
use udp_measure.Prelude.{
  ℕ, Bool, true, false, List, [], ◌∷◌, Option, none, some, Bytes, if◌then◌else◌,
}
use udp_measure.Prelude.Int.{ℤ, pos, ◌+ℤ◌, ◌-ℤ◌, ◌*ℤ◌, ◌==ℤ◌, to_u16, wrap64}
use udp_measure.Protocol.Types.{
  Direction, Family, protocol_version, direction_uplink, direction_downlink, family_ipv6,
}
use udp_measure.Udp.Sender.{SenderConfig}
use udp_measure.Udp.Receiver.{ReceiverConfig}
use udp_measure.Control.Session.{
  Message, hello, prepare, start, send_complete, fetch_result, Prepare, ready_response,
  sent_response, result_response,
}
use udp_measure.Control.Client.Calls.{
  World, Reply, response, ClientError, hello_unsent, prepare_unsent, ready_expected, start_unsent,
  complete_unsent, complete_expected, fetch_unsent, result_expected, ready_missing,
  complete_missing, result_missing, no_connection, Action, ◌>>=◌, ◌>>◌, finish, expect, tell, hear,
  send_probes, open_receiver, begin_receiving, matched_so_far, redial,
}

pub record TestResult : Type 0 where
  pub direction : Direction
  pub sent : ℤ
  pub received : ℤ
  pub lost : ℤ

pub record TestParams : Type 0 where
  pub direction : Direction
  pub family : Family
  pub target4 : Bytes
  pub target6 : Bytes
  pub port : ℤ
  pub payload_size : ℤ
  pub packet_count : ℤ
  pub interval_ms : ℤ

-- The prepare message, with the port of the client's receiver.
abbrev pub prepare_for : TestParams → ℤ → Prepare
prepare_for p receive_port = record {
  direction = p.direction;
  family = p.family;
  udp_port = p.port;
  payload_size = p.payload_size;
  packet_count = p.packet_count;
  interval_ms = p.interval_ms;
  client_receive_port = receive_port;
}

abbrev pub target_of : TestParams → Bytes
target_of p = if p.family ==ℤ family_ipv6 then p.target6 else p.target4

-- The configuration of the sender in `RunUplink`.
abbrev pub sender_config : TestParams → SenderConfig
sender_config p = record {
  session_id = 0;
  test_id = 0;
  direction = direction_uplink;
  family = p.family;
  udp_port = to_u16 p.port;
  payload_size = to_u16 p.payload_size;
  packet_count = p.packet_count;
  interval = wrap64 (p.interval_ms *ℤ pos 1000000);
}

-- The configuration of the receiver in `RunDownlink`.
abbrev pub receiver_config : TestParams → ReceiverConfig
receiver_config p = record {
  session_id = 0;
  test_id = 0;
  direction = direction_downlink;
  family = p.family;
  receive_window =
      wrap64 (wrap64 (wrap64 (p.packet_count *ℤ p.interval_ms) +ℤ pos 1000) *ℤ pos 1000000);
}

-- `msgType != protocol.MsgTypeReady` and its siblings: what the client takes from the reply that it
-- expects, and `none` if it is another.
abbrev ready_of : Reply → Option (Unit {0})
ready_of (response (ready_response _)) = some tt
ready_of _ = none

abbrev complete_of : Reply → Option (Unit {0})
complete_of (response sent_response) = some tt
complete_of _ = none

abbrev counts_of : Reply → Option (ℤ × ℤ)
counts_of (response (result_response sent received)) = some (sent, received)
counts_of _ = none

module _ {S : Type 0} (world : World S) where
  unfoldable pub run_uplink : TestParams → Action S TestResult
  run_uplink p = do
    tell world (hello protocol_version) hello_unsent
    tell world (prepare (prepare_for p (pos 0))) prepare_unsent
    ready ← hear world ready_missing
    expect (ready_of ready) (ready_expected ready)
    tell world start start_unsent
    send_probes world (target_of p) (sender_config p)
    tell world send_complete complete_unsent
    tell world fetch_result fetch_unsent
    reply ← hear world result_missing
    counts ← expect (counts_of reply) (result_expected reply)
    finish (record {
      direction = direction_uplink;
      sent = counts.0;
      received = counts.1;
      lost = wrap64 (counts.0 -ℤ counts.1);
    })

  unfoldable pub run_downlink : TestParams → Action S TestResult
  run_downlink p = do
    tell world (hello protocol_version) hello_unsent
    port ← open_receiver world (receiver_config p)
    tell world (prepare (prepare_for p port)) prepare_unsent
    ready ← hear world ready_missing
    expect (ready_of ready) (ready_expected ready)
    begin_receiving world
    tell world start start_unsent
    complete ← hear world complete_missing
    expect (complete_of complete) (complete_expected complete)
    matched ← matched_so_far world
    tell world fetch_result fetch_unsent
    reply ← hear world result_missing
    counts ← expect (counts_of reply) (result_expected reply)
    finish (record {
      direction = direction_downlink;
      sent = counts.0;
      received = pos matched;
      lost = wrap64 (counts.0 -ℤ pos matched);
    })

  unfoldable pub run_both : TestParams → Action S (List TestResult)
  unfolding run_uplink run_downlink
  run_both p = do
    up ← run_uplink (record p { direction = direction_uplink })
    redial world
    down ← run_downlink (record p { direction = direction_downlink })
    finish (up ∷ down ∷ [])
