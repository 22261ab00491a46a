-- ===== src/Control/Session/State.antt =====
-- session.go: what a session is: its fields, the messages that it takes, the responses that it writes,
-- and its goroutines.
use udp_measure.Prelude.{ℕ, Bool, true, false, Option, none, List, [], Bytes}
use udp_measure.Prelude.Int.{ℤ, pos}
use udp_measure.Protocol.Types.{
  Direction, Family, MessageType, direction_uplink, family_ipv4, SessionState, idle,
}
use udp_measure.Protocol.StateMachine.{InvalidTransition}

-- The fields of protocol.Prepare that the session reads.
pub record Prepare : Type 0 where
  pub direction : Direction
  pub family : Family
  pub udp_port : ℤ
  pub payload_size : ℤ
  pub packet_count : ℤ
  pub interval_ms : ℤ
  pub client_receive_port : ℤ

-- A decoded message: `Decode` gives each type its own struct, so the type assertions hold.
pub data Message : Type 0 where
  hello : ℤ → Message
  prepare : Prepare → Message
  start send_complete fetch_result cancel : Message
  other_type : MessageType → Message

pub data Reason : Type 0 where
  decode_failed version_mismatch family_mismatch unknown_type : Reason
  unexpected_prepare : SessionState → Reason
  unexpected_start : SessionState → Reason
  unexpected_send_complete : SessionState → Reason
  unexpected_fetch_result : SessionState → Reason

pub data Fault : Type 0 where
  refused : InvalidTransition → Fault
  read_fault sender_fault receiver_fault : Fault

-- What the session writes to its client.
pub data Response : Type 0 where
  ready_response : ℤ → Response
  sent_response : Response
  result_response : ℤ → ℤ → Response
  invalid_request : Reason → Response
  internal_error : Fault → Response

-- The address of the client on the TCP connection.
pub record Peer : Type 0 where
  pub ip : Bytes
  pub is_ipv6 : Bool

-- `targetAddress`: "[host]:port" or "host:port".
pub record Target : Type 0 where
  pub bracketed : Bool
  pub host : Bytes
  pub port : ℤ

-- The channel `receiverDone`.
pub data DoneChan : Type 0 where
  no_chan open_chan closed_chan : DoneChan

-- The goroutine that `handleStart` starts. A receiver that listens knows whether its quit channel is
-- closed, and how many probes it has recorded.
pub data Task : Type 0 where
  no_task sender_task receiver_starting : Task
  receiver_listening : Bool → ℕ → Task

-- The goroutine that runs `handleMessages`, which waits in `handleSendComplete` for the receiver.
pub data Main : Type 0 where
  looping awaiting finished : Main

pub record Session : Type 0 where
  pub state : SessionState
  pub udp_port : ℤ
  pub direction : Direction
  pub family : Family
  pub payload_size : ℤ
  pub packet_count : ℤ
  pub interval_ms : ℤ
  pub client_receive_port : ℤ
  pub target_address : Option Target
  pub sent_count : ℤ
  pub received_count : ℤ
  pub has_conn : Bool
  pub conn_open : Bool
  pub has_receiver : Bool
  pub has_quit : Bool
  pub receiver_done : DoneChan
  pub task : Task
  pub main : Main
  pub out : List Response

-- `NewSession`, with the connection that the server accepted.
abbrev pub new_session : Session
new_session = record {
  state = idle;
  udp_port = pos 0;
  direction = direction_uplink;
  family = family_ipv4;
  payload_size = pos 0;
  packet_count = pos 0;
  interval_ms = pos 0;
  client_receive_port = pos 0;
  target_address = none;
  sent_count = pos 0;
  received_count = pos 0;
  has_conn = false;
  conn_open = true;
  has_receiver = false;
  has_quit = false;
  receiver_done = no_chan;
  task = no_task;
  main = looping;
  out = [];
}
