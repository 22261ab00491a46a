-- ===== src/Control/Session.antt =====
-- session.go: the state of a session and its message handlers. A handler takes the session and
-- returns it with the responses that were written put before `out`, the latest first; the Boolean
-- beside it says whether the handler returned nil, so that the loop goes on. Each handler is also
-- told by a Boolean `w` whether a write on an open connection succeeds. A response here holds what
-- the session puts into it; `Control.Wire` makes the message of it, with its loss rate.
mod State
pub mod Loop
pub mod Moves
pub mod Invariant
pub mod Reachable
pub mod Counts
pub mod Uplink
pub mod Race
pub mod Dispatch
pub mod Addresses
use udp_measure.Prelude.{
  ℕ, Bool, true, false, not, ◌&&◌, ◌||◌, Option, none, some, List, [], ◌∷◌, ◌++◌, Bytes,
  if◌then◌else◌,
}
use udp_measure.Prelude.Int.{ℤ, pos, ◌==ℤ◌}
use udp_measure.Protocol.Types.{
  Direction, Family, MessageType, protocol_version, direction_uplink, direction_downlink,
  family_ipv4, family_ipv6, SessionState, idle, preparing, ready, running, collecting, completed,
  failed, cancelled, eq_state,
}
use udp_measure.Protocol.StateMachine.{InvalidTransition, transition, is_terminal}
pub use State.*

-- `writeMessage`: the response is written if the connection is open and takes it.
abbrev pub write : Bool → Response → Session → Session × Bool
write w r s = if w && s.conn_open then (record s { out = r ∷ s.out }, true) else (s, false)

-- `sendError` and `sendInvalidRequest` ignore a failed write.
abbrev pub send_error : Bool → Fault → Session → Session
send_error w fault s = (write w (internal_error fault) s).0

abbrev pub send_invalid_request : Bool → Reason → Session → Session
send_invalid_request w reason s = (write w (invalid_request reason) s).0

-- `setState`
unfoldable pub set_state : SessionState → Session → Session × Option InvalidTransition
set_state to s = elim (transition s.state to) [
  | none ↦ (record s { state = to }, none)
  | some e ↦ (s, some e)
]

-- `if err := s.setState(to); err != nil { s.sendError(…); return err }`, and then `next`.
abbrev enter : Bool → SessionState → (Session → Session × Bool) → Session → Session × Bool
enter w to next s =
    let (t, refusal) = set_state to s in
    elim refusal [ none ↦ next t | some e ↦ (send_error w (refused e) t, false) ]

unfoldable pub handle_hello : Bool → ℤ → Session → Session × Bool
handle_hello w client_version s =
    if not (client_version ==ℤ protocol_version)
    then (send_invalid_request w version_mismatch s, true)
    else (s, true)

-- The assignments at the head of `handlePrepare`.
abbrev pub take_parameters : Prepare → Session → Session
take_parameters msg s = record s {
  udp_port = msg.udp_port;
  direction = msg.direction;
  family = msg.family;
  payload_size = msg.payload_size;
  packet_count = msg.packet_count;
  interval_ms = msg.interval_ms;
  client_receive_port = msg.client_receive_port;
}

abbrev pub target_port : Prepare → ℤ
target_port msg =
    if msg.direction ==ℤ direction_downlink && not (msg.client_receive_port ==ℤ pos 0)
    then msg.client_receive_port
    else msg.udp_port

unfoldable pub handle_prepare : Bool → Peer → Prepare → Session → Session × Bool
unfolding set_state eq_state
handle_prepare w peer msg s =
    if not (eq_state s.state preparing)
    then (send_invalid_request w (unexpected_prepare s.state) s, true)
    else let t = take_parameters msg s in
      if msg.family ==ℤ family_ipv6 && not peer.is_ipv6
      then (send_invalid_request w family_mismatch t, true)
      else enter w ready (λ u. write w (ready_response u.udp_port) u)
          (record t {
            target_address = some (record {
              bracketed = msg.family ==ℤ family_ipv6;
              host = peer.ip;
              port = target_port msg;
            });
          })

unfoldable pub handle_start : Bool → Session → Session × Bool
unfolding set_state eq_state
handle_start w s =
    if not (eq_state s.state ready)
    then (send_invalid_request w (unexpected_start s.state) s, true)
    else enter w running
        (λ t. (
          record t {
            task = if t.direction ==ℤ direction_downlink then sender_task else receiver_starting;
          },
          true,
        ))
        s

-- `close(s.quitCh); s.quitCh = nil`, if there is one.
abbrev signal_quit : Session → Session
signal_quit s =
    if s.has_quit
    then record s {
      has_quit = false;
      task = elim s.task [ receiver_listening _ n ↦ receiver_listening true n | other ↦ other ];
    }
    else s

-- The end of `handleSendComplete`.
unfoldable pub start_collecting : Bool → Session → Session × Bool
unfolding set_state
start_collecting w s = enter w collecting (λ t. (t, true)) s

-- An uplink session stops its receiver before it collects.
finish_uplink : Bool → Session → Session × Bool
unfolding start_collecting
finish_uplink w s =
    let t = signal_quit s in
    elim t.receiver_done [
      | open_chan ↦ (record t { main = awaiting }, true)
      | _ ↦ start_collecting w t
    ]

-- Where the code waits for the receiver, the session is `awaiting`, and `resume` of `Loop` goes on.
unfoldable pub handle_send_complete : Bool → Session → Session × Bool
unfolding finish_uplink start_collecting eq_state
handle_send_complete w s =
    if eq_state s.state collecting
    then (s, true)
    else if not (eq_state s.state running)
    then (send_invalid_request w (unexpected_send_complete s.state) s, true)
    else if s.direction ==ℤ direction_uplink
    then finish_uplink w s
    else start_collecting w s

-- `sendResult`; the connection is closed on both branches.
unfoldable pub send_result : Bool → Session → Session × Bool
send_result w s =
    let sent = if s.sent_count ==ℤ pos 0 then s.packet_count else s.sent_count in
    let (t, written) = write w (result_response sent s.received_count) s in
    (record t { conn_open = false }, written)

unfoldable pub handle_fetch_result : Bool → Session → Session × Bool
unfolding set_state eq_state send_result
handle_fetch_result w s =
    if not (eq_state s.state collecting)
    then if eq_state s.state completed || eq_state s.state failed
      then send_result w s
      else (send_invalid_request w (unexpected_fetch_result s.state) s, true)
    else enter w completed (send_result w) s

-- `cleanupNoStateChange`
unfoldable pub cleanup_no_state_change : Session → Session
cleanup_no_state_change s = record s {
  has_conn = false;
  conn_open = not s.has_conn && s.conn_open;
  has_receiver = false;
}

unfoldable pub handle_cancel : Session → Session
unfolding cleanup_no_state_change eq_state
handle_cancel s =
    if eq_state s.state idle || is_terminal s.state
    then s
    else cleanup_no_state_change (record s { state = cancelled })

-- The state that `handleTimeout` assigns.
abbrev state_after_timeout : SessionState → SessionState
state_after_timeout preparing = failed
state_after_timeout running = collecting
state_after_timeout collecting = failed
state_after_timeout s = s

unfoldable pub handle_timeout : Session → Session
unfolding cleanup_no_state_change
handle_timeout s = cleanup_no_state_change (record s { state = state_after_timeout s.state })

-- `handleMessage`
unfoldable pub handle_message : Bool → Peer → Message → Session → Session × Bool
unfolding handle_hello handle_prepare handle_start handle_send_complete handle_fetch_result
    handle_cancel
handle_message w peer (hello v) s = handle_hello w v s
handle_message w peer (prepare msg) s = handle_prepare w peer msg s
handle_message w peer start s = handle_start w s
handle_message w peer send_complete s = handle_send_complete w s
handle_message w peer fetch_result s = handle_fetch_result w s
handle_message w peer cancel s = (handle_cancel s, true)
handle_message w peer (other_type t) s = (send_invalid_request w unknown_type s, true)
