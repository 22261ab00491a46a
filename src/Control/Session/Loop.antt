-- ===== src/Control/Session/Loop.antt =====
-- session.go: `Run`, the loop of `handleMessages` and the two goroutines of `handleStart`, as steps of
-- a session that may come in any order.
use udp_measure.Prelude.{suc, Bool, true, false, not, ◌||◌, none, some, if◌then◌else◌, ◌≡◌}
use udp_measure.Prelude.Int.{pos}
use udp_measure.Protocol.Types.{preparing, collecting}
use udp_measure.Protocol.StateMachine.{is_terminal}
use udp_measure.Control.Session.{
  Session, Message, Peer, new_session, no_task, sender_task, receiver_starting, receiver_listening,
  open_chan, closed_chan, looping, awaiting, finished, refused, read_fault, sender_fault,
  receiver_fault, decode_failed, sent_response, write, send_error, send_invalid_request, set_state,
  start_collecting, handle_message, handle_cancel, handle_timeout,
}

-- What one round of the loop meets: the server is closed, or the read ends in one of the ways that
-- the loop tells apart. Only the last is possible on a connection that the session has closed.
pub data Input : Type 0 where
  shutdown garbage quiet : Input
  message : Message → Input
  broken : Input

abbrev needs_conn : Input → Bool
needs_conn shutdown = false
needs_conn broken = false
needs_conn _ = true

-- `return` out of the loop, unless the handler returned nil.
abbrev pub stay_if : Session × Bool → Session
stay_if (s, go_on) = if go_on then s else record s { main = finished }

-- The end of a round whose read timed out or met the end of the stream.
abbrev pub leave_if_terminal : Session → Session
leave_if_terminal s = if is_terminal s.state then record s { main = finished } else s

abbrev pub meet : Bool → Peer → Input → Session → Session
meet w peer shutdown s = record (handle_cancel s) { main = finished }
meet w peer garbage s = send_invalid_request w decode_failed s
meet w peer quiet s = leave_if_terminal (handle_timeout s)
meet w peer (message m) s = stay_if (handle_message w peer m s)
meet w peer broken s = record (send_error w read_fault s) { main = finished }

-- One round of `handleMessages`.
unfoldable pub loop_once : Bool → Peer → Input → Session → Session
unfolding is_terminal handle_message handle_cancel handle_timeout
loop_once w peer input s =
    if is_terminal s.state then record s { main = finished } else meet w peer input s

-- `Run`, up to the loop.
unfoldable pub run : Bool → Session → Session
unfolding set_state
run w s =
    let (t, refusal) = set_state preparing (record s { has_conn = true }) in
    elim refusal [ none ↦ t | some e ↦ record (send_error w (refused e) t) { main = finished } ]

-- What the goroutines do: the sender fails or has sent all packets, the receiver's socket cannot be
-- bound or is, a probe is recorded, or `Receive` returns.
pub data TaskEvent : Type 0 where
  send_fails send_ends bind_fails binds records stops : TaskEvent

-- The end of `runDownlinkSender`.
unfoldable pub sender_done : Bool → Session → Session
unfolding set_state
sender_done w s =
    let (t, refusal) =
      set_state collecting (record s { sent_count = s.packet_count; task = no_task }) in
    elim refusal [ none ↦ (write w sent_response t).0 | some e ↦ send_error w (refused e) t ]

unfoldable pub task_step : Bool → TaskEvent → Session → Session
unfolding sender_done
task_step w e s = elim s.task [
  | no_task ↦ s
  | sender_task ↦ elim e [
    | send_fails ↦ send_error w sender_fault (record s { task = no_task })
    | send_ends ↦ sender_done w s
    | _ ↦ s
  ]
  | receiver_starting ↦ elim e [
    | bind_fails ↦
        send_error w receiver_fault
          (record s { has_quit = true; receiver_done = closed_chan; task = no_task })
    | binds ↦ record s {
      has_quit = true;
      receiver_done = open_chan;
      has_receiver = true;
      task = receiver_listening false 0;
    }
    | _ ↦ s
  ]
  | receiver_listening quit n ↦ elim e [
    | records ↦ record s { task = receiver_listening quit (suc n) }
    | stops ↦ record s {
      received_count = pos n;
      has_receiver = false;
      receiver_done = closed_chan;
      task = no_task;
    }
    | _ ↦ s
  ]
]

-- `handleSendComplete` behind its wait.
unfoldable pub resume : Bool → Session → Session
unfolding start_collecting
resume w s = stay_if (start_collecting w (record s { main = looping }))

-- One step of a session. A round of the loop needs the loop to be at its head, and a connection that
-- is open if the round reads something from it.
pub data Step (s t : Session) : Type 0 where
  round :
      (w : Bool) (peer : Peer) (input : Input)
      → s.main ≡ looping
      → (not (needs_conn input) || s.conn_open) ≡ true
      → t ≡ loop_once w peer input s
      → Step s t
  background : (w : Bool) (e : TaskEvent) → t ≡ task_step w e s → Step s t
  wake : (w : Bool) → s.main ≡ awaiting → s.receiver_done ≡ closed_chan → t ≡ resume w s → Step s t

-- The sessions that a run reaches.
pub data Reach : Session → Type 0 where
  begin : (w : Bool) → Reach (run w new_session)
  next : {s t : Session} → Reach s → Step s t → Reach t
