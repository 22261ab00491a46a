-- ===== src/Control/Session/Invariant.antt =====
-- What holds of a session in every state that its steps reach.
use udp_measure.Prelude.{ℕ, suc, Bool, true, false, List, [], ◌∷◌, arith, ◌≡◌, ◌≢◌, ◌⊎◌}
use udp_measure.Protocol.Types.{
  idle, preparing, ready, running, collecting, completed, direction_uplink,
}
use udp_measure.Protocol.StateMachine.{transition, is_terminal}
use udp_measure.Control.Session.{
  Session, Message, Peer, Response, result_response, ready_response, no_chan, open_chan, no_task,
  sender_task, receiver_starting, receiver_listening, looping, awaiting, handle_message,
  new_session, Task, hello,
}
use udp_measure.Control.Session.Loop.{TaskEvent, task_step, run}

-- How many results, and how many ready messages, were written.
abbrev pub results : List Response → ℕ
results [] = 0
results (result_response _ _ ∷ out) = suc (results out)
results (_ ∷ out) = results out

abbrev pub readies : List Response → ℕ
readies [] = 0
readies (ready_response _ ∷ out) = suc (readies out)
readies (_ ∷ out) = readies out

abbrev IsListening : Task → Type 0
IsListening (receiver_listening _ _) = Unit
IsListening _ = ⊥

abbrev is_listening : Task → Bool
is_listening (receiver_listening _ _) = true
is_listening _ = false

pub record Inv (s : Session) : Type 0 where
  -- `Run` leaves idle at once, and nothing goes back.
  pub started : s.state ≢ idle
  pub result_completes : (results s.out ≡ 0) ⊎ ((results s.out ≡ 1) × (s.state ≡ completed))
  pub ready_once : (readies s.out ≡ 0) ⊎ ((readies s.out ≡ 1) × (s.state ≢ preparing))
  -- The receiver listens exactly while its channel is open.
  pub listening_open : is_listening s.task ≡ true → s.receiver_done ≡ open_chan
  pub open_listening : s.receiver_done ≡ open_chan → is_listening s.task ≡ true
  pub starting_no_chan : s.task ≡ receiver_starting → s.receiver_done ≡ no_chan
  pub sending_no_chan : s.task ≡ sender_task → s.receiver_done ≡ no_chan
  pub before_start :
      (s.state ≡ preparing) ⊎ (s.state ≡ ready) → (s.task ≡ no_task) × (s.receiver_done ≡ no_chan)
  -- `handleSendComplete` waits only for a receiver of a running uplink test.
  pub waiting :
      s.main ≡ awaiting
      → (s.state ≡ running) × (s.direction ≡ direction_uplink) × (s.receiver_done ≢ no_chan)
  pub conn_owned : s.has_conn ≡ false → s.conn_open ≡ false
  -- An uplink test that collects has stopped its receiver, unless that began to listen only
  -- afterwards, which has made a new quit channel, or a timeout has closed the connection.
  pub receiver_stopped :
      s.direction ≡ direction_uplink
      → (s.state ≡ collecting) ⊎ (s.state ≡ completed)
      → s.has_conn ≡ true
      → s.receiver_done ≢ no_chan
      → s.has_quit ≡ false
      → s.task ≡ no_task

pub run-Inv : (w : Bool) → Inv (run w new_session)
unfolding run transition
run-Inv w = ground arith

pub task_step-Inv : (w : Bool) (e : TaskEvent) (s : Session) → Inv s → Inv (task_step w e s)
unfolding task_step transition
task_step-Inv w e s i = ground arith

pub message-Inv :
    (w : Bool) (peer : Peer) (m : Message) (s : Session)
    → Inv s
    → s.main ≡ looping
    → is_terminal s.state ≡ false
    → Inv (handle_message w peer m s).0
unfolding handle_message transition is_terminal
message-Inv w peer (hello v) s i l a = ground arith
message-Inv w peer _ s i l a = ground arith
