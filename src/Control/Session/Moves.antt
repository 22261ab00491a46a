-- ===== src/Control/Session/Moves.antt =====
-- How the steps of a session move its state.
use mathlib.Core.Path.{subst}
use udp_measure.Control.Session.Reachable.{Reach-Inv}
use udp_measure.Prelude.{
  Bool-cases, sym, Bool, true, false, none, arith, ◌≡◌, ◌≢◌, ◌⊎◌, inl, inr, refl,
}
use udp_measure.Protocol.Types.{SessionState, idle, collecting, cancelled}
use udp_measure.Protocol.StateMachine.{transition, is_terminal}
use udp_measure.Control.Session.{
  Session, Message, Peer, handle_message, handle_cancel, handle_timeout,
}
use udp_measure.Control.Session.Loop.{
  Input, TaskEvent, meet, stay_if, leave_if_terminal, loop_once, task_step, resume, Step, Reach,
  round, background, wake, shutdown, garbage, quiet, message, broken,
}

-- The moves that a session makes.
abbrev pub Moves : SessionState → SessionState → Type 0
Moves s t = (t ≡ s) ⊎ ((transition s t ≡ none) × (t ≢ idle) ⊎ ((s ≡ collecting) × (t ≡ cancelled)))

message-Moves :
    (w : Bool) (peer : Peer) (m : Message) (s : Session)
    → s.state ≢ idle
    → Moves s.state (handle_message w peer m s).0.state
unfolding handle_message transition is_terminal
message-Moves w peer m s h = ground arith

task_step-Moves : (w : Bool) (e : TaskEvent) (s : Session) → Moves s.state (task_step w e s).state
unfolding task_step transition
task_step-Moves w e s = ground arith

cancel-Moves : (s : Session) → s.state ≢ idle → Moves s.state (handle_cancel s).state
unfolding handle_cancel transition is_terminal
cancel-Moves s h = ground arith

timeout-Moves : (s : Session) → Moves s.state (handle_timeout s).state
unfolding handle_timeout transition
timeout-Moves s = ground arith

resume-Moves : (w : Bool) (s : Session) → Moves s.state (resume w s).state
unfolding resume transition
resume-Moves w s = ground arith

stay_if-state : (r : Session × Bool) → (stay_if r).state ≡ r.0.state
stay_if-state (s, true) = refl
stay_if-state (s, false) = refl

leave-state : (s : Session) → (leave_if_terminal s).state ≡ s.state
leave-state s = ground arith

meet-Moves :
    (w : Bool) (peer : Peer) (input : Input) (s : Session)
    → s.state ≢ idle
    → Moves s.state (meet w peer input s).state
meet-Moves w peer shutdown s h = cancel-Moves s h
meet-Moves w peer garbage s h = inl (ground arith)
meet-Moves w peer quiet s h =
    subst (Moves s.state) (sym (leave-state (handle_timeout s))) (timeout-Moves s)
meet-Moves w peer (message m) s h =
    subst (Moves s.state) (sym (stay_if-state (handle_message w peer m s)))
      (message-Moves w peer m s h)
meet-Moves w peer broken s h = inl (ground arith)

loop_once-Moves :
    (w : Bool) (peer : Peer) (input : Input) (s : Session)
    → s.state ≢ idle
    → Moves s.state (loop_once w peer input s).state
unfolding loop_once
loop_once-Moves w peer input s h = elim (Bool-cases (is_terminal s.state)) [
  | inl done ↦ rw done (inl refl)
  | inr live ↦ rw live (meet-Moves w peer input s h)
]

-- Every step of a session that is reached leaves the state as it is, or makes a transition that
-- `Transition` permits and that does not lead to idle, or cancels a session that is collecting: the
-- one move that the code makes past the table.
pub Step-Moves : {s t : Session} → Reach s → Step s t → Moves s.state t.state
Step-Moves {s} r (round w peer input l c e) =
    subst (λ t. Moves s.state t.state) (sym e)
      (loop_once-Moves w peer input s (Reach-Inv r).started)
Step-Moves {s} r (background w ev e) =
    subst (λ t. Moves s.state t.state) (sym e) (task_step-Moves w ev s)
Step-Moves {s} r (wake w l d e) = subst (λ t. Moves s.state t.state) (sym e) (resume-Moves w s)

-- A cancellation that arrives while a session collects is carried out, though `Transition` refuses
-- that move.
pub cancel_collecting :
    (s : Session)
    → s.state ≡ collecting
    → ((handle_cancel s).state ≡ cancelled) × (transition s.state cancelled ≢ none)
unfolding handle_cancel transition is_terminal
cancel_collecting s h = ground arith
