-- ===== src/Control/Session/Reachable.antt =====
-- The invariant holds in every session that is reached, and what it says of the responses.
use udp_measure.Prelude.{◌≤◌, Bool, false, arith, Bool-cases, ◌≡◌, ◌≢◌, ◌⊎◌, inl, inr, sym}
use mathlib.Core.Path.{subst}
use udp_measure.Protocol.Types.{idle, completed}
use udp_measure.Protocol.StateMachine.{transition, is_terminal}
use udp_measure.Control.Session.{
  Session, Message, Peer, new_session, looping, awaiting, finished, handle_message, handle_cancel,
  handle_timeout, closed_chan,
}
use udp_measure.Control.Session.Loop.{
  Input, shutdown, garbage, quiet, message, broken, loop_once, meet, resume, run, task_step,
  TaskEvent, Step, round, background, wake, Reach, begin, next,
}
use udp_measure.Control.Session.Invariant.{
  Inv, results, readies, run-Inv, task_step-Inv, message-Inv,
}

-- The rounds of the loop that take no message.
abbrev pub IsSilent : Input → Type 0
IsSilent (message _) = ⊥
IsSilent _ = Unit

-- A property that holds at the beginning, and that each kind of step keeps.
pub record IsPreserved (P : Session → Type 0) : Type 0 where
  pub begun : (w : Bool) → P (run w new_session)
  pub by_task : (w : Bool) (e : TaskEvent) (s : Session) → P s → P (task_step w e s)
  pub by_message :
      (w : Bool) (peer : Peer) (m : Message) (s : Session)
      → P s
      → s.main ≡ looping
      → is_terminal s.state ≡ false
      → P (handle_message w peer m s).0
  pub by_silence :
      (w : Bool) (peer : Peer) (input : Input) (s : Session)
      → IsSilent input
      → P s
      → s.main ≡ looping
      → is_terminal s.state ≡ false
      → P (meet w peer input s)
  pub by_end : (s : Session) → P s → P (record s { main = finished })
  pub by_waking :
      (w : Bool) (s : Session)
      → P s
      → s.main ≡ awaiting
      → s.receiver_done ≡ closed_chan
      → P (resume w s)

module _ {P : Session → Type 0} (preserved : IsPreserved P) where
  meet-preserved :
      (w : Bool) (peer : Peer) (input : Input) (s : Session)
      → P s
      → s.main ≡ looping
      → is_terminal s.state ≡ false
      → P (meet w peer input s)
  meet-preserved w peer (message m) s i l a = elim (Bool-cases (handle_message w peer m s).1) [
    | inl go_on ↦ rw go_on (preserved.by_message w peer m s i l a)
    | inr leave ↦
        let kept = preserved.by_message w peer m s i l a in
        rw leave (preserved.by_end (handle_message w peer m s).0 kept)
  ]
  meet-preserved w peer shutdown s i l a = preserved.by_silence w peer shutdown s tt i l a
  meet-preserved w peer garbage s i l a = preserved.by_silence w peer garbage s tt i l a
  meet-preserved w peer quiet s i l a = preserved.by_silence w peer quiet s tt i l a
  meet-preserved w peer broken s i l a = preserved.by_silence w peer broken s tt i l a

  loop_once-preserved :
      (w : Bool) (peer : Peer) (input : Input) (s : Session)
      → P s
      → s.main ≡ looping
      → P (loop_once w peer input s)
  unfolding loop_once
  loop_once-preserved w peer input s i l = elim (Bool-cases (is_terminal s.state)) [
    | inl done ↦ rw done (preserved.by_end s i)
    | inr live ↦ rw live (meet-preserved w peer input s i l live)
  ]

  Step-preserved : {s t : Session} → Step s t → P s → P t
  Step-preserved {s} (round w peer input l c e) i =
      subst P (sym e) (loop_once-preserved w peer input s i l)
  Step-preserved {s} (background w ev e) i = subst P (sym e) (preserved.by_task w ev s i)
  Step-preserved {s} (wake w l d e) i = subst P (sym e) (preserved.by_waking w s i l d)

  -- Such a property holds in every session that is reached.
  pub Reach-preserved : {s : Session} → Reach s → P s
  Reach-preserved (begin w) = preserved.begun w
  Reach-preserved (next r st) = Step-preserved st (Reach-preserved r)

silence-Inv :
    (w : Bool) (peer : Peer) (input : Input) (s : Session)
    → IsSilent input
    → Inv s
    → s.main ≡ looping
    → is_terminal s.state ≡ false
    → Inv (meet w peer input s)
unfolding handle_cancel handle_timeout is_terminal
silence-Inv w peer (message m) s silent i l a = absurd silent
silence-Inv w peer _ s silent i l a = ground arith

resume-Inv :
    (w : Bool) (s : Session)
    → Inv s
    → s.main ≡ awaiting
    → s.receiver_done ≡ closed_chan
    → Inv (resume w s)
unfolding resume transition
resume-Inv w s i l d = ground arith

finish-Inv : (s : Session) → Inv s → Inv (record s { main = finished })
finish-Inv s i = ground arith

Inv-IsPreserved : IsPreserved Inv
Inv-IsPreserved = record {
  begun = run-Inv;
  by_task = task_step-Inv;
  by_message = message-Inv;
  by_silence = silence-Inv;
  by_end = finish-Inv;
  by_waking = resume-Inv;
}

-- The invariant holds in every session that is reached.
pub Reach-Inv : {s : Session} → Reach s → Inv s
Reach-Inv r = Reach-preserved Inv-IsPreserved r

-- A session writes at most one ready message and at most one result, whatever messages arrive and
-- however its goroutines interleave; once it has written a result it is completed, and it is never
-- idle.
pub responses_once :
    {s : Session}
    → Reach s
    → (readies s.out ≤ 1)
      × (results s.out ≤ 1)
      × ((results s.out ≡ 0) ⊎ (s.state ≡ completed))
      × (s.state ≢ idle)
responses_once r = let i = Reach-Inv r in ground (arith, i)
