-- ===== src/Control/Session/Counts.antt =====
-- What a session reports, whatever messages arrive and however its goroutines interleave.
use udp_measure.Prelude.{
  inl, inr, Bool-cases, ◌≢◌, Bool, true, false, Option, none, some, List, [], ◌∷◌, arith, ◌≡◌, ◌⊎◌,
}
use udp_measure.Prelude.Int.{ℤ, pos, ◌==ℤ◌}
use udp_measure.Protocol.Types.{preparing, ready, collecting, direction_downlink, eq_state}
use udp_measure.Protocol.StateMachine.{transition, is_terminal}
use udp_measure.Control.Session.{
  Session, Message, Peer, Response, result_response, Task, no_task, receiver_starting,
  receiver_listening, looping, awaiting, finished, closed_chan, new_session, hello, fetch_result,
  handle_message, handle_fetch_result, send_result, handle_cancel, handle_timeout,
}
use udp_measure.Control.Session.Loop.{
  Input, message, TaskEvent, run, meet, loop_once, task_step, resume, Reach,
}
use udp_measure.Control.Session.Reachable.{IsSilent, IsPreserved, Reach-preserved}

-- The counts of the latest result, the sent one first.
abbrev pub reported : List Response → Option (ℤ × ℤ)
reported [] = none
reported (result_response sent received ∷ out) = some (sent, received)
reported (_ ∷ out) = reported out

abbrev is_receiving : Task → Bool
is_receiving receiver_starting = true
is_receiving (receiver_listening _ _) = true
is_receiving _ = false

pub record Counted (s : Session) : Type 0 where
  pub unreported :
      (s.state ≡ preparing) ⊎ (s.state ≡ ready)
      → (reported s.out ≡ none)
        × (s.sent_count ≡ pos 0)
        × (s.received_count ≡ pos 0)
        × (s.task ≡ no_task)
  pub sent_known : (s.sent_count ≡ pos 0) ⊎ (s.sent_count ≡ s.packet_count)
  pub receiving : is_receiving s.task ≡ true → s.received_count ≡ pos 0
  pub only_uplink :
      s.direction ≡ direction_downlink → (is_receiving s.task ≡ false) × (s.received_count ≡ pos 0)
  pub own_counts :
      (reported s.out ≡ none)
      ⊎ ((reported s.out ≡ some (s.packet_count, pos 0))
          ⊎ (reported s.out ≡ some (s.packet_count, s.received_count)))

run-Counted : (w : Bool) → Counted (run w new_session)
unfolding run transition
run-Counted w = ground arith

task_step-Counted : (w : Bool) (e : TaskEvent) (s : Session) → Counted s → Counted (task_step w e s)
unfolding task_step transition
task_step-Counted w e s i = ground arith

message-Counted :
    (w : Bool) (peer : Peer) (m : Message) (s : Session)
    → Counted s
    → s.main ≡ looping
    → is_terminal s.state ≡ false
    → Counted (handle_message w peer m s).0
unfolding handle_message transition is_terminal
message-Counted w peer (hello v) s i l a = ground arith
message-Counted w peer _ s i l a = ground arith

silence-Counted :
    (w : Bool) (peer : Peer) (input : Input) (s : Session)
    → IsSilent input
    → Counted s
    → s.main ≡ looping
    → is_terminal s.state ≡ false
    → Counted (meet w peer input s)
unfolding handle_cancel handle_timeout is_terminal
silence-Counted w peer (message m) s silent i l a = absurd silent
silence-Counted w peer _ s silent i l a = ground arith

finish-Counted : (s : Session) → Counted s → Counted (record s { main = finished })
finish-Counted s i = ground arith

resume-Counted :
    (w : Bool) (s : Session)
    → Counted s
    → s.main ≡ awaiting
    → s.receiver_done ≡ closed_chan
    → Counted (resume w s)
unfolding resume transition
resume-Counted w s i l d = ground arith

Counted-IsPreserved : IsPreserved Counted
Counted-IsPreserved = record {
  begun = run-Counted;
  by_task = task_step-Counted;
  by_message = message-Counted;
  by_silence = silence-Counted;
  by_end = finish-Counted;
  by_waking = resume-Counted;
}

fetch_reports :
    (peer : Peer) (s : Session)
    → Counted s
    → s.conn_open ≡ true
    → s.state ≡ collecting
    → reported (loop_once true peer (message fetch_result) s).out
      ≡ some (s.packet_count, s.received_count)
unfolding loop_once handle_message handle_fetch_result send_result transition is_terminal
fetch_reports peer s i open_conn c = ground (arith, i.sent_known)

-- In every session that its steps reach, whatever messages arrive and however its goroutines
-- interleave, the latest result that was written, if there is one, reports as sent the packet count
-- that was asked for, and as received 0 or the session's count of received packets, which is 0 in a
-- downlink test. If the session is collecting and its connection is open and takes the response, then
-- fetch_result reports exactly the packet count and the session's count of received packets.
pub own_results :
    {s : Session}
    → Reach s
    → (peer : Peer)
    → ((reported s.out ≡ none)
        ⊎ ((reported s.out ≡ some (s.packet_count, pos 0))
            ⊎ (reported s.out ≡ some (s.packet_count, s.received_count))))
      × ((s.direction ≢ direction_downlink) ⊎ (s.received_count ≡ pos 0))
      × ((s.conn_open ≡ false)
          ⊎ ((s.state ≢ collecting)
              ⊎ (reported (loop_once true peer (message fetch_result) s).out
                  ≡ some (s.packet_count, s.received_count))))
unfolding eq_state
own_results {s} r peer =
    let i = Reach-preserved Counted-IsPreserved r in
    (
      i.own_counts,
      elim (Bool-cases (s.direction ==ℤ direction_downlink)) [
        | inl down ↦ inr (i.only_uplink (ground (arith, down))).1
        | inr up ↦ inl (ground (arith, up))
      ],
      elim (Bool-cases s.conn_open) [
        | inl open_conn ↦ inr (elim (Bool-cases (eq_state s.state collecting)) [
          | inl c ↦ inr (fetch_reports peer s i open_conn (ground (arith, c)))
          | inr other ↦ inl (ground (arith, other))
        ])
        | inr shut ↦ inl shut
      ],
    )
