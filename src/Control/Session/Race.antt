-- ===== src/Control/Session/Race.antt =====
-- An uplink test whose receiver goroutine is late: `handleSendComplete` finds neither a quit channel
-- nor a channel to wait for, so that it collects at once, and nobody stops the receiver later.
use mathlib.Core.Path.{subst}
use udp_measure.Prelude.{Bool, true, false, not, ◌&&◌, List, [], ◌∷◌, arith, ◌≡◌, ◌≢◌, refl, sym}
use udp_measure.Prelude.Int.{pos, ◌==ℤ◌}
use udp_measure.Protocol.Types.{running, collecting, completed, direction_uplink, family_ipv6}
use udp_measure.Protocol.StateMachine.{transition}
use udp_measure.Control.Session.{
  Response, Task, no_task, awaiting, new_session, Session, Prepare, Peer, ready_response,
  result_response, receiver_starting, receiver_listening, prepare, start, send_complete,
  fetch_result,
}
use udp_measure.Control.Session.Loop.{
  Input, TaskEvent, Step, wake, loop_once, task_step, run, binds, message, round, background, Reach,
  begin, next,
}
use udp_measure.Control.Session.Uplink.{prepared, prepare_step}

-- Steps of a session in a row.
pub data After (s : Session) : Session → Type 0 where
  at_once : After s s
  later : {t u : Session} → After s t → Step t u → After s u

After-Reach : {s t : Session} → After s t → Reach s → Reach t
After-Reach at_once r = r
After-Reach (later a st) r = next (After-Reach a r) st

-- The goroutine has ended, or listens on a quit channel that is open.
abbrev pub is_untold : Task → Bool
is_untold no_task = true
is_untold (receiver_listening quit _) = not quit
is_untold _ = false

record IsUnstopped (out : List Response) (s : Session) : Type 0 where
  completes : s.state ≡ completed
  reports : s.out ≡ out
  waits_not : s.main ≢ awaiting
  untold : is_untold s.task ≡ true

loop_once-IsUnstopped :
    (out : List Response) (w : Bool) (peer : Peer) (input : Input) (s : Session)
    → IsUnstopped out s
    → IsUnstopped out (loop_once w peer input s)
unfolding loop_once
loop_once-IsUnstopped out w peer input s u =
    rw (loop_once, u.completes)
      (record {
        completes = refl;
        reports = u.reports;
        waits_not = λ e. ground (arith, e);
        untold = u.untold;
      })

task_step-IsUnstopped :
    (out : List Response) (w : Bool) (e : TaskEvent) (s : Session)
    → IsUnstopped out s
    → IsUnstopped out (task_step w e s)
unfolding task_step
task_step-IsUnstopped out w e s u = ground arith

Step-IsUnstopped :
    {out : List Response} {s t : Session} → Step s t → IsUnstopped out s → IsUnstopped out t
Step-IsUnstopped {out} {s} (round w peer input l c e) u =
    subst (IsUnstopped out) (sym e) (loop_once-IsUnstopped out w peer input s u)
Step-IsUnstopped {out} {s} (background w ev e) u =
    subst (IsUnstopped out) (sym e) (task_step-IsUnstopped out w ev s u)
Step-IsUnstopped (wake w l d e) u = absurd (u.waits_not l)

After-IsUnstopped :
    {out : List Response} {s t : Session} → After s t → IsUnstopped out s → IsUnstopped out t
After-IsUnstopped at_once u = u
After-IsUnstopped (later a st) u = Step-IsUnstopped st (After-IsUnstopped a u)

-- The loop has handled the four messages of an uplink test, and the goroutine has done nothing.
abbrev pub after_messages : Peer → Prepare → Session
after_messages peer msg = loop_once true peer (message fetch_result) (
    loop_once true peer (message send_complete) (
      loop_once true peer (message start)
        (loop_once true peer (message (prepare msg)) (run true new_session))))

module _ (peer : Peer) (msg : Prepare) (up : msg.direction ≡ direction_uplink) where
  module _ (compatible : (msg.family ==ℤ family_ipv6 && not peer.is_ipv6) ≡ false) where
    starting : Session
    unfolding prepared
    starting = record (prepared peer msg) { state = running; task = receiver_starting }

    starting_step : loop_once true peer (message start) (prepared peer msg) ≡ starting
    unfolding loop_once prepared starting transition
    starting_step = ground arith

    collecting_now : Session
    unfolding starting prepared
    collecting_now = record starting { state = collecting }

    collect_step : loop_once true peer (message send_complete) starting ≡ collecting_now
    unfolding loop_once starting prepared collecting_now transition
    collect_step = ground arith

    reported : Session
    unfolding collecting_now starting prepared
    reported = record collecting_now {
      state = completed;
      conn_open = false;
      out = result_response msg.packet_count (pos 0) ∷ (ready_response msg.udp_port ∷ []);
    }

    fetch_step : loop_once true peer (message fetch_result) collecting_now ≡ reported
    unfolding loop_once reported collecting_now starting prepared transition
    fetch_step = refl

    handled : after_messages peer msg ≡ reported
    handled = rw (prepare_step peer msg up compatible, starting_step, collect_step) fetch_step

    reported-Reach : Reach reported
    unfolding reported collecting_now starting prepared run transition
    reported-Reach =
        let first : Reach (prepared peer msg) = next (begin true) (
          round true peer (message (prepare msg)) refl refl
            (sym (prepare_step peer msg up compatible))) in
        let second : Reach starting =
          next first (round true peer (message start) refl refl (sym starting_step)) in
        let third : Reach collecting_now =
          next second (round true peer (message send_complete) refl refl (sym collect_step)) in
        next third (round true peer (message fetch_result) refl refl (sym fetch_step))

    report : List Response
    report = result_response msg.packet_count (pos 0) ∷ (ready_response msg.udp_port ∷ [])

    bound-IsUnstopped : IsUnstopped report (task_step true binds reported)
    unfolding task_step report reported collecting_now starting prepared
    bound-IsUnstopped = record {
      completes = refl;
      reports = refl;
      waits_not = λ e. ground (arith, e);
      untold = refl;
    }

    -- In an uplink test of a valid family, let the session handle all four messages of the client, on
    -- a connection that takes its responses, before the receiver's goroutine begins, and let the
    -- receiver's socket then be bound. The receiver listens with its quit channel open. Whatever steps
    -- of the session follow, the session is reachable and completed, its responses are the ready
    -- message and a result with no packet received, and the goroutine has ended or listens with its
    -- quit channel open: it is never told to quit.
    pub late_receiver :
        {t : Session}
        → After (task_step true binds (after_messages peer msg)) t
        → ((after_messages peer msg).task ≡ receiver_starting)
          × ((task_step true binds (after_messages peer msg)).task ≡ receiver_listening false 0)
          × Reach t
          × (t.state ≡ completed)
          × (t.out ≡ result_response msg.packet_count (pos 0) ∷ (ready_response msg.udp_port ∷ []))
          × (is_untold t.task ≡ true)
    unfolding report reported collecting_now starting prepared task_step
    late_receiver {t} steps =
        let steps : After (task_step true binds reported) t = rw handled at steps in
        let unstopped = After-IsUnstopped steps bound-IsUnstopped in
        rw handled (
          refl,
          refl,
          After-Reach steps (next reported-Reach (background true binds refl)),
          unstopped.completes,
          unstopped.reports,
          unstopped.untold,
        )
