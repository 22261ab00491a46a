-- ===== src/Control/Session/Uplink.antt =====
-- The course of an uplink test: the client prepares, starts, sends, says so and fetches the result.
use udp_measure.Prelude.{ℕ, zero, suc, true, false, not, ◌&&◌, some, [], ◌∷◌, arith, ◌≡◌, refl, sym}
use udp_measure.Prelude.Int.{pos, ◌==ℤ◌}
use udp_measure.Protocol.Types.{ready, running, completed, direction_uplink, family_ipv6}
use udp_measure.Protocol.StateMachine.{transition}
use udp_measure.Control.Session.{
  Session, Prepare, Peer, new_session, take_parameters, target_port, ready_response,
  result_response, no_task, receiver_listening, open_chan, closed_chan, awaiting, prepare, start,
  send_complete, fetch_result,
}
use udp_measure.Control.Session.Loop.{
  loop_once, task_step, resume, run, binds, records, stops, message, round, background, wake, Reach,
  begin, next,
}

module _ (peer : Peer) (msg : Prepare) where
  unfoldable pub prepared : Session
  prepared = record (take_parameters msg new_session) {
    state = ready;
    has_conn = true;
    target_address =
        some (record {
          bracketed = msg.family ==ℤ family_ipv6;
          host = peer.ip;
          port = target_port msg;
        });
    out = ready_response msg.udp_port ∷ [];
  }

  unfoldable pub listening : ℕ → Session
  unfolding prepared
  listening n = record prepared {
    state = running;
    has_quit = true;
    receiver_done = open_chan;
    has_receiver = true;
    task = receiver_listening false n;
  }

  unfoldable pub stopped : ℕ → Session
  unfolding prepared
  stopped n = record prepared {
    state = running;
    receiver_done = closed_chan;
    received_count = pos n;
    main = awaiting;
  }

  module _ (up : msg.direction ≡ direction_uplink) where
    module _ (compatible : (msg.family ==ℤ family_ipv6 && not peer.is_ipv6) ≡ false) where
      pub prepare_step :
          loop_once true peer (message (prepare msg)) (run true new_session) ≡ prepared
      unfolding loop_once run prepared transition
      prepare_step = ground arith

      start_step : task_step true binds (loop_once true peer (message start) prepared) ≡ listening 0
      unfolding loop_once task_step prepared listening transition
      start_step = ground arith

      -- The client's `send_complete`, the end of the receiver, and the message loop behind its wait.
      stop_step :
          (n : ℕ)
          → task_step true stops (loop_once true peer (message send_complete) (listening n))
            ≡ stopped n
      unfolding loop_once task_step prepared listening stopped transition
      stop_step n = ground arith

      listening-Reach : (n : ℕ) → Reach (listening n)
      unfolding listening prepared run transition task_step
      listening-Reach zero =
          let first : Reach prepared =
            next (begin true)
              (round true peer (message (prepare msg)) refl refl (sym prepare_step)) in
          next (next first (round true peer (message start) refl refl refl))
            (background true binds (sym start_step))
      listening-Reach (suc n) = next (listening-Reach n) (background true records refl)

      unfoldable pub collected : ℕ → Session
      unfolding resume stopped prepared transition
      collected n = resume true (stopped n)

      pub collected-Reach : (n : ℕ) → Reach (collected n)
      unfolding collected listening
      collected-Reach n =
          let quitting =
            next (listening-Reach n) (round true peer (message send_complete) refl refl refl) in
          let closed : Reach (stopped n) =
            next quitting (background true stops (sym (stop_step n))) in
          next closed (wake true refl refl refl)

      unfoldable pub ending : ℕ → Session
      unfolding loop_once collected
      ending n = loop_once true peer (message fetch_result) (collected n)

      pub ending-Reach : (n : ℕ) → Reach (ending n)
      unfolding ending
      ending-Reach n =
          next (collected-Reach n) (round true peer (message fetch_result) refl refl refl)

      -- An uplink test of a valid family comes to its end: for every number n of probes that the
      -- receiver records there is a run in which the session is completed, its goroutine has ended,
      -- and it has written the ready message with the port that was asked for and then the result
      -- with the packet count that was asked for as sent and n as received, and nothing else.
      pub uplink_completes :
          (n : ℕ)
          → (s : Session) × Reach s
            × (s.state ≡ completed)
            × (s.task ≡ no_task)
            × (s.out
                ≡ result_response msg.packet_count (pos n) ∷ (ready_response msg.udp_port ∷ []))
      unfolding ending
      uplink_completes n = (ending n, ending-Reach n, refl, refl, refl)
