-- ===== src/Control/Client/Against/Uplink.antt =====
-- An uplink test against a session.
use udp_measure.Prelude.{
  ℕ, zero, suc, arith, true, false, not, ◌&&◌, List, [], ◌∷◌, All, ok, ◌≡◌, refl,
}
use udp_measure.Prelude.Int.{ℤ, pos, ◌==ℤ◌, ◌-ℤ◌, wrap64}
use udp_measure.Protocol.Types.{protocol_version, completed, direction_uplink, family_ipv6}
use udp_measure.Protocol.StateMachine.{transition}
use udp_measure.Control.Session.{
  ready_response, result_response, Session, Peer, Prepare, new_session, hello, prepare, start,
  send_complete, fetch_result, Message, Response,
}
use udp_measure.Control.Session.Loop.{run, loop_once, task_step, resume, message, Reach}
use udp_measure.Control.Session.Uplink.{
  prepare_step, prepared, listening, stopped, ending, ending-Reach,
}
use udp_measure.Control.Client.Calls.{
  hello_unsent, prepare_unsent, start_unsent, complete_unsent, fetch_unsent, ready_missing,
  result_missing, World,
}
use udp_measure.Control.Client.{
  TestResult, TestParams, prepare_for, target_of, sender_config, run_uplink,
}
use udp_measure.Control.Client.Against.{
  settle, record_all, nth, connected, against, >>=-runs, >>-runs, Joins, against-Joins,
  All-Anything, tell-joined, hear-joined, send_probes-joined, hello-settles,
}

-- How the session takes each message of an uplink test, and the packets between them.
module _ (peer : Peer) (msg : Prepare) where
  module _ (up : msg.direction ≡ direction_uplink)
      (compatible : (msg.family ==ℤ family_ipv6 && not peer.is_ipv6) ≡ false) where
    prepare-settles :
        settle (loop_once true peer (message (prepare msg)) (run true new_session))
        ≡ prepared peer msg
    unfolding settle prepared
    prepare-settles = rw (prepare_step peer msg up compatible) refl

    start-settles :
        settle (loop_once true peer (message start) (prepared peer msg)) ≡ listening peer msg 0
    unfolding settle loop_once task_step prepared listening transition
    start-settles = ground arith

    arrived-listening : (n : ℕ) → record_all n (listening peer msg 0) ≡ listening peer msg n
    unfolding record_all listening
    arrived-listening zero = refl
    arrived-listening (suc n) = rw (arrived-listening n) refl

    complete-settles :
        (n : ℕ)
        → settle (loop_once true peer (message send_complete) (listening peer msg n))
          ≡ resume true (stopped peer msg n)
    unfolding settle loop_once task_step prepared listening stopped transition
    complete-settles n = ground arith

    fetch-settles :
        (n : ℕ)
        → settle (loop_once true peer (message fetch_result) (resume true (stopped peer msg n)))
          ≡ ending peer msg up compatible n
    unfolding settle loop_once resume prepared stopped ending transition
    fetch-settles n = refl

-- What the two ends send in an uplink test.
abbrev pub uplink_messages : TestParams → List Message
uplink_messages p =
    hello protocol_version
    ∷ prepare (prepare_for p (pos 0))
    ∷ start
    ∷ send_complete
    ∷ fetch_result
    ∷ []

abbrev pub uplink_responses : TestParams → ℕ → List Response
uplink_responses p arrived =
    ready_response p.port ∷ result_response p.packet_count (pos arrived) ∷ []

-- What the client returns.
abbrev pub uplink_result : TestParams → ℕ → TestResult
uplink_result p arrived = record {
  direction = direction_uplink;
  sent = p.packet_count;
  received = pos arrived;
  lost = wrap64 (p.packet_count -ℤ pos arrived);
}

module _ {S : Type 0} {world : World S} {put : ℕ → Session → S} {peer : Peer} {arrived matched : ℕ}
    {port : ℤ} {IsSent : Message → Type 0} {IsHeard : Response → Type 0}
    (joins : Joins world put peer arrived matched port IsSent IsHeard) where
  module _ (p : TestParams) (up : p.direction ≡ direction_uplink)
      (compatible : (p.family ==ℤ family_ipv6 && not peer.is_ipv6) ≡ false)
      (sent : All IsSent (uplink_messages p))
      (heard : All IsHeard (uplink_responses p arrived)) where
    -- An uplink test in a world that joins the client with a session.
    pub uplink_joined :
        (s : Session) × Reach s
        × (s.state ≡ completed)
        × (run_uplink world p (put 0 (run true new_session))
            ≡ (put 2 s, ok (uplink_result p arrived)))
    unfolding run_uplink prepared listening stopped ending nth loop_once resume run transition
    uplink_joined =
        let msg = prepare_for p (pos 0) in
        let begun = run true new_session in
        let made = prepared peer msg in
        let counted = listening peer msg arrived in
        let collecting = resume true (stopped peer msg arrived) in
        let last = ending peer msg up compatible arrived in
        (
          last,
          ending-Reach peer msg up compatible arrived,
          refl,
          >>-runs _ _ _
              (tell-joined joins (hello protocol_version) hello_unsent 0 begun sent.0 refl
                (hello-settles peer))
              (>>-runs _ _ _
                (tell-joined joins (prepare msg) prepare_unsent 0 begun sent.1.0 refl
                  (prepare-settles peer msg up compatible))
                (>>=-runs _ _ _
                  (hear-joined joins (ready_response p.port) ready_missing 0 made heard.0 refl)
                  (>>-runs _ _ _ {t = put 1 made} refl (
                    >>-runs _ _ _
                      (tell-joined joins start start_unsent 1 made sent.1.1.0 refl
                        (start-settles peer msg up compatible))
                      (>>-runs _ _ _
                        (send_probes-joined joins (target_of p) (sender_config p) 1
                          (listening peer msg 0) (arrived-listening peer msg up compatible arrived))
                        (>>-runs _ _ _
                          (tell-joined joins send_complete complete_unsent 1 counted sent.1.1.1.0
                            refl (complete-settles peer msg up compatible arrived))
                          (>>-runs _ _ _
                            (tell-joined joins fetch_result fetch_unsent 1 collecting sent.1.1.1.1.0
                              refl (fetch-settles peer msg up compatible arrived))
                            (>>=-runs _ _ _
                              (hear-joined joins (result_response p.packet_count (pos arrived))
                                result_missing 1 last heard.1.0 refl)
                              (>>=-runs _ _ _ {t = put 2 last} {a = (p.packet_count, pos arrived)}
                                refl refl))))))))),
        )

module _ (peer : Peer) (p : TestParams) (arrived matched : ℕ) (port : ℤ) where
  module _ (up : p.direction ≡ direction_uplink)
      (compatible : (p.family ==ℤ family_ipv6 && not peer.is_ipv6) ≡ false) where
    -- An uplink test that does not ask for IPv6 over an IPv4 connection, against a session that
    -- has just begun, whose connection does not fail and whose goroutines run as soon as they can: it
    -- returns the packet count that was asked for as sent, the number of packets that reached the
    -- server as received, and their difference in 64 bits as lost. The session is one that its
    -- steps reach, and it is completed.
    pub uplink_against :
        (s : Session) × Reach s
        × (s.state ≡ completed)
        × (run_uplink (against peer arrived matched port) p connected
            ≡ (record { session = s; heard = 2 }, ok (uplink_result p arrived)))
    uplink_against =
        uplink_joined (against-Joins peer arrived matched port) p up compatible
          (All-Anything (uplink_messages p)) (All-Anything (uplink_responses p arrived))
