-- ===== src/Control/Client/Against/Downlink.antt =====
-- A downlink test against a session.
use udp_measure.Prelude.{ℕ, arith, true, false, not, ◌&&◌, List, [], ◌∷◌, All, ok, ◌≡◌, refl, sym}
use udp_measure.Prelude.Int.{ℤ, pos, ◌==ℤ◌, ◌-ℤ◌, wrap64}
use udp_measure.Protocol.Types.{
  collecting, protocol_version, completed, direction_downlink, family_ipv6,
}
use udp_measure.Protocol.StateMachine.{transition}
use udp_measure.Control.Session.{
  ready_response, sent_response, result_response, Session, Peer, Prepare, new_session, hello,
  prepare, start, fetch_result, Message, Response,
}
use udp_measure.Control.Session.Loop.{
  begin, next, round, background, run, loop_once, task_step, message, send_ends, Reach,
}
use udp_measure.Control.Session.Uplink.{prepared}
use udp_measure.Control.Client.Calls.{
  hello_unsent, prepare_unsent, start_unsent, fetch_unsent, ready_missing, complete_missing,
  result_missing, World,
}
use udp_measure.Control.Client.{TestResult, TestParams, prepare_for, receiver_config, run_downlink}
use udp_measure.Control.Client.Against.{
  settle, nth, connected, against, >>=-runs, >>-runs, Joins, against-Joins, All-Anything,
  tell-joined, hear-joined, open_receiver-joined, begin_receiving-joined, matched_so_far-joined,
  hello-settles,
}

module _ (peer : Peer) (msg : Prepare) where
  -- All packets are sent.
  unfoldable collected : Session
  unfolding prepared
  collected = record (prepared peer msg) {
    state = collecting;
    sent_count = msg.packet_count;
    out = sent_response ∷ (ready_response msg.udp_port ∷ []);
  }

  unfoldable fetched : Session
  unfolding collected
  fetched = record collected {
    state = completed;
    conn_open = false;
    out =
        result_response msg.packet_count (pos 0)
        ∷ (sent_response ∷ (ready_response msg.udp_port ∷ []));
  }

  module _ (down : msg.direction ≡ direction_downlink)
      (compatible : (msg.family ==ℤ family_ipv6 && not peer.is_ipv6) ≡ false) where
    prepare_step :
        loop_once true peer (message (prepare msg)) (run true new_session) ≡ prepared peer msg
    unfolding loop_once run prepared transition
    prepare_step = ground arith

    start_step :
        task_step true send_ends (loop_once true peer (message start) (prepared peer msg))
        ≡ collected
    unfolding loop_once task_step prepared collected transition
    start_step = ground arith

    fetch_step : loop_once true peer (message fetch_result) collected ≡ fetched
    unfolding loop_once prepared collected fetched transition
    fetch_step = ground arith

    prepare-settles :
        settle (loop_once true peer (message (prepare msg)) (run true new_session))
        ≡ prepared peer msg
    unfolding settle prepared
    prepare-settles = rw prepare_step refl

    start-settles : settle (loop_once true peer (message start) (prepared peer msg)) ≡ collected
    unfolding settle loop_once task_step prepared collected transition
    start-settles = ground arith

    fetch-settles : settle (loop_once true peer (message fetch_result) collected) ≡ fetched
    unfolding settle fetched collected prepared
    fetch-settles = rw fetch_step refl

    fetched-Reach : Reach fetched
    unfolding prepared collected run transition task_step
    fetched-Reach =
        let first : Reach (prepared peer msg) =
          next (begin true)
            (round true peer (message (prepare msg)) refl refl (sym prepare_step)) in
        let started = next first (round true peer (message start) refl refl refl) in
        let sent : Reach collected = next started (background true send_ends (sym start_step)) in
        next sent (round true peer (message fetch_result) refl refl (sym fetch_step))

-- What the two ends send in a downlink test.
abbrev pub downlink_messages : TestParams → ℤ → List Message
downlink_messages p port =
    hello protocol_version ∷ prepare (prepare_for p port) ∷ start ∷ fetch_result ∷ []

-- The session counts no packets.
abbrev pub downlink_responses : TestParams → List Response
downlink_responses p =
    ready_response p.port ∷ sent_response ∷ result_response p.packet_count (pos 0) ∷ []

-- What the client returns.
abbrev pub downlink_result : TestParams → ℕ → TestResult
downlink_result p matched = record {
  direction = direction_downlink;
  sent = p.packet_count;
  received = pos matched;
  lost = wrap64 (p.packet_count -ℤ pos matched);
}

module _ {S : Type 0} {world : World S} {put : ℕ → Session → S} {peer : Peer} {arrived matched : ℕ}
    {port : ℤ} {IsSent : Message → Type 0} {IsHeard : Response → Type 0}
    (joins : Joins world put peer arrived matched port IsSent IsHeard) where
  module _ (p : TestParams) (down : p.direction ≡ direction_downlink)
      (compatible : (p.family ==ℤ family_ipv6 && not peer.is_ipv6) ≡ false)
      (sent : All IsSent (downlink_messages p port))
      (heard : All IsHeard (downlink_responses p)) where
    -- A downlink test in a world that joins the client with a session.
    pub downlink_joined :
        (s : Session) × Reach s
        × (s.state ≡ completed)
        × (run_downlink world p (put 0 (run true new_session))
            ≡ (put 3 s, ok (downlink_result p matched)))
    unfolding run_downlink prepared collected fetched nth run transition
    downlink_joined =
        let msg = prepare_for p port in
        let begun = run true new_session in
        let made = prepared peer msg in
        let over = collected peer msg in
        let last = fetched peer msg in
        (
          last,
          fetched-Reach peer msg down compatible,
          refl,
          >>-runs _ _ _
              (tell-joined joins (hello protocol_version) hello_unsent 0 begun sent.0 refl
                (hello-settles peer))
              (>>=-runs _ _ _ (open_receiver-joined joins (receiver_config p) 0 begun) (
                >>-runs _ _ _
                  (tell-joined joins (prepare msg) prepare_unsent 0 begun sent.1.0 refl
                    (prepare-settles peer msg down compatible))
                  (>>=-runs _ _ _
                    (hear-joined joins (ready_response p.port) ready_missing 0 made heard.0 refl)
                    (>>-runs _ _ _ {t = put 1 made} refl (
                      >>-runs _ _ _ (begin_receiving-joined joins 1 made) (
                        >>-runs _ _ _
                          (tell-joined joins start start_unsent 1 made sent.1.1.0 refl
                            (start-settles peer msg down compatible))
                          (>>=-runs _ _ _
                            (hear-joined joins sent_response complete_missing 1 over heard.1.0 refl)
                            (>>-runs _ _ _ {t = put 2 over} refl (
                              >>=-runs _ _ _ (matched_so_far-joined joins 2 over) (
                                >>-runs _ _ _
                                  (tell-joined joins fetch_result fetch_unsent 2 over sent.1.1.1.0
                                    refl (fetch-settles peer msg down compatible))
                                  (>>=-runs _ _ _
                                    (hear-joined joins (result_response p.packet_count (pos 0))
                                      result_missing 2 last heard.1.1.0 refl)
                                    (>>=-runs _ _ _ {t = put 3 last} {a = (p.packet_count, pos 0)}
                                      refl refl)))))))))))),
        )

module _ (peer : Peer) (p : TestParams) (arrived matched : ℕ) (port : ℤ) where
  module _ (down : p.direction ≡ direction_downlink)
      (compatible : (p.family ==ℤ family_ipv6 && not peer.is_ipv6) ≡ false) where
    -- A downlink test that does not ask for IPv6 over an IPv4 connection, against a session that
    -- has just begun, whose connection does not fail and whose goroutines run as soon as they can:
    -- it returns the packet count that was asked for as sent, the number of packets that the
    -- client's receiver had matched as received, and their difference in 64 bits as lost. The
    -- session is one that its steps reach, and it is completed.
    pub downlink_against :
        (s : Session) × Reach s
        × (s.state ≡ completed)
        × (run_downlink (against peer arrived matched port) p connected
            ≡ (record { session = s; heard = 3 }, ok (downlink_result p matched)))
    downlink_against =
        downlink_joined (against-Joins peer arrived matched port) p down compatible
          (All-Anything (downlink_messages p port)) (All-Anything (downlink_responses p))
