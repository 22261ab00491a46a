-- ===== src/Control/Wire/Dialogue.antt =====
-- The client's dialogue with a session over the bytes that both write to the connection.
use mathlib.Core.List.{reverse}
use udp_measure.Prelude.{
  ℕ, zero, suc, arith, Bool, true, false, not, ◌&&◌, Option, none, some, List, [], ◌∷◌, ◌++◌, drop,
  append-nil, Bytes, All, Outcome, ok, err, ◌≡◌, refl, if◌then◌else◌,
}
use udp_measure.Prelude.Int.{ℤ, ◌==ℤ◌}
use udp_measure.Protocol.Types.{direction_uplink, family_ipv6, completed}
use udp_measure.Protocol.Envelope.{Json}
use udp_measure.Protocol.Envelope.RoundTrip.{IsLawful}
use udp_measure.Control.Frame.{Arrival}
use udp_measure.Control.Session.{Session, Message, Response, Fault, Peer, new_session}
use udp_measure.Control.Session.Loop.{Input, Reach, run, loop_once, message}
use udp_measure.Control.Client.{TestParams, run_uplink}
use udp_measure.Control.Client.Calls.{World, Reply, RecvError, response, sent_all}
use udp_measure.Control.Client.Against.{settle, record_all, nth, Joins}
use udp_measure.Control.Client.Against.Uplink.{
  uplink_messages, uplink_responses, uplink_result, uplink_joined,
}
use udp_measure.Control.Wire.{
  segments, write_request, read_input, write_response, read_reply, reply_to,
}
use udp_measure.Control.Wire.Received.{
  IsSendable, IsAnswerable, read_input-write_request, read_reply-write_response,
}

-- A connection with its session: `heard` responses of the session have been read, and `to_server` is
-- what the session has not read.
pub record Link : Type 0 where
  pub session : Session
  pub heard : ℕ
  pub to_server : List Arrival

-- All is read but the responses behind the first `n`.
abbrev pub linked : ℕ → Session → Link
linked n s = record { session = s; heard = n; to_server = [] }

-- One round of the loop, on what it has read; a round that would panic leaves the session.
unfoldable pub round_on : Peer → Option Input → Session → Session
round_on peer none s = s
round_on peer (some i) s = settle (loop_once true peer i s)

drop-nth :
    (rs : List Response) (n : ℕ) (r : Response)
    → nth rs n ≡ some r
    → drop n rs ≡ r ∷ drop (suc n) rs
unfolding nth
drop-nth [] n r e = absurd (ground arith)
drop-nth (x ∷ rs) zero r e = ground (arith, e)
drop-nth (x ∷ rs) (suc n) r e = drop-nth rs n r e

module _ (json : Json) (client_id session_id : Bytes) (loss_rate : ℤ → ℤ → json.Float)
    (library : Fault → Bytes) (peer : Peer) (arrived matched : ℕ) (port : ℤ) where
  -- What arrives at the client of these responses.
  unfoldable pub arrivals_of : List Response → List Arrival
  arrivals_of [] = []
  arrivals_of (r ∷ rs) =
      segments (write_response json loss_rate library session_id r).0 ++ arrivals_of rs

  unfoldable pub tell_session : Message → Link → Link × Bool
  tell_session m j =
      let (pieces, written) = write_request json client_id m in
      let (rest, input) = read_input json (j.to_server ++ segments pieces) in
      if written && j.session.conn_open
      then (record j { session = round_on peer input j.session; to_server = rest }, true)
      else (j, false)

  abbrev heard_if : Link → Outcome RecvError Reply → Link × Outcome RecvError Reply
  heard_if j (ok reply) = (record j { heard = suc j.heard }, ok reply)
  heard_if j (err e) = (j, err e)

  unfoldable pub hear_session : Link → Link × Outcome RecvError Reply
  unfolding arrivals_of
  hear_session j =
      heard_if j (read_reply json (arrivals_of (drop j.heard (reverse j.session.out)))).1

  -- The world of `Against`, but for the connection, which carries bytes.
  abbrev pub over_wire : World Link
  over_wire = record {
    write_msg = tell_session;
    recv_response = hear_session;
    send_to = λ _ _ j. (record j { session = record_all arrived j.session }, sent_all);
    listen = λ _ j. (j, ok port);
    start_receiver = λ j. j;
    matched = λ _. matched;
    reconnect = λ _. (linked 0 (run true new_session), true);
  }

  module _ (lawful : IsLawful json) where
    tell_session-linked :
        (m : Message) (n : ℕ) (s : Session)
        → IsSendable json lawful client_id m
        → s.conn_open ≡ true
        → tell_session m (linked n s)
          ≡ (linked n (settle (loop_once true peer (message m) s)), true)
    unfolding tell_session round_on
    tell_session-linked m n s c connection =
        let (sent, got) = read_input-write_request json lawful client_id m [] c in
        let got_alone = rw (append-nil (segments (write_request json client_id m).0)) at got in
        rw (sent, connection, got_alone) refl

    -- A response that the client takes as it was written.
    abbrev pub IsKnown : Response → Type 0
    IsKnown r = (reply_to r ≡ response r) × IsAnswerable json lawful loss_rate library session_id r

    hear_session-linked :
        (r : Response) (n : ℕ) (s : Session)
        → IsKnown r
        → nth (reverse s.out) n ≡ some r
        → hear_session (linked n s) ≡ (linked (suc n) s, ok (response r))
    unfolding hear_session arrivals_of
    hear_session-linked r n s (known, c) e =
        let rs = reverse s.out in
        let left = arrivals_of (drop (suc n) rs) in
        let (_, got) =
          read_reply-write_response json lawful loss_rate library session_id r left c in
        rw (drop-nth rs n r e, got, known) refl

    pub over_wire-Joins :
        Joins over_wire linked peer arrived matched port (IsSendable json lawful client_id) IsKnown
    over_wire-Joins = record {
      told = tell_session-linked;
      heard = hear_session-linked;
      probes_sent = λ target c n s. refl;
      receiver_opened = λ c n s. refl;
      receiver_started = λ n s. refl;
      receiver_matched = λ n s. refl;
    }

    module _ (p : TestParams)
        (compatible : (p.family ==ℤ family_ipv6 && not peer.is_ipv6) ≡ false) where
      -- An uplink test that does not ask for IPv6 over an IPv4 connection, over the bytes that the
      -- client and a session that has just begun write, each piece of which arrives in one segment
      -- on a connection that does not fail: if the messages of the dialogue can be encoded, in 1 to
      -- 1048576 bytes, and hold UTF-8, each end reads what the other has written, and nothing of it
      -- is left. The test returns the packet count that was asked for as sent, the packets that
      -- reached the server as received, and their difference in 64 bits as lost. The session's
      -- goroutines run as soon as they can; it is one that its steps reach, and it is completed.
      pub uplink_over_wire :
          p.direction ≡ direction_uplink
          → All (IsSendable json lawful client_id) (uplink_messages p)
          → All (IsAnswerable json lawful loss_rate library session_id) (uplink_responses p arrived)
          → (s : Session) × Reach s
            × (s.state ≡ completed)
            × (run_uplink over_wire p (linked 0 (run true new_session))
                ≡ (linked 2 s, ok (uplink_result p arrived)))
      uplink_over_wire up sent (r0, (r1, _)) =
          uplink_joined over_wire-Joins p up compatible sent ((refl, r0), ((refl, r1), tt))
