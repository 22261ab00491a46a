-- ===== src/Control/Client/Against/Both.antt =====
-- A test in both directions against two sessions, the second one on a new connection.
use udp_measure.Prelude.{ℕ, false, not, ◌&&◌, [], ◌∷◌, ok, ◌≡◌, refl, ap}
use udp_measure.Prelude.Int.{ℤ, pos, ◌==ℤ◌, ◌-ℤ◌, wrap64}
use udp_measure.Protocol.Types.{direction_uplink, direction_downlink, family_ipv6}
use udp_measure.Control.Session.{Peer}
use udp_measure.Control.Client.{TestParams, run_both}
use udp_measure.Control.Client.Against.{connected, against, >>=-runs, >>-runs}
use udp_measure.Control.Client.Against.Uplink.{uplink_against}
use udp_measure.Control.Client.Against.Downlink.{downlink_against}

module _ (peer : Peer) (p : TestParams) (arrived matched : ℕ) (port : ℤ) where
  -- A test in both directions that does not ask for IPv6 over an IPv4 connection, against sessions
  -- that have just begun, whose connections do not fail and whose goroutines run as soon as they
  -- can: it returns two results, first the uplink with the packets that reached the server, then
  -- the downlink with those that the client's receiver had matched; each has the packet count that
  -- was asked for as sent, and the difference in 64 bits as lost.
  pub both_against :
      (p.family ==ℤ family_ipv6 && not peer.is_ipv6) ≡ false
      → (run_both (against peer arrived matched port) p connected).1
        ≡ ok (
            record {
              direction = direction_uplink;
              sent = p.packet_count;
              received = pos arrived;
              lost = wrap64 (p.packet_count -ℤ pos arrived);
            }
            ∷ record {
              direction = direction_downlink;
              sent = p.packet_count;
              received = pos matched;
              lost = wrap64 (p.packet_count -ℤ pos matched);
            }
            ∷ [])
  unfolding run_both
  both_against compatible =
      let up = record p { direction = direction_uplink } in
      let down = record p { direction = direction_downlink } in
      let (s, _, _, first) = uplink_against peer up arrived matched port refl compatible in
      let (t, _, _, second) = downlink_against peer down arrived matched port refl compatible in
      ap (λ r. r.1) (>>=-runs _ _ _ first (>>-runs _ _ _ refl (>>=-runs _ _ _ second refl)))
