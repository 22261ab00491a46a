-- ===== src/Examples/Udp.antt =====
-- internal/udp at concrete inputs.
use udp_measure.Prelude.{
  ℕ, true, false, ◌&&◌, List, [], ◌∷◌, ◌++◌, All, replicate, Bytes, ◌≡◌, refl, Bool, not, ◌==◌,
  arith, ok, inl, codes, eq_bytes, none, some, show_int, false,
}
use udp_measure.Prelude.Int.{ℤ, pos}
use udp_measure.Udp.Sender.{SenderConfig, send}
use udp_measure.Udp.Sockets.{destination, new_sender, new_receiver_on}
use udp_measure.Udp.Sockets.Destinations.{
  plain_address, bracketed_address, target, destination-ipv4, destination-ipv6,
}
use udp_measure.Net.{behind}
use udp_measure.Config.Text.{contains}
use udp_measure.Control.Session.Addresses.{target_text, bind_address}
use udp_measure.Udp.Sender.Packets.{packet_at, send_lem}
use udp_measure.Udp.Sender.Arrival.{IsOneOf, IsSendable, AwaitsFrom, heard, arrival_counts}
use udp_measure.Protocol.Types.{direction_uplink, family_ipv4}
use udp_measure.Protocol.Header.{zero_header}
use udp_measure.Udp.Receiver.{
  ReceiverConfig, Receiver, Event, timed_out, quit, packet, new_receiver, receive, result,
}
use udp_measure.Udp.Receiver.Packets.{is_probe, is_expected, arrivals}
use udp_measure.Udp.Receiver.Counts.{result_counts}

abbrev waiting_for : ReceiverConfig
waiting_for = record {
  session_id = 7;
  test_id = 1;
  direction = direction_uplink;
  family = family_ipv4;
  receive_window = pos 1000;
}

-- Version 1, the given session, test 1, uplink, IPv4, and a sequence number of one byte.
abbrev probe_of : Bytes → Bytes → Bytes
probe_of session seq =
    1 ∷ replicate 3 0
    ++ (replicate 3 0
        ++ (session
            ++ (replicate 3 0
                ++ (1 ∷ replicate 8 0 ++ (replicate 1 0 ++ (seq ++ replicate 26 0))))))

abbrev events : List Event
events =
    packet (probe_of (7 ∷ []) (5 ∷ []))
    ∷ timed_out
    ∷ packet (1 ∷ 2 ∷ [])
    ∷ packet (probe_of (8 ∷ []) (6 ∷ []))
    ∷ quit
    ∷ []

two_probes : arrivals is_probe events ≡ 2
unfolding arrivals is_probe
two_probes = refl

one_match : arrivals (λ bytes. is_probe bytes && is_expected waiting_for bytes) events ≡ 1
unfolding arrivals is_probe is_expected
one_match = refl

result_counts_example :
    ((result (receive events (new_receiver waiting_for)).0).received ≡ arrivals is_probe events)
    × ((result (receive events (new_receiver waiting_for)).0).matched
        ≡ arrivals (λ bytes. is_probe bytes && is_expected waiting_for bytes) events)
result_counts_example = result_counts waiting_for events

abbrev three_heard : Receiver
three_heard = record {
  config = waiting_for;
  received =
      record { seq = 4; header = zero_header; matched = true }
      ∷ record { seq = 9; header = zero_header; matched = false }
      ∷ record { seq = 2; header = zero_header; matched = true }
      ∷ [];
}

abbrev heard_seqs : List ℕ
heard_seqs = 4 ∷ 2 ∷ []

abbrev sending : SenderConfig
sending = record {
  session_id = 7;
  test_id = 1;
  direction = direction_uplink;
  family = family_ipv4;
  udp_port = 9000;
  payload_size = 2;
  packet_count = pos 3;
  interval = pos 1000000;
}

abbrev clock : ℕ → ℤ
clock i = pos i

-- The third write fails.
abbrev two_taken : ℕ → Bool
two_taken i = not (i == 2)

sending-IsSendable : IsSendable sending
sending-IsSendable = record {
  session_id_u32 = omega arith;
  test_id_u32 = omega arith;
  udp_port_u16 = omega arith;
  payload_size_u16 = omega arith;
  one_direction = inl refl;
  known_family = inl refl;
}

waiting_for-AwaitsFrom : AwaitsFrom sending waiting_for
waiting_for-AwaitsFrom = record {
  same_session = refl;
  same_test = refl;
  same_direction = refl;
  same_family = refl;
}

abbrev out_of_order : List Bytes
out_of_order =
    packet_at sending (λ _. pos 5) 2
    ∷ packet_at sending (λ _. pos 5) 0
    ∷ packet_at sending (λ _. pos 5) 2
    ∷ []

all_sent : send (λ _. pos 5) (λ _. true) true (pos 0) sending ≡ (
  packet_at sending (λ _. pos 5) 0
      ∷ packet_at sending (λ _. pos 5) 1
      ∷ packet_at sending (λ _. pos 5) 2
      ∷ [],
  ok (record { sent = pos 3; sequence_start = 0; sequence_end = 2 }),
)
all_sent = send_lem sending (λ _. pos 5) (λ _. true) (pos 0) 3 refl

out_of_order_sent :
    All (IsOneOf (send (λ _. pos 5) (λ _. true) true (pos 0) sending).0) out_of_order
out_of_order_sent = rw all_sent ((2, refl), ((0, refl), ((2, refl), tt)))

arrival_counts_example :
    (let end = (receive (heard out_of_order) (new_receiver waiting_for)).0 in
      ((result end).received ≡ 3) × ((result end).matched ≡ 3))
arrival_counts_example =
    arrival_counts sending waiting_for (λ _. pos 5) sending-IsSendable waiting_for-AwaitsFrom
      (λ i. omega arith) (λ _. true) (pos 0) 3 out_of_order refl out_of_order_sent

abbrev probing : SenderConfig
probing = record {
  session_id = 0;
  test_id = 0;
  direction = direction_uplink;
  family = family_ipv4;
  udp_port = 9000;
  payload_size = 100;
  packet_count = pos 1;
  interval = pos 1;
}

destination-ipv4_example :
    (destination probing (codes "192.0.2.1") ≡ plain_address (codes "192.0.2.1") 9000)
    × (destination probing (target_text (target false (codes "192.0.2.1") 5000))
        ≡ plain_address (codes "192.0.2.1") 5000)
unfolding contains
destination-ipv4_example = destination-ipv4 probing (codes "192.0.2.1") 5000 (refl, refl) refl

destination-ipv6_example :
    (destination probing (codes "2001:db8::1") ≡ bracketed_address (codes "2001:db8::1") 9000)
    × (destination probing (target_text (target true (codes "2001:db8::1") 5000))
        ≡ bracketed_address (codes "2001:db8::1") 5000)
    × (destination probing (target_text (target false (codes "2001:db8::1") 5000))
        ≡ bracketed_address (plain_address (codes "2001:db8::1") 5000) 9000)
unfolding contains behind
destination-ipv6_example =
    destination-ipv6 probing (codes "2001:db8::1") 5000 (refl, refl) (codes "db8::1") refl refl

refused_socket : new_sender (λ _ _. false) probing ≡ none
unfolding new_sender
refused_socket = refl

bound : bind_address family_ipv4 (pos 9000) ≡ codes "0.0.0.0:9000"
unfolding bind_address show_int
bound = refl

receiver_opened :
    new_receiver_on (λ network _. eq_bytes network (codes "udp4")) waiting_for (codes ":0")
    ≡ some (new_receiver waiting_for)
unfolding new_receiver_on
receiver_opened = refl
