-- ===== src/Udp/Receiver/Counts.antt =====
-- The counts of `Result`: the packets that count, of all that reach the receiver.
use mathlib.Core.Path.{ap₂}
use udp_measure.Prelude.{
  ℕ, ◌+◌, ◌≤◌, ◌<◌, arith, Bool, true, false, ◌&&◌, Option, none, some, List, [], ◌∷◌, ◌++◌, length,
  length-append, take, length-take, Bytes, leb, ltb, if◌then◌else◌, ◌≡◌, inl, inr, refl, ◌∙◌, ap,
  Bool-cases, append_assoc, append-nil,
}
use udp_measure.Protocol.Header.{
  HeaderError, zero_header, probe_header_size, unmarshal_binary, validate,
}
use udp_measure.Udp.Receiver.{
  ReceiverConfig, ReceivedPacket, Receiver, new_receiver, matches_expected, keep, hear, Event, quit,
  window_over, timed_out, read_fails, packet, receive, count_packets, result_of, result,
}
use udp_measure.Udp.Receiver.Packets.{
  is_probe, is_expected, arrivals, header, passes, validate-header, matches_header,
}

abbrev pub matched_seqs : List ReceivedPacket → List ℕ
matched_seqs [] = []
matched_seqs (p ∷ ps) = let rest = matched_seqs ps in if p.matched then p.seq ∷ rest else rest

matched_seqs-append :
    (ps qs : List ReceivedPacket) → matched_seqs (ps ++ qs) ≡ matched_seqs ps ++ matched_seqs qs
matched_seqs-append [] qs = refl
matched_seqs-append (p ∷ ps) qs = ground (arith, matched_seqs-append ps qs)

count_packets_lem :
    (n m : ℕ) (seqs : List ℕ) (ps : List ReceivedPacket)
    → count_packets n m seqs ps
      ≡ (n + length ps, m + length (matched_seqs ps), seqs ++ matched_seqs ps)
unfolding count_packets
count_packets_lem n m seqs [] = ground (arith, append-nil seqs)
count_packets_lem n m seqs (p ∷ ps) = ground (
  arith,
  count_packets_lem (n + 1) m seqs ps,
  count_packets_lem (n + 1) (m + 1) (seqs ++ p.seq ∷ []) ps,
  append_assoc seqs (p.seq ∷ []) (matched_seqs ps),
)

abbrev packet_after : Bytes → Bool → ReceivedPacket
packet_after bytes matched = record {
  seq = (header bytes).sequence;
  header = header bytes;
  matched = matched;
}

abbrev with_packet : Bytes → Bool → Receiver → Receiver
with_packet bytes matched r = record r { received = r.received ++ packet_after bytes matched ∷ [] }

after_validate :
    (v : Option HeaderError) (r t : Receiver)
    → elim v [ some _ ↦ r | none ↦ t ] ≡ (if passes v then t else r)
after_validate (some e) r t = refl
after_validate none r t = refl

hear_short : (bytes : Bytes) (r : Receiver) → length bytes < 48 → hear bytes r ≡ r
unfolding hear
hear_short bytes r h = ground arith

unmarshal_long :
    (bytes : Bytes)
    → 48 ≤ length bytes
    → unmarshal_binary zero_header (take probe_header_size bytes) ≡ (header bytes, none)
unfolding unmarshal_binary
unmarshal_long bytes h =
    let cut : ltb (length (take 48 bytes)) 48 ≡ false = ground (arith, length-take 48 bytes) in
    rw cut

hear_long :
    (bytes : Bytes) (r : Receiver)
    → 48 ≤ length bytes
    → hear bytes r ≡ (
        if passes (validate (header bytes))
        then with_packet bytes (matches_expected r.config (header bytes)) r
        else r)
unfolding hear keep
hear_long bytes r h =
    let big : ltb (length bytes) 48 ≡ false = ground arith in
    rw big (
      ap (keep r) (unmarshal_long bytes h)
      ∙ after_validate (validate (header bytes)) r
          (with_packet bytes (matches_expected r.config (header bytes)) r))

-- One round: a packet is recorded if it is a probe.
hear_lem :
    (bytes : Bytes) (r : Receiver)
    → hear bytes r
      ≡ (if is_probe bytes then with_packet bytes (is_expected r.config bytes) r else r)
hear_lem bytes r = elim (Bool-cases (leb 48 (length bytes))) [
  | inl big ↦
      let valid : passes (validate (header bytes)) ≡ is_probe bytes =
        ground (arith, big, validate-header bytes) in
      hear_long bytes r (ground (arith, big)) ∙ rw (valid, matches_header r.config bytes)
  | inr small ↦
      let invalid : is_probe bytes ≡ false = ground (arith, small, validate-header bytes) in
      hear_short bytes r (ground (arith, small)) ∙ rw invalid
]

matched-with_packet :
    (bytes : Bytes) (matched : Bool) (r : Receiver)
    → length (matched_seqs (with_packet bytes matched r).received)
      ≡ length (matched_seqs r.received) + (if matched then 1 else 0)
matched-with_packet bytes true r = rw (matched_seqs-append, length-append {0}) refl
matched-with_packet bytes false r = rw (matched_seqs-append, length-append {0}) refl

module _ (bytes : Bytes) (r : Receiver) where
  hear-config : (hear bytes r).config ≡ r.config
  hear-config = rw hear_lem (ground arith)

  hear-length :
      length (hear bytes r).received ≡ length r.received + (if is_probe bytes then 1 else 0)
  hear-length = rw (hear_lem bytes r) (
      ground (
        arith,
        length-append {0} r.received (packet_after bytes (is_expected r.config bytes) ∷ []),
      ))

  hear-matched :
      length (matched_seqs (hear bytes r).received)
      ≡ length (matched_seqs r.received)
        + (if is_probe bytes && is_expected r.config bytes then 1 else 0)
  hear-matched =
      rw (hear_lem bytes r)
        (ground (arith, matched-with_packet bytes (is_expected r.config bytes) r))

-- What `Receive` adds to a receiver.
receive_lem :
    (c : ReceiverConfig) (events : List Event) (r : Receiver)
    → r.config ≡ c
    → (length (receive events r).0.received ≡ length r.received + arrivals is_probe events)
      × (length (matched_seqs (receive events r).0.received)
          ≡ length (matched_seqs r.received)
            + arrivals (λ bytes. is_probe bytes && is_expected c bytes) events)
unfolding receive arrivals
receive_lem c [] r e = (omega arith, omega arith)
receive_lem c (quit ∷ _) r e = (omega arith, omega arith)
receive_lem c (window_over ∷ events) r e = receive_lem c events r e
receive_lem c (timed_out ∷ events) r e = receive_lem c events r e
receive_lem c (read_fails ∷ _) r e = (omega arith, omega arith)
receive_lem c (packet bytes ∷ events) r e =
    let (all, mine) = receive_lem c events (hear bytes r) (hear-config bytes r ∙ e) in
    (ground (arith, all, hear-length bytes r), ground (arith, mine, rw e at (hear-matched bytes r)))

result_of_counts :
    (n m : ℕ) (seqs : List ℕ)
    → ((result_of n m seqs).received ≡ n) × ((result_of n m seqs).matched ≡ m)
unfolding result_of
result_of_counts n m [] = (refl, refl)
result_of_counts n m (s ∷ seqs) = (refl, refl)

pub result_lem :
    (r : Receiver)
    → result r
      ≡ result_of (length r.received) (length (matched_seqs r.received)) (matched_seqs r.received)
unfolding result
result_lem r =
    rw count_packets_lem
      (ap₂ (λ n m. result_of n m (matched_seqs r.received)) (omega arith) (omega arith))

-- Of whatever a new receiver meets, its result counts as received the packets that are probes, by
-- their length, version, direction and family, and as matched those of them that belong to the
-- session, test, direction and family it waits for, as far as they arrive before `Receive` returns.
pub result_counts :
    (c : ReceiverConfig) (events : List Event)
    → ((result (receive events (new_receiver c)).0).received ≡ arrivals is_probe events)
      × ((result (receive events (new_receiver c)).0).matched
          ≡ arrivals (λ bytes. is_probe bytes && is_expected c bytes) events)
result_counts c events =
    let end = (receive events (new_receiver c)).0 in
    let (received, matched) =
      result_of_counts (length end.received) (length (matched_seqs end.received))
        (matched_seqs end.received) in
    let (all, mine) = receive_lem c events (new_receiver c) refl in
    rw (result_lem end, received, matched) (omega (arith, all), omega (arith, mine))
