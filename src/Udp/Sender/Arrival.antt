-- ===== src/Udp/Sender/Arrival.antt =====
-- The packets of a sender at a receiver that waits for them.
use udp_measure.Prelude.{
  ℕ, zero, suc, ◌%◌, ◌^◌, ◌<◌, arith, Bool, true, ◌&&◌, some, none, List, [], ◌∷◌, ◌++◌, length,
  length-append, get_elem?, take, take-append, replicate, All, Bytes, leb, ◌≡◌, ◌⊎◌, inl, inr, refl,
  ap, sym, ◌∙◌, Bool-cases, append-nil,
}
use mathlib.Core.Path.{subst, ap₂}
use udp_measure.Prelude.Int.{ℤ, pos, IsInt64}
use udp_measure.Protocol.Header.{
  ProbeHeader, InRange, encode_header, decode_header, validate, set_from_params,
}
use udp_measure.Protocol.Header.RoundTrip.{length-encode_header, decode-encode_header}
use udp_measure.Udp.Receiver.{
  ReceiverConfig, Event, packet, quit, new_receiver, matches_expected, receive, result,
}
use udp_measure.Udp.Receiver.Packets.{
  is_probe, is_expected, arrivals, header, passes, validate-header, matches_header,
}
use udp_measure.Udp.Receiver.Counts.{result_counts}
use udp_measure.Udp.Sender.{SenderConfig, header_at, send}
use udp_measure.Udp.Sender.Packets.{packet_at, written, send_lem}

-- The values that the Go types of the fields can hold, with one direction and a known family.
pub record IsSendable (c : SenderConfig) : Type 0 where
  pub session_id_u32 : c.session_id < 2 ^ 32
  pub test_id_u32 : c.test_id < 2 ^ 32
  pub udp_port_u16 : c.udp_port < 2 ^ 16
  pub payload_size_u16 : c.payload_size < 2 ^ 16
  pub one_direction : (c.direction ≡ pos 0) ⊎ (c.direction ≡ pos 1)
  pub known_family : (c.family ≡ pos 0) ⊎ (c.family ≡ pos 1)

-- A receiver that waits for the probes of this sender.
pub record AwaitsFrom (c : SenderConfig) (rc : ReceiverConfig) : Type 0 where
  pub same_session : rc.session_id ≡ c.session_id
  pub same_test : rc.test_id ≡ c.test_id
  pub same_direction : rc.direction ≡ c.direction
  pub same_family : rc.family ≡ c.family

-- The header of a packet that begins with an encoded header.
header-encode_header :
    (h : ProbeHeader) (pad : Bytes) → InRange h → header (encode_header h ++ pad) ≡ h
header-encode_header h pad r =
    ap decode_header (
      subst (λ n. take n (encode_header h ++ pad) ≡ encode_header h) (length-encode_header h)
        (take-append (encode_header h) pad)
      ∙ sym (append-nil (encode_header h)))
    ∙ decode-encode_header h [] r

-- Packets one after the other, and then the end.
abbrev pub heard : List Bytes → List Event
heard [] = quit ∷ []
heard (p ∷ ps) = packet p ∷ heard ps

All-counted :
    (f : Bytes → Bool) (ps : List Bytes)
    → All (λ p. f p ≡ true) ps
    → arrivals f (heard ps) ≡ length ps
unfolding arrivals
All-counted f [] h = refl
All-counted f (p ∷ ps) (e, h) = rw e (ap suc (All-counted f ps h))

-- p is one of the packets.
abbrev pub IsOneOf : List Bytes → Bytes → Type 0
IsOneOf ps p = (i : ℕ) × (get_elem? ps i ≡ some p)

some_eq : (p q : Bytes) → some q ≡ some p → p ≡ q
some_eq p q e = cc

module _ (c : SenderConfig) (rc : ReceiverConfig) (now : ℕ → ℤ) where
  module _ (ok_c : IsSendable c) (waits : AwaitsFrom c rc)
      (ok_now : (i : ℕ) → IsInt64 (now i)) where
    header_at-InRange : (i : ℕ) → InRange (header_at c (i % 2 ^ 32) (now i))
    unfolding set_from_params
    header_at-InRange i = record {
      version_u8 = omega arith;
      session_id_u32 = ok_c.session_id_u32;
      test_id_u32 = ok_c.test_id_u32;
      direction_u8 = ground (arith, ok_c);
      family_u8 = ground (arith, ok_c);
      udp_port_u16 = ok_c.udp_port_u16;
      payload_size_u16 = ok_c.payload_size_u16;
      sequence_u32 = omega arith;
      send_unix_nano_i64 = ok_now i;
    }

    valid : (i : ℕ) → validate (header_at c (i % 2 ^ 32) (now i)) ≡ none
    unfolding set_from_params validate
    valid i = ground (arith, ok_c)

    matches : (i : ℕ) → matches_expected rc (header_at c (i % 2 ^ 32) (now i)) ≡ true
    unfolding set_from_params matches_expected
    matches i = ground (arith, waits)

    packet_at-is_probe : (i : ℕ) → is_probe (packet_at c now i) ≡ true
    packet_at-is_probe i =
        let h = header_at c (i % 2 ^ 32) (now i) in
        let big : leb 48 (length (packet_at c now i)) ≡ true = ground (
          arith,
          length-append {0} (encode_header h) (replicate c.payload_size 0),
          length-encode_header h,
        ) in
        sym (validate-header (packet_at c now i))
        ∙ ap₂ ◌&&◌ big (
            ap (λ h. passes (validate h))
              (header-encode_header h (replicate c.payload_size 0) (header_at-InRange i))
            ∙ ap passes (valid i))

    packet_at-is_expected : (i : ℕ) → is_expected rc (packet_at c now i) ≡ true
    packet_at-is_expected i =
        sym (matches_header rc (packet_at c now i))
        ∙ ap (matches_expected rc) (
            header-encode_header (header_at c (i % 2 ^ 32) (now i)) (replicate c.payload_size 0)
              (header_at-InRange i))
        ∙ matches i

    -- One of the packets that are written has a number.
    written_at :
        (takes : ℕ → Bool) (n k : ℕ) (p : Bytes)
        → IsOneOf (written c now takes n k) p
        → (j : ℕ) × (p ≡ packet_at c now j)
    written_at takes zero k p (i, e) = absurd (ground (arith, e))
    written_at takes (suc n) k p (zero, e) = elim (Bool-cases (takes k)) [
      | inl t ↦
          let e' : some (packet_at c now k) ≡ some p = rw t at e in
          (k, some_eq p (packet_at c now k) e')
      | inr t ↦ absurd (ground (arith, rw t at e))
    ]
    written_at takes (suc n) k p (suc i, e) = elim (Bool-cases (takes k)) [
      | inl t ↦ written_at takes n (suc k) p (i, rw t at e)
      | inr t ↦ absurd (ground (arith, rw t at e))
    ]

    All-written :
        (takes : ℕ → Bool) (n : ℕ) (ps : List Bytes)
        → All (IsOneOf (written c now takes n 0)) ps
        → All (λ p. is_probe p ≡ true) ps × All (λ p. (is_probe p && is_expected rc p) ≡ true) ps
    All-written takes n [] h = (tt, tt)
    All-written takes n (p ∷ ps) (one, h) =
        let (j, e) = written_at takes n 0 p one in
        let (probes, mine) = All-written takes n ps h in
        let probe : is_probe p ≡ true = rw e (packet_at-is_probe j) in
        let expected : is_expected rc p ≡ true = rw e (packet_at-is_expected j) in
        ((probe, probes), (ap₂ ◌&&◌ probe expected, mine))

    -- Whatever packets of a sender arrive at a receiver that waits for them, in any order, some lost
    -- and some repeated, the receiver counts exactly these, as received and as matched.
    pub arrival_counts :
        (takes : ℕ → Bool) (start : ℤ) (n : ℕ) (arrived : List Bytes)
        → c.packet_count ≡ pos n
        → All (IsOneOf (send now takes true start c).0) arrived
        → (let end = (receive (heard arrived) (new_receiver rc)).0 in
            ((result end).received ≡ length arrived) × ((result end).matched ≡ length arrived))
    arrival_counts takes start n arrived count h =
        let (probes, mine) =
          All-written takes n arrived
            (subst (λ r. All (IsOneOf r.0) arrived) (send_lem c now takes start n count) h) in
        let (received, matched) = result_counts rc (heard arrived) in
        (
          received ∙ All-counted is_probe arrived probes,
          matched ∙ All-counted (λ p. is_probe p && is_expected rc p) arrived mine,
        )
