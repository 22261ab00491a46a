-- ===== src/Udp/Receiver/Packets.antt =====
-- Which packets count, said on their bytes, and that `Validate` and `matchesExpected` agree.
use udp_measure.Prelude.{
  ℕ, zero, suc, ◌+◌, ◌*◌, ◌^◌, ◌<◌, arith, Bool, true, false, not, ◌&&◌, ◌||◌, Option, none, some,
  List, [], ◌∷◌, length, take, get_or, Bytes, leb, ◌==◌, if◌then◌else◌, ◌≡◌, refl, ◌∙◌,
}
use udp_measure.Prelude.Int.{to_u8}
use udp_measure.Protocol.Header.{
  ProbeHeader, HeaderError, probe_header_size, decode_header, validate,
}
use udp_measure.Udp.Receiver.{
  ReceiverConfig, matches_expected, Event, quit, window_over, timed_out, read_fails, packet,
}

abbrev byte : Bytes → ℕ → ℕ
byte bytes i = get_or bytes i 0

abbrev word : Bytes → ℕ → ℕ
word bytes i =
    byte bytes i * 2 ^ 24
    + byte bytes (i + 1) * 2 ^ 16
    + byte bytes (i + 2) * 2 ^ 8
    + byte bytes (i + 3)

-- 48 bytes or more, of this version, with a single direction and a known family.
unfoldable pub is_probe : Bytes → Bool
is_probe bytes =
    leb 48 (length bytes)
    && (byte bytes 0 == 1
        && ((byte bytes 12 == 0 || byte bytes 12 == 1)
            && (byte bytes 13 == 0 || byte bytes 13 == 1)))

-- Of the session, the test, the direction and the family that are waited for.
unfoldable pub is_expected : ReceiverConfig → Bytes → Bool
is_expected c bytes =
    word bytes 4 == c.session_id
    && (word bytes 8 == c.test_id
        && (byte bytes 12 == to_u8 c.direction && byte bytes 13 == to_u8 c.family))

-- How many packets of a kind arrive before `Receive` returns.
unfoldable pub arrivals : (Bytes → Bool) → List Event → ℕ
arrivals f [] = 0
arrivals f (quit ∷ _) = 0
arrivals f (window_over ∷ events) = arrivals f events
arrivals f (timed_out ∷ events) = arrivals f events
arrivals f (read_fails ∷ _) = 0
arrivals f (packet bytes ∷ events) =
    let rest = arrivals f events in if f bytes then suc rest else rest

get_or-take : (n i : ℕ) (xs : Bytes) → i < n → get_or (take n xs) i 0 ≡ get_or xs i 0
get_or-take zero i xs h = absurd (omega arith)
get_or-take (suc n) i [] h = refl
get_or-take (suc n) zero (x ∷ xs) h = refl
get_or-take (suc n) (suc i) (x ∷ xs) h = get_or-take n i xs (omega arith)

-- The header of a packet, and whether it passes.
abbrev pub header : Bytes → ProbeHeader
header bytes = decode_header (take probe_header_size bytes)

abbrev pub passes : Option HeaderError → Bool
passes none = true
passes (some _) = false

same : (bytes : Bytes) (i : ℕ) → i < 48 → get_or (take 48 bytes) i 0 ≡ get_or bytes i 0
same bytes i h = get_or-take 48 i bytes h

pub validate-header :
    (bytes : Bytes) → (leb 48 (length bytes) && passes (validate (header bytes))) ≡ is_probe bytes
unfolding is_probe validate decode_header
validate-header bytes =
    ground
      (arith, same bytes 0 (omega arith), same bytes 12 (omega arith), same bytes 13 (omega arith))

four_tests :
    (a b c d : Bool)
    → (if not a
        then false
        else if not b
        then false
        else if not c
        then false
        else if not d
        then false
        else true)
      ≡ (a && (b && (c && d)))
four_tests true true true true = refl
four_tests true true true false = refl
four_tests true true false d = refl
four_tests true false c d = refl
four_tests false b c d = refl

pub matches_header :
    (c : ReceiverConfig) (bytes : Bytes) → matches_expected c (header bytes) ≡ is_expected c bytes
unfolding is_expected matches_expected decode_header
matches_header c bytes =
    four_tests ((header bytes).session_id == c.session_id) ((header bytes).test_id == c.test_id)
      ((header bytes).direction == to_u8 c.direction) ((header bytes).family == to_u8 c.family)
    ∙ rw (
      same bytes 4 (omega arith),
      same bytes 5 (omega arith),
      same bytes 6 (omega arith),
      same bytes 7 (omega arith),
      same bytes 8 (omega arith),
      same bytes 9 (omega arith),
      same bytes 10 (omega arith),
      same bytes 11 (omega arith),
      same bytes 12 (omega arith),
      same bytes 13 (omega arith),
    )
