-- ===== src/Udp/Receiver.antt =====
-- receiver.go: what a receiver records of the packets that reach it, and its result. The socket is
-- left out: what the loops of `Receive` and `Collect` meet, round by round, is a list of events.
pub mod Packets
pub mod Counts
pub mod Range
use udp_measure.Prelude.{
  ℕ, suc, ◌+◌, Bool, true, false, not, ◌&&◌, Option, none, some, List, [], ◌∷◌, ◌++◌, length, take,
  Bytes, ltb, ◌==◌, if◌then◌else◌,
}
use udp_measure.Prelude.Int.{ℤ, to_u8}
use udp_measure.Protocol.Types.{Direction, Family}
use udp_measure.Protocol.Header.{
  ProbeHeader, HeaderError, zero_header, probe_header_size, unmarshal_binary, validate,
}

pub record ReceiverConfig : Type 0 where
  pub session_id : ℕ
  pub test_id : ℕ
  pub direction : Direction
  pub family : Family
  pub receive_window : ℤ

-- `receivedPacket`, without the time of its arrival, which nothing reads.
pub record ReceivedPacket : Type 0 where
  pub seq : ℕ
  pub header : ProbeHeader
  pub matched : Bool

pub record Receiver : Type 0 where
  pub config : ReceiverConfig
  pub received : List ReceivedPacket

pub record ReceiverResult : Type 0 where
  pub received : ℕ
  pub matched : ℕ
  pub sequence_min : ℕ
  pub sequence_max : ℕ
  pub first_seq : ℕ
  pub last_seq : ℕ

-- `NewReceiver`, once its socket is open.
abbrev pub new_receiver : ReceiverConfig → Receiver
new_receiver c = record { config = c; received = [] }

-- `matchesExpected`
unfoldable pub matches_expected : ReceiverConfig → ProbeHeader → Bool
matches_expected c h =
    if not (h.session_id == c.session_id)
    then false
    else if not (h.test_id == c.test_id)
    then false
    else if not (h.direction == to_u8 c.direction)
    then false
    else if not (h.family == to_u8 c.family)
    then false
    else true

abbrev packet_of : ReceiverConfig → ProbeHeader → ReceivedPacket
packet_of c h = record { seq = h.sequence; header = h; matched = matches_expected c h }

-- A header that was unmarshalled without error is recorded if it is valid.
unfoldable pub keep : Receiver → ProbeHeader × Option HeaderError → Receiver
keep r (header, some _) = r
keep r (header, none) = elim (validate header) [
  | some _ ↦ r
  | none ↦ record r { received = r.received ++ packet_of r.config header ∷ [] }
]

-- The rest of a round of `Receive`, and of `Collect`, once a packet is read.
unfoldable pub hear : Bytes → Receiver → Receiver
unfolding keep
hear bytes r =
    if ltb (length bytes) probe_header_size
    then r
    else keep r (unmarshal_binary zero_header (take probe_header_size bytes))

-- What a round meets: the quit channel is closed, the timer of `Collect` is over, the read times out
-- or fails, or a packet is read.
pub data Event : Type 0 where
  quit window_over timed_out read_fails : Event
  packet : Bytes → Event

-- The loop runs, has returned nil, or has returned an error.
pub data Ending : Type 0 where
  running returned_nil returned_error : Ending

-- `Receive`, which has no timer.
unfoldable pub receive : List Event → Receiver → Receiver × Ending
receive [] r = (r, running)
receive (quit ∷ _) r = (r, returned_nil)
receive (window_over ∷ events) r = receive events r
receive (timed_out ∷ events) r = receive events r
receive (read_fails ∷ _) r = (r, returned_error)
receive (packet bytes ∷ events) r = receive events (hear bytes r)

unfoldable pub collect : List Event → Receiver → Receiver × Ending
collect [] r = (r, running)
collect (quit ∷ _) r = (r, returned_nil)
collect (window_over ∷ _) r = (r, returned_nil)
collect (timed_out ∷ events) r = collect events r
collect (read_fails ∷ _) r = (r, returned_error)
collect (packet bytes ∷ events) r = collect events (hear bytes r)

-- The first loop of `Result`: the counts, and `matchedSeqs`.
unfoldable pub count_packets : ℕ → ℕ → List ℕ → List ReceivedPacket → ℕ × ℕ × List ℕ
count_packets n m seqs [] = (n, m, seqs)
count_packets n m seqs (p ∷ ps) = elim p.matched [
  | true ↦ count_packets (n + 1) (m + 1) (seqs ++ p.seq ∷ []) ps
  | false ↦ count_packets (n + 1) m seqs ps
]

-- The second loop of `Result`.
unfoldable pub extremes : ℕ → ℕ → List ℕ → ℕ × ℕ
extremes low high [] = (low, high)
extremes low high (s ∷ seqs) =
    extremes (if ltb s low then s else low) (if ltb high s then s else high) seqs

-- `matchedSeqs[len(matchedSeqs)-1]`, behind s.
abbrev last : ℕ → List ℕ → ℕ
last s [] = s
last s (t ∷ seqs) = last t seqs

unfoldable pub result_of : ℕ → ℕ → List ℕ → ReceiverResult
unfolding extremes
result_of n m [] = record {
  received = n;
  matched = m;
  sequence_min = 0;
  sequence_max = 0;
  first_seq = 0;
  last_seq = 0;
}
result_of n m (s ∷ seqs) = record {
  received = n;
  matched = m;
  sequence_min = (extremes s s seqs).0;
  sequence_max = (extremes s s seqs).1;
  first_seq = s;
  last_seq = last s seqs;
}

-- `Result`. Of a receiver without packets the loop yields the empty result that the code returns.
unfoldable pub result : Receiver → ReceiverResult
unfolding count_packets result_of
result r = let (n, m, seqs) = count_packets 0 0 [] r.received in result_of n m seqs
