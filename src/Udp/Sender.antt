-- ===== src/Udp/Sender.antt =====
-- sender.go: the packets that `Send` writes. The socket is left out: whether the target address can
-- be resolved, and whether the i-th packet is taken, is told by parameters, and so is the time that
-- `SetFromParams` reads for the i-th packet. The pauses between packets and the measured duration
-- are left out.
pub mod Packets
pub mod Arrival
use udp_measure.Prelude.{
  ℕ, zero, suc, ◌+◌, ◌%◌, ◌^◌, Bool, true, false, some, List, [], ◌∷◌, replicate, Bytes, Outcome,
  ok, err, if◌then◌else◌,
}
use udp_measure.Prelude.Int.{ℤ, pos, pos_part}
use udp_measure.Protocol.Types.{Direction, Family}
use udp_measure.Protocol.Header.{
  ProbeHeader, HeaderError, probe_header_size, put, marshal_binary, set_from_params,
}

-- The target address is left to the parameter `resolves`.
pub record SenderConfig : Type 0 where
  pub session_id : ℕ
  pub test_id : ℕ
  pub direction : Direction
  pub family : Family
  pub udp_port : ℕ
  pub payload_size : ℕ
  pub packet_count : ℤ
  pub interval : ℤ

pub record SenderResult : Type 0 where
  pub sent : ℤ
  pub sequence_start : ℕ
  pub sequence_end : ℕ

pub data SendError : Type 0 where
  unresolved : SendError
  marshal_failed : HeaderError → SendError
  write_failed : SendError

-- The header after `SetFromParams`.
abbrev pub header_at : SenderConfig → ℕ → ℤ → ProbeHeader
header_at c seq now =
    set_from_params c.session_id c.test_id c.direction c.family c.udp_port c.payload_size seq now

-- What follows `MarshalBinary`, unless it fails.
abbrev pub with_header :
    {A : Type 0}
    → Outcome HeaderError Bytes
    → (Bytes → List Bytes × Outcome SendError A)
    → List Bytes × Outcome SendError A
with_header (err e) next = ([], err (marshal_failed e))
with_header (ok header) next = next header

module _ (now : ℕ → ℤ) (takes : ℕ → Bool) where
  -- The loop: the rounds that are left, i, the buffer and the last sequence number; the packets that
  -- are written, and the sequence number at the end.
  unfoldable pub send_rounds : SenderConfig → ℕ → ℕ → Bytes → ℕ → List Bytes × Outcome SendError ℕ
  send_rounds c zero i buf seq = ([], ok seq)
  send_rounds c (suc rounds) i buf seq =
      with_header (marshal_binary (some (header_at c (i % 2 ^ 32) (now i)))) (λ header.
        let buf' = put buf 0 header in
        let (packets, r) = send_rounds c rounds (suc i) buf' (i % 2 ^ 32) in
        if takes i then (buf' ∷ packets, r) else ([], err write_failed))

  -- The end of `Send`.
  abbrev pub report_sent : SenderConfig → Outcome SendError ℕ → Outcome SendError SenderResult
  report_sent c (err e) = err e
  report_sent c (ok seq) =
      ok (record { sent = c.packet_count; sequence_start = 0; sequence_end = seq })

  -- `Send`; `start` is the time of the header that is marshalled before the loop.
  unfoldable pub send : Bool → ℤ → SenderConfig → List Bytes × Outcome SendError SenderResult
  unfolding send_rounds
  send resolves start c =
      if resolves
      then with_header (marshal_binary (some (header_at c 0 start))) (λ header.
        let buf = put (replicate (probe_header_size + c.payload_size) 0) 0 header in
        let (packets, r) = send_rounds c (pos_part c.packet_count) 0 buf 0 in
        (packets, report_sent c r))
      else ([], err unresolved)
