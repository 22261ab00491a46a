-- ===== src/Udp/Sender/Packets.antt =====
-- The packets of `Send`, one by one.
use mathlib.Core.Path.{ap₂}
use native.Mathlib.Nat.{zero-add, suc-add}
use udp_measure.Prelude.{
  ℕ, zero, suc, ◌+◌, ◌%◌, ◌^◌, arith, Bool, true, false, some, List, [], ◌∷◌, ◌++◌, length,
  replicate, Bytes, Outcome, ok, err, ◌≡◌, refl, Bool-cases, inl, inr, ap, ◌∙◌, sym, if◌then◌else◌,
}
use udp_measure.Prelude.Int.{ℤ, pos, pos_part}
use udp_measure.Protocol.Header.{ProbeHeader, put, marshal_binary, encode_header}
use udp_measure.Protocol.Header.RoundTrip.{length-encode_header}
use udp_measure.Udp.Sender.{
  SenderConfig, SenderResult, SendError, write_failed, header_at, with_header, send_rounds,
  report_sent, send,
}

put-over : (src old pad : Bytes) → length old ≡ length src → put (old ++ pad) 0 src ≡ src ++ pad
put-over [] [] [] h = refl
put-over [] [] (p ∷ pad) h = refl
put-over [] (o ∷ old) pad h = absurd (omega (arith, h))
put-over (x ∷ src) [] pad h = absurd (omega (arith, h))
put-over (x ∷ src) (o ∷ old) pad h = ap (◌∷◌ x) (put-over src old pad (omega (arith, h)))

replicate_add : (m n : ℕ) → replicate {A = ℕ} (m + n) 0 ≡ replicate m 0 ++ replicate n 0
replicate_add zero n = rw (zero-add n)
replicate_add (suc m) n = rw (suc-add m n) (ap (◌∷◌ 0) (replicate_add m n))

marshal_some : (h : ProbeHeader) → marshal_binary (some h) ≡ ok (encode_header h)
unfolding marshal_binary
marshal_some h = refl

module _ (c : SenderConfig) (now : ℕ → ℤ) where
  -- The i-th packet: its header, and zero bytes.
  abbrev pub packet_at : ℕ → Bytes
  packet_at i = encode_header (header_at c (i % 2 ^ 32) (now i)) ++ replicate c.payload_size 0

  module _ (takes : ℕ → Bool) where
    -- The packets i, i + 1, … of n rounds, up to the first that is not taken.
    abbrev pub written : ℕ → ℕ → List Bytes
    written zero i = []
    written (suc n) i = let rest = written n (suc i) in if takes i then packet_at i ∷ rest else []

    abbrev pub all_taken : ℕ → ℕ → Bool
    all_taken zero i = true
    all_taken (suc n) i = let rest = all_taken n (suc i) in if takes i then rest else false

    abbrev pub last_seq : ℕ → ℕ → ℕ → ℕ
    last_seq zero i seq = seq
    last_seq (suc n) i seq = last_seq n (suc i) (i % 2 ^ 32)

    -- The rest of a round.
    abbrev next : ℕ → ℕ → Bytes → List Bytes × Outcome SendError ℕ
    next n i buf =
        let (packets, r) = send_rounds now takes c n (suc i) buf (i % 2 ^ 32) in
        if takes i then (buf ∷ packets, r) else ([], err write_failed)

    next_lem :
        (n i : ℕ) (header : Bytes)
        → send_rounds now takes c n (suc i) (header ++ replicate c.payload_size 0) (i % 2 ^ 32) ≡ (
          written n (suc i),
          if all_taken n (suc i) then ok (last_seq n (suc i) (i % 2 ^ 32)) else err write_failed,
        )
        → next n i (header ++ replicate c.payload_size 0) ≡ (
          (if takes i then (header ++ replicate c.payload_size 0) ∷ written n (suc i) else []),
          if (if takes i then all_taken n (suc i) else false)
              then ok (last_seq n (suc i) (i % 2 ^ 32))
              else err write_failed,
        )
    next_lem n i header ih = elim (Bool-cases (takes i)) [ inl t ↦ rw (ih, t) | inr t ↦ rw t ]

    -- The buffer holds a header, and behind it stays zero.
    send_rounds_lem :
        (n i seq : ℕ) (old : Bytes)
        → length old ≡ 48
        → send_rounds now takes c n i (old ++ replicate c.payload_size 0) seq
          ≡ (written n i, if all_taken n i then ok (last_seq n i seq) else err write_failed)
    unfolding send_rounds
    send_rounds_lem zero i seq old h = refl
    send_rounds_lem (suc n) i seq old h =
        let header = encode_header (header_at c (i % 2 ^ 32) (now i)) in
        let over =
          put-over header old (replicate c.payload_size 0)
            (h ∙ sym (length-encode_header (header_at c (i % 2 ^ 32) (now i)))) in
        let ih =
          send_rounds_lem n (suc i) (i % 2 ^ 32) header
            (length-encode_header (header_at c (i % 2 ^ 32) (now i))) in
        ap
          (λ o. with_header o (λ bytes. next n i (put (old ++ replicate c.payload_size 0) 0 bytes)))
          (marshal_some (header_at c (i % 2 ^ 32) (now i)))
        ∙ ap (next n i) over
        ∙ next_lem n i header ih

    -- The loop and the end of `Send`.
    abbrev loop : ℕ → Bytes → List Bytes × Outcome SendError SenderResult
    loop n buf =
        let (packets, r) = send_rounds now takes c n 0 buf 0 in (packets, report_sent now takes c r)

    reported :
        (b : Bool) (seq : ℕ)
        → report_sent now takes c (if b then ok seq else err write_failed) ≡ (
            if b
            then ok (record { sent = c.packet_count; sequence_start = 0; sequence_end = seq })
            else err write_failed)
    reported true seq = refl
    reported false seq = refl

    pub send_lem :
        (start : ℤ) (n : ℕ)
        → c.packet_count ≡ pos n
        → send now takes true start c ≡ (
          written n 0,
          if all_taken n 0
              then ok (record {
                sent = c.packet_count;
                sequence_start = 0;
                sequence_end = last_seq n 0 0;
              })
              else err write_failed,
        )
    unfolding send
    send_lem start n count =
        let h = header_at c 0 start in
        let header = encode_header h in
        let over =
          put-over header (replicate 48 0) (replicate c.payload_size 0)
            (sym (length-encode_header h)) in
        ap
          (λ o. with_header o (λ bytes.
            loop (pos_part c.packet_count) (put (replicate (48 + c.payload_size) 0) 0 bytes)))
          (marshal_some h)
        ∙ ap₂ loop (ap pos_part count)
            (ap (λ buf. put buf 0 header) (replicate_add 48 c.payload_size) ∙ over)
        ∙ ap (λ r. (r.0, report_sent now takes c r.1))
            (send_rounds_lem n 0 0 header (length-encode_header h))
        ∙ ap (λ r. (written n 0, r)) (reported (all_taken n 0) (last_seq n 0 0))
