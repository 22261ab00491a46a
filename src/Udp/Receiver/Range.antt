-- ===== src/Udp/Receiver/Range.antt =====
-- The range of sequence numbers in `Result`.
use udp_measure.Prelude.{
  ℕ, ◌≤◌, arith, Bool, true, false, ◌||◌, List, [], ◌∷◌, All, ltb, ◌==◌, if◌then◌else◌, ◌≡◌, ◌⊎◌,
  inl, inr, refl,
}
use mathlib.Core.Path.{subst}
use udp_measure.Prelude.{sym}
use udp_measure.Udp.Receiver.{Receiver, ReceiverResult, extremes, result_of, result}
use udp_measure.Udp.Receiver.Counts.{matched_seqs, result_lem}

abbrev pub has : ℕ → List ℕ → Bool
has s [] = false
has s (t ∷ seqs) = s == t || has s seqs

-- What the second loop keeps.
extremes_lem :
    (low high : ℕ) (seqs : List ℕ)
    → All (λ s. ((extremes low high seqs).0 ≤ s) × (s ≤ (extremes low high seqs).1)) seqs
      × ((extremes low high seqs).0 ≤ low)
      × (high ≤ (extremes low high seqs).1)
      × (((extremes low high seqs).0 == low || has (extremes low high seqs).0 seqs) ≡ true)
      × (((extremes low high seqs).1 == high || has (extremes low high seqs).1 seqs) ≡ true)
unfolding extremes
extremes_lem low high [] = ground arith
extremes_lem low high (s ∷ seqs) =
    let (all, under, over, least, greatest) =
      extremes_lem (if ltb s low then s else low) (if ltb high s then s else high) seqs in
    (
      ((ground (arith, under), ground (arith, over)), all),
      ground (arith, under),
      ground (arith, over),
      ground (arith, least),
      ground (arith, greatest),
    )

-- The range spans the sequence numbers, and its ends are among them.
Spans : ReceiverResult → List ℕ → Type 0
Spans res seqs =
    All (λ s. (res.sequence_min ≤ s) × (s ≤ res.sequence_max)) seqs
    × ((seqs ≡ []) ⊎ (has res.sequence_min seqs ≡ true) × (has res.sequence_max seqs ≡ true))

Spans-result_of : (n m : ℕ) (seqs : List ℕ) → Spans (result_of n m seqs) seqs
unfolding result_of Spans
Spans-result_of n m [] = (tt, inl refl)
Spans-result_of n m (s ∷ seqs) =
    let (all, under, over, least, greatest) = extremes_lem s s seqs in
    (((under, over), all), inr (least, greatest))

-- In the result of a receiver every matched packet's sequence number lies between `SequenceMin` and
-- `SequenceMax`, and both are sequence numbers of matched packets, if there are any.
pub result_range :
    (r : Receiver)
    → All
        (λ s. ((result r).sequence_min ≤ s) × (s ≤ (result r).sequence_max))
        (matched_seqs r.received)
      × ((matched_seqs r.received ≡ [])
          ⊎ (has (result r).sequence_min (matched_seqs r.received) ≡ true)
            × (has (result r).sequence_max (matched_seqs r.received) ≡ true))
unfolding Spans
result_range r =
    subst (λ res. Spans res (matched_seqs r.received)) (sym (result_lem r))
      (Spans-result_of _ _ (matched_seqs r.received))
