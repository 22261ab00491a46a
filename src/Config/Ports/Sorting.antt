-- ===== src/Config/Ports/Sorting.antt =====
-- `sort.Ints` and `sortAndDedupe`: the result ascends strictly and has the same members.
use udp_measure.Prelude.{
  arith, Bool, false, ◌||◌, Option, none, some, List, [], ◌∷◌, ◌++◌, All, Bool-cases, inl, inr, ap,
  ◌∙◌, ◌≢◌, ◌≡◌, refl,
}
use udp_measure.Prelude.Int.{ℤ, ◌≤ℤ◌, ◌<ℤ◌, ◌==ℤ◌, leb_ℤ}
use udp_measure.Config.Ports.{insert, sort_ints, dedupe, sort_and_dedupe}

abbrev pub member : ℤ → List ℤ → Bool
member p [] = false
member p (q ∷ qs) = p ==ℤ q || member p qs

abbrev pub Ascending : List ℤ → Type 0
Ascending [] = Unit
Ascending (p ∷ ps) = All (λ q. p ≤ℤ q) ps × Ascending ps

abbrev pub StrictlyAscending : List ℤ → Type 0
StrictlyAscending [] = Unit
StrictlyAscending (p ∷ ps) = All (λ q. p <ℤ q) ps × StrictlyAscending ps

pub member-append : (p : ℤ) (xs ys : List ℤ) → member p (xs ++ ys) ≡ (member p xs || member p ys)
member-append p [] ys = refl
member-append p (x ∷ xs) ys = ground (arith, member-append p xs ys)

member-insert : (p q : ℤ) (qs : List ℤ) → member p (insert q qs) ≡ (p ==ℤ q || member p qs)
unfolding insert
member-insert p q [] = refl
member-insert p q (r ∷ qs) = ground (arith, member-insert p q qs)

module _ (P : ℤ → Type 0) where
  All-insert_intro : (q : ℤ) (qs : List ℤ) → P q → All P qs → All P (insert q qs)
  unfolding insert
  All-insert_intro q [] hq h = (hq, tt)
  All-insert_intro q (r ∷ qs) hq h = elim (Bool-cases (leb_ℤ q r)) [
    | inl e ↦ rw e (hq, h)
    | inr e ↦ rw e (h.0, All-insert_intro q qs hq h.1)
  ]

  All-sort_ints : (ps : List ℤ) → All P ps → All P (sort_ints ps)
  unfolding sort_ints
  All-sort_ints [] h = tt
  All-sort_ints (p ∷ ps) h = All-insert_intro p (sort_ints ps) h.0 (All-sort_ints ps h.1)

  All-dedupe : (r : Option ℤ) (ps : List ℤ) → All P ps → All P (dedupe r ps)
  unfolding dedupe
  All-dedupe r [] h = tt
  All-dedupe none (p ∷ ps) h = (h.0, All-dedupe (some p) ps h.1)
  All-dedupe (some q) (p ∷ ps) h = elim (Bool-cases (q ==ℤ p)) [
    | inl e ↦ rw e (All-dedupe (some p) ps h.1)
    | inr e ↦ rw e (h.0, All-dedupe (some p) ps h.1)
  ]

  pub All-sort_and_dedupe : (ps : List ℤ) → All P ps → All P (sort_and_dedupe ps)
  unfolding sort_and_dedupe
  All-sort_and_dedupe ps h = All-dedupe none (sort_ints ps) (All-sort_ints ps h)

insert-ne-nil : (q : ℤ) (qs : List ℤ) → insert q qs ≢ []
unfolding insert
insert-ne-nil q [] = λ e. cc
insert-ne-nil q (r ∷ qs) = ground arith

pub sort_and_dedupe-ne-nil : (ps : List ℤ) → ps ≢ [] → sort_and_dedupe ps ≢ []
unfolding sort_and_dedupe sort_ints dedupe
sort_and_dedupe-ne-nil [] h = h
sort_and_dedupe-ne-nil (p ∷ ps) h = ground (arith, insert-ne-nil p (sort_ints ps))

pub member-sort_ints : (p : ℤ) (ps : List ℤ) → member p (sort_ints ps) ≡ member p ps
unfolding sort_ints
member-sort_ints p [] = refl
member-sort_ints p (q ∷ ps) =
    ground (arith, member-insert p q (sort_ints ps), member-sort_ints p ps)

All-insert :
    (r : ℤ) (q : ℤ) (qs : List ℤ) → r ≤ℤ q → All (λ x. r ≤ℤ x) qs → All (λ x. r ≤ℤ x) (insert q qs)
unfolding insert
All-insert r q [] h a = (h, tt)
All-insert r q (x ∷ qs) h a = ground (arith, All-insert r q qs h a.1)

All-le : (p q : ℤ) (qs : List ℤ) → p ≤ℤ q → All (λ x. q ≤ℤ x) qs → All (λ x. p ≤ℤ x) qs
All-le p q [] h a = tt
All-le p q (x ∷ qs) h a = (omega arith, All-le p q qs h a.1)

All-lt : (p q : ℤ) (qs : List ℤ) → p <ℤ q → All (λ x. q <ℤ x) qs → All (λ x. p <ℤ x) qs
All-lt p q [] h a = tt
All-lt p q (x ∷ qs) h a = (omega arith, All-lt p q qs h a.1)

insert-Ascending : (q : ℤ) (qs : List ℤ) → Ascending qs → Ascending (insert q qs)
unfolding insert
insert-Ascending q [] a = (tt, tt)
insert-Ascending q (x ∷ qs) a =
    ground (arith, All-le q x qs, All-insert x q qs, insert-Ascending q qs a.1)

pub sort_ints-Ascending : (ps : List ℤ) → Ascending (sort_ints ps)
unfolding sort_ints
sort_ints-Ascending [] = tt
sort_ints-Ascending (p ∷ ps) = insert-Ascending p (sort_ints ps) (sort_ints-Ascending ps)

-- What `dedupe` leaves behind an entry r that is below or equal to the rest.
pub dedupe-StrictlyAscending :
    (r : ℤ) (ps : List ℤ)
    → All (λ q. r ≤ℤ q) ps
    → Ascending ps
    → All (λ q. r <ℤ q) (dedupe (some r) ps) × StrictlyAscending (dedupe (some r) ps)
unfolding dedupe
dedupe-StrictlyAscending r [] h a = (tt, tt)
dedupe-StrictlyAscending r (p ∷ ps) h a =
    ground (arith, dedupe-StrictlyAscending p ps a.0 a.1, All-lt r p (dedupe (some p) ps))

member-dedupe :
    (p r : ℤ) (ps : List ℤ) → (p ==ℤ r || member p (dedupe (some r) ps)) ≡ (p ==ℤ r || member p ps)
unfolding dedupe
member-dedupe p r [] = refl
member-dedupe p r (q ∷ ps) = ground (arith, member-dedupe p q ps)

dedupe_first :
    (ps : List ℤ) (p : ℤ)
    → Ascending ps
    → StrictlyAscending (dedupe none ps) × (member p (dedupe none ps) ≡ member p ps)
unfolding dedupe
dedupe_first [] p a = (tt, refl)
dedupe_first (q ∷ ps) p a = (dedupe-StrictlyAscending q ps a.0 a.1, member-dedupe p q ps)

-- For every slice, `sortAndDedupe` returns a strictly ascending slice with the same members.
pub sort_and_dedupe_lem :
    (ps : List ℤ) (p : ℤ)
    → StrictlyAscending (sort_and_dedupe ps) × (member p (sort_and_dedupe ps) ≡ member p ps)
unfolding sort_and_dedupe
sort_and_dedupe_lem ps p =
    ground (arith, dedupe_first (sort_ints ps) p (sort_ints-Ascending ps), member-sort_ints p ps)

-- What is sorted already stays as it is.
pub sort_ints_of_StrictlyAscending : (ps : List ℤ) → StrictlyAscending ps → sort_ints ps ≡ ps
unfolding sort_ints insert
sort_ints_of_StrictlyAscending [] h = refl
sort_ints_of_StrictlyAscending (p ∷ []) h = refl
sort_ints_of_StrictlyAscending (p ∷ q ∷ ps) h =
    ap (insert p) (sort_ints_of_StrictlyAscending (q ∷ ps) h.1) ∙ ground arith

dedupe_of_StrictlyAscending :
    (q : ℤ) (ps : List ℤ) → All (λ p. q <ℤ p) ps → StrictlyAscending ps → dedupe (some q) ps ≡ ps
unfolding dedupe
dedupe_of_StrictlyAscending q [] low h = refl
dedupe_of_StrictlyAscending q (p ∷ ps) low h =
    ground (arith, dedupe_of_StrictlyAscending p ps h.0 h.1)

pub sort_and_dedupe_of_StrictlyAscending :
    (ps : List ℤ) → StrictlyAscending ps → sort_and_dedupe ps ≡ ps
unfolding sort_and_dedupe dedupe sort_ints
sort_and_dedupe_of_StrictlyAscending [] h = refl
sort_and_dedupe_of_StrictlyAscending (p ∷ ps) h =
    rw (sort_ints_of_StrictlyAscending (p ∷ ps) h)
      (ap (◌∷◌ p) (dedupe_of_StrictlyAscending p ps h.0 h.1))
