-- ===== src/Report/Critical.antt =====
-- `FindCriticalSize` on the groups that `AggregateResults` makes.
use mathlib.Core.List.{Permᴰ}
use mathlib.Core.List.Permᴰ
use udp_measure.Prelude.{
  arith, Bool, true, false, ◌&&◌, ◌||◌, Option, none, some, List, [], ◌∷◌, All, All-perm, ◌≡◌, refl,
  ap, ◌∙◌, Bool-cases, inl, inr, ◌⊎◌, if◌then◌else◌,
}
use udp_measure.Prelude.Int.{ℤ, pos, ◌≤ℤ◌, ◌==ℤ◌, ==ℤ_iff, eq_of_parts}
use udp_measure.Report.Externals.{Runtime, IsLawful, IsSorted, Floats}
use udp_measure.Report.Filling.{of_key}
use udp_measure.Report.Groups.{aggregate_results_lem}
use udp_measure.Report.{
  TestResult, Group, GroupKey, size_less, aggregate_results, loss_percent, find_critical_size,
  compute_critical_sizes,
}

-- A key at which to apply what holds beside every key.
abbrev pub any_key : GroupKey
any_key = record { family = pos 0; port = pos 0; direction = pos 0 }

or_swap : (a b c : Bool) → (a || (b || c)) ≡ (b || (a || c))
or_swap a b c = ground arith

module _ (floats : Floats) (threshold : floats.Float) where
  -- The share of the packets sent that were lost, times 100; zero if none was sent.
  abbrev pub lost_share : TestResult → floats.Float
  lost_share r =
      if r.sent ==ℤ pos 0
      then floats.of_int (pos 0)
      else floats.mul (floats.div (floats.of_int r.lost) (floats.of_int r.sent))
          (floats.of_int (pos 100))

  abbrev pub reaches : TestResult → Bool
  reaches r = floats.ge (lost_share r) threshold

  abbrev pub reached_at : ℤ → List TestResult → Bool
  reached_at s [] = false
  reached_at s (r ∷ rs) = let rest = reached_at s rs in reaches r && r.payload_size ==ℤ s || rest

  -- The least size at which a result reaches the threshold; `none` if none does.
  abbrev pub IsLeast : Option ℤ → List TestResult → Type 0
  IsLeast none rs = All (λ r. reaches r ≡ false) rs
  IsLeast (some s) rs =
      (reached_at s rs ≡ true) × All (λ r. (reaches r ≡ false) ⊎ (s ≤ℤ r.payload_size)) rs

  reached_at-perm :
      (s : ℤ) {xs ys : List TestResult} → Permᴰ xs ys → reached_at s xs ≡ reached_at s ys
  reached_at-perm s Permᴰ.nil = refl
  reached_at-perm s (Permᴰ.cons {b} e p) =
      rw e (ap (λ rest. reaches b && b.payload_size ==ℤ s || rest) (reached_at-perm s p))
  reached_at-perm s (Permᴰ.swap {a'} {b'} {l = rs} e f) =
      rw (e, f)
        (or_swap (reaches b' && b'.payload_size ==ℤ s) (reaches a' && a'.payload_size ==ℤ s)
          (reached_at s rs))
  reached_at-perm s (Permᴰ.trans p q) = reached_at-perm s p ∙ reached_at-perm s q

  pub IsLeast-perm :
      (o : Option ℤ) {xs ys : List TestResult} → Permᴰ xs ys → IsLeast o ys → IsLeast o xs
  IsLeast-perm none p h = All-perm _ p h
  IsLeast-perm (some s) p (e, h) = (reached_at-perm s p ∙ e, All-perm _ p h)

  above :
      (r : TestResult) (rs : List TestResult)
      → All (λ x. size_less x r ≡ false) rs
      → All (λ x. (reaches x ≡ false) ⊎ (r.payload_size ≤ℤ x.payload_size)) rs
  above r [] h = tt
  above r (x ∷ rs) (p, h) = (inr (ground arith), above r rs h)

  IsLeast-skip :
      (o : Option ℤ) (r : TestResult) (rs : List TestResult)
      → reaches r ≡ false
      → IsLeast o rs
      → IsLeast o (r ∷ rs)
  IsLeast-skip none r rs e h = (e, h)
  IsLeast-skip (some s) r rs e (k, h) = (rw e k, (inl e, h))

  pub find_critical_size-IsLeast :
      (rs : List TestResult)
      → IsSorted size_less rs
      → IsLeast (find_critical_size floats rs threshold) rs
  unfolding find_critical_size loss_percent
  find_critical_size-IsLeast [] s = tt
  find_critical_size-IsLeast (r ∷ rs) (low, s) = elim (Bool-cases (reaches r)) [
    | inl e ↦ rw e (
      rw (e, (==ℤ_iff r.payload_size r.payload_size).1 refl),
      (inr (omega arith), above r rs low),
    )
    | inr e ↦ rw e (IsLeast-skip _ r rs e (find_critical_size-IsLeast rs s))
  ]

  -- The result of size s that reaches the threshold is not below a bound of all that do.
  reached_bound :
      (s t : ℤ) (rs : List TestResult)
      → reached_at s rs ≡ true
      → All (λ r. (reaches r ≡ false) ⊎ (t ≤ℤ r.payload_size)) rs
      → t ≤ℤ s
  reached_bound s t [] e h = absurd (ground (arith, e))
  reached_bound s t (r ∷ rs) e (p, h) = elim (Bool-cases (reaches r && r.payload_size ==ℤ s)) [
    | inl here ↦ ground (arith, here, p, ==ℤ_iff r.payload_size s)
    | inr not_here ↦ reached_bound s t rs (rw not_here at e) h
  ]

  reached_none :
      (s : ℤ) (rs : List TestResult) → All (λ r. reaches r ≡ false) rs → reached_at s rs ≡ false
  reached_none s [] h = refl
  reached_none s (r ∷ rs) (e, h) = rw (e, reached_none s rs h) refl

  pub IsLeast-unique : (o p : Option ℤ) (rs : List TestResult) → IsLeast o rs → IsLeast p rs → o ≡ p
  IsLeast-unique none none rs h k = refl
  IsLeast-unique none (some t) rs h k = absurd (ground (arith, reached_none t rs h, k.0))
  IsLeast-unique (some s) none rs h k = absurd (ground (arith, reached_none s rs k, h.0))
  IsLeast-unique (some s) (some t) rs h k =
      let up = reached_bound s t rs h.0 k.1 in
      let down = reached_bound t s rs k.0 h.1 in ap some (eq_of_parts s t (omega (arith, up, down)))

  -- The group's critical size, of all the results of its key.
  abbrev pub IsGroupLeast : List TestResult → Group → Type 0
  IsGroupLeast rs g = IsLeast (find_critical_size floats g.results threshold) (of_key g.key rs)

  own_least :
      (rs : List TestResult) (gs : List Group)
      → All (λ g. Permᴰ g.results (of_key g.key rs) × IsSorted size_less g.results) gs
      → All (IsGroupLeast rs) gs
  own_least rs [] h = tt
  own_least rs (g ∷ gs) ((p, s), h) = (
    IsLeast-perm (find_critical_size floats g.results threshold) (Permᴰ.symm p)
        (find_critical_size-IsLeast g.results s),
    own_least rs gs h,
  )

  pub aggregate_results-IsGroupLeast :
      (runtime : Runtime) (rs : List TestResult)
      → IsLawful runtime
      → All (IsGroupLeast rs) (aggregate_results runtime rs)
  aggregate_results-IsGroupLeast runtime rs lawful =
      own_least rs (aggregate_results runtime rs)
        (aggregate_results_lem runtime lawful rs any_key).1

  compute_critical_sizes-All :
      (rs : List TestResult) (gs : List Group)
      → All (IsGroupLeast rs) gs
      → All
          (λ c. IsLeast c.critical_size (of_key c.key rs) × (c.threshold ≡ threshold))
          (compute_critical_sizes floats gs threshold)
  unfolding compute_critical_sizes
  compute_critical_sizes-All rs [] h = tt
  compute_critical_sizes-All rs (g ∷ gs) (p, h) = ((p, refl), compute_critical_sizes-All rs gs h)

  -- The critical size that is computed for a key is the least payload size at which a result of
  -- that key loses the threshold or more, where the loss is lost / sent * 100, or zero if nothing was
  -- sent; there is none exactly if no result of the key does.
  pub critical_sizes_lem :
      (runtime : Runtime) (rs : List TestResult)
      → IsLawful runtime
      → All
          (λ c. IsLeast c.critical_size (of_key c.key rs) × (c.threshold ≡ threshold))
          (compute_critical_sizes floats (aggregate_results runtime rs) threshold)
  critical_sizes_lem runtime rs lawful =
      compute_critical_sizes-All rs (aggregate_results runtime rs)
        (aggregate_results-IsGroupLeast runtime rs lawful)
