-- ===== src/Config/Sweep/Members.antt =====
-- The sizes of `generateSizes` as a set: in ascending order, and which numbers are among them.
use udp_measure.Prelude.{
  ℕ, zero, suc, ◌+◌, ◌%◌, ◌<◌, arith, Bool, true, ◌&&◌, ◌||◌, some, List, [], ◌∷◌, All, ◌==◌,
  Bool-cases, Option-cases, inl, inr, ◌≡◌, ap, ◌∙◌,
}
use native.Mathlib.Nat.{mod-eq_of_lt, add-mod_right, zero-mod}
use udp_measure.Prelude.Int.{
  ℤ, pos, pos_part, ◌+ℤ◌, ◌-ℤ◌, ◌≤ℤ◌, ◌<ℤ◌, ◌==ℤ◌, ==ℤ_iff, leb_ℤ, IsInt64, wrap64_of_IsInt64,
  +ℤ_parts, -ℤ_parts, canonical, eq_of_parts,
}
use udp_measure.Config.Ports.Sorting.{member, StrictlyAscending}
use udp_measure.Config.Sweep.{sizes_loop}
use udp_measure.Config.Sweep.Sizes.{max_int, advance-IsInt64}

-- s lies between min and max, a multiple of the step above min.
abbrev pub on_grid : ℤ → ℤ → ℕ → ℤ → Bool
on_grid min max step s = leb_ℤ min s && (leb_ℤ s max && pos_part (s -ℤ min) % step == 0)

-- The remainders of m + step and of m agree, and a positive number below the step has one.
mod_shift : (n m step : ℕ) → n ≡ m + step → n % step ≡ m % step
mod_shift n m step e = rw e (add-mod_right m step)

mod_small : (n step : ℕ) → 0 < n → n < step → 0 < n % step
mod_small n step h lt = rw (mod-eq_of_lt lt) h

on_grid-step :
    (min max : ℤ) (step : ℕ) (s : ℤ)
    → 0 < step
    → leb_ℤ min max ≡ true
    → (s ==ℤ min || on_grid (min +ℤ pos step) max step s) ≡ on_grid min max step s
on_grid-step min max step s hs le = ground (
  arith,
  ==ℤ_iff s min,
  +ℤ_parts min (pos step),
  -ℤ_parts s min,
  -ℤ_parts s (min +ℤ pos step),
  canonical (s -ℤ min),
  canonical (s -ℤ (min +ℤ pos step)),
  eq_of_parts s min,
  zero-mod step,
  mod_small (pos_part (s -ℤ min)) step,
  mod_shift (pos_part (s -ℤ min)) (pos_part (s -ℤ (min +ℤ pos step))) step,
)

All-above : (a b : ℤ) (xs : List ℤ) → a <ℤ b → All (λ x. b ≤ℤ x) xs → All (λ x. a <ℤ x) xs
All-above a b [] h all = tt
All-above a b (x ∷ xs) h all = (omega arith, All-above a b xs h all.1)

All-weaken : (a : ℤ) (xs : List ℤ) → All (λ x. a <ℤ x) xs → All (λ x. a ≤ℤ x) xs
All-weaken a [] all = tt
All-weaken a (x ∷ xs) all = (omega arith, All-weaken a xs all.1)

-- One round: the sizes behind `min` are those of the loop that starts a step further.
cons_sizes :
    (min max : ℤ) (step : ℕ) (rest : List ℤ) (s : ℤ)
    → 0 < step
    → leb_ℤ min max ≡ true
    → StrictlyAscending rest
      × All (λ x. min +ℤ pos step ≤ℤ x) rest
      × (member s rest ≡ on_grid (min +ℤ pos step) max step s)
    → StrictlyAscending (min ∷ rest)
      × All (λ x. min ≤ℤ x) (min ∷ rest)
      × (member s (min ∷ rest) ≡ on_grid min max step s)
cons_sizes min max step rest s hs le (up, above, members) =
    let gap : min <ℤ min +ℤ pos step = omega (arith, +ℤ_parts min (pos step)) in
    let higher = All-above min (min +ℤ pos step) rest gap above in
    (
      (higher, up),
      (omega arith, All-weaken min rest higher),
      ap (λ b. s ==ℤ min || b) members ∙ on_grid-step min max step s hs le,
    )

-- The sizes that the loop yields ascend strictly, and a number is among them exactly if it lies
-- between min and max, a multiple of the step above min.
pub sizes_loop_members :
    (fuel : ℕ) (min max : ℤ) (step : ℕ) (sizes : List ℤ) (s : ℤ)
    → 0 < step
    → IsInt64 min
    → max +ℤ pos step ≤ℤ max_int
    → sizes_loop fuel min max (pos step) ≡ some sizes
    → StrictlyAscending sizes
      × All (λ x. min ≤ℤ x) sizes
      × (member s sizes ≡ on_grid min max step s)
unfolding sizes_loop
sizes_loop_members zero min max step sizes s hs hm fits h = absurd (ground arith)
sizes_loop_members (suc fuel) min max step sizes s hs hm fits h =
    elim (Bool-cases (leb_ℤ min max)) [
      | inr above ↦ ground arith
      | inl le ↦
          let next = advance-IsInt64 min max step hm (ground arith) fits in
          elim (Option-cases (sizes_loop fuel (min +ℤ pos step) max (pos step))) [
            | inl none_left ↦ absurd (ground (arith, wrap64_of_IsInt64 (min +ℤ pos step) next))
            | inr (rest, e) ↦
                let same : sizes ≡ min ∷ rest =
                  ground (arith, wrap64_of_IsInt64 (min +ℤ pos step) next) in
                let later =
                  sizes_loop_members fuel (min +ℤ pos step) max step rest s hs next fits e in
                rw same (cons_sizes min max step rest s hs le later)
          ]
    ]
