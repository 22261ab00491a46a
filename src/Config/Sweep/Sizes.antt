-- ===== src/Config/Sweep/Sizes.antt =====
-- `generateSizes`: the sizes are the arithmetic progression from the smallest up to the largest, if
-- the last addition stays within 64 bits, and the loop does not end where it cannot leave the range.
use udp_measure.Prelude.{
  ◌-◌, ap, sym, ◌∙◌, Bool-cases, inl, inr, ℕ, zero, suc, ◌*◌, ◌^◌, arith, true, false, Option, none,
  some, List, [], ◌∷◌, get_elem?, if◌then◌else◌, ◌≡◌, refl,
}
use udp_measure.Prelude.Int.{
  ℤ, pos, pos_part, neg_part, ◌+ℤ◌, ◌≤ℤ◌, ◌<ℤ◌, leb_ℤ, wrap64, IsInt64, wrap64_of_IsInt64,
  canonical, wrap64-IsInt64, +ℤ_parts, int_laws,
}
use udp_measure.Config.Sweep.{sizes_loop}

abbrev pub max_int : ℤ
max_int = pos (2 ^ 63 - 1)

-- The k-th size, if it is not above the largest.
abbrev pub size_at : ℤ → ℤ → ℕ → ℕ → Option ℤ
size_at min max step k =
    if leb_ℤ (min +ℤ pos (k * step)) max then some (min +ℤ pos (k * step)) else none

-- The addition of one round stays within 64 bits.
pub advance-IsInt64 :
    (size max : ℤ) (step : ℕ)
    → IsInt64 size
    → size ≤ℤ max
    → max +ℤ pos step ≤ℤ max_int
    → IsInt64 (size +ℤ pos step)
advance-IsInt64 size max step h le fits =
    omega (arith, +ℤ_parts size (pos step), +ℤ_parts max (pos step), canonical (size +ℤ pos step))

add_zero : (a : ℤ) → a +ℤ pos 0 ≡ a
add_zero a = omega int_laws

shift : (a : ℤ) (step k : ℕ) → (a +ℤ pos step) +ℤ pos (k * step) ≡ a +ℤ pos (suc k * step)
shift a step k = omega int_laws

size_at-shift :
    (min max : ℤ) (step k : ℕ) → size_at (min +ℤ pos step) max step k ≡ size_at min max step (suc k)
size_at-shift min max step k =
    ap (λ (a : ℤ). if leb_ℤ a max then some a else none) (shift min step k)

size_at_above : (min max : ℤ) (step k : ℕ) → leb_ℤ min max ≡ false → size_at min max step k ≡ none
size_at_above min max step k h = ground (arith, +ℤ_parts min (pos (k * step)))

abbrev Entries : List ℤ → ℤ → ℤ → ℕ → Type 0
Entries sizes min max step = (k : ℕ) → get_elem? sizes k ≡ size_at min max step k

cons-Entries :
    (min max : ℤ) (step : ℕ) (sizes : List ℤ)
    → leb_ℤ min max ≡ true
    → Entries sizes (min +ℤ pos step) max step
    → Entries (min ∷ sizes) min max step
cons-Entries min max step sizes h e zero = ground (arith, add_zero min)
cons-Entries min max step sizes h e (suc k) = e k ∙ size_at-shift min max step k

-- With a positive step whose last addition stays within 64 bits the loop ends, after one round for
-- each size and one more, and its k-th entry is min + k * step as long as this is at most max.
pub sizes_loop_lem :
    (rounds : ℕ) (min max : ℤ) (step : ℕ)
    → IsInt64 min
    → max +ℤ pos step ≤ℤ max_int
    → max <ℤ min +ℤ pos (rounds * step)
    → (sizes : List ℤ) × (sizes_loop (suc rounds) min max (pos step) ≡ some sizes)
      × ((k : ℕ) → get_elem? sizes k ≡ size_at min max step k)
unfolding sizes_loop
sizes_loop_lem zero min max step hm fits enough =
    let above : leb_ℤ min max ≡ false = ground (arith, add_zero min) in
    ([], ground arith, λ k. sym (size_at_above min max step k above))
sizes_loop_lem (suc rounds) min max step hm fits enough = elim (Bool-cases (leb_ℤ min max)) [
  | inl le ↦
      let next = advance-IsInt64 min max step hm (ground arith) fits in
      let (sizes, e, entries) =
        sizes_loop_lem rounds (min +ℤ pos step) max step next fits (
          omega
            (arith, ap pos_part (shift min step rounds), ap neg_part (shift min step rounds))) in
      (
        min ∷ sizes,
        ground (arith, wrap64_of_IsInt64 (min +ℤ pos step) next),
        cons-Entries min max step sizes le entries,
      )
  | inr above ↦ ([], ground arith, λ k. sym (size_at_above min max step k above))
]

-- If the largest size is the greatest `int`, every size passes the loop's test, so that no number of
-- rounds ends it, whatever the step.
pub sizes_loop_endless :
    (fuel : ℕ) (min step : ℤ) → IsInt64 min → sizes_loop fuel min max_int step ≡ none
unfolding sizes_loop
sizes_loop_endless zero min step h = refl
sizes_loop_endless (suc fuel) min step h =
    ground
      (arith, wrap64-IsInt64 (min +ℤ step), sizes_loop_endless fuel (wrap64 (min +ℤ step)) step)
