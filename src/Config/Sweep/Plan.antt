-- ===== src/Config/Sweep/Plan.antt =====
-- `BuildSweepPlan`: for a configuration that passes `Validate` it yields the wanted test cases, each
-- once and in order; it refuses any other; and there are valid sizes for which it does not end.
use udp_measure.Prelude.{
  ℕ, suc, ◌*◌, arith, Bool, not, ◌&&◌, ◌||◌, none, some, List, [], Bytes, eq_bytes, ok, err, ◌≡◌,
  ◌↔◌, ◌∙◌, refl,
}
use udp_measure.Prelude.Int.{ℤ, pos, negsuc, pos_part, ◌+ℤ◌, ◌≤ℤ◌, ◌<ℤ◌, ◌==ℤ◌, IsInt64}
use udp_measure.Protocol.Types.{
  Direction, Family, direction_uplink, direction_downlink, direction_both, family_ipv4, family_ipv6,
}
use udp_measure.Config.Ports.Sorting.{member, StrictlyAscending, sort_ints_of_StrictlyAscending}
use udp_measure.Config.Sweep.{
  ClientConfig, SweepPlan, ConfigError, IpKind, validate, build_sweep_plan, determine_families,
  determine_directions, sizes_loop, for_families,
}
use udp_measure.Config.Sweep.Sizes.{max_int, sizes_loop_lem, sizes_loop_endless}
use udp_measure.Config.Sweep.Members.{on_grid, sizes_loop_members}
use udp_measure.Config.Sweep.Order.{Ordered, plan_member, for_families-Ordered}
use udp_measure.Config.Sweep.Combinations.{member-for_families}
use udp_measure.Config.Sweep.Valid.{IsValid, validate-IsValid}

-- A family is wanted if its target is given, a direction if it or both were asked for.
abbrev pub wants_family : ClientConfig → Family → Bool
wants_family c f =
    (f ==ℤ family_ipv4 && not (eq_bytes c.target4 []))
    || (f ==ℤ family_ipv6 && not (eq_bytes c.target6 []))

abbrev pub wants_direction : ClientConfig → Direction → Bool
wants_direction c d =
    (d ==ℤ direction_uplink || d ==ℤ direction_downlink)
    && (c.direction ==ℤ direction_both || c.direction ==ℤ d)

-- The test cases that the configuration asks for.
abbrev pub wanted : ClientConfig → SweepPlan → Bool
wanted c q =
    wants_family c q.family
    && (member q.port c.ports
        && (wants_direction c q.direction
            && on_grid c.min_size c.max_size (pos_part c.step) q.payload_size))

families-Ascending : (t4 t6 : Bytes) → StrictlyAscending (determine_families t4 t6)
unfolding determine_families
families-Ascending t4 t6 = ground arith

member-families :
    (c : ClientConfig) (f : Family)
    → member f (determine_families c.target4 c.target6) ≡ wants_family c f
unfolding determine_families
member-families c f = ground arith

directions-Ascending : (d : Direction) → StrictlyAscending (determine_directions d)
unfolding determine_directions
directions-Ascending d = ground arith

member-directions :
    (c : ClientConfig) (d : Direction)
    → member d (determine_directions c.direction) ≡ wants_direction c d
unfolding determine_directions
member-directions c d = ground arith

positive_step : (s : ℤ) → pos 0 <ℤ s → s ≡ pos (pos_part s)
positive_step (pos n) h = refl
positive_step (negsuc n) h = absurd (omega arith)

-- The sizes of a valid configuration, all in one.
sizes_of :
    (rounds : ℕ) (min max step : ℤ)
    → pos 0 <ℤ step
    → IsInt64 min
    → max +ℤ step ≤ℤ max_int
    → max <ℤ min +ℤ pos (rounds * pos_part step)
    → (sizes : List ℤ) × (sizes_loop (suc rounds) min max step ≡ some sizes)
      × StrictlyAscending sizes
      × ((s : ℤ) → member s sizes ≡ on_grid min max (pos_part step) s)
sizes_of rounds min max (negsuc n) hs hm fits enough = absurd (omega arith)
sizes_of rounds min max (pos step) hs hm fits enough =
    let (sizes, e, entries) = sizes_loop_lem rounds min max step hm fits enough in
    let about =
      λ (s : ℤ). sizes_loop_members (suc rounds) min max step sizes s (omega arith) hm fits e in
    (sizes, e, (about min).0, λ s. (about s).2)

module _ (parse_ip : Bytes → IpKind) where
  -- For a valid configuration with strictly ascending ports whose largest size leaves room for one
  -- more step within 64 bits, `BuildSweepPlan` ends, with fuel for one round of the size loop for
  -- each size and one more; the plan is in strict order by family, port, direction and size, and a
  -- test case is in it exactly if the configuration asks for it.
  pub build_sweep_plan_lem :
      (rounds : ℕ) (c : ClientConfig)
      → IsValid parse_ip c
      → StrictlyAscending c.ports
      → IsInt64 c.min_size
      → c.max_size +ℤ c.step ≤ℤ max_int
      → c.max_size <ℤ c.min_size +ℤ pos (rounds * pos_part c.step)
      → (plans : List SweepPlan) × (build_sweep_plan parse_ip (suc rounds) c ≡ ok (some plans))
        × Ordered plans
        × ((q : SweepPlan) → plan_member q plans ≡ wanted c q)
  unfolding build_sweep_plan
  build_sweep_plan_lem rounds c v up hm fits enough =
      let (sizes, e, ascending, members) =
        sizes_of rounds c.min_size c.max_size c.step v.step_positive hm fits enough in
      let fs = determine_families c.target4 c.target6 in
      let ds = determine_directions c.direction in
      (
        for_families fs c.ports ds sizes,
        ground
            (arith, (validate-IsValid parse_ip c).1 v, sort_ints_of_StrictlyAscending c.ports up),
        for_families-Ordered fs c.ports ds sizes (families-Ascending c.target4 c.target6) up
            (directions-Ascending c.direction) ascending,
        λ q.
            member-for_families q fs c.ports ds sizes
            ∙ rw (
              member-families c q.family,
              member-directions c q.direction,
              members q.payload_size,
            ),
      )

  -- A configuration that `Validate` refuses is refused by `BuildSweepPlan` with the same error.
  pub build_sweep_plan_invalid :
      (fuel : ℕ) (c : ClientConfig) (e : ConfigError)
      → (validate parse_ip c ≡ err e) ↔ (build_sweep_plan parse_ip fuel c ≡ err e)
  unfolding build_sweep_plan
  build_sweep_plan_invalid fuel c e = ground arith

  -- A configuration that passes `Validate` and has the greatest `int` as its largest size makes the
  -- size loop run without end, whatever the other sizes are: no fuel is enough.
  pub build_sweep_plan_endless :
      (fuel : ℕ) (c : ClientConfig)
      → IsValid parse_ip c
      → IsInt64 c.min_size
      → c.max_size ≡ max_int
      → build_sweep_plan parse_ip fuel c ≡ ok none
  unfolding build_sweep_plan
  build_sweep_plan_endless fuel c v hm e =
      ground
        (arith, (validate-IsValid parse_ip c).1 v, sizes_loop_endless fuel c.min_size c.step hm)
