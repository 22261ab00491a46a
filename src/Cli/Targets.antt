-- ===== src/Cli/Targets.antt =====
-- Which server the client dials for a test case: the fall-back of `clientMain` to the other target is
-- never taken for a plan that `BuildSweepPlan` has made.
use udp_measure.Prelude.{
  ℕ, arith, Bool, true, false, ◌&&◌, ◌||◌, some, List, [], ◌∷◌, All, Bytes, eq_bytes, eq_bytes_iff,
  Option-cases, Outcome-cases, ok, inl, inr, ◌≡◌, ◌≢◌, ◌⊎◌, refl, sym, ◌∙◌,
}
use udp_measure.Prelude.Int.{ℤ, ==ℤ_iff}
use udp_measure.Protocol.Types.{direction_uplink, direction_downlink, family_ipv4, family_ipv6}
use udp_measure.Config.Ports.{sort_ints}
use udp_measure.Config.Ports.Sorting.{member}
use udp_measure.Config.Sweep.{
  ClientConfig, SweepPlan, IpKind, validate, build_sweep_plan, determine_families,
  determine_directions, for_families, sizes_loop,
}
use udp_measure.Config.Sweep.Order.{same_plan, plan_member, All-map}
use udp_measure.Config.Sweep.Combinations.{member-for_families}
use udp_measure.Cli.{control_target, target_address}

-- The target is that of the plan's family, and it is given; the plan is for one direction.
pub record IsRunnable (cfg : ClientConfig) (plan : SweepPlan) : Type 0 where
  pub own_target : control_target cfg plan ≡ target_address cfg plan
  pub target_given : control_target cfg plan ≢ []
  pub one_direction : (plan.direction ≡ direction_uplink) ⊎ (plan.direction ≡ direction_downlink)

same_plan_refl : (q : SweepPlan) → same_plan q q ≡ true
same_plan_refl q = ground (
  arith,
  ==ℤ_iff q.family q.family,
  ==ℤ_iff q.port q.port,
  ==ℤ_iff q.direction q.direction,
  ==ℤ_iff q.payload_size q.payload_size,
)

or_true : (a b : Bool) → b ≡ true → (a || b) ≡ true
or_true a b h = ground arith

entries : (plans : List SweepPlan) → All (λ q. plan_member q plans ≡ true) plans
entries [] = tt
entries (a ∷ plans) = (
  ground (arith, same_plan_refl a),
  All-map (λ q. plan_member q plans ≡ true) (λ q. plan_member q (a ∷ plans) ≡ true) plans
      (λ q. or_true (same_plan q a) (plan_member q plans)) (entries plans),
)

-- The conditions on a family and on a direction, in words.
family-given :
    (cfg : ClientConfig) (q : SweepPlan)
    → member q.family (determine_families cfg.target4 cfg.target6) ≡ true
    → eq_bytes (target_address cfg q) [] ≡ false
unfolding determine_families
family-given cfg q h = ground (arith, ==ℤ_iff q.family family_ipv4, ==ℤ_iff q.family family_ipv6)

one_direction_of :
    (cfg : ClientConfig) (q : SweepPlan)
    → member q.direction (determine_directions cfg.direction) ≡ true
    → (q.direction ≡ direction_uplink) ⊎ (q.direction ≡ direction_downlink)
unfolding determine_directions
one_direction_of cfg q h =
    ground (arith, ==ℤ_iff q.direction direction_uplink, ==ℤ_iff q.direction direction_downlink)

first_of : (a b : Bool) → (a && b) ≡ true → a ≡ true
first_of a b h = ground arith

third_of : (a b c d : Bool) → (a && (b && (c && d))) ≡ true → c ≡ true
third_of a b c d h = ground arith

own_target_of :
    (cfg : ClientConfig) (q : SweepPlan)
    → eq_bytes (target_address cfg q) [] ≡ false
    → (control_target cfg q ≡ target_address cfg q) × (control_target cfg q ≢ [])
unfolding control_target
own_target_of cfg q h = rw h (refl, λ e. ground (arith, e, eq_bytes_iff (target_address cfg q) []))

runnable :
    (cfg : ClientConfig) (q : SweepPlan) (ps sizes : List ℤ)
    → (member q.family (determine_families cfg.target4 cfg.target6)
        && (member q.port ps
            && (member q.direction (determine_directions cfg.direction)
                && member q.payload_size sizes)))
      ≡ true
    → IsRunnable cfg q
runnable cfg q ps sizes h =
    let target = own_target_of cfg q (family-given cfg q (first_of _ _ h)) in
    record {
      own_target = target.0;
      target_given = target.1;
      one_direction = one_direction_of cfg q (third_of _ (member q.port ps) _ _ h);
    }

IsRunnable-All :
    (cfg : ClientConfig) (ps sizes : List ℤ)
    → let plans =
        for_families
          (determine_families cfg.target4 cfg.target6)
          ps
          (determine_directions cfg.direction)
          sizes in
      All (IsRunnable cfg) plans
IsRunnable-All cfg ps sizes =
    let fs = determine_families cfg.target4 cfg.target6 in
    let ds = determine_directions cfg.direction in
    let plans = for_families fs ps ds sizes in
    All-map (λ q. plan_member q plans ≡ true) (IsRunnable cfg) plans
      (λ q h. runnable cfg q ps sizes (sym (member-for_families q fs ps ds sizes) ∙ h))
      (entries plans)

module _ (parse_ip : Bytes → IpKind) where
  -- Every test case of a plan that `BuildSweepPlan` returns is for one direction, and the client dials
  -- the target of its family, which is given: it never falls back to the other one.
  pub build_sweep_plan-IsRunnable :
      (fuel : ℕ) (cfg : ClientConfig) (plans : List SweepPlan)
      → build_sweep_plan parse_ip fuel cfg ≡ ok (some plans)
      → All (IsRunnable cfg) plans
  unfolding build_sweep_plan
  build_sweep_plan-IsRunnable fuel cfg plans h = elim (Outcome-cases (validate parse_ip cfg)) [
    | inl (e, bad) ↦ absurd (ground arith)
    | inr (_, good) ↦ elim (Option-cases (sizes_loop fuel cfg.min_size cfg.max_size cfg.step)) [
      | inl out ↦ absurd (ground arith)
      | inr (sizes, found) ↦
          let same : plans
              ≡ for_families (determine_families cfg.target4 cfg.target6) (sort_ints cfg.ports)
                  (determine_directions cfg.direction) sizes =
            ground arith in
          rw same (IsRunnable-All cfg (sort_ints cfg.ports) sizes)
    ]
  ]
