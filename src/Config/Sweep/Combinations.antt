-- ===== src/Config/Sweep/Combinations.antt =====
-- The nested loops of `BuildSweepPlan` as a set: every combination is there, and no other.
use mathlib.Core.Path.{ap₂}
use udp_measure.Prelude.{
  suc, ◌*◌, arith, Bool, false, ◌&&◌, ◌||◌, List, [], ◌∷◌, ◌++◌, length, length-append, ◌≡◌, refl,
  ap, ◌∙◌,
}
use udp_measure.Prelude.Int.{ℤ, ◌==ℤ◌}
use udp_measure.Protocol.Types.{Direction, Family}
use udp_measure.Config.Ports.Sorting.{member}
use udp_measure.Config.Sweep.{SweepPlan, for_sizes, for_directions, for_ports, for_families}
use udp_measure.Config.Sweep.Order.{plan_member, same_plan}

or_assoc : (a b c : Bool) → (a || (b || c)) ≡ ((a || b) || c)
or_assoc a b c = ground arith

factor_size :
    (f p d s t : Bool)
    → ((f && (p && (d && s))) || (f && (p && (d && t)))) ≡ (f && (p && (d && (s || t))))
factor_size f p d s t = ground arith

factor_direction :
    (f p d e s : Bool)
    → ((f && (p && (d && s))) || (f && (p && (e && s)))) ≡ (f && (p && ((d || e) && s)))
factor_direction f p d e s = ground arith

factor_port :
    (f p r d s : Bool)
    → ((f && (p && (d && s))) || (f && (r && (d && s)))) ≡ (f && ((p || r) && (d && s)))
factor_port f p r d s = ground arith

factor_family :
    (f g p d s : Bool)
    → ((f && (p && (d && s))) || (g && (p && (d && s)))) ≡ ((f || g) && (p && (d && s)))
factor_family f g p d s = ground arith

nothing : (f p d : Bool) → false ≡ (f && (p && (d && false)))
nothing f p d = ground arith

nothing_size : (f p s : Bool) → false ≡ (f && (p && (false && s)))
nothing_size f p s = ground arith

nothing_direction : (f d s : Bool) → false ≡ (f && (false && (d && s)))
nothing_direction f d s = ground arith

plan_member-append :
    (q : SweepPlan) (xs ys : List SweepPlan)
    → plan_member q (xs ++ ys) ≡ (plan_member q xs || plan_member q ys)
plan_member-append q [] ys = refl
plan_member-append q (x ∷ xs) ys =
    ap (λ b. same_plan q x || b) (plan_member-append q xs ys)
    ∙ or_assoc (same_plan q x) (plan_member q xs) (plan_member q ys)

module _ (q : SweepPlan) where
  member-for_sizes :
      (f : Family) (p : ℤ) (d : Direction) (sizes : List ℤ)
      → plan_member q (for_sizes f p d sizes)
        ≡ (q.family ==ℤ f && (q.port ==ℤ p && (q.direction ==ℤ d && member q.payload_size sizes)))
  member-for_sizes f p d [] = nothing (q.family ==ℤ f) (q.port ==ℤ p) (q.direction ==ℤ d)
  member-for_sizes f p d (s ∷ sizes) =
      ap (λ b. q.family ==ℤ f && (q.port ==ℤ p && (q.direction ==ℤ d && q.payload_size ==ℤ s)) || b)
        (member-for_sizes f p d sizes)
      ∙ factor_size (q.family ==ℤ f) (q.port ==ℤ p) (q.direction ==ℤ d) (q.payload_size ==ℤ s)
          (member q.payload_size sizes)

  member-for_directions :
      (f : Family) (p : ℤ) (ds : List Direction) (sizes : List ℤ)
      → plan_member q (for_directions f p ds sizes) ≡ (
          q.family ==ℤ f
          && (q.port ==ℤ p && (member q.direction ds && member q.payload_size sizes)))
  member-for_directions f p [] sizes =
      nothing_size (q.family ==ℤ f) (q.port ==ℤ p) (member q.payload_size sizes)
  member-for_directions f p (d ∷ ds) sizes =
      plan_member-append q (for_sizes f p d sizes) (for_directions f p ds sizes)
      ∙ ap₂ ◌||◌ (member-for_sizes f p d sizes) (member-for_directions f p ds sizes)
      ∙ factor_direction (q.family ==ℤ f) (q.port ==ℤ p) (q.direction ==ℤ d) (member q.direction ds)
          (member q.payload_size sizes)

  member-for_ports :
      (f : Family) (ps : List ℤ) (ds : List Direction) (sizes : List ℤ)
      → plan_member q (for_ports f ps ds sizes) ≡ (
          q.family ==ℤ f
          && (member q.port ps && (member q.direction ds && member q.payload_size sizes)))
  member-for_ports f [] ds sizes =
      nothing_direction (q.family ==ℤ f) (member q.direction ds) (member q.payload_size sizes)
  member-for_ports f (p ∷ ps) ds sizes =
      plan_member-append q (for_directions f p ds sizes) (for_ports f ps ds sizes)
      ∙ ap₂ ◌||◌ (member-for_directions f p ds sizes) (member-for_ports f ps ds sizes)
      ∙ factor_port (q.family ==ℤ f) (q.port ==ℤ p) (member q.port ps) (member q.direction ds)
          (member q.payload_size sizes)

  -- A test case is planned exactly if its four coordinates are among those of the loops.
  pub member-for_families :
      (fs : List Family) (ps : List ℤ) (ds : List Direction) (sizes : List ℤ)
      → plan_member q (for_families fs ps ds sizes) ≡ (
          member q.family fs
          && (member q.port ps && (member q.direction ds && member q.payload_size sizes)))
  unfolding for_families
  member-for_families [] ps ds sizes = refl
  member-for_families (f ∷ fs) ps ds sizes =
      plan_member-append q (for_ports f ps ds sizes) (for_families fs ps ds sizes)
      ∙ ap₂ ◌||◌ (member-for_ports f ps ds sizes) (member-for_families fs ps ds sizes)
      ∙ factor_family (q.family ==ℤ f) (member q.family fs) (member q.port ps)
          (member q.direction ds) (member q.payload_size sizes)

length-for_sizes :
    (f : Family) (p : ℤ) (d : Direction) (sizes : List ℤ)
    → length (for_sizes f p d sizes) ≡ length sizes
length-for_sizes f p d [] = refl
length-for_sizes f p d (s ∷ sizes) = ap suc (length-for_sizes f p d sizes)

length-for_directions :
    (f : Family) (p : ℤ) (ds : List Direction) (sizes : List ℤ)
    → length (for_directions f p ds sizes) ≡ length ds * length sizes
length-for_directions f p [] sizes = omega arith
length-for_directions f p (d ∷ ds) sizes = omega (
  arith,
  length-append {0} (for_sizes f p d sizes) (for_directions f p ds sizes),
  length-for_sizes f p d sizes,
  length-for_directions f p ds sizes,
)

length-for_ports :
    (f : Family) (ps : List ℤ) (ds : List Direction) (sizes : List ℤ)
    → length (for_ports f ps ds sizes) ≡ length ps * (length ds * length sizes)
length-for_ports f [] ds sizes = omega arith
length-for_ports f (p ∷ ps) ds sizes = omega (
  arith,
  length-append {0} (for_directions f p ds sizes) (for_ports f ps ds sizes),
  length-for_directions f p ds sizes,
  length-for_ports f ps ds sizes,
)

-- There are as many test cases as combinations.
pub length-for_families :
    (fs : List Family) (ps : List ℤ) (ds : List Direction) (sizes : List ℤ)
    → length (for_families fs ps ds sizes) ≡ length fs * (length ps * (length ds * length sizes))
unfolding for_families
length-for_families [] ps ds sizes = omega arith
length-for_families (f ∷ fs) ps ds sizes = omega (
  arith,
  length-append {0} (for_ports f ps ds sizes) (for_families fs ps ds sizes),
  length-for_ports f ps ds sizes,
  length-for_families fs ps ds sizes,
)
