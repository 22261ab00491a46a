-- ===== src/Examples/Config.antt =====
-- internal/config at concrete inputs. The parameter for `net.ParseIP` is a function that knows three
-- texts, and the one for the floating-point step adds a tenth in integers.
use udp_measure.Prelude.{
  ◌+◌, ◌*◌, ◌/◌, ◌≤◌, arith, not, ◌&&◌, none, some, List, [], ◌∷◌, All, Bytes, codes, eq_bytes, ok,
  err, is_ok, if◌then◌else◌, ◌≡◌, ◌≢◌, ◌↔◌, inl, inr, refl,
}
use udp_measure.Prelude.Int.{ℤ, pos, negsuc, ◌-ℤ◌, ◌+ℤ◌, ◌*ℤ◌, ◌≤ℤ◌, ◌<ℤ◌, wrap64}
use udp_measure.Protocol.Types.{direction_both}
use udp_measure.Config.Text.{comma, contains, split, trim_space, atoi}
use udp_measure.Config.Ports.{
  validate_port, range_loop, parse_range, parse_part, parse_parts, insert, sort_ints, dedupe,
  sort_and_dedupe, parse_ports, no_ports, start_after_end,
}
use udp_measure.Config.Ports.Sorting.{member, StrictlyAscending}
use udp_measure.Config.Ports.Meaning.{IsPort, any_denotes, parse_ports_sound}
use udp_measure.Config.Ports.Printed.{printed, parse_ports-printed}
use udp_measure.Config.Ports.Accepted.{all_ok, parse_ports_accepts}
use udp_measure.Config.Sweep.{
  ClientConfig, SweepPlan, IpKind, no_ip, ip4, ip6, sizes_loop, validate, build_sweep_plan,
  new_client_config,
}
use udp_measure.Config.Sweep.Sizes.{max_int}
use udp_measure.Config.Sweep.Order.{Ordered, plan_member}
use udp_measure.Config.Sweep.Valid.{IsValid, validate-IsValid, new_client_config_complete}
use udp_measure.Config.Sweep.Plan.{wanted, build_sweep_plan_lem, build_sweep_plan_endless}
use udp_measure.Config.Duration.{
  estimate_duration, check_duration_limit, check_duration_limit_sound, check_duration_limit_wraps,
}

abbrev spec : Bytes
spec = codes "9002, 9000-9001,9000"

abbrev ports : List ℤ
ports = pos 9000 ∷ pos 9001 ∷ pos 9002 ∷ []

spec_ports : parse_ports spec ≡ ok ports
unfolding parse_ports parse_parts split parse_part trim_space contains parse_range validate_port
    range_loop atoi sort_and_dedupe sort_ints insert dedupe ◌-ℤ◌ ◌+ℤ◌
spec_ports = refl

reversed_range : parse_ports (codes "9001-9000") ≡ err (start_after_end (pos 9001) (pos 9000))
unfolding parse_ports parse_parts split parse_part trim_space contains parse_range atoi
reversed_range = refl

parse_ports_sound_example :
    (ports ≢ [])
    × StrictlyAscending ports
    × All IsPort ports
    × (member (pos 9001) ports ≡ any_denotes (split comma spec) (pos 9001))
parse_ports_sound_example = parse_ports_sound spec ports (pos 9001) spec_ports

parse_ports_accepts_example :
    (is_ok (parse_ports spec) ≡ (not (eq_bytes spec []) && all_ok (split comma spec)))
    × (parse_ports spec ≢ err (no_ports spec))
parse_ports_accepts_example = parse_ports_accepts spec

abbrev unsorted : List ℤ
unsorted = pos 3 ∷ pos 1 ∷ pos 3 ∷ pos 2 ∷ []

abbrev sizes : List ℤ
sizes = pos 100 ∷ pos 200 ∷ pos 300 ∷ []

three_sizes : sizes_loop 4 (pos 100) (pos 300) (pos 100) ≡ some sizes
unfolding sizes_loop wrap64 ◌+ℤ◌
three_sizes = refl

abbrev knows : Bytes → IpKind
knows s =
    if eq_bytes s (codes "192.0.2.1")
    then ip4
    else if eq_bytes s (codes "2001:db8::1")
    then ip6
    else no_ip

abbrev config_up_to : ℤ → ℤ → ClientConfig
config_up_to max step = record {
  target4 = codes "192.0.2.1";
  target6 = codes "2001:db8::1";
  control_port = pos 9000;
  direction = direction_both;
  ports = ports;
  min_size = pos 100;
  max_size = max;
  step = step;
  count = pos 10;
  interval = pos 1000000;
  max_estimated_duration = pos 60000000000;
}

abbrev config : ClientConfig
config = config_up_to (pos 300) (pos 100)

config_up_to-IsValid :
    (max step : ℤ) → pos 100 ≤ℤ max → pos 0 <ℤ step → IsValid knows (config_up_to max step)
config_up_to-IsValid max step ordered positive = record {
  some_target = inl (ground arith);
  target4_is_ipv4 = inr refl;
  target6_is_ipv6 = inr refl;
  control_port_low = ground arith;
  control_port_high = ground arith;
  some_port = ground arith;
  sizes_ordered = ordered;
  step_positive = positive;
  count_positive = ground arith;
  interval_positive = ground arith;
  duration_positive = ground arith;
}

config-IsValid : IsValid knows config
config-IsValid = config_up_to-IsValid (pos 300) (pos 100) (ground arith) (ground arith)

validate-IsValid_example : (validate knows config ≡ ok tt) ↔ IsValid knows config
validate-IsValid_example = validate-IsValid knows config

new_config :
    new_client_config knows config.target4 config.target6
      (pos 9000)
      direction_both
      spec
      (pos 100)
      (pos 300)
      (pos 100)
      (pos 10)
      (pos 1000000)
      (pos 60000000000)
    ≡ ok config
new_config =
    new_client_config_complete knows config.target4 config.target6 (pos 9000) direction_both spec
      (pos 100) (pos 300) (pos 100) (pos 10) (pos 1000000) (pos 60000000000) ports spec_ports
      config-IsValid

build_sweep_plan_lem_example :
    (plans : List SweepPlan) × (build_sweep_plan knows 4 config ≡ ok (some plans))
    × Ordered plans
    × ((q : SweepPlan) → plan_member q plans ≡ wanted config q)
unfolding ◌+ℤ◌
build_sweep_plan_lem_example =
    build_sweep_plan_lem knows 3 config config-IsValid (ground arith) (ground arith) (ground arith)
      (ground arith)

abbrev stepless : ClientConfig
stepless = config_up_to (pos 300) (pos 0)

abbrev boundless : ClientConfig
boundless = config_up_to max_int (pos 100)

boundless-IsValid : IsValid knows boundless
boundless-IsValid = config_up_to-IsValid max_int (pos 100) (ground arith) (ground arith)

build_sweep_plan_endless_example : build_sweep_plan knows 1000 boundless ≡ ok none
build_sweep_plan_endless_example =
    build_sweep_plan_endless knows 1000 boundless boundless-IsValid (ground arith) refl

abbrev tenth_more : ℤ → ℤ
tenth_more (pos n) = pos (n + n / 10)
tenth_more (negsuc n) = negsuc (n + n / 10)

abbrev two_tests : List SweepPlan
two_tests =
    record { family = pos 0; port = pos 9000; direction = pos 0; payload_size = pos 100 }
    ∷ record { family = pos 0; port = pos 9000; direction = pos 0; payload_size = pos 200 }
    ∷ []

short_enough : check_duration_limit tenth_more config two_tests ≡ none
unfolding check_duration_limit wrap64 ◌*ℤ◌
short_enough = refl

check_duration_limit_sound_example : 1000000 * 10 * 2 ≤ 60000000000
check_duration_limit_sound_example =
    check_duration_limit_sound tenth_more config two_tests 1000000 10 11000000 60000000000 refl refl
      refl (ground arith) refl (omega arith) (ground arith) short_enough

-- 2 ^ 32 probes, one every 2 ^ 32 nanoseconds.
abbrev centuries : ClientConfig
centuries = record config { count = pos 4294967296; interval = pos 4294967296 }

nothing_left : wrap64 (centuries.interval *ℤ centuries.count) ≡ pos 0
unfolding wrap64 ◌*ℤ◌
nothing_left = refl

check_duration_limit_wraps_example :
    (estimate_duration tenth_more centuries two_tests ≡ pos 0)
    × (check_duration_limit tenth_more centuries two_tests ≡ none)
check_duration_limit_wraps_example =
    check_duration_limit_wraps tenth_more centuries two_tests refl (ground arith) nothing_left

parse_ports-printed_example :
    parse_ports (printed (pos 80) (pos 443 ∷ pos 8080 ∷ [])) ≡ ok (pos 80 ∷ pos 443 ∷ pos 8080 ∷ [])
parse_ports-printed_example =
    parse_ports-printed (pos 80) (pos 443 ∷ pos 8080 ∷ [])
      ((omega arith, omega arith), ((omega arith, omega arith), ((omega arith, omega arith), tt)))
      ((omega arith, (omega arith, tt)), ((omega arith, tt), (tt, tt)))
