-- ===== src/Config/Sweep.antt =====
-- config.go: the client's configuration, its checks, and the sweep plan that it stands for.
-- `net.ParseIP` and `To4` are a parameter: a text is no address, or one that has an IPv4 form, or
-- another. A `time.Duration` is its number of nanoseconds.
pub mod Sizes
pub mod Members
pub mod Valid
pub mod Order
pub mod Combinations
pub mod Plan
use udp_measure.Prelude.{
  ℕ, zero, suc, ◌+◌, Bool, true, false, not, ◌&&◌, ◌||◌, Option, none, some, List, [], ◌∷◌, ◌++◌,
  map, Bytes, eq_bytes, Outcome, ok, err, ◌>>=◌, ◌>>◌, reject_if, wrap_err, if◌then◌else◌,
}
use udp_measure.Prelude.Int.{ℤ, pos, ◌+ℤ◌, ◌==ℤ◌, ltb_ℤ, leb_ℤ, wrap64}
use udp_measure.Protocol.Types.{
  Direction, Family, direction_uplink, direction_downlink, direction_both, family_ipv4, family_ipv6,
}
use udp_measure.Config.Ports.{PortError, parse_ports, sort_ints}

pub record ClientConfig : Type 0 where
  pub target4 : Bytes
  pub target6 : Bytes
  pub control_port : ℤ
  pub direction : Direction
  pub ports : List ℤ
  pub min_size : ℤ
  pub max_size : ℤ
  pub step : ℤ
  pub count : ℤ
  pub interval : ℤ
  pub max_estimated_duration : ℤ

pub record SweepPlan : Type 0 where
  pub family : Family
  pub port : ℤ
  pub direction : Direction
  pub payload_size : ℤ

pub data ConfigError : Type 0 where
  invalid_ports : PortError → ConfigError
  no_target : ConfigError
  invalid_address : Bytes → ConfigError
  not_ipv4 : Bytes → ConfigError
  not_ipv6 : Bytes → ConfigError
  control_port_range : ℤ → ConfigError
  no_port : ConfigError
  size_order : ℤ → ℤ → ConfigError
  bad_step : ℤ → ConfigError
  bad_count : ℤ → ConfigError
  bad_interval : ℤ → ConfigError
  bad_max_duration : ℤ → ConfigError

-- What `net.ParseIP(addr)` and `To4` tell of a text.
pub data IpKind : Type 0 where
  no_ip ip4 ip6 : IpKind

-- The families that `validateTargetAddress` is called with.
pub data TargetFamily : Type 0 where
  want4 want6 : TargetFamily

abbrev is_nil : List ℤ → Bool
is_nil [] = true
is_nil (_ ∷ _) = false

unfoldable pub check_target : IpKind → TargetFamily → Bytes → Outcome ConfigError (Unit {0})
check_target no_ip family addr = err (invalid_address addr)
check_target ip4 want4 addr = ok tt
check_target ip6 want4 addr = err (not_ipv4 addr)
check_target ip4 want6 addr = err (not_ipv6 addr)
check_target ip6 want6 addr = ok tt

-- `determineFamilies`
unfoldable pub determine_families : Bytes → Bytes → List Family
determine_families target4 target6 =
    (if not (eq_bytes target4 []) then family_ipv4 ∷ [] else [])
    ++ (if not (eq_bytes target6 []) then family_ipv6 ∷ [] else [])

-- `determineDirections`
unfoldable pub determine_directions : Direction → List Direction
determine_directions dir =
    if dir ==ℤ direction_uplink
    then direction_uplink ∷ []
    else if dir ==ℤ direction_downlink
    then direction_downlink ∷ []
    else if dir ==ℤ direction_both
    then direction_uplink ∷ (direction_downlink ∷ [])
    else []

-- The loop of `generateSizes`, whose addition is that of a 64-bit `int`; `none` means that the fuel
-- ran out. `Sizes` shows how much is enough, and when none is.
unfoldable pub sizes_loop : ℕ → ℤ → ℤ → ℤ → Option (List ℤ)
sizes_loop zero size max step = none
sizes_loop (suc fuel) size max step = elim (leb_ℤ size max) [
  | true ↦ elim (sizes_loop fuel (wrap64 (size +ℤ step)) max step) [
    | none ↦ none
    | some sizes ↦ some (size ∷ sizes)
  ]
  | false ↦ some []
]

-- The innermost loops of `BuildSweepPlan`, from the inside out.
abbrev for_sizes : Family → ℤ → Direction → List ℤ → List SweepPlan
for_sizes f p d [] = []
for_sizes f p d (s ∷ sizes) =
    record { family = f; port = p; direction = d; payload_size = s } ∷ for_sizes f p d sizes

abbrev for_directions : Family → ℤ → List Direction → List ℤ → List SweepPlan
for_directions f p [] sizes = []
for_directions f p (d ∷ ds) sizes = for_sizes f p d sizes ++ for_directions f p ds sizes

abbrev for_ports : Family → List ℤ → List Direction → List ℤ → List SweepPlan
for_ports f [] ds sizes = []
for_ports f (p ∷ ps) ds sizes = for_directions f p ds sizes ++ for_ports f ps ds sizes

unfoldable pub for_families : List Family → List ℤ → List Direction → List ℤ → List SweepPlan
for_families [] ps ds sizes = []
for_families (f ∷ fs) ps ds sizes = for_ports f ps ds sizes ++ for_families fs ps ds sizes

module _ (parse_ip : Bytes → IpKind) where
  -- `validateTargetAddress`
  unfoldable pub validate_target_address : Bytes → TargetFamily → Outcome ConfigError (Unit {0})
  unfolding check_target
  validate_target_address addr family = check_target (parse_ip addr) family addr

  -- `ClientConfig.Validate`
  unfoldable pub validate : ClientConfig → Outcome ConfigError (Unit {0})
  unfolding validate_target_address
  validate c = do
    reject_if (eq_bytes c.target4 [] && eq_bytes c.target6 []) no_target
    if not (eq_bytes c.target4 []) then validate_target_address c.target4 want4 else ok tt
    if not (eq_bytes c.target6 []) then validate_target_address c.target6 want6 else ok tt
    reject_if (ltb_ℤ c.control_port (pos 1) || ltb_ℤ (pos 65535) c.control_port)
        (control_port_range c.control_port)
    reject_if (is_nil c.ports) no_port
    reject_if (ltb_ℤ c.max_size c.min_size) (size_order c.min_size c.max_size)
    reject_if (leb_ℤ c.step (pos 0)) (bad_step c.step)
    reject_if (leb_ℤ c.count (pos 0)) (bad_count c.count)
    reject_if (leb_ℤ c.interval (pos 0)) (bad_interval c.interval)
    reject_if (leb_ℤ c.max_estimated_duration (pos 0)) (bad_max_duration c.max_estimated_duration)

  -- `BuildSweepPlan`, with the fuel of its `generateSizes`; `none` if that runs out.
  unfoldable pub build_sweep_plan : ℕ → ClientConfig → Outcome ConfigError (Option (List SweepPlan))
  unfolding for_families
  build_sweep_plan fuel c = do
    validate c
    let sorted_ports = sort_ints c.ports
    let families = determine_families c.target4 c.target6
    let directions = determine_directions c.direction
    ok (elim (sizes_loop fuel c.min_size c.max_size c.step) [
      | none ↦ none
      | some sizes ↦ some (for_families families sorted_ports directions sizes)
    ])

  -- `NewClientConfig`
  unfoldable pub new_client_config :
      Bytes
      → Bytes
      → ℤ
      → Direction
      → Bytes
      → ℤ
      → ℤ
      → ℤ
      → ℤ
      → ℤ
      → ℤ
      → Outcome ConfigError ClientConfig
  new_client_config t4 t6 port dir spec min max step count interval max_duration = do
    ps ← wrap_err invalid_ports (parse_ports spec)
    let cfg : ClientConfig = record {
      target4 = t4;
      target6 = t6;
      control_port = port;
      direction = dir;
      ports = ps;
      min_size = min;
      max_size = max;
      step = step;
      count = count;
      interval = interval;
      max_estimated_duration = max_duration;
    }
    validate cfg
    ok cfg
