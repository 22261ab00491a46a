-- ===== src/Config/Sweep/Valid.antt =====
-- `ClientConfig.Validate` and `NewClientConfig`: which configurations pass.
use udp_measure.Prelude.{
  arith, List, [], All, Bytes, ok, Outcome-cases, eq_bytes_iff, inl, inr, ◌≡◌, ◌≢◌, ◌↔◌, ◌⊎◌, refl,
}
use udp_measure.Prelude.Int.{ℤ, pos, ◌≤ℤ◌, ◌<ℤ◌}
use udp_measure.Protocol.Types.{Direction}
use udp_measure.Config.Ports.{parse_ports}
use udp_measure.Config.Ports.Sorting.{StrictlyAscending}
use udp_measure.Config.Ports.Meaning.{IsPort, parse_ports_sound}
use udp_measure.Config.Sweep.{ClientConfig, IpKind, ip4, ip6, validate, new_client_config}

module _ (parse_ip : Bytes → IpKind) where
  -- What `Validate` is there to ensure.
  pub record IsValid (c : ClientConfig) : Type 0 where
    pub some_target : (c.target4 ≢ []) ⊎ (c.target6 ≢ [])
    pub target4_is_ipv4 : (c.target4 ≡ []) ⊎ (parse_ip c.target4 ≡ ip4)
    pub target6_is_ipv6 : (c.target6 ≡ []) ⊎ (parse_ip c.target6 ≡ ip6)
    pub control_port_low : pos 1 ≤ℤ c.control_port
    pub control_port_high : c.control_port ≤ℤ pos 65535
    pub some_port : c.ports ≢ []
    pub sizes_ordered : c.min_size ≤ℤ c.max_size
    pub step_positive : pos 0 <ℤ c.step
    pub count_positive : pos 0 <ℤ c.count
    pub interval_positive : pos 0 <ℤ c.interval
    pub duration_positive : pos 0 <ℤ c.max_estimated_duration

  -- `Validate` passes exactly the configurations with at least one target, each an address of its
  -- family, a control port between 1 and 65535, at least one port, sizes in order, and a positive
  -- step, count, interval and duration limit.
  pub validate-IsValid : (c : ClientConfig) → (validate parse_ip c ≡ ok tt) ↔ IsValid c
  unfolding validate
  validate-IsValid c = (
    λ h. ground (arith, eq_bytes_iff c.target4 [], eq_bytes_iff c.target6 []),
    λ v. ground (arith, eq_bytes_iff c.target4 [], eq_bytes_iff c.target6 []),
  )

  module _ (t4 t6 : Bytes) (port : ℤ) (dir : Direction) (spec : Bytes) where
    module _ (min max step count interval limit : ℤ) where
      -- The parameters with the ports that were read.
      abbrev given : List ℤ → ClientConfig
      given ps = record {
        target4 = t4;
        target6 = t6;
        control_port = port;
        direction = dir;
        ports = ps;
        min_size = min;
        max_size = max;
        step = step;
        count = count;
        interval = interval;
        max_estimated_duration = limit;
      }

      -- A configuration that `NewClientConfig` returns holds the parameters as they were given and
      -- the ports that the specification stands for; it passes `Validate`, and its ports ascend
      -- strictly and lie between 1 and 65535.
      pub new_client_config_sound :
          (cfg : ClientConfig)
          → new_client_config parse_ip t4 t6 port dir spec min max step count interval limit
            ≡ ok cfg
          → (cfg ≡ given cfg.ports)
            × (parse_ports spec ≡ ok cfg.ports)
            × IsValid cfg
            × StrictlyAscending cfg.ports
            × All IsPort cfg.ports
      unfolding new_client_config
      new_client_config_sound cfg h = elim (Outcome-cases (parse_ports spec)) [
        | inl (e, bad) ↦ absurd (ground arith)
        | inr (ps, good) ↦
            let same : cfg ≡ given ps = ground arith in
            let sound = parse_ports_sound spec ps (pos 0) good in
            let passes : validate parse_ip (given ps) ≡ ok tt = ground arith in
            rw same (refl, good, (validate-IsValid (given ps)).0 passes, sound.1, sound.2)
      ]

      -- The other way round: parameters whose ports are read and which pass `Validate` with them
      -- are accepted.
      pub new_client_config_complete :
          (ps : List ℤ)
          → parse_ports spec ≡ ok ps
          → IsValid (given ps)
          → new_client_config parse_ip t4 t6 port dir spec min max step count interval limit
            ≡ ok (given ps)
      unfolding new_client_config
      new_client_config_complete ps e v = rw (e, (validate-IsValid (given ps)).1 v)
