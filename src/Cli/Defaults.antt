-- ===== src/Cli/Defaults.antt =====
-- The client command with a target and a port, and the defaults of its other flags.
use udp_measure.Prelude.{
  ℕ, suc, ◌≤◌, arith, false, none, some, ap, ◌∙◌, List, [], ◌∷◌, map, Bytes, codes, ok, show_int,
  ◌≡◌, refl,
}
use udp_measure.Prelude.Int.{ℤ, pos, wrap64, ◌+ℤ◌}
use udp_measure.Protocol.Types.{
  direction_uplink, direction_downlink, direction_both, family_ipv4, parse_direction,
}
use udp_measure.Config.Ports.{sort_ints, insert}
use udp_measure.Config.Ports.Meaning.{IsPort}
use udp_measure.Config.Ports.Printed.{parse_ports-printed}
use udp_measure.Config.Sweep.{
  ClientConfig, SweepPlan, ip4, validate, new_client_config, build_sweep_plan, determine_families,
  determine_directions, sizes_loop,
}
use udp_measure.Config.Duration.{estimate_duration, check_duration_limit, estimate_exact}
use udp_measure.Control.Session.{Peer}
use udp_measure.Control.Client.Against.{Joint, against}
use udp_measure.Control.Client.Calls.{World}
use udp_measure.Cli.{Dialer}
use udp_measure.Cli.Command.{Flags, Library, ClientEnd, finished, client_main, print_report}
use udp_measure.Cli.Sweep.{fresh_sessions, entry_for}
use udp_measure.Cli.Whole.{run_client-against}
use udp_measure.Cli.Main.{
  Process, flags_read, client_ends, status, default_flags, client_command, main,
}

-- `udpdiag client --target4 t --ports p`
abbrev pub given : Bytes → ℤ → Flags
given t p = record default_flags { target4 = t; ports = show_int p }

abbrev pub default_config : Bytes → ℤ → ClientConfig
default_config t p = record {
  target4 = t;
  target6 = [];
  control_port = pos 18080;
  direction = direction_both;
  ports = p ∷ [];
  min_size = pos 1200;
  max_size = pos 1472;
  step = pos 136;
  count = pos 100;
  interval = pos 10000000;
  max_estimated_duration = pos 300000000000;
}

abbrev case_of : ℤ → ℤ → ℤ → SweepPlan
case_of p direction size = record {
  family = family_ipv4;
  port = p;
  direction = direction;
  payload_size = size;
}

-- Three sizes in either direction.
abbrev pub default_plans : ℤ → List SweepPlan
default_plans p =
    case_of p direction_uplink (pos 1200)
    ∷ case_of p direction_uplink (pos 1336)
    ∷ case_of p direction_uplink (pos 1472)
    ∷ case_of p direction_downlink (pos 1200)
    ∷ case_of p direction_downlink (pos 1336)
    ∷ case_of p direction_downlink (pos 1472)
    ∷ []

client_command-flags :
    (process : Process) (lib : Library) {S : Type 0} (world : World S) (dialer : Dialer S)
    (fuel : ℕ) (args : List Bytes) (f : Flags) (s : S)
    → process.parse_client default_flags args ≡ flags_read f
    → (client_command process lib world dialer fuel args s).1
      ≡ client_ends (client_main lib world dialer fuel f s).1
unfolding client_command
client_command-flags process lib world dialer fuel args f s e = rw (client_command, e) refl

module _ (lib : Library) (c : ℕ) (t : Bytes) (p : ℤ) where
  default_plans_built :
      (fuel : ℕ)
      → lib.parse_ip (c ∷ t) ≡ ip4
      → build_sweep_plan lib.parse_ip (suc (suc (suc (suc fuel)))) (default_config (c ∷ t) p)
        ≡ ok (some (default_plans p))
  unfolding build_sweep_plan validate sort_ints insert determine_families determine_directions
      sizes_loop wrap64 ◌+ℤ◌
  default_plans_built fuel known = rw known refl

  default_config_made :
      IsPort p
      → lib.parse_ip (c ∷ t) ≡ ip4
      → new_client_config lib.parse_ip
          (c ∷ t)
          []
          (pos 18080)
          direction_both
          (show_int p)
          (pos 1200)
          (pos 1472)
          (pos 136)
          (pos 100)
          (pos 10000000)
          (pos 300000000000)
        ≡ ok (default_config (c ∷ t) p)
  unfolding new_client_config validate
  default_config_made port known = rw (parse_ports-printed p [] (port, tt) (tt, tt), known) refl

  default_in_time :
      (scaled : ℕ)
      → lib.scale (pos 1000000000) ≡ pos scaled
      → scaled ≤ 50000000000
      → check_duration_limit lib.scale (default_config (c ∷ t) p) (default_plans p) ≡ none
  unfolding check_duration_limit
  default_in_time scaled e few =
      let estimated =
        estimate_exact lib.scale (default_config (c ∷ t) p) (default_plans p) 10000000 100 scaled
          refl refl (omega arith) e (omega arith) in
      rw estimated (ground arith)

  module _ (peer : Peer) (arrived matched : ℕ) (port : ℤ) (s : Joint) where
    -- What the client ends with.
    abbrev pub default_end : ClientEnd
    default_end =
        finished
          (print_report lib
            (map (entry_for (default_config (c ∷ t) p) arrived matched) (default_plans p))
            (lib.duration_string
              (estimate_duration lib.scale (default_config (c ∷ t) p) (default_plans p))))
          false

    client_main-defaults :
        (fuel scaled : ℕ)
        → IsPort p
        → lib.parse_ip (c ∷ t) ≡ ip4
        → lib.parse_duration (codes "10ms") ≡ some (pos 10000000)
        → lib.parse_duration (codes "5m") ≡ some (pos 300000000000)
        → lib.scale (pos 1000000000) ≡ pos scaled
        → scaled ≤ 50000000000
        → (client_main lib
            (against peer arrived matched port)
            fresh_sessions
            (suc (suc (suc (suc fuel))))
            (given (c ∷ t) p)
            s).1
          ≡ default_end
    unfolding client_main parse_direction
    client_main-defaults fuel scaled is_port known interval limit e few =
        let made = default_config_made is_port known in
        let runs =
          run_client-against lib peer (default_config (c ∷ t) p) (suc (suc (suc (suc fuel))))
            (default_plans p) arrived matched port s (default_plans_built fuel known)
            (default_in_time scaled e few) (refl, (refl, (refl, (refl, (refl, (refl, tt)))))) in
        rw (interval, limit, made) runs.1

    -- The command `client` with an IPv4 target, one port from 1 to 65535 and the defaults of its other
    -- flags, against a server on connections that do not fail, with sessions whose goroutines run as
    -- soon as they can: it runs six tests, for payloads of 1200, 1336 and 1472 bytes, first from the
    -- client to the server and then back, prints the report of their six entries, which say that 100
    -- packets were sent and how many arrived in that direction, and exits with status 0. It relies on
    -- what time.ParseDuration makes of "10ms" and "5m", and on 1.1 times one second being at most 50
    -- seconds.
    pub main-defaults :
        (process : Process) (args : List Bytes) (fuel scaled : ℕ)
        → process.parse_client default_flags args ≡ flags_read (given (c ∷ t) p)
        → IsPort p
        → lib.parse_ip (c ∷ t) ≡ ip4
        → lib.parse_duration (codes "10ms") ≡ some (pos 10000000)
        → lib.parse_duration (codes "5m") ≡ some (pos 300000000000)
        → lib.scale (pos 1000000000) ≡ pos scaled
        → scaled ≤ 50000000000
        → let end =
            (main process lib
              (against peer arrived matched port)
              fresh_sessions
              (suc (suc (suc (suc fuel))))
              (codes "client" ∷ args)
              s).1 in
          (end ≡ client_ends default_end) × (status end ≡ some 0)
    unfolding main
    main-defaults process args fuel scaled flags is_port known interval limit e few =
        let ends = client_main-defaults fuel scaled is_port known interval limit e few in
        let run =
          client_command-flags process lib (against peer arrived matched port) fresh_sessions
            (suc (suc (suc (suc fuel)))) args (given (c ∷ t) p) s flags
          ∙ ap client_ends ends in
        (run, ap status run)
