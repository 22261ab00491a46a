-- ===== src/Cli/Command.antt =====
-- cmd/udpdiag/main.go: `clientMain`, from the values of the flags to the text that it prints.
use udp_measure.Prelude.{ℕ, Bool, false, Option, none, some, List, [], ◌∷◌, Bytes, ok, err}
use udp_measure.Prelude.Int.{ℤ}
use udp_measure.Protocol.Types.{ParseError, parse_direction}
use udp_measure.Config.Sweep.{
  ClientConfig, ConfigError, IpKind, new_client_config, build_sweep_plan,
}
use udp_measure.Config.Duration.{DurationError, estimate_duration, check_duration_limit}
use udp_measure.Control.Client.Calls.{World}
use udp_measure.Report.{TestResult, build_report}
use udp_measure.Report.Externals.{Runtime, Floats}
use udp_measure.Report.Format.{format_report}
use udp_measure.Cli.{Dialer, Gathered, run_plans}

-- The values of the client's flags.
pub record Flags : Type 0 where
  pub target4 : Bytes
  pub target6 : Bytes
  pub control_port : ℤ
  pub direction : Bytes
  pub ports : Bytes
  pub min_size : ℤ
  pub max_size : ℤ
  pub step : ℤ
  pub count : ℤ
  pub interval : Bytes
  pub max_estimated_duration : Bytes

-- What sends the program to its usage text and `os.Exit(1)` before any test.
pub data UsageError : Type 0 where
  bad_direction : ParseError → UsageError
  unread_interval unread_max_duration : UsageError
  bad_config : ConfigError → UsageError
  too_long : DurationError → UsageError

-- How the client ends: with exit status 1 before the first test or on a failed connection, or with
-- the text of the report, if there are results, and whether a test has failed. On `planning` the
-- fuel ran out.
pub data ClientEnd : Type 0 where
  usage : UsageError → ClientEnd
  planning connection_failed : ClientEnd
  finished : Option Bytes → Bool → ClientEnd

-- `os.Exit(1)`, or the end of `main`.
abbrev pub exit_status : ClientEnd → ℕ
exit_status (finished _ false) = 0
exit_status _ = 1

-- The library calls that the command rests on.
pub record Library : Type 1 where
  pub parse_ip : Bytes → IpKind
  pub scale : ℤ → ℤ
  pub parse_duration : Bytes → Option ℤ
  pub duration_string : ℤ → Bytes
  pub runtime : Runtime
  pub floats : Floats

module _ (lib : Library) where
  -- The aggregated report, if there are results.
  unfoldable pub print_report : List TestResult → Bytes → Option Bytes
  unfolding build_report format_report
  print_report [] duration = none
  print_report (r ∷ rs) duration =
      some (format_report lib.floats (build_report lib.floats lib.runtime (r ∷ rs) duration))

  -- The end of `clientMain`.
  abbrev pub conclude_client : {S : Type 0} → Bytes → S × Option Gathered → S × ClientEnd
  conclude_client duration (s, none) = (s, connection_failed)
  conclude_client duration (s, some g) =
      (s, finished (print_report g.results duration) g.has_failure)

module _ (lib : Library) {S : Type 0} (world : World S) (dialer : Dialer S) where
  -- From the configuration on.
  unfoldable pub run_client : ℕ → ClientConfig → S → S × ClientEnd
  unfolding build_sweep_plan estimate_duration check_duration_limit run_plans print_report
  run_client fuel cfg s = elim (build_sweep_plan lib.parse_ip fuel cfg) [
    | err e ↦ (s, usage (bad_config e))
    | ok none ↦ (s, planning)
    | ok (some plans) ↦ elim (check_duration_limit lib.scale cfg plans) [
      | some e ↦ (s, usage (too_long e))
      | none ↦
          conclude_client lib (lib.duration_string (estimate_duration lib.scale cfg plans))
            (run_plans world dialer cfg plans (record { results = []; has_failure = false }) s)
    ]
  ]

  -- `clientMain`, behind the parsing of the flags.
  unfoldable pub client_main : ℕ → Flags → S → S × ClientEnd
  unfolding parse_direction new_client_config run_client
  client_main fuel f s = elim (parse_direction f.direction) [
    | err e ↦ (s, usage (bad_direction e))
    | ok dir ↦ elim (lib.parse_duration f.interval) [
      | none ↦ (s, usage unread_interval)
      | some interval ↦ elim (lib.parse_duration f.max_estimated_duration) [
        | none ↦ (s, usage unread_max_duration)
        | some limit ↦
            elim (new_client_config lib.parse_ip f.target4 f.target6 f.control_port dir f.ports
              f.min_size f.max_size f.step f.count interval limit) [
                | err e ↦ (s, usage (bad_config e))
                | ok cfg ↦ run_client fuel cfg s
              ]
      ]
    ]
  ]
