-- ===== src/Cli.antt =====
-- cmd/udpdiag/main.go: the client command, from its flags to the report. The connection is a
-- parameter: dialling a server, hanging up, and the world in which the dialogue of `Control.Client`
-- takes place. So are `time.ParseDuration`, `Duration.String`, and what the configuration and the
-- report take as parameters. The flags are those that the flag package has read.
pub mod Targets
pub mod Sweep
pub mod Command
pub mod Whole
pub mod Main
pub mod Defaults
pub mod OverWire
use udp_measure.Prelude.{
  ℕ, zero, suc, ◌/◌, Bool, true, false, not, ◌||◌, Option, none, some, List, [], ◌∷◌, ◌++◌, ◌==◌,
  Bytes, eq_bytes, Outcome, ok, err, show_int, if◌then◌else◌,
}
use udp_measure.Prelude.Int.{ℤ, pos, negsuc, ◌-ℤ◌, ◌==ℤ◌}
use udp_measure.Protocol.Types.{
  ParseError, parse_direction, direction_uplink, direction_downlink, direction_both, family_ipv6,
}
use udp_measure.Net.{join_host_port}
use udp_measure.Config.Sweep.{
  ClientConfig, SweepPlan, ConfigError, IpKind, new_client_config, build_sweep_plan,
}
use udp_measure.Config.Duration.{DurationError, estimate_duration, check_duration_limit}
use udp_measure.Control.Client
use udp_measure.Control.Client.{TestParams, run_uplink, run_downlink, run_both}
use udp_measure.Control.Client.Calls.{World, ClientError}
use udp_measure.Report.{TestResult, Summary, build_report}
use udp_measure.Report.Externals.{Runtime, Floats}
use udp_measure.Report.Format.{format_report}

-- `Duration.Milliseconds`, which rounds towards zero.
abbrev pub milliseconds : ℤ → ℤ
milliseconds (pos n) = pos (n / 1000000)
milliseconds (negsuc n) = pos 0 -ℤ pos (suc n / 1000000)

-- `cfg.Target4`, or `cfg.Target6` for a plan of that family.
abbrev pub target_address : ClientConfig → SweepPlan → Bytes
target_address cfg plan = if plan.family ==ℤ family_ipv6 then cfg.target6 else cfg.target4

-- `controlTarget`
unfoldable pub control_target : ClientConfig → SweepPlan → Bytes
control_target cfg plan =
    let preferred = target_address cfg plan in
    if eq_bytes preferred []
    then if not (eq_bytes cfg.target4 []) then cfg.target4 else cfg.target6
    else preferred

unfoldable pub server_addr : ClientConfig → SweepPlan → Bytes
unfolding control_target join_host_port
server_addr cfg plan = join_host_port (control_target cfg plan) (show_int cfg.control_port)

unfoldable pub test_params : ClientConfig → SweepPlan → TestParams
test_params cfg plan = record {
  direction = plan.direction;
  family = plan.family;
  target4 = cfg.target4;
  target6 = cfg.target6;
  port = plan.port;
  payload_size = plan.payload_size;
  packet_count = cfg.count;
  interval_ms = milliseconds cfg.interval;
}

-- The entry of the report for one result.
unfoldable pub report_result : ClientConfig → SweepPlan → Client.TestResult → TestResult
report_result cfg plan r = record {
  target_address = target_address cfg plan;
  family = plan.family;
  direction = r.direction;
  udp_port = plan.port;
  payload_size = plan.payload_size;
  sent = r.sent;
  received = r.received;
  lost = r.lost;
}

abbrev pub report_results : ClientConfig → SweepPlan → List Client.TestResult → List TestResult
report_results cfg plan [] = []
report_results cfg plan (r ∷ rs) = report_result cfg plan r ∷ report_results cfg plan rs

-- The end of one round of the loop over the plans: the program exits, or the test failed, or it
-- has results.
pub data RoundEnd : Type 0 where
  unconnected : RoundEnd
  test_failed : ClientError → RoundEnd
  tested : List Client.TestResult → RoundEnd

-- `control.NewClientConn` and `Close`.
pub record Dialer (S : Type 0) : Type 0 where
  pub dial : Bytes → S → S × Bool
  pub hang_up : S → S

-- What the loop has gathered: `reportResults` and `hasFailure`.
pub record Gathered : Type 0 where
  pub results : List TestResult
  pub has_failure : Bool

abbrev pub one_result :
    {S : Type 0}
    → S × Outcome ClientError Client.TestResult
    → S × Outcome ClientError (List Client.TestResult)
one_result (s, ok r) = (s, ok (r ∷ []))
one_result (s, err e) = (s, err e)

module _ {S : Type 0} (world : World S) (dialer : Dialer S) where
  -- `client.Close()` and the assignment of `testErr` or `results`.
  abbrev pub conclude : S × Outcome ClientError (List Client.TestResult) → S × RoundEnd
  conclude (s, ok rs) = (dialer.hang_up s, tested rs)
  conclude (s, err e) = (dialer.hang_up s, test_failed e)

  -- What a case of the switch does once it is connected.
  abbrev on_connection :
      (S → S × Outcome ClientError (List Client.TestResult)) → S × Bool → S × RoundEnd
  on_connection test (s, true) = conclude (test s)
  on_connection test (s, false) = (s, unconnected)

  unfoldable pub run_plan : ClientConfig → SweepPlan → S → S × RoundEnd
  unfolding server_addr
  run_plan cfg plan s =
      let params = test_params cfg plan in
      let addr = server_addr cfg plan in
      if plan.direction ==ℤ direction_uplink
      then on_connection (λ t. one_result (run_uplink world params t)) (dialer.dial addr s)
      else if plan.direction ==ℤ direction_downlink
      then on_connection (λ t. one_result (run_downlink world params t)) (dialer.dial addr s)
      else if plan.direction ==ℤ direction_both
      then on_connection (run_both world params) (dialer.dial addr s)
      else (s, tested [])

  -- The loop over the plans; `none` stands for `os.Exit(1)`.
  unfoldable pub run_plans : ClientConfig → List SweepPlan → Gathered → S → S × Option Gathered
  unfolding run_plan report_result
  run_plans cfg [] g s = (s, some g)
  run_plans cfg (plan ∷ plans) g s =
      let (t, end) = run_plan cfg plan s in
      elim end [
        | unconnected ↦ (t, none)
        | test_failed _ ↦ run_plans cfg plans (record g { has_failure = true }) t
        | tested rs ↦
            run_plans cfg plans (record g { results = g.results ++ report_results cfg plan rs }) t
      ]
