-- ===== src/Cli/Whole.antt =====
-- The client command as a whole, from a configuration to the text that it prints.
use udp_measure.Prelude.{ap, ℕ, false, Option, none, some, List, [], map, All, Bytes, ok, ◌≡◌, refl}
use udp_measure.Prelude.Int.{ℤ}
use udp_measure.Config.Sweep.{ClientConfig, SweepPlan, build_sweep_plan}
use udp_measure.Config.Duration.{estimate_duration, check_duration_limit}
use udp_measure.Control.Session.{Session, Message, Response, Peer}
use udp_measure.Control.Client.Calls.{World}
use udp_measure.Control.Client.Against.{Joint, Joins, against, against-Joins}
use udp_measure.Report.{TestResult}
use udp_measure.Cli.{Gathered, run_plans}
use udp_measure.Cli.Command.{
  Library, ClientEnd, finished, exit_status, run_client, conclude_client, print_report,
}
use udp_measure.Cli.Targets.{build_sweep_plan-IsRunnable}
use udp_measure.Cli.Sweep.{
  fresh, fresh_sessions, IsCompatible, IsExchanged, IsRunnable-IsExchanged, entry_for,
  run_plans-joined,
}

module _ {S : Type 0} {world : World S} {put : ℕ → Session → S} {peer : Peer} {arrived matched : ℕ}
    {port : ℤ} {IsSent : Message → Type 0} {IsHeard : Response → Type 0}
    (joins : Joins world put peer arrived matched port IsSent IsHeard) (lib : Library)
    (cfg : ClientConfig) where
  conclude_client-printed :
      (results : List TestResult) (duration : Bytes) (r : S × Option Gathered)
      → r.1 ≡ some (record { results = results; has_failure = false })
      → (conclude_client lib duration r).1 ≡ finished (print_report lib results duration) false
  conclude_client-printed results duration (s, o) e = rw e refl

  -- What the client ends with.
  abbrev pub sweep_end : List SweepPlan → ClientEnd
  sweep_end plans =
      finished
        (print_report lib (map (entry_for cfg arrived matched) plans)
          (lib.duration_string (estimate_duration lib.scale cfg plans)))
        false

  -- The client in a world that joins it with a session that has just begun for each test case.
  pub run_client-joined :
      (fuel : ℕ) (plans : List SweepPlan) (s : S)
      → build_sweep_plan lib.parse_ip fuel cfg ≡ ok (some plans)
      → check_duration_limit lib.scale cfg plans ≡ none
      → All (IsExchanged joins cfg) plans
      → All (IsCompatible peer) plans
      → (run_client lib world (fresh put) fuel cfg s).1 ≡ sweep_end plans
  unfolding run_client
  run_client-joined fuel plans s built short exchanged accepted =
      let begun : Gathered = record { results = []; has_failure = false } in
      let sweep = run_plans world (fresh put) cfg plans begun s in
      let runs : sweep.1
          ≡ some (record {
            results = map (entry_for cfg arrived matched) plans;
            has_failure = false;
          }) =
        run_plans-joined joins cfg plans begun s exchanged accepted in
      let ends =
        conclude_client-printed (map (entry_for cfg arrived matched) plans)
          (lib.duration_string (estimate_duration lib.scale cfg plans)) sweep runs in
      rw (run_client, built, short) ends

module _ (lib : Library) (peer : Peer) (cfg : ClientConfig) where
  pub run_client-against :
      (fuel : ℕ) (plans : List SweepPlan) (arrived matched : ℕ) (port : ℤ) (s : Joint)
      → build_sweep_plan lib.parse_ip fuel cfg ≡ ok (some plans)
      → check_duration_limit lib.scale cfg plans ≡ none
      → All (IsCompatible peer) plans
      → let end =
          (run_client lib (against peer arrived matched port) fresh_sessions fuel cfg s).1 in
        (exit_status end ≡ 0)
        × (end
            ≡ finished
                (print_report lib
                  (map (entry_for cfg arrived matched) plans)
                  (lib.duration_string (estimate_duration lib.scale cfg plans)))
                false)
  run_client-against fuel plans arrived matched port s built short accepted =
      let joins = against-Joins peer arrived matched port in
      let exchanged =
        IsRunnable-IsExchanged peer arrived matched port cfg plans
          (build_sweep_plan-IsRunnable lib.parse_ip fuel cfg plans built) in
      let ends = run_client-joined joins lib cfg fuel plans s built short exchanged accepted in
      (ap exit_status ends, ends)
