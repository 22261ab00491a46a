-- ===== src/Cli/OverWire.antt =====
-- The client command against a server that it reaches over bytes. One id of the client and one of the
-- sessions stand for those of all tests, which neither end reads.
use udp_measure.Prelude.{ℕ, false, none, some, List, map, All, Bytes, ok, ap, ◌≡◌}
use udp_measure.Prelude.Int.{ℤ}
use udp_measure.Protocol.Envelope.{Json}
use udp_measure.Protocol.Envelope.RoundTrip.{IsLawful}
use udp_measure.Config.Sweep.{ClientConfig, SweepPlan, build_sweep_plan}
use udp_measure.Config.Duration.{estimate_duration, check_duration_limit}
use udp_measure.Control.Session.{Fault, Peer}
use udp_measure.Control.Wire.Dialogue.{Link, linked, over_wire, over_wire-Joins}
use udp_measure.Cli.Command.{Library, finished, exit_status, run_client, print_report}
use udp_measure.Cli.Sweep.{fresh, IsCompatible, IsExchanged, entry_for}
use udp_measure.Cli.Whole.{run_client-joined}

module _ (lib : Library) (cfg : ClientConfig) (json : Json) (client_id session_id : Bytes)
    (loss_rate : ℤ → ℤ → json.Float) (library : Fault → Bytes) (peer : Peer) (arrived matched : ℕ)
    (port : ℤ) (lawful : IsLawful json) where
  -- What is sent in a test can be encoded, in 1 to 1048576 bytes, and holds UTF-8.
  abbrev pub IsCarriedTest : SweepPlan → Type 0
  IsCarriedTest =
      IsExchanged
        (over_wire-Joins json client_id session_id loss_rate library peer arrived matched port
          lawful)
        cfg

  -- The client on a configuration whose plan is built and keeps the limit, against a server that
  -- accepts the families of the plan, over the bytes that both ends write, each piece of which
  -- arrives in one segment on connections that do not fail: if the messages of the dialogues can be
  -- encoded, in 1 to 1048576 bytes, and hold UTF-8, and the sessions' goroutines run as soon as they
  -- can, the client ends with status 0, and prints the report of one entry for each test case of the
  -- plan, in its order, with the packet count as sent and the packets that arrive in its direction,
  -- the same number in every test case, as received.
  pub run_client-over_wire :
      (fuel : ℕ) (plans : List SweepPlan) (s : Link)
      → build_sweep_plan lib.parse_ip fuel cfg ≡ ok (some plans)
      → check_duration_limit lib.scale cfg plans ≡ none
      → All IsCarriedTest plans
      → All (IsCompatible peer) plans
      → let world =
          over_wire json client_id session_id loss_rate library peer arrived matched port in
        let end = (run_client lib world (fresh linked) fuel cfg s).1 in
        (exit_status end ≡ 0)
        × (end
            ≡ finished
                (print_report lib
                  (map (entry_for cfg arrived matched) plans)
                  (lib.duration_string (estimate_duration lib.scale cfg plans)))
                false)
  run_client-over_wire fuel plans s built short carried accepted =
      let joins =
        over_wire-Joins json client_id session_id loss_rate library peer arrived matched port
          lawful in
      let ends = run_client-joined joins lib cfg fuel plans s built short carried accepted in
      (ap exit_status ends, ends)
