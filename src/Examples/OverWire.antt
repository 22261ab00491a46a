-- ===== src/Examples/OverWire.antt =====
-- The client command over bytes, at a concrete input: one size in either direction.
use udp_measure.Prelude.{false, true, none, some, List, [], ◌∷◌, map, ok, refl, inl, inr, ◌≡◌}
use udp_measure.Prelude.Int.{pos, ◌+ℤ◌, ◌*ℤ◌, wrap64}
use udp_measure.Config.Sweep.{
  ClientConfig, SweepPlan, build_sweep_plan, validate, sizes_loop, determine_families,
  determine_directions,
}
use udp_measure.Config.Ports.{sort_ints, insert}
use udp_measure.Config.Duration.{estimate_duration, check_duration_limit}
use udp_measure.Control.Wire.Dialogue.{linked, over_wire}
use udp_measure.Control.Session.{new_session}
use udp_measure.Control.Session.Loop.{run}
use udp_measure.Cli.{test_params}
use udp_measure.Cli.Command.{finished, exit_status, run_client, print_report}
use udp_measure.Cli.Sweep.{fresh, entry_for}
use udp_measure.Cli.OverWire.{run_client-over_wire}
use udp_measure.Examples.Codec.{small, small-IsLawful}
use udp_measure.Examples.Cli.{library, peer, config, case_of}
use udp_measure.Examples.Wire.{
  client, server, no_rate, no_text, hello_carried, prepare_carried, prepare_down_carried,
  start_carried, complete_carried, fetch_carried, ready_carried, sent_carried, result_carried,
}

abbrev one_size : ClientConfig
one_size = record config { max_size = pos 100 }

abbrev plans : List SweepPlan
plans = case_of (pos 0) (pos 100) ∷ case_of (pos 1) (pos 100) ∷ []

planned : build_sweep_plan library.parse_ip 2 one_size ≡ ok (some plans)
unfolding build_sweep_plan validate sort_ints insert sizes_loop determine_families
    determine_directions ◌+ℤ◌ wrap64
planned = refl

in_time : check_duration_limit library.scale one_size plans ≡ none
unfolding check_duration_limit wrap64 ◌*ℤ◌
in_time = refl

run_client-over_wire_example :
    let world = over_wire small client server no_rate no_text peer 10 9 (pos 5000) in
    let end =
      (run_client library world (fresh linked) 2 one_size (linked 0 (run true new_session))).1 in
    (exit_status end ≡ 0)
    × (end
        ≡ finished
            (print_report library
              (map (entry_for one_size 10 9) plans)
              (library.duration_string (estimate_duration library.scale one_size plans)))
            false)
unfolding test_params
run_client-over_wire_example =
    run_client-over_wire library one_size small client server no_rate no_text peer 10 9 (pos 5000)
      small-IsLawful 2 plans (linked 0 (run true new_session)) planned in_time
      (
        inl (
          refl,
          (
            hello_carried,
            (prepare_carried, (start_carried, (complete_carried, (fetch_carried, tt)))),
          ),
          ((refl, ready_carried), ((refl, result_carried 10), tt)),
        ),
        (
          inr (
            refl,
            (hello_carried, (prepare_down_carried, (start_carried, (fetch_carried, tt)))),
            ((refl, ready_carried), ((refl, sent_carried), ((refl, result_carried 0), tt))),
          ),
          tt,
        ),
      )
      (refl, (refl, tt))
