-- ===== src/Examples/Report.antt =====
-- internal/report at concrete inputs.
use mathlib.Core.List.{Permᴰ}
use udp_measure.Prelude.{show_int, codes, none, some, List, [], ◌∷◌, ◌++◌, All, ◌≡◌, refl}
use udp_measure.Prelude.Int.{ℤ, pos, ◌*ℤ◌, ◌-ℤ◌, wrap64}
use udp_measure.Report.Externals.{IsSorted}
use udp_measure.Report.{
  TestResult, GroupKey, key_of, size_less, append_at, aggregate_results, compute_critical_sizes,
  build_report, threshold_percent,
}
use udp_measure.Report.Filling.{of_key, has_group, has_result}
use udp_measure.Report.Groups.{KeysAscend, aggregate_results_lem}
use udp_measure.Report.Critical.{IsLeast, critical_sizes_lem}
use udp_measure.Report.Determined.{critical_sizes_determined}
use udp_measure.Report.Format.{join_lines, format_report}
use udp_measure.Report.Format.Lines.{split-join_lines}
use udp_measure.Config.Text.{split, contains}
use udp_measure.Examples.Runtime.{
  insertion_sort, forwards, backwards, forwards-IsLawful, backwards-IsLawful, fractions,
}

-- An IPv4 uplink result on port 9000 with so many packets lost of ten.
abbrev at_size : ℤ → ℤ → TestResult
at_size size lost = record {
  target_address = codes "192.0.2.1";
  family = pos 0;
  direction = pos 0;
  udp_port = pos 9000;
  payload_size = size;
  sent = pos 10;
  received = pos 10;
  lost = lost;
}

abbrev downlink : TestResult → TestResult
downlink r = record r { direction = pos 1 }

abbrev measured : List TestResult
measured =
    downlink (at_size (pos 600) (pos 0))
    ∷ at_size (pos 900) (pos 4)
    ∷ at_size (pos 300) (pos 0)
    ∷ at_size (pos 600) (pos 1)
    ∷ []

abbrev reordered : List TestResult
reordered =
    at_size (pos 900) (pos 4)
    ∷ downlink (at_size (pos 600) (pos 0))
    ∷ at_size (pos 300) (pos 0)
    ∷ at_size (pos 600) (pos 1)
    ∷ []

abbrev uplink_key : GroupKey
uplink_key = key_of (at_size (pos 300) (pos 0))

-- The uplink loses five percent at 600 bytes, the downlink nowhere.
measured_sizes :
    compute_critical_sizes fractions
      (aggregate_results backwards measured)
      (threshold_percent fractions)
    ≡ record {
      key = uplink_key;
      critical_size = some (pos 600);
      threshold = threshold_percent fractions;
    }
      ∷ record {
        key = key_of (downlink (at_size (pos 600) (pos 0)));
        critical_size = none;
        threshold = threshold_percent fractions;
      }
      ∷ []
unfolding compute_critical_sizes aggregate_results insertion_sort append_at ◌*ℤ◌
measured_sizes = refl

-- The text of a report without results.
empty_report :
    format_report fractions (build_report fractions forwards [] (codes "0s"))
    ≡ codes "=== UDP Diagnostic Report ==="
      ++ b'\n' ∷ codes "Estimated duration: 0s"
      ++ b'\n' ∷ b'\n' ∷ codes "--- Per-Size Results ---"
      ++ b'\n' ∷ codes "--- Summary ---"
      ++ b'\n' ∷ codes "Total: 0 tests, 0 sent, 0 received, 0 lost, overall loss=0/1%"
unfolding format_report build_report aggregate_results insertion_sort show_int ◌-ℤ◌ wrap64
empty_report = refl

aggregate_results_lem_example :
    KeysAscend (aggregate_results backwards measured)
    × All
        (λ g. Permᴰ g.results (of_key g.key measured) × IsSorted size_less g.results)
        (aggregate_results backwards measured)
    × (has_group uplink_key (aggregate_results backwards measured) ≡ has_result uplink_key measured)
aggregate_results_lem_example =
    aggregate_results_lem backwards backwards-IsLawful measured uplink_key

critical_sizes_lem_example :
    All
      (λ c.
        IsLeast fractions (threshold_percent fractions) c.critical_size (of_key c.key measured)
        × (c.threshold ≡ threshold_percent fractions))
      (compute_critical_sizes fractions
        (aggregate_results forwards measured)
        (threshold_percent fractions))
critical_sizes_lem_example =
    critical_sizes_lem fractions (threshold_percent fractions) forwards measured forwards-IsLawful

critical_sizes_determined_example :
    compute_critical_sizes fractions
      (aggregate_results forwards measured)
      (threshold_percent fractions)
    ≡ compute_critical_sizes fractions
        (aggregate_results backwards reordered)
        (threshold_percent fractions)
critical_sizes_determined_example =
    critical_sizes_determined fractions (threshold_percent fractions) forwards backwards measured
      reordered forwards-IsLawful backwards-IsLawful (Permᴰ.swap refl refl)

split-join_lines_example :
    split b'\n' (join_lines (codes "one" ∷ codes "two" ∷ [])) ≡ codes "one" ∷ codes "two" ∷ []
unfolding contains
split-join_lines_example = split-join_lines (codes "one") (codes "two" ∷ []) refl (refl, tt)
