-- ===== src/Report/Format.antt =====
-- `FormatReport` and `joinLines`: the text of a report, line by line.
pub mod Lines
use udp_measure.Prelude.{
  ℕ, Bool, true, false, ◌&&◌, Option, none, some, List, [], ◌∷◌, ◌++◌, Bytes, codes, eq_bytes, not,
  show_int, pieces, if◌then◌else◌,
}
use udp_measure.Prelude.Int.{ℤ, pos, ◌-ℤ◌, ◌==ℤ◌, ltb_ℤ, wrap64}
use udp_measure.Protocol.Types.{family_ipv6, direction_downlink}
use udp_measure.Report.Externals.{Floats}
use udp_measure.Report.{
  TestResult, GroupKey, Group, same_key, CriticalSizeResult, Summary, loss_percent, percent,
}

-- `joinLines`, behind the first line.
abbrev pub join_rest : List Bytes → Bytes
join_rest [] = []
join_rest (line ∷ lines) = b'\n' ∷ line ++ join_rest lines

unfoldable pub join_lines : List Bytes → Bytes
join_lines [] = []
join_lines (line ∷ lines) = line ++ join_rest lines

-- `g.Results[0].TargetAddress`, if there is one.
abbrev pub first_target : List TestResult → Bytes
first_target [] = []
first_target (r ∷ rs) = r.target_address

unfoldable pub group_line : Group → Bytes
group_line g = pieces (
    codes "target: "
    ∷ first_target g.results
    ∷ codes "  family: "
    ∷ (if g.key.family ==ℤ family_ipv6 then codes "ipv6" else codes "ipv4")
    ∷ codes "  direction: "
    ∷ (if g.key.direction ==ℤ direction_downlink then codes "downlink" else codes "uplink")
    ∷ codes "  port: "
    ∷ show_int g.key.port
    ∷ [])

module _ (floats : Floats) where
  open floats use {Float, show1, of_int}

  unfoldable pub result_line : TestResult → Bytes
  result_line r = pieces (
      codes "  size="
      ∷ show_int r.payload_size
      ∷ codes "  sent="
      ∷ show_int r.sent
      ∷ codes "  received="
      ∷ show_int r.received
      ∷ codes "  lost="
      ∷ show_int r.lost
      ∷ codes "  loss="
      ∷ show1 (loss_percent floats r)
      ∷ codes "%"
      ∷ [])

  -- The loop over a group's results.
  unfoldable pub result_lines : List TestResult → List Bytes
  result_lines [] = []
  result_lines (r ∷ rs) = result_line r ∷ result_lines rs

  unfoldable pub critical_line : Option ℤ → Float → Bytes
  critical_line (some size) threshold = pieces (
      codes "  critical_size="
      ∷ show_int size
      ∷ codes " (observed threshold: "
      ∷ show1 threshold
      ∷ codes "% loss first reached at this size)"
      ∷ [])
  critical_line none threshold = pieces (
      codes "  critical_size=none (no size reached "
      ∷ show1 threshold
      ∷ codes "% observed threshold)"
      ∷ [])

  -- The loop over `r.CriticalSizes`, which the first one of the key breaks.
  unfoldable pub critical_lines : GroupKey → List (CriticalSizeResult floats) → List Bytes
  critical_lines key [] = []
  critical_lines key (c ∷ cs) =
      let rest = critical_lines key cs in
      if same_key c.key key then critical_line c.critical_size c.threshold ∷ [] else rest

  -- One round of the loop over the groups.
  abbrev pub group_lines : List (CriticalSizeResult floats) → Group → List Bytes
  group_lines cs g =
      group_line g ∷ (result_lines g.results ++ (critical_lines g.key cs ++ (codes "" ∷ [])))

  unfoldable pub all_group_lines : List (CriticalSizeResult floats) → List Group → List Bytes
  all_group_lines cs [] = []
  all_group_lines cs (g ∷ gs) = group_lines cs g ++ all_group_lines cs gs

  abbrev header_lines : Bytes → List Bytes
  header_lines duration =
      codes "=== UDP Diagnostic Report ==="
        ∷ (if eq_bytes duration []
            then []
            else pieces (codes "Estimated duration: " ∷ duration ∷ []) ∷ [])
      ++ codes "" ∷ codes "--- Per-Size Results ---" ∷ []

  unfoldable pub total_line : Summary floats → Bytes
  total_line s =
      let lost = wrap64 (s.total_sent -ℤ s.total_received) in
      let loss =
        if ltb_ℤ (pos 0) s.total_sent then percent floats lost s.total_sent else of_int (pos 0) in
      pieces (
        codes "Total: "
        ∷ show_int (pos s.total_tests)
        ∷ codes " tests, "
        ∷ show_int s.total_sent
        ∷ codes " sent, "
        ∷ show_int s.total_received
        ∷ codes " received, "
        ∷ show_int lost
        ∷ codes " lost, overall loss="
        ∷ show1 loss
        ∷ codes "%"
        ∷ [])

  -- The lines that `FormatReport` gathers.
  unfoldable pub report_lines : Summary floats → List Bytes
  unfolding all_group_lines total_line
  report_lines s =
      header_lines s.estimated_duration
      ++ all_group_lines s.critical_sizes s.groups
      ++ codes "--- Summary ---" ∷ total_line s ∷ []

  -- `FormatReport`
  unfoldable pub format_report : Summary floats → Bytes
  unfolding report_lines join_lines
  format_report s = join_lines (report_lines s)
