-- ===== src/Report/Format/Lines.antt =====
-- The text of a report has the lines that `FormatReport` gathers, and in it each group stands with
-- its own critical size.
use mathlib.Core.Path.{ap₂}
use udp_measure.Prelude.{
  ℕ, codes, arith, true, false, List, [], ◌∷◌, ◌++◌, All, Bytes, ◌≡◌, refl, ap, ◌∙◌, Bool-cases,
  inl, inr, append-nil,
}
use udp_measure.Config.Text.{contains, split}
use udp_measure.Report.Externals.{Runtime, IsLawful, Floats}
use udp_measure.Report.Groups.{KeysAscend, aggregate_results_lem}
use udp_measure.Report.Critical.{any_key}
use udp_measure.Report.Filling.{same_key_refl, same_key-eq}
use udp_measure.Report.Determined.{key_less_irrefl}
use udp_measure.Report.{
  TestResult, GroupKey, Group, CriticalSizeResult, same_key, key_less, aggregate_results,
  find_critical_size, compute_critical_sizes, build_report, threshold_percent,
}
use udp_measure.Report.Format.{
  join_rest, join_lines, critical_line, critical_lines, group_line, result_lines, all_group_lines,
}

split-prefix :
    (sep : ℕ) (xs ys : Bytes)
    → contains sep xs ≡ false
    → split sep (xs ++ sep ∷ ys) ≡ xs ∷ split sep ys
unfolding split contains
split-prefix sep [] ys h = ground arith
split-prefix sep (x ∷ xs) ys h = ground (arith, split-prefix sep xs ys)

split_one : (sep : ℕ) (xs : Bytes) → contains sep xs ≡ false → split sep xs ≡ xs ∷ []
unfolding split contains
split_one sep [] h = refl
split_one sep (x ∷ xs) h = ground (arith, split_one sep xs)

-- The text of a report, split at its line ends, is the list of its lines, if none holds a line end.
pub split-join_lines :
    (line : Bytes) (lines : List Bytes)
    → contains b'\n' line ≡ false
    → All (λ l. contains b'\n' l ≡ false) lines
    → split b'\n' (join_lines (line ∷ lines)) ≡ line ∷ lines
unfolding join_lines
split-join_lines line [] h hs = rw (append-nil line) (split_one b'\n' line h)
split-join_lines line (l ∷ lines) h (hl, hs) =
    split-prefix b'\n' line (l ++ join_rest lines) h
    ∙ ap (◌∷◌ line) (split-join_lines l lines hl hs)

not_same_of_less : (a b : GroupKey) → key_less a b ≡ true → same_key a b ≡ false
not_same_of_less a b h = elim (Bool-cases (same_key a b)) [
  | inl same ↦ absurd (ground (arith, rw (same_key-eq a b same) at h, key_less_irrefl b))
  | inr other ↦ other
]

module _ (floats : Floats) where
  module _ (threshold : floats.Float) where
    abbrev IsOwnLine : List Group → Group → Type 0
    IsOwnLine gs g =
        critical_lines floats g.key (compute_critical_sizes floats gs threshold)
        ≡ critical_line floats (find_critical_size floats g.results threshold) threshold ∷ []

    own_past :
        (g : Group) (gs hs : List Group)
        → All (λ h. key_less g.key h.key ≡ true) hs
        → All (IsOwnLine gs) hs
        → All (IsOwnLine (g ∷ gs)) hs
    unfolding critical_lines compute_critical_sizes
    own_past g gs [] low h = tt
    own_past g gs (x ∷ hs) (l, low) (e, h) =
        (rw (not_same_of_less g.key x.key l) e, own_past g gs hs low h)

    All-own : (gs : List Group) → KeysAscend gs → All (IsOwnLine gs) gs
    unfolding critical_lines compute_critical_sizes
    All-own [] h = tt
    All-own (g ∷ gs) (low, h) = (rw (same_key_refl g.key), own_past g gs gs low (All-own gs h))

  -- The lines of the groups, each with the critical size of its own results.
  abbrev pub own_lines : List Group → List Bytes
  own_lines [] = []
  own_lines (g ∷ gs) =
      (group_line g
        ∷ (result_lines floats g.results
            ++ (critical_line floats
                  (find_critical_size floats g.results (threshold_percent floats))
                  (threshold_percent floats)
                ∷ (codes "" ∷ []))))
      ++ own_lines gs

  own_lines_lem :
      (cs : List (CriticalSizeResult floats)) (gs : List Group)
      → All
          (λ g.
            critical_lines floats g.key cs
            ≡ critical_line floats
                (find_critical_size floats g.results (threshold_percent floats))
                (threshold_percent floats)
              ∷ [])
          gs
      → all_group_lines floats cs gs ≡ own_lines gs
  unfolding all_group_lines
  own_lines_lem cs [] h = refl
  own_lines_lem cs (g ∷ gs) (e, h) =
      ap₂ ◌++◌
        (ap (λ own. group_line g ∷ (result_lines floats g.results ++ (own ++ (codes "" ∷ [])))) e)
        (own_lines_lem cs gs h)

  -- In the text of a report every group stands with the critical size of its own results: the loop
  -- that looks it up by its key finds it and no other.
  pub report_lines_own :
      (runtime : Runtime) (rs : List TestResult) (duration : Bytes)
      → IsLawful runtime
      → (let s = build_report floats runtime rs duration in
          all_group_lines floats s.critical_sizes s.groups)
        ≡ own_lines (aggregate_results runtime rs)
  unfolding build_report
  report_lines_own runtime rs duration lawful =
      let gs = aggregate_results runtime rs in
      own_lines_lem (compute_critical_sizes floats gs (threshold_percent floats)) gs
        (All-own (threshold_percent floats) gs (aggregate_results_lem runtime lawful rs any_key).0)
