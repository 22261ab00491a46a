-- ===== src/Report.antt =====
-- report.go: the results of the tests in groups, the critical size of each group, and the text of
-- the report. Floating point is a parameter, and so are the two library calls whose outcome the
-- language leaves open: `sort.Slice`, which is not stable, and the order in which `range` visits a
-- map. A result is a pointer in the code; nothing writes through it.
pub mod Externals
pub mod Filling
pub mod Groups
pub mod Critical
pub mod Determined
pub mod Format
use udp_measure.Prelude.{
  ℕ, length, Bool, true, false, not, ◌&&◌, Option, none, some, List, [], ◌∷◌, ◌++◌, map, Bytes,
  if◌then◌else◌,
}
use udp_measure.Prelude.Int.{ℤ, pos, ◌+ℤ◌, ◌==ℤ◌, ltb_ℤ, wrap64}
use udp_measure.Protocol.Types.{Direction, Family}
use udp_measure.Report.Externals.{Runtime, Floats}

pub record TestResult : Type 0 where
  pub target_address : Bytes
  pub family : Family
  pub direction : Direction
  pub udp_port : ℤ
  pub payload_size : ℤ
  pub sent : ℤ
  pub received : ℤ
  pub lost : ℤ

pub record GroupKey : Type 0 where
  pub family : Family
  pub port : ℤ
  pub direction : Direction

pub record Group : Type 0 where
  pub key : GroupKey
  pub results : List TestResult

abbrev pub key_of : TestResult → GroupKey
key_of r = record { family = r.family; port = r.udp_port; direction = r.direction }

-- `==` on keys.
abbrev pub same_key : GroupKey → GroupKey → Bool
same_key a b = a.family ==ℤ b.family && (a.port ==ℤ b.port && a.direction ==ℤ b.direction)

-- `groupsMap[key] = append(groupsMap[key], r)`, on a map that is a list of its entries.
unfoldable pub append_at : GroupKey → TestResult → List Group → List Group
append_at key r [] = record { key = key; results = r ∷ [] } ∷ []
append_at key r (g ∷ gs) =
    let rest = append_at key r gs in
    if same_key g.key key then record g { results = g.results ++ r ∷ [] } ∷ gs else g ∷ rest

-- The loop that fills `groupsMap`.
unfoldable pub fill_groups : List Group → List TestResult → List Group
fill_groups groups [] = groups
fill_groups groups (r ∷ rs) = fill_groups (append_at (key_of r) r groups) rs

abbrev pub size_less : TestResult → TestResult → Bool
size_less a b = ltb_ℤ a.payload_size b.payload_size

-- `groups[i].Key` before `groups[j].Key`.
abbrev pub key_less : GroupKey → GroupKey → Bool
key_less a b =
    if not (a.family ==ℤ b.family)
    then ltb_ℤ a.family b.family
    else if not (a.port ==ℤ b.port)
    then ltb_ℤ a.port b.port
    else ltb_ℤ a.direction b.direction

abbrev pub group_less : Group → Group → Bool
group_less a b = key_less a.key b.key

module _ (runtime : Runtime) where
  open runtime use {sort_slice, range_map}

  -- The loop over `groupsMap`.
  unfoldable pub sort_groups : List Group → List Group
  sort_groups [] = []
  sort_groups (g ∷ gs) = record g { results = sort_slice size_less g.results } ∷ sort_groups gs

  -- `AggregateResults`
  unfoldable pub aggregate_results : List TestResult → List Group
  unfolding sort_groups fill_groups
  aggregate_results results =
      sort_slice group_less (sort_groups (range_map (fill_groups [] results)))

module _ (floats : Floats) where
  open floats use {Float, of_int, mul, div, ge}

  -- `CriticalSizeResult`; a nil pointer is `none`.
  pub record CriticalSizeResult : Type 0 where
    pub key : GroupKey
    pub critical_size : Option ℤ
    pub threshold : Float

  -- `Report`
  pub record Summary : Type 0 where
    pub groups : List Group
    pub critical_sizes : List CriticalSizeResult
    pub total_tests : ℕ
    pub total_sent : ℤ
    pub total_received : ℤ
    pub estimated_duration : Bytes

  abbrev pub threshold_percent : Float
  threshold_percent = of_int (pos 5)

  -- `float64(part) / float64(whole) * 100`
  abbrev pub percent : ℤ → ℤ → Float
  percent part whole = mul (div (of_int part) (of_int whole)) (of_int (pos 100))

  -- `LossPercent`
  unfoldable pub loss_percent : TestResult → Float
  loss_percent r = if r.sent ==ℤ pos 0 then of_int (pos 0) else percent r.lost r.sent

  unfoldable pub find_critical_size : List TestResult → Float → Option ℤ
  unfolding loss_percent
  find_critical_size [] threshold = none
  find_critical_size (r ∷ rs) threshold =
      let rest = find_critical_size rs threshold in
      if ge (loss_percent r) threshold then some r.payload_size else rest

  unfoldable pub compute_critical_sizes : List Group → Float → List CriticalSizeResult
  unfolding find_critical_size
  compute_critical_sizes [] threshold = []
  compute_critical_sizes (g ∷ gs) threshold =
      record {
        key = g.key;
        critical_size = find_critical_size g.results threshold;
        threshold = threshold;
      }
      ∷ compute_critical_sizes gs threshold

  -- The loop that adds up one field, in 64-bit arithmetic.
  unfoldable pub add_up : ℤ → (TestResult → ℤ) → List TestResult → ℤ
  add_up total field [] = total
  add_up total field (r ∷ rs) = add_up (wrap64 (total +ℤ field r)) field rs

  -- `BuildReport`
  unfoldable pub build_report : Runtime → List TestResult → Bytes → Summary
  unfolding compute_critical_sizes add_up
  build_report runtime results duration =
      let groups = aggregate_results runtime results in
      record {
        groups = groups;
        critical_sizes = compute_critical_sizes groups threshold_percent;
        total_tests = length results;
        total_sent = add_up (pos 0) (λ r. r.sent) results;
        total_received = add_up (pos 0) (λ r. r.received) results;
        estimated_duration = duration;
      }
