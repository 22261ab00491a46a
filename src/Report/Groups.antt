-- ===== src/Report/Groups.antt =====
-- `AggregateResults`: a group for every key of a result and no other, in strict order, each with
-- exactly the results of its key by ascending size.
use mathlib.Core.List.{Permᴰ}
use mathlib.Core.Path.{subst}
use udp_measure.Prelude.{
  arith, Bool, true, false, not, List, [], ◌∷◌, All, All-perm, if◌then◌else◌, ◌≡◌, refl, sym, ◌∙◌,
}
use udp_measure.Prelude.Int.{ℤ, ◌==ℤ◌, ltb_ℤ, ==ℤ_iff, eq_of_parts}
use udp_measure.Report.Externals.{Runtime, IsLawful, IsWeakOrder, IsSorted}
use udp_measure.Report.Filling.{
  of_key, has_group, has_result, Distinct, fill_groups-Distinct, fill_groups_lem, not_same_sym,
}
use udp_measure.Report.{
  TestResult, GroupKey, Group, same_key, fill_groups, size_less, key_less, group_less, sort_groups,
  aggregate_results,
}

size_less-IsWeakOrder : IsWeakOrder size_less
size_less-IsWeakOrder = record {
  asymmetric = λ a b h. ground arith;
  transitive = λ a b c h k. ground arith;
}

-- One level of a lexicographic order.
abbrev before : ℤ → ℤ → Bool → Bool
before x y rest = if not (x ==ℤ y) then ltb_ℤ x y else rest

before_asymm :
    (x y : ℤ) (r s : Bool) → (r ≡ true → s ≡ false) → before x y r ≡ true → before y x s ≡ false
before_asymm x y r s h k = ground (arith, ==ℤ_iff x y, ==ℤ_iff y x)

before_trans :
    (x y z : ℤ) (r s t : Bool)
    → (r ≡ false → s ≡ false → t ≡ false)
    → before y x r ≡ false
    → before z y s ≡ false
    → before z x t ≡ false
before_trans x y z r s t h k l = ground (
  arith,
  ==ℤ_iff y x,
  ==ℤ_iff z y,
  ==ℤ_iff z x,
  eq_of_parts z x,
  eq_of_parts y x,
  eq_of_parts z y,
)

pub group_less-IsWeakOrder : IsWeakOrder group_less
group_less-IsWeakOrder = record {
  asymmetric = λ a b.
      before_asymm a.key.family b.key.family _ _
        (before_asymm a.key.port b.key.port _ _ (λ h. ground arith));
  transitive = λ a b c.
      before_trans a.key.family b.key.family c.key.family _ _ _
        (before_trans a.key.port b.key.port c.key.port _ _ _ (λ h k. ground arith));
}

has_group-perm : (k : GroupKey) {gs hs : List Group} → Permᴰ gs hs → has_group k gs ≡ has_group k hs
has_group-perm k Permᴰ.nil = refl
has_group-perm k (Permᴰ.cons e p) = ground (arith, e, has_group-perm k p)
has_group-perm k (Permᴰ.swap {a} {b} {l = gs} e f) = ground (arith, e, f)
has_group-perm k (Permᴰ.trans p q) = has_group-perm k p ∙ has_group-perm k q

abbrev Past : Group → List Group → Type 0
Past g gs = All (λ h. same_key g.key h.key ≡ false) gs

Distinct-perm : {gs hs : List Group} → Permᴰ gs hs → Distinct hs → Distinct gs
Distinct-perm Permᴰ.nil d = tt
Distinct-perm (Permᴰ.cons e p) (h, d) = (rw e (All-perm _ p h), Distinct-perm p d)
Distinct-perm (Permᴰ.swap {a} {b} {a'} {b'} {l = gs} e f) ((n, h), (k, d)) = (
  (rw (e, f) (not_same_sym a'.key b'.key n), subst (λ x. Past x gs) (sym e) k),
  (subst (λ x. Past x gs) (sym f) h, d),
)
Distinct-perm (Permᴰ.trans p q) d = Distinct-perm p (Distinct-perm q d)

-- Strictly ascending by family, then port, then direction.
abbrev pub KeysAscend : List Group → Type 0
KeysAscend [] = Unit
KeysAscend (g ∷ gs) = All (λ h. key_less g.key h.key ≡ true) gs × KeysAscend gs

key_less_total :
    (a b : GroupKey) → same_key a b ≡ false → key_less b a ≡ false → key_less a b ≡ true
key_less_total a b h k = ground (
  arith,
  eq_of_parts a.family b.family,
  eq_of_parts a.port b.port,
  eq_of_parts a.direction b.direction,
  ==ℤ_iff a.family b.family,
  ==ℤ_iff a.port b.port,
  ==ℤ_iff a.direction b.direction,
)

keys_past :
    (g : Group) (gs : List Group)
    → All (λ h. same_key g.key h.key ≡ false) gs
    → All (λ h. group_less h g ≡ false) gs
    → All (λ h. key_less g.key h.key ≡ true) gs
keys_past g [] d s = tt
keys_past g (x ∷ gs) (dx, d) (sx, s) = (key_less_total g.key x.key dx sx, keys_past g gs d s)

IsSorted-KeysAscend : (gs : List Group) → Distinct gs → IsSorted group_less gs → KeysAscend gs
IsSorted-KeysAscend [] d s = tt
IsSorted-KeysAscend (g ∷ gs) (past, d) (low, s) =
    (keys_past g gs past low, IsSorted-KeysAscend gs d s)

module _ (runtime : Runtime) (lawful : IsLawful runtime) (rs : List TestResult) where
  open runtime use {sort_slice, range_map}
  open lawful use {sort_slice-perm, sort_slice-IsSorted, range_map-perm}

  -- The results of its key, by ascending size.
  abbrev IsOwn : Group → Type 0
  IsOwn g = Permᴰ g.results (of_key g.key rs) × IsSorted size_less g.results

  sort_groups-IsOwn :
      (gs : List Group)
      → All (λ g. g.results ≡ of_key g.key rs) gs
      → All IsOwn (sort_groups runtime gs)
  unfolding sort_groups
  sort_groups-IsOwn [] h = tt
  sort_groups-IsOwn (g ∷ gs) (e, h) = (
    (
      subst (Permᴰ (sort_slice size_less g.results)) e (sort_slice-perm size_less g.results),
      sort_slice-IsSorted size_less g.results size_less-IsWeakOrder,
    ),
    sort_groups-IsOwn gs h,
  )

  has_group-sort_groups :
      (k : GroupKey) (gs : List Group) → has_group k (sort_groups runtime gs) ≡ has_group k gs
  unfolding sort_groups
  has_group-sort_groups k [] = refl
  has_group-sort_groups k (g ∷ gs) = ground (arith, has_group-sort_groups k gs)

  past-sort_groups :
      (key : GroupKey) (gs : List Group)
      → All (λ h. same_key key h.key ≡ false) gs
      → All (λ h. same_key key h.key ≡ false) (sort_groups runtime gs)
  unfolding sort_groups
  past-sort_groups key [] h = tt
  past-sort_groups key (g ∷ gs) (e, h) = (e, past-sort_groups key gs h)

  sort_groups-Distinct : (gs : List Group) → Distinct gs → Distinct (sort_groups runtime gs)
  unfolding sort_groups
  sort_groups-Distinct [] d = tt
  sort_groups-Distinct (g ∷ gs) (h, d) = (past-sort_groups g.key gs h, sort_groups-Distinct gs d)

  -- `AggregateResults` makes one group for every key of a result and for no other; the groups ascend
  -- strictly by family, port and direction; and each holds exactly the results of its key, as often
  -- as they occur, by ascending size. It does so whatever the order in which the map is visited and
  -- wherever `sort.Slice` leaves results of equal size.
  pub aggregate_results_lem :
      (k : GroupKey)
      → KeysAscend (aggregate_results runtime rs)
        × All
            (λ g. Permᴰ g.results (of_key g.key rs) × IsSorted size_less g.results)
            (aggregate_results runtime rs)
        × (has_group k (aggregate_results runtime rs) ≡ has_result k rs)
  unfolding aggregate_results
  aggregate_results_lem k =
      let filled = fill_groups [] rs in
      let visited = range_map filled in
      let sorted = sort_groups runtime visited in
      let (own, keys) = fill_groups_lem rs in
      let visits = range_map-perm filled in
      let arranges = sort_slice-perm group_less sorted in
      (
        IsSorted-KeysAscend (sort_slice group_less sorted)
            (Distinct-perm arranges
              (sort_groups-Distinct visited (Distinct-perm visits (fill_groups-Distinct [] rs tt))))
            (sort_slice-IsSorted group_less sorted group_less-IsWeakOrder),
        All-perm IsOwn arranges (sort_groups-IsOwn visited (All-perm _ visits own)),
        has_group-perm k arranges
            ∙ has_group-sort_groups k visited
            ∙ has_group-perm k visits
            ∙ keys k,
      )
