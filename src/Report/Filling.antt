-- ===== src/Report/Filling.antt =====
-- The map that `AggregateResults` fills: one entry for each key, which holds the results of the key
-- in the order of the tests.
use udp_measure.Prelude.{
  arith, Bool, true, false, ◌||◌, List, [], ◌∷◌, ◌++◌, All, if◌then◌else◌, ◌≡◌, refl, ap, sym, ◌∙◌,
  append_assoc, append-nil, Bool-cases, inl, inr,
}
use udp_measure.Prelude.Int.{==ℤ_iff}
use udp_measure.Report.{TestResult, GroupKey, Group, key_of, same_key, append_at, fill_groups}

pub same_key-eq : (a b : GroupKey) → same_key a b ≡ true → a ≡ b
same_key-eq a b h =
    ground
      (arith, ==ℤ_iff a.family b.family, ==ℤ_iff a.port b.port, ==ℤ_iff a.direction b.direction)

pub same_key_refl : (a : GroupKey) → same_key a a ≡ true
same_key_refl a =
    ground
      (arith, ==ℤ_iff a.family a.family, ==ℤ_iff a.port a.port, ==ℤ_iff a.direction a.direction)

-- The results of one key, in the order in which the tests were run.
abbrev pub of_key : GroupKey → List TestResult → List TestResult
of_key k [] = []
of_key k (r ∷ rs) = let rest = of_key k rs in if same_key (key_of r) k then r ∷ rest else rest

-- Is there a group, or a result, of this key?
abbrev pub has_group : GroupKey → List Group → Bool
has_group k [] = false
has_group k (g ∷ gs) = let rest = has_group k gs in same_key g.key k || rest

abbrev pub has_result : GroupKey → List TestResult → Bool
has_result k [] = false
has_result k (r ∷ rs) = let rest = has_result k rs in same_key (key_of r) k || rest

-- The entry of a key.
abbrev entry : GroupKey → List Group → List TestResult
entry k [] = []
entry k (g ∷ gs) = let rest = entry k gs in if same_key g.key k then g.results else rest

abbrev pub Distinct : List Group → Type 0
Distinct [] = Unit
Distinct (g ∷ gs) = All (λ h. same_key g.key h.key ≡ false) gs × Distinct gs

has_group-append_at :
    (k key : GroupKey) (r : TestResult) (gs : List Group)
    → has_group k (append_at key r gs) ≡ (has_group k gs || same_key key k)
unfolding append_at
has_group-append_at k key r [] = ground arith
has_group-append_at k key r (g ∷ gs) = elim (Bool-cases (same_key g.key key)) [
  | inl e ↦ rw (e, same_key-eq g.key key e) (ground arith)
  | inr e ↦ rw e (ground (arith, has_group-append_at k key r gs))
]

-- One result more, if its key is the one that is asked for.
abbrev one_if : Bool → TestResult → List TestResult
one_if b r = if b then r ∷ [] else []

append-one_if :
    (b : Bool) (r : TestResult) (xs ys : List TestResult)
    → (xs ++ one_if b r) ++ ys ≡ xs ++ (if b then r ∷ ys else ys)
append-one_if true r xs ys = append_assoc xs (r ∷ []) ys
append-one_if false r xs ys = ap (λ zs. zs ++ ys) (append-nil xs)

other_key : (a b c : GroupKey) → same_key a c ≡ true → same_key a b ≡ false → same_key b c ≡ false
other_key a b c f e = elim (Bool-cases (same_key b c)) [
  | inl t ↦ let f' = rw (sym (same_key-eq b c t)) at f in absurd (ground (arith, e, f'))
  | inr t ↦ t
]

entry-append_at :
    (k key : GroupKey) (r : TestResult) (gs : List Group)
    → entry k (append_at key r gs) ≡ entry k gs ++ one_if (same_key key k) r
unfolding append_at
entry-append_at k key r [] = ground arith
entry-append_at k key r (g ∷ gs) = elim (Bool-cases (same_key g.key key)) [
  | inl e ↦
      let same : same_key key k ≡ same_key g.key k =
        ap (λ x. same_key x k) (sym (same_key-eq g.key key e)) in
      elim (Bool-cases (same_key g.key k)) [
        | inl f ↦ rw (e, same, f)
        | inr f ↦ rw (e, same, f) (sym (append-nil (entry k gs)))
      ]
  | inr e ↦ elim (Bool-cases (same_key g.key k)) [
    | inl f ↦ rw (e, f, other_key g.key key k f e) (sym (append-nil g.results))
    | inr f ↦ rw (e, f) (entry-append_at k key r gs)
  ]
]

entry-fill_groups :
    (k : GroupKey) (gs : List Group) (rs : List TestResult)
    → entry k (fill_groups gs rs) ≡ entry k gs ++ of_key k rs
unfolding fill_groups
entry-fill_groups k gs [] = sym (append-nil (entry k gs))
entry-fill_groups k gs (r ∷ rs) =
    entry-fill_groups k (append_at (key_of r) r gs) rs
    ∙ rw (entry-append_at k (key_of r) r gs)
        (append-one_if (same_key (key_of r) k) r (entry k gs) (of_key k rs))

has_group-fill_groups :
    (k : GroupKey) (gs : List Group) (rs : List TestResult)
    → has_group k (fill_groups gs rs) ≡ (has_group k gs || has_result k rs)
unfolding fill_groups
has_group-fill_groups k gs [] = ground arith
has_group-fill_groups k gs (r ∷ rs) = ground (
  arith,
  has_group-fill_groups k (append_at (key_of r) r gs) rs,
  has_group-append_at k (key_of r) r gs,
)

pub not_same_sym : (a b : GroupKey) → same_key a b ≡ false → same_key b a ≡ false
not_same_sym a b h = other_key a b a (same_key_refl a) h

append_at_past :
    (g key : GroupKey) (r : TestResult) (gs : List Group)
    → same_key g key ≡ false
    → All (λ h. same_key g h.key ≡ false) gs
    → All (λ h. same_key g h.key ≡ false) (append_at key r gs)
unfolding append_at
append_at_past g key r [] e h = (e, tt)
append_at_past g key r (x ∷ gs) e (hx, h) = elim (Bool-cases (same_key x.key key)) [
  | inl same ↦ rw same (hx, h)
  | inr other ↦ rw other (hx, append_at_past g key r gs e h)
]

append_at-Distinct :
    (key : GroupKey) (r : TestResult) (gs : List Group)
    → Distinct gs
    → Distinct (append_at key r gs)
unfolding append_at
append_at-Distinct key r [] d = (tt, tt)
append_at-Distinct key r (g ∷ gs) (h, d) = elim (Bool-cases (same_key g.key key)) [
  | inl same ↦ rw same (h, d)
  | inr other ↦ rw other (append_at_past g.key key r gs other h, append_at-Distinct key r gs d)
]

pub fill_groups-Distinct :
    (gs : List Group) (rs : List TestResult) → Distinct gs → Distinct (fill_groups gs rs)
unfolding fill_groups
fill_groups-Distinct gs [] d = d
fill_groups-Distinct gs (r ∷ rs) d =
    fill_groups-Distinct (append_at (key_of r) r gs) rs (append_at-Distinct (key_of r) r gs d)

-- In a list of distinct keys each group is the entry of its key.
entry_past :
    (g : Group) (gs hs : List Group)
    → All (λ h. same_key g.key h.key ≡ false) hs
    → All (λ h. entry h.key gs ≡ h.results) hs
    → All (λ h. entry h.key (g ∷ gs) ≡ h.results) hs
entry_past g gs [] past h = tt
entry_past g gs (x ∷ hs) (p, past) (e, h) = (rw p e, entry_past g gs hs past h)

entry_own : (gs : List Group) → Distinct gs → All (λ g. entry g.key gs ≡ g.results) gs
entry_own [] d = tt
entry_own (g ∷ gs) (past, d) =
    (rw (same_key_refl g.key) refl, entry_past g gs gs past (entry_own gs d))

All-trans :
    (rs : List TestResult) (gs hs : List Group)
    → ((k : GroupKey) → entry k gs ≡ of_key k rs)
    → All (λ h. entry h.key gs ≡ h.results) hs
    → All (λ h. h.results ≡ of_key h.key rs) hs
All-trans rs gs [] e h = tt
All-trans rs gs (x ∷ hs) e (p, h) = (sym p ∙ e x.key, All-trans rs gs hs e h)

-- The filled map: its entries are the results of their keys, and its keys those of the results.
pub fill_groups_lem :
    (rs : List TestResult)
    → All (λ g. g.results ≡ of_key g.key rs) (fill_groups [] rs)
      × ((k : GroupKey) → has_group k (fill_groups [] rs) ≡ has_result k rs)
fill_groups_lem rs = (
  All-trans rs (fill_groups [] rs) (fill_groups [] rs) (λ k. entry-fill_groups k [] rs)
      (entry_own (fill_groups [] rs) (fill_groups-Distinct [] rs tt)),
  λ k. has_group-fill_groups k [] rs,
)
