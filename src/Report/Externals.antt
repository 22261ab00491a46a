-- ===== src/Report/Externals.antt =====
-- What report.go leaves to the language and its library: `sort.Slice`, the iteration over a map, and
-- floating point.
use mathlib.Core.List.{Permᴰ}
use udp_measure.Prelude.{Bool, true, false, List, [], ◌∷◌, All, Bytes, ◌≡◌}
use udp_measure.Prelude.Int.{ℤ}

-- `sort.Slice(xs, less)` and the entries of a map in the order in which `range` visits them.
pub record Runtime : Type 1 where
  pub sort_slice : {A : Type 0} → (A → A → Bool) → List A → List A
  pub range_map : {A : Type 0} → List A → List A

-- What `sort.Slice` asks of `less`.
pub record IsWeakOrder {A : Type 0} (less : A → A → Bool) : Type 0 where
  pub asymmetric : (a b : A) → less a b ≡ true → less b a ≡ false
  pub transitive : (a b c : A) → less b a ≡ false → less c b ≡ false → less c a ≡ false

-- No entry is less than an earlier one.
abbrev pub IsSorted : {A : Type 0} → (A → A → Bool) → List A → Type 0
IsSorted less [] = Unit
IsSorted less (x ∷ xs) = All (λ y. less y x ≡ false) xs × IsSorted less xs

-- As documented: both only rearrange, and the first one sorts.
pub record IsLawful (r : Runtime) : Type 1 where
  pub sort_slice-perm :
      {A : Type 0} (less : A → A → Bool) (xs : List A) → Permᴰ (r.sort_slice less xs) xs
  pub sort_slice-IsSorted :
      {A : Type 0} (less : A → A → Bool) (xs : List A)
      → IsWeakOrder less
      → IsSorted less (r.sort_slice less xs)
  pub range_map-perm : {A : Type 0} (xs : List A) → Permᴰ (r.range_map xs) xs

-- The operations of `float64` that the program uses; `show1` is the verb %.1f.
pub record Floats : Type 1 where
  pub Float : Type 0
  pub of_int : ℤ → Float
  pub mul : Float → Float → Float
  pub div : Float → Float → Float
  pub ge : Float → Float → Bool
  pub show1 : Float → Bytes
