-- ===== src/Examples/Runtime.antt =====
-- A sort, two orders of iteration, and fractions, in place of what report.go leaves to the language.
use mathlib.Core.List.Permᴰ
use mathlib.Core.List.{Permᴰ, reverse}
use udp_measure.Prelude.{
  Bool, false, List, [], ◌∷◌, ◌++◌, All, show_int, Bool-cases, inl, inr, ◌≡◌, refl, if◌then◌else◌,
}
use udp_measure.Prelude.Int.{ℤ, pos, ◌*ℤ◌, leb_ℤ}
use udp_measure.Report.Externals.{Runtime, Floats, IsWeakOrder, IsSorted, IsLawful}

module _ {A : Type 0} (less : A → A → Bool) where
  unfoldable pub insert : A → List A → List A
  insert x [] = x ∷ []
  insert x (y ∷ ys) = let rest = insert x ys in if less y x then y ∷ rest else x ∷ y ∷ ys

  unfoldable pub insertion_sort : List A → List A
  unfolding insert
  insertion_sort [] = []
  insertion_sort (x ∷ xs) = insert x (insertion_sort xs)

  insert-perm : (x : A) (ys : List A) → Permᴰ (insert x ys) (x ∷ ys)
  unfolding insert
  insert-perm x [] = Permᴰ.refl (x ∷ [])
  insert-perm x (y ∷ ys) = elim (Bool-cases (less y x)) [
    | inl h ↦ rw h (Permᴰ.trans (Permᴰ.cons refl (insert-perm x ys)) (Permᴰ.swap refl refl))
    | inr h ↦ rw h (Permᴰ.refl (x ∷ y ∷ ys))
  ]

  insertion_sort-perm : (xs : List A) → Permᴰ (insertion_sort xs) xs
  unfolding insertion_sort
  insertion_sort-perm [] = Permᴰ.nil
  insertion_sort-perm (x ∷ xs) =
      Permᴰ.trans (insert-perm x (insertion_sort xs)) (Permᴰ.cons refl (insertion_sort-perm xs))

  insert-All : (P : A → Type 0) (x : A) (ys : List A) → P x → All P ys → All P (insert x ys)
  unfolding insert
  insert-All P x [] p h = (p, tt)
  insert-All P x (y ∷ ys) p (q, h) = elim (Bool-cases (less y x)) [
    | inl e ↦ rw e (q, insert-All P x ys p h)
    | inr e ↦ rw e (p, (q, h))
  ]

  module _ (order : IsWeakOrder less) where
    above :
        (x y : A) (ys : List A)
        → less y x ≡ false
        → All (λ z. less z y ≡ false) ys
        → All (λ z. less z x ≡ false) ys
    above x y [] h all = tt
    above x y (z ∷ ys) h (p, all) = (order.transitive x y z h p, above x y ys h all)

    insert-IsSorted : (x : A) (ys : List A) → IsSorted less ys → IsSorted less (insert x ys)
    unfolding insert
    insert-IsSorted x [] s = (tt, tt)
    insert-IsSorted x (y ∷ ys) (h, s) = elim (Bool-cases (less y x)) [
      | inl e ↦ rw e (
        insert-All (λ z. less z y ≡ false) x ys (order.asymmetric y x e) h,
        insert-IsSorted x ys s,
      )
      | inr e ↦ rw e ((e, above x y ys e h), (h, s))
    ]

    insertion_sort-IsSorted : (xs : List A) → IsSorted less (insertion_sort xs)
    unfolding insertion_sort
    insertion_sort-IsSorted [] = tt
    insertion_sort-IsSorted (x ∷ xs) =
        insert-IsSorted x (insertion_sort xs) (insertion_sort-IsSorted xs)

abbrev pub forwards : Runtime
forwards = record { sort_slice = insertion_sort; range_map = λ xs. xs }

abbrev pub backwards : Runtime
backwards = record { sort_slice = insertion_sort; range_map = reverse }

pub forwards-IsLawful : IsLawful forwards
forwards-IsLawful = record {
  sort_slice-perm = insertion_sort-perm;
  sort_slice-IsSorted = λ less xs order. insertion_sort-IsSorted less order xs;
  range_map-perm = Permᴰ.refl;
}

pub backwards-IsLawful : IsLawful backwards
backwards-IsLawful = record {
  sort_slice-perm = insertion_sort-perm;
  sort_slice-IsSorted = λ less xs order. insertion_sort-IsSorted less order xs;
  range_map-perm = Permᴰ.reverse;
}

-- A numerator and a denominator.
abbrev pub fractions : Floats
fractions = record {
  Float = ℤ × ℤ;
  of_int = λ n. (n, pos 1);
  mul = λ a b. (a.0 *ℤ b.0, a.1 *ℤ b.1);
  div = λ a b. (a.0 *ℤ b.1, a.1 *ℤ b.0);
  ge = λ a b. leb_ℤ (b.0 *ℤ a.1) (a.0 *ℤ b.1);
  show1 = λ a. show_int a.0 ++ b'/' ∷ show_int a.1;
}
