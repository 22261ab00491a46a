-- ===== src/Report/Determined.antt =====
-- The critical sizes depend on the results alone, not on the order of the tests or on what the
-- language leaves open.
use mathlib.Core.List.{Permᴰ}
use mathlib.Core.List.Permᴰ
use mathlib.Core.Path.{ap₂, subst}
use udp_measure.Prelude.{
  arith, true, false, ◌||◌, List, [], ◌∷◌, All, ◌≡◌, refl, sym, ◌∙◌, Bool-cases, inl, inr,
}
use udp_measure.Report.Externals.{Runtime, IsLawful, Floats}
use udp_measure.Report.Filling.{of_key, has_group, has_result, same_key-eq, same_key_refl}
use udp_measure.Report.Groups.{group_less-IsWeakOrder, KeysAscend, aggregate_results_lem}
use udp_measure.Report.Critical.{
  IsLeast, IsLeast-perm, IsLeast-unique, IsGroupLeast, aggregate_results-IsGroupLeast, any_key,
}
use udp_measure.Report.{
  TestResult, Group, GroupKey, key_of, same_key, key_less, aggregate_results,
  compute_critical_sizes, find_critical_size,
}

of_key-perm :
    (k : GroupKey) {xs ys : List TestResult} → Permᴰ xs ys → Permᴰ (of_key k xs) (of_key k ys)
of_key-perm k Permᴰ.nil = Permᴰ.nil
of_key-perm k (Permᴰ.cons {a} {b} e p) = elim (Bool-cases (same_key (key_of b) k)) [
  | inl h ↦ rw (e, h) (Permᴰ.cons refl (of_key-perm k p))
  | inr h ↦ rw (e, h) (of_key-perm k p)
]
of_key-perm k (Permᴰ.swap {a'} {b'} {l = rs} e f) = elim (Bool-cases (same_key (key_of a') k)) [
  | inl h ↦ elim (Bool-cases (same_key (key_of b') k)) [
    | inl i ↦ rw (e, f, h, i) (Permᴰ.swap refl refl)
    | inr i ↦ rw (e, f, h, i) (Permᴰ.refl _)
  ]
  | inr h ↦ elim (Bool-cases (same_key (key_of b') k)) [
    | inl i ↦ rw (e, f, h, i) (Permᴰ.refl _)
    | inr i ↦ rw (e, f, h, i) (Permᴰ.refl _)
  ]
]
of_key-perm k (Permᴰ.trans p q) = Permᴰ.trans (of_key-perm k p) (of_key-perm k q)

has_result-perm :
    (k : GroupKey) {xs ys : List TestResult} → Permᴰ xs ys → has_result k xs ≡ has_result k ys
has_result-perm k Permᴰ.nil = refl
has_result-perm k (Permᴰ.cons e p) = ground (arith, e, has_result-perm k p)
has_result-perm k (Permᴰ.swap e f) = ground (arith, e, f)
has_result-perm k (Permᴰ.trans p q) = has_result-perm k p ∙ has_result-perm k q

-- Behind a key that is less than all that follow.
less_of_has :
    (a k : GroupKey) (gs : List Group)
    → All (λ h. key_less a h.key ≡ true) gs
    → has_group k gs ≡ true
    → key_less a k ≡ true
less_of_has a k [] h e = absurd (ground (arith, e))
less_of_has a k (g ∷ gs) (l, h) e = elim (Bool-cases (same_key g.key k)) [
  | inl same ↦ rw (← same_key-eq g.key k same) l
  | inr other ↦ less_of_has a k gs h (rw other at e)
]

pub key_less_irrefl : (a : GroupKey) → key_less a a ≡ false
key_less_irrefl a = ground arith

-- The heads of two ascending lists with the same keys.
heads_eq :
    (g h : Group) (gs hs : List Group)
    → All (λ x. key_less g.key x.key ≡ true) gs
    → All (λ x. key_less h.key x.key ≡ true) hs
    → has_group g.key (h ∷ hs) ≡ true
    → has_group h.key (g ∷ gs) ≡ true
    → g.key ≡ h.key
heads_eq g h gs hs low_g low_h e f = elim (Bool-cases (same_key h.key g.key)) [
  | inl same ↦ sym (same_key-eq h.key g.key same)
  | inr other ↦ elim (Bool-cases (same_key g.key h.key)) [
    | inl same ↦ same_key-eq g.key h.key same
    | inr other' ↦
        let up = less_of_has h.key g.key hs low_h (rw other at e) in
        let down = less_of_has g.key h.key gs low_g (rw other' at f) in
        absurd (ground (arith, up, group_less-IsWeakOrder.asymmetric h g up, down))
  ]
]

-- No key behind an ascending list's head is the head's.
fresh :
    (a : GroupKey) (gs : List Group)
    → All (λ h. key_less a h.key ≡ true) gs
    → has_group a gs ≡ false
fresh a gs low = elim (Bool-cases (has_group a gs)) [
  | inl e ↦ absurd (ground (arith, less_of_has a a gs low e, key_less_irrefl a))
  | inr e ↦ e
]

tails_same :
    (k a b : GroupKey) (gs hs : List Group)
    → a ≡ b
    → All (λ x. key_less a x.key ≡ true) gs
    → All (λ x. key_less b x.key ≡ true) hs
    → (same_key a k || has_group k gs) ≡ (same_key b k || has_group k hs)
    → has_group k gs ≡ has_group k hs
tails_same k a b gs hs e low_a low_b same = elim (Bool-cases (same_key a k)) [
  | inl t ↦
      let here = same_key-eq a k t in
      let none_g = rw here at (fresh a gs low_a) in
      let none_h = rw (sym e ∙ here) at (fresh b hs low_b) in none_g ∙ sym none_h
  | inr f ↦ rw (← e, f) at same
]

module _ (floats : Floats) (threshold : floats.Float) where
  -- Two lists of groups with the same keys, each ascending, whose critical sizes are those of the
  -- same results.
  same_sizes :
      (rs ss : List TestResult) (gs hs : List Group)
      → Permᴰ rs ss
      → KeysAscend gs
      → KeysAscend hs
      → ((k : GroupKey) → has_group k gs ≡ has_group k hs)
      → All (IsGroupLeast floats threshold rs) gs
      → All (IsGroupLeast floats threshold ss) hs
      → compute_critical_sizes floats gs threshold ≡ compute_critical_sizes floats hs threshold
  unfolding compute_critical_sizes
  same_sizes rs ss [] [] p _ _ _ _ _ = refl
  same_sizes rs ss [] (h ∷ hs) p _ _ same _ _ =
      absurd (ground (arith, same h.key, same_key_refl h.key))
  same_sizes rs ss (g ∷ gs) [] p _ _ same _ _ =
      absurd (ground (arith, same g.key, same_key_refl g.key))
  same_sizes rs ss (g ∷ gs) (h ∷ hs) p (low_g, up_g) (low_h, up_h) same (cg, all_g) (ch, all_h) =
      let e =
        heads_eq g h gs hs low_g low_h (sym (same g.key) ∙ rw (same_key_refl g.key))
          (same h.key ∙ rw (same_key_refl h.key)) in
      let sizes =
        IsLeast-unique floats threshold (find_critical_size floats g.results threshold)
          (find_critical_size floats h.results threshold) (of_key g.key rs) cg
          (IsLeast-perm floats threshold (find_critical_size floats h.results threshold)
            (of_key-perm g.key p)
            (subst
              (λ k.
                IsLeast floats threshold (find_critical_size floats h.results threshold)
                  (of_key k ss))
              (sym e) ch)) in
      ap₂ ◌∷◌ (ap₂ (λ k o. record { key = k; critical_size = o; threshold = threshold }) e sizes) (
        same_sizes rs ss gs hs p up_g up_h
          (λ k. tails_same k g.key h.key gs hs e low_g low_h (same k)) all_g all_h)

  -- Two runs of the client's report on the same results, in any order, with any way in which
  -- `sort.Slice` and the iteration over a map may turn out, compute the same list of critical sizes.
  pub critical_sizes_determined :
      (one two : Runtime) (rs ss : List TestResult)
      → IsLawful one
      → IsLawful two
      → Permᴰ rs ss
      → compute_critical_sizes floats (aggregate_results one rs) threshold
        ≡ compute_critical_sizes floats (aggregate_results two ss) threshold
  critical_sizes_determined one two rs ss law_one law_two p =
      let first = aggregate_results_lem one law_one rs in
      let second = aggregate_results_lem two law_two ss in
      same_sizes rs ss (aggregate_results one rs) (aggregate_results two ss) p (first any_key).0
        (second any_key).0 (λ k. (first k).2 ∙ has_result-perm k p ∙ sym (second k).2)
        (aggregate_results-IsGroupLeast floats threshold one rs law_one)
        (aggregate_results-IsGroupLeast floats threshold two ss law_two)
