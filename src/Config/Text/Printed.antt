-- ===== src/Config/Text/Printed.antt =====
-- What the functions of `Config.Text` make of a number in decimal.
use mathlib.Core.List.{reverse, reverse-cons, reverse-reverse}
use udp_measure.Prelude.{
  ℕ, zero, suc, ◌+◌, ◌/◌, ◌%◌, ◌^◌, ◌≤◌, ◌<◌, arith, Bool, true, false, none, some, List, [], ◌∷◌,
  ◌++◌, append_assoc, append-nil, length, All, All-append, Bytes, not, ◌&&◌, ◌==◌, ltb, Bool-cases,
  inl, inr, ◌≡◌, ◌≢◌, refl, ap, ◌∙◌, sym, digits, show_int,
}
use udp_measure.Prelude.Int.{pos}
use udp_measure.Config.Text.{
  contains, split, spaces, reversed, after, after_any, drop_all, trim_space, is_digit, digits_value,
  atoi, signed, positive,
}

abbrev pub IsDigit : ℕ → Type 0
IsDigit c = (b'0' ≤ c) × (c ≤ b'9')

digits-IsDigit : (fuel n : ℕ) → All IsDigit (digits fuel n)
unfolding digits
digits-IsDigit zero n = tt
digits-IsDigit (suc fuel) n = elim (Bool-cases (ltb n 10)) [
  | inl small ↦
      let below : n < 10 = ground (arith, small) in rw small ((omega arith, omega arith), tt)
  | inr large ↦ rw large (
      All-append IsDigit (digits fuel (n / 10)) ((b'0' + n % 10) ∷ [])
        (digits-IsDigit fuel (n / 10)) ((omega arith, omega arith), tt))
]

snoc-ne-nil : (xs : Bytes) (c : ℕ) → xs ++ c ∷ [] ≢ []
snoc-ne-nil [] c = λ e. cc
snoc-ne-nil (x ∷ xs) c = λ e. cc

digits-ne-nil : (fuel n : ℕ) → digits (suc fuel) n ≢ []
unfolding digits
digits-ne-nil fuel n = ground (arith, snoc-ne-nil (digits fuel (n / 10)) (b'0' + n % 10))

digits_value-digits :
    (fuel n : ℕ) (rest : Bytes)
    → n < fuel
    → digits_value 0 (digits fuel n ++ rest) ≡ digits_value n rest
unfolding digits digits_value is_digit
digits_value-digits zero n rest h = absurd (omega arith)
digits_value-digits (suc fuel) n rest h = elim (Bool-cases (ltb n 10)) [
  | inl small ↦ rw small (ground arith)
  | inr large ↦
      let big : 10 ≤ n = ground (arith, large) in
      let before = digits_value-digits fuel (n / 10) ((b'0' + n % 10) ∷ rest) (omega arith) in
      rw (large, append_assoc, before) (ground arith)
]

-- None of these texts begins with c, and none is empty.
abbrev avoids : ℕ → List Bytes → Bool
avoids c [] = true
avoids c ([] ∷ ps) = false
avoids c ((p ∷ _) ∷ ps) = not (p == c) && avoids c ps

after_any-avoids :
    (c : ℕ) (s : Bytes) (ps : List Bytes) → avoids c ps ≡ true → after_any ps (c ∷ s) ≡ none
unfolding after_any after
after_any-avoids c s [] h = refl
after_any-avoids c s ([] ∷ ps) h = absurd (ground arith)
after_any-avoids c s ((p ∷ q) ∷ ps) h = ground (arith, after_any-avoids c s ps)

-- A digit neither begins a space nor ends one.
avoids-spaces : (c : ℕ) → IsDigit c → (avoids c spaces ≡ true) × (avoids c (reversed spaces) ≡ true)
avoids-spaces c h = (ground arith, ground arith)

drop_all-avoids :
    (ps : List Bytes) (fuel c : ℕ) (s : Bytes)
    → avoids c ps ≡ true
    → drop_all ps fuel (c ∷ s) ≡ c ∷ s
unfolding drop_all
drop_all-avoids ps zero c s h = refl
drop_all-avoids ps (suc fuel) c s h = rw (drop_all, after_any-avoids c s ps h) refl

drop_all-digits :
    (ps : List Bytes) (fuel : ℕ) (s : Bytes)
    → ((c : ℕ) → IsDigit c → avoids c ps ≡ true)
    → All IsDigit s
    → s ≢ []
    → drop_all ps fuel s ≡ s
drop_all-digits ps fuel [] free h some_digit = absurd (some_digit refl)
drop_all-digits ps fuel (c ∷ s) free (hc, hs) some_digit = drop_all-avoids ps fuel c s (free c hc)

reverse-IsDigit : (s : Bytes) → All IsDigit s → All IsDigit (reverse s)
reverse-IsDigit [] h = tt
reverse-IsDigit (c ∷ s) (hc, hs) =
    rw (reverse-cons c s) (All-append IsDigit (reverse s) (c ∷ []) (reverse-IsDigit s hs) (hc, tt))

reverse-ne-nil : (s : Bytes) → s ≢ [] → reverse s ≢ []
reverse-ne-nil s h e = h (sym (reverse-reverse s) ∙ ap reverse e)

pub trim_space-digits : (s : Bytes) → All IsDigit s → s ≢ [] → trim_space s ≡ s
unfolding trim_space
trim_space-digits s h some_digit =
    let left = drop_all-digits spaces (length s) s (λ c d. (avoids-spaces c d).0) h some_digit in
    let right =
      drop_all-digits (reversed spaces) (length s) (reverse s) (λ c d. (avoids-spaces c d).1)
        (reverse-IsDigit s h) (reverse-ne-nil s some_digit) in
    rw (left, right) (reverse-reverse s)

pub contains-digits : (sep : ℕ) (s : Bytes) → sep < b'0' → All IsDigit s → contains sep s ≡ false
unfolding contains
contains-digits sep [] low h = refl
contains-digits sep (c ∷ s) low h = ground (arith, contains-digits sep s low)

-- A separator that is no digit ends the first part.
pub split-digits :
    (sep : ℕ) (s rest : Bytes)
    → sep < b'0'
    → All IsDigit s
    → (split sep s ≡ s ∷ []) × (split sep (s ++ sep ∷ rest) ≡ s ∷ split sep rest)
unfolding split
split-digits sep [] rest low h = (refl, ground arith)
split-digits sep (c ∷ s) rest low h = ground (arith, split-digits sep s rest low)

atoi-IsDigit : (s : Bytes) → All IsDigit s → s ≢ [] → atoi s ≡ signed positive (digits_value 0 s)
unfolding atoi
atoi-IsDigit [] h some_digit = absurd (some_digit refl)
atoi-IsDigit (c ∷ s) h some_digit = ground arith

digits_value-show_int : (n : ℕ) → digits_value 0 (show_int (pos n)) ≡ some n
unfolding show_int digits_value
digits_value-show_int n =
    rw (append-nil (digits (suc n) n)) at (digits_value-digits (suc n) n [] (omega arith))

pub show_int-IsDigit : (n : ℕ) → All IsDigit (show_int (pos n))
unfolding show_int
show_int-IsDigit n = digits-IsDigit (suc n) n

pub show_int-ne-nil : (n : ℕ) → show_int (pos n) ≢ []
unfolding show_int
show_int-ne-nil n = digits-ne-nil n n

-- A number below 2 ^ 63 that was written in decimal is read by `Atoi` as it was.
pub atoi-show_int : (n : ℕ) → n < 2 ^ 63 → atoi (show_int (pos n)) ≡ some (pos n)
atoi-show_int n h =
    rw
      (
        atoi-IsDigit (show_int (pos n)) (show_int-IsDigit n) (show_int-ne-nil n),
        digits_value-show_int n,
      )
      (ground arith)
