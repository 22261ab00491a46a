-- ===== src/Prelude/Errors.antt =====
-- Go's pairs `(value, error)` where the value counts only if the error is nil, and the strings and
-- byte slices of the program, which are lists of bytes.
use Prim.Native.Char.{code}
use Prim.Native.String.{String}
use Prim.Native.Nat.{ℕ}
use mathlib.Core.Path.{◌≡◌, refl}
use mathlib.Core.Logic.{◌↔◌, ◌⊎◌, inl, inr}
use mathlib.Core.Bool.{Bool, true, false, ◌&&◌}
use mathlib.Core.List.{List, [], ◌∷◌}
use native.Mathlib.Omega.{arith}
use udp_measure.Prelude.Tests.{◌==◌}

pub data Outcome (E : Type 0) (A : Type 0) : Type 0 where
  ok : A → Outcome E A
  err : E → Outcome E A

-- `if err != nil { return err }` between two calls.
infixl 5 ◌>>=◌ ◌>>◌
abbrev pub ◌>>=◌ : {E A B : Type 0} → Outcome E A → (A → Outcome E B) → Outcome E B
err reason >>= more = err reason
ok value >>= more = more value

abbrev pub ◌>>◌ : {E B : Type 0} → Outcome E (Unit {0}) → Outcome E B → Outcome E B
first >> rest = first >>= λ _. rest

-- `if cond { return err }`
abbrev pub reject_if : {E : Type 0} → Bool → E → Outcome E (Unit {0})
reject_if true e = err e
reject_if false e = ok tt

-- `fmt.Errorf("…: %w", err)`
abbrev pub wrap_err : {E F A : Type 0} → (E → F) → Outcome E A → Outcome F A
wrap_err f (ok a) = ok a
wrap_err f (err e) = err (f e)

abbrev pub is_ok : {E A : Type 0} → Outcome E A → Bool
is_ok (ok _) = true
is_ok (err _) = false

-- A chain that returns a result did not stop at its first call.
pub >>=-eq-ok :
    {E A B : Type 0} (first : Outcome E A) (more : A → Outcome E B) {result : B}
    → (first >>= more) ≡ ok result
    → (value : A) × (first ≡ ok value) × (more value ≡ ok result)
>>=-eq-ok (err reason) more h = cc
>>=-eq-ok (ok value) more h = (value, refl, h)

pub Outcome-cases :
    {E A : Type 0} (m : Outcome E A) → ((e : E) × (m ≡ err e)) ⊎ ((a : A) × (m ≡ ok a))
Outcome-cases (err e) = inl (e, refl)
Outcome-cases (ok a) = inr (a, refl)

abbrev pub Bytes : Type 0
Bytes = List ℕ

-- The bytes of an ASCII literal.
abbrev pub codes : String → Bytes
codes String.[] = []
codes (String.◌∷◌ c s) = code c ∷ codes s

-- `==` on strings.
abbrev pub eq_bytes : Bytes → Bytes → Bool
eq_bytes [] [] = true
eq_bytes (a ∷ s) (b ∷ t) = (a == b) && eq_bytes s t
eq_bytes _ _ = false

pub eq_bytes-eq : (s t : Bytes) → eq_bytes s t ≡ true → s ≡ t
eq_bytes-eq [] [] h = refl
eq_bytes-eq [] (b ∷ t) h = cc
eq_bytes-eq (a ∷ s) [] h = cc
eq_bytes-eq (a ∷ s) (b ∷ t) h = ground (arith, eq_bytes-eq s t)

pub eq_bytes_refl : (s : Bytes) → eq_bytes s s ≡ true
eq_bytes_refl [] = refl
eq_bytes_refl (a ∷ s) = ground (arith, eq_bytes_refl s)

pub eq_bytes_iff : (s t : Bytes) → (eq_bytes s t ≡ true) ↔ (s ≡ t)
eq_bytes_iff s t = (eq_bytes-eq s t, λ e. rw e (eq_bytes_refl t))
