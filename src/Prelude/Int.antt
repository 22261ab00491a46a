-- ===== src/Prelude/Int.antt =====
-- Signed integers over the native numbers: Go's `int`, `int64` and `time.Duration`.
-- Sums and orders go through the two parts of an integer, which are numbers that `omega` reads.
-- `wrap64` is the reduction that 64-bit arithmetic makes; `to_u8` and the like are conversions.
use Prim.Native.Nat.{ℕ, suc, ◌+◌, ◌-◌, ◌*◌, ◌%◌, ◌^◌, ◌≤◌, ◌<◌}
use mathlib.Core.Path.{◌≡◌, refl}
use mathlib.Core.Logic.{◌↔◌, ◌⊎◌, inl, inr}
use mathlib.Core.Bool.{Bool, true, false}
use native.Mathlib.Omega.{arith}
use udp_measure.Prelude.Tests.{ltb, leb, ◌==◌, if◌then◌else◌}

-- `negsuc n` is -(n + 1).
pub data ℤ : Type 0 where
  pos : ℕ → ℤ
  negsuc : ℕ → ℤ

abbrev pub pos_part : ℤ → ℕ
pos_part (pos n) = n
pos_part (negsuc n) = 0

abbrev pub neg_part : ℤ → ℕ
neg_part (pos n) = 0
neg_part (negsuc n) = suc n

-- a - b, as an integer.
abbrev pub sub_ℕ : ℕ → ℕ → ℤ
sub_ℕ a b = if leb b a then pos (a - b) else negsuc (b - a - 1)

infixl 65 ◌+ℤ◌ ◌-ℤ◌
infixl 70 ◌*ℤ◌
infix 50 ◌≤ℤ◌ ◌<ℤ◌ ◌==ℤ◌
unfoldable pub ◌+ℤ◌ : ℤ → ℤ → ℤ
a +ℤ b = sub_ℕ (pos_part a + pos_part b) (neg_part a + neg_part b)

unfoldable pub ◌-ℤ◌ : ℤ → ℤ → ℤ
a -ℤ b = sub_ℕ (pos_part a + neg_part b) (neg_part a + pos_part b)

unfoldable pub ◌*ℤ◌ : ℤ → ℤ → ℤ
a *ℤ b =
    sub_ℕ (pos_part a * pos_part b + neg_part a * neg_part b)
      (pos_part a * neg_part b + neg_part a * pos_part b)

abbrev pub ◌≤ℤ◌ : ℤ → ℤ → Type 0
a ≤ℤ b = pos_part a + neg_part b ≤ pos_part b + neg_part a

abbrev pub ◌<ℤ◌ : ℤ → ℤ → Type 0
a <ℤ b = pos_part a + neg_part b < pos_part b + neg_part a

abbrev pub ltb_ℤ : ℤ → ℤ → Bool
ltb_ℤ a b = ltb (pos_part a + neg_part b) (pos_part b + neg_part a)

abbrev pub leb_ℤ : ℤ → ℤ → Bool
leb_ℤ a b = leb (pos_part a + neg_part b) (pos_part b + neg_part a)

abbrev pub ◌==ℤ◌ : ℤ → ℤ → Bool
pos a ==ℤ pos b = a == b
negsuc a ==ℤ negsuc b = a == b
_ ==ℤ _ = false

pub ==ℤ_iff : (a b : ℤ) → ((a ==ℤ b) ≡ true) ↔ (a ≡ b)
==ℤ_iff a b = ground arith

-- One lemma for each operation lets `omega` work with the operations shut, at any depth.
pub +ℤ_parts :
    (a b : ℤ)
    → pos_part (a +ℤ b) + neg_part a + neg_part b ≡ neg_part (a +ℤ b) + pos_part a + pos_part b
unfolding ◌+ℤ◌
+ℤ_parts a b = ground arith

pub -ℤ_parts :
    (a b : ℤ)
    → pos_part (a -ℤ b) + neg_part a + pos_part b ≡ neg_part (a -ℤ b) + pos_part a + neg_part b
unfolding ◌-ℤ◌
-ℤ_parts a b = ground arith

pub eq_of_parts : (a b : ℤ) → pos_part a + neg_part b ≡ pos_part b + neg_part a → a ≡ b
eq_of_parts a b h = ground arith

-- One of the two parts is zero.
pub canonical : (a : ℤ) → (pos_part a ≡ 0) ⊎ (neg_part a ≡ 0)
canonical (pos n) = inr refl
canonical (negsuc n) = inl refl

pub ruleset int_laws = (arith, +ℤ_parts, -ℤ_parts, eq_of_parts)

-- The residue of an integer modulo m, in 0 .. m - 1.
abbrev pub residue : ℕ → ℤ → ℕ
residue m (pos n) = n % m
residue m (negsuc n) = m - 1 - n % m

-- Go's conversions to unsigned types keep the low bits.
abbrev pub to_u8 : ℤ → ℕ
to_u8 = residue (2 ^ 8)

abbrev pub to_u16 : ℤ → ℕ
to_u16 = residue (2 ^ 16)

abbrev pub to_u32 : ℤ → ℕ
to_u32 = residue (2 ^ 32)

abbrev pub to_u64 : ℤ → ℕ
to_u64 = residue (2 ^ 64)

-- `int64(u)` of a uint64.
abbrev pub of_u64 : ℕ → ℤ
of_u64 u = if ltb u (2 ^ 63) then pos u else negsuc (2 ^ 64 - 1 - u)

-- What the machine keeps of an exact result.
unfoldable pub wrap64 : ℤ → ℤ
wrap64 a = of_u64 (to_u64 a)

-- The values of an `int64` (and of `int`, on a 64-bit machine).
abbrev pub IsInt64 : ℤ → Type 0
IsInt64 a = (pos_part a < 2 ^ 63) × (neg_part a ≤ 2 ^ 63)

pub wrap64_of_IsInt64 : (a : ℤ) → IsInt64 a → wrap64 a ≡ a
unfolding wrap64
wrap64_of_IsInt64 (pos n) h = ground arith
wrap64_of_IsInt64 (negsuc n) h = ground arith

pub wrap64-IsInt64 : (a : ℤ) → IsInt64 (wrap64 a)
unfolding wrap64
wrap64-IsInt64 (pos n) = ground arith
wrap64-IsInt64 (negsuc n) = ground arith
