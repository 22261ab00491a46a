-- ===== src/Config/Text.antt =====
-- What config.go uses of Go's packages strings and strconv, on bytes.
pub mod Printed
use udp_measure.Prelude.{
  ℕ, zero, suc, ◌+◌, ◌*◌, ◌-◌, ◌^◌, Bool, false, ◌&&◌, ◌||◌, Option, none, some, List, [], ◌∷◌,
  length, Bytes, ltb, leb, ◌==◌, if◌then◌else◌,
}
use udp_measure.Prelude.Int.{ℤ, pos, negsuc}
use mathlib.Core.List.{reverse}

abbrev pub comma : ℕ
comma = b','

abbrev pub dash : ℕ
dash = b'-'

-- `strings.Contains(s, sep)`, for a separator of one byte.
unfoldable pub contains : ℕ → Bytes → Bool
contains sep [] = false
contains sep (c ∷ s) = c == sep || contains sep s

abbrev onto_first : ℕ → List Bytes → List Bytes
onto_first c [] = (c ∷ []) ∷ []
onto_first c (p ∷ ps) = (c ∷ p) ∷ ps

-- `strings.Split(s, sep)`, for a separator of one byte.
unfoldable pub split : ℕ → Bytes → List Bytes
split sep [] = [] ∷ []
split sep (c ∷ s) = let rest = split sep s in if c == sep then [] ∷ rest else onto_first c rest

-- The UTF-8 encodings of the code points that `unicode.IsSpace` accepts.
abbrev spaces : List Bytes
spaces =
    (0x09 ∷ [])
    ∷ (0x0a ∷ [])
    ∷ (0x0b ∷ [])
    ∷ (0x0c ∷ [])
    ∷ (0x0d ∷ [])
    ∷ (0x20 ∷ [])
    ∷ (0xc2 ∷ 0x85 ∷ [])
    ∷ (0xc2 ∷ 0xa0 ∷ [])
    ∷ (0xe1 ∷ 0x9a ∷ 0x80 ∷ [])
    ∷ (0xe2 ∷ 0x80 ∷ 0x80 ∷ [])
    ∷ (0xe2 ∷ 0x80 ∷ 0x81 ∷ [])
    ∷ (0xe2 ∷ 0x80 ∷ 0x82 ∷ [])
    ∷ (0xe2 ∷ 0x80 ∷ 0x83 ∷ [])
    ∷ (0xe2 ∷ 0x80 ∷ 0x84 ∷ [])
    ∷ (0xe2 ∷ 0x80 ∷ 0x85 ∷ [])
    ∷ (0xe2 ∷ 0x80 ∷ 0x86 ∷ [])
    ∷ (0xe2 ∷ 0x80 ∷ 0x87 ∷ [])
    ∷ (0xe2 ∷ 0x80 ∷ 0x88 ∷ [])
    ∷ (0xe2 ∷ 0x80 ∷ 0x89 ∷ [])
    ∷ (0xe2 ∷ 0x80 ∷ 0x8a ∷ [])
    ∷ (0xe2 ∷ 0x80 ∷ 0xa8 ∷ [])
    ∷ (0xe2 ∷ 0x80 ∷ 0xa9 ∷ [])
    ∷ (0xe2 ∷ 0x80 ∷ 0xaf ∷ [])
    ∷ (0xe2 ∷ 0x81 ∷ 0x9f ∷ [])
    ∷ (0xe3 ∷ 0x80 ∷ 0x80 ∷ [])
    ∷ []

-- What follows a prefix.
after : Bytes → Bytes → Option Bytes
after [] s = some s
after (p ∷ ps) [] = none
after (p ∷ ps) (c ∷ s) = let rest = after ps s in if p == c then rest else none

-- What follows the first of these prefixes that fits.
after_any : List Bytes → Bytes → Option Bytes
after_any [] s = none
after_any (p ∷ ps) s = elim (after p s) [ some rest ↦ some rest | none ↦ after_any ps s ]

-- Drops such prefixes as long as there are any; each is at least one byte, so that the length of
-- the text is fuel enough.
drop_all : List Bytes → ℕ → Bytes → Bytes
unfolding after after_any
drop_all ps zero s = s
drop_all ps (suc fuel) s = elim (after_any ps s) [ some rest ↦ drop_all ps fuel rest | none ↦ s ]

abbrev reversed : List Bytes → List Bytes
reversed [] = []
reversed (p ∷ ps) = reverse p ∷ reversed ps

-- `strings.TrimSpace`
unfoldable pub trim_space : Bytes → Bytes
unfolding drop_all
trim_space s =
    let left = drop_all spaces (length s) s in
    reverse (drop_all (reversed spaces) (length left) (reverse left))

unfoldable pub is_digit : ℕ → Bool
is_digit c = leb b'0' c && leb c b'9'

-- The number that digits spell behind `n`; `none` if there is another byte.
unfoldable pub digits_value : ℕ → Bytes → Option ℕ
unfolding is_digit
digits_value n [] = some n
digits_value n (c ∷ s) =
    let rest = digits_value (n * 10 + (c - b'0')) s in if is_digit c then rest else none

-- At least one digit.
abbrev magnitude : Bytes → Option ℕ
magnitude [] = none
magnitude (c ∷ s) = digits_value 0 (c ∷ s)

-- -n, if an `int` of 64 bits holds it.
abbrev negative : ℕ → Option ℤ
negative zero = some (pos 0)
negative (suc n) = if ltb n (2 ^ 63) then some (negsuc n) else none

abbrev positive : ℕ → Option ℤ
positive n = if ltb n (2 ^ 63) then some (pos n) else none

abbrev signed : (ℕ → Option ℤ) → Option ℕ → Option ℤ
signed f none = none
signed f (some n) = f n

-- `strconv.Atoi`: an optional sign and decimal digits, within 64 bits. Its error is `none`.
unfoldable pub atoi : Bytes → Option ℤ
unfolding digits_value
atoi [] = none
atoi (c ∷ s) =
    if c == b'-'
    then signed negative (magnitude s)
    else if c == b'+'
    then signed positive (magnitude s)
    else signed positive (magnitude (c ∷ s))
