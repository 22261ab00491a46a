-- ===== src/Prelude/Show.antt =====
-- Text as the program writes it: the verb %d, and the verb %s on texts, which is the text.
use Prim.Native.Nat.{ℕ, zero, suc, ◌+◌, ◌/◌, ◌%◌}
use mathlib.Core.List.{List, [], ◌∷◌, ◌++◌}
use udp_measure.Prelude.Tests.{ltb, if◌then◌else◌}
use udp_measure.Prelude.Errors.{Bytes}
use udp_measure.Prelude.Int.{ℤ, pos, negsuc}

-- The decimal digits of n; `suc n` is fuel enough, since each round divides by ten.
unfoldable pub digits : ℕ → ℕ → Bytes
digits zero n = []
digits (suc fuel) n =
    let rest = digits fuel (n / 10) in
    if ltb n 10 then (b'0' + n) ∷ [] else rest ++ (b'0' + n % 10) ∷ []

unfoldable pub show_int : ℤ → Bytes
unfolding digits
show_int (pos n) = digits (suc n) n
show_int (negsuc n) = b'-' ∷ digits (suc (suc n)) (suc n)

-- A text in pieces.
abbrev pub pieces : List Bytes → Bytes
pieces [] = []
pieces (s ∷ ss) = s ++ pieces ss
