-- ===== src/Config/Ports.antt =====
-- config.go: `ParsePorts` and what it calls. Go's `int` is an integer here; every number that the
-- text yields fits 64 bits, because `Atoi` refuses others.
pub mod Sorting
pub mod Meaning
pub mod Accepted
pub mod Printed
use udp_measure.Prelude.{
  ℕ, zero, suc, ◌+◌, Bool, true, false, not, ◌&&◌, ◌||◌, Option, none, some, List, [], ◌∷◌, ◌++◌,
  length, Bytes, eq_bytes, Outcome, ok, err, ◌>>=◌, ◌>>◌, reject_if, wrap_err, ◌==◌, if◌then◌else◌,
}
use udp_measure.Prelude.Int.{ℤ, pos, pos_part, ◌+ℤ◌, ◌-ℤ◌, ltb_ℤ, leb_ℤ, ◌==ℤ◌}
use udp_measure.Config.Text.{comma, dash, contains, split, trim_space, atoi}

pub data PortError : Type 0 where
  empty_spec empty_port : PortError
  invalid_port : Bytes → PortError
  out_of_range : ℤ → PortError
  invalid_range : Bytes → PortError
  invalid_range_start : Bytes → PortError
  invalid_range_end : Bytes → PortError
  start_after_end : ℤ → ℤ → PortError
  no_ports : Bytes → PortError

unfoldable pub validate_port : ℤ → Outcome PortError (Unit {0})
validate_port port = reject_if (ltb_ℤ port (pos 1) || ltb_ℤ (pos 65535) port) (out_of_range port)

-- `Atoi` with the error that the caller wraps it in.
abbrev number : Bytes → PortError → Outcome PortError ℤ
number s e = elim (atoi s) [ some n ↦ ok n | none ↦ err e ]

-- `for i := start; i <= end; i++`, with the number of rounds that are left as fuel.
unfoldable pub range_loop : ℕ → ℤ → ℤ → List ℤ
range_loop zero i end = []
range_loop (suc rounds) i end = elim (leb_ℤ i end) [
  | true ↦ i ∷ range_loop rounds (i +ℤ pos 1) end
  | false ↦ []
]

-- `rangeParts` has two entries.
range_of : Bytes → Bytes → Outcome PortError (List ℤ)
unfolding validate_port range_loop
range_of left right = do
  start ← number (trim_space left) (invalid_range_start left)
  end ← number (trim_space right) (invalid_range_end right)
  reject_if (ltb_ℤ end start) (start_after_end start end)
  validate_port start
  validate_port end
  ok (range_loop (pos_part (end -ℤ start) + 1) start end)

unfoldable pub parse_range : Bytes → Outcome PortError (List ℤ)
unfolding range_of
parse_range spec = elim (split dash spec) [
  | left ∷ (right ∷ []) ↦ range_of left right
  | _ ↦ err (invalid_range spec)
]

-- One round of the loop of `ParsePorts`: the ports that a part stands for.
unfoldable pub parse_part : Bytes → Outcome PortError (List ℤ)
unfolding parse_range validate_port
parse_part raw = do
  let part = trim_space raw
  reject_if (eq_bytes part []) empty_port
  if contains dash part
      then parse_range part
      else do port ← number part (invalid_port part); validate_port port; ok (port ∷ [])

unfoldable pub parse_parts : List ℤ → List Bytes → Outcome PortError (List ℤ)
parse_parts ports [] = ok ports
parse_parts ports (part ∷ parts) = do more ← parse_part part; parse_parts (ports ++ more) parts

-- `sort.Ints`: the ascending arrangement of a slice of integers, which is unique.
unfoldable pub insert : ℤ → List ℤ → List ℤ
insert p [] = p ∷ []
insert p (q ∷ qs) = let rest = insert p qs in if leb_ℤ p q then p ∷ (q ∷ qs) else q ∷ rest

unfoldable pub sort_ints : List ℤ → List ℤ
sort_ints [] = []
sort_ints (p ∷ ps) = insert p (sort_ints ps)

-- `ports[i-1] != p`, where there is an entry before.
abbrev is_new : Option ℤ → ℤ → Bool
is_new none p = true
is_new (some previous) p = not (previous ==ℤ p)

-- The loop of `sortAndDedupe`, with `ports[i-1]`.
unfoldable pub dedupe : Option ℤ → List ℤ → List ℤ
dedupe previous [] = []
dedupe previous (p ∷ ps) =
    let rest = dedupe (some p) ps in if is_new previous p then p ∷ rest else rest

unfoldable pub sort_and_dedupe : List ℤ → List ℤ
sort_and_dedupe ports = dedupe none (sort_ints ports)

abbrev is_empty : List ℤ → Bool
is_empty [] = true
is_empty (_ ∷ _) = false

unfoldable pub parse_ports : Bytes → Outcome PortError (List ℤ)
unfolding parse_parts
parse_ports spec = do
  reject_if (eq_bytes spec []) empty_spec
  ports ← parse_parts [] (split comma spec)
  reject_if (is_empty ports) (no_ports spec)
  ok (sort_and_dedupe ports)
