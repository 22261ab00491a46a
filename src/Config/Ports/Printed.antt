-- ===== src/Config/Ports/Printed.antt =====
-- `ParsePorts` on ports that are written one after the other.
use udp_measure.Prelude.{
  arith, false, some, eq_bytes, List, [], ◌∷◌, ◌++◌, All, map, Bytes, ok, ◌≡◌, ◌≢◌, refl, ap, sym,
  ◌∙◌, show_int, append_assoc, append-nil,
}
use udp_measure.Prelude.Int.{ℤ, pos, negsuc}
use udp_measure.Config.Text.{comma, dash, split, atoi}
use udp_measure.Config.Text.Printed.{
  IsDigit, show_int-IsDigit, show_int-ne-nil, atoi-show_int, trim_space-digits, contains-digits,
  split-digits,
}
use udp_measure.Config.Ports.{parse_part, parse_parts, parse_ports, validate_port, sort_and_dedupe}
use udp_measure.Config.Ports.Sorting.{StrictlyAscending, sort_and_dedupe_of_StrictlyAscending}
use udp_measure.Config.Ports.Meaning.{IsPort}

-- Ports in decimal with commas between them, behind the first one.
abbrev pub printed : ℤ → List ℤ → Bytes
printed p [] = show_int p
printed p (q ∷ ps) = show_int p ++ comma ∷ printed q ps

port-IsDigit : (p : ℤ) → IsPort p → All IsDigit (show_int p) × (show_int p ≢ [])
port-IsDigit (pos n) h = (show_int-IsDigit n, show_int-ne-nil n)
port-IsDigit (negsuc n) h = absurd (omega arith)

split-printed :
    (p : ℤ) (ps : List ℤ) → All IsPort (p ∷ ps) → split comma (printed p ps) ≡ map show_int (p ∷ ps)
split-printed p [] (h, _) =
    let (d, _) = port-IsDigit p h in (split-digits comma (show_int p) [] (omega arith) d).0
split-printed p (q ∷ ps) (h, hs) =
    let (d, _) = port-IsDigit p h in
    (split-digits comma (show_int p) (printed q ps) (omega arith) d).1
    ∙ ap (◌∷◌ (show_int p)) (split-printed q ps hs)

atoi-port : (p : ℤ) → IsPort p → atoi (show_int p) ≡ some p
atoi-port (pos n) h = atoi-show_int n (omega arith)
atoi-port (negsuc n) h = absurd (omega arith)

eq_bytes-ne-nil : (s : Bytes) → s ≢ [] → eq_bytes s [] ≡ false
eq_bytes-ne-nil [] h = absurd (h refl)
eq_bytes-ne-nil (c ∷ s) h = refl

parse_part-port : (p : ℤ) → IsPort p → parse_part (show_int p) ≡ ok (p ∷ [])
unfolding parse_part validate_port
parse_part-port p h =
    let (d, some_digit) = port-IsDigit p h in
    let full = eq_bytes-ne-nil (show_int p) some_digit in
    let no_dash = contains-digits dash (show_int p) (omega arith) d in
    let trimmed = trim_space-digits (show_int p) d some_digit in
    ground (arith, trimmed, full, no_dash, atoi-port p h)

parse_parts-ports :
    (before ps : List ℤ) → All IsPort ps → parse_parts before (map show_int ps) ≡ ok (before ++ ps)
unfolding parse_parts
parse_parts-ports before [] h = ap ok (sym (append-nil before))
parse_parts-ports before (p ∷ ps) (h, hs) =
    rw (parse_part-port p h)
      (parse_parts-ports (before ++ p ∷ []) ps hs ∙ ap ok (append_assoc before (p ∷ []) ps))

printed-ne-nil : (p : ℤ) (ps : List ℤ) → IsPort p → printed p ps ≢ []
printed-ne-nil p [] h = (port-IsDigit p h).1
printed-ne-nil p (q ∷ ps) h = ground (arith, (port-IsDigit p h).1)

printed_sorted :
    (p : ℤ) (ps : List ℤ)
    → All IsPort (p ∷ ps)
    → parse_ports (printed p ps) ≡ ok (sort_and_dedupe (p ∷ ps))
unfolding parse_ports
printed_sorted p ps h =
    let full = eq_bytes-ne-nil (printed p ps) (printed-ne-nil p ps h.0) in
    let parts = parse_parts-ports [] (p ∷ ps) h in rw (full, split-printed p ps h, parts) refl

-- Ports between 1 and 65535 that ascend strictly, as `ParsePorts` returns them, and are written in
-- decimal with commas between them, are read by `ParsePorts` as they were.
pub parse_ports-printed :
    (p : ℤ) (ps : List ℤ)
    → All IsPort (p ∷ ps)
    → StrictlyAscending (p ∷ ps)
    → parse_ports (printed p ps) ≡ ok (p ∷ ps)
parse_ports-printed p ps h up =
    printed_sorted p ps h ∙ ap ok (sort_and_dedupe_of_StrictlyAscending (p ∷ ps) up)
