-- ===== src/Config/Ports/Accepted.antt =====
-- Which port specifications `ParsePorts` accepts, said without the parser.
use udp_measure.Prelude.{
  ℕ, ◌+◌, arith, Bool, true, false, not, ◌&&◌, Option, none, some, List, [], ◌∷◌, ◌++◌, ok, err,
  Bytes, eq_bytes, is_ok, if◌then◌else◌, Option-cases, Outcome-cases, inl, inr, ◌≡◌, ◌≢◌, refl,
}
use udp_measure.Prelude.Int.{ℤ, pos, pos_part, leb_ℤ, ◌-ℤ◌}
use udp_measure.Config.Text.{comma, dash, contains, split, trim_space, atoi}
use native.Mathlib.Numerals.{add-one}
use udp_measure.Config.Ports.{
  invalid_range, no_ports, range_of, range_loop, parse_range, parse_part, parse_parts, parse_ports,
  validate_port,
}

abbrev is_port : ℤ → Bool
is_port p = leb_ℤ (pos 1) p && leb_ℤ p (pos 65535)

abbrev port_ok : Option ℤ → Bool
port_ok none = false
port_ok (some p) = is_port p

-- Both ends are ports, and in order.
abbrev ends_ok : Option ℤ → Option ℤ → Bool
ends_ok (some start) (some end) = leb_ℤ start end && (is_port start && is_port end)
ends_ok _ _ = false

abbrev range_ok : List Bytes → Bool
range_ok (left ∷ (right ∷ [])) = ends_ok (atoi (trim_space left)) (atoi (trim_space right))
range_ok _ = false

unfoldable pub part_ok : Bytes → Bool
part_ok raw =
    let part = trim_space raw in
    not (eq_bytes part [])
    && (if contains dash part then range_ok (split dash part) else port_ok (atoi part))

unfoldable pub all_ok : List Bytes → Bool
all_ok [] = true
all_ok (part ∷ parts) = part_ok part && all_ok parts

range_loop-ne-nil :
    (rounds : ℕ) (start end : ℤ) → leb_ℤ start end ≡ true → range_loop (rounds + 1) start end ≢ []
unfolding range_loop
range_loop-ne-nil rounds start end h = rw add-one (ground arith)

is_ok-range_of : (left right : Bytes) → is_ok (range_of left right) ≡ range_ok (left ∷ (right ∷ []))
unfolding range_of validate_port
is_ok-range_of left right = ground arith

is_ok-parse_range : (spec : Bytes) → is_ok (parse_range spec) ≡ range_ok (split dash spec)
unfolding parse_range
is_ok-parse_range spec = go (split dash spec)
  where
    go :
        (parts : List Bytes)
        → is_ok (elim parts [
          | left ∷ (right ∷ []) ↦ range_of left right
          | _ ↦ err (invalid_range spec)
        ])
          ≡ range_ok parts
    go [] = refl
    go (a ∷ []) = refl
    go (a ∷ b ∷ []) = is_ok-range_of a b
    go (a ∷ b ∷ c ∷ r) = refl

is_ok-parse_part : (part : Bytes) → is_ok (parse_part part) ≡ part_ok part
unfolding parse_part part_ok validate_port
is_ok-parse_part part = ground (arith, is_ok-parse_range (trim_space part))

is_ok-parse_parts :
    (parts : List Bytes) (before : List ℤ) → is_ok (parse_parts before parts) ≡ all_ok parts
unfolding parse_parts all_ok
is_ok-parse_parts [] before = refl
is_ok-parse_parts (part ∷ parts) before = elim (Outcome-cases (parse_part part)) [
  | inl (e, bad) ↦ ground (arith, is_ok-parse_part part)
  | inr (more, good) ↦
      ground (arith, is_ok-parse_part part, is_ok-parse_parts parts (before ++ more))
]

range_of-ne-nil : (left right : Bytes) (ps : List ℤ) → range_of left right ≡ ok ps → ps ≢ []
unfolding range_of validate_port
range_of-ne-nil left right ps h = elim (Option-cases (atoi (trim_space left))) [
  | inl e ↦ absurd (ground arith)
  | inr (start, e) ↦ elim (Option-cases (atoi (trim_space right))) [
    | inl f ↦ absurd (ground arith)
    | inr (end, f) ↦ ground (arith, range_loop-ne-nil (pos_part (end -ℤ start)) start end)
  ]
]

parse_range-ne-nil : (spec : Bytes) (ps : List ℤ) → parse_range spec ≡ ok ps → ps ≢ []
unfolding parse_range
parse_range-ne-nil spec ps h = go (split dash spec) refl
  where
    go : (parts : List Bytes) → split dash spec ≡ parts → ps ≢ []
    go [] e = absurd (ground arith)
    go (a ∷ []) e = absurd (ground arith)
    go (a ∷ b ∷ []) e = range_of-ne-nil a b ps (ground arith)
    go (a ∷ b ∷ c ∷ r) e = absurd (ground arith)

parse_part-ne-nil : (part : Bytes) (ps : List ℤ) → parse_part part ≡ ok ps → ps ≢ []
unfolding parse_part validate_port
parse_part-ne-nil part ps h = ground (arith, parse_range-ne-nil (trim_space part) ps)

append-ne-nil : (xs ys : List ℤ) → ys ≢ [] → xs ++ ys ≢ []
append-ne-nil [] ys h = h
append-ne-nil (x ∷ xs) ys h = λ e. cc

parse_parts-ne-nil :
    (parts : List Bytes) (before ps : List ℤ)
    → before ≢ []
    → parse_parts before parts ≡ ok ps
    → ps ≢ []
unfolding parse_parts
parse_parts-ne-nil [] before ps hb h = ground arith
parse_parts-ne-nil (part ∷ parts) before ps hb h = elim (Outcome-cases (parse_part part)) [
  | inl (e, bad) ↦ absurd (ground arith)
  | inr (more, good) ↦
      parse_parts-ne-nil parts (before ++ more) ps
        (append-ne-nil before more (parse_part-ne-nil part more good)) (ground arith)
]

-- The first part is parsed with nothing before it.
parse_parts_start :
    (part : Bytes) (parts : List Bytes) (ps : List ℤ)
    → parse_parts [] (part ∷ parts) ≡ ok ps
    → ps ≢ []
unfolding parse_parts
parse_parts_start part parts ps h = elim (Outcome-cases (parse_part part)) [
  | inl (e, bad) ↦ absurd (ground arith)
  | inr (more, good) ↦
      parse_parts-ne-nil parts more ps (parse_part-ne-nil part more good) (ground arith)
]

split-ne-nil : (sep : ℕ) (s : Bytes) → split sep s ≢ []
unfolding split
split-ne-nil sep [] = λ e. cc
split-ne-nil sep (c ∷ s) = ground (arith, split-ne-nil sep s)

parse_parts-split :
    (spec : Bytes) (ps : List ℤ) → parse_parts [] (split comma spec) ≡ ok ps → ps ≢ []
parse_parts-split spec ps h = go (split comma spec) refl
  where
    go : (parts : List Bytes) → split comma spec ≡ parts → ps ≢ []
    go [] e = absurd (split-ne-nil comma spec e)
    go (part ∷ parts) e = parse_parts_start part parts ps (rw e at h)

range_of-ne-no_ports : (left right t : Bytes) → range_of left right ≢ err (no_ports t)
unfolding range_of validate_port
range_of-ne-no_ports left right t = ground arith

parse_range-ne-no_ports : (spec t : Bytes) → parse_range spec ≢ err (no_ports t)
unfolding parse_range
parse_range-ne-no_ports spec t h = go (split dash spec) refl
  where
    go : (parts : List Bytes) → split dash spec ≡ parts → ⊥
    go [] e = ground arith
    go (a ∷ []) e = ground arith
    go (a ∷ b ∷ []) e = range_of-ne-no_ports a b t (ground arith)
    go (a ∷ b ∷ c ∷ r) e = ground arith

parse_part-ne-no_ports : (part t : Bytes) → parse_part part ≢ err (no_ports t)
unfolding parse_part validate_port
parse_part-ne-no_ports part t = ground (arith, parse_range-ne-no_ports (trim_space part) t)

parse_parts-ne-no_ports :
    (parts : List Bytes) (before : List ℤ) (t : Bytes) → parse_parts before parts ≢ err (no_ports t)
unfolding parse_parts
parse_parts-ne-no_ports [] before t h = cc
parse_parts-ne-no_ports (part ∷ parts) before t h = elim (Outcome-cases (parse_part part)) [
  | inl (e, bad) ↦ ground (arith, parse_part-ne-no_ports part t)
  | inr (more, good) ↦ parse_parts-ne-no_ports parts (before ++ more) t (ground arith)
]

-- `ParsePorts` accepts a specification exactly if it is not empty and every part between its commas
-- is, without the space around it, a port or two ports in order with one dash between them. Its
-- last error, that no port was found, never occurs.
pub parse_ports_accepts :
    (spec : Bytes)
    → (is_ok (parse_ports spec) ≡ (not (eq_bytes spec []) && all_ok (split comma spec)))
      × (parse_ports spec ≢ err (no_ports spec))
unfolding parse_ports
parse_ports_accepts spec = elim (Outcome-cases (parse_parts [] (split comma spec))) [
  | inl (e, bad) ↦ ground (
    arith,
    is_ok-parse_parts (split comma spec) [],
    parse_parts-ne-no_ports (split comma spec) [] spec,
  )
  | inr (ps, good) ↦
      ground (arith, is_ok-parse_parts (split comma spec) [], parse_parts-split spec ps good)
]
