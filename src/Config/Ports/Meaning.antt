-- ===== src/Config/Ports/Meaning.antt =====
-- What a port specification stands for, said without the parser, and that `ParsePorts` agrees.
use udp_measure.Prelude.{
  ℕ, zero, suc, ◌+◌, ◌<◌, arith, Bool, false, ◌&&◌, ◌||◌, Option, none, some, List, [], ◌∷◌, ◌++◌,
  All, All-append, Bytes, ok, >>=-eq-ok, Option-cases, Outcome-cases, inl, inr, if◌then◌else◌, ◌≡◌,
  ◌≢◌, refl,
}
use udp_measure.Prelude.Int.{
  ℤ, pos, pos_part, neg_part, ◌≤ℤ◌, ◌==ℤ◌, leb_ℤ, ◌+ℤ◌, ◌-ℤ◌, +ℤ_parts, -ℤ_parts,
}
use udp_measure.Config.Text.{comma, dash, contains, split, trim_space, atoi}
use udp_measure.Config.Ports.{
  range_loop, range_of, parse_range, parse_part, parse_parts, parse_ports, validate_port,
}
use udp_measure.Config.Ports.Sorting.{
  member, member-append, StrictlyAscending, sort_and_dedupe_lem, sort_and_dedupe-ne-nil,
  All-sort_and_dedupe,
}

-- `start-end` stands for the numbers from start to end, anything else for the number it spells.
abbrev between : Option ℤ → Option ℤ → ℤ → Bool
between (some start) (some end) p = leb_ℤ start p && leb_ℤ p end
between _ _ p = false

abbrev range_denotes : List Bytes → ℤ → Bool
range_denotes (left ∷ (right ∷ [])) p = between (atoi (trim_space left)) (atoi (trim_space right)) p
range_denotes _ p = false

abbrev single_denotes : Option ℤ → ℤ → Bool
single_denotes none p = false
single_denotes (some q) p = p ==ℤ q

unfoldable pub part_denotes : Bytes → ℤ → Bool
part_denotes raw p =
    let part = trim_space raw in
    if contains dash part then range_denotes (split dash part) p else single_denotes (atoi part) p

unfoldable pub any_denotes : List Bytes → ℤ → Bool
any_denotes [] p = false
any_denotes (part ∷ parts) p = part_denotes part p || any_denotes parts p

abbrev pub IsPort : ℤ → Type 0
IsPort p = (pos 1 ≤ℤ p) × (p ≤ℤ pos 65535)

member-range_loop :
    (rounds : ℕ) (i end p : ℤ)
    → pos_part end + neg_part i < pos_part i + neg_part end + rounds
    → member p (range_loop rounds i end) ≡ (leb_ℤ i p && leb_ℤ p end)
unfolding range_loop
member-range_loop zero i end p h = ground arith
member-range_loop (suc rounds) i end p h =
    ground (arith, member-range_loop rounds (i +ℤ pos 1) end p, +ℤ_parts i (pos 1))

range_loop-IsPort :
    (rounds : ℕ) (i end : ℤ) → pos 1 ≤ℤ i → end ≤ℤ pos 65535 → All IsPort (range_loop rounds i end)
unfolding range_loop
range_loop-IsPort zero i end lo hi = tt
range_loop-IsPort (suc rounds) i end lo hi =
    ground (arith, range_loop-IsPort rounds (i +ℤ pos 1) end, +ℤ_parts i (pos 1))

-- The rounds that `parseRange` allows are enough for its loop.
pub member-range_loop_whole :
    (start end p : ℤ)
    → start ≤ℤ end
    → member p (range_loop (pos_part (end -ℤ start) + 1) start end) ≡ (leb_ℤ start p && leb_ℤ p end)
member-range_loop_whole start end p h =
    member-range_loop (pos_part (end -ℤ start) + 1) start end p (omega (arith, -ℤ_parts end start))

range_of_lem :
    (left right : Bytes) (ps : List ℤ) (p : ℤ)
    → range_of left right ≡ ok ps
    → All IsPort ps × (member p ps ≡ range_denotes (left ∷ (right ∷ [])) p)
unfolding range_of validate_port
range_of_lem left right ps p h = elim (Option-cases (atoi (trim_space left))) [
  | inl e ↦ absurd (ground arith)
  | inr (start, e) ↦ elim (Option-cases (atoi (trim_space right))) [
    | inl f ↦ absurd (ground arith)
    | inr (end, f) ↦ ground (
      arith,
      range_loop-IsPort (pos_part (end -ℤ start) + 1) start end,
      member-range_loop_whole start end p,
    )
  ]
]

parse_range_lem :
    (spec : Bytes) (ps : List ℤ) (p : ℤ)
    → parse_range spec ≡ ok ps
    → All IsPort ps × (member p ps ≡ range_denotes (split dash spec) p)
unfolding parse_range
parse_range_lem spec ps p h = go (split dash spec) refl
  where
    go :
        (parts : List Bytes)
        → split dash spec ≡ parts
        → All IsPort ps × (member p ps ≡ range_denotes (split dash spec) p)
    go [] e = absurd (ground arith)
    go (a ∷ []) e = absurd (ground arith)
    go (a ∷ b ∷ []) e = rw e (range_of_lem a b ps p (ground arith))
    go (a ∷ b ∷ c ∷ r) e = absurd (ground arith)

parse_part_lem :
    (part : Bytes) (ps : List ℤ) (p : ℤ)
    → parse_part part ≡ ok ps
    → All IsPort ps × (member p ps ≡ part_denotes part p)
unfolding parse_part part_denotes validate_port
parse_part_lem part ps p h = ground (arith, parse_range_lem (trim_space part) ps p)

parse_parts_lem :
    (parts : List Bytes) (before ps : List ℤ) (p : ℤ)
    → All IsPort before
    → parse_parts before parts ≡ ok ps
    → All IsPort ps × (member p ps ≡ (member p before || any_denotes parts p))
unfolding parse_parts any_denotes
parse_parts_lem [] before ps p hb h = ground arith
parse_parts_lem (part ∷ parts) before ps p hb h =
    let (more, e, f) = >>=-eq-ok (parse_part part) _ h in
    let (hm, em) = parse_part_lem part more p e in
    let (hs, es) =
      parse_parts_lem parts (before ++ more) ps p (All-append IsPort before more hb hm) f in
    (hs, ground (arith, member-append p before more))

-- Ports that `ParsePorts` returns are at least one, ascend strictly, and lie between 1 and 65535; a
-- number is among them exactly if one of the parts between the commas stands for it, as a single
-- number or as a range that holds it.
pub parse_ports_sound :
    (spec : Bytes) (ports : List ℤ) (p : ℤ)
    → parse_ports spec ≡ ok ports
    → (ports ≢ [])
      × StrictlyAscending ports
      × All IsPort ports
      × (member p ports ≡ any_denotes (split comma spec) p)
unfolding parse_ports
parse_ports_sound spec ports p h = elim (Outcome-cases (parse_parts [] (split comma spec))) [
  | inl (e, bad) ↦ absurd (ground arith)
  | inr (all, good) ↦
      let (range, members) = parse_parts_lem (split comma spec) [] all p tt good in
      ground (
        arith,
        sort_and_dedupe_lem all p,
        sort_and_dedupe-ne-nil all,
        All-sort_and_dedupe IsPort all range,
      )
]
