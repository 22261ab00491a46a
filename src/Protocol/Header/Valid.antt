-- ===== src/Protocol/Header/Valid.antt =====
-- Which headers a receiver lets pass.
use udp_measure.Prelude.{ℕ, arith, none, true, ◌≢◌, ◌≡◌, ◌↔◌, ◌⊎◌}
use udp_measure.Prelude.Int.{ℤ}
use udp_measure.Protocol.Types.{
  Direction, Family, direction_both, validate_direction, validate_family,
}
use udp_measure.Protocol.Header.{ProbeHeader, probe_header_version, set_from_params, validate}

-- `Validate` accepts a header exactly if it has the version of this program, a single direction and
-- a known family.
pub validate_iff :
    (h : ProbeHeader)
    → (validate h ≡ none)
      ↔ (h.version ≡ probe_header_version)
        × ((h.direction ≡ 0) ⊎ (h.direction ≡ 1))
        × ((h.family ≡ 0) ⊎ (h.family ≡ 1))
unfolding validate
validate_iff h = ground arith

-- Of the headers that `SetFromParams` makes from valid parameters, `Validate` accepts exactly those
-- whose direction is not `both`.
pub validate-set_from_params :
    (session test : ℕ) (dir : Direction) (fam : Family) (port size seq : ℕ) (now : ℤ)
    → validate_direction dir ≡ true
    → validate_family fam ≡ true
    → (validate (set_from_params session test dir fam port size seq now) ≡ none)
      ↔ (dir ≢ direction_both)
unfolding validate set_from_params validate_direction validate_family
validate-set_from_params session test dir fam port size seq now hd hf = ground arith
