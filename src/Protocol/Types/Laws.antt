-- ===== src/Protocol/Types/Laws.antt =====
-- The texts of the enumerations: what a parser accepts, and what the printers distinguish.
use udp_measure.Prelude.{arith, ok, true, ◌≡◌, ◌↔◌}
use udp_measure.Protocol.Types.{
  Direction, SessionState, direction_string, parse_direction, validate_direction, state_string,
  eq_state,
}

-- A valid direction is printed to a text that is parsed to it again, and what is parsed is valid.
pub parse-direction_string :
    (d : Direction) → (validate_direction d ≡ true) ↔ (parse_direction (direction_string d) ≡ ok d)
unfolding validate_direction direction_string parse_direction
parse-direction_string d = ground arith

pub state_string-injective : (s t : SessionState) → state_string s ≡ state_string t → s ≡ t
unfolding state_string
state_string-injective s t h = ground arith

pub eq_state_iff : (s t : SessionState) → (eq_state s t ≡ true) ↔ (s ≡ t)
unfolding eq_state
eq_state_iff s t = ground arith
