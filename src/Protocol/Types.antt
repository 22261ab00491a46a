-- ===== src/Protocol/Types.antt =====
-- internal/protocol/types.go: the enumerations. A Go enumeration is an `int`, so a value that comes
-- from the wire or from a conversion may lie outside the declared constants; `Direction`, `Family`,
-- `ErrorCode` and `MessageType` are therefore integers here. A session state never leaves the
-- process and is assigned from the constants alone, so `SessionState` is a data type.
pub mod Laws
pub mod Texts
use udp_measure.Prelude.{
  Bool, true, false, ◌&&◌, ◌||◌, Bytes, codes, eq_bytes, Outcome, ok, err, if◌then◌else◌, ◌≡◌, refl,
}
use udp_measure.Prelude.Int.{ℤ, pos, negsuc, leb_ℤ, ◌==ℤ◌}

abbrev pub protocol_version : ℤ
protocol_version = pos 1

abbrev pub Direction : Type 0
Direction = ℤ

abbrev pub direction_uplink : Direction
direction_uplink = pos 0

abbrev pub direction_downlink : Direction
direction_downlink = pos 1

abbrev pub direction_both : Direction
direction_both = pos 2

-- `Direction.String`
unfoldable pub direction_string : Direction → Bytes
direction_string d =
    if d ==ℤ direction_uplink
    then codes "uplink"
    else if d ==ℤ direction_downlink
    then codes "downlink"
    else if d ==ℤ direction_both
    then codes "both"
    else codes "unknown"

-- The error of `ParseDirection` and `ParseFamily`, with the refused text.
pub data ParseError : Type 0 where
  invalid_direction : Bytes → ParseError
  invalid_family : Bytes → ParseError

-- The value that goes with an error, -1, is read by no caller.
unfoldable pub parse_direction : Bytes → Outcome ParseError Direction
parse_direction s =
    if eq_bytes s (codes "uplink") || eq_bytes s (codes "up")
    then ok direction_uplink
    else if eq_bytes s (codes "downlink") || eq_bytes s (codes "down")
    then ok direction_downlink
    else if eq_bytes s (codes "both")
    then ok direction_both
    else err (invalid_direction s)

abbrev pub Family : Type 0
Family = ℤ

abbrev pub family_ipv4 : Family
family_ipv4 = pos 0

abbrev pub family_ipv6 : Family
family_ipv6 = pos 1

-- `Family.String`
unfoldable pub family_string : Family → Bytes
family_string f =
    if f ==ℤ family_ipv4
    then codes "ipv4"
    else if f ==ℤ family_ipv6
    then codes "ipv6"
    else codes "unknown"

unfoldable pub parse_family : Bytes → Outcome ParseError Family
parse_family s =
    if eq_bytes s (codes "ipv4") || eq_bytes s (codes "4")
    then ok family_ipv4
    else if eq_bytes s (codes "ipv6") || eq_bytes s (codes "6")
    then ok family_ipv6
    else err (invalid_family s)

unfoldable pub validate_direction : Direction → Bool
validate_direction d = leb_ℤ (pos 0) d && leb_ℤ d direction_both

unfoldable pub validate_family : Family → Bool
validate_family f = leb_ℤ (pos 0) f && leb_ℤ f family_ipv6

-- `ErrorCode`
abbrev pub ErrorCode : Type 0
ErrorCode = ℤ

abbrev pub err_none : ErrorCode
err_none = pos 0

abbrev pub err_invalid_request : ErrorCode
err_invalid_request = pos 2

abbrev pub err_internal_error : ErrorCode
err_internal_error = pos 3

abbrev pub err_session_not_found : ErrorCode
err_session_not_found = pos 6

unfoldable pub validate_error_code : ErrorCode → Bool
validate_error_code e = leb_ℤ err_none e && leb_ℤ e err_session_not_found

-- `MessageType`, in the order of the `iota` block.
abbrev pub MessageType : Type 0
MessageType = ℤ

abbrev pub msg_hello : MessageType
msg_hello = pos 0

abbrev pub msg_prepare : MessageType
msg_prepare = pos 1

abbrev pub msg_start : MessageType
msg_start = pos 2

abbrev pub msg_send_complete : MessageType
msg_send_complete = pos 3

abbrev pub msg_fetch_result : MessageType
msg_fetch_result = pos 4

abbrev pub msg_cancel : MessageType
msg_cancel = pos 5

abbrev pub msg_ready : MessageType
msg_ready = pos 6

abbrev pub msg_result : MessageType
msg_result = pos 7

abbrev pub msg_busy : MessageType
msg_busy = pos 8

abbrev pub msg_invalid_request : MessageType
msg_invalid_request = pos 9

abbrev pub msg_internal_error : MessageType
msg_internal_error = pos 10

pub data SessionState : Type 0 where
  idle preparing ready running collecting completed failed cancelled : SessionState

-- `SessionState.String`
unfoldable pub state_string : SessionState → Bytes
state_string idle = codes "idle"
state_string preparing = codes "preparing"
state_string ready = codes "ready"
state_string running = codes "running"
state_string collecting = codes "collecting"
state_string completed = codes "completed"
state_string failed = codes "failed"
state_string cancelled = codes "cancelled"

-- `==` on session states.
unfoldable pub eq_state : SessionState → SessionState → Bool
eq_state idle idle = true
eq_state preparing preparing = true
eq_state ready ready = true
eq_state running running = true
eq_state collecting collecting = true
eq_state completed completed = true
eq_state failed failed = true
eq_state cancelled cancelled = true
eq_state _ _ = false
