-- ===== src/Protocol/Types/Texts.antt =====
-- internal/protocol/types.go: the texts of error codes and message types, which stand in messages for
-- people. Both are `int`s, and any other number has the text "unknown".
use udp_measure.Prelude.{arith, true, false, Bytes, codes, eq_bytes, if◌then◌else◌, ◌≡◌, ◌↔◌}
use udp_measure.Prelude.Int.{pos, ◌==ℤ◌}
use udp_measure.Protocol.Types.{
  ErrorCode, MessageType, err_none, err_invalid_request, err_internal_error, err_session_not_found,
  validate_error_code, msg_hello, msg_prepare, msg_start, msg_send_complete, msg_fetch_result,
  msg_cancel, msg_ready, msg_result, msg_busy, msg_invalid_request, msg_internal_error,
}

abbrev err_busy : ErrorCode
err_busy = pos 1

abbrev err_timeout : ErrorCode
err_timeout = pos 4

abbrev err_cancelled : ErrorCode
err_cancelled = pos 5

-- `ErrorCode.String`
unfoldable pub error_code_string : ErrorCode → Bytes
error_code_string e =
    if e ==ℤ err_none
    then codes "none"
    else if e ==ℤ err_busy
    then codes "busy"
    else if e ==ℤ err_invalid_request
    then codes "invalid_request"
    else if e ==ℤ err_internal_error
    then codes "internal_error"
    else if e ==ℤ err_timeout
    then codes "timeout"
    else if e ==ℤ err_cancelled
    then codes "cancelled"
    else if e ==ℤ err_session_not_found
    then codes "session_not_found"
    else codes "unknown"

-- `MessageType.String`
unfoldable pub message_type_string : MessageType → Bytes
message_type_string m =
    if m ==ℤ msg_hello
    then codes "hello"
    else if m ==ℤ msg_prepare
    then codes "prepare"
    else if m ==ℤ msg_ready
    then codes "ready"
    else if m ==ℤ msg_start
    then codes "start"
    else if m ==ℤ msg_send_complete
    then codes "send_complete"
    else if m ==ℤ msg_fetch_result
    then codes "fetch_result"
    else if m ==ℤ msg_result
    then codes "result"
    else if m ==ℤ msg_cancel
    then codes "cancel"
    else if m ==ℤ msg_busy
    then codes "busy"
    else if m ==ℤ msg_invalid_request
    then codes "invalid_request"
    else if m ==ℤ msg_internal_error
    then codes "internal_error"
    else codes "unknown"

-- The valid error codes are those with a text of their own.
pub error_code_string_unknown :
    (e : ErrorCode)
    → (eq_bytes (error_code_string e) (codes "unknown") ≡ true) ↔ (validate_error_code e ≡ false)
unfolding error_code_string validate_error_code
error_code_string_unknown e = ground arith
