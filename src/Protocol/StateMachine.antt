-- ===== src/Protocol/StateMachine.antt =====
-- internal/protocol/state_machine.go: which session states may follow which. `transitions` is the
-- map of maps as an association list, read with the rule of a Go map: a missing key gives false.
pub mod Graph
use udp_measure.Prelude.{
  Bool, true, false, not, ◌&&◌, ◌||◌, Option, none, some, List, [], ◌∷◌, ◌++◌, Bytes, codes,
  if◌then◌else◌,
}
use udp_measure.Protocol.Types.{
  SessionState, idle, preparing, ready, running, collecting, completed, failed, cancelled, eq_state,
  state_string,
}

-- The error of `Transition`.
pub record InvalidTransition : Type 0 where
  pub from_state : SessionState
  pub to_state : SessionState

-- `invalidTransition.Error`
unfoldable pub error_text : InvalidTransition → Bytes
error_text e =
    codes "invalid transition: "
    ++ (state_string e.from_state ++ (codes " -> " ++ state_string e.to_state))

abbrev Row : Type 0
Row = List (SessionState × Bool)

abbrev transitions : List (SessionState × Row)
transitions =
    (idle, (preparing, true) ∷ [])
    ∷ (preparing, (ready, true) ∷ (cancelled, true) ∷ (failed, true) ∷ [])
    ∷ (ready, (running, true) ∷ (cancelled, true) ∷ [])
    ∷ (running, (collecting, true) ∷ (cancelled, true) ∷ [])
    ∷ (collecting, (completed, true) ∷ (failed, true) ∷ [])
    ∷ (completed, (idle, true) ∷ [])
    ∷ (failed, (idle, true) ∷ [])
    ∷ (cancelled, (idle, true) ∷ [])
    ∷ []

-- `m, ok := transitions[from]`
row_of : SessionState → List (SessionState × Row) → Option Row
unfolding eq_state
row_of s [] = none
row_of s ((k, row) ∷ rest) = if eq_state k s then some row else row_of s rest

-- `m[to]`
entry_of : SessionState → Row → Bool
unfolding eq_state
entry_of s [] = false
entry_of s ((k, b) ∷ rest) = if eq_state k s then b else entry_of s rest

unfoldable pub can_transition : SessionState → SessionState → Bool
unfolding row_of entry_of
can_transition from to = elim (row_of from transitions) [ some m ↦ entry_of to m | none ↦ false ]

-- `Transition`: nil is `none`.
unfoldable pub transition : SessionState → SessionState → Option InvalidTransition
unfolding can_transition
transition from to =
    if not (can_transition from to)
    then some (record { from_state = from; to_state = to })
    else none

unfoldable pub is_terminal : SessionState → Bool
unfolding eq_state
is_terminal s = eq_state s completed || (eq_state s failed || eq_state s cancelled)

unfoldable pub is_active : SessionState → Bool
unfolding eq_state is_terminal
is_active s = not (eq_state s idle) && not (is_terminal s)

unfoldable pub reset_allowed : SessionState → Bool
unfolding eq_state
reset_allowed s = eq_state s completed || (eq_state s failed || eq_state s cancelled)
