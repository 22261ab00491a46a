-- ===== src/Protocol/StateMachine/Graph.antt =====
-- The shape of the transition graph: how terminal, active and idle states lie in it, that a session
-- makes boundedly many moves before it is idle again, and that it can always get there.
use udp_measure.Prelude.{
  ℕ, ◌≤◌, ◌<◌, arith, true, false, Option, none, some, List, [], ◌∷◌, length, All, ◌≡◌, ◌≢◌, ◌↔◌,
  ◌⊎◌, refl,
}
use udp_measure.Protocol.Types.{
  SessionState, idle, preparing, ready, running, collecting, completed,
}
use udp_measure.Protocol.StateMachine.{transition, is_terminal, is_active, reset_allowed}

-- A walk through the graph, with the states that it enters and the one that it ends in.
pub data Walk : SessionState → List SessionState → SessionState → Type 0 where
  stop : {s : SessionState} → Walk s [] s
  move :
      {s t u : SessionState} {rest : List SessionState}
      → transition s t ≡ none
      → Walk t rest u
      → Walk s (t ∷ rest) u

abbrev pub AvoidsIdle : List SessionState → Type 0
AvoidsIdle = All (λ t. t ≢ idle)

-- `Transition` agrees with the three classes of states: every state is in exactly one of them,
-- a session may be made idle exactly in the terminal states, which are those where a reset is
-- allowed, and an error names the two states that it refuses.
pub transition_classes :
    (s t : SessionState)
    → ((s ≡ idle) × (is_active s ≡ false) × (is_terminal s ≡ false)
        ⊎ ((s ≢ idle) × (is_active s ≡ true) × (is_terminal s ≡ false)
            ⊎ (s ≢ idle) × (is_active s ≡ false) × (is_terminal s ≡ true)))
      × (transition s idle ≡ none ↔ is_terminal s ≡ true)
      × (reset_allowed s ≡ is_terminal s)
      × ((transition s t ≡ none)
          ⊎ (transition s t ≡ some (record { from_state = s; to_state = t })))
unfolding transition is_active is_terminal reset_allowed
transition_classes s t = ground arith

-- A permitted move from a terminal state enters idle, and any other permitted move does not; a move
-- into an active state comes from idle or from an active state.
pub transition_from_terminal :
    (s t : SessionState)
    → transition s t ≡ none
    → ((t ≡ idle) ↔ (is_terminal s ≡ true))
      × ((is_active t ≡ false) ⊎ (s ≡ idle) ⊎ (is_active s ≡ true))
unfolding transition is_active is_terminal
transition_from_terminal s t h = ground arith

-- How many moves are left before a session has to be idle.
moves_left : SessionState → ℕ
moves_left idle = 5
moves_left preparing = 4
moves_left ready = 3
moves_left running = 2
moves_left collecting = 1
moves_left _ = 0

transition-moves_left :
    (s t : SessionState) → transition s t ≡ none → t ≢ idle → moves_left t < moves_left s
unfolding transition moves_left
transition-moves_left s t h away = ground arith

Walk-moves_left :
    {s u : SessionState} {rest : List SessionState}
    → Walk s rest u
    → AvoidsIdle rest
    → length rest ≤ moves_left s
Walk-moves_left stop away = omega arith
Walk-moves_left (move {s = s} {t = t} h w) away =
    omega (arith, transition-moves_left s t h away.0, Walk-moves_left w away.1)

moves_left-le : (s : SessionState) → moves_left s ≤ 5
unfolding moves_left
moves_left-le s = ground arith

-- A walk that does not come back to idle makes at most five moves, from whatever state it starts:
-- the life of a session is bounded.
pub Walk-length :
    {s u : SessionState} {rest : List SessionState}
    → Walk s rest u
    → AvoidsIdle rest
    → length rest ≤ 5
Walk-length {s} w away = omega (arith, Walk-moves_left w away, moves_left-le s)

-- What is left of the only way to `completed`.
to_completed : SessionState → Option (List SessionState)
to_completed idle = some (preparing ∷ ready ∷ running ∷ collecting ∷ completed ∷ [])
to_completed preparing = some (ready ∷ running ∷ collecting ∷ completed ∷ [])
to_completed ready = some (running ∷ collecting ∷ completed ∷ [])
to_completed running = some (collecting ∷ completed ∷ [])
to_completed collecting = some (completed ∷ [])
to_completed completed = some []
to_completed _ = none

transition-to_completed :
    (s t : SessionState) (rest : List SessionState)
    → transition s t ≡ none
    → t ≢ idle
    → to_completed t ≡ some rest
    → to_completed s ≡ some (t ∷ rest)
unfolding transition to_completed
transition-to_completed s t rest h away e = ground arith

Walk-to_completed :
    {s u : SessionState} {rest : List SessionState}
    → Walk s rest u
    → u ≡ completed
    → AvoidsIdle rest
    → to_completed s ≡ some rest
unfolding to_completed
Walk-to_completed stop e away = rw e
Walk-to_completed (move {s = s} {t = t} {rest = rest} h w) e away =
    transition-to_completed s t rest h away.0 (Walk-to_completed w e away.1)

-- A session that starts idle and completes without being reset in between was preparing, ready,
-- running and collecting in this order, and nothing else.
pub Walk-completed :
    {rest : List SessionState}
    → Walk idle rest completed
    → AvoidsIdle rest
    → rest ≡ preparing ∷ ready ∷ running ∷ collecting ∷ completed ∷ []
unfolding to_completed
Walk-completed w away = cc (Walk-to_completed w refl away)
