-- ===== src/Control/Server/Slot.antt =====
-- One session at a time.
use udp_measure.Prelude.{
  ℕ, suc, ◌+◌, ◌≤◌, arith, true, Option, none, some, List, [], ◌∷◌, ◌≡◌, ◌⊎◌, ◌↔◌, sym, refl, ◌∙◌,
  ap, inl, inr,
}
use mathlib.Core.Path.{subst}
use udp_measure.Control.Server.{
  Server, Handler, try_acquire_session, refused, answered_busy, serving, accept, answer_busy,
  release_session, load_first, drop_serving, serves, Step, connect, busy, leave, Reach, begin, next,
}

-- How many handlers run a session.
abbrev pub running : List Handler → ℕ
running [] = 0
running (serving p ∷ hs) = suc (running hs)
running (refused ∷ hs) = running hs
running (answered_busy c ∷ hs) = running hs

-- The slot is free and no session runs, or it holds the only one that runs.
abbrev Holds : Server → Option ℕ → Type 0
Holds s none = running s.handlers ≡ 0
Holds s (some p) = (running s.handlers ≡ 1) × (serves p s.handlers ≡ true)

abbrev Inv : Server → Type 0
Inv s = Holds s s.slot

running-load_first : (c : Option ℕ) (hs : List Handler) → running (load_first c hs) ≡ running hs
running-load_first c [] = refl
running-load_first c (refused ∷ hs) = refl
running-load_first c (answered_busy d ∷ hs) = running-load_first c hs
running-load_first c (serving p ∷ hs) = ground (arith, running-load_first c hs)

serves-load_first :
    (p : ℕ) (c : Option ℕ) (hs : List Handler) → serves p (load_first c hs) ≡ serves p hs
serves-load_first p c [] = refl
serves-load_first p c (refused ∷ hs) = refl
serves-load_first p c (answered_busy d ∷ hs) = serves-load_first p c hs
serves-load_first p c (serving q ∷ hs) = ground (arith, serves-load_first p c hs)

running-drop_serving :
    (p : ℕ) (hs : List Handler) → serves p hs ≡ true → running (drop_serving p hs) + 1 ≡ running hs
running-drop_serving p [] h = absurd (ground arith)
running-drop_serving p (refused ∷ hs) h = running-drop_serving p hs h
running-drop_serving p (answered_busy d ∷ hs) h = running-drop_serving p hs h
running-drop_serving p (serving q ∷ hs) h = ground (arith, running-drop_serving p hs)

serves-running : (p : ℕ) (hs : List Handler) → serves p hs ≡ true → 1 ≤ running hs
serves-running p [] h = absurd (ground arith)
serves-running p (refused ∷ hs) h = serves-running p hs h
serves-running p (answered_busy d ∷ hs) h = serves-running p hs h
serves-running p (serving q ∷ hs) h = omega arith

-- Of one running session there is one address.
serves_unique :
    (p q : ℕ) (hs : List Handler) → running hs ≤ 1 → serves p hs ≡ true → serves q hs ≡ true → p ≡ q
serves_unique p q [] r hp hq = absurd (ground arith)
serves_unique p q (refused ∷ hs) r hp hq = serves_unique p q hs r hp hq
serves_unique p q (answered_busy d ∷ hs) r hp hq = serves_unique p q hs r hp hq
serves_unique p q (serving o ∷ hs) r hp hq =
    ground (arith, serves-running p hs, serves-running q hs)

abbrev server : Option ℕ → ℕ → List Handler → Server
server o n hs = record { slot = o; next_address = n; handlers = hs }

accept-Inv :
    (o : Option ℕ) (n : ℕ) (hs : List Handler) → Inv (server o n hs) → Inv (accept (server o n hs))
unfolding accept try_acquire_session
accept-Inv none n hs i = ground arith
accept-Inv (some p) n hs i = ground arith

answer_busy-Inv :
    (o : Option ℕ) (n : ℕ) (hs : List Handler)
    → Inv (server o n hs)
    → Inv (answer_busy (server o n hs))
unfolding answer_busy
answer_busy-Inv none n hs i = running-load_first none hs ∙ i
answer_busy-Inv (some p) n hs i =
    (running-load_first (some p) hs ∙ i.0, serves-load_first p (some p) hs ∙ i.1)

release_session-Inv :
    (p : ℕ) (o : Option ℕ) (n : ℕ) (hs : List Handler)
    → serves p hs ≡ true
    → Inv (server o n hs)
    → Inv (release_session p (server o n hs))
unfolding release_session
release_session-Inv p none n hs h i =
    let none_runs : running hs ≡ 0 = i in absurd (omega (arith, serves-running p hs h))
release_session-Inv p (some q) n hs h i =
    ground (arith, i, running-drop_serving p hs h, serves_unique p q hs (omega (arith, i)) h i.1)

Step-Inv : {s t : Server} → Step s t → Inv s → Inv t
Step-Inv {s} (connect e) i = subst Inv (sym e) (accept-Inv s.slot s.next_address s.handlers i)
Step-Inv {s} (busy e) i = subst Inv (sym e) (answer_busy-Inv s.slot s.next_address s.handlers i)
Step-Inv {s} (leave p h e) i =
    subst Inv (sym e) (release_session-Inv p s.slot s.next_address s.handlers h i)

Reach-Inv : {s : Server} → Reach s → Inv s
Reach-Inv begin = refl
Reach-Inv (next r st) = Step-Inv st (Reach-Inv r)

-- The three readings of `Holds`, for any content of the slot.
Reads : Server → Option ℕ → ℕ → Type 0
Reads s o p =
    (running s.handlers ≤ 1)
    × ((o ≡ none) ↔ (running s.handlers ≡ 0))
    × ((o ≡ some p) ↔ (serves p s.handlers ≡ true))

Holds-Reads : (s : Server) (p : ℕ) (o : Option ℕ) → Holds s o → Reads s o p
unfolding Reads
Holds-Reads s p none h = (
  omega (arith, h),
  (λ _. h, λ _. refl),
  (λ e. absurd (ground (arith, e)), λ e. absurd (omega (arith, h, serves-running p s.handlers e))),
)
Holds-Reads s p (some q) h = (
  omega (arith, h),
  (λ e. absurd (ground (arith, e)), λ e. absurd (omega (arith, h, e))),
  (λ e. ground (arith, e, h), λ e. ap some (serves_unique q p s.handlers (omega (arith, h)) h.1 e)),
)

-- However connections and the ends of sessions interleave, at most one session runs; the slot is
-- free exactly when none runs, and it holds a session exactly when that session runs.
pub one_session :
    {s : Server}
    → Reach s
    → (p : ℕ)
    → (running s.handlers ≤ 1)
      × ((s.slot ≡ none) ↔ (running s.handlers ≡ 0))
      × ((s.slot ≡ some p) ↔ (serves p s.handlers ≡ true))
unfolding Reads
one_session {s} r p = Holds-Reads s p s.slot (Reach-Inv r)

accept_cases :
    (n : ℕ) (hs : List Handler) (o : Option ℕ)
    → Inv (server o n hs)
    → ((running hs ≡ 0)
        × ((accept (server o n hs)).handlers ≡ serving n ∷ hs)
        × ((accept (server o n hs)).slot ≡ some n))
      ⊎ (running hs ≡ 1)
        × ((accept (server o n hs)).handlers ≡ refused ∷ hs)
        × ((accept (server o n hs)).slot ≡ o)
unfolding accept try_acquire_session
accept_cases n hs none i = inl (i, refl, refl)
accept_cases n hs (some q) i = inr (i.0, refl, refl)

-- In every state that is reached a new connection gets the session if none runs, and if one runs it
-- is refused and the slot is kept.
pub accept_exclusive :
    {s : Server}
    → Reach s
    → ((running s.handlers ≡ 0)
        × ((accept s).handlers ≡ serving s.next_address ∷ s.handlers)
        × ((accept s).slot ≡ some s.next_address))
      ⊎ (running s.handlers ≡ 1)
        × ((accept s).handlers ≡ refused ∷ s.handlers)
        × ((accept s).slot ≡ s.slot)
accept_exclusive {s} r = accept_cases s.next_address s.handlers s.slot (Reach-Inv r)
