-- ===== src/Control/Server/Listener/Shutdown.antt =====
-- What holds of the listener when it is closed.
use udp_measure.Prelude.{ℕ, zero, suc, ◌+◌, ◌-◌, ◌≤◌, arith, true, ◌≡◌, refl, sym}
use udp_measure.Control.Server.Listener.{
  Listener, Step, Reach, closed_socket, waiting, returned, connection, accept_error, cancel,
  shut_socket, cancels, shuts, start, spawn, serve_round, start_handler, handles, handler_ends,
  close, starts, spawns, serves, ends, closes, waits,
}
use udp_measure.Control.Server.Listener.Invariant.{Sound, Reach-Sound}

-- Goroutines of `serve` that run or are about to, and connections that are accepted.
abbrev pub loops : Listener → ℕ
loops l = l.starting + l.serving + l.accepted

abbrev pub connections : Listener → ℕ
connections l = l.accepted + l.handling

Step-closed :
    {l m : Listener}
    → Sound l
    → l.socket ≡ closed_socket
    → Step l m
    → (m.socket ≡ closed_socket) × (connections m ≤ connections l) × (loops m ≤ loops l)
unfolding start spawn serve_round start_handler handler_ends close cancel shut_socket
Step-closed {l} h c (starts opens e) = rw e (ground (arith, c, h.marks, h.shuts_at))
Step-closed {l} h c (spawns e) = rw e (ground (arith, c))
Step-closed {l} h c (serves connection s o e) = absurd (ground (arith, o refl, c))
Step-closed {l} h c (serves accept_error s o e) = rw e (ground (arith, c))
Step-closed {l} h c (handles e) = rw e (ground (arith, c))
Step-closed {l} h c (ends e) = rw e (ground (arith, c))
Step-closed {l} h c (closes e) = rw e (ground (arith, c))
Step-closed {l} h c (cancels e) = rw e (ground (arith, c))
Step-closed {l} h c (shuts e) = rw e (ground (arith, c))
Step-closed {l} h c (waits w s a d e) = rw e (c, omega arith, omega arith)

-- A server whose socket `Close` has closed never opens one again: in no step does the number of its
-- connections grow, accepted or in the hands of a handler, nor that of the goroutines that accept
-- them, running or about to.
pub closed_for_good :
    {l m : Listener}
    → Reach l
    → l.socket ≡ closed_socket
    → Step l m
    → (m.socket ≡ closed_socket) × (connections m ≤ connections l) × (loops m ≤ loops l)
closed_for_good r c s = Step-closed (Reach-Sound r) c s

-- Steps in a row.
pub data Run : Listener → Listener → Type 0 where
  done : {l : Listener} → Run l l
  step : {l m n : Listener} → Step l m → Run m n → Run l n

-- No goroutine runs or is about to.
abbrev pub IsIdle : Listener → Type 0
IsIdle l = (loops l ≡ 0) × (connections l ≡ 0)

-- From `Close` on every goroutine can end, and `Close` returns.
abbrev Returns : Listener → Type 0
Returns l = (m : Listener) × Run l m × (m.closing ≡ returned) × IsIdle m

ahead : {l m : Listener} → Step l m → Returns m → Returns l
ahead s (m, run, end, idle) = (m, step s run, end, idle)

drain_handlers :
    (n : ℕ) (l : Listener)
    → l.handling ≡ n
    → l.closing ≡ waiting
    → l.starting ≡ 0
    → l.accepted ≡ 0
    → l.serving ≡ 0
    → Returns l
unfolding handler_ends
drain_handlers zero l h w s a v =
    (_, step (waits w v a h refl) done, refl, (omega arith, omega arith))
drain_handlers (suc n) l h w s a v =
    ahead (ends refl) (drain_handlers n (handler_ends l) (omega (arith, h)) w s a v)

drain_loops :
    (n : ℕ) (l : Listener)
    → l.serving ≡ n
    → l.closing ≡ waiting
    → l.done ≡ true
    → l.starting ≡ 0
    → l.accepted ≡ 0
    → Returns l
unfolding serve_round
drain_loops zero l v w d s a = drain_handlers l.handling l refl w s a v
drain_loops (suc n) l v w d s a =
    let ended : serve_round accept_error l ≡ record l { serving = l.serving - 1 } = rw d refl in
    ahead (serves accept_error v (λ e. ground (arith, e)) (sym ended))
      (drain_loops n (record l { serving = l.serving - 1 }) (omega (arith, v)) w d s a)

drain_accepted :
    (n : ℕ) (l : Listener)
    → l.accepted ≡ n
    → l.closing ≡ waiting
    → l.done ≡ true
    → l.starting ≡ 0
    → Returns l
unfolding start_handler
drain_accepted zero l a w d s = drain_loops l.serving l refl w d s a
drain_accepted (suc n) l a w d s =
    let next_round = record l {
      accepted = n;
      serving = suc l.serving;
      handling = suc l.handling;
    } in
    let handled : start_handler l ≡ next_round = rw a refl in
    ahead (handles (sym handled)) (drain_accepted n next_round refl w d s)

drain_starts :
    (n : ℕ) (l : Listener) → l.starting ≡ n → l.closing ≡ waiting → l.done ≡ true → Returns l
unfolding spawn
drain_starts zero l s w d = drain_accepted l.accepted l refl w d s
drain_starts (suc n) l s w d =
    let spawned : spawn l ≡ record l { starting = n; serving = suc l.serving } = rw s refl in
    ahead (spawns (sym spawned))
      (drain_starts n (record l { starting = n; serving = suc l.serving }) refl w d)

-- While `Close` waits there is always a way for it to return: a run in which every call of `Start`
-- under way starts its goroutine, each such goroutine hands on its connection, meets the closed
-- socket and ends, the handlers end, and `Close` returns with no goroutine left.
pub close_returns :
    (l : Listener)
    → Reach l
    → l.closing ≡ waiting
    → (m : Listener) × Run l m × (m.closing ≡ returned) × IsIdle m
close_returns l r w =
    let h = Reach-Sound r in drain_starts l.starting l refl w (ground (arith, h.cancels_at, w))
