-- ===== src/Control/Server/Listener/Invariant.antt =====
-- How far `Close` has come, and what holds of the listener at each stage.
use mathlib.Core.Path.{subst}
use udp_measure.Prelude.{ℕ, suc, arith, Bool, true, false, ◌≡◌, ◌≢◌, ◌⊎◌, inl, inr, refl, sym}
use udp_measure.Control.Server.Listener.{
  Listener, Accepted, Step, Reach, no_socket, open_socket, closed_socket, not_closing, waiting,
  returned, cancel, shut_socket, cancels, shuts, Closing, marked, start, spawn, serve_round,
  start_handler, handles, handler_ends, close, starts, spawns, serves, ends, closes, waits, begin,
  next,
}

-- Which parts of `Close` are done.
abbrev pub is_marked : Closing → Bool
is_marked not_closing = false
is_marked _ = true

abbrev pub is_cancelled : Closing → Bool
is_cancelled not_closing = false
is_cancelled marked = false
is_cancelled _ = true

abbrev pub is_shut : Closing → Bool
is_shut waiting = true
is_shut returned = true
is_shut _ = false

-- The fields agree with how far `Close` has come, and goroutines run only where there has been a
-- socket.
pub record Sound (l : Listener) : Type 0 where
  pub marks : l.closed ≡ is_marked l.closing
  pub cancels_at : l.done ≡ is_cancelled l.closing
  pub shuts_at :
      ((is_shut l.closing ≡ false) × (l.socket ≢ closed_socket))
      ⊎ ((is_shut l.closing ≡ true) × (l.socket ≢ open_socket))
  pub heard : (l.socket ≢ no_socket) ⊎ ((l.starting ≡ 0) × (l.serving ≡ 0) × (l.accepted ≡ 0))

start-Sound : (opens : Bool) (l : Listener) → Sound l → Sound (start opens l).0
unfolding start
start-Sound opens l h = record {
  marks = ground (arith, h.marks, h.cancels_at, h.shuts_at, h.heard);
  cancels_at = ground (arith, h.marks, h.cancels_at, h.shuts_at, h.heard);
  shuts_at = ground (arith, h.marks, h.cancels_at, h.shuts_at, h.heard);
  heard = ground (arith, h.marks, h.cancels_at, h.shuts_at, h.heard);
}

spawn-Sound : (l : Listener) → Sound l → Sound (spawn l)
unfolding spawn
spawn-Sound l h = record {
  marks = ground (arith, h.marks, h.cancels_at, h.shuts_at, h.heard);
  cancels_at = ground (arith, h.marks, h.cancels_at, h.shuts_at, h.heard);
  shuts_at = ground (arith, h.marks, h.cancels_at, h.shuts_at, h.heard);
  heard = ground (arith, h.marks, h.cancels_at, h.shuts_at, h.heard);
}

serve_round-Sound :
    (a : Accepted) (n : ℕ) (l : Listener) → l.serving ≡ suc n → Sound l → Sound (serve_round a l)
unfolding serve_round
serve_round-Sound a n l e h = record {
  marks = ground (arith, h.marks, h.cancels_at, h.shuts_at, h.heard, e);
  cancels_at = ground (arith, h.marks, h.cancels_at, h.shuts_at, h.heard, e);
  shuts_at = ground (arith, h.marks, h.cancels_at, h.shuts_at, h.heard, e);
  heard = ground (arith, h.marks, h.cancels_at, h.shuts_at, h.heard, e);
}

start_handler-Sound : (l : Listener) → Sound l → Sound (start_handler l)
unfolding start_handler
start_handler-Sound l h = record {
  marks = ground (arith, h.marks, h.cancels_at, h.shuts_at, h.heard);
  cancels_at = ground (arith, h.marks, h.cancels_at, h.shuts_at, h.heard);
  shuts_at = ground (arith, h.marks, h.cancels_at, h.shuts_at, h.heard);
  heard = ground (arith, h.marks, h.cancels_at, h.shuts_at, h.heard);
}

handler_ends-Sound : (l : Listener) → Sound l → Sound (handler_ends l)
unfolding handler_ends
handler_ends-Sound l h = record {
  marks = ground (arith, h.marks, h.cancels_at, h.shuts_at, h.heard);
  cancels_at = ground (arith, h.marks, h.cancels_at, h.shuts_at, h.heard);
  shuts_at = ground (arith, h.marks, h.cancels_at, h.shuts_at, h.heard);
  heard = ground (arith, h.marks, h.cancels_at, h.shuts_at, h.heard);
}

close-Sound : (l : Listener) → Sound l → Sound (close l)
unfolding close
close-Sound l h = record {
  marks = ground (arith, h.marks, h.cancels_at, h.shuts_at, h.heard);
  cancels_at = ground (arith, h.marks, h.cancels_at, h.shuts_at, h.heard);
  shuts_at = ground (arith, h.marks, h.cancels_at, h.shuts_at, h.heard);
  heard = ground (arith, h.marks, h.cancels_at, h.shuts_at, h.heard);
}

cancel-Sound : (l : Listener) → Sound l → Sound (cancel l)
unfolding cancel
cancel-Sound l h = record {
  marks = ground (arith, h.marks, h.cancels_at, h.shuts_at, h.heard);
  cancels_at = ground (arith, h.marks, h.cancels_at, h.shuts_at, h.heard);
  shuts_at = ground (arith, h.marks, h.cancels_at, h.shuts_at, h.heard);
  heard = ground (arith, h.marks, h.cancels_at, h.shuts_at, h.heard);
}

shut_socket-Sound : (l : Listener) → Sound l → Sound (shut_socket l)
unfolding shut_socket
shut_socket-Sound l h = record {
  marks = ground (arith, h.marks, h.cancels_at, h.shuts_at, h.heard);
  cancels_at = ground (arith, h.marks, h.cancels_at, h.shuts_at, h.heard);
  shuts_at = ground (arith, h.marks, h.cancels_at, h.shuts_at, h.heard);
  heard = ground (arith, h.marks, h.cancels_at, h.shuts_at, h.heard);
}

wait-Sound :
    (l : Listener) → l.closing ≡ waiting → Sound l → Sound (record l { closing = returned })
wait-Sound l w h = record {
  marks = ground (arith, h.marks, h.cancels_at, h.shuts_at, h.heard, w);
  cancels_at = ground (arith, h.marks, h.cancels_at, h.shuts_at, h.heard, w);
  shuts_at = ground (arith, h.marks, h.cancels_at, h.shuts_at, h.heard, w);
  heard = ground (arith, h.marks, h.cancels_at, h.shuts_at, h.heard, w);
}

pub Step-Sound : {l m : Listener} → Sound l → Step l m → Sound m
Step-Sound {l} h (starts opens e) = subst Sound (sym e) (start-Sound opens l h)
Step-Sound {l} h (spawns e) = subst Sound (sym e) (spawn-Sound l h)
Step-Sound {l} h (serves {n} a s o e) = subst Sound (sym e) (serve_round-Sound a n l s h)
Step-Sound {l} h (handles e) = subst Sound (sym e) (start_handler-Sound l h)
Step-Sound {l} h (ends e) = subst Sound (sym e) (handler_ends-Sound l h)
Step-Sound {l} h (closes e) = subst Sound (sym e) (close-Sound l h)
Step-Sound {l} h (cancels e) = subst Sound (sym e) (cancel-Sound l h)
Step-Sound {l} h (shuts e) = subst Sound (sym e) (shut_socket-Sound l h)
Step-Sound {l} h (waits w s a d e) = subst Sound (sym e) (wait-Sound l w h)

pub Reach-Sound : {l : Listener} → Reach l → Sound l
Reach-Sound begin = record {
  marks = refl;
  cancels_at = refl;
  shuts_at = inl (refl, λ e. ground (arith, e));
  heard = inr (refl, refl, refl);
}
Reach-Sound (next r s) = Step-Sound (Reach-Sound r) s
