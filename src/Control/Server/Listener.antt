-- ===== src/Control/Server/Listener.antt =====
-- server.go: the listener of the server and its goroutines. `Start` holds the mutex around the socket
-- and starts `serve` after it; `Close` waits for all goroutines at its end. Whether the socket can be
-- opened is a parameter of the step, and so is what `Accept` returns.
pub mod Invariant
pub mod Shutdown
use udp_measure.Prelude.{
  ℕ, zero, suc, ◌-◌, Bool, true, false, not, ◌||◌, ◌==◌, Option, none, some, List, [], ◌∷◌, Bytes,
  codes, if◌then◌else◌, ◌≡◌,
}
use udp_measure.Config.Sweep.{IpKind, no_ip, ip4, ip6}

-- `for _, c := range host { if c == … }`
abbrev holds : ℕ → Bytes → Bool
holds b [] = false
holds b (c ∷ cs) = c == b || holds b cs

-- `ListenNetwork`; `host_of` is `net.SplitHostPort`, which may fail.
unfoldable pub listen_network : (Bytes → Option Bytes) → (Bytes → IpKind) → Bytes → Bytes
listen_network host_of parse_ip addr = elim (host_of addr) [
  | none ↦ codes "tcp"
  | some host ↦ elim (parse_ip host) [
    | ip4 ↦ codes "tcp4"
    | ip6 ↦ codes "tcp6"
    | no_ip ↦
        if holds b':' host
        then codes "tcp6"
        else if holds b'.' host
        then codes "tcp4"
        else codes "tcp"
  ]
]

pub data Socket : Type 0 where
  no_socket open_socket closed_socket : Socket

-- How far `Close` has come: not called, behind its lock, behind `s.cancel()`, waiting for the
-- goroutines, or returned.
pub data Closing : Type 0 where
  not_closing marked cancelled waiting returned : Closing

-- The server: `done` is the cancelled context, `starting` counts the calls of `Start` that have left
-- the mutex and not yet started their goroutine; `serving` counts the goroutines of `serve` at
-- `Accept`, `accepted` those that hold a connection, and `handling` those of `handleConn`.
pub record Listener : Type 0 where
  pub closed : Bool
  pub socket : Socket
  pub done : Bool
  pub starting : ℕ
  pub serving : ℕ
  pub accepted : ℕ
  pub handling : ℕ
  pub closing : Closing

abbrev pub new_listener : Listener
new_listener = record {
  closed = false;
  socket = no_socket;
  done = false;
  starting = 0;
  serving = 0;
  accepted = 0;
  handling = 0;
  closing = not_closing;
}

pub data StartError : Type 0 where
  server_closed listen_failed : StartError

-- `Start`, up to the end of its lock.
unfoldable pub start : Bool → Listener → Listener × Option StartError
start opens l = if l.closed then (l, some server_closed) else elim l.socket [
  | no_socket ↦
      if opens
      then (record l { socket = open_socket; starting = suc l.starting }, none)
      else (l, some listen_failed)
  | _ ↦ (record l { starting = suc l.starting }, none)
]

-- `s.wg.Add(1); go s.serve()`
unfoldable pub spawn : Listener → Listener
spawn l = elim l.starting [ zero ↦ l | suc n ↦ record l { starting = n; serving = suc l.serving } ]

-- One round of `serve`: `Accept` returns a connection, or an error, which is looked at only once the
-- server shuts down.
pub data Accepted : Type 0 where
  connection accept_error : Accepted

unfoldable pub serve_round : Accepted → Listener → Listener
serve_round connection l = record l { serving = l.serving - 1; accepted = suc l.accepted }
serve_round accept_error l = if l.done then record l { serving = l.serving - 1 } else l

-- `s.wg.Add(1); go s.handleConn(conn)`, and the next round of `serve`.
unfoldable pub start_handler : Listener → Listener
start_handler l = elim l.accepted [
  | zero ↦ l
  | suc n ↦ record l { accepted = n; serving = suc l.serving; handling = suc l.handling }
]

-- `handleConn` returns.
unfoldable pub handler_ends : Listener → Listener
handler_ends l = record l { handling = l.handling - 1 }

-- `Close`, up to the end of its lock.
unfoldable pub close : Listener → Listener
close l = if l.closed then l else record l { closed = true; closing = marked }

-- `s.cancel()`
unfoldable pub cancel : Listener → Listener
cancel l = elim l.closing [ marked ↦ record l { done = true; closing = cancelled } | _ ↦ l ]

-- `listener.Close()`, unless there is none.
unfoldable pub shut_socket : Listener → Listener
shut_socket l = elim l.closing [
  | cancelled ↦ record l {
    socket = elim l.socket [ no_socket ↦ no_socket | _ ↦ closed_socket ];
    closing = waiting;
  }
  | _ ↦ l
]

pub data Step (l m : Listener) : Type 0 where
  starts : (opens : Bool) → m ≡ (start opens l).0 → Step l m
  spawns : m ≡ spawn l → Step l m
  serves :
      {n : ℕ} (a : Accepted)
      → l.serving ≡ suc n
      → (a ≡ connection → l.socket ≡ open_socket)
      → m ≡ serve_round a l
      → Step l m
  handles : m ≡ start_handler l → Step l m
  ends : m ≡ handler_ends l → Step l m
  closes : m ≡ close l → Step l m
  cancels : m ≡ cancel l → Step l m
  shuts : m ≡ shut_socket l → Step l m
  waits :
      l.closing ≡ waiting
      → l.serving ≡ 0
      → l.accepted ≡ 0
      → l.handling ≡ 0
      → m ≡ record l { closing = returned }
      → Step l m

pub data Reach : Listener → Type 0 where
  begin : Reach new_listener
  next : {l m : Listener} → Reach l → Step l m → Reach m
