-- ===== src/Control/Server.antt =====
-- server.go: the slot for the one active session. A session is known by the address of its struct,
-- which `NewSession` makes fresh; `slot` is the atomic pointer. Connections are handled by
-- goroutines of their own, whose atomic operations come in any order.
pub mod Slot
pub mod Listener
pub mod Answers
use udp_measure.Prelude.{
  ℕ, suc, Bool, true, false, Option, none, some, List, [], ◌∷◌, ◌==◌, if◌then◌else◌, ◌≡◌,
}

-- Where `handleConn` stands for a connection: the compare-and-swap of `tryAcquireSession` failed and
-- the current session has yet to be loaded, or it was loaded and BUSY is sent, or the session runs.
pub data Handler : Type 0 where
  refused : Handler
  answered_busy : Option ℕ → Handler
  serving : ℕ → Handler

pub record Server : Type 0 where
  pub slot : Option ℕ
  pub next_address : ℕ
  pub handlers : List Handler

abbrev pub new_server : Server
new_server = record { slot = none; next_address = 0; handlers = [] }

abbrev same : Option ℕ → Option ℕ → Bool
same none none = true
same (some a) (some b) = a == b
same _ _ = false

-- `CompareAndSwap`
abbrev compare_and_swap : Option ℕ → Option ℕ → Option ℕ → Option ℕ × Bool
compare_and_swap current old new = if same current old then (new, true) else (current, false)

-- A connection is accepted: `NewSession` and the compare-and-swap of `tryAcquireSession`.
unfoldable pub try_acquire_session : Server → Server × Handler
try_acquire_session s =
    let (slot', swapped) = compare_and_swap s.slot none (some s.next_address) in
    (
      record s { slot = slot'; next_address = suc s.next_address },
      if swapped then serving s.next_address else refused,
    )

unfoldable pub accept : Server → Server
unfolding try_acquire_session
accept s = let (t, h) = try_acquire_session s in record t { handlers = h ∷ t.handlers }

-- The first handler that waits to load the current session does so, and sends BUSY with it.
abbrev load_first : Option ℕ → List Handler → List Handler
load_first current [] = []
load_first current (refused ∷ hs) = answered_busy current ∷ hs
load_first current (h ∷ hs) = h ∷ load_first current hs

unfoldable pub answer_busy : Server → Server
answer_busy s = record s { handlers = load_first s.slot s.handlers }

-- The handler of session p has returned from `Run`.
abbrev drop_serving : ℕ → List Handler → List Handler
drop_serving p [] = []
drop_serving p (serving q ∷ hs) = if q == p then hs else serving q ∷ drop_serving p hs
drop_serving p (refused ∷ hs) = refused ∷ drop_serving p hs
drop_serving p (answered_busy c ∷ hs) = answered_busy c ∷ drop_serving p hs

-- `releaseSession`
unfoldable pub release_session : ℕ → Server → Server
release_session p s = record s {
  slot = (compare_and_swap s.slot (some p) none).0;
  handlers = drop_serving p s.handlers;
}

abbrev pub serves : ℕ → List Handler → Bool
serves p [] = false
serves p (serving q ∷ hs) = let rest = serves p hs in if q == p then true else rest
serves p (refused ∷ hs) = serves p hs
serves p (answered_busy c ∷ hs) = serves p hs

pub data Step (s t : Server) : Type 0 where
  connect : t ≡ accept s → Step s t
  busy : t ≡ answer_busy s → Step s t
  leave : (p : ℕ) → serves p s.handlers ≡ true → t ≡ release_session p s → Step s t

pub data Reach : Server → Type 0 where
  begin : Reach new_server
  next : {s t : Server} → Reach s → Step s t → Reach t
