-- ===== src/Control/Client/Against.antt =====
-- The client's dialogue with the session of the server: a world whose connection leads to the session
-- of `Control.Session`, and one order in which the session's goroutines run.
pub mod Uplink
pub mod Downlink
pub mod Both
use mathlib.Core.List.{reverse}
use udp_measure.Prelude.{
  ℕ, zero, suc, arith, Bool, true, false, not, ◌&&◌, Option, none, some, List, All, [], ◌∷◌, ◌++◌,
  Bytes, Outcome, ok, err, ◌≡◌, refl, sym, if◌then◌else◌,
}
use udp_measure.Prelude.Int.{ℤ, pos, ◌==ℤ◌, ◌-ℤ◌, wrap64}
use udp_measure.Protocol.Types.{
  protocol_version, SessionState, running, completed, direction_uplink, direction_downlink,
  family_ipv6,
}
use udp_measure.Protocol.StateMachine.{transition}
use udp_measure.Control.Session.{
  ready_response, result_response, Session, Message, Response, Peer, Prepare, new_session, hello,
  prepare, start, send_complete, fetch_result, sender_task, receiver_starting, receiver_listening,
  awaiting, closed_chan,
}
use udp_measure.Control.Session.Loop.{
  run, loop_once, task_step, resume, message, binds, records, stops, send_ends, Reach,
}
use udp_measure.Control.Session.Uplink.{
  prepare_step, prepared, listening, stopped, ending, ending-Reach,
}
use udp_measure.Control.Client.Calls.{
  tell, hear, send_probes, open_receiver, begin_receiving, matched_so_far, World, Action, Reply,
  response, RecvError, no_message, Sending, sent_all, ClientError, ◌>>=◌, ◌>>◌,
}
use udp_measure.Udp.Sender.{SenderConfig}
use udp_measure.Udp.Receiver.{ReceiverConfig}
use udp_measure.Control.Client.{TestResult, TestParams, prepare_for, run_uplink, run_downlink}

-- A connection with its session: `heard` responses of the session have been read.
pub record Joint : Type 0 where
  pub session : Session
  pub heard : ℕ

-- The session's goroutines run as far as they come by themselves: the receiver is bound; once told to
-- quit it stops, and the message loop, if it waits for this, goes on; the sender sends all.
unfoldable pub settle : Session → Session
unfolding task_step resume
settle s = elim s.task [
  | receiver_starting ↦ task_step true binds s
  | receiver_listening true _ ↦
      let t = task_step true stops s in elim t.main [ awaiting ↦ resume true t | _ ↦ t ]
  | sender_task ↦ task_step true send_ends s
  | _ ↦ s
]

-- n packets of the test reach the receiver.
unfoldable pub record_all : ℕ → Session → Session
unfolding task_step
record_all zero s = s
record_all (suc n) s = task_step true records (record_all n s)

unfoldable pub nth : List Response → ℕ → Option Response
nth [] _ = none
nth (r ∷ rs) zero = some r
nth (r ∷ rs) (suc n) = nth rs n

unfoldable pub answer : Joint → Joint × Outcome RecvError Reply
unfolding nth
answer j = elim (nth (reverse j.session.out) j.heard) [
  | none ↦ (j, err no_message)
  | some r ↦ (record j { heard = suc j.heard }, ok (response r))
]

abbrev pub connected : Joint
connected = record { session = run true new_session; heard = 0 }

-- The world: of the packets that the client sends, `arrived` reach the server, and of those that the
-- server sends, `matched` reach the client's receiver, which listens on `port`.
abbrev pub against : Peer → ℕ → ℕ → ℤ → World Joint
against peer arrived matched port = record {
  write_msg = λ m j. (
    record j { session = settle (loop_once true peer (message m) j.session) },
    j.session.conn_open,
  );
  recv_response = answer;
  send_to = λ _ _ j. (record j { session = record_all arrived j.session }, sent_all);
  listen = λ _ j. (j, ok port);
  start_receiver = λ j. j;
  matched = λ _. matched;
  reconnect = λ _. (connected, true);
}

-- An action that succeeds, and what goes on behind it.
pub >>=-runs :
    {S A B : Type 0} (m : Action S A) (more : A → Action S B) (s : S) {t : S} {a : A}
    {r : S × Outcome ClientError B}
    → m s ≡ (t, ok a)
    → more a t ≡ r
    → (m >>= more) s ≡ r
unfolding ◌>>=◌
>>=-runs m more s e f = rw e f

pub >>-runs :
    {S B : Type 0} (m : Action S (Unit {0})) (more : Action S B) (s : S) {t : S}
    {r : S × Outcome ClientError B}
    → m s ≡ (t, ok tt)
    → more t ≡ r
    → (m >> more) s ≡ r
unfolding ◌>>◌
>>-runs m more s e f = >>=-runs m (λ _. more) s e f

abbrev pub read : ℕ → Session → Joint
read n s = record { session = s; heard = n }

pub hello-settles :
    (peer : Peer)
    → settle (loop_once true peer (message (hello protocol_version)) (run true new_session))
      ≡ run true new_session
unfolding settle loop_once run transition
hello-settles peer = refl

-- What joins a client with a session: a world whose states hold the session and the number of its
-- responses that the client has read, and whose operations carry the messages and the responses that
-- can be sent.
pub record Joins {S : Type 0} (world : World S) (put : ℕ → Session → S) (peer : Peer)
    (arrived matched : ℕ) (port : ℤ) (IsSent : Message → Type 0) (IsHeard : Response → Type 0)
    : Type 0 where
  pub told :
      (m : Message) (n : ℕ) (s : Session)
      → IsSent m
      → s.conn_open ≡ true
      → world.write_msg m (put n s) ≡ (put n (settle (loop_once true peer (message m) s)), true)
  pub heard :
      (r : Response) (n : ℕ) (s : Session)
      → IsHeard r
      → nth (reverse s.out) n ≡ some r
      → world.recv_response (put n s) ≡ (put (suc n) s, ok (response r))
  pub probes_sent :
      (target : Bytes) (c : SenderConfig) (n : ℕ) (s : Session)
      → world.send_to target c (put n s) ≡ (put n (record_all arrived s), sent_all)
  pub receiver_opened :
      (c : ReceiverConfig) (n : ℕ) (s : Session) → world.listen c (put n s) ≡ (put n s, ok port)
  pub receiver_started : (n : ℕ) (s : Session) → world.start_receiver (put n s) ≡ put n s
  pub receiver_matched : (n : ℕ) (s : Session) → world.matched (put n s) ≡ matched

abbrev pub Anything : {A : Type 0} → A → Type 0
Anything _ = Unit

pub All-Anything : {A : Type 0} (xs : List A) → All Anything xs
All-Anything [] = tt
All-Anything (x ∷ xs) = (tt, All-Anything xs)

pub against-Joins :
    (peer : Peer) (arrived matched : ℕ) (port : ℤ)
    → Joins (against peer arrived matched port) read peer arrived matched port Anything Anything
unfolding answer
against-Joins peer arrived matched port = record {
  told = λ m n s _ connection. rw connection refl;
  heard = λ r n s _ e. rw e refl;
  probes_sent = λ target c n s. refl;
  receiver_opened = λ c n s. refl;
  receiver_started = λ n s. refl;
  receiver_matched = λ n s. refl;
}

-- The actions of the client in such a world.
module _ {S : Type 0} {world : World S} {put : ℕ → Session → S} {peer : Peer} {arrived matched : ℕ}
    {port : ℤ} {IsSent : Message → Type 0} {IsHeard : Response → Type 0}
    (joins : Joins world put peer arrived matched port IsSent IsHeard) where
  pub tell-joined :
      (m : Message) (e : ClientError) (n : ℕ) (s : Session) {t : Session}
      → IsSent m
      → s.conn_open ≡ true
      → settle (loop_once true peer (message m) s) ≡ t
      → tell world m e (put n s) ≡ (put n t, ok tt)
  tell-joined m e n s sent connection eq = rw (joins.told m n s sent connection, eq) refl

  pub hear-joined :
      (r : Response) (wrap : RecvError → ClientError) (n : ℕ) (s : Session)
      → IsHeard r
      → nth (reverse s.out) n ≡ some r
      → hear world wrap (put n s) ≡ (put (suc n) s, ok (response r))
  hear-joined r wrap n s known e = rw (joins.heard r n s known e) refl

  pub send_probes-joined :
      (target : Bytes) (c : SenderConfig) (n : ℕ) (s : Session) {t : Session}
      → record_all arrived s ≡ t
      → send_probes world target c (put n s) ≡ (put n t, ok tt)
  send_probes-joined target c n s eq = rw (joins.probes_sent target c n s, eq) refl

  pub open_receiver-joined :
      (c : ReceiverConfig) (n : ℕ) (s : Session)
      → open_receiver world c (put n s) ≡ (put n s, ok port)
  open_receiver-joined c n s = rw (joins.receiver_opened c n s) refl

  pub begin_receiving-joined :
      (n : ℕ) (s : Session) → begin_receiving world (put n s) ≡ (put n s, ok tt)
  begin_receiving-joined n s = rw (joins.receiver_started n s) refl

  pub matched_so_far-joined :
      (n : ℕ) (s : Session) → matched_so_far world (put n s) ≡ (put n s, ok matched)
  matched_so_far-joined n s = rw (joins.receiver_matched n s) refl
