-- ===== src/Control/Client/Calls.antt =====
-- What the client's dialogue calls, and actions on it that may fail. An action goes on only where the
-- one before it has returned nil.
use udp_measure.Prelude.{ℕ, Bool, true, false, Option, none, some, Bytes, Outcome, ok, err}
use udp_measure.Prelude.Int.{ℤ}
use udp_measure.Protocol.Types.{MessageType}
use udp_measure.Udp.Sender.{SenderConfig}
use udp_measure.Udp.Receiver.{ReceiverConfig}
use udp_measure.Control.Session.{Message, Response}

-- What `recvResponse` returns: an answer of a session, or a message of another type.
pub data Reply : Type 0 where
  response : Response → Reply
  busy_reply : Reply
  other_reply : MessageType → Reply

-- The read, the envelope or the payload is faulty.
pub data RecvError : Type 0 where
  no_message bad_envelope bad_payload : RecvError

-- `udp.NewSender` fails, or `Send` does, or all packets are sent.
pub data Sending : Type 0 where
  no_socket send_fails sent_all : Sending

pub data ClientError : Type 0 where
  hello_unsent prepare_unsent start_unsent complete_unsent fetch_unsent : ClientError
  ready_missing complete_missing result_missing : RecvError → ClientError
  ready_expected complete_expected result_expected : Reply → ClientError
  no_sender sending_failed no_receiver no_connection : ClientError

-- The operations: `writeMsg`, which tells whether it succeeds; `recvResponse`; a sender that sends to
-- an address; a receiver, with its port if it can be opened, which is started and says how many
-- packets it has matched; and a new connection in place of the old one.
pub record World (S : Type 0) : Type 0 where
  pub write_msg : Message → S → S × Bool
  pub recv_response : S → S × Outcome RecvError Reply
  pub send_to : Bytes → SenderConfig → S → S × Sending
  pub listen : ReceiverConfig → S → S × Outcome (Unit {0}) ℤ
  pub start_receiver : S → S
  pub matched : S → ℕ
  pub reconnect : S → S × Bool

abbrev pub Action : Type 0 → Type 0 → Type 0
Action S A = S → S × Outcome ClientError A

infixl 5 ◌>>=◌ ◌>>◌
abbrev pub after :
    {S A B : Type 0} → (A → Action S B) → S × Outcome ClientError A → S × Outcome ClientError B
after more (s, ok a) = more a s
after more (s, err e) = (s, err e)

unfoldable pub ◌>>=◌ : {S A B : Type 0} → Action S A → (A → Action S B) → Action S B
first >>= more = λ s. after more (first s)

unfoldable pub ◌>>◌ : {S B : Type 0} → Action S (Unit {0}) → Action S B → Action S B
first >> rest = first >>= λ _. rest

abbrev pub finish : {S A : Type 0} → A → Action S A
finish a s = (s, ok a)

-- Goes on with what there is, and fails where there is nothing.
abbrev pub expect : {S A : Type 0} → Option A → ClientError → Action S A
expect (some a) e s = (s, ok a)
expect none e s = (s, err e)

-- `if err := …; err != nil { return nil, … }`, for each operation.
abbrev done_or : {S : Type 0} → ClientError → S × Bool → S × Outcome ClientError (Unit {0})
done_or e (s, true) = (s, ok tt)
done_or e (s, false) = (s, err e)

abbrev value_or : {S A E : Type 0} → (E → ClientError) → S × Outcome E A → S × Outcome ClientError A
value_or wrap (s, ok a) = (s, ok a)
value_or wrap (s, err e) = (s, err (wrap e))

abbrev sent_or : {S : Type 0} → S × Sending → S × Outcome ClientError (Unit {0})
sent_or (s, no_socket) = (s, err no_sender)
sent_or (s, send_fails) = (s, err sending_failed)
sent_or (s, sent_all) = (s, ok tt)

module _ {S : Type 0} (world : World S) where
  abbrev pub tell : Message → ClientError → Action S (Unit {0})
  tell m e s = done_or e (world.write_msg m s)

  abbrev pub hear : (RecvError → ClientError) → Action S Reply
  hear wrap s = value_or wrap (world.recv_response s)

  abbrev pub send_probes : Bytes → SenderConfig → Action S (Unit {0})
  send_probes target c s = sent_or (world.send_to target c s)

  abbrev pub open_receiver : ReceiverConfig → Action S ℤ
  open_receiver c s = value_or (λ _. no_receiver) (world.listen c s)

  abbrev pub begin_receiving : Action S (Unit {0})
  begin_receiving s = (world.start_receiver s, ok tt)

  abbrev pub matched_so_far : Action S ℕ
  matched_so_far s = (s, ok (world.matched s))

  abbrev pub redial : Action S (Unit {0})
  redial s = done_or no_connection (world.reconnect s)
