-- ===== src/Control/Client/Keeps.antt =====
-- Actions of the client and the messages that they write: a calculus for `Course`.
use mathlib.Core.Path.{subst}
use udp_measure.Prelude.{
  arith, Option, none, some, List, [], ◌∷◌, ◌++◌, Bytes, Outcome, ok, err, ◌≡◌, ◌⊎◌, inl, inr, refl,
  sym, Bool-cases, Outcome-cases,
}
use udp_measure.Udp.Sender.{SenderConfig}
use udp_measure.Udp.Receiver.{ReceiverConfig}
use udp_measure.Control.Session.{Message}
use udp_measure.Control.Client.Calls.{
  World, ClientError, Action, tell, hear, send_probes, open_receiver, begin_receiving,
  matched_so_far, expect, after, ◌>>=◌, ◌>>◌, finish, RecvError, no_sender, sending_failed,
  no_receiver, Sending, sent_all, no_socket, send_fails,
}

-- A world that also keeps the messages that the client has begun to write.
abbrev pub logged : {S : Type 0} → World S → World (S × List Message)
logged w = record {
  write_msg = λ m s. let (t, written) = w.write_msg m s.0 in ((t, s.1 ++ m ∷ []), written);
  recv_response = λ s. let (t, r) = w.recv_response s.0 in ((t, s.1), r);
  send_to = λ a c s. let (t, r) = w.send_to a c s.0 in ((t, s.1), r);
  listen = λ c s. let (t, r) = w.listen c s.0 in ((t, s.1), r);
  start_receiver = λ s. (w.start_receiver s.0, s.1);
  matched = λ s. w.matched s.0;
  reconnect = λ s. let (t, r) = w.reconnect s.0 in ((t, s.1), r);
}

-- An action either fails, with messages written that are `Begun`, or succeeds, and then `Done` tells
-- what is written.
abbrev pub Within :
    {S A : Type 0}
    → (List Message → Type 0)
    → (A → List Message → Type 0)
    → (S × List Message) × Outcome ClientError A
    → Type 0
Within {A = A} Begun Done r =
    ((e : ClientError) × (r.1 ≡ err e) × Begun r.0.1) ⊎ ((a : A) × (r.1 ≡ ok a) × Done a r.0.1)

pub Sending-cases : (r : Sending) → (r ≡ no_socket) ⊎ (r ≡ send_fails) ⊎ (r ≡ sent_all)
Sending-cases no_socket = inl refl
Sending-cases send_fails = inr (inl refl)
Sending-cases sent_all = inr (inr refl)

-- An action that is begun with `sofar` written, and what it does then.
pub record Keeps {S A : Type 0} (Begun : List Message → Type 0) (sofar : List Message)
    (Done : A → List Message → Type 0) (m : Action (S × List Message) A) : Type 0 where
  pub keep : (s : S × List Message) → s.1 ≡ sofar → Within Begun Done (m s)

-- It succeeds with exactly these written.
abbrev pub Just : {A : Type 0} → List Message → A → List Message → Type 0
Just written _ l = l ≡ written

pub after-Within :
    {S A B : Type 0} {Begun : List Message → Type 0} {between : List Message}
    {Done : B → List Message → Type 0} (more : A → Action (S × List Message) B)
    (r : (S × List Message) × Outcome ClientError A)
    → Within Begun (Just between) r
    → ((a : A) → Keeps Begun between Done (more a))
    → Within Begun Done (after more r)
after-Within more (s, err e) (inl (e', eq, p)) k = inl (e, refl, p)
after-Within more (s, err e) (inr (a, eq, _)) k = absurd (ground (arith, eq))
after-Within more (s, ok a) (inl (e, eq, _)) k = absurd (ground (arith, eq))
after-Within more (s, ok a) (inr (a', eq, d)) k = (k a).keep s d

module _ {S : Type 0} {Begun : List Message → Type 0} where
  pub bind-Keeps :
      {A B : Type 0} {sofar between : List Message} {Done : B → List Message → Type 0}
      {m : Action (S × List Message) A} {more : A → Action (S × List Message) B}
      → Keeps Begun sofar (Just between) m
      → ((a : A) → Keeps Begun between Done (more a))
      → Keeps Begun sofar Done (m >>= more)
  unfolding ◌>>=◌
  bind-Keeps {more = more} k h = record { keep = λ s d. after-Within more _ (k.keep s d) h }

  pub then-Keeps :
      {B : Type 0} {sofar between : List Message} {Done : B → List Message → Type 0}
      {m : Action (S × List Message) (Unit {0})} {more : Action (S × List Message) B}
      → Keeps Begun sofar (Just between) m
      → Keeps Begun between Done more
      → Keeps Begun sofar Done (m >> more)
  unfolding ◌>>◌
  then-Keeps k h = bind-Keeps k (λ _. h)

  pub tell-Keeps :
      (w : World S) (m : Message) (e : ClientError) {sofar : List Message}
      → Begun (sofar ++ m ∷ [])
      → Keeps Begun sofar (Just (sofar ++ m ∷ [])) (tell (logged w) m e)
  tell-Keeps w m e p = record {
    keep = λ s d. elim (Bool-cases (w.write_msg m s.0).1) [
      | inl t ↦ rw t (inr (tt, refl, rw d))
      | inr f ↦ rw f (inl (e, refl, rw d p))
    ];
  }

  -- The operations that write nothing.
  pub hear-Keeps :
      (w : World S) (wrap : RecvError → ClientError) {sofar : List Message}
      → Begun sofar
      → Keeps Begun sofar (Just sofar) (hear (logged w) wrap)
  hear-Keeps w wrap begun = record {
    keep = λ s d. elim (Outcome-cases (w.recv_response s.0).1) [
      | inl (e, f) ↦ rw f (inl (wrap e, refl, rw d begun))
      | inr (a, t) ↦ rw t (inr (a, refl, d))
    ];
  }

  pub open_receiver-Keeps :
      (w : World S) (c : ReceiverConfig) {sofar : List Message}
      → Begun sofar
      → Keeps Begun sofar (Just sofar) (open_receiver (logged w) c)
  open_receiver-Keeps w c begun = record {
    keep = λ s d. elim (Outcome-cases (w.listen c s.0).1) [
      | inl (e, f) ↦ rw f (inl (no_receiver, refl, rw d begun))
      | inr (a, t) ↦ rw t (inr (a, refl, d))
    ];
  }

  pub send_probes-Keeps :
      (w : World S) (target : Bytes) (c : SenderConfig) {sofar : List Message}
      → Begun sofar
      → Keeps Begun sofar (Just sofar) (send_probes (logged w) target c)
  send_probes-Keeps w target c begun = record {
    keep = λ s d. elim (Sending-cases (w.send_to target c s.0).1) [
      | inl f ↦ rw f (inl (no_sender, refl, rw d begun))
      | inr (inl f) ↦ rw f (inl (sending_failed, refl, rw d begun))
      | inr (inr t) ↦ rw t (inr (tt, refl, d))
    ];
  }

  pub expect-Keeps :
      {A : Type 0} (o : Option A) (e : ClientError) {sofar : List Message}
      → Begun sofar
      → Keeps {S = S} Begun sofar (Just sofar) (expect o e)
  expect-Keeps none e begun = record { keep = λ s d. inl (e, refl, rw d begun) }
  expect-Keeps (some a) e begun = record { keep = λ s d. inr (a, refl, d) }

  pub finish-Keeps :
      {A : Type 0} {Done : A → List Message → Type 0} (a : A) {sofar : List Message}
      → Done a sofar
      → Keeps {S = S} Begun sofar Done (finish a)
  finish-Keeps {Done = Done} a q = record { keep = λ s d. inr (a, refl, subst (Done a) (sym d) q) }

  pub begin_receiving-Keeps :
      (w : World S) {sofar : List Message}
      → Keeps Begun sofar (Just sofar) (begin_receiving (logged w))
  begin_receiving-Keeps w = record { keep = λ s d. inr (tt, refl, d) }

  pub matched_so_far-Keeps :
      (w : World S) {sofar : List Message}
      → Keeps Begun sofar (Just sofar) (matched_so_far (logged w))
  matched_so_far-Keeps w = record { keep = λ s d. inr (w.matched s.0, refl, d) }
