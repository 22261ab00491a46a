-- ===== src/Cli/Sweep.antt =====
-- A whole sweep against a server whose sessions are those of `Control.Session`: each test case meets a
-- session that has just begun.
use udp_measure.Prelude.{
  ℕ, true, false, not, ◌&&◌, some, List, [], ◌∷◌, ◌++◌, map, append_assoc, append-nil, All, inl,
  inr, ◌≡◌, ◌⊎◌, refl, ap, ◌∙◌, if◌then◌else◌,
}
use udp_measure.Prelude.Int.{ℤ, pos, ◌-ℤ◌, ◌==ℤ◌, wrap64}
use udp_measure.Protocol.Types.{direction_uplink, direction_downlink, family_ipv6}
use udp_measure.Config.Sweep.{ClientConfig, SweepPlan}
use udp_measure.Control.Session.{Session, Message, Response, Peer, new_session}
use udp_measure.Control.Session.Loop.{run}
use udp_measure.Control.Client.Calls.{World}
use udp_measure.Control.Client
use udp_measure.Control.Client.{run_uplink, run_downlink}
use udp_measure.Control.Client.Against.{Joint, Joins, read, against-Joins, All-Anything}
use udp_measure.Control.Client.Against.Uplink.{uplink_messages, uplink_responses, uplink_joined}
use udp_measure.Control.Client.Against.Downlink.{
  downlink_messages, downlink_responses, downlink_joined,
}
use udp_measure.Report.{TestResult}
use udp_measure.Cli.{
  target_address, test_params, report_result, report_results, Dialer, Gathered, RoundEnd, tested,
  one_result, conclude, run_plan, run_plans,
}
use udp_measure.Cli.Targets.{IsRunnable}

-- The server accepts a test case whose family is that of the client's address, or IPv4.
abbrev pub IsCompatible : Peer → SweepPlan → Type 0
IsCompatible peer plan = (plan.family ==ℤ family_ipv6 && not peer.is_ipv6) ≡ false

-- What the report is to say of a test case, if `arrived` packets reach the server in an uplink test
-- and `matched` packets the client in a downlink test.
abbrev pub entry_for : ClientConfig → ℕ → ℕ → SweepPlan → TestResult
entry_for cfg arrived matched plan =
    let received = pos (if plan.direction ==ℤ direction_uplink then arrived else matched) in
    record {
      target_address = target_address cfg plan;
      family = plan.family;
      direction = plan.direction;
      udp_port = plan.port;
      payload_size = plan.payload_size;
      sent = cfg.count;
      received = received;
      lost = wrap64 (cfg.count -ℤ received);
    }

-- Every connection leads to a session that has just begun.
abbrev pub fresh : {S : Type 0} → (ℕ → Session → S) → Dialer S
fresh put = record { dial = λ _ _. (put 0 (run true new_session), true); hang_up = λ s. s }

abbrev pub fresh_sessions : Dialer Joint
fresh_sessions = fresh read

module _ {S : Type 0} {world : World S} {put : ℕ → Session → S} {peer : Peer} {arrived matched : ℕ}
    {port : ℤ} {IsSent : Message → Type 0} {IsHeard : Response → Type 0}
    (joins : Joins world put peer arrived matched port IsSent IsHeard) (cfg : ClientConfig) where
  -- What is sent in the test of a plan, which is for one direction, can be sent.
  abbrev pub IsExchanged : SweepPlan → Type 0
  IsExchanged plan =
      let p = test_params cfg plan in
      ((plan.direction ≡ direction_uplink)
        × All IsSent (uplink_messages p)
        × All IsHeard (uplink_responses p arrived))
      ⊎ ((plan.direction ≡ direction_downlink)
          × All IsSent (downlink_messages p port)
          × All IsHeard (downlink_responses p))

  abbrev TestedOnce : (plan : SweepPlan) → S × RoundEnd → Type 0
  TestedOnce plan r =
      (t : S) × (rs : List Client.TestResult) × (r ≡ (t, tested rs))
      × (report_results cfg plan rs ≡ entry_for cfg arrived matched plan ∷ [])

  uplink_round :
      (plan : SweepPlan) (s : S)
      → plan.direction ≡ direction_uplink
      → run_plan world (fresh put) cfg plan s
        ≡ conclude world
            (fresh put)
            (one_result (run_uplink world (test_params cfg plan) (put 0 (run true new_session))))
  unfolding run_plan
  uplink_round plan s up = rw up refl

  downlink_round :
      (plan : SweepPlan) (s : S)
      → plan.direction ≡ direction_downlink
      → run_plan world (fresh put) cfg plan s
        ≡ conclude world
            (fresh put)
            (one_result (run_downlink world (test_params cfg plan) (put 0 (run true new_session))))
  unfolding run_plan
  downlink_round plan s down = rw down refl

  run_plan-joined :
      (plan : SweepPlan) (s : S)
      → IsExchanged plan
      → IsCompatible peer plan
      → TestedOnce plan (run_plan world (fresh put) cfg plan s)
  unfolding report_result test_params
  run_plan-joined plan s (inl (up, sent, heard)) c =
      let (t, _, _, e) = uplink_joined joins (test_params cfg plan) up c sent heard in
      (
        _,
        _,
        uplink_round plan s up ∙ ap (λ r. conclude world (fresh put) (one_result r)) e,
        rw up refl,
      )
  run_plan-joined plan s (inr (down, sent, heard)) c =
      let (t, _, _, e) = downlink_joined joins (test_params cfg plan) down c sent heard in
      (
        _,
        _,
        downlink_round plan s down ∙ ap (λ r. conclude world (fresh put) (one_result r)) e,
        rw down refl,
      )

  -- A sweep whose test cases are each for one direction and of a family that the server accepts, in a
  -- world that joins the client with a session that has just begun for each of them: no test fails,
  -- and the results gathered are those from before, then one entry for each test case, in the order
  -- of the plan, with the address, family, direction, port and size of that test case, the packet
  -- count as sent, and the packets that arrive in its direction, the same number in every test case,
  -- as received.
  pub run_plans-joined :
      (plans : List SweepPlan) (g : Gathered) (s : S)
      → All IsExchanged plans
      → All (IsCompatible peer) plans
      → (run_plans world (fresh put) cfg plans g s).1
        ≡ some (record g { results = g.results ++ map (entry_for cfg arrived matched) plans })
  unfolding run_plans
  run_plans-joined [] g s r c = rw (append-nil g.results) refl
  run_plans-joined (plan ∷ plans) g s r c =
      let (_, rs, e, same) = run_plan-joined plan s r.0 c.0 in
      rw (run_plans, e, same)
        (run_plans-joined plans
            (record g { results = g.results ++ entry_for cfg arrived matched plan ∷ [] })
            (run_plan world (fresh put) cfg plan s).0 r.1 c.1
          ∙ rw (append_assoc g.results) refl)

-- Messages as values can always be sent.
pub IsRunnable-IsExchanged :
    (peer : Peer) (arrived matched : ℕ) (port : ℤ) (cfg : ClientConfig) (plans : List SweepPlan)
    → All (IsRunnable cfg) plans
    → All (IsExchanged (against-Joins peer arrived matched port) cfg) plans
IsRunnable-IsExchanged peer arrived matched port cfg [] r = tt
IsRunnable-IsExchanged peer arrived matched port cfg (plan ∷ plans) (h, r) =
    let p = test_params cfg plan in
    (
      elim h.one_direction [
        | inl up ↦
            inl (up, All-Anything (uplink_messages p), All-Anything (uplink_responses p arrived))
        | inr down ↦
            inr (down, All-Anything (downlink_messages p port), All-Anything (downlink_responses p))
      ],
      IsRunnable-IsExchanged peer arrived matched port cfg plans r,
    )
