-- ===== src/Control/Client/Course.antt =====
-- Which messages the client writes, whatever the server and the network do.
use udp_measure.Prelude.{List, [], ◌∷◌, ◌++◌, ok, err, ◌≡◌, ◌⊎◌, refl}
use udp_measure.Prelude.Int.{ℤ, pos, ◌-ℤ◌, wrap64}
use udp_measure.Protocol.Types.{protocol_version, direction_uplink, direction_downlink}
use udp_measure.Control.Session.{Message, hello, prepare, start, send_complete, fetch_result}
use udp_measure.Control.Client.Calls.{World, ClientError}
use udp_measure.Control.Client.{TestResult, TestParams, prepare_for, run_uplink}
use udp_measure.Control.Client.Keeps.{
  logged, Keeps, bind-Keeps, then-Keeps, tell-Keeps, hear-Keeps, send_probes-Keeps, expect-Keeps,
  finish-Keeps,
}

-- The whole course of an uplink test.
abbrev pub uplink_course : TestParams → List Message
uplink_course p =
    hello protocol_version
    ∷ prepare (prepare_for p (pos 0))
    ∷ start
    ∷ send_complete
    ∷ fetch_result
    ∷ []

abbrev pub IsPrefix : List Message → List Message → Type 0
IsPrefix xs ys = (zs : List Message) × (xs ++ zs ≡ ys)

abbrev pub downlink_course : TestParams → ℤ → List Message
downlink_course p port =
    hello protocol_version ∷ prepare (prepare_for p port) ∷ start ∷ fetch_result ∷ []

-- What every result says of its counts.
abbrev pub Adds : TestResult → Type 0
Adds r = r.lost ≡ wrap64 (r.sent -ℤ r.received)

module _ {S : Type 0} (w : World S) (p : TestParams) where
  abbrev pub UplinkBegun : List Message → Type 0
  UplinkBegun l = IsPrefix l (uplink_course p)

  abbrev pub UplinkDone : TestResult → List Message → Type 0
  UplinkDone r l = (l ≡ uplink_course p) × (r.direction ≡ direction_uplink) × Adds r

  uplink-Keeps : Keeps UplinkBegun [] UplinkDone (run_uplink (logged w) p)
  unfolding run_uplink
  uplink-Keeps = then-Keeps (tell-Keeps w _ _ (_, refl)) (
      then-Keeps (tell-Keeps w _ _ (_, refl)) (
        bind-Keeps (hear-Keeps w _ (_, refl)) λ ready. then-Keeps (expect-Keeps _ _ (_, refl)) (
          then-Keeps (tell-Keeps w _ _ (_, refl)) (
            then-Keeps (send_probes-Keeps w _ _ (_, refl)) (
              then-Keeps (tell-Keeps w _ _ (_, refl)) (
                then-Keeps (tell-Keeps w _ _ (_, refl)) (
                  bind-Keeps (hear-Keeps w _ (_, refl)) λ reply.
                    bind-Keeps (expect-Keeps _ _ (_, refl))
                      λ counts. finish-Keeps _ (refl, refl, refl))))))))

  abbrev pub DownlinkBegun : List Message → Type 0
  DownlinkBegun l = (port : ℤ) × IsPrefix l (downlink_course p port)

  abbrev pub DownlinkDone : TestResult → List Message → Type 0
  DownlinkDone r l =
      ((port : ℤ) × (l ≡ downlink_course p port)) × (r.direction ≡ direction_downlink) × Adds r

-- Whatever the server and the network do, an uplink test either fails with a beginning of its five
-- messages written (hello, prepare, start, send complete, fetch result, in this order), or returns a
-- result with all five written, once each and in this order, and the lost packets are the sent
-- less the received ones.
pub uplink_in_order :
    {S : Type 0} (w : World S) (p : TestParams) (s : S)
    → let r = run_uplink (logged w) p (s, []) in
      ((e : ClientError) × (r.1 ≡ err e) × UplinkBegun w p r.0.1)
      ⊎ ((a : TestResult) × (r.1 ≡ ok a) × UplinkDone w p a r.0.1)
uplink_in_order w p s = (uplink-Keeps w p).keep (s, []) refl
