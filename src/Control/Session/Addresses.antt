-- ===== src/Control/Session/Addresses.antt =====
-- session.go: the addresses that a session gives to its sender and its receiver, as texts.
use udp_measure.Prelude.{◌++◌, ◌∷◌, Bytes, codes, show_int, if◌then◌else◌}
use udp_measure.Prelude.Int.{ℤ, ◌==ℤ◌}
use udp_measure.Protocol.Types.{Family, family_ipv6}
use udp_measure.Control.Session.{Target}

-- `targetAddress`
unfoldable pub target_text : Target → Bytes
target_text t =
    if t.bracketed
    then b'[' ∷ t.host ++ b']' ∷ b':' ∷ show_int t.port
    else t.host ++ b':' ∷ show_int t.port

-- `bindAddr` of `runUplinkReceiver`.
unfoldable pub bind_address : Family → ℤ → Bytes
bind_address family port =
    if family ==ℤ family_ipv6
    then codes "[::]:" ++ show_int port
    else codes "0.0.0.0:" ++ show_int port
