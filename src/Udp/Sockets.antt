-- ===== src/Udp/Sockets.antt =====
-- sender.go and receiver.go: how `NewSender` and `NewReceiver` open their sockets, and the address that
-- `Send` resolves. Whether `net.ListenPacket` opens a socket on a network and an address is a
-- parameter.
pub mod Destinations
use udp_measure.Prelude.{Bool, List, Option, none, some, Bytes, codes, show_int, if◌then◌else◌}
use udp_measure.Prelude.Int.{ℤ, pos, ◌==ℤ◌}
use udp_measure.Protocol.Types.{Family, family_ipv6}
use udp_measure.Net.{join_host_port, splits}
use udp_measure.Udp.Sender.{SenderConfig}
use udp_measure.Udp.Receiver.{Receiver, ReceiverConfig, new_receiver}

-- `network`
abbrev pub network_of : Family → Bytes
network_of family = if family ==ℤ family_ipv6 then codes "udp6" else codes "udp4"

-- A sender with the socket that it has opened, on a network and an address.
pub record SenderSocket : Type 0 where
  pub config : SenderConfig
  pub network : Bytes
  pub address : Bytes

-- The address that `Send` gives to `net.ResolveUDPAddr`.
unfoldable pub destination : SenderConfig → Bytes → Bytes
unfolding splits join_host_port
destination c target =
    if splits target then target else join_host_port target (show_int (pos c.udp_port))

module _ (listens : Bytes → Bytes → Bool) where
  -- `NewSender`
  unfoldable pub new_sender : SenderConfig → Option SenderSocket
  new_sender c =
      if listens (network_of c.family) (codes ":0")
      then some (record { config = c; network = network_of c.family; address = codes ":0" })
      else none

  -- `NewReceiver`
  unfoldable pub new_receiver_on : ReceiverConfig → Bytes → Option Receiver
  new_receiver_on c bind_address =
      if listens (network_of c.family) bind_address then some (new_receiver c) else none
