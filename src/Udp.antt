-- ===== src/Udp.antt =====
-- internal/udp: the sender and the receiver of probes.
pub mod Receiver
pub mod Sender
pub mod Sockets
