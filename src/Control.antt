-- ===== src/Control.antt =====
-- internal/control: the framing of control messages on a TCP connection (`Frame`), a session of the
-- server (`Session`), the slot that admits one session at a time (`Server`), the dialogue that the
-- client leads (`Client`), and what both write to the connection and read from it (`Wire`).
pub mod Frame
pub mod Session
pub mod Server
pub mod Client
pub mod Wire
