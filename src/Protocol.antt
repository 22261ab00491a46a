-- ===== src/Protocol.antt =====
-- internal/protocol: the vocabulary of the control protocol (`Types`), the session life cycle
-- (`StateMachine`), the header that every UDP probe begins with (`Header`) and the messages in their
-- envelope (`Envelope`).
pub mod Types
pub mod StateMachine
pub mod Header
pub mod Envelope
