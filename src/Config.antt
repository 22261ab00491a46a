-- ===== src/Config.antt =====
-- internal/config/config.go: reading the port specification (`Text`, `Ports`), the client's
-- configuration with its checks and the sweep plan (`Sweep`), and the duration guard (`Duration`).
pub mod Text
pub mod Ports
pub mod Sweep
pub mod Duration
