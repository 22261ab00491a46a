-- ===== src/Examples.antt =====
-- Each theorem of the development that has hypotheses or variables, at a concrete input, and tests
-- of the definitions on inputs that can be followed in the source.
mod Runtime
mod Protocol
mod Config
mod Control
mod Udp
mod Report
mod Client
mod Cli
mod Codec
mod Envelope
mod Wire
mod OverWire
