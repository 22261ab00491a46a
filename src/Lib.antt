-- ===== src/Lib.antt =====
-- udpdiag measures UDP loss between a client and a server over a TCP control channel. The client
-- reads its configuration, expands it into a sweep plan of test cases, and leads one dialogue per
-- test case: hello, prepare, start, send_complete, fetch_result. The server holds at most one
-- session; a session answers these messages and runs a UDP sender or receiver in a goroutine of its
-- own. Probes carry a header of 48 bytes.
--
-- - Prelude: lists, outcomes, bytes, the integers with the arithmetic of Go's 64-bit `int`. A Go
--   `int` is the integer that it holds; arithmetic that can leave 64 bits is followed by `wrap64`.
-- - Protocol.Types: internal/protocol/types.go, the enumerations with their texts and parsers.
-- - Protocol.StateMachine: internal/protocol/state_machine.go.
-- - Protocol.Header: internal/protocol/probe_header.go, with the errors of its methods as values
--   and a receiver as a record that a method returns changed.
-- - Protocol.Envelope: the messages of internal/protocol/types.go with `Decode`, `EncodeMessage` and
--   `DecodeEnvelope`; OwnType says which message type belongs to each struct.
-- - Config: internal/config/config.go. Text holds what it uses of the packages strings and strconv,
--   Ports is `ParsePorts`, Sweep is `ClientConfig` with `Validate`, `BuildSweepPlan` and
--   `NewClientConfig`, and Duration is `EstimateDuration` with `CheckDurationLimit`.
-- - Control.Frame: `readMessage` and `writeMessage` of internal/control/session.go, which
--   internal/control/client.go repeats.
-- - Control.Session: the rest of internal/control/session.go. A handler is a function from the
--   session to the session with its answers; Loop makes of the message loop, of the goroutines and of
--   the wait of `handleSendComplete` steps that come in any order. Dispatch takes a decoded message of
--   Protocol.Envelope to the message that a handler is given.
-- - Control.Server: the slot for the active session in internal/control/server.go, with the
--   handlers of all connections as steps that come in any order; Listener is `Start`, `serve` and
--   `Close` in the same way, and Answers what a connection is sent that gets no session.
-- - Control.Client: `RunUplink`, `RunDownlink` and `RunBoth` of internal/control/client.go, as
--   chains of actions that may fail. Calls is the record of what they call; Keeps and Course look at
--   the messages that they write, and Against joins them with the sessions of Control.Session: the
--   record Joins is what a connection has to do, which messages as values and messages as bytes both
--   fill.
-- - Control.Wire: the bytes between the two. The structs that both ends fill in, encoded and framed,
--   and what `recvResponse` and the loop of a session read of them; Received takes each end's reading
--   to the other's writing, and Dialogue leads the client's dialogue over bytes.
-- - Net: what is used of Go's package net on addresses that are texts.
-- - Udp.Sender and Udp.Receiver: internal/udp/sender.go and internal/udp/receiver.go. `Send` yields the
--   packets that it writes; the loops of `Receive` and `Collect` run over a list of what their rounds
--   meet, and a receiver's result is computed from what it has recorded. Udp.Sender.Arrival joins the
--   two. Udp.Sockets opens their sockets and has the address that `Send` resolves;
--   Control.Session.Addresses has those that a session gives to them.
-- - Report: internal/report/report.go. Format is `FormatReport`; `Report` of the code is `Summary`.
-- - Cli: `clientMain` of cmd/udpdiag/main.go, which joins Config, Control.Client and Report: the loop
--   over the plan here, and what surrounds it in Command; Main is `main` with `serverMain` and the
--   defaults of the flags, and Defaults a run with these. Whole takes a command from its
--   configuration to its report in every world that fills Joins, and OverWire in that of bytes.
-- - Examples: tests, and each theorem at concrete inputs.
--
-- Parameters: `parse_ip` stands for `net.ParseIP` with `To4`, `scale` for the multiplication by 1.1
-- in floating point, `peer` for the address of the TCP client, and a Boolean beside each handler says
-- whether the connection takes what is written. `Json` stands for encoding/json on the structs of the
-- messages, `Runtime` for `sort.Slice`, which is not stable, and for the order of a map, `Floats` for
-- the type float64, `now` and `takes` for the clock and the success of each write of the sender,
-- `World` for what a client's dialogue calls, `Dialer` for new connections, `Process` for the flag
-- package and the sockets of `main`, `listens` for those of internal/udp, `loss_rate` for the loss
-- rate of a result message, which is computed in floating point, `library` for the texts of the
-- errors that a session reports from the libraries, and `Library` for the library calls of the client
-- command together. What the theorems need of them are the records
-- named IsLawful.
--
-- Fuel: `range_loop` has one round for each port of the range, which `member-range_loop_whole` shows
-- to be enough. `sizes_loop` returns `none` when its fuel runs out; `sizes_loop_lem` names fuel that
-- is enough, and `sizes_loop_endless` the case in which none is. `trim_space` takes the length of
-- the text, and each of its rounds drops at least one byte. `digits` takes more rounds than the
-- number has digits, and each divides it by ten.
--
-- A handler is one step of the session, though the code holds its mutex only around parts of it: a
-- goroutine that moves the state between a handler's test of it and its assignment is not modelled.
-- Likewise Control.Client.Against lets the session's goroutines run at once, one of the orders of
-- Control.Session.Loop.
-- Not modelled: the help and error texts of cmd/udpdiag, lines of progress and log lines, pauses and
-- deadlines, and how encoding/json and floating point work.
pub mod Prelude
pub mod Protocol
pub mod Config
pub mod Net
pub mod Control
pub mod Udp
pub mod Report
pub mod Cli
mod Examples
