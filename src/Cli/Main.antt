-- ===== src/Cli/Main.antt =====
-- cmd/udpdiag/main.go: `main`, which chooses a command, `serverMain`, and the flags of `clientMain`
-- with their defaults. What the flag package makes of the arguments is a parameter.
use udp_measure.Prelude.{
  ℕ, Bool, Option, none, some, List, [], ◌∷◌, Bytes, codes, eq_bytes, ◌||◌, if◌then◌else◌,
}
use udp_measure.Prelude.Int.{pos}
use udp_measure.Config.Sweep.{IpKind}
use udp_measure.Control.Client.Calls.{World}
use udp_measure.Control.Server.Listener.{
  Listener, StartError, new_listener, listen_network, start, spawn,
}
use udp_measure.Cli.{Dialer}
use udp_measure.Cli.Command.{Flags, Library, ClientEnd, client_main, exit_status}

-- The flags of `clientMain` that have not been given.
abbrev pub default_flags : Flags
default_flags = record {
  target4 = [];
  target6 = [];
  control_port = pos 18080;
  direction = codes "both";
  ports = [];
  min_size = pos 1200;
  max_size = pos 1472;
  step = pos 136;
  count = pos 100;
  interval = codes "10ms";
  max_estimated_duration = codes "5m";
}

abbrev pub default_listen : Bytes
default_listen = codes ":18080"

-- `fs.Parse` and `fs.NArg`: the arguments ask for help, hold a bad flag, leave an argument that is no
-- flag, or give the flags their values.
pub data FlagsRead (A : Type 0) : Type 0 where
  help_wanted bad_flags positional_arguments : FlagsRead A
  flags_read : A → FlagsRead A

-- How a command goes on: the process exits with a status, the client has ended, or the server serves.
pub data CommandEnd : Type 0 where
  exits : ℕ → CommandEnd
  client_ends : ClientEnd → CommandEnd
  serves : Listener → CommandEnd

-- The status of a process that has ended.
abbrev pub status : CommandEnd → Option ℕ
status (exits n) = some n
status (client_ends end) = some (exit_status end)
status (serves l) = none

-- What the commands take from the libraries: `fs.Parse` for each, from the defaults of its flags;
-- `net.SplitHostPort`; and whether `net.Listen` opens a socket on a network and an
-- address.
pub record Process : Type 0 where
  pub parse_server : Bytes → List Bytes → FlagsRead Bytes
  pub parse_client : Flags → List Bytes → FlagsRead Flags
  pub host_of : Bytes → Option Bytes
  pub opens : Bytes → Bytes → Bool

-- The end of `serverMain`.
abbrev pub serve_if : Listener × Option StartError → CommandEnd
serve_if (l, some e) = exits 1
serve_if (l, none) = serves (spawn l)

unfoldable pub server_main : Process → (Bytes → IpKind) → List Bytes → CommandEnd
unfolding listen_network start
server_main process parse_ip args = elim (process.parse_server default_listen args) [
  | help_wanted ↦ exits 0
  | bad_flags ↦ exits 1
  | positional_arguments ↦ exits 1
  | flags_read listen ↦
      let network = listen_network process.host_of parse_ip listen in
      serve_if (start (process.opens network listen) new_listener)
]

abbrev wants_help : Bytes → Bool
wants_help arg =
    eq_bytes arg (codes "help") || (eq_bytes arg (codes "--help") || eq_bytes arg (codes "-h"))

module _ (process : Process) (lib : Library) {S : Type 0} (world : World S)
    (dialer : Dialer S) where
  abbrev pub ended : S × ClientEnd → S × CommandEnd
  ended (s, end) = (s, client_ends end)

  -- `clientMain`, with the parsing of its flags.
  unfoldable pub client_command : ℕ → List Bytes → S → S × CommandEnd
  unfolding client_main
  client_command fuel args s = elim (process.parse_client default_flags args) [
    | help_wanted ↦ (s, exits 0)
    | bad_flags ↦ (s, exits 1)
    | positional_arguments ↦ (s, exits 1)
    | flags_read f ↦ ended (client_main lib world dialer fuel f s)
  ]

  -- `main`, on the arguments behind the name of the program.
  unfoldable pub main : ℕ → List Bytes → S → S × CommandEnd
  unfolding server_main client_command
  main fuel [] s = (s, exits 1)
  main fuel (command ∷ args) s =
      if eq_bytes command (codes "server")
      then (s, server_main process lib.parse_ip args)
      else if eq_bytes command (codes "client")
      then client_command fuel args s
      else if wants_help command
      then (s, exits 0)
      else (s, exits 1)
