-- ===== src/Examples/Cli.antt =====
-- The client command at concrete inputs.
use udp_measure.Prelude.{
  arith, Bytes, true, codes, false, some, List, [], ◌∷◌, All, eq_bytes, ok, ◌≡◌, refl, show_int,
  if◌then◌else◌,
}
use udp_measure.Prelude.Int.{ℤ, pos, ◌+ℤ◌, wrap64}
use udp_measure.Config.Sweep.{
  ClientConfig, SweepPlan, no_ip, ip4, build_sweep_plan, validate, sizes_loop, determine_families,
  determine_directions,
}
use udp_measure.Config.Text.{contains}
use udp_measure.Config.Ports.{sort_ints, insert}
use udp_measure.Control.Session.{Peer}
use udp_measure.Control.Client.Against.{connected, against}
use udp_measure.Cli.{server_addr}
use udp_measure.Cli.Command.{Library}
use udp_measure.Cli.Targets.{IsRunnable, build_sweep_plan-IsRunnable}
use udp_measure.Cli.Sweep.{fresh_sessions}
use udp_measure.Cli.Command.{Flags}
use udp_measure.Cli.Main.{
  Process, FlagsRead, flags_read, bad_flags, client_ends, serves, status, default_flags,
  server_main, main,
}
use udp_measure.Cli.Defaults.{given, default_end, main-defaults}
use udp_measure.Control.Server.Listener.{new_listener, open_socket, start, spawn}
use udp_measure.Examples.Runtime.{backwards, fractions}

abbrev pub library : Library
library = record {
  parse_ip = λ s. if eq_bytes s (codes "192.0.2.7") then ip4 else no_ip;
  scale = λ d. d;
  parse_duration = λ _. some (pos 1000000);
  duration_string = show_int;
  runtime = backwards;
  floats = fractions;
}

abbrev pub peer : Peer
peer = record { ip = 192 ∷ 0 ∷ 2 ∷ 1 ∷ []; is_ipv6 = false }

abbrev pub config : ClientConfig
config = record {
  target4 = codes "192.0.2.7";
  target6 = [];
  control_port = pos 18080;
  direction = pos 2;
  ports = pos 9000 ∷ [];
  min_size = pos 100;
  max_size = pos 200;
  step = pos 100;
  count = pos 10;
  interval = pos 1000000;
  max_estimated_duration = pos 60000000000;
}

abbrev pub case_of : ℤ → ℤ → SweepPlan
case_of direction size = record {
  family = pos 0;
  port = pos 9000;
  direction = direction;
  payload_size = size;
}

abbrev plans : List SweepPlan
plans =
    case_of (pos 0) (pos 100)
    ∷ case_of (pos 0) (pos 200)
    ∷ case_of (pos 1) (pos 100)
    ∷ case_of (pos 1) (pos 200)
    ∷ []

dialled : server_addr config (case_of (pos 1) (pos 100)) ≡ codes "192.0.2.7:18080"
unfolding server_addr show_int contains
dialled = refl

planned : build_sweep_plan library.parse_ip 3 config ≡ ok (some plans)
unfolding build_sweep_plan validate sort_ints insert sizes_loop determine_families
    determine_directions ◌+ℤ◌ wrap64
planned = refl

build_sweep_plan-IsRunnable_example : All (IsRunnable config) plans
build_sweep_plan-IsRunnable_example =
    build_sweep_plan-IsRunnable library.parse_ip 3 config plans planned

-- A reading of `--target4 t --ports ps`, and of no flags.
abbrev two_flags : Flags → List Bytes → FlagsRead Flags
two_flags f [] = flags_read f
two_flags f (_ ∷ target ∷ _ ∷ spec ∷ []) = flags_read (record f { target4 = target; ports = spec })
two_flags f _ = bad_flags

abbrev process : Process
process = record {
  parse_server = λ listen _. flags_read listen;
  parse_client = two_flags;
  host_of = λ _. some [];
  opens = λ _ _. true;
}

abbrev arguments : List Bytes
arguments = codes "--target4" ∷ codes "192.0.2.7" ∷ codes "--ports" ∷ codes "9000" ∷ []

-- The durations of the defaults.
abbrev timed : Library
timed = record library {
  parse_duration = λ s. some (if eq_bytes s (codes "10ms") then pos 10000000 else pos 300000000000);
}

given_flags :
    process.parse_client default_flags arguments ≡ flags_read (given (codes "192.0.2.7") (pos 9000))
unfolding show_int
given_flags = refl

main-defaults_example :
    let end =
      (main process timed
        (against peer 100 99 (pos 5000))
        fresh_sessions
        4
        (codes "client" ∷ arguments)
        connected).1 in
    (end
      ≡ client_ends
          (default_end timed b'1' (codes "92.0.2.7") (pos 9000) peer 100 99 (pos 5000) connected))
    × (status end ≡ some 0)
main-defaults_example =
    main-defaults timed b'1' (codes "92.0.2.7") (pos 9000) peer 100 99 (pos 5000) connected process
      arguments 0 1000000000 given_flags (omega arith, omega arith) refl refl refl refl
      (omega arith)

-- The server command serves with one goroutine, and an unknown command exits with status 1.
server_serves :
    (main process timed
      (against peer 0 0 (pos 0))
      fresh_sessions
      0
      (codes "server" ∷ [])
      connected).1
    ≡ serves (record new_listener { socket = open_socket; serving = 1 })
unfolding main server_main start spawn
server_serves = refl

unknown_command :
    status
      (main process timed
        (against peer 0 0 (pos 0))
        fresh_sessions
        0
        (codes "serve" ∷ [])
        connected).1
    ≡ some 1
unfolding main
unknown_command = refl
