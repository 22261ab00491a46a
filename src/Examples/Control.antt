-- ===== src/Examples/Control.antt =====
-- internal/control at concrete inputs.
use udp_measure.Prelude.{
  codes, ℕ, zero, suc, ◌^◌, ◌≤◌, arith, true, false, none, some, [], ◌∷◌, ◌++◌, length,
  length-append, Bytes, ok, ◌≡◌, ◌≢◌, ◌↔◌, ◌⊎◌, refl,
}
use udp_measure.Prelude.Int.{pos}
use udp_measure.Protocol.Types.{
  idle, collecting, completed, direction_uplink, direction_downlink, family_ipv4,
}
use udp_measure.Protocol.StateMachine.{transition}
use udp_measure.Control.Frame.{segment, read_message, length_bytes}
use udp_measure.Control.Frame.Whole.{read_message_whole, read_message_split}
use udp_measure.Control.Session.{
  Session, Prepare, Peer, new_session, ready_response, result_response, receiver_starting,
  receiver_listening, prepare, start, fetch_result,
}
use udp_measure.Control.Session.Loop.{
  task_step, binds, records, background, run, loop_once, Step, Reach, begin, next, round, message,
}
use udp_measure.Control.Session.Invariant.{readies, results}
use udp_measure.Control.Session.Reachable.{responses_once}
use udp_measure.Control.Session.Moves.{Moves, Step-Moves}
use udp_measure.Control.Session.Counts.{reported, own_results}
use udp_measure.Control.Session.Uplink.{collected, collected-Reach}
use udp_measure.Control.Session.Race.{
  After, at_once, later, is_untold, after_messages, late_receiver,
}
use udp_measure.Control.Server.{
  Server, serving, refused, new_server, accept, answer_busy, release_session, connect, busy, leave,
  serves,
}
use udp_measure.Control.Server.Slot.{running, one_session}
use udp_measure.Config.Sweep.{no_ip}
use udp_measure.Control.Server.Listener
use udp_measure.Control.Server.Listener.{
  Listener, new_listener, connection, spawn, serve_round, handler_ends, close, listen_network,
  closed_socket, cancel, shut_socket, cancels, shuts, starts, spawns, ends, closes, waits, returned,
}
use udp_measure.Control.Server.Listener.Shutdown.{
  loops, connections, IsIdle, Run, closed_for_good, close_returns,
}

abbrev hello_bytes : Bytes
hello_bytes = 104 ∷ 105 ∷ []

read_message_whole_example :
    (read_message (segment (length_bytes hello_bytes ++ (hello_bytes ++ 0 ∷ [])) ∷ [])
      ≡ (segment (0 ∷ []) ∷ [], ok hello_bytes))
    × (read_message (segment (length_bytes hello_bytes) ∷ segment (hello_bytes ++ 0 ∷ []) ∷ [])
        ≡ (segment (0 ∷ []) ∷ [], ok hello_bytes))
read_message_whole_example = read_message_whole hello_bytes (omega arith) (omega arith) (0 ∷ []) []

read_message_split_example :
    read_message (segment (length_bytes (104 ∷ 105 ∷ [])) ∷ segment (104 ∷ []) ∷ [])
    ≡ ([], ok (104 ∷ 0 ∷ []))
read_message_split_example = read_message_split (104 ∷ []) (105 ∷ []) [] (omega arith) (omega arith)

-- 2 ^ n bytes.
unfoldable doubled : ℕ → Bytes
doubled zero = 7 ∷ []
doubled (suc n) = let half = doubled n in half ++ half

length-doubled : (n : ℕ) → length (doubled n) ≡ 2 ^ n
unfolding doubled
length-doubled zero = refl
length-doubled (suc n) = omega (arith, length-append {0} (doubled n) (doubled n), length-doubled n)

abbrev peer : Peer
peer = record { ip = 192 ∷ 0 ∷ 2 ∷ 1 ∷ []; is_ipv6 = false }

abbrev request : Prepare
request = record {
  direction = direction_uplink;
  family = family_ipv4;
  udp_port = pos 9000;
  payload_size = pos 100;
  packet_count = pos 10;
  interval_ms = pos 1;
  client_receive_port = pos 0;
}

abbrev prepared_session : Session
prepared_session = loop_once true peer (message (prepare request)) (run true new_session)

prepared-Reach : Reach prepared_session
unfolding run transition
prepared-Reach = next (begin true) (round true peer (message (prepare request)) refl refl refl)

responses_once_example :
    (readies prepared_session.out ≤ 1)
    × (results prepared_session.out ≤ 1)
    × ((results prepared_session.out ≡ 0) ⊎ (prepared_session.state ≡ completed))
    × (prepared_session.state ≢ idle)
responses_once_example = responses_once prepared-Reach

start-Step : Step prepared_session (loop_once true peer (message start) prepared_session)
unfolding loop_once run transition
start-Step = round true peer (message start) refl refl refl

Step-Moves_example :
    Moves prepared_session.state (loop_once true peer (message start) prepared_session).state
Step-Moves_example = Step-Moves prepared-Reach start-Step

abbrev collecting_session : Session
collecting_session = record new_session { state = collecting }

-- The receiver is bound late, and meets a packet.
abbrev bound_late : Session
bound_late = task_step true binds (after_messages peer request)

still_listening : After bound_late (task_step true records bound_late)
still_listening = later at_once (background true records refl)

late_receiver_example :
    ((after_messages peer request).task ≡ receiver_starting)
    × (bound_late.task ≡ receiver_listening false 0)
    × Reach (task_step true records bound_late)
    × ((task_step true records bound_late).state ≡ completed)
    × ((task_step true records bound_late).out
        ≡ result_response (pos 10) (pos 0) ∷ (ready_response (pos 9000) ∷ []))
    × (is_untold (task_step true records bound_late).task ≡ true)
late_receiver_example = late_receiver peer request refl refl still_listening

abbrev two_clients : Server
two_clients = accept (accept new_server)

two_clients-Reach : udp_measure.Control.Server.Reach two_clients
two_clients-Reach =
    udp_measure.Control.Server.next
      (udp_measure.Control.Server.next udp_measure.Control.Server.begin (connect refl))
      (connect refl)

one_session_example :
    (running two_clients.handlers ≤ 1)
    × ((two_clients.slot ≡ none) ↔ (running two_clients.handlers ≡ 0))
    × ((two_clients.slot ≡ some 0) ↔ (serves 0 two_clients.handlers ≡ true))
one_session_example = one_session two_clients-Reach 0

abbrev started : Listener
started = (udp_measure.Control.Server.Listener.start true new_listener).0

abbrev closing_listener : Listener
closing_listener = shut_socket (cancel (close (serve_round connection (spawn started))))

closing-Reach : udp_measure.Control.Server.Listener.Reach closing_listener
unfolding udp_measure.Control.Server.Listener.start spawn serve_round close cancel shut_socket
closing-Reach =
    Listener.next
      (Listener.next
        (Listener.next
          (Listener.next
            (Listener.next (Listener.next Listener.begin (starts true refl)) (spawns refl))
            (Listener.serves connection refl (λ _. refl) refl))
          (closes refl))
        (cancels refl))
      (shuts refl)

closed_for_good_example :
    ((handler_ends closing_listener).socket ≡ closed_socket)
    × (connections (handler_ends closing_listener) ≤ connections closing_listener)
    × (loops (handler_ends closing_listener) ≤ loops closing_listener)
unfolding udp_measure.Control.Server.Listener.start spawn serve_round close cancel shut_socket
closed_for_good_example = closed_for_good closing-Reach refl (ends refl)

close_returns_example : (m : Listener) × Run closing_listener m × (m.closing ≡ returned) × IsIdle m
unfolding udp_measure.Control.Server.Listener.start spawn serve_round close cancel shut_socket
close_returns_example = close_returns closing_listener closing-Reach refl

-- `Close` may return before a call of `Start` has started its goroutine, which then runs.
late_serve : (l : Listener) × Listener.Reach l × (l.closing ≡ returned) × (l.serving ≡ 1)
unfolding udp_measure.Control.Server.Listener.start spawn close cancel shut_socket
late_serve = (
  _,
  Listener.next
      (Listener.next
        (Listener.next
          (Listener.next
            (Listener.next (Listener.next Listener.begin (starts true refl)) (closes refl))
            (cancels refl))
          (shuts refl))
        (waits refl refl refl refl refl))
      (spawns refl),
  refl,
  refl,
)

-- A host name with a dot is taken for an IPv4 address.
named_host :
    listen_network (λ _. some (codes "a.example")) (λ _. no_ip) (codes "a.example:1") ≡ codes "tcp4"
unfolding listen_network
named_host = refl

-- A session that has recorded 7 probes and waits for fetch_result.
abbrev fetching_session : Session
fetching_session = collected peer request refl refl 7

own_results_example :
    ((reported fetching_session.out ≡ none)
      ⊎ ((reported fetching_session.out ≡ some (fetching_session.packet_count, pos 0))
          ⊎ (reported fetching_session.out
              ≡ some (fetching_session.packet_count, fetching_session.received_count))))
    × ((fetching_session.direction ≢ direction_downlink)
        ⊎ (fetching_session.received_count ≡ pos 0))
    × ((fetching_session.conn_open ≡ false)
        ⊎ ((fetching_session.state ≢ collecting)
            ⊎ (reported (loop_once true peer (message fetch_result) fetching_session).out
                ≡ some (fetching_session.packet_count, fetching_session.received_count))))
own_results_example = own_results (collected-Reach peer request refl refl 7) peer
