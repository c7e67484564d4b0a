-- ===== src/Network/Tests.antt =====
-- A pool of one worker that is given one task and is then shut down, and a worker of the server
-- with one client.
use io_t_delivery_fleet_moni.Prelude.{
  ℕ, ◌≡◌, refl, subst, List, [], ◌∷◌, ◌++◌, some, true, false, not, codes, has_key, value_at,
  number_keys, arith,
}
use io_t_delivery_fleet_moni.Monitoring.Metrics.{new_metrics}
use io_t_delivery_fleet_moni.Network.EpollLoop.{Events, ready, returned_true, run, call_back}
use io_t_delivery_fleet_moni.Network.ConnectionManager.{
  Connection, new_connection, get, pending_bytes,
}
use io_t_delivery_fleet_moni.Network.TcpServer.{
  Answers, accepted, read_bytes, sent_bytes, Server, unsent, flush_client,
}
use io_t_delivery_fleet_moni.Network.TcpServer.Events
use io_t_delivery_fleet_moni.Network.TcpServer.Events.{
  handle_event, on_iteration, should_stop, answered, event,
}
use io_t_delivery_fleet_moni.Network.TcpServer.Sound.{IsGood, IsSound}
use io_t_delivery_fleet_moni.Network.TcpServer.Sound.Steps.{Reachable-IsSound}
use io_t_delivery_fleet_moni.Network.TcpServer.Sending.{IsLeft, flush_client-in_order}
use io_t_delivery_fleet_moni.Network.TcpServer.Setup.{SetupCalls, Shared, start_worker}
use io_t_delivery_fleet_moni.Network.TcpServer.Setup.Released.{
  times, made, held, is_set_up, all_succeed, is_reported, start_worker-releases,
}
use io_t_delivery_fleet_moni.Network.TcpServer.Ending.{
  on_iteration-stops, IsFinished, run-IsFinished,
}
use io_t_delivery_fleet_moni.Network.ThreadPool.{
  World, initial, after_submit, submit, begin_shutdown, submits, shuts_down, Reachable, start, more,
  new_pool,
}
use io_t_delivery_fleet_moni.Network.ThreadPool.Order.{IsOrderly, Reachable-IsOrderly}

abbrev given : World ℕ
given = after_submit (initial 1 4) 7 (submit (initial 1 4).pool 7)

abbrev closing : World ℕ
closing = record given { pool = begin_shutdown given.pool }

closing-Reachable : Reachable 1 4 closing
closing-Reachable = more given closing (more (initial 1 4) given start (submits 7)) shuts_down

Reachable-IsOrderly_example : IsOrderly 1 4 closing
Reachable-IsOrderly_example = Reachable-IsOrderly 1 4 closing closing-Reachable

-- A worker with no connection, whose listener is 3.
abbrev idle : Server
idle = record {
  connections = [];
  completions = [];
  completion_fd = 4;
  outstanding_tasks = 0;
  next_generation = 1;
  worker_id = 0;
  draining = false;
  metrics = new_metrics;
  thread_pool = new_pool 2 8;
  running = [];
  shutdown_requested = false;
  worker_failed = false;
  listener_fd = some 3;
  answers = record { reads = []; sends = []; accepts = []; modifies = [] };
  wire = [];
  closed = [];
}

idle-IsSound : IsSound idle
unfolding value_at
idle-IsSound = record {
  distinct = tt;
  counted = refl;
  owed = refl;
  good = λ fd c at. absurd (ground (arith, at));
}

abbrev readable_event : Events
readable_event = record {
  error_or_hangup = false;
  readable = true;
  peer_hangup = false;
  writable = false;
}

-- One client connects, and sends "GET / HTTP/1.1" with a header.
abbrev one_client : Answers
one_client = record {
  reads = [];
  sends = [];
  accepts = accepted 7 (codes "10.0.0.1") true ∷ [];
  modifies = [];
}

abbrev one_request : Answers
one_request = record {
  reads =
      read_bytes (codes "GET / HTTP/1.1" ++ (13 ∷ 10 ∷ codes "A: b" ++ (13 ∷ 10 ∷ 13 ∷ 10 ∷ [])))
      ∷ [];
  sends = [];
  accepts = [];
  modifies = [];
}

abbrev connected : Server
connected = handle_event 3 readable_event (answered one_client idle)

abbrev requested : Server
requested = handle_event 7 readable_event (answered one_request connected)

requested-Reachable : Events.Reachable idle requested
unfolding has_key
requested-Reachable =
    Events.more connected requested
      (Events.more idle connected Events.start (event 3 readable_event one_client (refl, tt)))
      (event 7 readable_event one_request tt)

Reachable-IsSound_example : IsSound requested
Reachable-IsSound_example = Reachable-IsSound idle requested idle-IsSound requested-Reachable

-- A connection with three bytes to send, of which two are taken.
abbrev writing : Connection
writing = record (new_connection 7 (codes "10.0.0.1") 1) { outbound = codes "abc" }

abbrev slow : Server
slow = record idle {
  connections = (7, writing) ∷ [];
  answers = record (idle.answers) { sends = sent_bytes 2 ∷ [] };
}

flush_client-in_order_example :
    (taken rest : List ℕ) × (unsent writing ≡ taken ++ rest)
    × IsLeft 7 rest ((7, taken) ∷ []) (flush_client 7 slow)
unfolding get value_at
flush_client-in_order_example = flush_client-in_order 7 writing slow refl

abbrev stopping_server : Server
stopping_server = record idle {
  connections = (7, new_connection 7 (codes "10.0.0.1") 1) ∷ [];
  metrics = record new_metrics { open_connections = 1 };
  shutdown_requested = true;
}

only_client :
    (fd : ℕ) (c : Connection)
    → value_at fd stopping_server.connections ≡ some c
    → new_connection 7 (codes "10.0.0.1") 1 ≡ c
unfolding value_at
only_client fd c at = ground (arith, at)

stopping_server-IsSound : IsSound stopping_server
unfolding has_key
stopping_server-IsSound = record {
  distinct = (refl, tt);
  counted = refl;
  owed = refl;
  good = λ fd c at. subst (IsGood [] fd) (only_client fd c at) ((λ busy. cc), omega arith);
}

on_iteration-stops_example : should_stop (on_iteration stopping_server) ≡ true
unfolding get pending_bytes
on_iteration-stops_example =
    on_iteration-stops stopping_server stopping_server-IsSound refl refl refl refl
      λ fd c at. subst (λ b. pending_bytes b ≡ 0) (only_client fd c at) refl

-- The same, with an iteration in which no descriptor is ready.
stopping_run :
    (run handle_event on_iteration should_stop (ready [] ∷ []) stopping_server).0 ≡ returned_true
unfolding run call_back get pending_bytes
stopping_run = ground (arith, stops)
  where
    stops : should_stop (on_iteration stopping_server) ≡ true
    stops =
        on_iteration-stops stopping_server stopping_server-IsSound refl refl refl refl
          λ fd c at. subst (λ b. pending_bytes b ≡ 0) (only_client fd c at) refl

run-IsFinished_example :
    IsFinished (run handle_event on_iteration should_stop (ready [] ∷ []) stopping_server).1
run-IsFinished_example = run-IsFinished (ready [] ∷ []) stopping_server stopping_run

-- The listener is made, and the descriptor of completions cannot be added to epoll.
abbrev failing_calls : SetupCalls
failing_calls = record {
  listener = record {
    socket = some 3;
    reuse_address = true;
    reuse_port = true;
    bind = true;
    listen = true;
    get_flags = true;
    set_flags = true;
  };
  epoll_fd = some 5;
  event_fd = some 4;
  add_completion_fd = false;
  add_listener_fd = true;
}

abbrev shared_parts : Shared
shared_parts = record {
  metrics = new_metrics;
  thread_pool = new_pool 2 8;
  shutdown_requested = false;
  worker_failed = false;
}

start_worker-releases_example :
    let s = start_worker failing_calls 0 shared_parts in
    ((fd : ℕ) → times fd (made failing_calls) ≡ times fd (held s))
    × ((is_set_up s ≡ all_succeed failing_calls)
        × (is_reported s ≡ not (all_succeed failing_calls)))
start_worker-releases_example = start_worker-releases failing_calls 0 shared_parts
