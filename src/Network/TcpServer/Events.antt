-- ===== src/Network/TcpServer/Events.antt =====
-- network/tcp_server.cpp: `handle_event`, the callbacks of `worker_loop`, and the steps in which a
-- worker, the pool and a signal handler come to act.
use io_t_delivery_fleet_moni.Prelude.{
  ℕ, ◌≡◌, List, [], ◌∷◌, ◌++◌, Option, none, some, Bool, true, false, not, ◌&&◌, ◌==◌,
  if◌then◌else◌, length, has_key, number_keys,
}
use io_t_delivery_fleet_moni.Http.Response.{HttpResponse, serialize}
use io_t_delivery_fleet_moni.Monitoring.Metrics.{completion_queue_size}
use io_t_delivery_fleet_moni.Network.ThreadPool.{Wakeup, takes, worker_loop, task_done}
use io_t_delivery_fleet_moni.Network.EpollLoop.{Events, Wait, Outcome, run}
use io_t_delivery_fleet_moni.Network.ConnectionManager.{
  Connection, pending_bytes, get, count, file_descriptors,
}
use io_t_delivery_fleet_moni.Network.TcpServer.{
  Task, Completion, Accept, accepted, accept_would_block, accept_interrupted, accept_failed,
  Answers, Server, put, close_client, flush_client,
}
use io_t_delivery_fleet_moni.Network.TcpServer.Handlers.{
  add_client, accept_clients, handle_client, drain_connections, begin_drain, process_completions,
  with_metrics,
}

abbrev pub mark_hangup : ℕ → Option Connection → Server → Server
mark_hangup fd none s = s
mark_hangup fd (some c) s = put fd (record c { peer_closed = true }) s

abbrev pub is_finished : Connection → Bool
is_finished c = not c.request_in_flight && (c.peer_closed && (pending_bytes c == 0))

abbrev pub close_finished : ℕ → Option Connection → Server → Server
close_finished fd none s = s
close_finished fd (some c) s = if is_finished c then close_client fd s else s

abbrev pub when : Bool → (Server → Server) → Server → Server
when true f s = f s
when false f s = s

-- The early returns: without the connection, what follows does nothing.
unfoldable pub connection_event : ℕ → Events → Server → Server
connection_event fd e s =
    let after_read = when e.readable (handle_client fd) s in
    let marked = when e.peer_hangup (λ t. mark_hangup fd (get fd t.connections) t) after_read in
    let after_write = when e.writable (λ t. (flush_client fd t).1) marked in
    if not (has_key fd s.connections)
    then s
    else if e.error_or_hangup
    then close_client fd s
    else close_finished fd (get fd after_write.connections) after_write

unfoldable pub listener_event : Events → Server → Server
listener_event e s =
    if s.draining
    then s
    else if e.error_or_hangup
    then record s { worker_failed = true; shutdown_requested = true }
    else when e.readable accept_clients s

abbrev pub is_descriptor : ℕ → Option ℕ → Bool
is_descriptor fd none = false
is_descriptor fd (some fd') = fd == fd'

-- What follows the start of a drain, with the handler's own `listener_fd`.
unfoldable pub dispatch : ℕ → Events → Option ℕ → Server → Server
dispatch fd e listener_fd s =
    if fd == s.completion_fd
    then process_completions s
    else if is_descriptor fd listener_fd
    then listener_event e s
    else connection_event fd e s

-- `listener_fd` is passed by value: when a drain begins here, the caller's variable keeps its
-- number, although that descriptor is closed.
unfoldable pub handle_event : ℕ → Events → Server → Server
handle_event fd e s =
    if s.shutdown_requested && not s.draining
    then dispatch fd e none (record (begin_drain s) { listener_fd = s.listener_fd })
    else dispatch fd e s.listener_fd s

unfoldable pub on_iteration : Server → Server
on_iteration s =
    let completed = process_completions s in
    let s' = when completed.shutdown_requested begin_drain completed in
    when s'.draining (drain_connections (file_descriptors s'.connections)) s'

unfoldable pub should_stop : Server → Bool
should_stop s = s.draining && ((s.outstanding_tasks == 0) && (count s.connections == 0))

-- The end of `worker_loop`, once the loop has returned.
abbrev pub fail_worker : Outcome → Server → Server
fail_worker Outcome.returned_true s = s
fail_worker Outcome.returned_false s =
    if s.shutdown_requested then s else record s { worker_failed = true; shutdown_requested = true }
fail_worker Outcome.still_running s = s

abbrev pub close_descriptor : Option ℕ → Server → Server
close_descriptor none s = s
close_descriptor (some fd) s = record s { closed = s.closed ++ (fd ∷ []) }

unfoldable pub leave_loop : Outcome × Server → Server
leave_loop (outcome, s) =
    let s' = close_descriptor s.listener_fd (fail_worker outcome s) in
    record s' { closed = s'.closed ++ (s'.completion_fd ∷ []) }

-- From `loop.run` to the end of `worker_loop`.
unfoldable pub event_loop : List Wait → Server → Server
event_loop waits s = leave_loop (run handle_event on_iteration should_stop waits s)

-- The end of the closure given to `submit`, with the response that the router gave, or 500.
abbrev pub completion_of : Task → HttpResponse → ℕ → Completion
completion_of task r elapsed = record {
  client_fd = task.client_fd;
  generation = task.generation;
  serialized_response = serialize r;
  status_code = r.status_code;
  elapsed = elapsed;
}

unfoldable pub finish_task : List Task → List Task → Task → HttpResponse → ℕ → Server → Server
finish_task before after task r elapsed s =
    let completions = s.completions ++ (completion_of task r elapsed ∷ []) in
    with_metrics (completion_queue_size s.worker_id (length completions)) (record s {
      completions = completions;
      running = before ++ after;
      thread_pool = task_done s.thread_pool;
    })

-- A pool thread looks for a task.
abbrev pub after_wakeup : Server → Wakeup Task → Server
after_wakeup s Wakeup.ends = s
after_wakeup s Wakeup.waits = s
after_wakeup s (takes task pool) = record s {
  thread_pool = pool;
  running = s.running ++ (task ∷ []);
}

abbrev pub answered : Answers → Server → Server
answered answers s = record s { answers = answers }

-- `accept` returns descriptors that are not open.
abbrev pub IsFresh : List Accept → Server → Type 0
IsFresh [] s = Unit {0}
IsFresh (accepted fd client_ip prepared ∷ accepts) s =
    (has_key fd s.connections ≡ false) × IsFresh accepts (add_client fd client_ip prepared s)
IsFresh (accept_would_block ∷ accepts) s = Unit {0}
IsFresh (accept_interrupted ∷ accepts) s = IsFresh accepts s
IsFresh (accept_failed ∷ accepts) s = Unit {0}

-- A callback of the loop runs whole; the pool's threads and the signal act between them.
pub data Step (s : Server) : Server → Type 0 where
  event :
      (fd : ℕ) (e : Events) (answers : Answers)
      → IsFresh answers.accepts (answered answers s)
      → Step s (handle_event fd e (answered answers s))
  iteration : (answers : Answers) → Step s (on_iteration (answered answers s))
  task_taken : Step s (after_wakeup s (worker_loop s.thread_pool))
  task_finished :
      (before after : List Task) (task : Task) (r : HttpResponse) (elapsed : ℕ)
      → s.running ≡ before ++ (task ∷ after)
      → Step s (finish_task before after task r elapsed s)
  shutdown_signal : Step s (record s { shutdown_requested = true })

pub data Reachable (s₀ : Server) : Server → Type 0 where
  start : Reachable s₀ s₀
  more : (s s' : Server) → Reachable s₀ s → Step s s' → Reachable s₀ s'
