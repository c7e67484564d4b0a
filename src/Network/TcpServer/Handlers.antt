-- ===== src/Network/TcpServer/Handlers.antt =====
-- network/tcp_server.cpp: the handlers of events, `process_completions` and the drain.
use io_t_delivery_fleet_moni.Prelude.{
  ℕ, ◌+◌, List, [], ◌∷◌, ◌++◌, Option, none, some, Bool, true, false, not, ◌&&◌, ltb, leb,
  if◌then◌else◌, ◌==◌, length, codes, add64, sub64,
}
use io_t_delivery_fleet_moni.Http.Parser.{
  HttpParser, ParseStatus, status_error, status_complete, status_incomplete, feed, has_error,
}
use io_t_delivery_fleet_moni.Http.Response.{HttpResponse, response, serialize}
use io_t_delivery_fleet_moni.Monitoring.Metrics.{
  connection_opened, request_started, request_completed, completion_queue_size,
}
use io_t_delivery_fleet_moni.Monitoring.Metrics
use io_t_delivery_fleet_moni.Network.ThreadPool.{ThreadPool, submit, begin_shutdown}
use io_t_delivery_fleet_moni.Network.ConnectionManager.{
  Connection, pending_bytes, add, get, file_descriptors,
}
use io_t_delivery_fleet_moni.Network.TcpServer.{
  Task, Completion, Read, read_bytes, read_end, read_would_block, read_interrupted, read_failed,
  Accept, accepted, accept_would_block, accept_interrupted, accept_failed, Server,
  max_outbound_bytes, put, close_client, next_modify, set_modifies, flush_client,
}

-- `accept_clients`; the flag is read in each round, and does not change meanwhile.
unfoldable pub add_client : ℕ → List ℕ → Bool → Server → Server
add_client fd client_ip true s = record s {
  connections = add fd client_ip s.next_generation s.connections;
  next_generation = add64 s.next_generation 1;
  metrics = connection_opened s.worker_id s.metrics;
}
add_client fd client_ip false s = record s { closed = s.closed ++ (fd ∷ []) }

unfoldable pub accept_loop : List Accept → Server → Server
accept_loop [] s = record s { answers = record (s.answers) { accepts = [] } }
accept_loop (accepted fd client_ip prepared ∷ accepts) s =
    accept_loop accepts (add_client fd client_ip prepared s)
accept_loop (accept_interrupted ∷ accepts) s = accept_loop accepts s
accept_loop (accept_would_block ∷ accepts) s = record s {
  answers = record (s.answers) { accepts = accepts };
}
accept_loop (accept_failed ∷ accepts) s = record s {
  answers = record (s.answers) { accepts = accepts };
}

unfoldable pub accept_clients : Server → Server
accept_clients s = if s.shutdown_requested then s else accept_loop s.answers.accepts s

abbrev pub bad_request : HttpResponse
bad_request = response 400 (codes "Bad Request") (codes "Bad Request")

abbrev pub overloaded : HttpResponse
overloaded = response 503 (codes "Service Unavailable") (codes "Service Unavailable")

abbrev pub queue_output : List ℕ → Connection → Connection
queue_output text c = record c { outbound = c.outbound ++ text; peer_closed = true }

-- How the loop of `handle_client` is left: by `return`, or by `break`.
abbrev pub Left : Type 0
Left = Bool × Server

abbrev pub returns : Server → Left
returns s = (false, s)

abbrev pub breaks : Server → Left
breaks s = (true, s)

abbrev pub with_metrics : (Metrics.Metrics → Metrics.Metrics) → Server → Server
with_metrics f s = record s { metrics = f s.metrics }

-- A request that does not parse.
unfoldable pub reject_request : ℕ → Connection → Server → Left
reject_request fd c s =
    let counted = with_metrics Metrics.parse_error s in
    if ltb max_outbound_bytes (pending_bytes c + length (serialize bad_request))
    then returns (close_client fd (put fd c counted))
    else breaks (put fd (queue_output (serialize bad_request) c) counted)

-- What follows `submit`: the second argument is what it returned.
abbrev pub after_submission : ℕ → Connection → Server → Bool × ThreadPool Task → Left
after_submission fd c s (true, pool) = breaks (put fd c (record s { thread_pool = pool }))
after_submission fd c s (false, pool) =
    let refused = record (queue_output (serialize overloaded) c) { request_in_flight = false } in
    let s' = record s {
      thread_pool = pool;
      outstanding_tasks = sub64 s.outstanding_tasks 1;
      metrics = request_completed 503 0 s.worker_id s.metrics;
    } in
    breaks (flush_client fd (put fd refused s')).1

abbrev pub task_of : ℕ → Connection → Task
task_of fd c = record {
  client_fd = fd;
  generation = c.generation;
  request = c.parser.parsed_request;
  client_ip = c.client_ip;
}

-- From `modify_fd` on; the connection is marked as in flight.
abbrev pub submit_request : ℕ → Connection → Server → Bool × List Bool → Left
submit_request fd c s (false, modifies) =
    returns (close_client fd (put fd c (set_modifies modifies s)))
submit_request fd c s (true, modifies) =
    let s' = record (set_modifies modifies s) { outstanding_tasks = add64 s.outstanding_tasks 1 } in
    after_submission fd c s' (submit s.thread_pool (task_of fd c))

-- A request that is complete.
unfoldable pub start_request : ℕ → Connection → Server → Left
start_request fd c s =
    submit_request fd (record c { request_in_flight = true })
      (with_metrics (request_started s.worker_id) s) (next_modify s.answers.modifies)

abbrev pub set_reads : List Read → Server → Server
set_reads reads s = record s { answers = record (s.answers) { reads = reads } }

-- What follows `feed`, with the loop's next round.
abbrev pub after_feed : ℕ → ParseStatus → Connection → Server → Left → Left
after_feed fd status_error c s next = reject_request fd c s
after_feed fd status_complete c s next = start_request fd c s
after_feed fd status_incomplete c s next =
    if has_error c.parser.parse_error then returns (close_client fd (put fd c s)) else next

abbrev pub fed : Connection → HttpParser → Connection
fed c parser = record c { parser = parser; inbound = [] }

-- The loop of `handle_client`.
unfoldable pub read_loop : List Read → ℕ → Connection → Server → Left
read_loop [] fd c s = breaks (put fd c (set_reads [] s))
read_loop (read_end ∷ reads) fd c s =
    breaks (put fd (record c { peer_closed = true }) (set_reads reads s))
read_loop (read_would_block ∷ reads) fd c s = breaks (put fd c (set_reads reads s))
read_loop (read_interrupted ∷ reads) fd c s = read_loop reads fd c s
read_loop (read_failed ∷ reads) fd c s = returns (close_client fd (put fd c (set_reads reads s)))
read_loop (read_bytes bytes ∷ reads) fd c s =
    let f = feed c.parser (c.inbound ++ bytes) in
    after_feed fd f.0 (fed c f.1) (set_reads reads s) (read_loop reads fd (fed c f.1) s)

abbrev pub flush_idle : ℕ → Option Connection → Server → Server
flush_idle fd none s = s
flush_idle fd (some c) s = if c.request_in_flight then s else (flush_client fd s).1

abbrev pub after_reading : ℕ → Left → Server
after_reading fd (false, s) = s
after_reading fd (true, s) = flush_idle fd (get fd s.connections) s

abbrev pub read_connection : ℕ → Option Connection → Server → Server
read_connection fd none s = s
read_connection fd (some c) s = after_reading fd (read_loop s.answers.reads fd c s)

unfoldable pub handle_client : ℕ → Server → Server
handle_client fd s = read_connection fd (get fd s.connections) s

-- A connection that a drain visits: it is flushed, or closed if it has nothing to send.
abbrev pub drain_connection : ℕ → Option Connection → Server → Server
drain_connection fd none s = s
drain_connection fd (some c) s =
    if c.request_in_flight
    then s
    else if not (pending_bytes c == 0)
    then (flush_client fd s).1
    else close_client fd s

unfoldable pub drain_connections : List ℕ → Server → Server
drain_connections [] s = s
drain_connections (fd ∷ fds) s =
    drain_connections fds (drain_connection fd (get fd s.connections) s)

-- The `listener_fd` that is closed and set to -1 is the caller's: see `handle_event`.
abbrev pub close_listener : Option ℕ → Server → Server
close_listener none s = s
close_listener (some fd) s = record s { listener_fd = none; closed = s.closed ++ (fd ∷ []) }

unfoldable pub begin_drain : Server → Server
begin_drain s =
    let stopping = record s { draining = true; thread_pool = begin_shutdown s.thread_pool } in
    let s' = close_listener s.listener_fd stopping in
    if s.draining then s else drain_connections (file_descriptors s'.connections) s'

-- A completion that is for the connection's present request.
abbrev pub is_for : Completion → Connection → Bool
is_for done c = (c.generation == done.generation) && c.request_in_flight

abbrev pub answer : Completion → Connection → Server → Server
answer done c s =
    let idle = record c { request_in_flight = false } in
    let queued = queue_output done.serialized_response idle in
    if leb (pending_bytes c + length done.serialized_response) max_outbound_bytes
    then (flush_client done.client_fd (put done.client_fd queued s)).1
    else close_client done.client_fd (put done.client_fd idle s)

abbrev pub deliver : Completion → Option Connection → Server → Server
deliver done none s = s
deliver done (some c) s = if is_for done c then answer done c s else s

-- One round of the loop of `process_completions`.
unfoldable pub complete_request : Completion → Server → Server
complete_request done s =
    let counted = with_metrics (request_completed done.status_code done.elapsed s.worker_id) s in
    let s' = deliver done (get done.client_fd s.connections) counted in
    record s' { outstanding_tasks = sub64 s'.outstanding_tasks 1 }

unfoldable pub complete_requests : List Completion → Server → Server
complete_requests [] s = s
complete_requests (done ∷ completions) s = complete_requests completions (complete_request done s)

-- No task is added to `completions` meanwhile: that would be a step of its own, before or after.
unfoldable pub process_completions : Server → Server
process_completions s =
    complete_requests s.completions
      (with_metrics (completion_queue_size s.worker_id 0) (record s { completions = [] }))
