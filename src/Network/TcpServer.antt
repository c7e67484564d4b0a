-- ===== src/Network/TcpServer.antt =====
-- network/tcp_server.h and tcp_server.cpp: one worker of `TCPServer` with its event loop.
--
-- `Server` is what one worker's handlers read and write: its connections, its `LoopState`, and
-- the metrics, the pool and the flags. What the system calls return is part of the state: each
-- call takes the next answer of its kind. When the answers have run out, `read`, `send` and
-- `accept` would block, and `epoll_ctl` succeeds.
pub mod Handlers
pub mod Events
pub mod Sound
pub mod Sending
pub mod Setup
pub mod Ending
use io_t_delivery_fleet_moni.Prelude.{
  ℕ, ◌+◌, ◌*◌, ◌^◌, List, [], ◌∷◌, ◌++◌, Option, none, some, Bool, true, false, if◌then◌else◌, ◌==◌,
  length, min, drop, take, has_key, insert, number_keys, add64,
}
use io_t_delivery_fleet_moni.Http.Parser.{HttpRequest}
use io_t_delivery_fleet_moni.Monitoring.Metrics.{Metrics, connection_closed}
use io_t_delivery_fleet_moni.Network.ThreadPool.{ThreadPool}
use io_t_delivery_fleet_moni.Network.ConnectionManager.{
  Connection, ConnectionManager, pending_bytes, remove, get,
}

-- The closure given to `submit`, by what it captures.
pub record Task : Type 0 where
  pub client_fd : ℕ
  pub generation : ℕ
  pub request : HttpRequest
  pub client_ip : List ℕ

pub record Completion : Type 0 where
  pub client_fd : ℕ
  pub generation : ℕ
  pub serialized_response : List ℕ
  pub status_code : ℕ
  pub elapsed : ℕ

-- What `read` returns: bytes, at least one and at most 1024 of them, the end, or an error.
pub data Read : Type 0 where
  read_bytes : List ℕ → Read
  read_end read_would_block read_interrupted read_failed : Read

-- What `send` returns: how many bytes it took, or an error.
pub data Send : Type 0 where
  sent_bytes : ℕ → Send
  send_interrupted send_would_block send_failed : Send

-- What `accept` returns; `prepared` says if the address was printed, the descriptor made
-- nonblocking, and added to epoll.
pub data Accept : Type 0 where
  accepted : (fd : ℕ) → (client_ip : List ℕ) → (prepared : Bool) → Accept
  accept_would_block accept_interrupted accept_failed : Accept

pub record Answers : Type 0 where
  pub reads : List Read
  pub sends : List Send
  pub accepts : List Accept
  pub modifies : List Bool

-- `running` are the tasks that pool threads have taken. `listener_fd` is `none` for -1. `wire` and
-- `closed` say what `send` and `close` were called with: the bytes that were taken, and the
-- descriptors.
pub record Server : Type 0 where
  pub connections : ConnectionManager
  pub completions : List Completion
  pub completion_fd : ℕ
  pub outstanding_tasks : ℕ
  pub next_generation : ℕ
  pub worker_id : ℕ
  pub draining : Bool
  pub metrics : Metrics
  pub thread_pool : ThreadPool Task
  pub running : List Task
  pub shutdown_requested : Bool
  pub worker_failed : Bool
  pub listener_fd : Option ℕ
  pub answers : Answers
  pub wire : List (ℕ × List ℕ)
  pub closed : List ℕ

abbrev pub max_outbound_bytes : ℕ
max_outbound_bytes = 1048576

-- A write through the pointer that `connections.get` returned.
abbrev pub put : ℕ → Connection → Server → Server
put fd c s = record s { connections = insert fd c s.connections }

unfoldable pub close_client : ℕ → Server → Server
close_client fd s =
    let known = record s {
      connections = remove fd s.connections;
      metrics = connection_closed s.metrics;
      closed = s.closed ++ (fd ∷ []);
    } in
    let unknown = record s { closed = s.closed ++ (fd ∷ []) } in
    if has_key fd s.connections then known else unknown

-- `EpollLoop::modify_fd`
abbrev pub next_modify : List Bool → Bool × List Bool
next_modify [] = (true, [])
next_modify (ok ∷ modifies) = (ok, modifies)

abbrev pub set_modifies : List Bool → Server → Server
set_modifies modifies s = record s { answers = record (s.answers) { modifies = modifies } }

-- Changes the interest of a connection, or closes it.
abbrev pub rearm : ℕ → Server → Bool × List Bool → Bool × Server
rearm fd s (true, modifies) = (true, set_modifies modifies s)
rearm fd s (false, modifies) = (false, close_client fd (set_modifies modifies s))

-- How the loop of `flush_client` ends.
pub data Flush : Type 0 where
  flush_drained flush_blocked flush_broken : Flush

-- The outcome, the connection, the answers that are left, and the bytes that were taken.
pub record Flushed : Type 0 where
  pub outcome : Flush
  pub connection : Connection
  pub sends : List Send
  pub taken : List ℕ

abbrev pub advance : ℕ → Connection → Connection
advance n c = record c { outbound_offset = c.outbound_offset + n }

-- `send` takes no more than it is given, and as `-1` or 0 is no progress, 0 ends the loop.
abbrev pub unsent : Connection → List ℕ
unsent c = drop c.outbound_offset c.outbound

abbrev pub stopped : Flush → Connection → List Send → Flushed
stopped outcome c sends = record { outcome = outcome; connection = c; sends = sends; taken = [] }

abbrev pub after_sent : List ℕ → Flushed → Flushed
after_sent bytes f = record f { taken = bytes ++ f.taken }

unfoldable pub flush_loop : List Send → Connection → Flushed
flush_loop [] c = stopped (if pending_bytes c == 0 then flush_drained else flush_blocked) c []
flush_loop (sent_bytes n ∷ sends) c =
    let count = min n (pending_bytes c) in
    let later = flush_loop sends (advance count c) in
    if pending_bytes c == 0
    then stopped flush_drained c (sent_bytes n ∷ sends)
    else if count == 0
    then stopped flush_broken c sends
    else after_sent (take count (unsent c)) later
flush_loop (send_interrupted ∷ sends) c =
    let later = flush_loop sends c in
    if pending_bytes c == 0 then stopped flush_drained c (send_interrupted ∷ sends) else later
flush_loop (send_would_block ∷ sends) c =
    if pending_bytes c == 0
    then stopped flush_drained c (send_would_block ∷ sends)
    else stopped flush_blocked c sends
flush_loop (send_failed ∷ sends) c =
    if pending_bytes c == 0
    then stopped flush_drained c (send_failed ∷ sends)
    else stopped flush_broken c sends

abbrev pub after_flush : ℕ → Flush → Connection → Server → Bool × Server
after_flush fd flush_drained c s =
    let emptied = record c { outbound = []; outbound_offset = 0 } in
    let still_open = rearm fd (put fd emptied s) (next_modify s.answers.modifies) in
    if c.peer_closed then (false, close_client fd (put fd emptied s)) else still_open
after_flush fd flush_blocked c s = rearm fd (put fd c s) (next_modify s.answers.modifies)
after_flush fd flush_broken c s = (false, close_client fd (put fd c s))

-- What the loop did to the world.
abbrev pub flushed : ℕ → Flushed → Server → Server
flushed fd f s = record s {
  answers = record (s.answers) { sends = f.sends };
  wire = s.wire ++ ((fd, f.taken) ∷ []);
}

abbrev pub flush_connection : ℕ → Option Connection → Server → Bool × Server
flush_connection fd none s = (false, s)
flush_connection fd (some c) s =
    let f = flush_loop s.answers.sends c in after_flush fd f.outcome f.connection (flushed fd f s)

unfoldable pub flush_client : ℕ → Server → Bool × Server
flush_client fd s = flush_connection fd (get fd s.connections) s
