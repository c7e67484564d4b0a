-- ===== src/Network/TcpServer/Setup.antt =====
-- network/tcp_server.cpp: `set_nonblocking`, `create_reuseport_listener`, and `worker_loop` up to
-- the loop, with the descriptor of the `EpollLoop` that it makes. A system call that makes a descriptor returns it, or `none`; the others succeed or fail.
pub mod Released
use io_t_delivery_fleet_moni.Prelude.{
  ℕ, List, [], ◌∷◌, ◌++◌, Option, none, some, Bool, true, false, not, ◌&&◌, ◌||◌, if◌then◌else◌,
}
use io_t_delivery_fleet_moni.Monitoring.Metrics.{Metrics}
use io_t_delivery_fleet_moni.Network.ThreadPool.{ThreadPool}
use io_t_delivery_fleet_moni.Network.TcpServer.{Task, Server}

pub record ListenerCalls : Type 0 where
  pub socket : Option ℕ
  pub reuse_address : Bool
  pub reuse_port : Bool
  pub bind : Bool
  pub listen : Bool
  pub get_flags : Bool
  pub set_flags : Bool

pub record SetupCalls : Type 0 where
  pub listener : ListenerCalls
  pub epoll_fd : Option ℕ
  pub event_fd : Option ℕ
  pub add_completion_fd : Bool
  pub add_listener_fd : Bool

abbrev pub set_nonblocking : ListenerCalls → Bool
set_nonblocking calls = calls.get_flags && calls.set_flags

-- A descriptor that was made, if any, and what was closed.
abbrev pub Made : Type 0
Made = Option ℕ × List ℕ

abbrev pub prepare_listener : ListenerCalls → Option ℕ → Made
prepare_listener calls none = (none, [])
prepare_listener calls (some listener_fd) =
    let gives_up : Made = (none, listener_fd ∷ []) in
    if not (calls.reuse_address && calls.reuse_port)
    then gives_up
    else if not calls.bind
    then gives_up
    else if not calls.listen
    then gives_up
    else if not (set_nonblocking calls)
    then gives_up
    else (some listener_fd, [])

unfoldable pub create_reuseport_listener : ListenerCalls → Made
create_reuseport_listener calls = prepare_listener calls calls.socket

-- What the workers of a server share.
pub record Shared : Type 0 where
  pub metrics : Metrics
  pub thread_pool : ThreadPool Task
  pub shutdown_requested : Bool
  pub worker_failed : Bool

-- How the set-up of a worker ends: a server goes on with the descriptor of its loop. The last list
-- is what was closed.
pub data SetUp : Type 0 where
  gave_up : Shared → List ℕ → SetUp
  set_up : Server → Option ℕ → List ℕ → SetUp

-- `EpollLoop::add_fd`: the call fails for a loop without a descriptor.
abbrev pub add_fd : Option ℕ → Bool → Bool
add_fd none succeeds = false
add_fd (some epoll_fd) succeeds = succeeds

-- `~EpollLoop`, which runs last when the worker returns.
abbrev pub destroy_loop : Option ℕ → List ℕ
destroy_loop none = []
destroy_loop (some epoll_fd) = epoll_fd ∷ []

abbrev pub fails : Shared → List ℕ → SetUp
fails shared closed =
    gave_up (record shared { worker_failed = true; shutdown_requested = true }) closed

abbrev pub new_server : ℕ → ℕ → ℕ → Shared → Server
new_server worker_id listener_fd completion_fd shared = record {
  connections = [];
  completions = [];
  completion_fd = completion_fd;
  outstanding_tasks = 0;
  next_generation = 1;
  worker_id = worker_id;
  draining = false;
  metrics = shared.metrics;
  thread_pool = shared.thread_pool;
  running = [];
  shutdown_requested = shared.shutdown_requested;
  worker_failed = shared.worker_failed;
  listener_fd = some listener_fd;
  answers = record { reads = []; sends = []; accepts = []; modifies = [] };
  wire = [];
  closed = [];
}

abbrev pub with_completion_fd : SetupCalls → ℕ → Shared → ℕ → Option ℕ → Option ℕ → SetUp
with_completion_fd calls worker_id shared listener_fd epoll_fd none =
    fails shared (listener_fd ∷ destroy_loop epoll_fd)
with_completion_fd calls worker_id shared listener_fd epoll_fd (some completion_fd) =
    let gives_up = fails shared (completion_fd ∷ (listener_fd ∷ destroy_loop epoll_fd)) in
    if not (add_fd epoll_fd calls.add_completion_fd)
    then gives_up
    else if not (add_fd epoll_fd calls.add_listener_fd)
    then gives_up
    else set_up (new_server worker_id listener_fd completion_fd shared) epoll_fd []

-- The loop is made behind the listener, and before the event descriptor.
abbrev pub with_listener_fd : SetupCalls → ℕ → Shared → Made → SetUp
with_listener_fd calls worker_id shared (none, closed) = fails shared closed
with_listener_fd calls worker_id shared (some listener_fd, closed) =
    with_completion_fd calls worker_id shared listener_fd calls.epoll_fd calls.event_fd

unfoldable pub start_worker : SetupCalls → ℕ → Shared → SetUp
start_worker calls worker_id shared =
    with_listener_fd calls worker_id shared (create_reuseport_listener calls.listener)
