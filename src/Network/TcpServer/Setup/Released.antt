-- ===== src/Network/TcpServer/Setup/Released.antt =====
-- network/tcp_server.cpp: when a worker starts, and what becomes of the descriptors if it cannot.
use io_t_delivery_fleet_moni.Prelude.{
  ℕ, suc, ◌+◌, ◌≡◌, refl, List, [], ◌∷◌, ◌++◌, Option, none, some, Bool, true, not, ◌&&◌, ◌==◌,
  if◌then◌else◌, if-cases, arith, false,
}
use io_t_delivery_fleet_moni.Network.TcpServer.Setup.{
  ListenerCalls, SetupCalls, set_nonblocking, Made, prepare_listener, create_reuseport_listener,
  Shared, SetUp, gave_up, set_up, with_completion_fd, with_listener_fd, start_worker,
}

-- How often a descriptor stands in a list.
pub times : ℕ → List ℕ → ℕ
times fd [] = 0
times fd (fd' ∷ fds) = let rest = times fd fds in if fd == fd' then suc rest else rest

abbrev pub listed : Option ℕ → List ℕ
listed none = []
listed (some fd) = fd ∷ []

abbrev pub is_some : Option ℕ → Bool
is_some none = false
is_some (some fd) = true

-- Whether each call on the listener succeeds.
pub all_ready : ListenerCalls → Bool
all_ready calls =
    is_some calls.socket
    && (calls.reuse_address
        && (calls.reuse_port
            && (calls.bind && (calls.listen && (calls.get_flags && calls.set_flags)))))

-- Whether each call of a worker's start succeeds.
pub all_succeed : SetupCalls → Bool
all_succeed calls =
    all_ready calls.listener
    && (is_some calls.epoll_fd
        && (is_some calls.event_fd && (calls.add_completion_fd && calls.add_listener_fd)))

-- The descriptors that the calls of a worker's start make: the ones of the loop and of the events
-- are only asked for behind a listener that is ready.
pub made : SetupCalls → List ℕ
made calls =
    listed calls.listener.socket
    ++ (if all_ready calls.listener then listed calls.epoll_fd ++ listed calls.event_fd else [])

-- What the server holds, and what was closed.
abbrev pub held : SetUp → List ℕ
held (gave_up shared closed) = closed
held (set_up server epoll_fd closed) =
    listed server.listener_fd ++ (server.completion_fd ∷ (listed epoll_fd ++ closed))

abbrev pub is_set_up : SetUp → Bool
is_set_up (gave_up shared closed) = false
is_set_up (set_up server epoll_fd closed) = true

-- The worker has given up, has set `worker_failed`, and has requested the shutdown.
abbrev pub is_reported : SetUp → Bool
is_reported (gave_up shared closed) = shared.worker_failed && shared.shutdown_requested
is_reported (set_up server epoll_fd closed) = false

times-append : (fd : ℕ) (fds fds' : List ℕ) → times fd (fds ++ fds') ≡ times fd fds + times fd fds'
unfolding times
times-append fd [] fds' = omega arith
times-append fd (x ∷ fds) fds' = ground (arith, times-append fd fds fds')

-- A listener that is there is all that was made, by calls that succeeded; otherwise one has failed,
-- and what was made is closed.
abbrev IsReleased : Bool → Option ℕ → Made → Type 0
IsReleased ready socket (none, closed) =
    (ready ≡ false) × ((fd : ℕ) → times fd (listed socket) ≡ times fd closed)
IsReleased ready socket (some listener_fd, closed) =
    (ready ≡ true) × ((socket ≡ some listener_fd) × (closed ≡ []))

prepare_listener-IsReleased :
    (calls : ListenerCalls) (socket : Option ℕ)
    → calls.socket ≡ socket
    → IsReleased (all_ready calls) socket (prepare_listener calls socket)
unfolding all_ready
prepare_listener-IsReleased calls none e = (rw e refl, λ fd. refl)
prepare_listener-IsReleased calls (some listener_fd) e =
    if-cases P (not (calls.reuse_address && calls.reuse_port))
      (λ failed. (rw e (ground (arith, failed)), λ fd. refl))
      λ reusable.
        if-cases P (not calls.bind) (λ failed. (rw e (ground (arith, failed)), λ fd. refl))
          λ bound.
            if-cases P (not calls.listen) (λ failed. (rw e (ground (arith, failed)), λ fd. refl))
              λ listens.
                if-cases P (not (set_nonblocking calls))
                  (λ failed. (rw e (ground (arith, failed)), λ fd. refl))
                  λ set. (rw e (ground (arith, reusable, bound, listens, set)), (refl, refl))
  where
    P : Made → Type 0
    P = IsReleased (all_ready calls) (some listener_fd)

-- What a start holds or has closed is what it has made; it is set up if all calls succeed, and
-- otherwise the failure is reported.
abbrev IsAccounted : Bool → List ℕ → SetUp → Type 0
IsAccounted all fds s =
    ((fd : ℕ) → times fd fds ≡ times fd (held s))
    × ((is_set_up s ≡ all) × (is_reported s ≡ not all))

with_completion_fd-IsAccounted :
    (calls : SetupCalls) (worker_id : ℕ) (shared : Shared) (listener_fd : ℕ)
    (epoll_fd event_fd : Option ℕ)
    → IsAccounted
        (is_some epoll_fd
          && (is_some event_fd && (calls.add_completion_fd && calls.add_listener_fd)))
        (listener_fd ∷ (listed epoll_fd ++ listed event_fd))
        (with_completion_fd calls worker_id shared listener_fd epoll_fd event_fd)
unfolding times
with_completion_fd-IsAccounted calls worker_id shared listener_fd none none =
    (λ fd. refl, (refl, refl))
with_completion_fd-IsAccounted calls worker_id shared listener_fd (some epoll_fd) none =
    (λ fd. refl, (refl, refl))
with_completion_fd-IsAccounted calls worker_id shared listener_fd none (some completion_fd) =
    (λ fd. ground arith, (refl, refl))
with_completion_fd-IsAccounted calls worker_id shared listener_fd (some epoll_fd)
      (some completion_fd) =
    if-cases P (not calls.add_completion_fd)
      (λ e. (λ fd. ground arith, (ground (arith, e), ground (arith, e))))
      λ added.
        if-cases P (not calls.add_listener_fd)
          (λ e. (λ fd. ground arith, (ground (arith, e), ground (arith, e))))
          λ e. (λ fd. ground arith, (ground (arith, added, e), ground (arith, added, e)))
  where
    P : SetUp → Type 0
    P =
        IsAccounted (calls.add_completion_fd && calls.add_listener_fd)
          (listener_fd ∷ epoll_fd ∷ completion_fd ∷ [])

with_listener_fd-IsAccounted :
    (calls : SetupCalls) (worker_id : ℕ) (shared : Shared) (r : Made)
    → IsReleased (all_ready calls.listener) calls.listener.socket r
    → IsAccounted (all_succeed calls) (made calls) (with_listener_fd calls worker_id shared r)
unfolding times made all_succeed
with_listener_fd-IsAccounted calls worker_id shared (none, closed) v =
    rw v.0
      (λ fd. omega (arith, v.1 fd, times-append fd (listed calls.listener.socket) []), (refl, refl))
with_listener_fd-IsAccounted calls worker_id shared (some listener_fd, closed) v =
    rw (v.0, v.1.0)
      (with_completion_fd-IsAccounted calls worker_id shared listener_fd calls.epoll_fd
        calls.event_fd)

-- The start of a worker holds or has closed each descriptor that its calls have made, the one of
-- its event loop with them, exactly as often as it was made, whichever call fails. It ends with a
-- worker exactly if every call succeeds; otherwise it gives up, sets `worker_failed` and requests
-- the shutdown.
pub start_worker-releases :
    (calls : SetupCalls) (worker_id : ℕ) (shared : Shared)
    → let s = start_worker calls worker_id shared in
      ((fd : ℕ) → times fd (made calls) ≡ times fd (held s))
      × ((is_set_up s ≡ all_succeed calls) × (is_reported s ≡ not (all_succeed calls)))
unfolding start_worker create_reuseport_listener
start_worker-releases calls worker_id shared =
    with_listener_fd-IsAccounted calls worker_id shared
      (prepare_listener calls.listener calls.listener.socket)
      (prepare_listener-IsReleased calls.listener calls.listener.socket refl)
