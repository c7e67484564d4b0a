-- ===== src/Network/TcpServer/Sound/Reading.antt =====
-- network/tcp_server.cpp: `handle_client` and `accept_clients` keep the invariant.
use io_t_delivery_fleet_moni.Prelude.{
  ℕ, ◌+◌, ◌≤◌, ◌≡◌, refl, List, [], ◌∷◌, ◌++◌, max, Option, none, some, Bool, true, false, ◌||◌,
  leb, ltb, length, has_key, value_at, number_keys, map, add64, sub64, arith, if-cases, ==_refl,
  has_key-value_at, length-append, erase-insert,
}
use io_t_delivery_fleet_moni.Http.Parser.{
  ParseStatus, status_error, status_complete, status_incomplete, feed, has_error,
}
use io_t_delivery_fleet_moni.Http.Response.{serialize}
use io_t_delivery_fleet_moni.Monitoring.Metrics.{
  connection_opened, request_started, request_completed, parse_error, connection_closed,
}
use io_t_delivery_fleet_moni.Network.ThreadPool.{ThreadPool, submit}
use io_t_delivery_fleet_moni.Network.ConnectionManager.{
  Connection, pending_bytes, add, get, remove, new_connection,
}
use io_t_delivery_fleet_moni.Network.TcpServer.{
  Task, Read, read_bytes, read_end, read_would_block, read_interrupted, read_failed, Accept,
  accepted, accept_would_block, accept_interrupted, accept_failed, Server, max_outbound_bytes, put,
  close_client, next_modify, set_modifies,
}
use io_t_delivery_fleet_moni.Network.TcpServer.Handlers.{
  add_client, accept_loop, accept_clients, bad_request, overloaded, queue_output, Left,
  with_metrics, reject_request, after_submission, task_of, submit_request, start_request, set_reads,
  after_feed, fed, read_loop, flush_idle, after_reading, read_connection, handle_client,
}
use io_t_delivery_fleet_moni.Network.TcpServer.Events.{IsFresh}
use io_t_delivery_fleet_moni.Network.TcpServer.Sound.{
  debts, owes, owes-snoc, length-snoc, task_debt, completion_debt, IsGood, IsConsistent, IsSound,
  add-IsConsistent, insert-IsConsistent, erase-IsConsistent, owed-IsConsistent,
}
use io_t_delivery_fleet_moni.Network.TcpServer.Sound.Kept.{
  put-IsSoundWith, flush_client-IsSoundWith, has_key-put,
}

abbrev IsSoundLeft : Left → Type 0
IsSoundLeft r = IsSound r.1

-- Whatever was written to a connection that is closed at once.
close_put-IsSound :
    (fd : ℕ) (c : Connection) (s : Server)
    → IsSound s
    → has_key fd s.connections ≡ true
    → IsSound (close_client fd (put fd c s))
unfolding close_client remove connection_closed
close_put-IsSound fd c s v h =
    if-cases IsSound (has_key fd (put fd c s).connections)
      (λ _. rw (erase-insert fd c s.connections) (erase-IsConsistent v fd h))
      λ no. absurd (ground (arith, no, has_key-put fd c s))

module _ (fd : ℕ) (c : Connection) (s : Server) (v : IsSound s)
    (h : has_key fd s.connections ≡ true) where
  reject_request-IsSound : IsGood (debts [] s) fd c → IsSoundLeft (reject_request fd c s)
  unfolding reject_request parse_error
  reject_request-IsSound g =
      let counted : Server = with_metrics parse_error s in
      let v' : IsSound counted = v in
      let text = serialize bad_request in
      if-cases IsSoundLeft (ltb max_outbound_bytes (pending_bytes c + length text))
        (λ _. close_put-IsSound fd c counted v' h)
        λ _.
          put-IsSoundWith 0 [] fd (queue_output text c) counted v' h
            (g.0, omega (arith, g.1, length-append c.outbound text))

  -- The pool has the task.
  accepted-IsSound :
      (pool : ThreadPool Task)
      → pool.tasks ≡ s.thread_pool.tasks ++ (task_of fd c ∷ [])
      → c.outbound_offset ≤ length c.outbound
      → IsSoundLeft (
          after_submission fd c
            (record s { outstanding_tasks = add64 s.outstanding_tasks 1 })
            (true, pool))
  unfolding owes
  accepted-IsSound pool e within =
      let rest = map task_debt s.running ++ (map completion_debt s.completions ++ []) in
      let ds = map task_debt (s.thread_pool.tasks ++ (task_of fd c ∷ [])) ++ rest in
      let snoc = owes-snoc task_debt (task_of fd c) rest in
      let v' : IsConsistent s.connections s.metrics.open_connections (add64 s.outstanding_tasks 1) 0
          ds =
        owed-IsConsistent (add64 s.outstanding_tasks 1) 0 ds v
          (omega (arith, v.owed, length-snoc task_debt (task_of fd c) rest s.thread_pool.tasks))
          λ j g o. ground (arith, o, snoc j g s.thread_pool.tasks) in
      let owed : owes fd c.generation ds ≡ true =
        ground
          (arith, snoc fd c.generation s.thread_pool.tasks, ==_refl fd, ==_refl c.generation) in
      rw e (insert-IsConsistent v' fd c h ((λ _. owed), within))

  refused-IsSound :
      c.outbound_offset ≤ length c.outbound
      → IsSoundLeft (
          after_submission fd c
            (record s { outstanding_tasks = add64 s.outstanding_tasks 1 })
            (false, s.thread_pool))
  unfolding request_completed
  refused-IsSound within =
      let refused : Connection = record (queue_output (serialize overloaded) c) {
        request_in_flight = false;
      } in
      let outstanding' = sub64 (add64 s.outstanding_tasks 1) 1 in
      let s' : Server = record s {
        outstanding_tasks = outstanding';
        metrics = request_completed 503 0 s.worker_id s.metrics;
      } in
      let v' : IsSound s' =
        owed-IsConsistent outstanding' 0 (debts [] s) v (omega (arith, v.owed)) λ j g o. o in
      flush_client-IsSoundWith 0 [] fd (put fd refused s') (
        put-IsSoundWith 0 [] fd refused s' v' h
          (λ no. cc, omega (arith, within, length-append c.outbound (serialize overloaded))))

  submission-IsSound :
      c.outbound_offset ≤ length c.outbound
      → IsSoundLeft (
          after_submission fd c
            (record s { outstanding_tasks = add64 s.outstanding_tasks 1 })
            (submit s.thread_pool (task_of fd c)))
  unfolding submit
  submission-IsSound within =
      let s' : Server = record s { outstanding_tasks = add64 s.outstanding_tasks 1 } in
      if-cases (λ r. IsSoundLeft (after_submission fd c s' r))
        (s.thread_pool.stopping || leb s.thread_pool.queue_capacity (length s.thread_pool.tasks))
        (λ _. refused-IsSound within)
        λ _.
          accepted-IsSound
            (record s.thread_pool {
              tasks = s.thread_pool.tasks ++ (task_of fd c ∷ []);
              queue_high_water =
                  max s.thread_pool.queue_high_water
                    (length (s.thread_pool.tasks ++ (task_of fd c ∷ [])));
            })
            refl within

submit_request-IsSound :
    (fd : ℕ) (c : Connection) (s : Server) (answer : Bool × List Bool)
    → IsSound s
    → has_key fd s.connections ≡ true
    → c.outbound_offset ≤ length c.outbound
    → IsSoundLeft (submit_request fd c s answer)
submit_request-IsSound fd c s (true, modifies) v h within =
    submission-IsSound fd c (set_modifies modifies s) v h within
submit_request-IsSound fd c s (false, modifies) v h within =
    close_put-IsSound fd c (set_modifies modifies s) v h

-- The state and the connection of a round of the reading loop.
module _ (fd : ℕ) (c : Connection) (s : Server) (v : IsSound s)
    (h : has_key fd s.connections ≡ true) (g : IsGood (debts [] s) fd c) where
  start_request-IsSound : IsSoundLeft (start_request fd c s)
  unfolding start_request request_started
  start_request-IsSound =
      submit_request-IsSound fd (record c { request_in_flight = true })
        (with_metrics (request_started s.worker_id) s) (next_modify s.answers.modifies) v h g.1

  after_feed-IsSound :
      (status : ParseStatus) (next : Left)
      → IsSoundLeft next
      → IsSoundLeft (after_feed fd status c s next)
  after_feed-IsSound status_error next n = reject_request-IsSound fd c s v h g
  after_feed-IsSound status_complete next n = start_request-IsSound
  after_feed-IsSound status_incomplete next n =
      if-cases IsSoundLeft (has_error c.parser.parse_error) (λ _. close_put-IsSound fd c s v h)
        λ _. n

read_loop-IsSound :
    (reads : List Read) (fd : ℕ) (c : Connection) (s : Server)
    → IsSound s
    → has_key fd s.connections ≡ true
    → IsGood (debts [] s) fd c
    → IsSoundLeft (read_loop reads fd c s)
unfolding read_loop
read_loop-IsSound [] fd c s v h g = put-IsSoundWith 0 [] fd c (set_reads [] s) v h g
read_loop-IsSound (read_end ∷ reads) fd c s v h g =
    put-IsSoundWith 0 [] fd (record c { peer_closed = true }) (set_reads reads s) v h g
read_loop-IsSound (read_would_block ∷ reads) fd c s v h g =
    put-IsSoundWith 0 [] fd c (set_reads reads s) v h g
read_loop-IsSound (read_interrupted ∷ reads) fd c s v h g = read_loop-IsSound reads fd c s v h g
read_loop-IsSound (read_failed ∷ reads) fd c s v h g =
    close_put-IsSound fd c (set_reads reads s) v h
read_loop-IsSound (read_bytes bytes ∷ reads) fd c s v h g =
    let f = feed c.parser (c.inbound ++ bytes) in
    after_feed-IsSound fd (fed c f.1) (set_reads reads s) v h g f.0
      (read_loop reads fd (fed c f.1) s) (read_loop-IsSound reads fd (fed c f.1) s v h g)

flush_idle-IsSound :
    (fd : ℕ) (o : Option Connection) (s : Server) → IsSound s → IsSound (flush_idle fd o s)
flush_idle-IsSound fd none s v = v
flush_idle-IsSound fd (some c) s v =
    if-cases IsSound c.request_in_flight (λ _. v) λ _. flush_client-IsSoundWith 0 [] fd s v

after_reading-IsSound : (fd : ℕ) (r : Left) → IsSoundLeft r → IsSound (after_reading fd r)
unfolding get
after_reading-IsSound fd (false, s) v = v
after_reading-IsSound fd (true, s) v = flush_idle-IsSound fd (get fd s.connections) s v

read_connection-IsSound :
    (fd : ℕ) (o : Option Connection) (s : Server)
    → value_at fd s.connections ≡ o
    → IsSound s
    → IsSound (read_connection fd o s)
read_connection-IsSound fd none s at v = v
read_connection-IsSound fd (some c) s at v =
    after_reading-IsSound fd (read_loop s.answers.reads fd c s) (
      read_loop-IsSound s.answers.reads fd c s v (has_key-value_at fd s.connections c at)
        (v.good fd c at))

pub handle_client-IsSound : (fd : ℕ) (s : Server) → IsSound s → IsSound (handle_client fd s)
unfolding handle_client get
handle_client-IsSound fd s v = read_connection-IsSound fd (value_at fd s.connections) s refl v

-- A new connection has nothing in flight and nothing to send.
add_client-IsSound :
    (fd : ℕ) (client_ip : List ℕ) (prepared : Bool) (s : Server)
    → IsSound s
    → has_key fd s.connections ≡ false
    → IsSound (add_client fd client_ip prepared s)
unfolding add_client add connection_opened
add_client-IsSound fd client_ip true s v h =
    add-IsConsistent v fd (new_connection fd client_ip s.next_generation) h
      ((λ no. cc), omega arith)
add_client-IsSound fd client_ip false s v h = v

accept_loop-IsSound :
    (accepts : List Accept) (s : Server)
    → IsSound s
    → IsFresh accepts s
    → IsSound (accept_loop accepts s)
unfolding accept_loop
accept_loop-IsSound [] s v h = v
accept_loop-IsSound (accepted fd client_ip prepared ∷ accepts) s v h =
    accept_loop-IsSound accepts (add_client fd client_ip prepared s)
      (add_client-IsSound fd client_ip prepared s v h.0) h.1
accept_loop-IsSound (accept_interrupted ∷ accepts) s v h = accept_loop-IsSound accepts s v h
accept_loop-IsSound (accept_would_block ∷ accepts) s v h = v
accept_loop-IsSound (accept_failed ∷ accepts) s v h = v

pub accept_clients-IsSound :
    (s : Server) → IsSound s → IsFresh s.answers.accepts s → IsSound (accept_clients s)
unfolding accept_clients
accept_clients-IsSound s v h =
    if-cases IsSound s.shutdown_requested (λ _. v) λ _. accept_loop-IsSound s.answers.accepts s v h
