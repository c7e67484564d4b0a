-- ===== src/Network/TcpServer/Sound/Draining.antt =====
-- network/tcp_server.cpp: completions and the drain keep the invariant.
use io_t_delivery_fleet_moni.Prelude.{
  ℕ, suc, ◌+◌, ◌≤◌, ◌≡◌, refl, List, [], ◌∷◌, ◌++◌, Option, none, some, true, false, not, ◌&&◌,
  ◌||◌, ◌==◌, leb, length, has_key, value_at, number_keys, map, sub64, arith, subst, if-cases,
  ==_refl, value_at-insert, has_key-value_at, length-append, append-nil,
}
use io_t_delivery_fleet_moni.Monitoring.Metrics.{request_completed, completion_queue_size}
use io_t_delivery_fleet_moni.Network.ThreadPool.{begin_shutdown}
use io_t_delivery_fleet_moni.Network.ConnectionManager.{
  Connection, pending_bytes, get, file_descriptors,
}
use io_t_delivery_fleet_moni.Network.TcpServer.{Completion, Server, max_outbound_bytes, put}
use io_t_delivery_fleet_moni.Network.TcpServer.Handlers.{
  queue_output, with_metrics, drain_connection, drain_connections, close_listener, begin_drain,
  is_for, answer, deliver, complete_request, complete_requests, process_completions,
}
use io_t_delivery_fleet_moni.Network.TcpServer.Sound.{
  debts, owes, owes-append, completion_debt, task_debt, IsSoundWith, IsSound, owed-IsConsistent,
}
use io_t_delivery_fleet_moni.Network.TcpServer.Sound.Kept.{
  close_client-IsSoundWith, put-IsSoundWith, flush_client-IsSoundWith,
}

drain_connection-IsSound :
    (fd : ℕ) (o : Option Connection) (s : Server) → IsSound s → IsSound (drain_connection fd o s)
drain_connection-IsSound fd none s v = v
drain_connection-IsSound fd (some c) s v =
    if-cases IsSound c.request_in_flight (λ _. v)
      λ _.
        if-cases IsSound (not (pending_bytes c == 0)) (λ _. flush_client-IsSoundWith 0 [] fd s v)
          λ _. close_client-IsSoundWith 0 [] fd s v

pub drain_connections-IsSound :
    (fds : List ℕ) (s : Server) → IsSound s → IsSound (drain_connections fds s)
unfolding drain_connections
drain_connections-IsSound [] s v = v
drain_connections-IsSound (fd ∷ fds) s v =
    drain_connections-IsSound fds (drain_connection fd (get fd s.connections) s)
      (drain_connection-IsSound fd (get fd s.connections) s v)

close_listener-IsSound : (o : Option ℕ) (s : Server) → IsSound s → IsSound (close_listener o s)
close_listener-IsSound none s v = v
close_listener-IsSound (some fd) s v = v

pub begin_drain-IsSound : (s : Server) → IsSound s → IsSound (begin_drain s)
unfolding begin_drain begin_shutdown
begin_drain-IsSound s v =
    let stopping : Server = record s {
      draining = true;
      thread_pool = begin_shutdown s.thread_pool;
    } in
    let s' = close_listener s.listener_fd stopping in
    if-cases IsSound s.draining (λ _. v)
      λ _.
        drain_connections-IsSound (file_descriptors s'.connections) s'
          (close_listener-IsSound s.listener_fd stopping v)

-- The debt of the completion at the front of `taken` is among the debts.
owes-front :
    (fd generation : ℕ) (done : Completion) (rest : List Completion) (s : Server)
    → owes fd generation (debts (done ∷ rest) s) ≡ (
        (done.client_fd == fd && done.generation == generation)
        || owes fd generation (debts rest s))
unfolding owes
owes-front fd generation done rest s =
    let front = completion_debt done ∷ map completion_debt rest in
    let back = map completion_debt rest in
    let tasks = map task_debt s.thread_pool.tasks in
    let running = map task_debt s.running in
    let completions = map completion_debt s.completions in
    ground (
      arith,
      owes-append fd generation tasks (running ++ (completions ++ front)),
      owes-append fd generation running (completions ++ front),
      owes-append fd generation completions front,
      owes-append fd generation tasks (running ++ (completions ++ back)),
      owes-append fd generation running (completions ++ back),
      owes-append fd generation completions back,
    )

length-front :
    (done : Completion) (rest : List Completion) (s : Server)
    → length (debts (done ∷ rest) s) ≡ suc (length (debts rest s))
length-front done rest s =
    let front = completion_debt done ∷ map completion_debt rest in
    let back = map completion_debt rest in
    let tasks = map task_debt s.thread_pool.tasks in
    let running = map task_debt s.running in
    let completions = map completion_debt s.completions in
    omega (
      arith,
      length-append tasks (running ++ (completions ++ front)),
      length-append running (completions ++ front),
      length-append completions front,
      length-append tasks (running ++ (completions ++ back)),
      length-append running (completions ++ back),
      length-append completions back,
    )

module _ (done : Completion) (rest : List Completion) where
  -- A debt is gone once no connection waits for it.
  pay-IsSoundWith :
      (s : Server)
      → IsSoundWith 0 (done ∷ rest) s
      → ((c : Connection) → value_at done.client_fd s.connections ≡ some c → is_for done c ≡ false)
      → IsSoundWith 1 rest s
  pay-IsSoundWith s v idle = record {
    distinct = v.distinct;
    counted = v.counted;
    owed = omega (arith, v.owed, length-front done rest s);
    good = λ j c at. (
      (λ h. ground (
        arith,
        (v.good j c at).0 h,
        owes-front j c.generation done rest s,
        (λ (e : done.client_fd ≡ j). idle c (rw e at)),
      )),
      (v.good j c at).1,
    );
  }

  -- The connection, no longer in flight.
  settle-IsSoundWith :
      (c : Connection) (s : Server)
      → IsSoundWith 0 (done ∷ rest) s
      → has_key done.client_fd s.connections ≡ true
      → c.request_in_flight ≡ false
      → c.outbound_offset ≤ length c.outbound
      → IsSoundWith 1 rest (put done.client_fd c s)
  settle-IsSoundWith c s v h idle within =
      pay-IsSoundWith (put done.client_fd c s)
        (put-IsSoundWith 0 (done ∷ rest) done.client_fd c s v h
          ((λ busy. absurd (ground (arith, busy, idle))), within))
        λ b at. settled b (
          ground (
            arith,
            at,
            value_at-insert done.client_fd done.client_fd c s.connections,
            ==_refl done.client_fd,
          ))
    where
      settled : (b : Connection) → c ≡ b → is_for done b ≡ false
      settled b e = subst (λ x. is_for done x ≡ false) e (ground (arith, idle))

  answer-IsSoundWith :
      (c : Connection) (s : Server)
      → IsSoundWith 0 (done ∷ rest) s
      → value_at done.client_fd s.connections ≡ some c
      → IsSoundWith 1 rest (answer done c s)
  answer-IsSoundWith c s v at =
      let idle : Connection = record c { request_in_flight = false } in
      let queued = queue_output done.serialized_response idle in
      let h = has_key-value_at done.client_fd s.connections c at in
      let within = (v.good done.client_fd c at).1 in
      if-cases (IsSoundWith 1 rest)
        (leb (pending_bytes c + length done.serialized_response) max_outbound_bytes)
        (λ _. flush_client-IsSoundWith 1 rest done.client_fd (put done.client_fd queued s) (
          settle-IsSoundWith queued s v h refl
            (omega (arith, within, length-append c.outbound done.serialized_response))))
        λ _.
          close_client-IsSoundWith 1 rest done.client_fd (put done.client_fd idle s)
            (settle-IsSoundWith idle s v h refl within)

  deliver-IsSoundWith :
      (o : Option Connection) (s : Server)
      → value_at done.client_fd s.connections ≡ o
      → IsSoundWith 0 (done ∷ rest) s
      → IsSoundWith 1 rest (deliver done o s)
  deliver-IsSoundWith none s at v = pay-IsSoundWith s v λ c e. absurd (ground (arith, at, e))
  deliver-IsSoundWith (some c) s at v =
      if-cases (IsSoundWith 1 rest) (is_for done c) (λ _. answer-IsSoundWith c s v at)
        λ other. pay-IsSoundWith s v λ b e. same_value b other (ground (arith, at, e))
    where
      same_value : (b : Connection) → is_for done c ≡ false → c ≡ b → is_for done b ≡ false
      same_value b other e = subst (λ x. is_for done x ≡ false) e other

  complete_request-IsSoundWith :
      (s : Server) → IsSoundWith 0 (done ∷ rest) s → IsSoundWith 0 rest (complete_request done s)
  unfolding complete_request request_completed get
  complete_request-IsSoundWith s v =
      let counted : Server =
        with_metrics (request_completed done.status_code done.elapsed s.worker_id) s in
      let s' = deliver done (value_at done.client_fd s.connections) counted in
      let v' : IsSoundWith 1 rest s' =
        deliver-IsSoundWith (value_at done.client_fd s.connections) counted refl v in
      owed-IsConsistent (sub64 s'.outstanding_tasks 1) 0 (debts rest s') v' (omega (arith, v'.owed))
        λ fd generation o. o

complete_requests-IsSound :
    (completions : List Completion) (s : Server)
    → IsSoundWith 0 completions s
    → IsSound (complete_requests completions s)
unfolding complete_requests
complete_requests-IsSound [] s v = v
complete_requests-IsSound (done ∷ completions) s v =
    complete_requests-IsSound completions (complete_request done s)
      (complete_request-IsSoundWith done completions s v)

pub process_completions-IsSound : (s : Server) → IsSound s → IsSound (process_completions s)
unfolding process_completions completion_queue_size
process_completions-IsSound s v =
    let swapped : Server =
      with_metrics (completion_queue_size s.worker_id 0) (record s { completions = [] }) in
    complete_requests-IsSound s.completions swapped
      (rw (append-nil (map completion_debt s.completions)) at v)
