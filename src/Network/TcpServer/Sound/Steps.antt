-- ===== src/Network/TcpServer/Sound/Steps.antt =====
-- network/tcp_server.cpp: every step of a worker keeps the invariant.
use io_t_delivery_fleet_moni.Prelude.{
  ℕ, ◌≡◌, refl, subst, List, [], ◌∷◌, ◌++◌, Option, none, some, Bool, true, false, not, ◌&&◌, ◌==◌,
  has_key, value_at, number_keys, map, arith, if-cases, has_key-value_at, length-append,
}
use io_t_delivery_fleet_moni.Http.Response.{HttpResponse}
use io_t_delivery_fleet_moni.Monitoring.Metrics.{completion_queue_size}
use io_t_delivery_fleet_moni.Network.ThreadPool.{worker_loop, wakeup}
use io_t_delivery_fleet_moni.Network.EpollLoop.{Events}
use io_t_delivery_fleet_moni.Network.ConnectionManager.{Connection, get, file_descriptors}
use io_t_delivery_fleet_moni.Network.TcpServer.{Task, Server, flush_client}
use io_t_delivery_fleet_moni.Network.TcpServer.Handlers.{
  handle_client, accept_clients, begin_drain, process_completions, drain_connections,
}
use io_t_delivery_fleet_moni.Network.TcpServer.Events.{
  mark_hangup, is_finished, close_finished, when, connection_event, listener_event, dispatch,
  is_descriptor, handle_event, on_iteration, finish_task, after_wakeup, answered, IsFresh, Step,
  event, iteration, task_taken, task_finished, shutdown_signal, Reachable, start, more,
  completion_of,
}
use io_t_delivery_fleet_moni.Network.TcpServer.Sound.{
  owes, owes-append, owes-snoc, length-snoc, owes-middle, length-middle, task_debt, completion_debt,
  IsConsistent, IsSound, owed-IsConsistent,
}
use io_t_delivery_fleet_moni.Network.TcpServer.Sound.Kept.{
  close_client-IsSoundWith, put-IsSoundWith, flush_client-IsSoundWith,
}
use io_t_delivery_fleet_moni.Network.TcpServer.Sound.Reading.{
  handle_client-IsSound, accept_clients-IsSound,
}
use io_t_delivery_fleet_moni.Network.TcpServer.Sound.Draining.{
  drain_connections-IsSound, begin_drain-IsSound, process_completions-IsSound,
}

mark_hangup-IsSound :
    (fd : ℕ) (o : Option Connection) (s : Server)
    → value_at fd s.connections ≡ o
    → IsSound s
    → IsSound (mark_hangup fd o s)
mark_hangup-IsSound fd none s at v = v
mark_hangup-IsSound fd (some c) s at v =
    put-IsSoundWith 0 [] fd (record c { peer_closed = true }) s v
      (has_key-value_at fd s.connections c at) (v.good fd c at)

close_finished-IsSound :
    (fd : ℕ) (o : Option Connection) (s : Server) → IsSound s → IsSound (close_finished fd o s)
close_finished-IsSound fd none s v = v
close_finished-IsSound fd (some c) s v =
    if-cases IsSound (is_finished c) (λ _. close_client-IsSoundWith 0 [] fd s v) λ _. v

when-IsSound :
    (b : Bool) (f : Server → Server) (s : Server)
    → (b ≡ true → IsSound s → IsSound (f s))
    → IsSound s
    → IsSound (when b f s)
when-IsSound true f s kept v = kept refl v
when-IsSound false f s kept v = v

connection_event-IsSound :
    (fd : ℕ) (e : Events) (s : Server) → IsSound s → IsSound (connection_event fd e s)
unfolding connection_event get
connection_event-IsSound fd e s v =
    let after_read = when e.readable (handle_client fd) s in
    let v₁ : IsSound after_read =
      when-IsSound e.readable (handle_client fd) s (λ _. handle_client-IsSound fd s) v in
    let marks : Server → Server = λ t. mark_hangup fd (value_at fd t.connections) t in
    let marked = when e.peer_hangup marks after_read in
    let v₂ : IsSound marked =
      when-IsSound e.peer_hangup marks after_read
        (λ _. mark_hangup-IsSound fd (value_at fd after_read.connections) after_read refl) v₁ in
    let writes : Server → Server = λ t. (flush_client fd t).1 in
    let after_write = when e.writable writes marked in
    let v₃ : IsSound after_write =
      when-IsSound e.writable writes marked (λ _. flush_client-IsSoundWith 0 [] fd marked) v₂ in
    if-cases IsSound (not (has_key fd s.connections)) (λ _. v)
      λ _.
        if-cases IsSound e.error_or_hangup (λ _. close_client-IsSoundWith 0 [] fd s v)
          λ _. close_finished-IsSound fd (value_at fd after_write.connections) after_write v₃

listener_event-IsSound :
    (e : Events) (s : Server)
    → IsSound s
    → IsFresh s.answers.accepts s
    → IsSound (listener_event e s)
unfolding listener_event
listener_event-IsSound e s v h =
    if-cases IsSound s.draining (λ _. v)
      λ _.
        if-cases IsSound e.error_or_hangup (λ _. v)
          λ _. when-IsSound e.readable accept_clients s (λ _ u. accept_clients-IsSound s u h) v

handle_event-IsSound :
    (fd : ℕ) (e : Events) (s : Server)
    → IsSound s
    → IsFresh s.answers.accepts s
    → IsSound (handle_event fd e s)
unfolding handle_event dispatch
handle_event-IsSound fd e s v h =
    let s' : Server = record (begin_drain s) { listener_fd = s.listener_fd } in
    let v' : IsSound s' = begin_drain-IsSound s v in
    if-cases IsSound (s.shutdown_requested && not s.draining)
      (λ _.
        if-cases IsSound (fd == s'.completion_fd) (λ _. process_completions-IsSound s' v')
          λ _. connection_event-IsSound fd e s' v')
      λ _.
        if-cases IsSound (fd == s.completion_fd) (λ _. process_completions-IsSound s v)
          λ _.
            if-cases IsSound (is_descriptor fd s.listener_fd) (λ _. listener_event-IsSound e s v h)
              λ _. connection_event-IsSound fd e s v

on_iteration-IsSound : (s : Server) → IsSound s → IsSound (on_iteration s)
unfolding on_iteration
on_iteration-IsSound s v =
    let completed = process_completions s in
    let v₁ = process_completions-IsSound s v in
    let s' = when completed.shutdown_requested begin_drain completed in
    let v₂ : IsSound s' =
      when-IsSound completed.shutdown_requested begin_drain completed
        (λ _. begin_drain-IsSound completed) v₁ in
    when-IsSound s'.draining (drain_connections (file_descriptors s'.connections)) s'
      (λ _. drain_connections-IsSound (file_descriptors s'.connections) s') v₂

-- A task that is taken moves among the debts.
taken-IsSound :
    (tasks : List Task) (s : Server)
    → s.thread_pool.tasks ≡ tasks
    → IsSound s
    → IsSound (after_wakeup s (wakeup s.thread_pool tasks))
unfolding owes
taken-IsSound [] s e v =
    if-cases (λ w. IsSound (after_wakeup s w)) s.thread_pool.stopping (λ _. v) λ _. v
taken-IsSound (task ∷ tasks) s e v =
    let rest = map completion_debt s.completions ++ [] in
    let older = map task_debt s.running ++ rest in
    let queued = map task_debt tasks in
    let newer = map task_debt (s.running ++ (task ∷ [])) ++ rest in
    owed-IsConsistent s.outstanding_tasks 0 (queued ++ newer) (rw e at v)
      (omega (
        arith,
        (rw e at v).owed,
        length-append queued older,
        length-append queued newer,
        length-snoc task_debt task rest s.running,
      ))
      λ fd generation o. ground (
        arith,
        o,
        owes-append fd generation queued older,
        owes-append fd generation queued newer,
        owes-snoc task_debt task rest fd generation s.running,
      )

-- A task that is finished becomes a completion.
finished-IsSound :
    (before after : List Task) (task : Task) (r : HttpResponse) (elapsed : ℕ) (s : Server)
    → s.running ≡ before ++ (task ∷ after)
    → IsSound s
    → IsSound (finish_task before after task r elapsed s)
unfolding owes finish_task completion_queue_size
finished-IsSound before after task r elapsed s e v =
    let done = completion_of task r elapsed in
    let tasks = map task_debt s.thread_pool.tasks in
    let comps = map completion_debt s.completions ++ [] in
    let comps' = map completion_debt (s.completions ++ (done ∷ [])) ++ [] in
    let older = map task_debt (before ++ (task ∷ after)) ++ comps in
    let others = map task_debt (before ++ after) in
    let newer = others ++ comps' in
    let v' : IsConsistent s.connections s.metrics.open_connections s.outstanding_tasks 0
        (tasks ++ older) =
      subst
        (λ running.
          IsConsistent s.connections s.metrics.open_connections s.outstanding_tasks 0
            (tasks ++ (map task_debt running ++ comps)))
        e v in
    owed-IsConsistent s.outstanding_tasks 0 (tasks ++ newer) v'
      (omega (
        arith,
        v'.owed,
        length-append tasks older,
        length-append tasks newer,
        length-append others comps,
        length-append others comps',
        length-snoc completion_debt done [] s.completions,
        length-middle task_debt task comps before after,
      ))
      λ fd generation o. ground (
        arith,
        o,
        owes-append fd generation tasks older,
        owes-append fd generation tasks newer,
        owes-append fd generation others comps,
        owes-append fd generation others comps',
        owes-snoc completion_debt done [] fd generation s.completions,
        owes-middle task_debt task comps fd generation before after,
      )

Step-IsSound : (s s' : Server) → IsSound s → Step s s' → IsSound s'
unfolding worker_loop
Step-IsSound s s' v (event fd e answers h) = handle_event-IsSound fd e (answered answers s) v h
Step-IsSound s s' v (iteration answers) = on_iteration-IsSound (answered answers s) v
Step-IsSound s s' v task_taken = taken-IsSound s.thread_pool.tasks s refl v
Step-IsSound s s' v (task_finished before after task r elapsed e) =
    finished-IsSound before after task r elapsed s e v
Step-IsSound s s' v shutdown_signal = v

-- Whatever the clients, the pool and the signal do, a worker that starts with no connection and no
-- task has, in every state it comes to, as many open connections in the metrics as it holds, as
-- many outstanding tasks as there are tasks queued, running or completed, and for each connection
-- in flight one of these tasks; and it never sends from beyond the end of a buffer.
pub Reachable-IsSound : (s₀ s : Server) → IsSound s₀ → Reachable s₀ s → IsSound s
Reachable-IsSound s₀ s v start = v
Reachable-IsSound s₀ s v (more s' s'' r step) =
    Step-IsSound s' s'' (Reachable-IsSound s₀ s' v r) step
