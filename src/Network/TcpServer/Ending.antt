-- ===== src/Network/TcpServer/Ending.antt =====
-- network/tcp_server.cpp: a drain ends once nothing is outstanding and nothing is left to send.
use io_t_delivery_fleet_moni.Prelude.{
  ℕ, ◌≡◌, refl, sym, ap, subst, ◌∙◌, List, [], ◌∷◌, Option, none, some, Bool, true, false, not,
  ◌==◌, length, has_key, value_at, erase, number_keys, arith, ==_refl, if-cases, erase-absent,
  value_at-erase, has_key-value_at, value_at-none, IsDistinct,
}
use io_t_delivery_fleet_moni.Monitoring.Metrics.{completion_queue_size}
use io_t_delivery_fleet_moni.Network.ThreadPool.{begin_shutdown}
use io_t_delivery_fleet_moni.Network.EpollLoop.{Wait, returned_true, run, run-stops}
use io_t_delivery_fleet_moni.Network.ConnectionManager.{
  Connection, ConnectionManager, pending_bytes, get, remove, count, file_descriptors,
}
use io_t_delivery_fleet_moni.Network.TcpServer.{Server, close_client}
use io_t_delivery_fleet_moni.Network.TcpServer.Handlers.{
  drain_connection, drain_connections, close_listener, begin_drain, complete_requests,
  process_completions, with_metrics,
}
use io_t_delivery_fleet_moni.Network.TcpServer.Events.{
  handle_event, when, on_iteration, should_stop,
}
use io_t_delivery_fleet_moni.Network.TcpServer.Sound.{IsSound, debts, owes}

-- Nothing is in flight and nothing is left to send.
abbrev pub IsIdle : ConnectionManager → Type 0
IsIdle m =
    (fd : ℕ) (c : Connection)
    → value_at fd m ≡ some c
    → (c.request_in_flight ≡ false) × (pending_bytes c ≡ 0)

erase_all : List ℕ → ConnectionManager → ConnectionManager
erase_all [] m = m
erase_all (fd ∷ fds) m = erase_all fds (erase fd m)

-- What a drain of idle connections does.
record IsDrained (fds : List ℕ) (s s' : Server) : Type 0 where
  connections : s'.connections ≡ erase_all fds s.connections
  outstanding : s'.outstanding_tasks ≡ s.outstanding_tasks
  draining : s'.draining ≡ s.draining

erase-IsIdle : (fd : ℕ) (m : ConnectionManager) → IsIdle m → IsIdle (erase fd m)
erase-IsIdle fd m v j c at = v j c (ground (arith, at, value_at-erase fd j m))

drain_connection-IsDrained :
    (fd : ℕ) (o : Option Connection) (s : Server)
    → value_at fd s.connections ≡ o
    → IsIdle s.connections
    → IsDrained (fd ∷ []) s (drain_connection fd o s)
unfolding close_client remove erase_all erase
drain_connection-IsDrained fd none s at v = record {
  connections = sym (erase-absent fd s.connections (value_at-none fd s.connections at));
  outstanding = refl;
  draining = refl;
}
drain_connection-IsDrained fd (some c) s at v =
    let closes : IsDrained (fd ∷ []) s (close_client fd s) =
      if-cases (IsDrained (fd ∷ []) s) (has_key fd s.connections)
        (λ _. record { connections = refl; outstanding = refl; draining = refl })
        λ e. absurd (ground (arith, e, has_key-value_at fd s.connections c at)) in
    if-cases (IsDrained (fd ∷ []) s) c.request_in_flight
      (λ e. absurd (ground (arith, e, (v fd c at).0)))
      λ _.
        if-cases (IsDrained (fd ∷ []) s) (not (pending_bytes c == 0))
          (λ e. absurd (ground (arith, e, (v fd c at).1))) λ _. closes

drain_connections-IsDrained :
    (fds : List ℕ) (s : Server) → IsIdle s.connections → IsDrained fds s (drain_connections fds s)
unfolding drain_connections get erase_all
drain_connections-IsDrained [] s v = record {
  connections = refl;
  outstanding = refl;
  draining = refl;
}
drain_connections-IsDrained (fd ∷ fds) s v =
    let s' = drain_connection fd (value_at fd s.connections) s in
    let one : IsDrained (fd ∷ []) s s' =
      drain_connection-IsDrained fd (value_at fd s.connections) s refl v in
    let idle : IsIdle s'.connections = rw one.connections (erase-IsIdle fd s.connections v) in
    let others = drain_connections-IsDrained fds s' idle in
    record {
      connections = others.connections ∙ ap (erase_all fds) one.connections;
      outstanding = others.outstanding ∙ one.outstanding;
      draining = others.draining ∙ one.draining;
    }

erase_all-nil : (fds : List ℕ) → erase_all fds [] ≡ []
unfolding erase_all erase
erase_all-nil [] = refl
erase_all-nil (fd ∷ fds) = erase_all-nil fds

erase_all-file_descriptors :
    (m : ConnectionManager) → IsDistinct m → erase_all (file_descriptors m) m ≡ []
unfolding erase_all erase file_descriptors
erase_all-file_descriptors [] d = refl
erase_all-file_descriptors ((fd, c) ∷ m) d =
    ap (erase_all (file_descriptors m)) head_erased ∙ erase_all-file_descriptors m d.1
  where
    head_erased : erase fd ((fd, c) ∷ m) ≡ m
    head_erased = ground (arith, ==_refl fd, erase-absent fd m d.0)

-- A state with nothing outstanding and no connection.
record IsEmpty (s : Server) : Type 0 where
  connections : s.connections ≡ []
  outstanding : s.outstanding_tasks ≡ 0
  draining : s.draining ≡ true

drains-IsEmpty :
    (s : Server)
    → IsDistinct s.connections
    → IsIdle s.connections
    → s.outstanding_tasks ≡ 0
    → s.draining ≡ true
    → IsEmpty (drain_connections (file_descriptors s.connections) s)
drains-IsEmpty s d v none_left drains =
    let v' = drain_connections-IsDrained (file_descriptors s.connections) s v in
    record {
      connections = v'.connections ∙ erase_all-file_descriptors s.connections d;
      outstanding = v'.outstanding ∙ none_left;
      draining = v'.draining ∙ drains;
    }

-- What a drain starts from.
record IsSettled (s : Server) : Type 0 where
  distinct : IsDistinct s.connections
  idle : IsIdle s.connections
  outstanding : s.outstanding_tasks ≡ 0

nothing-IsIdle : IsIdle []
unfolding value_at
nothing-IsIdle fd c at = absurd (ground (arith, at))

IsEmpty-IsSettled : (s : Server) → IsEmpty s → IsSettled s
IsEmpty-IsSettled s v = record {
  distinct = rw v.connections tt;
  idle = subst IsIdle (sym v.connections) nothing-IsIdle;
  outstanding = v.outstanding;
}

close_listener-IsEmpty :
    (o : Option ℕ) (s : Server)
    → IsSettled s
    → s.draining ≡ true
    → IsEmpty
        (let s' = close_listener o s in drain_connections (file_descriptors s'.connections) s')
close_listener-IsEmpty none s v drains = drains-IsEmpty s v.distinct v.idle v.outstanding drains
close_listener-IsEmpty (some fd) s v drains =
    drains-IsEmpty (close_listener (some fd) s) v.distinct v.idle v.outstanding drains

begin_drain-IsSettled :
    (s : Server) → IsSettled s → IsSettled (begin_drain s) × ((begin_drain s).draining ≡ true)
unfolding begin_drain
begin_drain-IsSettled s v =
    let stopping : Server = record s {
      draining = true;
      thread_pool = begin_shutdown s.thread_pool;
    } in
    let v' : IsSettled stopping = record {
      distinct = v.distinct;
      idle = v.idle;
      outstanding = v.outstanding;
    } in
    let s' = close_listener s.listener_fd stopping in
    let drained = drain_connections (file_descriptors s'.connections) s' in
    let e : IsEmpty drained = close_listener-IsEmpty s.listener_fd stopping v' refl in
    if-cases (λ (t : Server). IsSettled t × (t.draining ≡ true)) s.draining (λ d. (v, d))
      λ _. (IsEmpty-IsSettled drained e, e.draining)

when-true : (b : Bool) (f : Server → Server) (s : Server) → b ≡ true → when b f s ≡ f s
when-true true f s e = refl
when-true false f s e = absurd (ground (arith, e))

-- After the completions have been processed.
iteration-stops :
    (s : Server)
    → IsSettled s
    → s.shutdown_requested ≡ true
    → should_stop (
        let s' = when s.shutdown_requested begin_drain s in
        when s'.draining (drain_connections (file_descriptors s'.connections)) s')
      ≡ true
unfolding should_stop count
iteration-stops s v requested =
    let v' = begin_drain-IsSettled s v in
    let s' = begin_drain s in
    let e = drains-IsEmpty s' v'.0.distinct v'.0.idle v'.0.outstanding v'.1 in
    let drains : Server → Server = drain_connections (file_descriptors s'.connections) in
    let stops : should_stop (drains s') ≡ true =
      ground (arith, e.draining, e.outstanding, ap length e.connections) in
    ap
      (λ (t : Server).
        should_stop (when t.draining (drain_connections (file_descriptors t.connections)) t))
      (when-true s.shutdown_requested begin_drain s requested)
    ∙ (ap should_stop (when-true s'.draining drains s' v'.1) ∙ stops)

no_task-debts :
    (s : Server) → s.thread_pool.tasks ≡ [] → s.running ≡ [] → s.completions ≡ [] → debts [] s ≡ []
no_task-debts s no_tasks none_running no_completions =
    rw (no_tasks, none_running, no_completions) refl

no_debt-idle :
    (fd : ℕ) (c : Connection) (ds : List (ℕ × ℕ))
    → ds ≡ []
    → (c.request_in_flight ≡ true → owes fd c.generation ds ≡ true)
    → c.request_in_flight ≡ false
unfolding owes
no_debt-idle fd c [] e owed = ground (arith, owed)
no_debt-idle fd c (d ∷ ds) e owed = absurd (ground (arith, ap length e))

-- The drain of a worker that has no task left and no connection with something to send ends:
-- after an iteration in which the shutdown is requested, the loop stops.
pub on_iteration-stops :
    (s : Server)
    → IsSound s
    → s.thread_pool.tasks ≡ []
    → s.running ≡ []
    → s.completions ≡ []
    → s.shutdown_requested ≡ true
    → ((fd : ℕ) (c : Connection) → get fd s.connections ≡ some c → pending_bytes c ≡ 0)
    → should_stop (on_iteration s) ≡ true
unfolding on_iteration process_completions complete_requests get
on_iteration-stops s v no_tasks none_running no_completions requested sent =
    let no_debts = no_task-debts s no_tasks none_running no_completions in
    let completed : Server =
      with_metrics (completion_queue_size s.worker_id 0) (record s { completions = [] }) in
    let settled : IsSettled completed = record {
      distinct = v.distinct;
      idle = λ fd c at. (no_debt-idle fd c (debts [] s) no_debts (v.good fd c at).0, sent fd c at);
      outstanding = omega (arith, v.owed, ap length no_debts);
    } in
    rw no_completions (iteration-stops completed settled requested)

pub record IsFinished (s : Server) : Type 0 where
  pub nobody : s.connections ≡ []
  pub nothing : s.outstanding_tasks ≡ 0
  pub drained : s.draining ≡ true

-- A worker's loop returns true only when it drains, nothing is outstanding, and no connection is
-- left, whatever events there were.
pub run-IsFinished :
    (waits : List Wait) (s : Server)
    → (run handle_event on_iteration should_stop waits s).0 ≡ returned_true
    → IsFinished (run handle_event on_iteration should_stop waits s).1
unfolding should_stop count
run-IsFinished waits s returned =
    let s' = (run handle_event on_iteration should_stop waits s).1 in
    let e = run-stops handle_event on_iteration should_stop waits s returned in
    record {
      nobody = no_length s'.connections (ground (arith, e));
      nothing = ground (arith, e);
      drained = ground (arith, e);
    }
  where
    no_length : (m : ConnectionManager) → length m ≡ 0 → m ≡ []
    no_length [] h = refl
    no_length (c ∷ m) h = absurd (omega arith)
