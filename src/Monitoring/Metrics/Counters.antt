-- ===== src/Monitoring/Metrics/Counters.antt =====
-- monitoring/metrics.cpp: what the counters say of the calls that were made.
pub mod Kinds
pub mod Steps
pub mod Places
use io_t_delivery_fleet_moni.Prelude.{
  ℕ, zero, suc, ◌+◌, ◌-◌, ◌*◌, ◌/◌, ◌≡◌, ◌<◌, refl, ap, sym, ◌∙◌, List, [], ◌∷◌, Bool, true, false,
  ◌==◌, ◌&&◌, leb, ltb, if◌then◌else◌, length, modify, add64, if-cases, u64, arith,
}
use io_t_delivery_fleet_moni.Monitoring.Metrics.{
  EpollWorkerMetrics, new_worker, Metrics, Event, opened, closed, started, completed, queue_sized,
  misparsed, connection_opened, connection_closed, request_started, request_completed,
  completion_queue_size, parse_error, record_event, record_events,
}
use io_t_delivery_fleet_moni.Monitoring.Metrics.Counters.Kinds.{
  is_opened, is_closed, is_started, is_completed, is_misparsed, is_blocked, is_of_class,
  is_opened_by, is_started_by, is_completed_by,
}
use io_t_delivery_fleet_moni.Monitoring.Metrics.Counters.Steps.{
  tally, counted, accepted-step, requests-step, blocked-step, errors-step, observations-step,
  open_lem,
}
use io_t_delivery_fleet_moni.Monitoring.Metrics.Counters.Places.{
  at, IsShaped, record_event-IsShaped, accepted_by-step, requests_of-step, completed_by-step,
  status-step,
}

-- The counters after the events, by the events; the widths wrap around. `class` is a class of status
-- codes, and `worker` a worker.
pub record IsTallied (class worker : ℕ) (es : List Event) (m m' : Metrics) : Type 0 where
  pub accepted_after :
      u64 m'.accepted_connections ≡ u64 (m.accepted_connections + tally is_opened es)
  pub open_after :
      u64 (m'.open_connections + tally is_closed es) ≡ u64 (m.open_connections + tally is_opened es)
  pub requests_after : u64 m'.requests ≡ u64 (m.requests + tally is_started es)
  pub blocked_after : u64 m'.blocked_requests ≡ u64 (m.blocked_requests + tally is_blocked es)
  pub errors_after : u64 m'.parse_errors ≡ u64 (m.parse_errors + tally is_misparsed es)
  pub observations_after :
      u64 m'.duration_observations ≡ u64 (m.duration_observations + tally is_completed es)
  pub class_after :
      u64 (at 0 m'.response_status_classes class)
      ≡ u64 (at 0 m.response_status_classes class + tally (is_of_class class) es)
  pub worker_accepted_after :
      u64 (at new_worker m'.epoll_workers worker).accepted_connections
      ≡ u64 (
          (at new_worker m.epoll_workers worker).accepted_connections
          + tally (is_opened_by worker) es)
  pub worker_requests_after :
      u64 (at new_worker m'.epoll_workers worker).requests
      ≡ u64 ((at new_worker m.epoll_workers worker).requests + tally (is_started_by worker) es)
  pub worker_completed_after :
      u64 (at new_worker m'.epoll_workers worker).completed_requests
      ≡ u64 (
          (at new_worker m.epoll_workers worker).completed_requests
          + tally (is_completed_by worker) es)

-- After any calls, each counter of calls, those of every class of status codes and of every worker
-- in the array with them, has grown by the number of the calls it counts, modulo 2 ^ 64; and the
-- open connections are those that were opened less those that were closed. The conditions: there are
-- five classes, and the worker is in the array.
pub record_events-IsTallied :
    (class worker : ℕ) (es : List Event) (m : Metrics)
    → class < 5
    → length m.response_status_classes ≡ 5
    → worker < length m.epoll_workers
    → IsTallied class worker es m (record_events es m)
record_events-IsTallied class worker es m h five present = record {
  accepted_after = all is_opened (λ m. m.accepted_connections) (λ e m _. accepted-step e m);
  open_after = open_lem es m;
  requests_after = all is_started (λ m. m.requests) (λ e m _. requests-step e m);
  blocked_after = all is_blocked (λ m. m.blocked_requests) (λ e m _. blocked-step e m);
  errors_after = all is_misparsed (λ m. m.parse_errors) (λ e m _. errors-step e m);
  observations_after =
      all is_completed (λ m. m.duration_observations) (λ e m _. observations-step e m);
  class_after =
      all (is_of_class class) (λ m. at 0 m.response_status_classes class)
        (status-step worker class h);
  worker_accepted_after =
      all (is_opened_by worker) (λ m. (at new_worker m.epoll_workers worker).accepted_connections)
        (accepted_by-step worker);
  worker_requests_after =
      all (is_started_by worker) (λ m. (at new_worker m.epoll_workers worker).requests)
        (requests_of-step worker);
  worker_completed_after =
      all (is_completed_by worker) (λ m. (at new_worker m.epoll_workers worker).completed_requests)
        (completed_by-step worker);
}
  where
    all :
        (kind : Event → Bool) (counter : Metrics → ℕ)
        → ((e : Event) (m : Metrics)
            → IsShaped worker m
            → u64 (counter (record_event e m)) ≡ u64 (counter m + (if kind e then 1 else 0)))
        → u64 (counter (record_events es m)) ≡ u64 (counter m + tally kind es)
    all kind counter step =
        counted (IsShaped worker) (record_event-IsShaped worker) kind counter step es m
          (five, present)
