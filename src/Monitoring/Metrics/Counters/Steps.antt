-- ===== src/Monitoring/Metrics/Counters/Steps.antt =====
-- monitoring/metrics.cpp: what each call does to each counter.
use io_t_delivery_fleet_moni.Prelude.{
  ℕ, suc, ◌+◌, ◌≡◌, List, [], ◌∷◌, Bool, if◌then◌else◌, u64, arith,
}
use io_t_delivery_fleet_moni.Monitoring.Metrics.{
  Metrics, Event, opened, closed, started, completed, queue_sized, misparsed, connection_opened,
  connection_closed, request_started, request_completed, completion_queue_size, parse_error,
  record_event, record_events,
}
use io_t_delivery_fleet_moni.Monitoring.Metrics.Counters.Kinds.{
  is_opened, is_closed, is_started, is_completed, is_misparsed, is_blocked,
}

-- How many of the events are of a kind.
pub tally : (Event → Bool) → List Event → ℕ
tally p [] = 0
tally p (e ∷ es) = let rest = tally p es in if p e then suc rest else rest

-- A counter that each event of a kind raises by one has grown by their number.
module _ (I : Metrics → Type 0) (keeps : (e : Event) (m : Metrics) → I m → I (record_event e m))
    (kind : Event → Bool) (counter : Metrics → ℕ)
    (step : (e : Event) (m : Metrics)
      → I m
      → u64 (counter (record_event e m)) ≡ u64 (counter m + (if kind e then 1 else 0))) where
  pub counted :
      (es : List Event) (m : Metrics)
      → I m
      → u64 (counter (record_events es m)) ≡ u64 (counter m + tally kind es)
  unfolding tally record_events
  counted [] m v = omega arith
  counted (e ∷ es) m v = ground (arith, step e m v, counted es (record_event e m) (keeps e m v))

pub accepted-step :
    (e : Event) (m : Metrics)
    → u64 (record_event e m).accepted_connections
      ≡ u64 (m.accepted_connections + (if is_opened e then 1 else 0))
unfolding record_event connection_opened connection_closed request_started request_completed
    completion_queue_size parse_error
accepted-step (opened worker_id) m = omega arith
accepted-step closed m = omega arith
accepted-step (started worker_id) m = omega arith
accepted-step (completed status_code elapsed worker_id) m = omega arith
accepted-step (queue_sized worker_id size) m = omega arith
accepted-step misparsed m = omega arith

pub requests-step :
    (e : Event) (m : Metrics)
    → u64 (record_event e m).requests ≡ u64 (m.requests + (if is_started e then 1 else 0))
unfolding record_event connection_opened connection_closed request_started request_completed
    completion_queue_size parse_error
requests-step (opened worker_id) m = omega arith
requests-step closed m = omega arith
requests-step (started worker_id) m = omega arith
requests-step (completed status_code elapsed worker_id) m = omega arith
requests-step (queue_sized worker_id size) m = omega arith
requests-step misparsed m = omega arith

pub blocked-step :
    (e : Event) (m : Metrics)
    → u64 (record_event e m).blocked_requests
      ≡ u64 (m.blocked_requests + (if is_blocked e then 1 else 0))
unfolding record_event connection_opened connection_closed request_started request_completed
    completion_queue_size parse_error
blocked-step (opened worker_id) m = omega arith
blocked-step closed m = omega arith
blocked-step (started worker_id) m = omega arith
blocked-step (completed status_code elapsed worker_id) m = ground arith
blocked-step (queue_sized worker_id size) m = omega arith
blocked-step misparsed m = omega arith

pub errors-step :
    (e : Event) (m : Metrics)
    → u64 (record_event e m).parse_errors ≡ u64 (m.parse_errors + (if is_misparsed e then 1 else 0))
unfolding record_event connection_opened connection_closed request_started request_completed
    completion_queue_size parse_error
errors-step (opened worker_id) m = omega arith
errors-step closed m = omega arith
errors-step (started worker_id) m = omega arith
errors-step (completed status_code elapsed worker_id) m = omega arith
errors-step (queue_sized worker_id size) m = omega arith
errors-step misparsed m = omega arith

pub observations-step :
    (e : Event) (m : Metrics)
    → u64 (record_event e m).duration_observations
      ≡ u64 (m.duration_observations + (if is_completed e then 1 else 0))
unfolding record_event connection_opened connection_closed request_started request_completed
    completion_queue_size parse_error
observations-step (opened worker_id) m = omega arith
observations-step closed m = omega arith
observations-step (started worker_id) m = omega arith
observations-step (completed status_code elapsed worker_id) m = omega arith
observations-step (queue_sized worker_id size) m = omega arith
observations-step misparsed m = omega arith

open-step :
    (e : Event) (m : Metrics)
    → u64 ((record_event e m).open_connections + (if is_closed e then 1 else 0))
      ≡ u64 (m.open_connections + (if is_opened e then 1 else 0))
unfolding record_event connection_opened connection_closed request_started request_completed
    completion_queue_size parse_error
open-step (opened worker_id) m = omega arith
open-step closed m = omega arith
open-step (started worker_id) m = omega arith
open-step (completed status_code elapsed worker_id) m = omega arith
open-step (queue_sized worker_id size) m = omega arith
open-step misparsed m = omega arith

pub open_lem :
    (es : List Event) (m : Metrics)
    → u64 ((record_events es m).open_connections + tally is_closed es)
      ≡ u64 (m.open_connections + tally is_opened es)
unfolding tally record_events
open_lem [] m = omega arith
open_lem (e ∷ es) m = ground (arith, open-step e m, open_lem es (record_event e m))
