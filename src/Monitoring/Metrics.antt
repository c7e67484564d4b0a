-- ===== src/Monitoring/Metrics.antt =====
-- monitoring/metrics.h and metrics.cpp: `Metrics`, the counters and the histogram.
pub mod Counters
pub mod Histogram
use io_t_delivery_fleet_moni.Prelude.{
  ℕ, suc, ◌+◌, ◌-◌, ◌/◌, List, [], ◌∷◌, ◌++◌, Bool, ◌&&◌, ltb, leb, ◌==◌, if◌then◌else◌, length,
  modify, replicate, min, max, add64, sub64,
}

pub record EpollWorkerMetrics : Type 0 where
  pub accepted_connections : ℕ
  pub requests : ℕ
  pub completed_requests : ℕ
  pub completion_queue_depth : ℕ
  pub completion_queue_high_water : ℕ

-- `duration_sum` is the list of the durations that were added to 0.0, in order: which double their
-- sum is stays open. A duration is the steady clock's number of nanoseconds.
pub record Metrics : Type 0 where
  pub accepted_connections : ℕ
  pub open_connections : ℕ
  pub requests : ℕ
  pub blocked_requests : ℕ
  pub parse_errors : ℕ
  pub response_status_classes : List ℕ
  pub epoll_workers : List EpollWorkerMetrics
  pub epoll_worker_count : ℕ
  pub duration_bucket_counts : List ℕ
  pub duration_observations : ℕ
  pub duration_sum : List ℕ

-- The bounds in nanoseconds. As doubles in seconds they compare the same way: rounding keeps the
-- order, and a nanosecond more is far above the rounding of a bound.
abbrev pub duration_buckets : List ℕ
duration_buckets =
    5000000 ∷ 10000000 ∷ 25000000 ∷ 50000000 ∷ 100000000 ∷ 250000000 ∷ 500000000 ∷ 1000000000
    ∷ 2500000000 ∷ 5000000000 ∷ 10000000000 ∷ []

abbrev pub new_worker : EpollWorkerMetrics
new_worker = record {
  accepted_connections = 0;
  requests = 0;
  completed_requests = 0;
  completion_queue_depth = 0;
  completion_queue_high_water = 0;
}

abbrev pub new_metrics : Metrics
new_metrics = record {
  accepted_connections = 0;
  open_connections = 0;
  requests = 0;
  blocked_requests = 0;
  parse_errors = 0;
  response_status_classes = replicate 5 0;
  epoll_workers = replicate 256 new_worker;
  epoll_worker_count = 0;
  duration_bucket_counts = replicate 11 0;
  duration_observations = 0;
  duration_sum = [];
}

unfoldable pub set_epoll_worker_count : ℕ → Metrics → Metrics
set_epoll_worker_count count m = record m {
  epoll_worker_count = min count (length m.epoll_workers);
}

-- A worker beyond the array is left out of its worker's counters.
unfoldable pub connection_opened : ℕ → Metrics → Metrics
connection_opened worker_id m = record m {
  accepted_connections = add64 m.accepted_connections 1;
  open_connections = add64 m.open_connections 1;
  epoll_workers =
      modify m.epoll_workers worker_id
        λ w. record w { accepted_connections = add64 w.accepted_connections 1 };
}

unfoldable pub connection_closed : Metrics → Metrics
connection_closed m = record m { open_connections = sub64 m.open_connections 1 }

unfoldable pub request_started : ℕ → Metrics → Metrics
request_started worker_id m = record m {
  requests = add64 m.requests 1;
  epoll_workers = modify m.epoll_workers worker_id λ w. record w { requests = add64 w.requests 1 };
}

-- The loop over the buckets.
unfoldable pub count_in_buckets : ℕ → List ℕ → List ℕ → List ℕ
count_in_buckets elapsed (bound ∷ bounds) (n ∷ counts) =
    (if leb elapsed bound then add64 n 1 else n) ∷ count_in_buckets elapsed bounds counts
count_in_buckets elapsed [] counts = counts
count_in_buckets elapsed (bound ∷ bounds) [] = []

unfoldable pub request_completed : ℕ → ℕ → ℕ → Metrics → Metrics
request_completed status_code elapsed worker_id m = record m {
  response_status_classes =
      if leb 100 status_code && ltb status_code 600
      then modify m.response_status_classes (status_code / 100 - 1) (λ n. add64 n 1)
      else m.response_status_classes;
  blocked_requests = if status_code == 429 then add64 m.blocked_requests 1 else m.blocked_requests;
  epoll_workers =
      modify m.epoll_workers worker_id
        λ w. record w { completed_requests = add64 w.completed_requests 1 };
  duration_observations = add64 m.duration_observations 1;
  duration_sum = m.duration_sum ++ (elapsed ∷ []);
  duration_bucket_counts = count_in_buckets elapsed duration_buckets m.duration_bucket_counts;
}

-- The high water mark is only written here, under the worker's `completion_mutex`, so that the
-- exchange succeeds in its first round.
unfoldable pub completion_queue_size : ℕ → ℕ → Metrics → Metrics
completion_queue_size worker_id size m = record m {
  epoll_workers = modify m.epoll_workers worker_id λ w. record w {
    completion_queue_depth = size;
    completion_queue_high_water =
        if ltb w.completion_queue_high_water size then size else w.completion_queue_high_water;
  };
}

unfoldable pub parse_error : Metrics → Metrics
parse_error m = record m { parse_errors = add64 m.parse_errors 1 }

unfoldable pub active_connections : Metrics → ℕ
active_connections m = m.open_connections

-- The calls that change the metrics.
pub data Event : Type 0 where
  opened : ℕ → Event
  closed : Event
  started : ℕ → Event
  completed : ℕ → ℕ → ℕ → Event
  queue_sized : ℕ → ℕ → Event
  misparsed : Event

unfoldable pub record_event : Event → Metrics → Metrics
record_event (opened worker_id) m = connection_opened worker_id m
record_event closed m = connection_closed m
record_event (started worker_id) m = request_started worker_id m
record_event (completed status_code elapsed worker_id) m =
    request_completed status_code elapsed worker_id m
record_event (queue_sized worker_id size) m = completion_queue_size worker_id size m
record_event misparsed m = parse_error m

unfoldable pub record_events : List Event → Metrics → Metrics
record_events [] m = m
record_events (e ∷ es) m = record_events es (record_event e m)
