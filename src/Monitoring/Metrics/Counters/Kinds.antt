-- ===== src/Monitoring/Metrics/Counters/Kinds.antt =====
-- monitoring/metrics.h: which calls of the metrics each counter counts.
use io_t_delivery_fleet_moni.Prelude.{ℕ, ◌+◌, ◌*◌, Bool, true, false, ◌&&◌, leb, ltb, ◌==◌}
use io_t_delivery_fleet_moni.Monitoring.Metrics.{
  Event, opened, closed, started, completed, queue_sized, misparsed,
}

abbrev pub is_opened : Event → Bool
is_opened (opened worker_id) = true
is_opened closed = false
is_opened (started worker_id) = false
is_opened (completed status_code elapsed worker_id) = false
is_opened (queue_sized worker_id size) = false
is_opened misparsed = false

abbrev pub is_closed : Event → Bool
is_closed (opened worker_id) = false
is_closed closed = true
is_closed (started worker_id) = false
is_closed (completed status_code elapsed worker_id) = false
is_closed (queue_sized worker_id size) = false
is_closed misparsed = false

abbrev pub is_started : Event → Bool
is_started (opened worker_id) = false
is_started closed = false
is_started (started worker_id) = true
is_started (completed status_code elapsed worker_id) = false
is_started (queue_sized worker_id size) = false
is_started misparsed = false

abbrev pub is_completed : Event → Bool
is_completed (opened worker_id) = false
is_completed closed = false
is_completed (started worker_id) = false
is_completed (completed status_code elapsed worker_id) = true
is_completed (queue_sized worker_id size) = false
is_completed misparsed = false

abbrev pub is_misparsed : Event → Bool
is_misparsed (opened worker_id) = false
is_misparsed closed = false
is_misparsed (started worker_id) = false
is_misparsed (completed status_code elapsed worker_id) = false
is_misparsed (queue_sized worker_id size) = false
is_misparsed misparsed = true

abbrev pub is_blocked : Event → Bool
is_blocked (opened worker_id) = false
is_blocked closed = false
is_blocked (started worker_id) = false
is_blocked (completed status_code elapsed worker_id) = status_code == 429
is_blocked (queue_sized worker_id size) = false
is_blocked misparsed = false

-- The status codes of class 0 are those from 100 to 199, and so on.
abbrev pub is_of_class : ℕ → Event → Bool
is_of_class class (opened worker_id) = false
is_of_class class closed = false
is_of_class class (started worker_id) = false
is_of_class class (completed status_code elapsed worker_id) =
    leb (100 * (class + 1)) status_code && ltb status_code (100 * (class + 2))
is_of_class class (queue_sized worker_id size) = false
is_of_class class misparsed = false

abbrev pub is_opened_by : ℕ → Event → Bool
is_opened_by worker (opened worker_id) = worker_id == worker
is_opened_by worker closed = false
is_opened_by worker (started worker_id) = false
is_opened_by worker (completed status_code elapsed worker_id) = false
is_opened_by worker (queue_sized worker_id size) = false
is_opened_by worker misparsed = false

abbrev pub is_started_by : ℕ → Event → Bool
is_started_by worker (opened worker_id) = false
is_started_by worker closed = false
is_started_by worker (started worker_id) = worker_id == worker
is_started_by worker (completed status_code elapsed worker_id) = false
is_started_by worker (queue_sized worker_id size) = false
is_started_by worker misparsed = false

abbrev pub is_completed_by : ℕ → Event → Bool
is_completed_by worker (opened worker_id) = false
is_completed_by worker closed = false
is_completed_by worker (started worker_id) = false
is_completed_by worker (completed status_code elapsed worker_id) = worker_id == worker
is_completed_by worker (queue_sized worker_id size) = false
is_completed_by worker misparsed = false
