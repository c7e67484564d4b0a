-- ===== src/Monitoring/Metrics/Counters/Places.antt =====
-- monitoring/metrics.cpp: what each call does to the counters that stand in arrays, those of the
-- workers and of the classes of status codes.
use io_t_delivery_fleet_moni.Prelude.{
  ℕ, zero, suc, ◌+◌, ◌-◌, ◌*◌, ◌/◌, ◌≡◌, ◌<◌, refl, ap, ◌∙◌, List, [], ◌∷◌, Bool, true, false, ◌==◌,
  ◌&&◌, leb, ltb, if◌then◌else◌, length, modify, add64, if-cases, u64, arith,
}
use io_t_delivery_fleet_moni.Monitoring.Metrics.{
  EpollWorkerMetrics, new_worker, Metrics, Event, opened, closed, started, completed, queue_sized,
  misparsed, connection_opened, connection_closed, request_started, request_completed,
  completion_queue_size, parse_error, record_event,
}
use io_t_delivery_fleet_moni.Monitoring.Metrics.Counters.Kinds.{
  is_of_class, is_opened_by, is_started_by, is_completed_by,
}

-- The element at a place, or `z` behind the end.
pub at {ℓ} : {A : Type ℓ} → A → List A → ℕ → A
at z [] i = z
at z (x ∷ xs) zero = x
at z (x ∷ xs) (suc i) = at z xs i

length-modify {ℓ} :
    {A : Type ℓ} (xs : List A) (i : ℕ) (f : A → A) → length (modify xs i f) ≡ length xs
length-modify [] i f = refl
length-modify (x ∷ xs) zero f = refl
length-modify (x ∷ xs) (suc i) f = ap suc (length-modify xs i f)

at-modify {ℓ} :
    {A : Type ℓ} (z : A) (xs : List A) (i j : ℕ) (f : A → A)
    → j < length xs
    → at z (modify xs i f) j ≡ (if i == j then f (at z xs j) else at z xs j)
unfolding at
at-modify z [] i j f h = absurd (omega arith)
at-modify z (x ∷ xs) zero zero f h = ground arith
at-modify z (x ∷ xs) zero (suc j) f h = ground arith
at-modify z (x ∷ xs) (suc i) zero f h = ground arith
at-modify z (x ∷ xs) (suc i) (suc j) f h = ground (arith, at-modify z xs i j f (omega arith))

-- The arrays have their places for the five classes and for the worker.
abbrev pub IsShaped : ℕ → Metrics → Type 0
IsShaped worker m = (length m.response_status_classes ≡ 5) × (worker < length m.epoll_workers)

worker_kept :
    (worker i : ℕ) (ws : List EpollWorkerMetrics) (f : EpollWorkerMetrics → EpollWorkerMetrics)
    → worker < length ws
    → worker < length (modify ws i f)
worker_kept worker i ws f h = omega (arith, length-modify ws i f)

classes_kept :
    (classes : List ℕ) (i : ℕ) (b : Bool)
    → length classes ≡ 5
    → length (if b then modify classes i (λ n. add64 n 1) else classes) ≡ 5
classes_kept classes i true h = length-modify classes i (λ n. add64 n 1) ∙ h
classes_kept classes i false h = h

pub record_event-IsShaped :
    (worker : ℕ) (e : Event) (m : Metrics) → IsShaped worker m → IsShaped worker (record_event e m)
unfolding record_event connection_opened connection_closed request_started request_completed
    completion_queue_size parse_error
record_event-IsShaped worker (opened worker_id) m v =
    (v.0, worker_kept worker worker_id m.epoll_workers _ v.1)
record_event-IsShaped worker closed m v = v
record_event-IsShaped worker (started worker_id) m v =
    (v.0, worker_kept worker worker_id m.epoll_workers _ v.1)
record_event-IsShaped worker (completed status_code elapsed worker_id) m v = (
  classes_kept m.response_status_classes (status_code / 100 - 1)
      (leb 100 status_code && ltb status_code 600) v.0,
  worker_kept worker worker_id m.epoll_workers _ v.1,
)
record_event-IsShaped worker (queue_sized worker_id size) m v =
    (v.0, worker_kept worker worker_id m.epoll_workers _ v.1)
record_event-IsShaped worker misparsed m v = v

-- A change of one worker's counters, seen from the worker that is counted.
module _ (counter : EpollWorkerMetrics → ℕ) (f : EpollWorkerMetrics → EpollWorkerMetrics)
    (ws : List EpollWorkerMetrics) (i worker : ℕ) (h : worker < length ws) where
  raised :
      ((w : EpollWorkerMetrics) → u64 (counter (f w)) ≡ u64 (counter w + 1))
      → u64 (counter (at new_worker (modify ws i f) worker))
        ≡ u64 (counter (at new_worker ws worker) + (if i == worker then 1 else 0))
  raised one =
      ap (λ w. u64 (counter w)) (at-modify new_worker ws i worker f h)
      ∙ if-cases
          (λ w.
            u64 (counter w)
            ≡ u64 (counter (at new_worker ws worker) + (if i == worker then 1 else 0)))
          (i == worker) (λ e. rw e (one (at new_worker ws worker))) λ e. rw e (omega arith)

  same :
      ((w : EpollWorkerMetrics) → counter (f w) ≡ counter w)
      → u64 (counter (at new_worker (modify ws i f) worker))
        ≡ u64 (counter (at new_worker ws worker) + 0)
  same none =
      ap (λ w. u64 (counter w)) (at-modify new_worker ws i worker f h)
      ∙ if-cases (λ w. u64 (counter w) ≡ u64 (counter (at new_worker ws worker) + 0)) (i == worker)
          (λ e. omega (arith, none (at new_worker ws worker))) λ e. omega arith

pub accepted_by-step :
    (worker : ℕ) (e : Event) (m : Metrics)
    → IsShaped worker m
    → u64 (at new_worker (record_event e m).epoll_workers worker).accepted_connections
      ≡ u64 (
          (at new_worker m.epoll_workers worker).accepted_connections
          + (if is_opened_by worker e then 1 else 0))
unfolding record_event connection_opened connection_closed request_started request_completed
    completion_queue_size parse_error
accepted_by-step worker (opened worker_id) m v =
    raised (λ w. w.accepted_connections) _ m.epoll_workers worker_id worker v.1 λ w. omega arith
accepted_by-step worker closed m v = omega arith
accepted_by-step worker (started worker_id) m v =
    same (λ w. w.accepted_connections) _ m.epoll_workers worker_id worker v.1 λ w. refl
accepted_by-step worker (completed status_code elapsed worker_id) m v =
    same (λ w. w.accepted_connections) _ m.epoll_workers worker_id worker v.1 λ w. refl
accepted_by-step worker (queue_sized worker_id size) m v =
    same (λ w. w.accepted_connections) _ m.epoll_workers worker_id worker v.1 λ w. refl
accepted_by-step worker misparsed m v = omega arith

pub requests_of-step :
    (worker : ℕ) (e : Event) (m : Metrics)
    → IsShaped worker m
    → u64 (at new_worker (record_event e m).epoll_workers worker).requests
      ≡ u64 (
          (at new_worker m.epoll_workers worker).requests
          + (if is_started_by worker e then 1 else 0))
unfolding record_event connection_opened connection_closed request_started request_completed
    completion_queue_size parse_error
requests_of-step worker (opened worker_id) m v =
    same (λ w. w.requests) _ m.epoll_workers worker_id worker v.1 λ w. refl
requests_of-step worker closed m v = omega arith
requests_of-step worker (started worker_id) m v =
    raised (λ w. w.requests) _ m.epoll_workers worker_id worker v.1 λ w. omega arith
requests_of-step worker (completed status_code elapsed worker_id) m v =
    same (λ w. w.requests) _ m.epoll_workers worker_id worker v.1 λ w. refl
requests_of-step worker (queue_sized worker_id size) m v =
    same (λ w. w.requests) _ m.epoll_workers worker_id worker v.1 λ w. refl
requests_of-step worker misparsed m v = omega arith

pub completed_by-step :
    (worker : ℕ) (e : Event) (m : Metrics)
    → IsShaped worker m
    → u64 (at new_worker (record_event e m).epoll_workers worker).completed_requests
      ≡ u64 (
          (at new_worker m.epoll_workers worker).completed_requests
          + (if is_completed_by worker e then 1 else 0))
unfolding record_event connection_opened connection_closed request_started request_completed
    completion_queue_size parse_error
completed_by-step worker (opened worker_id) m v =
    same (λ w. w.completed_requests) _ m.epoll_workers worker_id worker v.1 λ w. refl
completed_by-step worker closed m v = omega arith
completed_by-step worker (started worker_id) m v =
    same (λ w. w.completed_requests) _ m.epoll_workers worker_id worker v.1 λ w. refl
completed_by-step worker (completed status_code elapsed worker_id) m v =
    raised (λ w. w.completed_requests) _ m.epoll_workers worker_id worker v.1 λ w. omega arith
completed_by-step worker (queue_sized worker_id size) m v =
    same (λ w. w.completed_requests) _ m.epoll_workers worker_id worker v.1 λ w. refl
completed_by-step worker misparsed m v = omega arith

class_raised :
    (class status_code : ℕ) (classes : List ℕ)
    → class < 5
    → length classes ≡ 5
    → u64 (
        at 0
          (if leb 100 status_code && ltb status_code 600
            then modify classes (status_code / 100 - 1) (λ n. add64 n 1)
            else classes)
          class)
      ≡ u64 (
          at 0 classes class
          + (if leb (100 * (class + 1)) status_code && ltb status_code (100 * (class + 2))
              then 1
              else 0))
class_raised class status_code classes h five = ground (
  arith,
  h,
  at-modify 0 classes (status_code / 100 - 1) class (λ n. add64 n 1) (omega (arith, h, five)),
)

pub status-step :
    (worker class : ℕ)
    → class < 5
    → (e : Event) (m : Metrics) → IsShaped worker m
    → u64 (at 0 (record_event e m).response_status_classes class)
      ≡ u64 (at 0 m.response_status_classes class + (if is_of_class class e then 1 else 0))
unfolding record_event connection_opened connection_closed request_started request_completed
    completion_queue_size parse_error
status-step worker class h (opened worker_id) m v = omega arith
status-step worker class h closed m v = omega arith
status-step worker class h (started worker_id) m v = omega arith
status-step worker class h (completed status_code elapsed worker_id) m v =
    class_raised class status_code m.response_status_classes h v.0
status-step worker class h (queue_sized worker_id size) m v = omega arith
status-step worker class h misparsed m v = omega arith
