-- ===== src/Network/ThreadPool.antt =====
-- network/thread_pool.h: `ThreadPool`. Each section under the mutex is one step; the steps of the
-- workers and of the callers interleave in any order.
pub mod Order
use io_t_delivery_fleet_moni.Prelude.{
  ℕ, zero, suc, ◌+◌, ◌-◌, ◌<◌, ◌≡◌, List, [], ◌∷◌, ◌++◌, Bool, true, false, ◌||◌, leb,
  if◌then◌else◌, length, max,
}

-- `A` is the type of tasks; of `workers`, only their number matters.
pub record ThreadPool {ℓ} (A : Type ℓ) : Type ℓ where
  pub queue_capacity : ℕ
  pub tasks : List A
  pub queue_high_water : ℕ
  pub worker_count : ℕ
  pub busy_threads : ℕ
  pub stopping : Bool

-- How a worker leaves the section under the lock: it ends, waits on, or has a task.
pub data Wakeup {ℓ} (A : Type ℓ) : Type ℓ where
  ends : Wakeup A
  waits : Wakeup A
  takes : A → ThreadPool A → Wakeup A

-- The pool with the tasks that were accepted and that were started so far, and the number of
-- workers that have ended.
pub record World {ℓ} (A : Type ℓ) : Type ℓ where
  pub pool : ThreadPool A
  pub accepted : List A
  pub started : List A
  pub ended : ℕ

module _ {ℓ} {A : Type ℓ} where
  -- The constructor.
  abbrev pub new_pool : ℕ → ℕ → ThreadPool A
  new_pool worker_count queue_capacity = record {
    queue_capacity = queue_capacity;
    tasks = [];
    queue_high_water = 0;
    worker_count = worker_count;
    busy_threads = 0;
    stopping = false;
  }

  unfoldable pub submit : ThreadPool A → A → Bool × ThreadPool A
  submit pool task =
      let queued = pool.tasks ++ (task ∷ []) in
      if pool.stopping || leb pool.queue_capacity (length pool.tasks) then (false, pool) else (
        true,
        record pool {
          tasks = queued;
          queue_high_water = max pool.queue_high_water (length queued);
        },
      )

  unfoldable pub begin_shutdown : ThreadPool A → ThreadPool A
  begin_shutdown pool = record pool { stopping = true }

  -- The section under the lock in `worker_loop`, from the queue.
  abbrev pub wakeup : ThreadPool A → List A → Wakeup A
  wakeup pool [] = if pool.stopping then ends else waits
  wakeup pool (task ∷ tasks) =
      takes task (record pool { tasks = tasks; busy_threads = pool.busy_threads + 1 })

  unfoldable pub worker_loop : ThreadPool A → Wakeup A
  worker_loop pool = wakeup pool pool.tasks

  -- The end of a task, whether it returned or threw.
  abbrev pub task_done : ThreadPool A → ThreadPool A
  task_done pool = record pool { busy_threads = pool.busy_threads - 1 }

  abbrev pub after_submit : World A → A → Bool × ThreadPool A → World A
  after_submit w task (false, pool) = record w { pool = pool }
  after_submit w task (true, pool) = record w { pool = pool; accepted = w.accepted ++ (task ∷ []) }

  abbrev pub after_wakeup : World A → Wakeup A → World A
  after_wakeup w ends = record w { ended = w.ended + 1 }
  after_wakeup w waits = w
  after_wakeup w (takes task pool) = record w { pool = pool; started = w.started ++ (task ∷ []) }

  -- One step of a caller or of a worker; a worker that is busy or has ended takes no task.
  pub data Step (w : World A) : World A → Type ℓ where
    submits : (task : A) → Step w (after_submit w task (submit w.pool task))
    shuts_down : Step w (record w { pool = begin_shutdown w.pool })
    wakes :
        w.pool.busy_threads + w.ended < w.pool.worker_count
        → Step w (after_wakeup w (worker_loop w.pool))
    finishes : 0 < w.pool.busy_threads → Step w (record w { pool = task_done w.pool })

  abbrev pub initial : ℕ → ℕ → World A
  initial worker_count queue_capacity = record {
    pool = new_pool worker_count queue_capacity;
    accepted = [];
    started = [];
    ended = 0;
  }

  -- The states that a new pool can come to.
  pub data Reachable (worker_count queue_capacity : ℕ) : World A → Type ℓ where
    start : Reachable worker_count queue_capacity (initial worker_count queue_capacity)
    more :
        (w w' : World A)
        → Reachable worker_count queue_capacity w
        → Step w w'
        → Reachable worker_count queue_capacity w'
