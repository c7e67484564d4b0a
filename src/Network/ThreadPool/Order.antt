-- ===== src/Network/ThreadPool/Order.antt =====
-- Every task that the pool accepts is started, in order, and none is left behind by a shutdown.
use io_t_delivery_fleet_moni.Prelude.{
  ℕ, ◌+◌, ◌≤◌, ◌<◌, ◌≡◌, refl, ap, sym, ◌∙◌, List, [], ◌∷◌, ◌++◌, true, ◌||◌, leb, length,
  append_assoc, length-append, arith, inl, inr, Bool-cases,
}
use io_t_delivery_fleet_moni.Network.ThreadPool.{
  submit, begin_shutdown, wakeup, worker_loop, World, after_submit, after_wakeup, Step, submits,
  shuts_down, wakes, finishes, Reachable, start, more,
}

module _ {ℓ} {A : Type ℓ} where
  pub record IsOrderly (worker_count queue_capacity : ℕ) (w : World A) : Type ℓ where
    pub capacity : w.pool.queue_capacity ≡ queue_capacity
    pub workers : w.pool.busy_threads + w.ended ≤ worker_count
    pub count : w.pool.worker_count ≡ worker_count
    pub order : w.accepted ≡ w.started ++ w.pool.tasks
    pub bounded : length w.pool.tasks ≤ w.pool.queue_high_water
    pub high_water : w.pool.queue_high_water ≤ queue_capacity
    pub drained : 0 < w.ended → (w.pool.stopping ≡ true) × (length w.pool.tasks ≡ 0)

  module _ (worker_count queue_capacity : ℕ) (w : World A)
      (v : IsOrderly worker_count queue_capacity w) where
    submit-IsOrderly :
        (task : A)
        → IsOrderly worker_count queue_capacity (after_submit w task (submit w.pool task))
    unfolding submit
    submit-IsOrderly task =
        elim (Bool-cases (w.pool.stopping || leb w.pool.queue_capacity (length w.pool.tasks))) [
          | inl e ↦ rw e v
          | inr e ↦ rw e (record {
            capacity = v.capacity;
            workers = v.workers;
            count = v.count;
            order =
                ap (λ xs. xs ++ (task ∷ [])) v.order
                ∙ append_assoc w.started w.pool.tasks (task ∷ []);
            bounded = omega arith;
            high_water =
                ground (arith, e, v.capacity, v.high_water, length-append w.pool.tasks (task ∷ []));
            drained = λ h. absurd (ground (arith, e, (v.drained h).0));
          })
        ]

    wakeup-IsOrderly :
        (tasks : List A)
        → w.pool.tasks ≡ tasks
        → w.pool.busy_threads + w.ended < w.pool.worker_count
        → IsOrderly worker_count queue_capacity (after_wakeup w (wakeup w.pool tasks))
    wakeup-IsOrderly [] none_left idle = elim (Bool-cases w.pool.stopping) [
      | inl e ↦ simp e (record {
        capacity = v.capacity;
        workers = omega (arith, idle, v.count);
        count = v.count;
        order = v.order;
        bounded = v.bounded;
        high_water = v.high_water;
        drained = λ _. (e, ap length none_left);
      })
      | inr e ↦ simp e v
    ]
    wakeup-IsOrderly (task ∷ tasks) next idle = record {
      capacity = v.capacity;
      workers = omega (arith, idle, v.count);
      count = v.count;
      order = v.order ∙ ap (◌++◌ w.started) next ∙ sym (append_assoc w.started (task ∷ []) tasks);
      bounded = omega (arith, v.bounded, ap length next);
      high_water = v.high_water;
      drained = λ h. absurd (omega (arith, (v.drained h).1, ap length next));
    }

  Step-IsOrderly :
      (worker_count queue_capacity : ℕ) (w w' : World A)
      → IsOrderly worker_count queue_capacity w
      → Step w w'
      → IsOrderly worker_count queue_capacity w'
  unfolding worker_loop begin_shutdown
  Step-IsOrderly n c w w' v (submits task) = submit-IsOrderly n c w v task
  Step-IsOrderly n c w w' v shuts_down = record {
    capacity = v.capacity;
    workers = v.workers;
    count = v.count;
    order = v.order;
    bounded = v.bounded;
    high_water = v.high_water;
    drained = λ h. (refl, (v.drained h).1);
  }
  Step-IsOrderly n c w w' v (wakes idle) = wakeup-IsOrderly n c w v w.pool.tasks refl idle
  Step-IsOrderly n c w w' v (finishes busy) = record {
    capacity = v.capacity;
    workers = omega (arith, v.workers);
    count = v.count;
    order = v.order;
    bounded = v.bounded;
    high_water = v.high_water;
    drained = v.drained;
  }

  -- In every interleaving of submissions, shutdown and workers: the tasks that were accepted are
  -- those that were started, in the order of acceptance, followed by those in the queue; the queue
  -- is never longer than its high-water mark, nor that than the capacity; no more workers are busy
  -- or ended than there are; and once a worker has ended, the pool is stopping with an empty
  -- queue, so that every task accepted so far was started.
  pub Reachable-IsOrderly :
      (worker_count queue_capacity : ℕ) (w : World A)
      → Reachable worker_count queue_capacity w
      → IsOrderly worker_count queue_capacity w
  Reachable-IsOrderly n c w start = record {
    capacity = refl;
    workers = omega arith;
    count = refl;
    order = refl;
    bounded = omega arith;
    high_water = omega arith;
    drained = λ h. absurd (omega arith);
  }
  Reachable-IsOrderly n c w' (more w _ r s) =
      Step-IsOrderly n c w w' (Reachable-IsOrderly n c w r) s
