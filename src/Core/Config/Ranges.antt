-- ===== src/Core/Config/Ranges.antt =====
-- core/config.cpp: what holds of every configuration that the program starts with.
use io_t_delivery_fleet_moni.Prelude.{
  ℕ, ◌≤◌, ◌≡◌, refl, subst, List, [], Option, true, false, not, ◌||◌, ltb, ◌==◌, if-cases, arith,
}
use io_t_delivery_fleet_moni.Http.Text.{is_empty}
use io_t_delivery_fleet_moni.Core.Config.{
  ℤ, pos, negsuc, Streams, Outcome, returned, thrown, then_do, Config, in_range, is_positive,
  validate, config_path, initial_config, apply_arguments, from_args,
}

module _ (streams : Streams) where
  pub record IsValid (c : Config streams) : Type 0 where
    pub port_range : (n : ℕ) × (c.port ≡ pos n) × (1 ≤ n) × (n ≤ 65535)
    pub backlog_range : (n : ℕ) × (c.backlog ≡ pos n) × (1 ≤ n)
    pub epoll_workers : c.epoll_worker_count ≤ 256
    pub pool_threads : (1 ≤ c.thread_pool_size) × (c.thread_pool_size ≤ 256)
    pub queue_capacity : (1 ≤ c.task_queue_capacity) × (c.task_queue_capacity ≤ 1048576)
    pub limit_capacity :
        (streams.is_finite c.rate_limit_capacity ≡ true)
        × (streams.less c.rate_limit_capacity streams.one_double ≡ false)
    pub limit_refill :
        (streams.is_finite c.rate_limit_refill_rate ≡ true)
        × (streams.less c.rate_limit_refill_rate streams.zero_double ≡ false)
    pub directory : is_empty c.storage_directory ≡ false
    pub segment_size : (73 ≤ c.storage_segment_size) × (c.storage_segment_size ≤ 1073741824)
    pub recent_capacity : (1 ≤ c.recent_message_capacity) × (c.recent_message_capacity ≤ 1048576)

  abbrev IsSafe : Outcome (Config streams) → Type 0
  IsSafe o = (c : Config streams) → o ≡ returned c → IsValid c

  port-range :
      (port : ℤ)
      → not (in_range streams 1 65535 port) ≡ false
      → (n : ℕ) × (port ≡ pos n) × (1 ≤ n) × (n ≤ 65535)
  port-range (pos n) e = (n, refl, ground (arith, e), ground (arith, e))
  port-range (negsuc n) e = absurd (ground (arith, e))

  positive-range :
      (backlog : ℤ)
      → not (is_positive streams backlog) ≡ false
      → (n : ℕ) × (backlog ≡ pos n) × (1 ≤ n)
  positive-range (pos n) e = (n, refl, ground (arith, e))
  positive-range (negsuc n) e = absurd (ground (arith, e))

  same-IsValid : (c c' : Config streams) → IsValid c → returned c ≡ returned c' → IsValid c'
  same-IsValid c c' v e = subst IsValid (same_value e) v
    where
      same_value : Outcome.returned c ≡ returned c' → c ≡ c'
      same_value h = cc

  validate-IsSafe : (config : Config streams) → IsSafe (validate streams config)
  unfolding validate
  validate-IsSafe config =
      if-cases IsSafe (not (in_range streams 1 65535 config.port)) (λ _ c no. cc)
        λ e₁.
          if-cases IsSafe (not (is_positive streams config.backlog)) (λ _ c no. cc)
            λ e₂.
              if-cases IsSafe (ltb 256 config.epoll_worker_count) (λ _ c no. cc)
                λ e₃.
                  if-cases IsSafe (ltb config.thread_pool_size 1 || ltb 256 config.thread_pool_size)
                    (λ _ c no. cc)
                    λ e₄.
                      if-cases IsSafe
                        (ltb config.task_queue_capacity 1 || ltb 1048576 config.task_queue_capacity)
                        (λ _ c no. cc)
                        λ e₅.
                          if-cases IsSafe
                            (not (streams.is_finite config.rate_limit_capacity)
                              || streams.less config.rate_limit_capacity streams.one_double)
                            (λ _ c no. cc)
                            λ e₆.
                              if-cases IsSafe
                                (not (streams.is_finite config.rate_limit_refill_rate)
                                  || streams.less config.rate_limit_refill_rate streams.zero_double)
                                (λ _ c no. cc)
                                λ e₇.
                                  if-cases IsSafe (is_empty config.storage_directory) (λ _ c no. cc)
                                    λ e₈.
                                      if-cases IsSafe
                                        (ltb config.storage_segment_size 73
                                          || ltb 1073741824 config.storage_segment_size)
                                        (λ _ c no. cc)
                                        λ e₉.
                                          if-cases IsSafe
                                            (config.recent_message_capacity == 0
                                              || ltb 1048576 config.recent_message_capacity)
                                            (λ _ c no. cc)
                                            λ e₁₀ c e.
                                              same-IsValid config c
                                                (record {
                                                  port_range = port-range config.port e₁;
                                                  backlog_range = positive-range config.backlog e₂;
                                                  epoll_workers = ground (arith, e₃);
                                                  pool_threads = ground (arith, e₄);
                                                  queue_capacity = ground (arith, e₅);
                                                  limit_capacity = ground (arith, e₆);
                                                  limit_refill = ground (arith, e₇);
                                                  directory = e₈;
                                                  segment_size = ground (arith, e₉);
                                                  recent_capacity = ground (arith, e₁₀);
                                                })
                                                e

  then_do-IsSafe :
      {A : Type 0} (o : Outcome A) (k : A → Outcome (Config streams))
      → ((a : A) → IsSafe (k a))
      → IsSafe (then_do o k)
  then_do-IsSafe (returned a) k safe = safe a
  then_do-IsSafe (thrown e) k safe = λ c no. cc

  -- Every configuration that `from_args` returns, from whatever arguments and files, is in range:
  -- the port, the numbers of workers and threads, the capacities, the rates, and a segment size
  -- that has room for a record.
  pub from_args-IsValid :
      (files : List ℕ → Option (List ℕ)) (arguments : List (List ℕ)) (c : Config streams)
      → from_args streams files arguments ≡ returned c
      → IsValid c
  unfolding from_args
  from_args-IsValid files arguments =
      then_do-IsSafe (config_path streams arguments [])
        (λ path.
          then_do (initial_config streams files path)
            λ config. then_do (apply_arguments streams arguments config) (validate streams))
        λ path.
          then_do-IsSafe (initial_config streams files path)
            (λ config. then_do (apply_arguments streams arguments config) (validate streams))
            λ config.
              then_do-IsSafe (apply_arguments streams arguments config) (validate streams)
                (validate-IsSafe)
