-- ===== src/Monitoring/Metrics/Histogram.antt =====
-- monitoring/metrics.cpp: the buckets of the duration histogram.
use io_t_delivery_fleet_moni.Prelude.{
  ℕ, ◌+◌, ◌^◌, ◌<◌, ◌≤◌, ◌≡◌, refl, ap, ap₂, ◌∙◌, List, [], ◌∷◌, ◌++◌, leb, if◌then◌else◌, length,
  map, u64, length-append, arith,
}
use io_t_delivery_fleet_moni.Monitoring.Metrics.{
  Metrics, duration_buckets, new_metrics, count_in_buckets, Event, opened, closed, started,
  completed, queue_sized, misparsed, connection_opened, connection_closed, request_started,
  request_completed, completion_queue_size, parse_error, record_event, record_events,
}

-- How many durations are within a bound.
at_most : ℕ → List ℕ → ℕ
at_most bound [] = 0
at_most bound (d ∷ ds) = (if leb d bound then 1 else 0) + at_most bound ds

at_most-snoc :
    (bound d : ℕ) (ds : List ℕ)
    → at_most bound (ds ++ (d ∷ [])) ≡ at_most bound ds + (if leb d bound then 1 else 0)
unfolding at_most
at_most-snoc bound d [] = omega arith
at_most-snoc bound d (x ∷ ds) = omega (arith, at_most-snoc bound d ds)

at_most_mono : (low high : ℕ) (ds : List ℕ) → low ≤ high → at_most low ds ≤ at_most high ds
unfolding at_most
at_most_mono low high [] h = omega arith
at_most_mono low high (d ∷ ds) h = ground (arith, h, at_most_mono low high ds h)

at_most-length : (bound : ℕ) (ds : List ℕ) → at_most bound ds ≤ length ds
unfolding at_most
at_most-length bound [] = omega arith
at_most-length bound (d ∷ ds) = ground (arith, at_most-length bound ds)

abbrev expected : List ℕ → List ℕ → List ℕ
expected bounds ds = map (λ bound. u64 (at_most bound ds)) bounds

count_in_buckets-expected :
    (d : ℕ) (bounds ds : List ℕ)
    → count_in_buckets d bounds (expected bounds ds) ≡ expected bounds (ds ++ (d ∷ []))
unfolding count_in_buckets
count_in_buckets-expected d [] ds = refl
count_in_buckets-expected d (bound ∷ bounds) ds =
    ap₂ ◌∷◌ (ground (arith, at_most-snoc bound d ds)) (count_in_buckets-expected d bounds ds)

-- Each count is of the durations within its bound.
record IsHistogram (m : Metrics) : Type 0 where
  observed : m.duration_observations ≡ u64 (length m.duration_sum)
  counts : m.duration_bucket_counts ≡ expected duration_buckets m.duration_sum

record_event-IsHistogram :
    (e : Event) (m : Metrics) → IsHistogram m → IsHistogram (record_event e m)
unfolding record_event connection_opened connection_closed request_started request_completed
    completion_queue_size parse_error
record_event-IsHistogram (opened worker_id) m v = record {
  observed = v.observed;
  counts = v.counts;
}
record_event-IsHistogram closed m v = record { observed = v.observed; counts = v.counts }
record_event-IsHistogram (started worker_id) m v = record {
  observed = v.observed;
  counts = v.counts;
}
record_event-IsHistogram (completed status_code elapsed worker_id) m v = record {
  observed = omega (arith, v.observed, length-append m.duration_sum (elapsed ∷ []));
  counts =
      ap (count_in_buckets elapsed duration_buckets) v.counts
      ∙ count_in_buckets-expected elapsed duration_buckets m.duration_sum;
}
record_event-IsHistogram (queue_sized worker_id size) m v = record {
  observed = v.observed;
  counts = v.counts;
}
record_event-IsHistogram misparsed m v = record { observed = v.observed; counts = v.counts }

record_events-IsHistogram :
    (es : List Event) (m : Metrics) → IsHistogram m → IsHistogram (record_events es m)
unfolding record_events
record_events-IsHistogram [] m v = v
record_events-IsHistogram (e ∷ es) m v =
    record_events-IsHistogram es (record_event e m) (record_event-IsHistogram e m v)

-- The counts do not decrease and do not pass the number of observations.
abbrev pub IsCumulative : List ℕ → ℕ → Type 0
IsCumulative [] total = Unit {0}
IsCumulative (n ∷ []) total = n ≤ total
IsCumulative (n ∷ (n' ∷ ns)) total = (n ≤ n') × IsCumulative (n' ∷ ns) total

expected-IsCumulative :
    (bounds ds : List ℕ) (total : ℕ)
    → IsCumulative bounds total
    → length ds < 2 ^ 64
    → IsCumulative (expected bounds ds) (u64 (length ds))
expected-IsCumulative [] ds total h small = tt
expected-IsCumulative (b ∷ []) ds total h small = omega (arith, at_most-length b ds, small)
expected-IsCumulative (b ∷ (b' ∷ bounds)) ds total h small = (
  omega (arith, at_most_mono b b' ds h.0, at_most-length b ds, at_most-length b' ds, small),
  expected-IsCumulative (b' ∷ bounds) ds total h.1 small,
)

-- From new metrics, after any calls with fewer than 2 ^ 64 completed requests, the buckets are
-- cumulative: each counts no more requests than the next, and the last no more than all.
pub record_events-IsCumulative :
    (es : List Event)
    → length (record_events es new_metrics).duration_sum < 2 ^ 64
    → IsCumulative
        (record_events es new_metrics).duration_bucket_counts
        (record_events es new_metrics).duration_observations
unfolding at_most
record_events-IsCumulative es small =
    let m = record_events es new_metrics in
    let v = record_events-IsHistogram es new_metrics fresh in
    rw (v.observed, v.counts)
      (expected-IsCumulative duration_buckets m.duration_sum 10000000000 ascending small)
  where
    fresh : IsHistogram new_metrics
    fresh = record { observed = refl; counts = refl }

    ascending : IsCumulative duration_buckets 10000000000
    ascending = ground arith
