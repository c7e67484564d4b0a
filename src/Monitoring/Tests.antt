-- ===== src/Monitoring/Tests.antt =====
-- The counters on short runs.
use io_t_delivery_fleet_moni.Prelude.{List, [], ◌∷◌, arith, refl}
use io_t_delivery_fleet_moni.Monitoring.Metrics.{
  Event, opened, closed, started, completed, misparsed, new_metrics, record_event, record_events,
  connection_opened, connection_closed, request_started, request_completed, parse_error,
}
use io_t_delivery_fleet_moni.Monitoring.Metrics.Counters.{IsTallied, record_events-IsTallied}
use io_t_delivery_fleet_moni.Monitoring.Metrics.Histogram.{IsCumulative, record_events-IsCumulative}

abbrev calls : List Event
calls =
    opened 0
    ∷ started 0
    ∷ completed 200 7000000 0
    ∷ started 0
    ∷ completed 429 30000000000 0
    ∷ misparsed
    ∷ closed
    ∷ []

record_events-IsTallied_example : IsTallied 1 0 calls new_metrics (record_events calls new_metrics)
record_events-IsTallied_example =
    record_events-IsTallied 1 0 calls new_metrics (omega arith) refl (omega arith)

record_events-IsCumulative_example :
    IsCumulative
      (record_events calls new_metrics).duration_bucket_counts
      (record_events calls new_metrics).duration_observations
unfolding record_events record_event connection_opened connection_closed request_started
    request_completed parse_error
record_events-IsCumulative_example = record_events-IsCumulative calls (omega arith)
