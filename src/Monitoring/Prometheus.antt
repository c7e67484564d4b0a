-- ===== src/Monitoring/Prometheus.antt =====
-- monitoring/metrics.cpp: `prometheus_text`. What an output stream prints for the two doubles, the
-- sum of the durations and the time since the start, is given to it.
use io_t_delivery_fleet_moni.Prelude.{ℕ, suc, ◌+◌, List, [], ◌∷◌, ◌++◌, take, codes, to_string}
use io_t_delivery_fleet_moni.Monitoring.Metrics.{EpollWorkerMetrics, Metrics, active_connections}

-- The arguments, and the texts of the doubles.
pub record Report : Type 0 where
  pub pool_workers : ℕ
  pub busy_threads : ℕ
  pub queue_length : ℕ
  pub log_disk_bytes : ℕ
  pub queue_high_water : ℕ
  pub duration_sum_text : List ℕ
  pub uptime : List ℕ

abbrev pub newline : List ℕ
newline = 10 ∷ []

abbrev pub header : List ℕ → List ℕ → List ℕ → List ℕ
header name help kind =
    codes "# HELP "
    ++ (name
        ++ (codes " "
            ++ (help
                ++ (newline ++ (codes "# TYPE " ++ (name ++ (codes " " ++ (kind ++ newline))))))))

abbrev pub sample : List ℕ → List ℕ → List ℕ
sample name value = name ++ (codes " " ++ (value ++ newline))

abbrev pub metric : List ℕ → List ℕ → List ℕ → List ℕ → List ℕ
metric name help kind value = header name help kind ++ sample name value

pub concatenated : List (List ℕ) → List ℕ
concatenated [] = []
concatenated (text ∷ texts) = text ++ concatenated texts

pub first_metrics : Metrics → List (List ℕ)
first_metrics m =
    metric (codes "gateway_connections_active") (codes "Current open client connections.")
      (codes "gauge") (to_string (active_connections m))
    ∷ metric (codes "gateway_connections_accepted_total")
        (codes "Client connections accepted since startup.") (codes "counter")
        (to_string m.accepted_connections)
    ∷ metric (codes "gateway_http_requests_total")
        (codes "Parsed HTTP requests sent to the router.") (codes "counter") (to_string m.requests)
    ∷ metric (codes "gateway_http_requests_blocked_total")
        (codes "Requests rejected by rate limiting.") (codes "counter")
        (to_string m.blocked_requests)
    ∷ metric (codes "gateway_http_parse_errors_total")
        (codes "Malformed HTTP requests rejected by the parser.") (codes "counter")
        (to_string m.parse_errors)
    ∷ []

-- A sample with one label.
abbrev pub labelled : List ℕ → List ℕ → List ℕ → List ℕ
labelled name label value = name ++ (label ++ (codes "\"} " ++ (value ++ newline)))

pub status_samples : ℕ → List ℕ → List ℕ
status_samples index [] = []
status_samples index (n ∷ ns) =
    labelled (codes "gateway_http_responses_total{status_class=\"")
      (to_string (index + 1) ++ codes "xx") (to_string n)
    ++ status_samples (suc index) ns

-- How the bounds are printed, with nine digits.
abbrev pub bound_texts : List (List ℕ)
bound_texts =
    codes "0.005"
    ∷ codes "0.01"
    ∷ codes "0.025"
    ∷ codes "0.05"
    ∷ codes "0.1"
    ∷ codes "0.25"
    ∷ codes "0.5"
    ∷ codes "1"
    ∷ codes "2.5"
    ∷ codes "5"
    ∷ codes "10"
    ∷ []

abbrev pub bucket_sample : List ℕ → ℕ → List ℕ
bucket_sample bound n =
    labelled (codes "gateway_http_request_duration_seconds_bucket{le=\"") bound (to_string n)

pub bucket_samples : List (List ℕ) → List ℕ → List ℕ
bucket_samples [] counts = []
bucket_samples (bound ∷ bounds) [] = []
bucket_samples (bound ∷ bounds) (n ∷ counts) = bucket_sample bound n ++ bucket_samples bounds counts

pub histogram_text : Metrics → List ℕ → List ℕ
histogram_text m sum_text =
    bucket_samples bound_texts m.duration_bucket_counts
    ++ (bucket_sample (codes "+Inf") m.duration_observations
        ++ (sample (codes "gateway_http_request_duration_seconds_sum") sum_text
            ++ sample (codes "gateway_http_request_duration_seconds_count")
                (to_string m.duration_observations)))

pub last_metrics : Report → List (List ℕ)
last_metrics report =
    metric (codes "process_uptime_seconds") (codes "Seconds since the gateway process started.")
      (codes "gauge") (report.uptime)
    ∷ metric (codes "gateway_thread_pool_workers") (codes "Configured request worker threads.")
        (codes "gauge") (to_string report.pool_workers)
    ∷ metric (codes "gateway_thread_pool_busy_threads")
        (codes "Request worker threads currently executing tasks.") (codes "gauge")
        (to_string report.busy_threads)
    ∷ metric (codes "gateway_thread_pool_queue_length") (codes "Queued request tasks.")
        (codes "gauge") (to_string report.queue_length)
    ∷ metric (codes "gateway_thread_pool_queue_high_water")
        (codes "Maximum shared request-pool queue depth since startup.") (codes "gauge")
        (to_string report.queue_high_water)
    ∷ metric (codes "gateway_log_disk_bytes")
        (codes "Provisioned bytes across pre-sized log segment files.") (codes "gauge")
        (to_string report.log_disk_bytes)
    ∷ []

abbrev pub worker_sample : List ℕ → ℕ → ℕ → List ℕ
worker_sample name worker_id n =
    labelled (codes "gateway_epoll_worker_" ++ (name ++ codes "{worker=\"")) (to_string worker_id)
      (to_string n)

pub worker_samples : ℕ → List EpollWorkerMetrics → List ℕ
worker_samples worker_id [] = []
worker_samples worker_id (w ∷ ws) =
    worker_sample (codes "connections_accepted_total") worker_id w.accepted_connections
    ++ (worker_sample (codes "requests_total") worker_id w.requests
        ++ (worker_sample (codes "requests_completed_total") worker_id w.completed_requests
            ++ (worker_sample (codes "completion_queue_depth") worker_id w.completion_queue_depth
                ++ (worker_sample (codes "completion_queue_high_water") worker_id
                      w.completion_queue_high_water
                    ++ worker_samples (suc worker_id) ws))))

unfoldable pub prometheus_text : Report → Metrics → List ℕ
prometheus_text report m =
    concatenated (first_metrics m)
    ++ (header (codes "gateway_http_responses_total") (codes "Responses grouped by status class.")
          (codes "counter")
        ++ (status_samples 0 m.response_status_classes
            ++ (header (codes "gateway_http_request_duration_seconds")
                  (codes "Request handling duration in seconds.") (codes "histogram")
                ++ (histogram_text m report.duration_sum_text
                    ++ (concatenated (last_metrics report)
                        ++ worker_samples 0 (take m.epoll_worker_count m.epoll_workers))))))
