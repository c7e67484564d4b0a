-- ===== src/Gateway/Routes.antt =====
-- main.cpp: the handlers of the routes, and their registration. A handler returns `none` when it
-- throws.
pub mod Publishing
use io_t_delivery_fleet_moni.Prelude.{
  ℕ, ◌*◌, List, [], ◌∷◌, ◌++◌, Option, none, some, Bool, true, false, if◌then◌else◌, replicate,
  codes, to_string,
}
use io_t_delivery_fleet_moni.Http.Text.{is_empty}
use io_t_delivery_fleet_moni.Http.Parser.{HttpRequest}
use io_t_delivery_fleet_moni.Http.Response.{HttpResponse, response}
use io_t_delivery_fleet_moni.Http.Router.{Handler}
use io_t_delivery_fleet_moni.Http.Router.Routes.{Registration}
use io_t_delivery_fleet_moni.Monitoring.Metrics.{Metrics, active_connections}
use io_t_delivery_fleet_moni.Monitoring.Prometheus.{Report, prometheus_text}
use io_t_delivery_fleet_moni.Storage.Format.{Result, ok, err}
use io_t_delivery_fleet_moni.Storage.Log.{LogCalls, MemoryMappedLog, Ran, append, disk_usage_bytes}
use io_t_delivery_fleet_moni.Security.RateLimiter.{Doubles}
use io_t_delivery_fleet_moni.Gateway.Json
use io_t_delivery_fleet_moni.Gateway.Recent.{recent_messages_response}

-- What the handlers read of the server: the log with what its system calls and the clock return,
-- the metrics, the pool's statistics, and the texts of the two doubles.
pub record Gateway : Type 0 where
  pub storage_log : MemoryMappedLog
  pub log_calls : LogCalls
  pub clock : ℕ
  pub metrics : Metrics
  pub worker_count : ℕ
  pub busy_threads : ℕ
  pub queue_length : ℕ
  pub queue_high_water : ℕ
  pub duration_sum_text : List ℕ
  pub uptime_text : List ℕ

abbrev pub typed_response : List ℕ → List ℕ → HttpResponse
typed_response content_type body = record {
  status_code = 200;
  reason = codes "OK";
  headers = (codes "Content-Type", content_type) ∷ [];
  body = body;
}

pub health : Handler Gateway
health request g =
    (some (typed_response (codes "application/json") (codes "{\"status\":\"ok\"}")), g)

pub connections : Handler Gateway
connections request g = (
  some (
      typed_response (codes "application/json")
        (codes "{\"connections\":" ++ (to_string (active_connections g.metrics) ++ codes "}"))),
  g,
)

-- `TCPServer::metrics_text`; the disk usage is asked of the file system, and may throw.
abbrev pub report_of : Gateway → ℕ → Report
report_of g log_disk_bytes = record {
  pool_workers = g.worker_count;
  busy_threads = g.busy_threads;
  queue_length = g.queue_length;
  log_disk_bytes = log_disk_bytes;
  queue_high_water = g.queue_high_water;
  duration_sum_text = g.duration_sum_text;
  uptime = g.uptime_text;
}

abbrev pub metrics_of : Gateway → Result ℕ → Option (List ℕ)
metrics_of g (err e) = none
metrics_of g (ok log_disk_bytes) = some (prometheus_text (report_of g log_disk_bytes) g.metrics)

pub metrics_text : Gateway → Option (List ℕ)
metrics_text g = metrics_of g (disk_usage_bytes g.storage_log)

abbrev pub metrics_response : Option (List ℕ) → Option HttpResponse
metrics_response none = none
metrics_response (some text) =
    some (typed_response (codes "text/plain; version=0.0.4; charset=utf-8") text)

pub metrics_route : Handler Gateway
metrics_route request g = (metrics_response (metrics_text g), g)

unfoldable pub recent : Handler Gateway
recent request g = (recent_messages_response g.storage_log request, g)

-- `append_message`, and the answer of the handler.
abbrev pub published : Gateway → Ran ℕ → Option HttpResponse × Gateway
published g (err e, log) = (none, record g { storage_log = log })
published g (ok offset, log) =
    (some (response 201 (codes "Created") (to_string offset)), record g { storage_log = log })

abbrev pub body_required : HttpResponse
body_required = response 400 (codes "Bad Request") (codes "Request body is required")

unfoldable pub publish : Handler Gateway
publish request g =
    let done = published g (append g.log_calls g.clock request.body g.storage_log) in
    if is_empty request.body then (some body_required, g) else done

pub large_response : Handler Gateway
large_response request g = (some (response 200 (codes "OK") (replicate (512 * 1024) 120)), g)

-- The handler sleeps for a while.
pub hold : Handler Gateway
hold request g = (some (response 200 (codes "OK") (codes "held")), g)

module _ (d : Doubles) where
  abbrev pub handles : List ℕ → List ℕ → Handler Gateway → Registration Gateway d
  handles method path handler = record { method = method; path = path; handler = handler }

  -- The registrations of `main`, in order; the last one only in test mode.
  pub routes : Bool → List (Registration Gateway d)
  routes test_mode =
      handles (codes "GET") (codes "/health") health
      ∷ handles (codes "GET") (codes "/connections") connections
      ∷ handles (codes "GET") (codes "/metrics") metrics_route
      ∷ handles (codes "GET") (codes "/recent") recent
      ∷ handles (codes "POST") (codes "/publish") publish
      ∷ handles (codes "GET") (codes "/large-response") large_response
      ∷ (if test_mode then handles (codes "GET") (codes "/test/hold") hold ∷ [] else [])
