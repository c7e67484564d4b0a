-- ===== src/Gateway/Tests.antt =====
-- The gateway's answers on short requests, with a log of one segment without entries.
use io_t_delivery_fleet_moni.Prelude.{
  ◌≡◌, refl, [], ◌∷◌, ◌++◌, none, some, true, replicate, ltb, if◌then◌else◌, codes, to_string,
  digits_from, arith,
}
use io_t_delivery_fleet_moni.Http.Parser.{HttpRequest}
use io_t_delivery_fleet_moni.Http.Response.{response}
use io_t_delivery_fleet_moni.Monitoring.Metrics.{new_metrics}
use io_t_delivery_fleet_moni.Storage.Circular.History.{empty-Holds}
use io_t_delivery_fleet_moni.Storage.Log.{LogCalls, MemoryMappedLog}
use io_t_delivery_fleet_moni.Storage.Open.{blank}
use io_t_delivery_fleet_moni.Storage.History.{Represents, files_of, index_of}
use io_t_delivery_fleet_moni.Storage.History.RollOver.{IsUp}
use io_t_delivery_fleet_moni.Storage.History.Append.{mapping_of}
use io_t_delivery_fleet_moni.Storage.History.Grow.{grow}
use io_t_delivery_fleet_moni.Gateway.Utf8.{is_utf8}
use io_t_delivery_fleet_moni.Gateway.Json.{json_escape, read_json_string}
use io_t_delivery_fleet_moni.Gateway.Json.RoundTrip.{read_json_string-json_escape}
use io_t_delivery_fleet_moni.Gateway.Recent.{json_response, recent_count}
use io_t_delivery_fleet_moni.Gateway.Recent.Count.{recent_count-to_string}
use io_t_delivery_fleet_moni.Gateway.Routes.{Gateway, recent, publish}
use io_t_delivery_fleet_moni.Gateway.Routes.Publishing.{json_array, last_messages, publish-recent}

-- A quotation mark, a control byte, and a letter of two bytes.
read_json_string-json_escape_example :
    read_json_string (json_escape (34 ∷ 1 ∷ 195 ∷ 164 ∷ []))
    ≡ (if is_utf8 (34 ∷ 1 ∷ 195 ∷ 164 ∷ []) then some (34 ∷ 1 ∷ 195 ∷ 164 ∷ []) else none)
read_json_string-json_escape_example = read_json_string-json_escape (34 ∷ 1 ∷ 195 ∷ 164 ∷ [])

recent_count-to_string_example :
    recent_count (codes "count=" ++ to_string 1001) ≡ (if ltb 1000 1001 then none else some 1001)
recent_count-to_string_example = recent_count-to_string 1001 (omega arith)

abbrev empty_log : MemoryMappedLog
empty_log = record {
  directory = files_of 128 1 0 ([] ∷ []);
  segment_size = 128;
  next_message_offset = 0;
  active = mapping_of 128 [] [];
  segment_index = index_of 1 0 ([] ∷ []);
  recent_cache = record { entries = replicate 2 blank; write_index = 0; count = 0 };
  opened = true;
}

empty_log-Represents : Represents 2 [] [] empty_log
empty_log-Represents = record {
  opened = refl;
  large = omega arith;
  small = omega arith;
  directory = refl;
  index = refl;
  active = refl;
  offset = refl;
  offset_small = omega arith;
  count = omega arith;
  storable = (omega arith, tt, tt);
  cache = empty-Holds blank 2 (omega arith) (omega arith);
}

abbrev all_up : LogCalls
all_up = record {
  msync_ok = true;
  munmap_ok = true;
  fsync_ok = true;
  close_ok = true;
  open_ok = true;
  ftruncate_ok = true;
  mmap_ok = true;
  header_sync_ok = true;
  directory_open_ok = true;
  directory_fsync_ok = true;
  cleanup_munmap_ok = true;
  cleanup_close_ok = true;
}

all_up-IsUp : IsUp all_up
all_up-IsUp = record {
  msync = refl;
  munmap = refl;
  fsync = refl;
  close = refl;
  opens = refl;
  ftruncate = refl;
  mmap = refl;
  header_sync = refl;
  directory_open = refl;
  directory_fsync = refl;
}

abbrev gateway : Gateway
gateway = record {
  storage_log = empty_log;
  log_calls = all_up;
  clock = 5000;
  metrics = new_metrics;
  worker_count = 2;
  busy_threads = 0;
  queue_length = 0;
  queue_high_water = 0;
  duration_sum_text = codes "0";
  uptime_text = codes "1.5";
}

abbrev post : HttpRequest
post = record {
  method = codes "POST";
  path = codes "/publish";
  query = [];
  headers = [];
  body = codes "t=21";
}

abbrev ask : HttpRequest
ask = record {
  method = codes "GET";
  path = codes "/recent";
  query = codes "count=1";
  headers = [];
  body = [];
}

publish-recent_example :
    ((publish post gateway).0 ≡ some (response 201 (codes "Created") (to_string 0)))
    × ((recent ask (publish post gateway).1).0
        ≡ some (
            json_response (
              json_array (
                last_messages 2 1
                  (grow 128 [] [] (record { timestamp = 5000; payload = codes "t=21" }))))))
unfolding to_string digits_from
publish-recent_example =
    publish-recent 2 [] [] gateway empty_log-Represents all_up-IsUp (omega arith) (omega arith) post
      refl (omega arith) (omega arith) (omega arith) 1 ask (omega arith) refl
