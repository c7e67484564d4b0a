-- ===== src/Gateway/Recent.antt =====
-- network/tcp_server.cpp: `recent_messages_json` and `recent_messages_response`.
pub mod Count
use io_t_delivery_fleet_moni.Prelude.{
  ℕ, List, [], ◌∷◌, ◌++◌, Option, none, some, Bool, true, false, not, ◌||◌, ltb, if◌then◌else◌,
  drop, codes, to_string,
}
use io_t_delivery_fleet_moni.Http.Text.{starts_with, find, is_found, is_empty, from_chars}
use io_t_delivery_fleet_moni.Http.Parser.{HttpRequest}
use io_t_delivery_fleet_moni.Http.Response.{HttpResponse, response}
use io_t_delivery_fleet_moni.Storage.Format.{Message}
use io_t_delivery_fleet_moni.Storage.Log.{MemoryMappedLog, recent_messages}
use io_t_delivery_fleet_moni.Gateway.Json.{json_escape}

abbrev pub message_json : Message → List ℕ
message_json m =
    codes "{\"offset\":"
    ++ (to_string m.offset
        ++ (codes ",\"timestamp_ns\":"
            ++ (to_string m.timestamp_ns
                ++ (codes ",\"payload_length\":"
                    ++ (to_string m.payload_length
                        ++ (codes ",\"payload\":\"" ++ (json_escape m.payload ++ codes "\"}")))))))

-- The loop over the messages, with `first`.
unfoldable pub messages_json : Bool → List Message → List ℕ
messages_json first [] = []
messages_json first (m ∷ messages) =
    (if first then [] else codes ",") ++ (message_json m ++ messages_json false messages)

-- `none` where the storage reads outside its cache.
abbrev pub json_of : Option (List Message) → Option (List ℕ)
json_of none = none
json_of (some messages) = some (codes "[" ++ (messages_json true messages ++ codes "]"))

unfoldable pub recent_messages_json : MemoryMappedLog → ℕ → Option (List ℕ)
recent_messages_json log count = json_of (recent_messages log count)

abbrev pub default_count : ℕ
default_count = 100

abbrev pub maximum_count : ℕ
maximum_count = 1000

abbrev pub invalid_query : HttpResponse
invalid_query = response 400 (codes "Bad Request") (codes "Invalid recent count query")

abbrev pub json_response : List ℕ → HttpResponse
json_response body = record {
  status_code = 200;
  reason = codes "OK";
  headers = (codes "Content-Type", codes "application/json") ∷ [];
  body = body;
}

abbrev pub checked_count : Option ℕ → Option ℕ
checked_count none = none
checked_count (some count) = if ltb maximum_count count then none else some count

-- The count that a query asks for; `none` if the query is invalid.
unfoldable pub recent_count : List ℕ → Option ℕ
recent_count query =
    let value = drop 6 query in
    if is_empty query
    then some default_count
    else if not (starts_with (codes "count=") query) || is_found (find (38 ∷ []) query)
    then none
    else if is_empty value
    then none
    else checked_count (from_chars value)

abbrev pub json_answer : Option (List ℕ) → Option HttpResponse
json_answer none = none
json_answer (some body) = some (json_response body)

abbrev pub count_response : MemoryMappedLog → Option ℕ → Option HttpResponse
count_response log none = some invalid_query
count_response log (some count) = json_answer (recent_messages_json log count)

unfoldable pub recent_messages_response : MemoryMappedLog → HttpRequest → Option HttpResponse
recent_messages_response log request = count_response log (recent_count request.query)
