-- ===== src/Gateway/Routes/Publishing.antt =====
-- main.cpp, tcp_server.cpp and mmap_log.cpp together: what is published is what is read back.
use io_t_delivery_fleet_moni.Prelude.{
  ℕ, suc, ◌+◌, ◌-◌, ◌^◌, ◌≤◌, ◌<◌, ◌≡◌, refl, ap, ◌∙◌, List, [], ◌∷◌, ◌++◌, some, true, false,
  length, min, drop, codes, to_string, arith,
}
use io_t_delivery_fleet_moni.Http.Text.{is_empty}
use io_t_delivery_fleet_moni.Http.Parser.{HttpRequest}
use io_t_delivery_fleet_moni.Http.Response.{response}
use io_t_delivery_fleet_moni.Storage.Codec.{segment_header_size, maximum_segment_id}
use io_t_delivery_fleet_moni.Storage.Format.{Message, ok}
use io_t_delivery_fleet_moni.Storage.Scan.Records.{Entry, total, record_size}
use io_t_delivery_fleet_moni.Storage.Log.{append, Ran}
use io_t_delivery_fleet_moni.Storage.History.{History, Represents, messages_of, size_of}
use io_t_delivery_fleet_moni.Storage.History.RollOver.{IsUp}
use io_t_delivery_fleet_moni.Storage.History.Grow.{grow, append-Represents}
use io_t_delivery_fleet_moni.Storage.History.Views.{recent_messages-Represents}
use io_t_delivery_fleet_moni.Gateway.Recent.{
  messages_json, json_of, json_answer, json_response, recent_messages_json, count_response,
  recent_messages_response, recent_count,
}
use io_t_delivery_fleet_moni.Gateway.Recent.Count.{recent_count-to_string}
use io_t_delivery_fleet_moni.Gateway.Routes.{Gateway, recent, published, publish}

-- The JSON text of messages.
abbrev pub json_array : List Message → List ℕ
json_array messages = codes "[" ++ (messages_json true messages ++ codes "]")

-- The last messages of a history: `count` of them, or as many as the cache keeps.
abbrev pub last_messages : ℕ → ℕ → History × List Entry → List Message
last_messages c count h =
    let messages = messages_of 0 (h.0 ++ (h.1 ∷ [])) in
    drop (length messages - min count c) messages

-- A query for a count that is allowed gets the last messages of the log's history.
recent-last :
    (c count : ℕ) (h : History × List Entry) (g : Gateway) (query : HttpRequest)
    → Represents c h.0 h.1 g.storage_log
    → count ≤ 1000
    → query.query ≡ codes "count=" ++ to_string count
    → (recent query g).0 ≡ some (json_response (json_array (last_messages c count h)))
unfolding recent recent_messages_response recent_messages_json
recent-last c count h g query v allowed asked =
    let counted : recent_count (codes "count=" ++ to_string count) ≡ some count =
      ground (arith, allowed, recent_count-to_string count (omega arith)) in
    ap (λ q. count_response g.storage_log (recent_count q)) asked
    ∙ (ap (count_response g.storage_log) counted
        ∙ ap (λ m. json_answer (json_of m))
            (recent_messages-Represents c count h.0 h.1 g.storage_log v))

module _ (c : ℕ) (front : History) (last : List Entry) (g : Gateway)
    (v : Represents c front last g.storage_log) (up : IsUp g.log_calls)
    (more : suc (length front) < maximum_segment_id) (timely : g.clock < 2 ^ 64)
    (request : HttpRequest) (has_body : is_empty request.body ≡ false)
    (short : length request.body < 2 ^ 32)
    (offset_room : size_of front
        + total last
        + record_size (record { timestamp = g.clock; payload = request.body })
      < 2 ^ 64)
    (fits : segment_header_size
        + record_size (record { timestamp = g.clock; payload = request.body })
      ≤ g.storage_log.segment_size) where
  abbrev new_entry : Entry
  new_entry = record { timestamp = g.clock; payload = request.body }

  published-ok :
      (r : Ran ℕ) (offset : ℕ)
      → r.0 ≡ ok offset
      → published g r
        ≡ (some (response 201 (codes "Created") (to_string offset)), record g { storage_log = r.1 })
  published-ok (r, log) offset e = rw e refl

  -- A request with a body that is published, when the system calls succeed and the entry fits, is
  -- answered with 201 and its offset; and a query for up to 1000 messages then gets the JSON of
  -- the last messages of the whole history, the new one at its end.
  pub publish-recent :
      (count : ℕ) (query : HttpRequest)
      → count ≤ 1000
      → query.query ≡ codes "count=" ++ to_string count
      → let h = grow g.storage_log.segment_size front last new_entry in
        let r = publish request g in
        (r.0 ≡ some (response 201 (codes "Created") (to_string (size_of front + total last))))
        × ((recent query r.1).0 ≡ some (json_response (json_array (last_messages c count h))))
  unfolding publish
  publish-recent count query allowed asked =
      let appended =
        append-Represents c front last g.storage_log g.log_calls new_entry v up more timely short
          offset_room fits in
      let out = append g.log_calls g.clock request.body g.storage_log in
      let done = published-ok out (size_of front + total last) appended.0 in
      let h = grow g.storage_log.segment_size front last new_entry in
      let g' : Gateway = record g { storage_log = out.1 } in
      rw (has_body, done) (refl, recent-last c count h g' query appended.1 allowed asked)
