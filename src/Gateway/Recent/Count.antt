-- ===== src/Gateway/Recent/Count.antt =====
-- network/tcp_server.cpp: which counts a query of recent messages may ask for.
use io_t_delivery_fleet_moni.Prelude.{
  ℕ, ◌^◌, ◌<◌, ◌≡◌, refl, [], ◌∷◌, ◌++◌, none, some, ltb, if◌then◌else◌, codes, to_string, arith,
}
use io_t_delivery_fleet_moni.Http.Text.{starts_with, find}
use io_t_delivery_fleet_moni.Http.Text.Find.{lacks}
use io_t_delivery_fleet_moni.Http.Text.Numbers.{
  from_chars-to_string, lacks-to_string, find_absent, to_string-is_empty,
}
use io_t_delivery_fleet_moni.Gateway.Recent.{recent_count}

-- A query "count=" with a decimal number of 64 bits asks for that number, and is invalid if the
-- number is above 1000.
pub recent_count-to_string :
    (n : ℕ)
    → n < 2 ^ 64
    → recent_count (codes "count=" ++ to_string n) ≡ (if ltb 1000 n then none else some n)
unfolding recent_count starts_with lacks
recent_count-to_string n small =
    let digits = to_string n in
    let query = codes "count=" ++ digits in
    let no_ampersand : find (38 ∷ []) query ≡ none =
      find_absent 38 query (ground (arith, lacks-to_string 38 n (omega arith))) in
    rw (no_ampersand, to_string-is_empty n, from_chars-to_string n small) refl
