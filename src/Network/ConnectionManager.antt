-- ===== src/Network/ConnectionManager.antt =====
-- network/connection_manager.h and connection_manager.cpp: `Connection` and `ConnectionManager`.
use io_t_delivery_fleet_moni.Prelude.{
  ℕ, ◌-◌, List, [], ◌∷◌, Option, Bool, false, length, value_at, insert, erase, number_keys,
}
use io_t_delivery_fleet_moni.Http.Parser.{HttpParser, new_parser}

pub record Connection : Type 0 where
  pub fd : ℕ
  pub client_ip : List ℕ
  pub parser : HttpParser
  pub inbound : List ℕ
  pub outbound : List ℕ
  pub outbound_offset : ℕ
  pub peer_closed : Bool
  pub request_in_flight : Bool
  pub generation : ℕ

abbrev pub new_connection : ℕ → List ℕ → ℕ → Connection
new_connection fd client_ip generation = record {
  fd = fd;
  client_ip = client_ip;
  parser = new_parser 16384 1048576;
  inbound = [];
  outbound = [];
  outbound_offset = 0;
  peer_closed = false;
  request_in_flight = false;
  generation = generation;
}

-- The offset never passes the end of `outbound`, so that the difference does not wrap around.
unfoldable pub pending_bytes : Connection → ℕ
pending_bytes c = length c.outbound - c.outbound_offset

abbrev pub ConnectionManager : Type 0
ConnectionManager = List (ℕ × Connection)

unfoldable pub add : ℕ → List ℕ → ℕ → ConnectionManager → ConnectionManager
add fd client_ip generation m = insert fd (new_connection fd client_ip generation) m

unfoldable pub remove : ℕ → ConnectionManager → ConnectionManager
remove fd m = erase fd m

unfoldable pub get : ℕ → ConnectionManager → Option Connection
get fd m = value_at fd m

unfoldable pub count : ConnectionManager → ℕ
count m = length m

unfoldable pub file_descriptors : ConnectionManager → List ℕ
file_descriptors [] = []
file_descriptors ((fd, c) ∷ m) = fd ∷ file_descriptors m
