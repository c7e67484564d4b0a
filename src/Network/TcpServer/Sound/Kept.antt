-- ===== src/Network/TcpServer/Sound/Kept.antt =====
-- network/tcp_server.cpp: `close_client` and `flush_client` keep the invariant.
use io_t_delivery_fleet_moni.Prelude.{
  ℕ, ◌≡◌, refl, List, [], ◌∷◌, Option, none, some, Bool, true, false, ◌==◌, min, has_key, value_at,
  insert, number_keys, arith, if-cases, value_at-insert, ==_refl, has_key-value_at,
}
use io_t_delivery_fleet_moni.Monitoring.Metrics.{connection_closed}
use io_t_delivery_fleet_moni.Network.ConnectionManager.{Connection, pending_bytes, remove, get}
use io_t_delivery_fleet_moni.Network.TcpServer.{
  Completion, Send, sent_bytes, send_interrupted, send_would_block, send_failed, Server, put,
  close_client, rearm, next_modify, Flush, flush_drained, flush_blocked, flush_broken, Flushed,
  after_flush, flushed, flush_loop, flush_connection, flush_client, set_modifies, advance,
}
use io_t_delivery_fleet_moni.Network.TcpServer.Sound.{
  debts, IsGood, IsSoundWith, erase-IsConsistent, insert-IsConsistent,
}

module _ (paid : ℕ) (taken : List Completion) where
  pub close_client-IsSoundWith :
      (fd : ℕ) (s : Server) → IsSoundWith paid taken s → IsSoundWith paid taken (close_client fd s)
  unfolding close_client remove connection_closed
  close_client-IsSoundWith fd s v =
      if-cases (IsSoundWith paid taken) (has_key fd s.connections) (erase-IsConsistent v fd) λ _. v

  pub put-IsSoundWith :
      (fd : ℕ) (c : Connection) (s : Server)
      → IsSoundWith paid taken s
      → has_key fd s.connections ≡ true
      → IsGood (debts taken s) fd c
      → IsSoundWith paid taken (put fd c s)
  put-IsSoundWith fd c s v h g = insert-IsConsistent v fd c h g

  rearm-IsSoundWith :
      (fd : ℕ) (s : Server) (answer : Bool × List Bool)
      → IsSoundWith paid taken s
      → IsSoundWith paid taken (rearm fd s answer).1
  rearm-IsSoundWith fd s (true, modifies) v = v
  rearm-IsSoundWith fd s (false, modifies) v =
      close_client-IsSoundWith fd (set_modifies modifies s) v

  after_flush-IsSoundWith :
      (fd : ℕ) (outcome : Flush) (c : Connection) (s : Server)
      → IsSoundWith paid taken s
      → has_key fd s.connections ≡ true
      → IsGood (debts taken s) fd c
      → IsSoundWith paid taken (after_flush fd outcome c s).1
  after_flush-IsSoundWith fd flush_drained c s v h g =
      let emptied : Connection = record c { outbound = []; outbound_offset = 0 } in
      let v' : IsSoundWith paid taken (put fd emptied s) =
        put-IsSoundWith fd emptied s v h (g.0, omega arith) in
      if-cases (λ (r : Bool × Server). IsSoundWith paid taken r.1) c.peer_closed
        (λ _. close_client-IsSoundWith fd (put fd emptied s) v')
        (λ _. rearm-IsSoundWith fd (put fd emptied s) (next_modify s.answers.modifies) v')
  after_flush-IsSoundWith fd flush_blocked c s v h g =
      rearm-IsSoundWith fd (put fd c s) (next_modify s.answers.modifies)
        (put-IsSoundWith fd c s v h g)
  after_flush-IsSoundWith fd flush_broken c s v h g =
      close_client-IsSoundWith fd (put fd c s) (put-IsSoundWith fd c s v h g)

abbrev IsGoodFlush : List (ℕ × ℕ) → ℕ → Flushed → Type 0
IsGoodFlush ds fd f = IsGood ds fd f.connection

flush_loop-IsGood :
    (ds : List (ℕ × ℕ)) (fd : ℕ) (sends : List Send) (c : Connection)
    → IsGood ds fd c
    → IsGoodFlush ds fd (flush_loop sends c)
unfolding flush_loop pending_bytes
flush_loop-IsGood ds fd [] c g = g
flush_loop-IsGood ds fd (sent_bytes n ∷ sends) c g =
    let count = min n (pending_bytes c) in
    if-cases (IsGoodFlush ds fd) (pending_bytes c == 0) (λ _. g)
      λ _.
        if-cases (IsGoodFlush ds fd) (count == 0) (λ _. g)
          λ _. flush_loop-IsGood ds fd sends (advance count c) (g.0, omega (arith, g.1))
flush_loop-IsGood ds fd (send_interrupted ∷ sends) c g =
    if-cases (IsGoodFlush ds fd) (pending_bytes c == 0) (λ _. g)
      λ _. flush_loop-IsGood ds fd sends c g
flush_loop-IsGood ds fd (send_would_block ∷ sends) c g =
    if-cases (IsGoodFlush ds fd) (pending_bytes c == 0) (λ _. g) λ _. g
flush_loop-IsGood ds fd (send_failed ∷ sends) c g =
    if-cases (IsGoodFlush ds fd) (pending_bytes c == 0) (λ _. g) λ _. g

-- What a flush is told of the connection, if there is one.
flush_connection-IsSoundWith :
    (paid : ℕ) (taken : List Completion) (fd : ℕ) (o : Option Connection) (s : Server)
    → value_at fd s.connections ≡ o
    → IsSoundWith paid taken s
    → IsSoundWith paid taken (flush_connection fd o s).1
flush_connection-IsSoundWith paid taken fd none s at v = v
flush_connection-IsSoundWith paid taken fd (some c) s at v =
    let f = flush_loop s.answers.sends c in
    after_flush-IsSoundWith paid taken fd f.outcome f.connection (flushed fd f s) v
      (has_key-value_at fd s.connections c at)
      (flush_loop-IsGood (debts taken s) fd s.answers.sends c (v.good fd c at))

pub flush_client-IsSoundWith :
    (paid : ℕ) (taken : List Completion) (fd : ℕ) (s : Server)
    → IsSoundWith paid taken s
    → IsSoundWith paid taken (flush_client fd s).1
unfolding flush_client get
flush_client-IsSoundWith paid taken fd s v =
    flush_connection-IsSoundWith paid taken fd (value_at fd s.connections) s refl v

-- A connection that was written is there.
pub has_key-put :
    (fd : ℕ) (c : Connection) (s : Server) → has_key fd (put fd c s).connections ≡ true
has_key-put fd c s =
    has_key-value_at fd (insert fd c s.connections) c
      (ground (arith, value_at-insert fd fd c s.connections, ==_refl fd))
