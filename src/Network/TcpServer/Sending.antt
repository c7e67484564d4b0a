-- ===== src/Network/TcpServer/Sending.antt =====
-- network/tcp_server.cpp: what `flush_client` sends, and what is left of the connection.
use io_t_delivery_fleet_moni.Prelude.{
  ℕ, ◌≤◌, ◌≡◌, refl, sym, ap, ◌∙◌, List, [], ◌∷◌, ◌++◌, some, Bool, true, false, ◌==◌, ==_iff, min,
  length, take, has_key, number_keys, arith, if-cases, value_at-insert, has_key-erase, ==_refl,
  take-append-drop, drop-drop, drop_all, append_assoc,
}
use io_t_delivery_fleet_moni.Network.ConnectionManager.{Connection, pending_bytes, remove, get}
use io_t_delivery_fleet_moni.Network.TcpServer.{
  Send, sent_bytes, send_interrupted, send_would_block, send_failed, Server, put, close_client,
  rearm, next_modify, Flush, flush_drained, flush_blocked, flush_broken, Flushed, advance, unsent,
  after_flush, flushed, flush_loop, flush_client, set_modifies, after_sent,
}

-- The bytes that are taken are the first ones that were left to send.
record IsFlush (c : Connection) (f : Flushed) : Type 0 where
  split : unsent c ≡ f.taken ++ unsent f.connection
  drained : f.outcome ≡ flush_drained → unsent f.connection ≡ []

unsent-drained : (c : Connection) → (pending_bytes c == 0) ≡ true → unsent c ≡ []
unfolding pending_bytes
unsent-drained c e =
    let nil : length c.outbound ≤ c.outbound_offset =
      omega (arith, (==_iff (pending_bytes c) 0).0 e) in
    drop_all c.outbound_offset c.outbound nil

advance-IsFlush :
    (n : ℕ) (c : Connection) (f : Flushed)
    → IsFlush (advance n c) f
    → IsFlush c (after_sent (take n (unsent c)) f)
advance-IsFlush n c f v = record {
  split =
      sym (take-append-drop n (unsent c))
      ∙ ap (◌++◌ (take n (unsent c))) (drop-drop n c.outbound_offset c.outbound ∙ v.split)
      ∙ sym (append_assoc (take n (unsent c)) f.taken (unsent f.connection));
  drained = v.drained;
}

flush_loop-IsFlush : (sends : List Send) (c : Connection) → IsFlush c (flush_loop sends c)
unfolding flush_loop
flush_loop-IsFlush [] c =
    if-cases (λ o. IsFlush c (record { outcome = o; connection = c; sends = []; taken = [] }))
      (pending_bytes c == 0) (λ e. record { split = refl; drained = λ _. unsent-drained c e })
      λ _. record { split = refl; drained = λ no. cc }
flush_loop-IsFlush (sent_bytes n ∷ sends) c =
    let count = min n (pending_bytes c) in
    if-cases (IsFlush c) (pending_bytes c == 0)
      (λ e. record { split = refl; drained = λ _. unsent-drained c e })
      λ _.
        if-cases (IsFlush c) (count == 0) (λ _. record { split = refl; drained = λ no. cc })
          λ _.
            advance-IsFlush count c (flush_loop sends (advance count c))
              (flush_loop-IsFlush sends (advance count c))
flush_loop-IsFlush (send_interrupted ∷ sends) c =
    if-cases (IsFlush c) (pending_bytes c == 0)
      (λ e. record { split = refl; drained = λ _. unsent-drained c e })
      λ _. flush_loop-IsFlush sends c
flush_loop-IsFlush (send_would_block ∷ sends) c =
    if-cases (IsFlush c) (pending_bytes c == 0)
      (λ e. record { split = refl; drained = λ _. unsent-drained c e })
      λ _. record { split = refl; drained = λ no. cc }
flush_loop-IsFlush (send_failed ∷ sends) c =
    if-cases (IsFlush c) (pending_bytes c == 0)
      (λ e. record { split = refl; drained = λ _. unsent-drained c e })
      λ _. record { split = refl; drained = λ no. cc }

-- What a flush that was left with `rest` to send returns.
pub record IsLeft (fd : ℕ) (rest : List ℕ) (wire : List (ℕ × List ℕ)) (r : Bool × Server)
    : Type 0 where
  pub wire_after : r.1.wire ≡ wire
  pub kept : r.0 ≡ true → (c : Connection) × (get fd r.1.connections ≡ some c) × (unsent c ≡ rest)
  pub gone : r.0 ≡ false → has_key fd r.1.connections ≡ false

close_client-gone : (fd : ℕ) (s : Server) → has_key fd (close_client fd s).connections ≡ false
unfolding close_client remove
close_client-gone fd s =
    if-cases (λ (t : Server). has_key fd t.connections ≡ false) (has_key fd s.connections)
      (λ _. ground (arith, has_key-erase fd fd s.connections, ==_refl fd)) λ e. e

close_client-wire : (fd : ℕ) (s : Server) → (close_client fd s).wire ≡ s.wire
unfolding close_client
close_client-wire fd s =
    if-cases (λ (t : Server). t.wire ≡ s.wire) (has_key fd s.connections) (λ _. refl) λ _. refl

closed-IsLeft :
    (fd : ℕ) (rest : List ℕ) (s : Server) → IsLeft fd rest s.wire (false, close_client fd s)
closed-IsLeft fd rest s = record {
  wire_after = close_client-wire fd s;
  kept = λ no. cc;
  gone = λ _. close_client-gone fd s;
}

rearm-IsLeft :
    (fd : ℕ) (c : Connection) (s : Server) (answer : Bool × List Bool)
    → IsLeft fd (unsent c) s.wire (rearm fd (put fd c s) answer)
unfolding get
rearm-IsLeft fd c s (true, modifies) = record {
  wire_after = refl;
  kept = λ _. (c, ground (arith, value_at-insert fd fd c s.connections, ==_refl fd), refl);
  gone = λ no. cc;
}
rearm-IsLeft fd c s (false, modifies) =
    closed-IsLeft fd (unsent c) (set_modifies modifies (put fd c s))

after_flush-IsLeft :
    (fd : ℕ) (outcome : Flush) (c : Connection) (s : Server)
    → (outcome ≡ flush_drained → unsent c ≡ [])
    → IsLeft fd (unsent c) s.wire (after_flush fd outcome c s)
after_flush-IsLeft fd flush_drained c s nil =
    let emptied : Connection = record c { outbound = []; outbound_offset = 0 } in
    if-cases (IsLeft fd (unsent c) s.wire) c.peer_closed
      (λ _. closed-IsLeft fd (unsent c) (put fd emptied s))
      λ _. rw (nil refl) (rearm-IsLeft fd emptied s (next_modify s.answers.modifies))
after_flush-IsLeft fd flush_blocked c s nil = rearm-IsLeft fd c s (next_modify s.answers.modifies)
after_flush-IsLeft fd flush_broken c s nil = closed-IsLeft fd (unsent c) (put fd c s)

-- `flush_client` sends the first bytes of what the connection has left to send. When it returns
-- true the connection is there, with the rest to send; when it returns false it is removed.
pub flush_client-in_order :
    (fd : ℕ) (c : Connection) (s : Server)
    → get fd s.connections ≡ some c
    → (taken rest : List ℕ) × (unsent c ≡ taken ++ rest)
      × IsLeft fd rest (s.wire ++ ((fd, taken) ∷ [])) (flush_client fd s)
unfolding flush_client
flush_client-in_order fd c s at =
    let f = flush_loop s.answers.sends c in
    let v : IsFlush c f = flush_loop-IsFlush s.answers.sends c in
    (
      f.taken,
      unsent f.connection,
      v.split,
      rw at (after_flush-IsLeft fd f.outcome f.connection (flushed fd f s) v.drained),
    )
