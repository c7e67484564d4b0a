-- ===== src/Network/TcpServer/Sound.antt =====
-- network/tcp_server.cpp: the invariant of a worker, and what keeps it.
--
-- A debt is a request that has been given to the pool and whose completion has not been processed,
-- by its descriptor and generation.
pub mod Kept
pub mod Reading
pub mod Draining
pub mod Steps
use io_t_delivery_fleet_moni.Prelude.{
  ℕ, suc, ◌+◌, ◌≤◌, ◌≡◌, refl, List, [], ◌∷◌, ◌++◌, Option, none, some, Bool, true, false, ◌&&◌,
  ◌||◌, if◌then◌else◌, ◌==◌, length, u64, add64, sub64, value_at, has_key, insert, erase,
  IsDistinct, number_keys, arith, map, ap, subst, inl, inr, Bool-cases, ==_iff, value_at-insert,
  value_at-erase, insert-IsDistinct, erase-IsDistinct, length-insert_new, length-insert_old,
  length-erase, has_key-value_at,
}
use io_t_delivery_fleet_moni.Network.ConnectionManager.{Connection, ConnectionManager}
use io_t_delivery_fleet_moni.Network.TcpServer.{Task, Completion, Server}

abbrev pub task_debt : Task → ℕ × ℕ
task_debt task = (task.client_fd, task.generation)

abbrev pub completion_debt : Completion → ℕ × ℕ
completion_debt done = (done.client_fd, done.generation)

-- The debts: `taken` are the completions that were swapped out of the queue.
abbrev pub debts : List Completion → Server → List (ℕ × ℕ)
debts taken s =
    map task_debt s.thread_pool.tasks
    ++ (map task_debt s.running ++ (map completion_debt s.completions ++ map completion_debt taken))

unfoldable pub owes : ℕ → ℕ → List (ℕ × ℕ) → Bool
owes fd generation [] = false
owes fd generation (d ∷ ds) = (d.0 == fd && d.1 == generation) || owes fd generation ds

pub owes-append :
    (fd generation : ℕ) (ds es : List (ℕ × ℕ))
    → owes fd generation (ds ++ es) ≡ (owes fd generation ds || owes fd generation es)
unfolding owes
owes-append fd generation [] es = refl
owes-append fd generation (d ∷ ds) es = ground (arith, owes-append fd generation ds es)

-- One thing more at the end of a list is one debt more.
module _ {ℓ} {A : Type ℓ} (key : A → ℕ × ℕ) (x : A) (rest : List (ℕ × ℕ)) where
  pub owes-snoc :
      (fd generation : ℕ) (xs : List A)
      → owes fd generation (map key (xs ++ (x ∷ [])) ++ rest)
        ≡ owes fd generation (key x ∷ (map key xs ++ rest))
  unfolding owes
  owes-snoc fd generation [] = refl
  owes-snoc fd generation (y ∷ xs) = ground (arith, owes-snoc fd generation xs)

  pub length-snoc :
      (xs : List A) → length (map key (xs ++ (x ∷ [])) ++ rest) ≡ suc (length (map key xs ++ rest))
  length-snoc [] = refl
  length-snoc (y ∷ xs) = ap suc (length-snoc xs)

  -- One thing less in the middle is one debt less.
  pub owes-middle :
      (fd generation : ℕ) (before after : List A)
      → owes fd generation (map key (before ++ (x ∷ after)) ++ rest)
        ≡ owes fd generation (key x ∷ (map key (before ++ after) ++ rest))
  unfolding owes
  owes-middle fd generation [] after = refl
  owes-middle fd generation (y ∷ before) after =
      ground (arith, owes-middle fd generation before after)

  pub length-middle :
      (before after : List A)
      → length (map key (before ++ (x ∷ after)) ++ rest)
        ≡ suc (length (map key (before ++ after) ++ rest))
  length-middle [] after = refl
  length-middle (y ∷ before) after = ap suc (length-middle before after)

-- A request in flight is a debt, and the offset does not pass the end.
abbrev pub IsGood : List (ℕ × ℕ) → ℕ → Connection → Type 0
IsGood ds fd c =
    (c.request_in_flight ≡ true → owes fd c.generation ds ≡ true)
    × (c.outbound_offset ≤ length c.outbound)

-- `paid` debts are gone and not yet counted off `outstanding_tasks`.
pub record IsConsistent (m : ConnectionManager) (open_connections outstanding paid : ℕ)
    (ds : List (ℕ × ℕ)) : Type 0 where
  pub distinct : IsDistinct m
  pub counted : open_connections ≡ u64 (length m)
  pub owed : outstanding ≡ u64 (paid + length ds)
  pub good : (fd : ℕ) (c : Connection) → value_at fd m ≡ some c → IsGood ds fd c

-- With the completions that were swapped out of the queue.
abbrev pub IsSoundWith : ℕ → List Completion → Server → Type 0
IsSoundWith paid taken s =
    IsConsistent s.connections s.metrics.open_connections s.outstanding_tasks paid (debts taken s)

abbrev pub IsSound : Server → Type 0
IsSound s = IsSoundWith 0 [] s

-- What is good of the connections that are there and of a new one is good of all.
insert-IsGood :
    (m : ConnectionManager) (ds : List (ℕ × ℕ)) (fd j : ℕ) (c d : Connection)
    → ((i : ℕ) (b : Connection) → value_at i m ≡ some b → IsGood ds i b)
    → IsGood ds fd c
    → value_at j (insert fd c m) ≡ some d
    → IsGood ds j d
insert-IsGood m ds fd j c d v g at = elim (Bool-cases (fd == j)) [
  | inl e ↦
      let c_is_d : c ≡ d = ground (arith, at, e, value_at-insert fd j c m) in
      subst (λ i. IsGood ds i d) ((==_iff fd j).0 e) (subst (λ b. IsGood ds fd b) c_is_d g)
  | inr e ↦ v j d (ground (arith, at, e, value_at-insert fd j c m))
]

module _ {m : ConnectionManager} {open_connections outstanding paid : ℕ} {ds : List (ℕ × ℕ)}
    (v : IsConsistent m open_connections outstanding paid ds) where
  pub erase-IsConsistent :
      (fd : ℕ)
      → has_key fd m ≡ true
      → IsConsistent (erase fd m) (sub64 open_connections 1) outstanding paid ds
  erase-IsConsistent fd h = record {
    distinct = erase-IsDistinct fd m v.distinct;
    counted = omega (arith, v.counted, length-erase fd m v.distinct h);
    owed = v.owed;
    good = λ j c at. v.good j c (ground (arith, at, value_at-erase fd j m));
  }

  pub insert-IsConsistent :
      (fd : ℕ) (c : Connection)
      → has_key fd m ≡ true
      → IsGood ds fd c
      → IsConsistent (insert fd c m) open_connections outstanding paid ds
  insert-IsConsistent fd c h g = record {
    distinct = insert-IsDistinct fd c m v.distinct;
    counted = omega (arith, v.counted, length-insert_old fd c m h);
    owed = v.owed;
    good = λ j d at. insert-IsGood m ds fd j c d v.good g at;
  }

  pub add-IsConsistent :
      (fd : ℕ) (c : Connection)
      → has_key fd m ≡ false
      → IsGood ds fd c
      → IsConsistent (insert fd c m) (add64 open_connections 1) outstanding paid ds
  add-IsConsistent fd c h g = record {
    distinct = insert-IsDistinct fd c m v.distinct;
    counted = omega (arith, v.counted, length-insert_new fd c m h);
    owed = v.owed;
    good = λ j d at. insert-IsGood m ds fd j c d v.good g at;
  }

-- The same connections under other debts: each debt that there was is still there.
pub owed-IsConsistent :
    {m : ConnectionManager} {open_connections outstanding paid : ℕ} {ds : List (ℕ × ℕ)}
    (outstanding' paid' : ℕ) (ds' : List (ℕ × ℕ))
    → IsConsistent m open_connections outstanding paid ds
    → outstanding' ≡ u64 (paid' + length ds')
    → ((fd generation : ℕ) → owes fd generation ds ≡ true → owes fd generation ds' ≡ true)
    → IsConsistent m open_connections outstanding' paid' ds'
owed-IsConsistent outstanding' paid' ds' v owed kept = record {
  distinct = v.distinct;
  counted = v.counted;
  owed = owed;
  good = λ j d at. ((λ h. kept j d.generation ((v.good j d at).0 h)), (v.good j d at).1);
}
