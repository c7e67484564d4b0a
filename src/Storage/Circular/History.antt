-- ===== src/Storage/Circular/History.antt =====
-- A buffer against the history of everything pushed into it.
use native.Mathlib.Nat.{mod-lt, mod-add-mod, mod-eq_of_lt, mod-eq-sub-mod, add-mod_right}
use native.Mathlib.Decide.{dec_lt}
use io_t_delivery_fleet_moni.Prelude.{
  ℕ, zero, suc, ◌+◌, ◌-◌, ◌%◌, ◌^◌, ◌≤◌, ◌<◌, min, ◌≡◌, refl, ap, sym, ◌∙◌, ◌≢◌, List, [], ◌∷◌,
  ◌++◌, some, arith, length, get_elem?, set, replicate, drop, length-set, length-append,
  get_elem?-set_self, get_elem?-set_ne, get_elem?-append_left, get_elem?-append_end, u64,
  append-nil, append_assoc, ap₂, subst, drop-cons, drop_all, length-replicate,
}
use io_t_delivery_fleet_moni.Storage.Circular.{
  CircularBuffer, create, push, read_from, get_recent, result_size,
}

-- Two positions less than `c` apart fall on different slots.
mod-ne : (c i k : ℕ) → 0 < k → k < c → (i + k) % c ≢ i % c
mod-ne c i k hk hc e = elim (dec_lt (i % c + k) c) [
  | yes p ↦ omega (arith, mod-add-mod i c k, mod-eq_of_lt p)
  | no p ↦ omega (
    arith,
    mod-lt i {m = c} (omega arith),
    mod-add-mod i c k,
    mod-eq-sub-mod {n = i % c + k} {m = c} (omega arith),
    mod-eq_of_lt {n = i % c + k - c} {m = c} (omega (arith, mod-lt i {m = c} (omega arith))),
  )
]

-- The slot of history position `n - r + i`, as the code computes it.
slot-eq :
    (c n r i : ℕ)
    → 0 < c
    → c ≤ 2 ^ 63
    → r ≤ n
    → r ≤ c
    → i ≤ r
    → ((n % c + c + 2 ^ 64 - r) % 2 ^ 64 % c + i) % 2 ^ 64 % c ≡ (n - r + i) % c
slot-eq c n r i h0 hc hn hr hi =
    ap (λ t. t % c) (inner (n % c) (mod-lt n h0))
    ∙ mod-add-mod (n % c + c - r) c i
    ∙ ap (λ t. t % c) regroup
    ∙ mod-add-mod n c (c - r + i)
    ∙ ap (λ t. t % c) shift
    ∙ add-mod_right (n - r + i) c
  where
    inner : (w : ℕ) → w < c → ((w + c + 2 ^ 64 - r) % 2 ^ 64 % c + i) % 2 ^ 64 ≡ (w + c - r) % c + i
    inner w hw =
        let e : (w + c + 2 ^ 64 - r) % 2 ^ 64 ≡ w + c - r = omega arith in
        rw e (mod-eq_of_lt (omega (arith, mod-lt (w + c - r) h0)))

    regroup : n % c + c - r + i ≡ n % c + (c - r + i)
    regroup = omega arith

    shift : n + (c - r + i) ≡ n - r + i + c
    shift = omega arith

module _ {ℓ} {A : Type ℓ} where
  -- The buffer holds the last `c` entries of `h`, entry `i` of `h` in slot `i % c`.
  pub record Holds (c : ℕ) (h : List A) (b : CircularBuffer A) : Type ℓ where
    pub positive : 0 < c
    pub small : c ≤ 2 ^ 63
    pub sized : length b.entries ≡ c
    pub write_index : b.write_index ≡ length h % c
    pub count : b.count ≡ min (length h) c
    pub slots :
        (i : ℕ) → i < length h → length h ≤ i + c → get_elem? b.entries (i % c) ≡ get_elem? h i

  pub empty-Holds :
      (default : A) (c : ℕ)
      → 0 < c
      → c ≤ 2 ^ 63
      → Holds c [] (record { entries = replicate c default; write_index = 0; count = 0 })
  empty-Holds default c h0 hc = record {
    positive = h0;
    small = hc;
    sized = length-replicate c default;
    write_index = sym (mod-eq_of_lt h0);
    count = omega arith;
    slots = λ i hi hl. absurd (omega arith);
  }

  -- The constructor accepts every positive capacity, and the buffer starts with no history.
  pub create-Holds :
      (default : A) (c : ℕ)
      → 0 < c
      → c ≤ 2 ^ 63
      → (b : CircularBuffer A) × (create default c ≡ some b) × Holds c [] b
  unfolding create
  create-Holds default c h0 hc = (
    record { entries = replicate c default; write_index = 0; count = 0 },
    ground arith,
    empty-Holds default c h0 hc,
  )

  push-slots :
      (c : ℕ) (h : List A) (b : CircularBuffer A) (x : A)
      → Holds c h b
      → (i : ℕ) → i < length (h ++ (x ∷ []))
      → length (h ++ (x ∷ [])) ≤ i + c
      → get_elem? (set b.entries b.write_index x) (i % c) ≡ get_elem? (h ++ (x ∷ [])) i
  push-slots c h b x v i hi hc = elim (dec_lt i (length h)) [
    | yes p ↦
        get_elem?-set_ne b.entries x (other p)
        ∙ v.slots i p (omega (arith, length-append h (x ∷ [])))
        ∙ sym (get_elem?-append_left h (x ∷ []) i p)
    | no p ↦
        let e : i ≡ length h = omega (arith, length-append h (x ∷ [])) in
        rw (e, v.write_index, get_elem?-append_end)
          (get_elem?-set_self b.entries (length h % c) x
            (omega (arith, v.sized, mod-lt (length h) v.positive)))
  ]
    where
      other : i < length h → b.write_index ≢ i % c
      other p e =
          mod-ne c i (length h - i) (omega arith) (omega (arith, length-append h (x ∷ [])))
            (ap (λ t. t % c) (rejoin p) ∙ sym v.write_index ∙ e)
        where
          rejoin : i < length h → i + (length h - i) ≡ length h
          rejoin q = omega arith

  pub push-Holds :
      (c : ℕ) (h : List A) (b : CircularBuffer A) (x : A)
      → Holds c h b
      → Holds c (h ++ (x ∷ [])) (push b x)
  unfolding push
  push-Holds c h b x v = record {
    positive = v.positive;
    small = v.small;
    sized = length-set b.entries b.write_index x ∙ v.sized;
    write_index =
        ap₂ (λ w n. u64 (w + 1) % n) v.write_index v.sized
        ∙ ap (λ t. t % c) (no_wrap (length h % c) (mod-lt (length h) v.positive))
        ∙ mod-add-mod (length h) c 1
        ∙ ap (λ t. t % c) (sym (length-append h (x ∷ [])));
    count = ground (arith, v.count, v.sized, length-append h (x ∷ []));
    slots = push-slots c h b x v;
  }
    where
      no_wrap : (w : ℕ) → w < c → u64 (w + 1) ≡ w + 1
      no_wrap w hw = mod-eq_of_lt (omega (arith, v.small))

  -- A buffer after a run of pushes.
  abbrev pub push_all : CircularBuffer A → List A → CircularBuffer A
  push_all b [] = b
  push_all b (x ∷ xs) = push_all (push b x) xs

  pub push_all-Holds :
      (c : ℕ) (xs h : List A) (b : CircularBuffer A)
      → Holds c h b
      → Holds c (h ++ xs) (push_all b xs)
  push_all-Holds c [] h b v = rw append-nil v
  push_all-Holds c (x ∷ xs) h b v =
      subst (λ l. Holds c l (push_all (push b x) xs)) (append_assoc h (x ∷ []) xs)
        (push_all-Holds c xs (h ++ (x ∷ [])) (push b x) (push-Holds c h b x v))

  -- The reading loop, from round `i` on, gives the rest of the history.
  read_from_lem :
      (c : ℕ) (h : List A) (b : CircularBuffer A) (r i rounds first : ℕ)
      → Holds c h b
      → r ≤ length h
      → r ≤ c
      → i + rounds ≡ r
      → first ≡ u64 (b.write_index + length b.entries + 2 ^ 64 - r) % length b.entries
      → read_from b first i rounds ≡ some (drop (length h - r + i) h)
  unfolding read_from
  read_from_lem c h b r i zero first v hr hc e f =
      sym (ap some (drop_all (length h - r + i) h (omega arith)))
  read_from_lem c h b r i (suc rounds) first v hr hc e f =
      let (x, at, rest) = drop-cons h (length h - r + i) (omega arith) in
      rw (slot ∙ at, read_from_lem c h b r (i + 1) rounds first v hr hc (omega arith) f)
        (ap some (ap (λ k. x ∷ drop k h) next ∙ sym rest))
    where
      next : length h - r + (i + 1) ≡ suc (length h - r + i)
      next = omega arith

      slot :
          get_elem? b.entries (u64 (first + i) % length b.entries) ≡ get_elem? h (length h - r + i)
      slot =
          ap (get_elem? b.entries) (
            ap₂ (λ a s. u64 (a + i) % s)
              (f ∙ ap₂ (λ w s. u64 (w + s + 2 ^ 64 - r) % s) v.write_index v.sized) v.sized
            ∙ slot-eq c (length h) r i v.positive v.small hr hc (omega arith))
          ∙ v.slots (length h - r + i) (omega arith) (omega arith)

  -- `get_recent n` reads no slot outside the vector, and returns the last `min n capacity` entries
  -- of the history, oldest first.
  pub get_recent-Holds :
      (c : ℕ) (h : List A) (b : CircularBuffer A) (n : ℕ)
      → Holds c h b
      → get_recent b n ≡ some (drop (length h - min n c) h)
  unfolding get_recent
  get_recent-Holds c h b n v =
      read_from_lem c h b (result_size b n) 0 (result_size b n) _ v (ground (arith, v.count))
        (ground (arith, v.count)) (omega arith) refl
      ∙ ap (λ k. some (drop k h)) (ground (arith, v.count))

  -- A buffer of any supported capacity `c`, after any pushes `xs`: `get_recent n` returns the last
  -- `min n c` of them in the order of the pushes (all of them, if there are fewer), and every read
  -- stays inside the vector.
  pub get_recent-push_all :
      (default : A) (c : ℕ) (xs : List A) (n : ℕ)
      → 0 < c
      → c ≤ 2 ^ 63
      → (b : CircularBuffer A) × (create default c ≡ some b)
        × (get_recent (push_all b xs) n ≡ some (drop (length xs - min n c) xs))
  get_recent-push_all default c xs n h0 hc =
      let (b, made, v) = create-Holds default c h0 hc in
      (b, made, get_recent-Holds c xs (push_all b xs) n (push_all-Holds c xs [] b v))
