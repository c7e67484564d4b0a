-- ===== src/Security/RateLimiter/Burst.antt =====
-- security/rate_limiter.cpp: how many requests a client may send at once, and that clients do not
-- disturb each other.
use io_t_delivery_fleet_moni.Prelude.{
  ℕ, zero, suc, ◌-◌, ◌≡◌, ◌⊎◌, inl, inr, refl, sym, ap, ap₂, insert, Option, none, some,
  text_eq_iff, ◌∙◌, List, Bool, true, false, if◌then◌else◌, if-cases, min, value_at, text_keys,
  text_eq, value_at-insert, arith,
}
use io_t_delivery_fleet_moni.Security.RateLimiter.{
  Doubles, TokenBucket, new_bucket, minimum, refill, take_token, consume, RateLimiter, bucket_of,
  check,
}

module _ (d : Doubles) where
  -- What the burst relies on. The small numbers are those from 0.0, without -0.0, to 2 ^ 53, where
  -- one can be subtracted exactly; the rates are the finite numbers that are not negative. `whole`
  -- rounds down.
  pub record IsArithmetic (IsSmall IsRate : d.Double → Type 0) (whole : d.Double → ℕ) : Type 0 where
    pub no_time : (x r : d.Double) → IsSmall x → IsRate r → d.add x (d.multiply (d.seconds 0) r) ≡ x
    pub below_one : (x : d.Double) → d.less x d.one ≡ true → whole x ≡ 0
    pub one_less :
        (x : d.Double)
        → IsSmall x
        → d.less x d.one ≡ false
        → (whole x ≡ suc (whole (d.subtract x d.one))) × IsSmall (d.subtract x d.one)
    pub decreases :
        (x y : d.Double)
        → IsSmall x
        → d.less x d.one ≡ false
        → (d.less x y ≡ true) ⊎ (x ≡ y)
        → d.less (d.subtract x d.one) y ≡ true

  -- How many of `n` requests at one time are allowed.
  pub allowed : ℕ → TokenBucket d → ℕ → ℕ
  allowed zero b now = 0
  allowed (suc n) b now =
      let r = consume d b now in let rest = allowed n r.1 now in if r.0 then suc rest else rest

  module _ (IsSmall IsRate : d.Double → Type 0) (whole : d.Double → ℕ)
      (laws : IsArithmetic IsSmall IsRate whole) where
    abbrev IsFull : TokenBucket d → Type 0
    IsFull b = (d.less b.tokens b.capacity ≡ true) ⊎ (b.tokens ≡ b.capacity)

    minimum-same :
        (x capacity : d.Double)
        → (d.less x capacity ≡ true) ⊎ (x ≡ capacity)
        → minimum d capacity x ≡ x
    minimum-same x capacity (inl e) = rw e refl
    minimum-same x capacity (inr e) =
        if-cases (λ y. y ≡ x) (d.less x capacity) (λ _. refl) λ _. sym e

    -- Without time, a refill changes nothing.
    refill-same :
        (b : TokenBucket d)
        → IsSmall b.tokens
        → IsRate b.refill_rate
        → IsFull b
        → refill d b b.last_refill_time ≡ b
    refill-same b small rate full =
        ap (λ tokens. record b { tokens = tokens })
          (ap
              (λ (t : ℕ).
                minimum d b.capacity (d.add b.tokens (d.multiply (d.seconds t) b.refill_rate)))
              none_passed
            ∙ (ap (minimum d b.capacity) (laws.no_time b.tokens b.refill_rate small rate)
                ∙ minimum-same b.tokens b.capacity full))
      where
        none_passed : b.last_refill_time - b.last_refill_time ≡ 0
        none_passed = omega arith

    allowed-whole :
        (n : ℕ) (b : TokenBucket d)
        → IsSmall b.tokens
        → IsRate b.refill_rate
        → IsFull b
        → allowed n b b.last_refill_time ≡ min n (whole b.tokens)
    unfolding allowed consume
    allowed-whole zero b small rate full = omega arith
    allowed-whole (suc n) b small rate full =
        ap (λ c. counted (take_token d c)) (refill-same b small rate full)
        ∙ if-cases (λ r. counted r ≡ min (suc n) (whole b.tokens)) (d.less b.tokens d.one)
            (λ e. omega (arith, allowed-whole n b small rate full, laws.below_one b.tokens e))
            λ e.
              let one = laws.one_less b.tokens small e in
              let b' : TokenBucket d = record b { tokens = d.subtract b.tokens d.one } in
              omega (
                arith,
                allowed-whole n b' one.1 rate
                    (inl (laws.decreases b.tokens b.capacity small e full)),
                one.0,
              )
      where
        counted : Bool × TokenBucket d → ℕ
        counted r = let rest = allowed n r.1 b.last_refill_time in if r.0 then suc rest else rest

  -- Of `n` requests of a new client at one time, as many are allowed as the capacity has whole
  -- tokens. The conditions: the arithmetic of `IsArithmetic`, for the capacity as a small number and
  -- the refill rate as a rate.
  pub allowed-new_bucket :
      (IsSmall IsRate : d.Double → Type 0) (whole : d.Double → ℕ)
      → IsArithmetic IsSmall IsRate whole
      → (capacity refill_rate : d.Double) → IsSmall capacity
      → IsRate refill_rate
      → (n now : ℕ) → allowed n (new_bucket d capacity refill_rate now) now ≡ min n (whole capacity)
  allowed-new_bucket IsSmall IsRate whole laws capacity refill_rate small rate n now =
      allowed-whole IsSmall IsRate whole laws n (new_bucket d capacity refill_rate now) small rate
        (inr refl)

  bucket_of-same :
      (limiter limiter' : RateLimiter d) (entry : Option (TokenBucket d)) (created : ℕ)
      → limiter.capacity ≡ limiter'.capacity
      → limiter.refill_rate ≡ limiter'.refill_rate
      → bucket_of d limiter entry created ≡ bucket_of d limiter' entry created
  bucket_of-same limiter limiter' none created capacity_eq rate_eq =
      ap₂ (λ capacity rate. new_bucket d capacity rate created) capacity_eq rate_eq
  bucket_of-same limiter limiter' (some b) created capacity_eq rate_eq = refl

  value_at-stored :
      (ip : List ℕ) (b : TokenBucket d) (buckets : List (List ℕ × TokenBucket d))
      → value_at ip (insert ip b buckets) ≡ some b
  value_at-stored ip b buckets =
      ground (arith, (text_eq_iff ip ip).1 refl, value_at-insert ip ip b buckets)

  -- A check of one address uses only the bucket of that address, the capacity and the refill rate:
  -- two limiters that agree on these, with any other buckets, allow or refuse alike and leave the
  -- same bucket for the address. The bucket of every other address stays as it was.
  pub check-isolated :
      (limiter limiter' : RateLimiter d) (ip other : List ℕ) (created now : ℕ)
      → limiter.capacity ≡ limiter'.capacity
      → limiter.refill_rate ≡ limiter'.refill_rate
      → value_at ip limiter.buckets ≡ value_at ip limiter'.buckets
      → text_eq ip other ≡ false
      → let r = check d limiter ip created now in
        let r' = check d limiter' ip created now in
        (r.0 ≡ r'.0)
        × ((value_at ip r.1.buckets ≡ value_at ip r'.1.buckets)
            × (value_at other r.1.buckets ≡ value_at other limiter.buckets))
  unfolding check
  check-isolated limiter limiter' ip other created now capacity_eq rate_eq own_eq e = (
    ap (λ (c : Bool × TokenBucket d). c.0) consumed_eq,
    (
      value_at-stored ip (used limiter).1 limiter.buckets
          ∙ ap (λ (c : Bool × TokenBucket d). some c.1) consumed_eq
          ∙ sym (value_at-stored ip (used limiter').1 limiter'.buckets),
      ground (arith, e, value_at-insert ip other (used limiter).1 limiter.buckets),
    ),
  )
    where
      used : RateLimiter d → Bool × TokenBucket d
      used l = consume d (bucket_of d l (value_at ip l.buckets) created) now

      consumed_eq : used limiter ≡ used limiter'
      consumed_eq =
          ap (λ b. consume d b now)
            (bucket_of-same limiter limiter' (value_at ip limiter.buckets) created capacity_eq
                rate_eq
              ∙ ap (λ entry. bucket_of d limiter' entry created) own_eq)
