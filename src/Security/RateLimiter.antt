-- ===== src/Security/RateLimiter.antt =====
-- security/rate_limiter.h and rate_limiter.cpp: `TokenBucket` and `RateLimiter`.
pub mod Burst
use io_t_delivery_fleet_moni.Prelude.{
  ℕ, ◌-◌, List, [], ◌∷◌, Option, none, some, Bool, true, false, if◌then◌else◌, value_at, insert,
  text_keys,
}

-- The doubles, and what the limiter computes with them; `seconds` converts a number of nanoseconds.
pub record Doubles : Type 1 where
  pub Double : Type 0
  pub add : Double → Double → Double
  pub subtract : Double → Double → Double
  pub multiply : Double → Double → Double
  pub less : Double → Double → Bool
  pub one : Double
  pub seconds : ℕ → Double

module _ (d : Doubles) where
  pub record TokenBucket : Type 0 where
    pub capacity : d.Double
    pub tokens : d.Double
    pub refill_rate : d.Double
    pub last_refill_time : ℕ

  abbrev pub new_bucket : d.Double → d.Double → ℕ → TokenBucket
  new_bucket capacity refill_rate now = record {
    capacity = capacity;
    tokens = capacity;
    refill_rate = refill_rate;
    last_refill_time = now;
  }

  -- `std::min`
  abbrev pub minimum : d.Double → d.Double → d.Double
  minimum a b = if d.less b a then b else a

  abbrev pub refill : TokenBucket → ℕ → TokenBucket
  refill b now = record b {
    tokens =
        minimum b.capacity
          (d.add b.tokens (d.multiply (d.seconds (now - b.last_refill_time)) b.refill_rate));
    last_refill_time = now;
  }

  abbrev pub take_token : TokenBucket → Bool × TokenBucket
  take_token b =
      if d.less b.tokens d.one
      then (false, b)
      else (true, record b { tokens = d.subtract b.tokens d.one })

  -- The clock is monotonic: `now` is not before the last refill.
  unfoldable pub consume : TokenBucket → ℕ → Bool × TokenBucket
  consume b now = take_token (refill b now)

  pub record RateLimiter : Type 0 where
    pub capacity : d.Double
    pub refill_rate : d.Double
    pub buckets : List (List ℕ × TokenBucket)

  abbrev pub store : List ℕ → RateLimiter → Bool × TokenBucket → Bool × RateLimiter
  store ip limiter (allowed, b) =
      (allowed, record limiter { buckets = insert ip b limiter.buckets })

  -- The bucket of an address; a new one is made with the time `created`.
  abbrev pub bucket_of : RateLimiter → Option TokenBucket → ℕ → TokenBucket
  bucket_of limiter none created = new_bucket limiter.capacity limiter.refill_rate created
  bucket_of limiter (some b) created = b

  -- The new entry stands in the map before its bucket is used; both happen in one call here.
  unfoldable pub check : RateLimiter → List ℕ → ℕ → ℕ → Bool × RateLimiter
  check limiter ip created now =
      store ip limiter (consume (bucket_of limiter (value_at ip limiter.buckets) created) now)
