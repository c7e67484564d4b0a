-- ===== src/Security/Tests.antt =====
-- The rate limiter with thousandths for doubles: every step of these is exact.
use io_t_delivery_fleet_moni.Prelude.{
  ℕ, ◌+◌, ◌-◌, ◌*◌, ◌/◌, ◌≡◌, refl, [], ◌∷◌, ltb, codes, min, value_at, text_eq, text_keys, arith,
}
use io_t_delivery_fleet_moni.Security.RateLimiter.{Doubles, new_bucket, RateLimiter, check}
use io_t_delivery_fleet_moni.Security.RateLimiter.Burst.{
  IsArithmetic, allowed, allowed-new_bucket, check-isolated,
}

-- A rate is a number of tokens for each second; whole seconds only.
abbrev thousandths : Doubles
thousandths = record {
  Double = ℕ;
  add = ◌+◌;
  subtract = ◌-◌;
  multiply = ◌*◌;
  less = ltb;
  one = 1000;
  seconds = λ n. n / 1000000000;
}

thousandths-IsArithmetic : IsArithmetic thousandths (λ _. Unit {0}) (λ _. Unit {0}) (λ x. x / 1000)
thousandths-IsArithmetic = record {
  no_time = λ x r _ _. omega arith;
  below_one = λ x e. ground (arith, e);
  one_less = λ x _ e. (ground (arith, e), tt);
  decreases = λ x y _ e le. ground (arith, e, le);
}

allowed-new_bucket_example : allowed thousandths 5 (new_bucket thousandths 3500 1000 7) 7 ≡ min 5 3
allowed-new_bucket_example =
    allowed-new_bucket thousandths (λ _. Unit {0}) (λ _. Unit {0}) (λ x. x / 1000)
      thousandths-IsArithmetic 3500 1000 tt tt 5 7

abbrev limiter : RateLimiter thousandths
limiter = record {
  capacity = 3500;
  refill_rate = 1000;
  buckets = (codes "10.0.0.2", new_bucket thousandths 3500 1000 2) ∷ [];
}

abbrev crowded : RateLimiter thousandths
crowded = record limiter {
  buckets =
      (codes "10.0.0.3", new_bucket thousandths 0 0 1)
      ∷ ((codes "10.0.0.2", new_bucket thousandths 3500 1000 1) ∷ []);
}

check-isolated_example :
    let r = check thousandths limiter (codes "10.0.0.1") 3 4 in
    let r' = check thousandths crowded (codes "10.0.0.1") 3 4 in
    (r.0 ≡ r'.0)
    × ((value_at (codes "10.0.0.1") r.1.buckets ≡ value_at (codes "10.0.0.1") r'.1.buckets)
        × (value_at (codes "10.0.0.2") r.1.buckets ≡ value_at (codes "10.0.0.2") limiter.buckets))
unfolding text_eq value_at
check-isolated_example =
    check-isolated thousandths limiter crowded (codes "10.0.0.1") (codes "10.0.0.2") 3 4 refl refl
      refl refl
