-- ===== src/Http/Router.antt =====
-- http/router.h and router.cpp: `Router`. The hash of a key is left out: the map is a list of its
-- entries.
pub mod Routes
use io_t_delivery_fleet_moni.Prelude.{
  ℕ, ◌≡◌, ◌↔◌, List, [], ◌∷◌, Option, none, some, Bool, true, false, ◌&&◌, if◌then◌else◌, Keys,
  codes, text_eq, text_eq_iff, value_at, insert, ap, ap₂, arith,
}
use io_t_delivery_fleet_moni.Http.Parser.{HttpRequest}
use io_t_delivery_fleet_moni.Http.Response.{HttpResponse, response}
use io_t_delivery_fleet_moni.Security.RateLimiter.{Doubles, RateLimiter, check}

pub record RouteKey : Type 0 where
  pub method : List ℕ
  pub path : List ℕ

abbrev pub route_key_eq : RouteKey → RouteKey → Bool
route_key_eq key other = text_eq key.method other.method && text_eq key.path other.path

pub route_key_eq_iff : (key other : RouteKey) → (route_key_eq key other ≡ true) ↔ (key ≡ other)
route_key_eq_iff key other = (
  λ e.
      ap₂ (λ m p. record { method = m; path = p })
        ((text_eq_iff key.method other.method).0 (ground (arith, e)))
        ((text_eq_iff key.path other.path).0 (ground (arith, e))),
  λ e. ground (
    arith,
    (text_eq_iff key.method other.method).1 (ap (λ (k : RouteKey). k.method) e),
    (text_eq_iff key.path other.path).1 (ap (λ (k : RouteKey). k.path) e),
  ),
)

instance abbrev pub route_keys : Keys RouteKey
route_keys = record { same = route_key_eq; same_iff = route_key_eq_iff }

abbrev pub too_many_requests : HttpResponse
too_many_requests = response 429 (codes "Too Many Requests") (codes "Too Many Requests")

abbrev pub not_found : HttpResponse
not_found = response 404 (codes "Not Found") (codes "Not Found")

-- A handler reads and changes a state `S`; it returns `none` when it throws.
abbrev pub Handler {ℓ} : Type ℓ → Type ℓ
Handler S = HttpRequest → S → Option HttpResponse × S

abbrev pub key_of : HttpRequest → RouteKey
key_of request = record { method = request.method; path = request.path }

-- The response of a task: an exception is answered with 500.
abbrev pub response_of : Option HttpResponse → HttpResponse
response_of none = response 500 (codes "Internal Server Error") (codes "Internal Server Error")
response_of (some r) = r

module _ {ℓ} (S : Type ℓ) (d : Doubles) where
  pub record Router : Type ℓ where
    pub routes : List (RouteKey × Handler S)
    pub rate_limiter : RateLimiter d

  -- The constructor.
  abbrev pub new_router : d.Double → d.Double → Router
  new_router capacity refill_rate = record {
    routes = [];
    rate_limiter = record { capacity = capacity; refill_rate = refill_rate; buckets = [] };
  }

  unfoldable pub add_route : List ℕ → List ℕ → Handler S → Router → Router
  add_route method path handler router = record router {
    routes = insert (record { method = method; path = path }) handler router.routes;
  }

  -- What the rate limiter and the handler leave.
  abbrev pub Routed : Type ℓ
  Routed = Option HttpResponse × Router × S

  abbrev pub answer : Option (Handler S) → HttpRequest → Router → S → Routed
  answer none request router s = (some not_found, router, s)
  answer (some handler) request router s = let r = handler request s in (r.0, router, r.1)

  abbrev pub limited : HttpRequest → Router → S → Bool × RateLimiter d → Routed
  limited request router s (false, limiter) =
      (some too_many_requests, record router { rate_limiter = limiter }, s)
  limited request router s (true, limiter) =
      answer (value_at (key_of request) router.routes) request
        (record router { rate_limiter = limiter }) s

  -- `created` and `now` are the times that a new bucket and the check read.
  unfoldable pub route : HttpRequest → List ℕ → ℕ → ℕ → Router → S → Routed
  route request client_ip created now router s =
      limited request router s (check d router.rate_limiter client_ip created now)
