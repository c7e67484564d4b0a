-- ===== src/Http/Router/Routes.antt =====
-- http/router.cpp: which handler answers a request.
use io_t_delivery_fleet_moni.Prelude.{
  ℕ, ◌≡◌, refl, ap, ◌∙◌, List, [], ◌∷◌, Option, none, some, Bool, true, false, ◌&&◌, if◌then◌else◌,
  value_at, text_eq, codes, value_at-insert,
}
use io_t_delivery_fleet_moni.Http.Parser.{HttpRequest}
use io_t_delivery_fleet_moni.Http.Response.{HttpResponse}
use io_t_delivery_fleet_moni.Security.RateLimiter.{Doubles, RateLimiter, check}
use io_t_delivery_fleet_moni.Http.Router.{
  RouteKey, route_keys, Routed, Handler, key_of, Router, add_route, answer, limited, route,
}

-- The error responses as they are sent.
abbrev pub plain_error : ℕ → List ℕ → HttpResponse
plain_error status_code text = record {
  status_code = status_code;
  reason = text;
  headers = [];
  body = text;
}

module _ {ℓ} (S : Type ℓ) (d : Doubles) where
  -- A registration: method, path and handler.
  pub record Registration : Type ℓ where
    pub method : List ℕ
    pub path : List ℕ
    pub handler : Handler S

  unfoldable pub register : List Registration → Router S d → Router S d
  register [] router = router
  register (r ∷ rs) router = register rs (add_route S d r.method r.path r.handler router)

  -- The handler of the last registration of exactly this method and path; without one, the earlier.
  unfoldable pub last_handler :
      List Registration → List ℕ → List ℕ → Option (Handler S) → Option (Handler S)
  last_handler [] method path earlier = earlier
  last_handler (r ∷ rs) method path earlier =
      last_handler rs method path
        (if text_eq r.method method && text_eq r.path path then some r.handler else earlier)

  -- What the handler makes of the request and the state, or 404 with the state as it is.
  pub handled : Option (Handler S) → HttpRequest → S → Option HttpResponse × S
  handled none request s = (some (plain_error 404 (codes "Not Found")), s)
  handled (some handler) request s = handler request s

  register-last :
      (rs : List Registration) (key : RouteKey) (router : Router S d)
      → value_at key (register rs router).routes
        ≡ last_handler rs key.method key.path (value_at key router.routes)
  unfolding register last_handler add_route
  register-last [] key router = refl
  register-last (r ∷ rs) key router =
      register-last rs key (add_route S d r.method r.path r.handler router)
      ∙ ap (last_handler rs key.method key.path) (
          value_at-insert (record { method = r.method; path = r.path }) key r.handler router.routes)

  register-limiter :
      (rs : List Registration) (router : Router S d)
      → (register rs router).rate_limiter ≡ router.rate_limiter
  unfolding register add_route
  register-limiter [] router = refl
  register-limiter (r ∷ rs) router =
      register-limiter rs (add_route S d r.method r.path r.handler router)

  -- After any registrations on a router without routes, a request that the rate limiter allows is
  -- answered by the handler registered last for its method and path, and with 404, leaving the
  -- state as it is, if there is none; a request that it does not allow is answered with 429, and
  -- no handler runs.
  pub route-last :
      (rs : List Registration) (router : Router S d)
      → router.routes ≡ []
      → (request : HttpRequest) (client_ip : List ℕ) (created now : ℕ) (s : S)
      → let r = check d router.rate_limiter client_ip created now in
        let registered = register rs router in
        let after = record registered { rate_limiter = r.1 } in
        let out = handled (last_handler rs request.method request.path none) request s in
        route S d request client_ip created now registered s ≡ (
          if r.0
          then (out.0, after, out.1)
          else (some (plain_error 429 (codes "Too Many Requests")), after, s))
  unfolding route value_at handled
  route-last rs router fresh request client_ip created now s =
      ap (λ l. limited S d request registered s (check d l client_ip created now))
        (register-limiter rs router)
      ∙ (limited_by (check d router.rate_limiter client_ip created now)
          ∙ ap (λ h. expected h (check d router.rate_limiter client_ip created now))
              (register-last rs (key_of request) router
                ∙ ap
                    (λ m. last_handler rs request.method request.path (value_at (key_of request) m))
                    fresh))
    where
      registered : Router S d
      registered = register rs router

      expected : Option (Handler S) → Bool × RateLimiter d → Routed S d
      expected h r =
          let after = record registered { rate_limiter = r.1 } in
          let out = handled h request s in
          if r.0
          then (out.0, after, out.1)
          else (some (plain_error 429 (codes "Too Many Requests")), after, s)

      answered :
          (h : Option (Handler S)) (limiter : RateLimiter d)
          → answer S d h request (record registered { rate_limiter = limiter }) s
            ≡ expected h (true, limiter)
      answered none limiter = refl
      answered (some handler) limiter = refl

      limited_by :
          (r : Bool × RateLimiter d)
          → limited S d request registered s r
            ≡ expected (value_at (key_of request) registered.routes) r
      limited_by (false, limiter) = refl
      limited_by (true, limiter) = answered (value_at (key_of request) registered.routes) limiter
