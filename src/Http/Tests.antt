-- ===== src/Http/Tests.antt =====
-- The parser and the router on short requests.
use io_t_delivery_fleet_moni.Prelude.{
  ℕ, suc, ◌+◌, ◌-◌, ◌*◌, ◌/◌, ◌≡◌, refl, [], ◌∷◌, ◌++◌, arith, List, ltb, codes, none, some,
  if◌then◌else◌,
}
use io_t_delivery_fleet_moni.Http.Text.Find.{lacks}
use io_t_delivery_fleet_moni.Http.Parser.{
  HttpRequest, HttpParser, new_parser, feed, fail, missing_request_line,
}
use io_t_delivery_fleet_moni.Http.Parser.Feed.{IsValid, status_of, feed-IsValid}
use io_t_delivery_fleet_moni.Http.Parser.Headerless.{feed-headerless}
use io_t_delivery_fleet_moni.Http.Response.{HttpResponse, response, serialize}
use io_t_delivery_fleet_moni.Http.Response.Framing.{IsFramed, serialize-IsFramed}
use io_t_delivery_fleet_moni.Http.Router.{Handler, Router, new_router, route}
use io_t_delivery_fleet_moni.Http.Router.Routes.{
  Registration, register, last_handler, handled, plain_error, route-last,
}
use io_t_delivery_fleet_moni.Security.RateLimiter.{Doubles, check}

abbrev fresh : HttpParser
fresh = new_parser 64 32

fresh-IsValid : IsValid 64 32 fresh
fresh-IsValid = record {
  header_limit = refl;
  body_limit = refl;
  bounded = omega arith;
  waiting = λ _ _ _. omega arith;
  fits = omega arith;
  whole = λ c. cc;
  exclusive = λ c. refl;
  enough_rounds = refl;
}

-- "GET / HTTP/1.0"
abbrev request_line : List ℕ
request_line = 71 ∷ 69 ∷ 84 ∷ 32 ∷ 47 ∷ 32 ∷ 72 ∷ 84 ∷ 84 ∷ 80 ∷ 47 ∷ 49 ∷ 46 ∷ 48 ∷ []

-- With the header line "A: b".
abbrev header_request : List ℕ
header_request = request_line ++ (13 ∷ 10 ∷ 65 ∷ 58 ∷ 32 ∷ 98 ∷ 13 ∷ 10 ∷ 13 ∷ 10 ∷ [])

feed-IsValid_example :
    IsValid 64 32 (feed fresh header_request).1
    × ((feed fresh header_request).0 ≡ status_of (feed fresh header_request).1)
feed-IsValid_example = feed-IsValid 64 32 fresh header_request (omega arith) fresh-IsValid

feed-headerless_example :
    feed fresh (request_line ++ (13 ∷ 10 ∷ 13 ∷ 10 ∷ []))
    ≡ fail missing_request_line (record fresh { buffer = request_line ++ (13 ∷ 10 ∷ 13 ∷ 10 ∷ []) })
unfolding lacks
feed-headerless_example = feed-headerless 64 32 request_line refl (omega arith) (omega arith)

-- A router that counts the requests a handler has seen, with thousandths for doubles.
abbrev thousandths : Doubles
thousandths = record {
  Double = ℕ;
  add = ◌+◌;
  subtract = ◌-◌;
  multiply = ◌*◌;
  less = ltb;
  one = 1000;
  seconds = λ n. n / 1000000000;
}

abbrev greets : Handler ℕ
greets request seen = (some (response 200 (codes "OK") (codes "hello")), suc seen)

abbrev registrations : List (Registration ℕ thousandths)
registrations = record { method = codes "GET"; path = codes "/"; handler = greets } ∷ []

abbrev get_root : HttpRequest
get_root = record { method = codes "GET"; path = codes "/"; query = []; headers = []; body = [] }

abbrev client : List ℕ
client = codes "10.0.0.1"

abbrev empty_router : Router ℕ thousandths
empty_router = new_router ℕ thousandths 3000 1000

route-last_example :
    let r = check thousandths empty_router.rate_limiter client 0 0 in
    let registered = register ℕ thousandths registrations empty_router in
    let after = record registered { rate_limiter = r.1 } in
    let out =
      handled ℕ thousandths
        (last_handler ℕ thousandths registrations (codes "GET") (codes "/") none)
        get_root
        4 in
    route ℕ thousandths get_root client 0 0 registered 4 ≡ (
      if r.0
      then (out.0, after, out.1)
      else (some (plain_error 429 (codes "Too Many Requests")), after, 4))
route-last_example = route-last ℕ thousandths registrations empty_router refl get_root client 0 0 4

abbrev greeting : HttpResponse
greeting = record {
  status_code = 200;
  reason = codes "OK";
  headers = (codes "Content-Type", codes "text/plain") ∷ [];
  body = codes "hello";
}

serialize-IsFramed_example : IsFramed (serialize greeting) greeting.body
unfolding lacks
serialize-IsFramed_example = serialize-IsFramed greeting refl ((refl, refl), tt)
