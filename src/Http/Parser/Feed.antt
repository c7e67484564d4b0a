-- ===== src/Http/Parser/Feed.antt =====
-- The invariant of the parser, over every `feed`.
use io_t_delivery_fleet_moni.Prelude.{
  ℕ, ◌+◌, ◌^◌, ◌≤◌, ◌<◌, ◌≡◌, refl, ap, sym, subst, List, [], ◌∷◌, ◌++◌, Option, none, some, Bool,
  true, false, not, ◌&&◌, ◌||◌, ltb, leb, ◌==◌, if◌then◌else◌, take, drop, length, arith, inl, inr,
  ◌⊎◌, Bool-cases, length-append, length-take, length-drop, add64, sub64, text_eq,
}
use io_t_delivery_fleet_moni.Http.Text.{find, find_from, is_empty}
use io_t_delivery_fleet_moni.Http.Parser.{
  ParseStatus, status_incomplete, status_complete, status_error, ParseError, HttpParser, Fed, fail,
  crlf, http_version, save_target, parse_request_line, parse_headers, take_body, after_headers,
  feed_headers, has_error, feed, missing_request_line, malformed_request_line, unsupported_version,
  empty_path, headers_too_large, request_too_large,
}
use io_t_delivery_fleet_moni.Http.Parser.Limits.{
  is_fuel, IsLive, IsParsed, going, failed, if-IsParsed, with_found-IsParsed, set_target-IsLive,
  read_headers-IsParsed,
}

abbrev pub status_of : HttpParser → ParseStatus
status_of p =
    if p.complete
    then status_complete
    else if has_error p.parse_error
    then status_error
    else status_incomplete

abbrev pub is_fuel_error : Option ParseError → Bool
is_fuel_error none = false
is_fuel_error (some e) = is_fuel e

-- A parser with the limits `h` and `b`, whatever it was fed.
pub record IsValid (h b : ℕ) (p : HttpParser) : Type 0 where
  pub header_limit : p.max_header_bytes ≡ h
  pub body_limit : p.max_body_bytes ≡ b
  pub bounded : length p.buffer ≤ h + b
  pub waiting :
      p.headers_parsed ≡ false → p.complete ≡ false → p.parse_error ≡ none → length p.buffer ≤ h
  pub fits : p.content_length ≤ b
  pub whole : p.complete ≡ true → length p.parsed_request.body ≡ p.content_length
  pub exclusive : p.complete ≡ true → p.parse_error ≡ none
  pub enough_rounds : is_fuel_error p.parse_error ≡ false

abbrev pub IsFed : ℕ → ℕ → Fed → Type 0
IsFed h b r = IsValid h b r.1 × (r.0 ≡ status_of r.1)

module _ {h b : ℕ} {xs : List ℕ} where
  save_target-IsParsed :
      (p : HttpParser) (method target : List ℕ) (rest : HttpParser → Fed)
      → IsLive h b xs p
      → ((p' : HttpParser) → IsLive h b xs p' → IsParsed h b xs (rest p'))
      → IsParsed h b xs (save_target p method target rest)
  unfolding save_target
  save_target-IsParsed p method target rest v hr =
      with_found-IsParsed (find (63 ∷ []) target)
        (if-IsParsed (is_empty target) (failed empty_path _ refl (set_target-IsLive p _ _ _ v))
          (hr _ (set_target-IsLive p _ _ _ v)))
        λ query_start.
          if-IsParsed (is_empty (take query_start target))
            (failed empty_path _ refl (set_target-IsLive p _ _ _ v))
            (hr _ (set_target-IsLive p _ _ _ v))

  parse_request_line-IsParsed :
      (p : HttpParser) (line : List ℕ) (rest : HttpParser → Fed)
      → IsLive h b xs p
      → ((p' : HttpParser) → IsLive h b xs p' → IsParsed h b xs (rest p'))
      → IsParsed h b xs (parse_request_line p line rest)
  unfolding parse_request_line
  parse_request_line-IsParsed p line rest v hr =
      with_found-IsParsed (find (32 ∷ []) line) (failed malformed_request_line p refl v)
        λ method_end.
          with_found-IsParsed (find_from (32 ∷ []) line (method_end + 1))
            (failed malformed_request_line p refl v)
            λ path_end.
              if-IsParsed (method_end == 0 || path_end == method_end + 1)
                (failed malformed_request_line p refl v)
                (if-IsParsed
                  (not (text_eq (drop (path_end + 1) line) (http_version 48))
                    && not (text_eq (drop (path_end + 1) line) (http_version 49)))
                  (failed unsupported_version p refl v) (save_target-IsParsed p _ _ rest v hr))

  parse_headers-IsParsed :
      (p : HttpParser) (header_end : ℕ)
      → IsLive h b xs p
      → IsParsed h b xs (parse_headers p header_end)
  unfolding parse_headers
  parse_headers-IsParsed p header_end v =
      with_found-IsParsed (find crlf p.buffer) (failed missing_request_line p refl v) λ line_end.
        if-IsParsed (leb header_end line_end) (failed missing_request_line p refl v) (
          parse_request_line-IsParsed p (take line_end p.buffer) _ v
            λ p' v'. read_headers-IsParsed header_end p' header_end (line_end + 2) (omega arith) v')

  -- A failure leaves a valid parser.
  fail-IsFed :
      (e : ParseError) (p : HttpParser)
      → is_fuel e ≡ false
      → IsLive h b xs p
      → length xs ≤ h + b
      → IsFed h b (fail e p)
  fail-IsFed e p ne v hx = (
    record {
      header_limit = v.header_limit;
      body_limit = v.body_limit;
      bounded = omega (arith, ap length v.bytes);
      waiting = λ _ _ c. cc;
      fits = v.fits;
      whole = λ c. cc;
      exclusive = λ c. cc;
      enough_rounds = ne;
    },
    rw v.running refl,
  )

  take_body-IsFed :
      (p : HttpParser)
      → IsLive h b xs p
      → p.headers_parsed ≡ true
      → length xs ≤ h + b
      → IsFed h b (take_body p)
  take_body-IsFed p v parsed hx = elim (Bool-cases (ltb (length p.buffer) p.content_length)) [
    | inl e ↦ rw e (
      record {
        header_limit = v.header_limit;
        body_limit = v.body_limit;
        bounded = omega (arith, ap length v.bytes);
        waiting = λ c _ _. cc (c, parsed);
        fits = v.fits;
        whole = λ c. cc;
        exclusive = λ c. cc;
        enough_rounds = ap is_fuel_error v.sound;
      },
      rw (v.running, v.sound) refl,
    )
    | inr e ↦ rw e (
      record {
        header_limit = v.header_limit;
        body_limit = v.body_limit;
        bounded = omega (arith, ap length v.bytes);
        waiting = λ c _ _. cc (c, parsed);
        fits = v.fits;
        whole = λ _. ground (arith, e, length-take p.content_length p.buffer);
        exclusive = λ _. v.sound;
        enough_rounds = ap is_fuel_error v.sound;
      },
      refl,
    )
  ]

rebuffered :
    (h b : ℕ) (xs ys : List ℕ) (p : HttpParser) (seen : Bool)
    → IsLive h b xs p
    → IsLive h b ys (record p { headers_parsed = seen; buffer = ys })
rebuffered h b xs ys p seen v = record {
  header_limit = v.header_limit;
  body_limit = v.body_limit;
  bytes = refl;
  fits = v.fits;
  running = v.running;
  sound = v.sound;
}

after_headers-IsFed :
    (h b : ℕ) (xs : List ℕ) (separator : ℕ) (r : Fed)
    → IsParsed h b xs r
    → length xs ≤ h + b
    → IsFed h b (after_headers separator r)
after_headers-IsFed h b xs separator r (failed e p ne v) hx = fail-IsFed e p ne v hx
after_headers-IsFed h b xs separator r (going p v) hx =
    take_body-IsFed (record p { headers_parsed = true; buffer = drop (separator + 4) p.buffer })
      (rebuffered h b xs (drop (separator + 4) p.buffer) p true v) refl
      (omega (arith, ap length v.bytes, length-drop (separator + 4) p.buffer))

feed_headers-IsFed :
    (h b : ℕ) (xs : List ℕ) (p : HttpParser)
    → IsLive h b xs p
    → length xs ≤ h + b
    → IsFed h b (feed_headers p)
unfolding feed_headers
feed_headers-IsFed h b xs p v hx = elim (found (find (crlf ++ crlf) p.buffer)) [
  | inl e ↦ rw e (elim (Bool-cases (ltb p.max_header_bytes (length p.buffer))) [
    | inl long ↦ rw long (fail-IsFed headers_too_large p refl v hx)
    | inr short ↦ rw short (
      record {
        header_limit = v.header_limit;
        body_limit = v.body_limit;
        bounded = omega (arith, ap length v.bytes);
        waiting = λ _ _ _. ground (arith, short, v.header_limit);
        fits = v.fits;
        whole = λ c. cc;
        exclusive = λ c. cc;
        enough_rounds = ap is_fuel_error v.sound;
      },
      rw (v.running, v.sound) refl,
    )
  ])
  | inr (separator, e) ↦ rw e (elim (Bool-cases (ltb p.max_header_bytes (separator + 4))) [
    | inl long ↦ rw long (fail-IsFed headers_too_large p refl v hx)
    | inr short ↦ rw short (
        after_headers-IsFed h b xs separator (parse_headers p separator)
          (parse_headers-IsParsed p separator v) hx)
  ])
]
  where
    found : (o : Option ℕ) → (o ≡ none) ⊎ ((i : ℕ) × (o ≡ some i))
    found none = inl refl
    found (some i) = inr (i, refl)

-- A parser that has neither finished nor failed.
IsValid-IsLive :
    (h b : ℕ) (p : HttpParser)
    → IsValid h b p
    → p.complete ≡ false
    → p.parse_error ≡ none
    → IsLive h b p.buffer p
IsValid-IsLive h b p v running sound = record {
  header_limit = v.header_limit;
  body_limit = v.body_limit;
  bytes = refl;
  fits = v.fits;
  running = running;
  sound = sound;
}

error-cases : (o : Option ParseError) → (o ≡ none) ⊎ ((e : ParseError) × (o ≡ some e))
error-cases none = inl refl
error-cases (some e) = inr (e, refl)

module _ (h b : ℕ) (p : HttpParser) (bytes : List ℕ) (small : h + b < 2 ^ 64)
    (v : IsValid h b p) where
  feed-done : p.complete ≡ true → IsFed h b (feed p bytes)
  unfolding feed
  feed-done done =
      let eq : feed p bytes ≡ (status_complete, p) = rw done refl in
      let fed : IsFed h b (status_complete, p) = (v, rw done refl) in subst (IsFed h b) (sym eq) fed

  feed-after_error :
      p.complete ≡ false → (e : ParseError) → p.parse_error ≡ some e → IsFed h b (feed p bytes)
  unfolding feed
  feed-after_error running e bad =
      let eq : feed p bytes ≡ (status_error, p) = rw (running, bad) refl in
      let fed : IsFed h b (status_error, p) = (v, rw (running, bad) refl) in
      subst (IsFed h b) (sym eq) fed

  abbrev over : Bool
  over =
      ltb (add64 p.max_header_bytes p.max_body_bytes) (length p.buffer)
      || ltb (sub64 (add64 p.max_header_bytes p.max_body_bytes) (length p.buffer)) (length bytes)

  abbrev fuller : HttpParser
  fuller = record p { buffer = p.buffer ++ bytes }

  feed-too_large :
      p.complete ≡ false → p.parse_error ≡ none → over ≡ true → IsFed h b (feed p bytes)
  unfolding feed
  feed-too_large running sound large =
      let eq : feed p bytes ≡ fail request_too_large p = rw (running, sound, large) refl in
      subst (IsFed h b) (sym eq)
        (fail-IsFed request_too_large p refl (IsValid-IsLive h b p v running sound) v.bounded)

  feed-more : p.complete ≡ false → p.parse_error ≡ none → over ≡ false → IsFed h b (feed p bytes)
  unfolding feed
  feed-more running sound room = elim (Bool-cases p.headers_parsed) [
    | inl parsed ↦
        let eq : feed p bytes ≡ take_body fuller = rw (running, sound, room, parsed) refl in
        subst (IsFed h b) (sym eq) (take_body-IsFed fuller live parsed fit)
    | inr unparsed ↦
        let eq : feed p bytes ≡ feed_headers fuller = rw (running, sound, room, unparsed) refl in
        subst (IsFed h b) (sym eq) (feed_headers-IsFed h b (p.buffer ++ bytes) fuller live fit)
  ]
    where
      live : IsLive h b (p.buffer ++ bytes) fuller
      live =
          rebuffered h b p.buffer (p.buffer ++ bytes) p p.headers_parsed
            (IsValid-IsLive h b p v running sound)

      fit : length (p.buffer ++ bytes) ≤ h + b
      fit = ground (
        arith,
        room,
        v.header_limit,
        v.body_limit,
        v.bounded,
        small,
        length-append p.buffer bytes,
      )

  -- Whatever bytes a parser is fed, in whatever pieces: the buffer stays within the two limits
  -- together, and within the header limit until the headers are parsed; the declared length stays
  -- within the body limit; a request that is complete has a body of exactly that length and no
  -- error; the status that is returned is the one that the new state is in; and the header loop of
  -- the model has rounds enough. The condition: the sum of the limits fits 64 bits.
  pub feed-IsValid : IsValid h b (feed p bytes).1 × ((feed p bytes).0 ≡ status_of (feed p bytes).1)
  feed-IsValid = elim (Bool-cases p.complete) [
    | inl done ↦ feed-done done
    | inr running ↦ elim (error-cases p.parse_error) [
      | inl sound ↦ elim (Bool-cases over) [
        | inl large ↦ feed-too_large running sound large
        | inr room ↦ feed-more running sound room
      ]
      | inr (e, bad) ↦ feed-after_error running e bad
    ]
  ]
