-- ===== src/Http/Parser/Limits.antt =====
-- What holds of the parser after every `feed`: sizes, status, and no round too few.
use io_t_delivery_fleet_moni.Prelude.{
  ℕ, zero, suc, ◌+◌, ◌-◌, ◌≤◌, ◌≡◌, refl, List, [], ◌∷◌, Option, none, some, Bool, true, false, not,
  ◌&&◌, ◌||◌, ltb, ◌==◌, if◌then◌else◌, take, drop, arith, le→ltb, inl, inr, Bool-cases, text_eq,
}
use io_t_delivery_fleet_moni.Http.Text.{
  find, shifted, is_found, is_empty, trim, lowercase, from_chars, Headers, lookup,
}
use io_t_delivery_fleet_moni.Http.Parser.{
  status_incomplete, ParseError, HttpParser, Fed, fail, with_found, crlf, content_length_name,
  transfer_encoding_name, set_headers, Line, line_failed, line_read, emplace, save_header,
  read_line, after_line, accept_length, check_length, has_value, check_headers, read_headers,
  set_target, out_of_fuel, malformed_header_line, transfer_encoding, invalid_content_length,
  body_too_large,
}

abbrev pub is_fuel : ParseError → Bool
is_fuel out_of_fuel = true
is_fuel e = false

-- A parser that reads headers, with its limits and its buffer.
pub record IsLive (h b : ℕ) (xs : List ℕ) (p : HttpParser) : Type 0 where
  pub header_limit : p.max_header_bytes ≡ h
  pub body_limit : p.max_body_bytes ≡ b
  pub bytes : p.buffer ≡ xs
  pub fits : p.content_length ≤ b
  pub running : p.complete ≡ false
  pub sound : p.parse_error ≡ none

-- A result of `parse_headers`: it goes on, or it has failed for a reason that is in the bytes.
pub data IsParsed (h b : ℕ) (xs : List ℕ) : Fed → Type 0 where
  going : (p : HttpParser) → IsLive h b xs p → IsParsed h b xs (status_incomplete, p)
  failed :
      (e : ParseError) (p : HttpParser)
      → is_fuel e ≡ false
      → IsLive h b xs p
      → IsParsed h b xs (fail e p)

data IsLine (h b : ℕ) (xs : List ℕ) : Line → Type 0 where
  bad : (e : ParseError) → is_fuel e ≡ false → IsLine h b xs (line_failed e)
  good : (p : HttpParser) → IsLive h b xs p → IsLine h b xs (line_read p)

module _ {h b : ℕ} {xs : List ℕ} where
  pub if-IsParsed :
      (c : Bool) {r s : Fed}
      → IsParsed h b xs r
      → IsParsed h b xs s
      → IsParsed h b xs (if c then r else s)
  if-IsParsed true hr hs = hr
  if-IsParsed false hr hs = hs

  if-IsLine :
      (c : Bool) {r s : Line}
      → IsLine h b xs r
      → IsLine h b xs s
      → IsLine h b xs (if c then r else s)
  if-IsLine true hr hs = hr
  if-IsLine false hr hs = hs

  with_found-IsLine :
      (o : Option ℕ) {r : Line} {f : ℕ → Line}
      → IsLine h b xs r
      → ((i : ℕ) → IsLine h b xs (f i))
      → IsLine h b xs (with_found o r f)
  with_found-IsLine none hr hf = hr
  with_found-IsLine (some i) hr hf = hf i

  pub with_found-IsParsed :
      (o : Option ℕ) {r : Fed} {f : ℕ → Fed}
      → IsParsed h b xs r
      → ((i : ℕ) → IsParsed h b xs (f i))
      → IsParsed h b xs (with_found o r f)
  with_found-IsParsed none hr hf = hr
  with_found-IsParsed (some i) hr hf = hf i

  -- What `find` finds from `start` on is not in front of `start`.
  pub shifted-IsParsed :
      (start : ℕ) (o : Option ℕ) {r : Fed} {f : ℕ → Fed}
      → IsParsed h b xs r
      → ((i : ℕ) → start ≤ i → IsParsed h b xs (f i))
      → IsParsed h b xs (with_found (shifted start o) r f)
  shifted-IsParsed start none hr hf = hr
  shifted-IsParsed start (some i) hr hf = hf (start + i) (omega arith)

  set_headers-IsLive :
      (p : HttpParser) (hs : Headers) → IsLive h b xs p → IsLive h b xs (set_headers p hs)
  set_headers-IsLive p hs v = record {
    header_limit = v.header_limit;
    body_limit = v.body_limit;
    bytes = v.bytes;
    fits = v.fits;
    running = v.running;
    sound = v.sound;
  }

  pub set_target-IsLive :
      (p : HttpParser) (method path query : List ℕ)
      → IsLive h b xs p
      → IsLive h b xs (set_target p method path query)
  set_target-IsLive p method path query v = record {
    header_limit = v.header_limit;
    body_limit = v.body_limit;
    bytes = v.bytes;
    fits = v.fits;
    running = v.running;
    sound = v.sound;
  }

  emplace-IsLine :
      (p : HttpParser) (name value : List ℕ) (o : Option (List ℕ))
      → IsLive h b xs p
      → IsLine h b xs (emplace p name value o)
  emplace-IsLine p name value none v = good _ (set_headers-IsLive p _ v)
  emplace-IsLine p name value (some old) v =
      if-IsLine (text_eq name content_length_name && not (text_eq old value)) (bad _ refl) (
        if-IsLine (not (text_eq name content_length_name)) (good _ (set_headers-IsLive p _ v))
          (good p v))

  save_header-IsLine :
      (p : HttpParser) (line : List ℕ) (colon : ℕ)
      → IsLive h b xs p
      → IsLine h b xs (save_header p line colon)
  unfolding save_header
  save_header-IsLine p line colon v = if-IsLine (colon == 0) (bad _ refl) (
      if-IsLine
        (is_empty (lowercase (take colon line))
          || is_found (find (13 ∷ []) (trim (drop (colon + 1) line)))
          || is_found (find (10 ∷ []) (trim (drop (colon + 1) line))))
        (bad _ refl) (emplace-IsLine p _ _ (lookup _ p.parsed_request.headers) v))

  read_line-IsLine :
      (p : HttpParser) (header_end line_start line_end : ℕ)
      → IsLive h b xs p
      → IsLine h b xs (read_line p header_end line_start line_end)
  unfolding read_line
  read_line-IsLine p header_end line_start line_end v =
      if-IsLine (ltb header_end line_end) (bad _ refl) (
        with_found-IsLine (find (58 ∷ []) (take (line_end - line_start) (drop line_start p.buffer)))
          (bad _ refl) λ colon. save_header-IsLine p _ colon v)

  after_line-IsParsed :
      (p : HttpParser) (l : Line) (rest : HttpParser → Fed)
      → IsLive h b xs p
      → IsLine h b xs l
      → ((p' : HttpParser) → IsLive h b xs p' → IsParsed h b xs (rest p'))
      → IsParsed h b xs (after_line p l rest)
  after_line-IsParsed p (line_failed e) rest v (bad _ ne) hr = failed e p ne v
  after_line-IsParsed p (line_read p') rest v (good _ v') hr = hr p' v'

  accept_length-IsParsed :
      (p : HttpParser) (o : Option ℕ) → IsLive h b xs p → IsParsed h b xs (accept_length p o)
  accept_length-IsParsed p none v = failed invalid_content_length p refl v
  accept_length-IsParsed p (some parsed) v = elim (Bool-cases (ltb p.max_body_bytes parsed)) [
    | inl e ↦ rw e (failed body_too_large p refl v)
    | inr e ↦ rw e (
        going _ (record {
          header_limit = v.header_limit;
          body_limit = v.body_limit;
          bytes = v.bytes;
          fits = ground (arith, v.body_limit);
          running = v.running;
          sound = v.sound;
        }))
  ]

  check_length-IsParsed :
      (p : HttpParser) (o : Option (List ℕ)) → IsLive h b xs p → IsParsed h b xs (check_length p o)
  check_length-IsParsed p none v = going p v
  check_length-IsParsed p (some value) v = accept_length-IsParsed p (from_chars value) v

  check_headers-IsParsed : (p : HttpParser) → IsLive h b xs p → IsParsed h b xs (check_headers p)
  unfolding check_headers
  check_headers-IsParsed p v =
      if-IsParsed (has_value (lookup transfer_encoding_name p.parsed_request.headers))
        (failed transfer_encoding p refl v)
        (check_length-IsParsed p (lookup content_length_name p.parsed_request.headers) v)

  -- A round moves `line_start` on, so a round for each byte that is left is enough.
  pub read_headers-IsParsed :
      (fuel : ℕ) (p : HttpParser) (header_end line_start : ℕ)
      → header_end ≤ line_start + fuel
      → IsLive h b xs p
      → IsParsed h b xs (read_headers fuel p header_end line_start)
  unfolding read_headers
  read_headers-IsParsed zero p header_end line_start enough v =
      rw (le→ltb line_start header_end (omega arith)) (check_headers-IsParsed p v)
  read_headers-IsParsed (suc fuel) p header_end line_start enough v =
      if-IsParsed (ltb line_start header_end)
        (shifted-IsParsed line_start (find crlf (drop line_start p.buffer))
          (failed malformed_header_line p refl v)
          λ line_end later.
            after_line-IsParsed p (read_line p header_end line_start line_end) _ v
              (read_line-IsLine p header_end line_start line_end v)
              λ p' v'. read_headers-IsParsed fuel p' header_end (line_end + 2) (omega arith) v')
        (check_headers-IsParsed p v)
