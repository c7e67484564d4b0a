-- ===== src/Http/Parser.antt =====
-- http/http_parser.h and http_parser.cpp: `HTTPParser`. `feed` returns a status and the new state.
pub mod Limits
pub mod Feed
pub mod Headerless
use io_t_delivery_fleet_moni.Prelude.{
  ℕ, zero, suc, ◌+◌, ◌-◌, List, [], ◌∷◌, ◌++◌, Option, none, some, Bool, true, false, not, ◌&&◌,
  ◌||◌, ltb, leb, ◌==◌, if◌then◌else◌, take, drop, length, add64, sub64, text_eq,
}
use io_t_delivery_fleet_moni.Http.Text.{
  find, find_from, is_found, is_empty, trim, lowercase, from_chars, Headers, lookup, append_value,
}

pub record HttpRequest : Type 0 where
  pub method : List ℕ
  pub path : List ℕ
  pub query : List ℕ
  pub headers : Headers
  pub body : List ℕ

pub data ParseStatus : Type 0 where
  status_incomplete status_complete status_error : ParseStatus

-- The texts of `parse_error`. `out_of_fuel` is no C++ value: the header loop ran out of rounds.
pub data ParseError : Type 0 where
  request_too_large headers_too_large missing_request_line malformed_request_line : ParseError
  unsupported_version empty_path malformed_header_line malformed_header : ParseError
  malformed_header_value conflicting_content_length transfer_encoding : ParseError
  invalid_content_length body_too_large out_of_fuel : ParseError

-- `none` is an empty `parse_error`.
pub record HttpParser : Type 0 where
  pub max_header_bytes : ℕ
  pub max_body_bytes : ℕ
  pub buffer : List ℕ
  pub parsed_request : HttpRequest
  pub parse_error : Option ParseError
  pub content_length : ℕ
  pub headers_parsed : Bool
  pub complete : Bool

abbrev pub new_parser : ℕ → ℕ → HttpParser
new_parser max_header_bytes max_body_bytes = record {
  max_header_bytes = max_header_bytes;
  max_body_bytes = max_body_bytes;
  buffer = [];
  parsed_request = record { method = []; path = []; query = []; headers = []; body = [] };
  parse_error = none;
  content_length = 0;
  headers_parsed = false;
  complete = false;
}

-- What a method of the parser returns and leaves.
abbrev pub Fed : Type 0
Fed = ParseStatus × HttpParser

abbrev pub fail : ParseError → HttpParser → Fed
fail e p = (status_error, record p { parse_error = some e })

abbrev pub with_found {ℓ} : {A : Type ℓ} → Option ℕ → A → (ℕ → A) → A
with_found none missing found = missing
with_found (some index) missing found = found index

abbrev pub crlf : List ℕ
crlf = 13 ∷ 10 ∷ []

-- "content-length"
abbrev pub content_length_name : List ℕ
content_length_name =
    99 ∷ 111 ∷ 110 ∷ 116 ∷ 101 ∷ 110 ∷ 116 ∷ 45 ∷ 108 ∷ 101 ∷ 110 ∷ 103 ∷ 116 ∷ 104 ∷ []

-- "transfer-encoding"
abbrev pub transfer_encoding_name : List ℕ
transfer_encoding_name =
    116 ∷ 114 ∷ 97 ∷ 110 ∷ 115 ∷ 102 ∷ 101 ∷ 114 ∷ 45 ∷ 101 ∷ 110 ∷ 99 ∷ 111 ∷ 100 ∷ 105 ∷ 110 ∷ 103
    ∷ []

-- "HTTP/1." and a digit
abbrev pub http_version : ℕ → List ℕ
http_version digit = 72 ∷ 84 ∷ 84 ∷ 80 ∷ 47 ∷ 49 ∷ 46 ∷ digit ∷ []

abbrev pub set_headers : HttpParser → Headers → HttpParser
set_headers p hs = record p { parsed_request = record (p.parsed_request) { headers = hs } }

-- How a round of the header loop ends: with an error, or with the parser that goes on.
pub data Line : Type 0 where
  line_failed : ParseError → Line
  line_read : HttpParser → Line

-- `emplace`, and what follows if the name was there.
abbrev pub emplace : HttpParser → List ℕ → List ℕ → Option (List ℕ) → Line
emplace p name value none =
    line_read (set_headers p (p.parsed_request.headers ++ ((name, value) ∷ [])))
emplace p name value (some old) =
    if text_eq name content_length_name && not (text_eq old value)
    then line_failed conflicting_content_length
    else if not (text_eq name content_length_name)
    then line_read (set_headers p (append_value name (44 ∷ value) p.parsed_request.headers))
    else line_read p

-- One header line, with the place of its colon.
pub save_header : HttpParser → List ℕ → ℕ → Line
save_header p line colon =
    let name = lowercase (take colon line) in
    let value = trim (drop (colon + 1) line) in
    if colon == 0
    then line_failed malformed_header
    else if is_empty name || is_found (find (13 ∷ []) value) || is_found (find (10 ∷ []) value)
    then line_failed malformed_header_value
    else emplace p name value (lookup name p.parsed_request.headers)

-- The line between `line_start` and `line_end`.
pub read_line : HttpParser → ℕ → ℕ → ℕ → Line
read_line p header_end line_start line_end =
    let line = take (line_end - line_start) (drop line_start p.buffer) in
    if ltb header_end line_end
    then line_failed malformed_header_line
    else with_found (find (58 ∷ []) line) (line_failed malformed_header) (save_header p line)

abbrev pub after_line : HttpParser → Line → (HttpParser → Fed) → Fed
after_line p (line_failed e) rest = fail e p
after_line p (line_read p') rest = rest p'

abbrev pub accept_length : HttpParser → Option ℕ → Fed
accept_length p none = fail invalid_content_length p
accept_length p (some parsed) =
    if ltb p.max_body_bytes parsed
    then fail body_too_large p
    else (status_incomplete, record p { content_length = parsed })

abbrev pub check_length : HttpParser → Option (List ℕ) → Fed
check_length p none = (status_incomplete, p)
check_length p (some value) = accept_length p (from_chars value)

abbrev pub has_value : Option (List ℕ) → Bool
has_value none = false
has_value (some value) = true

-- What follows the header loop.
pub check_headers : HttpParser → Fed
check_headers p =
    if has_value (lookup transfer_encoding_name p.parsed_request.headers)
    then fail transfer_encoding p
    else check_length p (lookup content_length_name p.parsed_request.headers)

-- The header loop.
pub read_headers : ℕ → HttpParser → ℕ → ℕ → Fed
read_headers zero p header_end line_start =
    if ltb line_start header_end then fail out_of_fuel p else check_headers p
read_headers (suc fuel) p header_end line_start =
    let round =
      with_found (find_from crlf p.buffer line_start) (fail malformed_header_line p) λ line_end.
        after_line p (read_line p header_end line_start line_end)
          λ p'. read_headers fuel p' header_end (line_end + 2) in
    if ltb line_start header_end then round else check_headers p

abbrev pub set_target : HttpParser → List ℕ → List ℕ → List ℕ → HttpParser
set_target p method path query = record p {
  parsed_request = record (p.parsed_request) { method = method; path = path; query = query };
}

-- The target, split at the first question mark; a path that is empty fails after `method` is set.
pub save_target : HttpParser → List ℕ → List ℕ → (HttpParser → Fed) → Fed
save_target p method target rest =
    with_found (find (63 ∷ []) target)
      (if is_empty target
        then fail empty_path (set_target p method p.parsed_request.path p.parsed_request.query)
        else rest (set_target p method target p.parsed_request.query))
      λ query_start.
        if is_empty (take query_start target)
        then fail empty_path (set_target p method p.parsed_request.path p.parsed_request.query)
        else rest (set_target p method (take query_start target) (drop (query_start + 1) target))

pub parse_request_line : HttpParser → List ℕ → (HttpParser → Fed) → Fed
parse_request_line p line rest =
    with_found (find (32 ∷ []) line) (fail malformed_request_line p) λ method_end.
      with_found (find_from (32 ∷ []) line (method_end + 1)) (fail malformed_request_line p)
        λ path_end.
          let version = drop (path_end + 1) line in
          if method_end == 0 || path_end == method_end + 1
          then fail malformed_request_line p
          else if not (text_eq version (http_version 48)) && not (text_eq version (http_version 49))
          then fail unsupported_version p
          else save_target p (take method_end line)
              (take (path_end - method_end - 1) (drop (method_end + 1) line)) rest

-- `parse_headers`; the loop has a round for each byte of the header block.
unfoldable pub parse_headers : HttpParser → ℕ → Fed
parse_headers p header_end =
    with_found (find crlf p.buffer) (fail missing_request_line p) λ request_line_end.
      if leb header_end request_line_end
      then fail missing_request_line p
      else parse_request_line p (take request_line_end p.buffer)
          λ p'. read_headers header_end p' header_end (request_line_end + 2)

-- The end of `feed`, once the headers are parsed.
abbrev pub take_body : HttpParser → Fed
take_body p = if ltb (length p.buffer) p.content_length then (status_incomplete, p) else (
  status_complete,
  record p {
    parsed_request = record (p.parsed_request) { body = take p.content_length p.buffer };
    complete = true;
  },
)

abbrev pub after_headers : ℕ → Fed → Fed
after_headers separator (status_error, p) = (status_error, p)
after_headers separator (status_incomplete, p) =
    take_body (record p { headers_parsed = true; buffer = drop (separator + 4) p.buffer })
after_headers separator (status_complete, p) =
    take_body (record p { headers_parsed = true; buffer = drop (separator + 4) p.buffer })

-- The headers, from the buffer with the new bytes.
unfoldable pub feed_headers : HttpParser → Fed
feed_headers p =
    with_found (find (crlf ++ crlf) p.buffer)
      (if ltb p.max_header_bytes (length p.buffer)
        then fail headers_too_large p
        else (status_incomplete, p))
      λ separator.
        if ltb p.max_header_bytes (separator + 4)
        then fail headers_too_large p
        else after_headers separator (parse_headers p separator)

abbrev pub has_error : Option ParseError → Bool
has_error none = false
has_error (some e) = true

unfoldable pub feed : HttpParser → List ℕ → Fed
feed p bytes =
    let limit = add64 p.max_header_bytes p.max_body_bytes in
    let p' = record p { buffer = p.buffer ++ bytes } in
    if p.complete
    then (status_complete, p)
    else if has_error p.parse_error
    then (status_error, p)
    else if ltb limit (length p.buffer) || ltb (sub64 limit (length p.buffer)) (length bytes)
    then fail request_too_large p
    else if p.headers_parsed
    then take_body p'
    else feed_headers p'
