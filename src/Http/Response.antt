-- ===== src/Http/Response.antt =====
-- http/http_response.h and http_response.cpp: `HttpResponse` and its serialization.
pub mod Framing
use io_t_delivery_fleet_moni.Prelude.{
  ℕ, List, [], ◌∷◌, ◌++◌, Bool, false, ◌||◌, if◌then◌else◌, length, codes, text_eq, to_string,
}
use io_t_delivery_fleet_moni.Http.Text.{Headers}

-- The headers are listed in the order in which the map is walked.
pub record HttpResponse : Type 0 where
  pub status_code : ℕ
  pub reason : List ℕ
  pub headers : Headers
  pub body : List ℕ

abbrev pub response : ℕ → List ℕ → List ℕ → HttpResponse
response status_code reason body = record {
  status_code = status_code;
  reason = reason;
  headers = [];
  body = body;
}

abbrev pub end_line : List ℕ
end_line = 13 ∷ 10 ∷ []

-- The loop over the headers, with `has_length`. Each part of the text takes what follows it.
unfoldable pub header_lines : Headers → List ℕ → List ℕ
header_lines [] rest = rest
header_lines (h ∷ headers) rest =
    h.0 ++ (codes ": " ++ (h.1 ++ (end_line ++ header_lines headers rest)))

unfoldable pub has_length : Headers → Bool
has_length [] = false
has_length (h ∷ headers) =
    text_eq h.0 (codes "Content-Length")
    || (text_eq h.0 (codes "content-length") || has_length headers)

unfoldable pub status_line : HttpResponse → List ℕ → List ℕ
status_line r rest =
    codes "HTTP/1.1 "
    ++ (to_string r.status_code ++ (codes " " ++ (r.reason ++ (end_line ++ rest))))

unfoldable pub length_line : HttpResponse → List ℕ → List ℕ
length_line r rest =
    if has_length r.headers
    then rest
    else codes "Content-Length: " ++ (to_string (length r.body) ++ (end_line ++ rest))

-- `HttpResponse::to_string`
unfoldable pub serialize : HttpResponse → List ℕ
serialize r = status_line r (
    header_lines r.headers
      (length_line r (codes "Connection: close" ++ (end_line ++ (end_line ++ r.body)))))
