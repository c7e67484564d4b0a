-- ===== src/Http/Response/Framing.antt =====
-- http/http_response.cpp: a reader finds the body of a serialized response.
use io_t_delivery_fleet_moni.Prelude.{
  ℕ, suc, ◌≡◌, refl, List, [], ◌∷◌, ◌++◌, some, Bool, true, false, not, ◌==◌, length, drop, codes,
  to_string, if-cases, arith,
}
use io_t_delivery_fleet_moni.Http.Text.{starts_with, find, Headers}
use io_t_delivery_fleet_moni.Http.Text.Find.{lacks, find-blank_line}
use io_t_delivery_fleet_moni.Http.Text.Numbers.{lacks-to_string}
use io_t_delivery_fleet_moni.Http.Response.{
  HttpResponse, end_line, header_lines, has_length, status_line, length_line, serialize,
}

abbrev blank_line : List ℕ
blank_line = 13 ∷ 10 ∷ 13 ∷ 10 ∷ []

-- A text that does not start with a carriage return.
abbrev is_line : List ℕ → Bool
is_line [] = false
is_line (c ∷ text) = not (c == 13)

-- Where a text has its first blank line, and the body behind it.
abbrev pub IsFramed : List ℕ → List ℕ → Type 0
IsFramed text body = (i : ℕ) × (find blank_line text ≡ some i) × (drop 4 (drop i text) ≡ body)

IsFramed-cons :
    (c : ℕ) (text body : List ℕ)
    → starts_with blank_line (c ∷ text) ≡ false
    → IsFramed text body
    → IsFramed (c ∷ text) body
unfolding find
IsFramed-cons c text body h (i, found, behind) = (suc i, ground (arith, found, h), behind)

-- Bytes that are no carriage returns in front.
IsFramed-append :
    (line text body : List ℕ)
    → lacks 13 line ≡ true
    → IsFramed text body
    → IsFramed (line ++ text) body
unfolding lacks starts_with
IsFramed-append [] text body h v = v
IsFramed-append (c ∷ line) text body h v =
    IsFramed-cons c (line ++ text) body (ground (arith, h))
      (IsFramed-append line text body (ground (arith, h)) v)

-- The end of a line in front of another line.
IsFramed-end_line :
    (text body : List ℕ)
    → is_line text ≡ true
    → IsFramed text body
    → IsFramed (end_line ++ text) body
unfolding starts_with
IsFramed-end_line [] body h v = absurd (ground (arith, h))
IsFramed-end_line (c ∷ text) body h v =
    IsFramed-cons 13 (10 ∷ (c ∷ text)) body (ground (arith, h))
      (IsFramed-cons 10 (c ∷ text) body refl v)

-- No carriage return stands in a header.
abbrev pub IsClean : Headers → Type 0
IsClean [] = Unit {0}
IsClean (h ∷ headers) = ((lacks 13 h.0 ≡ true) × (lacks 13 h.1 ≡ true)) × IsClean headers

is_line-append :
    (name text : List ℕ)
    → lacks 13 name ≡ true
    → is_line text ≡ true
    → is_line (name ++ text) ≡ true
unfolding lacks
is_line-append [] text h e = e
is_line-append (c ∷ name) text h e = ground (arith, h)

is_line-header_lines :
    (headers : Headers) (rest : List ℕ)
    → IsClean headers
    → is_line rest ≡ true
    → is_line (header_lines headers rest) ≡ true
unfolding header_lines
is_line-header_lines [] rest clean e = e
is_line-header_lines (h ∷ headers) rest clean e =
    is_line-append h.0 (codes ": " ++ (h.1 ++ (end_line ++ header_lines headers rest))) clean.0.0
      refl

IsFramed-header_lines :
    (headers : Headers) (rest body : List ℕ)
    → IsClean headers
    → is_line rest ≡ true
    → IsFramed rest body
    → IsFramed (header_lines headers rest) body
unfolding header_lines lacks
IsFramed-header_lines [] rest body clean e v = v
IsFramed-header_lines (h ∷ headers) rest body clean e v =
    let others = header_lines headers rest in
    let ended =
      IsFramed-end_line others body (is_line-header_lines headers rest clean.1 e)
        (IsFramed-header_lines headers rest body clean.1 e v) in
    IsFramed-append h.0 (codes ": " ++ (h.1 ++ (end_line ++ others))) body clean.0.0 (
      IsFramed-append (codes ": ") (h.1 ++ (end_line ++ others)) body refl
        (IsFramed-append h.1 (end_line ++ others) body clean.0.1 ended))

-- The text from the length on, which starts with a letter.
length_line-IsFramed :
    (r : HttpResponse) (rest : List ℕ)
    → is_line rest ≡ true
    → IsFramed rest r.body
    → (is_line (length_line r rest) ≡ true) × IsFramed (length_line r rest) r.body
unfolding length_line lacks
length_line-IsFramed r rest e v =
    let digits = to_string (length r.body) in
    if-cases (λ text. (is_line text ≡ true) × IsFramed text r.body) (has_length r.headers)
      (λ _. (e, v))
      λ _. (
        refl,
        IsFramed-append (codes "Content-Length: ") (digits ++ (end_line ++ rest)) r.body refl (
            IsFramed-append digits (end_line ++ rest) r.body
              (lacks-to_string 13 (length r.body) (omega arith))
              (IsFramed-end_line rest r.body e v)),
      )

-- The first blank line of a serialized response ends its headers, and what follows is exactly the
-- body, if neither the reason nor a header contains a carriage return.
pub serialize-IsFramed :
    (r : HttpResponse)
    → lacks 13 r.reason ≡ true
    → IsClean r.headers
    → IsFramed (serialize r) r.body
unfolding serialize status_line lacks
serialize-IsFramed r clean_reason clean =
    let last = codes "Connection: close" ++ (end_line ++ (end_line ++ r.body)) in
    let last_framed : IsFramed last r.body =
      (17, find-blank_line (codes "Connection: close") r.body refl, refl) in
    let lengths = length_line-IsFramed r last refl last_framed in
    let rest = header_lines r.headers (length_line r last) in
    let framed =
      IsFramed-header_lines r.headers (length_line r last) r.body clean lengths.0 lengths.1 in
    let starts = is_line-header_lines r.headers (length_line r last) clean lengths.0 in
    let code = to_string r.status_code in
    IsFramed-append (codes "HTTP/1.1 ") (code ++ (codes " " ++ (r.reason ++ (end_line ++ rest))))
      r.body refl
      (IsFramed-append code (codes " " ++ (r.reason ++ (end_line ++ rest))) r.body
        (lacks-to_string 13 r.status_code (omega arith))
        (IsFramed-append (codes " ") (r.reason ++ (end_line ++ rest)) r.body refl (
          IsFramed-append r.reason (end_line ++ rest) r.body clean_reason
            (IsFramed-end_line rest r.body starts framed))))
