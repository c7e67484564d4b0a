-- ===== src/Http/Text.antt =====
-- http/http_parser.cpp: `trim`, `lowercase`, and what the parser uses of strings, maps and
-- `from_chars`. A string is a list of bytes.
pub mod Find
pub mod Numbers
use io_t_delivery_fleet_moni.Prelude.{
  ℕ, zero, suc, ◌+◌, ◌-◌, ◌*◌, ◌^◌, List, [], ◌∷◌, ◌++◌, Option, none, some, Bool, true, false,
  ◌&&◌, ◌||◌, ltb, leb, ◌==◌, if◌then◌else◌, take, drop, length, get_elem?, map, text_eq,
}

-- Does the text start with the pattern?
unfoldable pub starts_with : List ℕ → List ℕ → Bool
starts_with [] text = true
starts_with (p ∷ pattern) [] = false
starts_with (p ∷ pattern) (c ∷ text) = p == c && starts_with pattern text

abbrev pub shifted : ℕ → Option ℕ → Option ℕ
shifted by none = none
shifted by (some index) = some (by + index)

-- `find` with a pattern that is not empty.
unfoldable pub find : List ℕ → List ℕ → Option ℕ
unfolding starts_with
find pattern [] = none
find pattern (c ∷ text) =
    let later = shifted 1 (find pattern text) in
    if starts_with pattern (c ∷ text) then some 0 else later

-- `find` from an index on.
abbrev pub find_from : List ℕ → List ℕ → ℕ → Option ℕ
find_from pattern text start = shifted start (find pattern (drop start text))

abbrev pub is_found : Option ℕ → Bool
is_found none = false
is_found (some index) = true

abbrev pub is_empty : List ℕ → Bool
is_empty [] = true
is_empty (c ∷ text) = false

abbrev pub is_blank : ℕ → Bool
is_blank c = c == 32 || c == 9

-- The first loop of `trim`.
unfoldable pub first_kept : List ℕ → ℕ
first_kept [] = 0
first_kept (c ∷ value) = let later = suc (first_kept value) in if is_blank c then later else 0

abbrev pub blank_at : Option ℕ → Bool
blank_at none = false
blank_at (some c) = is_blank c

-- The second loop of `trim`; the last argument is `last`.
unfoldable pub last_kept : List ℕ → ℕ → ℕ → ℕ
last_kept value first zero = zero
last_kept value first (suc last) =
    let earlier = last_kept value first last in
    if ltb first (suc last) && blank_at (get_elem? value last) then earlier else suc last

unfoldable pub trim : List ℕ → List ℕ
trim value =
    let first = first_kept value in
    let last = last_kept value first (length value) in take (last - first) (drop first value)

-- `tolower` in the C locale.
abbrev pub to_lower : ℕ → ℕ
to_lower c = if leb 65 c && leb c 90 then c + 32 else c

pub lowercase : List ℕ → List ℕ
lowercase value = map to_lower value

-- `from_chars` on the whole text; `none` where the parser would see an error or a rest.
digits_value : ℕ → List ℕ → Option ℕ
digits_value parsed [] = some parsed
digits_value parsed (c ∷ text) =
    let more = digits_value (parsed * 10 + (c - 48)) text in
    if leb 48 c && leb c 57 then more else none

abbrev pub in_range : Option ℕ → Option ℕ
in_range none = none
in_range (some parsed) = if ltb parsed (2 ^ 64) then some parsed else none

pub from_chars : List ℕ → Option ℕ
unfolding digits_value
from_chars value = if is_empty value then none else in_range (digits_value 0 value)

-- The header map, as an association list.
abbrev pub Headers : Type 0
Headers = List (List ℕ × List ℕ)

pub lookup : List ℕ → Headers → Option (List ℕ)
lookup name [] = none
lookup name (h ∷ headers) = if text_eq h.0 name then some h.1 else lookup name headers

-- Adds to the value of a name that is there.
pub append_value : List ℕ → List ℕ → Headers → Headers
append_value name more [] = []
append_value name more (h ∷ headers) =
    if text_eq h.0 name then (h.0, h.1 ++ more) ∷ headers else h ∷ append_value name more headers
