-- ===== src/Gateway/Json.antt =====
-- network/tcp_server.cpp: `json_escape`, and a reader of JSON strings to compare it with.
pub mod RoundTrip
use io_t_delivery_fleet_moni.Prelude.{
  ℕ, zero, suc, ◌+◌, ◌-◌, ◌*◌, ◌/◌, ◌%◌, List, [], ◌∷◌, ◌++◌, Option, none, some, Bool, true, false,
  ltb, leb, ◌==◌, ◌&&◌, ◌||◌, if◌then◌else◌,
}
use io_t_delivery_fleet_moni.Gateway.Utf8.{is_utf8}

-- A character of "0123456789abcdef".
abbrev pub hex_digit : ℕ → ℕ
hex_digit d = if ltb d 10 then 48 + d else 87 + d

abbrev pub escape_byte : ℕ → List ℕ
escape_byte byte =
    if byte == 34
    then 92 ∷ 34 ∷ []
    else if byte == 92
    then 92 ∷ 92 ∷ []
    else if byte == 8
    then 92 ∷ 98 ∷ []
    else if byte == 12
    then 92 ∷ 102 ∷ []
    else if byte == 10
    then 92 ∷ 110 ∷ []
    else if byte == 13
    then 92 ∷ 114 ∷ []
    else if byte == 9
    then 92 ∷ 116 ∷ []
    else if ltb byte 32
    then 92 ∷ 117 ∷ 48 ∷ 48 ∷ hex_digit (byte / 16) ∷ hex_digit (byte % 16) ∷ []
    else byte ∷ []

-- A byte is shifted right by four and masked with fifteen.
unfoldable pub json_escape : List ℕ → List ℕ
json_escape [] = []
json_escape (byte ∷ value) = escape_byte byte ++ json_escape value

-- Where a reader of a JSON string stands: in the text, behind a backslash, or in the digits of a
-- code, of which some are left.
pub data Reading : Type 0 where
  plain behind_backslash : Reading
  in_code : (left parsed : ℕ) → Reading

abbrev pub hex_value : ℕ → Option ℕ
hex_value c =
    if leb 48 c && leb c 57
    then some (c - 48)
    else if leb 97 c && leb c 102
    then some (c - 87)
    else none

-- The character behind a backslash, other than u.
abbrev pub escaped : ℕ → Option ℕ
escaped c =
    if c == 34 || (c == 92 || c == 47)
    then some c
    else if c == 98
    then some 8
    else if c == 102
    then some 12
    else if c == 110
    then some 10
    else if c == 114
    then some 13
    else if c == 116
    then some 9
    else none

abbrev pub before : Option ℕ → Option (List ℕ) → Option (List ℕ)
before none rest = none
before (some c) none = none
before (some c) (some text) = some (c ∷ text)

-- What follows a digit of a code; the last one ends the code, which is a character of ASCII.
abbrev pub after_digit :
    ℕ → ℕ → Option ℕ → Option (List ℕ) → (ℕ → Option (List ℕ)) → Option (List ℕ)
after_digit left parsed none rest more = none
after_digit left parsed (some d) rest more =
    if left == 1
    then if ltb (parsed * 16 + d) 128 then before (some (parsed * 16 + d)) rest else none
    else more (parsed * 16 + d)

-- RFC 8259, section 7: the bytes of a JSON string, with codes of ASCII only.
unfoldable pub read_string : Reading → List ℕ → Option (List ℕ)
read_string plain [] = some []
read_string behind_backslash [] = none
read_string (in_code left parsed) [] = none
read_string plain (c ∷ text) =
    let escape = read_string behind_backslash text in
    let rest = read_string plain text in
    if c == 92 then escape else if c == 34 || ltb c 32 then none else before (some c) rest
read_string behind_backslash (c ∷ text) =
    let code = read_string (in_code 4 0) text in
    let rest = read_string plain text in if c == 117 then code else before (escaped c) rest
read_string (in_code left parsed) (c ∷ text) =
    let rest = read_string plain text in
    after_digit left parsed (hex_value c) rest λ v. read_string (in_code (left - 1) v) text

-- JSON is text in UTF-8 (RFC 8259, section 8.1).
pub read_json_string : List ℕ → Option (List ℕ)
read_json_string text = if is_utf8 text then read_string plain text else none
