-- ===== src/Gateway/Json/RoundTrip.antt =====
-- network/tcp_server.cpp: what `json_escape` writes is read back.
use io_t_delivery_fleet_moni.Prelude.{
  zero, suc, ◌≤◌, Bool-cases, length, inl, inr, ◌||◌, Bool, true, leb, ◌&&◌, ltb→lt, ℕ, ◌+◌, ◌*◌,
  ◌/◌, ◌%◌, ◌<◌, ◌≡◌, refl, ap, ◌∙◌, List, [], ◌∷◌, ◌++◌, Option, none, some, false, ltb, ◌==◌,
  if◌then◌else◌, if-cases, arith, ==_iff, lt→ltb, sym,
}
use io_t_delivery_fleet_moni.Gateway.Utf8.{
  Expected, character, tail, tails, behind_first, is_utf8_behind, is_utf8,
}
use io_t_delivery_fleet_moni.Gateway.Json.{
  read_json_string, hex_digit, escape_byte, json_escape, plain, hex_value, escaped, before,
  read_string,
}

hex_value-hex_digit : (d : ℕ) → d < 16 → hex_value (hex_digit d) ≡ some d
hex_value-hex_digit d h = ground (arith, h)

-- A byte that is escaped is read back, whatever follows.
IsRead : ℕ → List ℕ → List ℕ → Type 0
IsRead byte text e = read_string plain (e ++ text) ≡ before (some byte) (read_string plain text)

IsRead-escaped :
    (byte name : ℕ) (text : List ℕ)
    → escaped name ≡ some byte
    → (name == 117) ≡ false
    → IsRead byte text (92 ∷ name ∷ [])
unfolding IsRead read_string
IsRead-escaped byte name text e n = rw (n, e) refl

code_end :
    (v byte : ℕ) (rest : Option (List ℕ))
    → v ≡ byte
    → byte < 128
    → (if ltb v 128 then before (some v) rest else none) ≡ before (some byte) rest
code_end v byte rest e h = rw e (rw (lt→ltb byte 128 h) refl)

IsRead-hex_digit :
    (byte : ℕ) (text : List ℕ)
    → byte < 32
    → IsRead byte text (92 ∷ 117 ∷ 48 ∷ 48 ∷ hex_digit (byte / 16) ∷ hex_digit (byte % 16) ∷ [])
unfolding IsRead read_string
IsRead-hex_digit byte text h =
    rw
      (
        hex_value-hex_digit (byte / 16) (omega (arith, h)),
        hex_value-hex_digit (byte % 16) (omega arith),
      )
      (code_end ((0 + byte / 16) * 16 + byte % 16) byte (read_string plain text) (omega arith)
        (omega (arith, h)))

IsRead-plain :
    (byte : ℕ) (text : List ℕ)
    → (byte == 92) ≡ false
    → (byte == 34) ≡ false
    → ltb byte 32 ≡ false
    → IsRead byte text (byte ∷ [])
unfolding IsRead read_string
IsRead-plain byte text not_92 not_34 printed = rw (not_92, not_34, printed) refl

escape_byte-IsRead : (byte : ℕ) (text : List ℕ) → IsRead byte text (escape_byte byte)
escape_byte-IsRead byte text =
    if-cases (IsRead byte text) (byte == 34)
      (λ e. IsRead-escaped byte 34 text (ap some (sym ((==_iff byte 34).0 e))) refl)
      λ not_34.
        if-cases (IsRead byte text) (byte == 92)
          (λ e. IsRead-escaped byte 92 text (ap some (sym ((==_iff byte 92).0 e))) refl)
          λ not_92.
            if-cases (IsRead byte text) (byte == 8)
              (λ e. IsRead-escaped byte 98 text (ap some (sym ((==_iff byte 8).0 e))) refl)
              λ not_8.
                if-cases (IsRead byte text) (byte == 12)
                  (λ e. IsRead-escaped byte 102 text (ap some (sym ((==_iff byte 12).0 e))) refl)
                  λ not_12.
                    if-cases (IsRead byte text) (byte == 10)
                      (λ e.
                        IsRead-escaped byte 110 text (ap some (sym ((==_iff byte 10).0 e))) refl)
                      λ not_10.
                        if-cases (IsRead byte text) (byte == 13)
                          (λ e.
                            IsRead-escaped byte 114 text (ap some (sym ((==_iff byte 13).0 e)))
                              refl)
                          λ not_13.
                            if-cases (IsRead byte text) (byte == 9)
                              (λ e.
                                IsRead-escaped byte 116 text (ap some (sym ((==_iff byte 9).0 e)))
                                  refl)
                              λ not_9.
                                if-cases (IsRead byte text) (ltb byte 32)
                                  (λ e. IsRead-hex_digit byte text (ltb→lt byte 32 e))
                                  λ printed. IsRead-plain byte text not_92 not_34 printed

read_string-json_escape : (value : List ℕ) → read_string plain (json_escape value) ≡ some value
unfolding json_escape read_string IsRead
read_string-json_escape [] = refl
read_string-json_escape (byte ∷ value) =
    escape_byte-IsRead byte (json_escape value)
    ∙ ap (before (some byte)) (read_string-json_escape value)

abbrev all_ascii : List ℕ → Bool
all_ascii [] = true
all_ascii (c ∷ text) = ltb c 128 && all_ascii text

escape_byte-ascii : (byte : ℕ) → byte < 128 → all_ascii (escape_byte byte) ≡ true
escape_byte-ascii byte h = ground (arith, h)

escape_byte-high : (byte : ℕ) → 128 ≤ byte → escape_byte byte ≡ byte ∷ []
escape_byte-high byte h = ground (arith, h)

behind_first-ascii : (b : ℕ) → ltb b 128 ≡ true → behind_first b ≡ character
behind_first-ascii b h = rw h refl

is_utf8_behind-ascii :
    (text rest : List ℕ)
    → all_ascii text ≡ true
    → is_utf8_behind character (text ++ rest) ≡ is_utf8_behind character rest
unfolding is_utf8_behind
is_utf8_behind-ascii [] rest h = refl
is_utf8_behind-ascii (c ∷ text) rest h =
    ap (λ e. is_utf8_behind e (text ++ rest)) (behind_first-ascii c (ground (arith, h)))
    ∙ is_utf8_behind-ascii text rest (ground (arith, h))

-- Bytes behind the first one of a character are not escaped.
IsHigh : Expected → Type 0
IsHigh character = Unit
IsHigh (tail left low high) = 128 ≤ low

behind_first-IsHigh : (b : ℕ) → IsHigh (behind_first b)
unfolding IsHigh
behind_first-IsHigh b =
    if-cases IsHigh (ltb b 128) (λ _. tt)
      λ _.
        if-cases IsHigh (leb 194 b && leb b 223) (λ _. omega arith)
          λ _.
            if-cases IsHigh (b == 224) (λ _. omega arith)
              λ _.
                if-cases IsHigh (leb 225 b && leb b 236 || leb 238 b && leb b 239)
                  (λ _. omega arith)
                  λ _.
                    if-cases IsHigh (b == 237) (λ _. omega arith)
                      λ _.
                        if-cases IsHigh (b == 240) (λ _. omega arith)
                          λ _.
                            if-cases IsHigh (leb 241 b && leb b 243) (λ _. omega arith)
                              λ _. if-cases IsHigh (b == 244) (λ _. omega arith) λ _. omega arith

tails-IsHigh : (left : ℕ) → IsHigh (tails left)
unfolding IsHigh
tails-IsHigh zero = tt
tails-IsHigh (suc left) = omega arith

escape_byte-some : (byte : ℕ) → (length (escape_byte byte) == 0) ≡ false
escape_byte-some byte = ground arith

is_utf8_behind-tail :
    (text rest : List ℕ) (left low high : ℕ)
    → 128 ≤ low
    → all_ascii text ≡ true
    → (length text == 0) ≡ false
    → is_utf8_behind (tail left low high) (text ++ rest) ≡ false
unfolding is_utf8_behind
is_utf8_behind-tail [] rest left low high above h some_text = absurd (ground (arith, some_text))
is_utf8_behind-tail (c ∷ text) rest left low high above h some_text = ground (arith, above, h)

is_utf8_behind-json_escape :
    (expected : Expected) (value : List ℕ)
    → IsHigh expected
    → is_utf8_behind expected (json_escape value) ≡ is_utf8_behind expected value
unfolding json_escape is_utf8_behind IsHigh
is_utf8_behind-json_escape character [] high = refl
is_utf8_behind-json_escape (tail left low high) [] above = refl
is_utf8_behind-json_escape character (byte ∷ value) high = elim (Bool-cases (ltb byte 128)) [
  | inl low ↦
      is_utf8_behind-ascii (escape_byte byte) (json_escape value)
        (escape_byte-ascii byte (ltb→lt byte 128 low))
      ∙ is_utf8_behind-json_escape character value tt
      ∙ ap (λ e. is_utf8_behind e value) (sym (behind_first-ascii byte low))
  | inr above ↦
      rw (escape_byte-high byte (ground (arith, above)))
        (is_utf8_behind-json_escape (behind_first byte) value (behind_first-IsHigh byte))
]
is_utf8_behind-json_escape (tail left low high) (byte ∷ value) above =
    elim (Bool-cases (ltb byte 128)) [
      | inl ascii ↦
          is_utf8_behind-tail (escape_byte byte) (json_escape value) left low high above
            (escape_byte-ascii byte (ltb→lt byte 128 ascii)) (escape_byte-some byte)
          ∙ ground (arith, above, ascii)
      | inr not_ascii ↦ rw (escape_byte-high byte (ground (arith, not_ascii))) (
          ap (◌&&◌ (leb low byte && leb byte high))
            (is_utf8_behind-json_escape (tails left) value (tails-IsHigh left)))
    ]

is_utf8-json_escape : (value : List ℕ) → is_utf8 (json_escape value) ≡ is_utf8 value
unfolding IsHigh
is_utf8-json_escape value = is_utf8_behind-json_escape character value tt

-- A reader of JSON strings, which takes only text in UTF-8, gets the value back from what
-- `json_escape` writes of it, if the value is text in UTF-8, and otherwise refuses it.
pub read_json_string-json_escape :
    (value : List ℕ)
    → read_json_string (json_escape value) ≡ (if is_utf8 value then some value else none)
unfolding read_json_string
read_json_string-json_escape value =
    rw (is_utf8-json_escape value, read_string-json_escape value) refl
