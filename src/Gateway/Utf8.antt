-- ===== src/Gateway/Utf8.antt =====
-- RFC 3629, section 4: which bytes are text in UTF-8. The JSON of network/tcp_server.cpp is read
-- in this encoding.
use io_t_delivery_fleet_moni.Prelude.{
  ℕ, zero, suc, List, [], ◌∷◌, Bool, true, false, ltb, leb, ◌==◌, ◌&&◌, ◌||◌, if◌then◌else◌,
}

-- A character starts here, or its next byte is from `low` to `high`, and `left` more follow it.
pub data Expected : Type 0 where
  character : Expected
  tail : (left low high : ℕ) → Expected

abbrev pub tails : ℕ → Expected
tails zero = character
tails (suc left) = tail left 128 191

-- What follows the first byte of a character. Nothing follows a byte that starts none.
abbrev pub behind_first : ℕ → Expected
behind_first b =
    if ltb b 128
    then character
    else if leb 194 b && leb b 223
    then tail 0 128 191
    else if b == 224
    then tail 1 160 191
    else if leb 225 b && leb b 236 || leb 238 b && leb b 239
    then tail 1 128 191
    else if b == 237
    then tail 1 128 159
    else if b == 240
    then tail 2 144 191
    else if leb 241 b && leb b 243
    then tail 2 128 191
    else if b == 244
    then tail 2 128 143
    else tail 0 256 0

unfoldable pub is_utf8_behind : Expected → List ℕ → Bool
is_utf8_behind character [] = true
is_utf8_behind (tail left low high) [] = false
is_utf8_behind character (b ∷ text) = is_utf8_behind (behind_first b) text
is_utf8_behind (tail left low high) (b ∷ text) =
    (leb low b && leb b high) && is_utf8_behind (tails left) text

abbrev pub is_utf8 : List ℕ → Bool
is_utf8 text = is_utf8_behind character text
