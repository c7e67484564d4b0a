-- ===== src/Http/Text/Numbers.antt =====
-- `std::to_string` and `from_chars` of http/http_parser.cpp are inverse to each other.
use io_t_delivery_fleet_moni.Prelude.{
  ℕ, zero, suc, ◌+◌, ◌-◌, ◌*◌, ◌/◌, ◌%◌, ◌^◌, ◌<◌, ◌≤◌, ◌≡◌, refl, ap, ◌∙◌, List, [], ◌∷◌, ◌++◌,
  Option, none, some, true, false, ltb, ◌==◌, if-cases, to_string, digits_from, arith,
}
use io_t_delivery_fleet_moni.Http.Text.{
  digits_value, from_chars, is_empty, in_range, find, starts_with,
}
use io_t_delivery_fleet_moni.Http.Text.Find.{lacks}

-- One digit more at the end.
abbrev with_digit : Option ℕ → ℕ → Option ℕ
with_digit none d = none
with_digit (some v) d = some (v * 10 + d)

digits_value-snoc :
    (parsed d : ℕ) (text : List ℕ)
    → d < 10
    → digits_value parsed (text ++ ((48 + d) ∷ [])) ≡ with_digit (digits_value parsed text) d
unfolding digits_value
digits_value-snoc parsed d [] h = ground (arith, h)
digits_value-snoc parsed d (c ∷ text) h =
    ground (arith, digits_value-snoc (parsed * 10 + (c - 48)) d text h)

digits_value-digits_from :
    (rounds n : ℕ) → n ≤ rounds → digits_value 0 (digits_from rounds n) ≡ some n
unfolding digits_from digits_value
digits_value-digits_from zero n h = ground (arith, h)
digits_value-digits_from (suc rounds) n h =
    if-cases (λ t. digits_value 0 t ≡ some n) (ltb n 10) (λ e. ground (arith, e))
      λ e.
        digits_value-snoc 0 (n % 10) (digits_from rounds (n / 10)) (omega arith)
        ∙ (ap (λ o. with_digit o (n % 10))
              (digits_value-digits_from rounds (n / 10) (ground (arith, e, h)))
            ∙ ap some (omega arith))

append_is_empty : (text : List ℕ) (c : ℕ) → is_empty (text ++ (c ∷ [])) ≡ false
append_is_empty [] c = refl
append_is_empty (d ∷ text) c = refl

digits_from-is_empty : (rounds n : ℕ) → is_empty (digits_from rounds n) ≡ false
unfolding digits_from
digits_from-is_empty zero n = refl
digits_from-is_empty (suc rounds) n =
    if-cases (λ t. is_empty t ≡ false) (ltb n 10) (λ _. refl)
      λ _. append_is_empty (digits_from rounds (n / 10)) (48 + n % 10)

pub to_string-is_empty : (n : ℕ) → is_empty (to_string n) ≡ false
unfolding to_string
to_string-is_empty n = digits_from-is_empty n n

-- A number of 64 bits is read back from its decimal digits.
pub from_chars-to_string : (n : ℕ) → n < 2 ^ 64 → from_chars (to_string n) ≡ some n
unfolding from_chars to_string
from_chars-to_string n small = ground (
  arith,
  small,
  digits_from-is_empty n n,
  ap in_range (digits_value-digits_from n n (omega arith)),
)

lacks-snoc :
    (c d : ℕ) (text : List ℕ)
    → lacks c text ≡ true
    → (c == d) ≡ false
    → lacks c (text ++ (d ∷ [])) ≡ true
unfolding lacks
lacks-snoc c d [] h n = ground (arith, n)
lacks-snoc c d (x ∷ text) h n = ground (arith, h, n, lacks-snoc c d text)

lacks-digits_from : (c rounds n : ℕ) → c < 48 → lacks c (digits_from rounds n) ≡ true
unfolding lacks digits_from
lacks-digits_from c zero n h = ground (arith, h)
lacks-digits_from c (suc rounds) n h =
    if-cases (λ t. lacks c t ≡ true) (ltb n 10) (λ _. ground (arith, h))
      λ _.
        lacks-snoc c (48 + n % 10) (digits_from rounds (n / 10))
          (lacks-digits_from c rounds (n / 10) h) (ground (arith, h))

-- The digits of a number contain no byte below "0".
pub lacks-to_string : (c n : ℕ) → c < 48 → lacks c (to_string n) ≡ true
unfolding to_string
lacks-to_string c n h = lacks-digits_from c n n h

pub find_absent : (c : ℕ) (text : List ℕ) → lacks c text ≡ true → find (c ∷ []) text ≡ none
unfolding find lacks starts_with
find_absent c [] h = refl
find_absent c (d ∷ text) h = ground (arith, h, find_absent c text)
