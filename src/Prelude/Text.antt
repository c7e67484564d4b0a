-- ===== src/Prelude/Text.antt =====
-- Text as bytes: literals, equality, and numbers in decimal.
use Prim.Native.Char.{code}
use Prim.Native.String.{String}
use io_t_delivery_fleet_moni.Prelude.Tests.{if◌then◌else◌, ◌==◌, ==_iff, ltb}
use io_t_delivery_fleet_moni.Prelude.Maps.{Keys}
use Prim.Native.Nat.{ℕ, zero, suc, ◌+◌, ◌/◌, ◌%◌}
use mathlib.Core.Path.{◌≡◌}
use mathlib.Core.Logic.{◌↔◌}
use mathlib.Core.Bool.{Bool, true, false, ◌&&◌}
use mathlib.Core.List.{List, [], ◌∷◌, ◌++◌}
use native.Mathlib.Omega.{arith}

-- The bytes of an ASCII text.
abbrev pub codes : String → List ℕ
codes String.[] = []
codes (String.◌∷◌ c s) = code c ∷ codes s

-- Equality of two strings.
unfoldable pub text_eq : List ℕ → List ℕ → Bool
text_eq [] [] = true
text_eq [] (d ∷ text) = false
text_eq (c ∷ text) [] = false
text_eq (c ∷ text) (d ∷ text') = c == d && text_eq text text'

pub text_eq_iff : (s t : List ℕ) → (text_eq s t ≡ true) ↔ (s ≡ t)
unfolding text_eq
text_eq_iff [] [] = ground arith
text_eq_iff [] (d ∷ t) = ground arith
text_eq_iff (c ∷ s) [] = ground arith
text_eq_iff (c ∷ s) (d ∷ t) = ground (arith, text_eq_iff s t)

instance abbrev pub text_keys : Keys (List ℕ)
text_keys = record { same = text_eq; same_iff = text_eq_iff }

-- File descriptors, and other numbers, as keys.
instance abbrev pub number_keys : Keys ℕ
number_keys = record { same = ◌==◌; same_iff = ==_iff }

-- The digits of a number, with the rounds that are left.
unfoldable pub digits_from : ℕ → ℕ → List ℕ
digits_from zero n = (48 + n % 10) ∷ []
digits_from (suc rounds) n =
    let longer = digits_from rounds (n / 10) ++ ((48 + n % 10) ∷ []) in
    if ltb n 10 then (48 + n) ∷ [] else longer

-- `std::to_string` of an unsigned number; there are no more digits than its value.
unfoldable pub to_string : ℕ → List ℕ
to_string n = digits_from n n
