-- ===== src/Prelude/Words.antt =====
-- The widths of the C++ integer types, and `|` of two numbers that share no bit.
use Prim.Native.Nat.{
  ℕ, zero, suc, ◌+◌, ◌-◌, ◌*◌, ◌/◌, ◌%◌, ◌^◌, ◌≤◌, ◌<◌, min, max, bit_or, bit_and, digits,
  bit_or-bitwise, bit_and-bitwise,
}
use mathlib.Core.Path.{◌≡◌, refl, ap, sym, ◌∙◌}
use native.Mathlib.Nat.{
  pow-suc, pow-succ', div-div-eq-div-mul, div-add-mod', mod-eq-sub-div-mul, one-le-pow,
}
use native.Mathlib.Omega.{arith}

abbrev pub u8 : ℕ → ℕ
u8 n = n % 2 ^ 8

abbrev pub u32 : ℕ → ℕ
u32 n = n % 2 ^ 32

-- `std::size_t` and `std::uint64_t`
abbrev pub u64 : ℕ → ℕ
u64 n = n % 2 ^ 64

-- `|` and `&` go digit by digit: `rest` says what becomes of the second number once the first is
-- used up, `one` combines two digits. Rounds beyond the first number change nothing.
module _ (rest : ℕ → ℕ) (one : ℕ → ℕ → ℕ) where
  rounds-irrelevant : (x y k l : ℕ) → x ≤ k → x ≤ l → digits rest one k x y ≡ digits rest one l x y
  rounds-irrelevant zero _ zero zero _ _ = refl
  rounds-irrelevant zero _ zero (suc l) _ _ = refl
  rounds-irrelevant zero _ (suc k) zero _ _ = refl
  rounds-irrelevant zero _ (suc k) (suc l) _ _ = refl
  rounds-irrelevant (suc x) _ zero l low _ = absurd (omega (arith, low))
  rounds-irrelevant (suc x) _ (suc k) zero _ low = absurd (omega (arith, low))
  rounds-irrelevant (suc x) y (suc k) (suc l) hk hl =
      ap (λ (t : ℕ). t * 2 + one (suc x % 2) (y % 2))
        (rounds-irrelevant (suc x / 2) (y / 2) k l (omega (arith, hk)) (omega (arith, hl)))

  one_digit :
      (x y : ℕ)
      → digits rest one (suc x) (suc x) y
        ≡ digits rest one (suc x / 2) (suc x / 2) (y / 2) * 2 + one (suc x % 2) (y % 2)
  one_digit x y =
      ap (λ (t : ℕ). t * 2 + one (suc x % 2) (y % 2))
        (rounds-irrelevant (suc x / 2) (y / 2) x (suc x / 2) (omega arith) (omega arith))

zero-bit_or : (y : ℕ) → bit_or 0 y ≡ y
zero-bit_or = bit_or-bitwise 0

bit_or_step : (x y : ℕ) → bit_or x y ≡ bit_or (x / 2) (y / 2) * 2 + max (x % 2) (y % 2)
bit_or_step zero y = omega (arith, zero-bit_or y, zero-bit_or (y / 2))
bit_or_step (suc x) y =
    bit_or-bitwise (suc x) y
    ∙ one_digit (λ t. t) max x y
    ∙ ap (λ (t : ℕ). t * 2 + max (suc x % 2) (y % 2)) (sym (bit_or-bitwise (suc x / 2) (y / 2)))

shift-suc : (b k : ℕ) → b * 2 ^ suc k ≡ 2 * (b * 2 ^ k)
shift-suc b k = omega (arith, ap (λ (t : ℕ). b * t) (pow-suc 2 k))

-- Filling in the bits above the lowest `k` adds them.
pub bit_or_above : (k a b : ℕ) → a < 2 ^ k → bit_or a (b * 2 ^ k) ≡ a + b * 2 ^ k
bit_or_above zero a b h =
    let e : a ≡ 0 = omega arith in rw e (omega (arith, zero-bit_or (b * 2 ^ 0)))
bit_or_above (suc k) a b h = ground (
  arith,
  bit_or_step a (b * 2 ^ suc k),
  shift-suc b k,
  pow-suc 2 k,
  bit_or_above k (a / 2) b (omega (arith, pow-suc 2 k)),
)

bit_and_step : (x y : ℕ) → bit_and x y ≡ bit_and (x / 2) (y / 2) * 2 + min (x % 2) (y % 2)
bit_and_step zero y =
    let none_left : bit_and 0 (y / 2) ≡ 0 = bit_and-bitwise 0 (y / 2) in
    bit_and-bitwise 0 y ∙ omega (arith, none_left)
bit_and_step (suc x) y =
    bit_and-bitwise (suc x) y
    ∙ one_digit (λ _. 0) min x y
    ∙ ap (λ (t : ℕ). t * 2 + min (suc x % 2) (y % 2)) (sym (bit_and-bitwise (suc x / 2) (y / 2)))

-- An empty mask, for all numbers up to `bound`.
empty_mask : (bound x : ℕ) → x ≤ bound → bit_and x 0 ≡ 0
empty_mask zero x low = let nil : x ≡ 0 = omega (arith, low) in rw nil refl
empty_mask (suc bound) zero low = refl
empty_mask (suc bound) (suc x) low =
    let halved : bit_and (suc x / 2) 0 ≡ 0 = empty_mask bound (suc x / 2) (omega (arith, low)) in
    bit_and_step (suc x) 0 ∙ omega (arith, halved)

-- A remainder by a product, digit by digit.
pub mod-split : (v p q : ℕ) → v % (p * q) ≡ v % p + v / p % q * p
mod-split v p q =
    omega (arith, mod-eq_of_div, div-add-mod' v p, ap (λ (t : ℕ). t * p) (div-add-mod' (v / p) q))
  where
    mod-eq_of_div : v % (p * q) ≡ v - v / p / q * (p * q)
    mod-eq_of_div = rw (div-div-eq-div-mul v p q) (mod-eq-sub-div-mul v (p * q))

-- `&` with a mask of `k` ones is the remainder by `2 ^ k`.
pub bit_and_mask : (k x : ℕ) → bit_and x (2 ^ k - 1) ≡ x % 2 ^ k
bit_and_mask zero x = omega (arith, empty_mask x x (omega arith))
bit_and_mask (suc k) x = omega (
  arith,
  bit_and_step x (2 ^ suc k - 1),
  pow-succ' 2 k,
  one-le-pow k 2 (omega arith),
  ap (bit_and (x / 2)) half_mask,
  bit_and_mask k (x / 2),
  ap (λ (t : ℕ). x % t) (pow-succ' 2 k),
  mod-split x 2 (2 ^ k),
)
  where
    half_mask : (2 ^ suc k - 1) / 2 ≡ 2 ^ k - 1
    half_mask = omega (arith, pow-succ' 2 k)

-- Sums and differences of `std::uint64_t`.
abbrev pub add64 : ℕ → ℕ → ℕ
add64 a b = (a + b) % 2 ^ 64

abbrev pub sub64 : ℕ → ℕ → ℕ
sub64 a b = (a + 2 ^ 64 - b) % 2 ^ 64
