-- ===== src/Storage/Format/Names.antt =====
-- Names of segment files, and equality of byte sequences.
use io_t_delivery_fleet_moni.Prelude.{
  ℕ, zero, suc, ◌+◌, ◌-◌, ◌*◌, ◌/◌, ◌%◌, ◌^◌, ◌≤◌, ◌∙◌, some, sym, mod-split, lt→ltb, le→ltb, u32,
  ◌≡◌, refl, List, [], ◌∷◌, true, false, arith, ap, ◌≢◌, inl, inr, Bool-cases,
}
use native.Mathlib.Nat.{pow-suc, one-le-pow, mul-le-mul_right}
use io_t_delivery_fleet_moni.Storage.Codec.{maximum_segment_id}
use io_t_delivery_fleet_moni.Storage.Format.{
  bytes_eq, parse_digits, decimal, parse_segment_id, segment_path,
}

pub bytes_eq_refl : (xs : List ℕ) → bytes_eq xs xs ≡ true
unfolding bytes_eq
bytes_eq_refl [] = refl
bytes_eq_refl (x ∷ xs) = ground (arith, bytes_eq_refl xs)

pub bytes_eq→eq : (xs ys : List ℕ) → bytes_eq xs ys ≡ true → xs ≡ ys
unfolding bytes_eq
bytes_eq→eq [] [] h = refl
bytes_eq→eq [] (y ∷ ys) h = cc
bytes_eq→eq (x ∷ xs) [] h = cc
bytes_eq→eq (x ∷ xs) (y ∷ ys) h = ground (arith, bytes_eq→eq xs ys)

shifted_digit : (a d p : ℕ) → d ≤ 9 → (a * 10 + d) * p + p ≤ a * (p * 10) + p * 10
shifted_digit a d p h = omega (arith, mul-le-mul_right p h)

widened : (a p : ℕ) → 1 ≤ p → a * 10 + 10 ≤ a * (p * 10) + p * 10
widened a p h = omega (arith, mul-le-mul_right (a * 10) h)

-- One digit of the parse: the value of the digits behind it is added below.
parse_digits-decimal :
    (width n acc : ℕ)
    → acc * 10 ^ width + 10 ^ width ≤ 2 ^ 32
    → parse_digits acc (decimal width n) ≡ some (acc * 10 ^ width + n % 10 ^ width)
unfolding parse_digits decimal
parse_digits-decimal zero n acc h = ap some (omega arith)
parse_digits-decimal (suc width) n acc h =
    rw (le→ltb (48 + d) 48 (omega arith), le→ltb 57 (48 + d) (omega arith))
      (ap (λ a. parse_digits a (decimal width n)) value
        ∙ parse_digits-decimal width n (acc * 10 + d) (omega (arith, grown, scaled))
        ∙ ap some (
            omega (
              arith,
              pow-suc 10 width,
              ap (λ (t : ℕ). acc * t) (pow-suc 10 width),
              ap (λ (t : ℕ). n % t) (pow-suc 10 width),
              mod-split n (10 ^ width) 10,
            )))
  where
    d : ℕ
    d = n / 10 ^ width % 10

    p : ℕ
    p = 10 ^ width

    scaled : acc * 10 ^ suc width + 10 ^ suc width ≡ acc * (10 ^ width * 10) + 10 ^ width * 10
    scaled = ap (λ (t : ℕ). acc * t + t) (pow-suc 10 width)

    grown : (acc * 10 + d) * 10 ^ width + 10 ^ width ≤ acc * (10 ^ width * 10) + 10 ^ width * 10
    grown = shifted_digit acc d p (omega arith)

    value : u32 (acc * 10 + (48 + d - 48)) ≡ acc * 10 + d
    value = omega (arith, h, scaled, widened acc p (one-le-pow width 10 (omega arith)))

-- The name that `segment_path` makes of an id up to 99999999 is parsed back to that id.
pub parse_segment_id-segment_path :
    (id : ℕ) → id ≤ maximum_segment_id → parse_segment_id (segment_path id) ≡ some id
unfolding parse_segment_id segment_path
parse_segment_id-segment_path id h =
    rw (lt→ltb id 100000000 (omega arith))
      (parse_digits-decimal 8 id 0 (omega arith) ∙ ap some (omega arith))

segment_path-injective :
    (i j : ℕ)
    → i ≤ maximum_segment_id
    → j ≤ maximum_segment_id
    → segment_path i ≡ segment_path j
    → i ≡ j
segment_path-injective i j hi hj e =
    let parsed : some i ≡ some j =
      sym (parse_segment_id-segment_path i hi)
      ∙ ap parse_segment_id e
      ∙ parse_segment_id-segment_path j hj in
    cc

pub segment_path-ne :
    (i j : ℕ)
    → i ≤ maximum_segment_id
    → j ≤ maximum_segment_id
    → i ≢ j
    → bytes_eq (segment_path i) (segment_path j) ≡ false
segment_path-ne i j hi hj ne = elim (Bool-cases (bytes_eq (segment_path i) (segment_path j))) [
  | inl e ↦ absurd (ne (segment_path-injective i j hi hj (bytes_eq→eq _ _ e)))
  | inr e ↦ e
]
