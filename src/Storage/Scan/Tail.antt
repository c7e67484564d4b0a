-- ===== src/Storage/Scan/Tail.antt =====
-- `zero_tail` decides whether the rest of a file is zeros; how the scan ends there.
use io_t_delivery_fleet_moni.Prelude.{
  ℕ, zero, suc, ◌+◌, ◌-◌, ◌^◌, ◌≤◌, ◌<◌, ◌≡◌, refl, ap, sym, ◌∙◌, List, [], ◌∷◌, true, false, ◌&&◌,
  ◌==◌, take, drop, replicate, length, min, arith, u64, length-take, length-drop, drop-drop,
  drop_all, inl, inr, Bool-cases, ==_iff,
}
use io_t_delivery_fleet_moni.Storage.Format.{ok}
use io_t_delivery_fleet_moni.Storage.Scan.{Source, pread, all_zero, zero_tail}

pub all_zero-replicate : (n : ℕ) → all_zero (replicate n 0) ≡ true
all_zero-replicate zero = refl
all_zero-replicate (suc n) = all_zero-replicate n

all_zero-split :
    (n : ℕ) (xs : List ℕ) → (all_zero (take n xs) && all_zero (drop n xs)) ≡ all_zero xs
all_zero-split zero xs = refl
all_zero-split (suc n) [] = refl
all_zero-split (suc n) (x ∷ xs) = ground (arith, all_zero-split n xs)

-- Over a file of fewer than 2 ^ 63 bytes whose reads succeed, from `offset` to the end of the file:
-- `left` rounds are enough for the loop, and its result is whether all these bytes are zero.
pub zero_tail_lem :
    (fuel : ℕ) (s : Source) (offset left : ℕ)
    → ((at : ℕ) → s.pread_ok at ≡ true)
    → left ≤ fuel
    → offset + left ≡ length s.bytes
    → length s.bytes < 2 ^ 63
    → zero_tail fuel s offset left ≡ ok (all_zero (drop offset s.bytes))
unfolding zero_tail
zero_tail_lem zero s offset left reads hf end small =
    let e : left ≡ 0 = omega arith in rw (e, drop_all offset s.bytes (omega arith))
zero_tail_lem (suc fuel) s offset left reads hf end small = elim (Bool-cases (left == 0)) [
  | inl z ↦ rw (z, drop_all offset s.bytes (omega (arith, (==_iff left 0).0 z)))
  | inr z ↦ step z (
      ap (λ o. zero_tail fuel s o (left - chunk)) no_wrap
      ∙ zero_tail_lem fuel s (offset + min left 4096) (left - min left 4096) reads
          (omega (arith, positive z)) (omega arith) small
      ∙ ap (λ xs. ok (all_zero xs)) (sym (drop-drop chunk offset s.bytes)))
]
  where
    chunk : ℕ
    chunk = min left 4096

    got : length (pread s.bytes offset chunk) ≡ chunk
    got = omega (arith, length-take chunk (drop offset s.bytes), length-drop offset s.bytes)

    positive : (left == 0) ≡ false → 0 < left
    positive z = ground arith

    no_wrap : u64 (offset + chunk) ≡ offset + chunk
    no_wrap = omega arith

    step :
        (left == 0) ≡ false
        → zero_tail fuel s (u64 (offset + chunk)) (left - chunk)
          ≡ ok (all_zero (drop chunk (drop offset s.bytes)))
        → zero_tail (suc fuel) s offset left ≡ ok (all_zero (drop offset s.bytes))
    step z rest =
        rw (z, reads offset) (ground (arith, got, rest, all_zero-split chunk (drop offset s.bytes)))
