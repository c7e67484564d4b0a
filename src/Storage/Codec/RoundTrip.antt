-- ===== src/Storage/Codec/RoundTrip.antt =====
-- Numbers written by `put_u32` and `put_u64` are read back by `get_u32` and `get_u64`.
use Prim.Native.Nat.{bit_or, bit_xor}
use native.Mathlib.Nat.{mod-eq_of_lt, mod-lt, pow-suc, one-le-pow, pow-le-pow_right}
use native.Mathlib.Numerals.{towards_suc}
use io_t_delivery_fleet_moni.Prelude.{
  ℕ, zero, suc, ◌+◌, ◌*◌, ◌/◌, ◌%◌, ◌^◌, ◌≤◌, ◌<◌, ◌≡◌, refl, ap, sym, ◌∙◌, List, ◌++◌, take, drop,
  replicate, length, arith, u32, u64, bit_or_above, bit_and_mask, mod-split, take-append,
  drop-append, drop-drop, drop_prefix,
}
use io_t_delivery_fleet_moni.Storage.Codec.{
  byte_at, put_from, put_u32, put_u64, get_from, get_u32, get_u64, record_crc, segment_crc,
  crc32_update,
}

byte_at_lem : (v i : ℕ) → byte_at v i ≡ v / 2 ^ (i * 8) % 256
unfolding byte_at
byte_at_lem v i = bit_and_mask 8 (v / 2 ^ (i * 8))

pow_add_eight : (n : ℕ) → 2 ^ (n + 8) ≡ 2 ^ n * 256
pow_add_eight n = simp (towards_suc, pow-suc) (omega arith)

shift_next : (i : ℕ) → 2 ^ ((i + 1) * 8) ≡ 2 ^ (i * 8) * 256
shift_next i = ap (λ (k : ℕ). 2 ^ k) next ∙ pow_add_eight (i * 8)
  where
    next : (i + 1) * 8 ≡ i * 8 + 8
    next = omega arith

-- One more byte.
get_next :
    (bits v i : ℕ)
    → (i + 1) * 8 ≤ bits
    → bit_or (v % 2 ^ (i * 8)) (byte_at v i * 2 ^ (i * 8) % 2 ^ bits) ≡ v % 2 ^ ((i + 1) * 8)
get_next bits v i h =
    ap (λ t. bit_or (v % p) t) (mod-eq_of_lt fits)
    ∙ bit_or_above (i * 8) (v % p) (byte_at v i) (mod-lt v positive)
    ∙ ap (λ (b : ℕ). v % p + b * p) (byte_at_lem v i)
    ∙ sym (mod-split v p 256)
    ∙ ap (λ (t : ℕ). v % t) (sym (shift_next i))
  where
    p : ℕ
    p = 2 ^ (i * 8)

    positive : 0 < 2 ^ (i * 8)
    positive = one-le-pow (i * 8) 2 (omega arith)

    small : byte_at v i < 256
    small = omega (arith, byte_at_lem v i)

    fits : byte_at v i * 2 ^ (i * 8) < 2 ^ bits
    fits = grind (arith, small, positive, shift_next i, pow-le-pow_right {n = 2} (omega arith) h)

get-put_from :
    (bits v i rounds : ℕ)
    → (i + rounds) * 8 ≤ bits
    → get_from bits (v % 2 ^ (i * 8)) i (put_from v i rounds) ≡ v % 2 ^ ((i + rounds) * 8)
unfolding get_from put_from
get-put_from bits v i zero h = ap (λ k. v % 2 ^ k) (omega arith)
get-put_from bits v i (suc rounds) h =
    ap (λ a. get_from bits a (i + 1) (put_from v (i + 1) rounds)) (get_next bits v i (omega arith))
    ∙ get-put_from bits v (i + 1) rounds (omega arith)
    ∙ ap (λ (k : ℕ). v % 2 ^ k) (omega arith)

length-put_from : (v i rounds : ℕ) → length (put_from v i rounds) ≡ rounds
unfolding put_from
length-put_from v i zero = refl
length-put_from v i (suc rounds) = ap suc (length-put_from v (i + 1) rounds)

pub length-put_u32 : (v : ℕ) → length (put_u32 v) ≡ 4
unfolding put_u32
length-put_u32 v = length-put_from v 0 4

pub length-put_u64 : (v : ℕ) → length (put_u64 v) ≡ 8
unfolding put_u64
length-put_u64 v = length-put_from v 0 8

-- The bytes of a field that stands behind `pre`.
field :
    (pre mid post : List ℕ) (n at : ℕ)
    → length mid ≡ n
    → length pre ≡ at
    → take n (drop at (pre ++ (mid ++ post))) ≡ mid
field pre mid post n at hn ha =
    ap (λ k. take n (drop k (pre ++ (mid ++ post)))) (sym ha)
    ∙ ap (take n) (drop-append pre (mid ++ post))
    ∙ ap (λ k. take k (mid ++ post)) (sym hn)
    ∙ take-append mid post

get_whole : (bits v n : ℕ) → n * 8 ≤ bits → get_from bits 0 0 (put_from v 0 n) ≡ v % 2 ^ (n * 8)
get_whole bits v n h =
    ap (λ a. get_from bits a 0 (put_from v 0 n)) (omega arith)
    ∙ get-put_from bits v 0 n (omega arith)
    ∙ ap (λ (k : ℕ). v % 2 ^ k) (omega arith)

-- The bytes of `put_u32 v`, with any bytes in front and behind: `get_u32` at their place gives the
-- low 32 bits of `v`, so `v` itself if it fits the field.
pub get_u32-put_u32 :
    (v at : ℕ) (pre post : List ℕ)
    → length pre ≡ at
    → get_u32 (pre ++ (put_u32 v ++ post)) at ≡ u32 v
unfolding get_u32 put_u32
get_u32-put_u32 v at pre post h =
    ap (get_from 32 0 0) (field pre (put_u32 v) post 4 at (length-put_u32 v) h)
    ∙ get_whole 32 v 4 (omega arith)

-- The bytes of `put_u64 v`, with any bytes in front and behind: `get_u64` at their place gives the
-- low 64 bits of `v`, so `v` itself if it fits the field.
pub get_u64-put_u64 :
    (v at : ℕ) (pre post : List ℕ)
    → length pre ≡ at
    → get_u64 (pre ++ (put_u64 v ++ post)) at ≡ u64 v
unfolding get_u64 put_u64
get_u64-put_u64 v at pre post h =
    ap (get_from 64 0 0) (field pre (put_u64 v) post 8 at (length-put_u64 v) h)
    ∙ get_whole 64 v 8 (omega arith)

-- Fields in front of the place that is read.
pub get_u32-skip :
    (n at : ℕ) (pre rest : List ℕ)
    → length pre ≡ n
    → get_u32 (pre ++ rest) (n + at) ≡ get_u32 rest at
unfolding get_u32
get_u32-skip n at pre rest h =
    ap (λ xs. get_from 32 0 0 (take 4 xs))
      (sym (drop-drop at n (pre ++ rest)) ∙ ap (drop at) (drop_prefix n pre rest h))

pub get_u64-skip :
    (n at : ℕ) (pre rest : List ℕ)
    → length pre ≡ n
    → get_u64 (pre ++ rest) (n + at) ≡ get_u64 rest at
unfolding get_u64
get_u64-skip n at pre rest h =
    ap (λ xs. get_from 64 0 0 (take 8 xs))
      (sym (drop-drop at n (pre ++ rest)) ∙ ap (drop at) (drop_prefix n pre rest h))

-- A checksum fits 32 bits, and depends on the checked part of the header only.
pub u32-record_crc :
    (header payload : List ℕ) → u32 (record_crc header payload) ≡ record_crc header payload
unfolding record_crc
u32-record_crc header payload = omega arith

pub record_crc-take :
    (h k payload : List ℕ) → take 28 h ≡ take 28 k → record_crc h payload ≡ record_crc k payload
unfolding record_crc
record_crc-take h k payload e =
    ap (λ xs. u32 (bit_xor (crc32_update (crc32_update 0xffffffff xs) payload) 0xffffffff)) e

pub u32-segment_crc : (header : List ℕ) → u32 (segment_crc header) ≡ segment_crc header
unfolding segment_crc
u32-segment_crc header = omega arith

pub segment_crc-take : (h k : List ℕ) → take 32 h ≡ take 32 k → segment_crc h ≡ segment_crc k
unfolding segment_crc
segment_crc-take h k e = ap (λ xs. u32 (bit_xor (crc32_update 0xffffffff xs) 0xffffffff)) e

-- A header of zeros reads as the number 0.
pub get_u32-zeros : (n : ℕ) → 4 ≤ n → get_u32 (replicate n 0) 0 ≡ 0
unfolding get_u32 get_from
get_u32-zeros (suc (suc (suc (suc n)))) h = refl
get_u32-zeros zero h = absurd (omega arith)
get_u32-zeros (suc zero) h = absurd (omega arith)
get_u32-zeros (suc (suc zero)) h = absurd (omega arith)
get_u32-zeros (suc (suc (suc zero))) h = absurd (omega arith)
