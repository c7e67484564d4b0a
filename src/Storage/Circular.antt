-- ===== src/Storage/Circular.antt =====
-- storage/circular_buffer.h: `CircularBuffer<T>`, a vector whose write index goes round.
pub mod History
use io_t_delivery_fleet_moni.Prelude.{
  ℕ, zero, suc, ◌+◌, ◌-◌, ◌%◌, ◌^◌, List, [], ◌∷◌, Option, none, some, ltb, ◌==◌, if◌then◌else◌,
  length, get_elem?, set, replicate, u64,
}

-- `entries`, `write_index` and `count`.
pub record CircularBuffer {ℓ} (A : Type ℓ) : Type ℓ where
  pub entries : List A
  pub write_index : ℕ
  pub count : ℕ

infixl 5 ◌>>=◌
abbrev ◌>>=◌ {ℓ κ} : {A : Type ℓ} {B : Type κ} → Option A → (A → Option B) → Option B
none >>= f = none
some a >>= f = f a

module _ {ℓ} {A : Type ℓ} where
  -- The constructor; `none` is `std::invalid_argument`. `T{}` fills the vector.
  unfoldable pub create : A → ℕ → Option (CircularBuffer A)
  create default capacity =
      if capacity == 0
      then none
      else some (record { entries = replicate capacity default; write_index = 0; count = 0 })

  unfoldable pub push : CircularBuffer A → A → CircularBuffer A
  push b value = record {
    entries = set b.entries b.write_index value;
    write_index = u64 (b.write_index + 1) % length b.entries;
    count = if ltb b.count (length b.entries) then b.count + 1 else b.count;
  }

  -- The loop over `index`, with the rounds that are left; `none` is a read outside `entries`.
  unfoldable pub read_from : CircularBuffer A → ℕ → ℕ → ℕ → Option (List A)
  read_from b first index zero = some []
  read_from b first index (suc rounds) = do
    x ← get_elem? b.entries (u64 (first + index) % length b.entries)
    xs ← read_from b first (index + 1) rounds
    some (x ∷ xs)

  abbrev pub result_size : CircularBuffer A → ℕ → ℕ
  result_size b wanted = if ltb wanted b.count then wanted else b.count

  unfoldable pub get_recent : CircularBuffer A → ℕ → Option (List A)
  get_recent b wanted =
      let size = length b.entries in
      let first = u64 (b.write_index + size + 2 ^ 64 - result_size b wanted) % size in
      read_from b first 0 (result_size b wanted)

  unfoldable pub capacity : CircularBuffer A → ℕ
  capacity b = length b.entries

  unfoldable pub size : CircularBuffer A → ℕ
  size b = b.count
