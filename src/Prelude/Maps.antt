-- ===== src/Prelude/Maps.antt =====
-- `std::unordered_map` as an association list, over a test of keys that decides equality.
use io_t_delivery_fleet_moni.Prelude.Tests.{if◌then◌else◌, Bool-cases}
use io_t_delivery_fleet_moni.Prelude.Lists.{length}
use Prim.Native.Nat.{suc}
use mathlib.Core.Path.{◌≡◌, refl, ap}
use mathlib.Core.Logic.{◌↔◌, inl, inr}
use mathlib.Core.Bool.{Bool, true, false, not, ◌&&◌, ◌||◌}
use mathlib.Core.List.{List, [], ◌∷◌}
use mathlib.Core.Option.{Option, none, some}
use native.Mathlib.Omega.{arith}

-- The equality of a key type.
pub record Keys {ℓ} (K : Type ℓ) : Type ℓ where
  pub same : K → K → Bool
  pub same_iff : (j k : K) → (same j k ≡ true) ↔ (j ≡ k)

module _ {ℓ κ} {K : Type ℓ} {V : Type κ} ⦃keys : Keys K⦄ where
  -- `find`
  unfoldable pub value_at : K → List (K × V) → Option V
  value_at k [] = none
  value_at k ((j, v) ∷ m) = if keys.same j k then some v else value_at k m

  unfoldable pub has_key : K → List (K × V) → Bool
  has_key k [] = false
  has_key k ((j, v) ∷ m) = keys.same j k || has_key k m

  -- `insert_or_assign`
  unfoldable pub insert : K → V → List (K × V) → List (K × V)
  insert k v [] = (k, v) ∷ []
  insert k v ((j, w) ∷ m) = if keys.same j k then (k, v) ∷ m else (j, w) ∷ insert k v m

  unfoldable pub erase : K → List (K × V) → List (K × V)
  erase k [] = []
  erase k ((j, v) ∷ m) = let rest = erase k m in if keys.same j k then rest else (j, v) ∷ rest

  -- No key stands twice.
  abbrev pub IsDistinct : List (K × V) → Type 0
  IsDistinct [] = Unit {0}
  IsDistinct ((k, v) ∷ m) = (has_key k m ≡ false) × IsDistinct m

  pub value_at-insert :
      (k j : K) (v : V) (m : List (K × V))
      → value_at j (insert k v m) ≡ (if keys.same k j then some v else value_at j m)
  unfolding value_at insert
  value_at-insert k j v [] = refl
  value_at-insert k j v ((i, w) ∷ m) =
      ground
        (arith, keys.same_iff k j, keys.same_iff i k, keys.same_iff i j, value_at-insert k j v m)

  pub value_at-erase :
      (k j : K) (m : List (K × V))
      → value_at j (erase k m) ≡ (if keys.same k j then none else value_at j m)
  unfolding value_at erase
  value_at-erase k j [] = ground arith
  value_at-erase k j ((i, w) ∷ m) =
      ground (arith, keys.same_iff k j, keys.same_iff i k, keys.same_iff i j, value_at-erase k j m)

  pub has_key-insert :
      (k j : K) (v : V) (m : List (K × V))
      → has_key j (insert k v m) ≡ (keys.same k j || has_key j m)
  unfolding has_key insert
  has_key-insert k j v [] = refl
  has_key-insert k j v ((i, w) ∷ m) =
      ground
        (arith, keys.same_iff k j, keys.same_iff i k, keys.same_iff i j, has_key-insert k j v m)

  pub has_key-erase :
      (k j : K) (m : List (K × V)) → has_key j (erase k m) ≡ (not (keys.same k j) && has_key j m)
  unfolding has_key erase
  has_key-erase k j [] = ground arith
  has_key-erase k j ((i, w) ∷ m) =
      ground (arith, keys.same_iff k j, keys.same_iff i k, keys.same_iff i j, has_key-erase k j m)

  -- A key has a value exactly when it is there.
  pub has_key-value_at :
      (k : K) (m : List (K × V)) (v : V) → value_at k m ≡ some v → has_key k m ≡ true
  unfolding has_key value_at
  has_key-value_at k [] v h = cc
  has_key-value_at k ((i, w) ∷ m) v h = ground (arith, has_key-value_at k m v)

  pub value_at-none : (k : K) (m : List (K × V)) → value_at k m ≡ none → has_key k m ≡ false
  unfolding has_key value_at
  value_at-none k [] h = refl
  value_at-none k ((i, w) ∷ m) h = ground (arith, value_at-none k m)

  pub erase-absent : (k : K) (m : List (K × V)) → has_key k m ≡ false → erase k m ≡ m
  unfolding has_key erase
  erase-absent k [] h = refl
  erase-absent k ((i, w) ∷ m) h = ground (arith, erase-absent k m)

  pub erase-insert : (k : K) (v : V) (m : List (K × V)) → erase k (insert k v m) ≡ erase k m
  unfolding erase insert
  erase-insert k v [] = ground (arith, keys.same_iff k k)
  erase-insert k v ((i, w) ∷ m) = ground (arith, keys.same_iff k k, erase-insert k v m)

  pub insert-IsDistinct :
      (k : K) (v : V) (m : List (K × V)) → IsDistinct m → IsDistinct (insert k v m)
  unfolding insert has_key
  insert-IsDistinct k v [] d = (refl, tt)
  insert-IsDistinct k v ((i, w) ∷ m) d = elim (Bool-cases (keys.same i k)) [
    | inl e ↦ rw e (rw ((keys.same_iff i k).0 e) at d)
    | inr e ↦ rw e (
      ground (arith, d.0, has_key-insert k i v m, keys.same_iff k i, keys.same_iff i k),
      insert-IsDistinct k v m d.1,
    )
  ]

  pub erase-IsDistinct : (k : K) (m : List (K × V)) → IsDistinct m → IsDistinct (erase k m)
  unfolding erase
  erase-IsDistinct k [] d = tt
  erase-IsDistinct k ((i, w) ∷ m) d = elim (Bool-cases (keys.same i k)) [
    | inl e ↦ rw e (erase-IsDistinct k m d.1)
    | inr e ↦ rw e (ground (arith, d.0, has_key-erase k i m), erase-IsDistinct k m d.1)
  ]

  pub length-insert_new :
      (k : K) (v : V) (m : List (K × V))
      → has_key k m ≡ false
      → length (insert k v m) ≡ suc (length m)
  unfolding insert has_key
  length-insert_new k v [] h = refl
  length-insert_new k v ((i, w) ∷ m) h = ground (arith, length-insert_new k v m)

  pub length-insert_old :
      (k : K) (v : V) (m : List (K × V)) → has_key k m ≡ true → length (insert k v m) ≡ length m
  unfolding insert has_key
  length-insert_old k v [] h = cc
  length-insert_old k v ((i, w) ∷ m) h = ground (arith, length-insert_old k v m)

  pub length-erase :
      (k : K) (m : List (K × V))
      → IsDistinct m
      → has_key k m ≡ true
      → suc (length (erase k m)) ≡ length m
  unfolding erase has_key
  length-erase k [] d h = cc
  length-erase k ((i, w) ∷ m) d h = elim (Bool-cases (keys.same i k)) [
    | inl e ↦ rw (e, erase-absent k m (rw ((keys.same_iff i k).0 e) at d.0)) refl
    | inr e ↦ rw e (ap suc (length-erase k m d.1 (rw e at h)))
  ]
