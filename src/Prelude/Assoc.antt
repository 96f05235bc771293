-- ===== src/Prelude/Assoc.antt =====
-- Go maps with integer keys, as association lists: a key is stored once, a missing key reads as
-- `none`, and the keys sorted as `sort.Slice` leaves them.
pub mod Rebuild
use go_car.Prelude.{
  ℕ, suc, ◌≡◌, refl, inl, inr, arith, List, [], ◌∷◌, Option, none, some, Bool, true, false,
}
use go_car.Prelude.{◌==◌, ltb, ◌||◌, if◌then◌else◌, length, Bool-cases}

abbrev pub elem : ℕ → List ℕ → Bool
elem k [] = false
elem k (j ∷ js) = (j == k) || elem k js

insert_key : ℕ → List ℕ → List ℕ
insert_key k [] = k ∷ []
insert_key k (j ∷ js) = if ltb k j then k ∷ j ∷ js else j ∷ insert_key k js

-- The keys in ascending order.
unfoldable pub sort_keys : List ℕ → List ℕ
unfolding insert_key
sort_keys [] = []
sort_keys (k ∷ ks) = insert_key k (sort_keys ks)

elem-insert_key : (j k : ℕ) (ks : List ℕ) → elem j (insert_key k ks) ≡ ((k == j) || elem j ks)
unfolding insert_key
elem-insert_key j k [] = refl
elem-insert_key j k (i ∷ ks) = ground (arith, elem-insert_key j k ks)

pub elem-sort_keys : (j : ℕ) (ks : List ℕ) → elem j (sort_keys ks) ≡ elem j ks
unfolding sort_keys
elem-sort_keys j [] = refl
elem-sort_keys j (k ∷ ks) = ground (arith, elem-insert_key j k (sort_keys ks), elem-sort_keys j ks)

length-insert_key : (k : ℕ) (ks : List ℕ) → length (insert_key k ks) ≡ suc (length ks)
unfolding insert_key
length-insert_key k [] = refl
length-insert_key k (j ∷ ks) = ground (arith, length-insert_key k ks)

pub length-sort_keys : (ks : List ℕ) → length (sort_keys ks) ≡ length ks
unfolding sort_keys
length-sort_keys [] = refl
length-sort_keys (k ∷ ks) = ground (arith, length-insert_key k (sort_keys ks), length-sort_keys ks)

module _ {ℓ} {V : Type ℓ} where
  unfoldable pub keys : List (ℕ × V) → List ℕ
  keys [] = []
  keys (entry ∷ rest) = entry.0 ∷ keys rest

  unfoldable pub lookup : ℕ → List (ℕ × V) → Option V
  lookup k [] = none
  lookup k (entry ∷ rest) = if entry.0 == k then some entry.1 else lookup k rest

  unfoldable pub insert : ℕ → V → List (ℕ × V) → List (ℕ × V)
  insert k v [] = (k, v) ∷ []
  insert k v (entry ∷ rest) = if entry.0 == k then (k, v) ∷ rest else entry ∷ insert k v rest

  pub lookup-insert :
      (new key : ℕ) (value : V) (map : List (ℕ × V))
      → lookup key (insert new value map) ≡ (if new == key then some value else lookup key map)
  unfolding insert lookup
  lookup-insert new key value [] = refl
  lookup-insert new key value (entry ∷ rest) = ground (arith, lookup-insert new key value rest)

  pub lookup-keys-none : (k : ℕ) (m : List (ℕ × V)) → elem k (keys m) ≡ false → lookup k m ≡ none
  unfolding lookup keys
  lookup-keys-none k [] h = refl
  lookup-keys-none k ((j, w) ∷ m) h = ground (arith, lookup-keys-none k m)

  pub lookup-keys-some :
      (k : ℕ) (m : List (ℕ × V)) → elem k (keys m) ≡ true → (v : V) × (lookup k m ≡ some v)
  unfolding lookup keys
  lookup-keys-some k [] h = cc
  lookup-keys-some k ((j, w) ∷ m) h = elim (Bool-cases (j == k)) [
    | inl p ↦ (w, ground arith)
    | inr p ↦ let (v, q) = lookup-keys-some k m (ground arith) in (v, ground arith)
  ]

  pub length-keys : (m : List (ℕ × V)) → length (keys m) ≡ length m
  unfolding keys
  length-keys [] = refl
  length-keys ((j, w) ∷ m) = ground (arith, length-keys m)
