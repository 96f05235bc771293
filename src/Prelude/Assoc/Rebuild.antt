-- ===== src/Prelude/Assoc/Rebuild.antt =====
-- Storing values key by key, as the loops that read a map back do.
use go_car.Prelude.{ℕ, ◌≡◌, refl, sym, ◌∙◌, inl, inr, arith, List, [], ◌∷◌, none, some}
use go_car.Prelude.{true, Bool-cases, if◌then◌else◌}
use go_car.Prelude.Assoc.{
  lookup, insert, keys, sort_keys, elem, lookup-insert, lookup-keys-none, lookup-keys-some,
  elem-sort_keys,
}

module _ {ℓ} {V : Type ℓ} where
  -- The values of `at`, stored at the keys given, one after the other.
  abbrev pub rebuild : (ℕ → V) → List ℕ → List (ℕ × V) → List (ℕ × V)
  rebuild at [] acc = acc
  rebuild at (k ∷ ks) acc = rebuild at ks (insert k (at k) acc)

  lookup-rebuild :
      (at : ℕ → V) (ks : List ℕ) (acc : List (ℕ × V)) (j : ℕ)
      → lookup j (rebuild at ks acc) ≡ (if elem j ks then some (at j) else lookup j acc)
  lookup-rebuild at [] acc j = refl
  lookup-rebuild at (k ∷ ks) acc j =
      ground (arith, lookup-rebuild at ks (insert k (at k) acc) j, lookup-insert k j (at k) acc)

  pub lookup-rebuild_keys :
      (at : ℕ → V) (js : List ℕ) (j : ℕ)
      → lookup j (rebuild at (sort_keys js) []) ≡ (if elem j js then some (at j) else none)
  unfolding lookup
  lookup-rebuild_keys at js j =
      ground (arith, lookup-rebuild at (sort_keys js) [] j, elem-sort_keys j js)

  pub lookup-rebuild_all :
      (at : ℕ → V) (m : List (ℕ × V))
      → ((k : ℕ) (v : V) → lookup k m ≡ some v → at k ≡ v)
      → (j : ℕ) → lookup j (rebuild at (sort_keys (keys m)) []) ≡ lookup j m
  lookup-rebuild_all at m agrees j = elim (Bool-cases (elem j (keys m))) [
    | inl p ↦
        let (v, q) = lookup-keys-some j m p in
        ground (arith, lookup-rebuild_keys at (keys m) j, agrees j v q)
    | inr p ↦ ground (arith, lookup-rebuild_keys at (keys m) j, lookup-keys-none j m p)
  ]

  abbrev pub AllKeys : List (ℕ × V) → List ℕ → Type 0
  AllKeys m [] = Unit
  AllKeys m (k ∷ ks) = (elem k (keys m) ≡ true) × AllKeys m ks

  AllKeys-of_elem :
      (m : List (ℕ × V)) (ks : List ℕ)
      → ((j : ℕ) → elem j ks ≡ true → elem j (keys m) ≡ true)
      → AllKeys m ks
  AllKeys-of_elem m [] h = tt
  AllKeys-of_elem m (k ∷ ks) h =
      (h k (ground arith), AllKeys-of_elem m ks (λ j p. h j (ground arith)))

  pub sorted-AllKeys : (m : List (ℕ × V)) → AllKeys m (sort_keys (keys m))
  sorted-AllKeys m =
      AllKeys-of_elem m (sort_keys (keys m)) (λ j p. sym (elem-sort_keys j (keys m)) ∙ p)
