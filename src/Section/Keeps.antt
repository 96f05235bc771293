-- ===== src/Section/Keeps.antt =====
-- What every write of a writer keeps, LdWrite keeps, also when it fails.
use go_car.Prelude.{◌<◌, ◌^◌, ◌≡◌, length, List, [], ◌∷◌, arith, none, inl, inr}
use go_car.Prelude.{Option-cases, Bool-cases, ltb}
use go_car.Bytes.{Bytes}
use go_car.Stream.{Sink}
use go_car.Varint.{Varint, VarintLaws}
use go_car.Section.{sum_lengths, write_all, ld_write}

module _ {ℓ κ} {S : Type ℓ} (k : Sink S) (P : S → Type κ)
    (keeps : (p : Bytes) (s : S) → P s → P (k.write p s).state) where
  pub write_all-keeps : (ds : List Bytes) (s : S) → P s → P (write_all k ds s).1
  unfolding write_all
  write_all-keeps [] s h = h
  write_all-keeps (d ∷ ds) s h =
      let now : _ = keeps d s h in
      elim (Option-cases (k.write d s).error) [
        | inl e ↦ rw (e, write_all) (write_all-keeps ds (k.write d s).state now)
        | inr (x, e) ↦ rw (e, write_all) now
      ]

  pub ld_write-keeps : (v : Varint) (ds : List Bytes) (s : S) → P s → P (ld_write v k ds s).1
  unfolding ld_write
  ld_write-keeps v ds s h =
      let sum = sum_lengths 0 ds in
      let now : _ = keeps (v.put sum) s h in
      elim (Bool-cases (ltb 8 (v.size sum))) [
        | inl p ↦ rw (p, ld_write) h
        | inr p ↦ elim (Option-cases (k.write (v.put sum) s).error) [
          | inl e ↦ rw (p, e, ld_write) (write_all-keeps ds (k.write (v.put sum) s).state now)
          | inr (x, e) ↦ rw (p, e, ld_write) now
        ]
      ]

  -- What the first write of a byte or more brings about, and every write keeps, holds after LdWrite.
  pub ld_write-first :
      (v : Varint) (laws : VarintLaws v) (ds : List Bytes) (s : S)
      → ((p : Bytes) → 0 < length p → (k.write p s).error ≡ none → P (k.write p s).state)
      → sum_lengths 0 ds < 2 ^ 63
      → (ld_write v k ds s).0 ≡ none
      → P (ld_write v k ds s).1
  unfolding ld_write
  ld_write-first v laws ds s first small e =
      let sum = sum_lengths 0 ds in
      let long : 0 < length (v.put sum) =
        omega (arith, laws.length_put sum small, laws.size_pos sum) in
      elim (Bool-cases (ltb 8 (v.size sum))) [
        | inl p ↦ absurd (ground (arith, p, e))
        | inr p ↦ elim (Option-cases (k.write (v.put sum) s).error) [
          | inl q ↦
              rw (p, q, ld_write)
                (write_all-keeps ds (k.write (v.put sum) s).state (first (v.put sum) long q))
          | inr (x, q) ↦ absurd (ground (arith, p, q, e))
        ]
      ]
