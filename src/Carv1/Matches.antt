-- ===== src/Carv1/Matches.antt =====
-- CarHeader.Matches: what it tells about the roots of two headers.
use go_car.Prelude.{
  ℕ, ◌≡◌, ◌≢◌, ◌↔◌, refl, sym, ap, ◌∙◌, inl, inr, arith, List, [], ◌∷◌, true, false,
}
use go_car.Prelude.{length, Bool-cases}
use go_car.Cids.{CidLib, CidLaws}
use go_car.Carv1.{CarHeader, contains_root, contains_roots, first_equals, matches}
use mathlib.Core.Bool.{Bool-set}
use mathlib.Core.Logic.Or
use mathlib.Core.List.{Mem, Perm, Nodup, Subset, cons-subset, nil-subset, mem-cons, not-mem-nil}
use mathlib.Core.List as Lists
use mathlib.Core.List.Nodup
use mathlib.Core.List.Perm
use mathlib.Core.List.Subperm
use native.Mathlib.Bridge.{from_ℕ, from_le⁻¹}

module _ {Cid : Type 0} (lib : CidLib Cid) (cids : CidLaws lib) where
  contains_root→Mem : (rs : List Cid) (c : Cid) → contains_root lib rs c ≡ true → Mem c rs
  unfolding contains_root
  contains_root→Mem [] c h = cc
  contains_root→Mem (r ∷ rs) c h = elim (Bool-cases (lib.equals r c)) [
    | inl p ↦ mem-cons.1 (Or.inl (cc ((cids.equals_iff r c).0 p)))
    | inr p ↦ mem-cons.1 (Or.inr (contains_root→Mem rs c (ground arith)))
  ]

  Mem→contains_root : (rs : List Cid) (c : Cid) → Mem c rs → contains_root lib rs c ≡ true
  unfolding contains_root
  Mem→contains_root [] c h = absurd (not-mem-nil h)
  Mem→contains_root (r ∷ rs) c h =
      Or.elim (Bool-set _ _) (mem-cons.0 h) (λ e. ground (arith, cids.equals_iff r c))
        (λ m. ground (arith, Mem→contains_root rs c m))

  contains_roots→Subset :
      (other rs : List Cid) → contains_roots lib other rs ≡ true → Subset rs other
  unfolding contains_roots
  contains_roots→Subset other [] h = nil-subset other
  contains_roots→Subset other (r ∷ rs) h =
      cons-subset.1
        (contains_root→Mem other r (ground arith), contains_roots→Subset other rs (ground arith))

  Subset→contains_roots :
      (other rs : List Cid) → Subset rs other → contains_roots lib other rs ≡ true
  unfolding contains_roots
  Subset→contains_roots other [] h = refl
  Subset→contains_roots other (r ∷ rs) h =
      let (m, sub) = cons-subset.0 h in
      ground (arith, Mem→contains_root other r m, Subset→contains_roots other rs sub)

  -- The fast path for a single root agrees with the loops.
  first_equals-contains_roots :
      (hs os : List Cid)
      → length hs ≡ 1
      → length os ≡ 1
      → first_equals lib hs os ≡ contains_roots lib os hs
  unfolding first_equals contains_roots contains_root
  first_equals-contains_roots (h ∷ []) (o ∷ []) p q =
      ground (arith, cids.equals_iff h o, cids.equals_iff o h)
  first_equals-contains_roots [] os p q = absurd (omega arith)
  first_equals-contains_roots hs [] p q = absurd (omega arith)
  first_equals-contains_roots (h ∷ h' ∷ hs) os p q = absurd (omega arith)
  first_equals-contains_roots hs (o ∷ o' ∷ os) p q = absurd (omega arith)

  -- Matches answers true exactly if the versions are the same, the numbers of roots are the same,
  -- and every root of the receiver is a root of the argument.
  pub matches_iff :
      (h other : CarHeader Cid)
      → (matches lib h other ≡ true) ↔ (
          (h.version ≡ other.version)
          × (length h.roots ≡ length other.roots)
          × Subset h.roots other.roots)
  unfolding matches
  matches_iff h other = (
    λ e. (
      ground arith,
      ground arith,
      contains_roots→Subset other.roots h.roots
          (ground (arith, first_equals-contains_roots h.roots other.roots)),
    ),
    λ (p, q, s). ground (
      arith,
      Subset→contains_roots other.roots h.roots s,
      first_equals-contains_roots h.roots other.roots,
    ),
  )

  unary_length : (xs : List Cid) → from_ℕ (Lists.length xs) ≡ length xs
  unary_length [] = refl
  unary_length (x ∷ xs) = omega (arith, unary_length xs)

  -- If the receiver has no root twice, Matches answers true exactly if the versions are the same
  -- and the roots are the same up to their order.
  pub matches-Perm :
      (h other : CarHeader Cid)
      → Nodup h.roots
      → (matches lib h other ≡ true) ↔ ((h.version ≡ other.version) × Perm h.roots other.roots)
  matches-Perm h other nd = (
    λ m.
        let (same, len, sub) = (matches_iff h other).0 m in
        (
          same,
          Subperm.perm_of_length_le (Nodup.subperm nd sub)
              (from_le⁻¹ _ _ (omega (arith, unary_length h.roots, unary_length other.roots))),
        ),
    λ (same, p). (matches_iff h other).1 (
      same,
      sym (unary_length h.roots) ∙ ap from_ℕ (Perm.length-eq p) ∙ unary_length other.roots,
      Perm.subset p,
    ),
  )

  -- With a root twice the answer depends on which header is asked: two roots `a` match `a` and
  -- `b`, and `a` and `b` do not match two roots `a`.
  pub matches_asymmetric :
      (a b : Cid) (version : ℕ)
      → a ≢ b
      → (matches lib
            (record { roots = a ∷ a ∷ []; version = version })
            (record { roots = a ∷ b ∷ []; version = version })
          ≡ true)
        × (matches lib
              (record { roots = a ∷ b ∷ []; version = version })
              (record { roots = a ∷ a ∷ []; version = version })
            ≡ false)
  unfolding matches contains_roots contains_root
  matches_asymmetric a b version ne = ground (arith, cids.equals_iff a a, cids.equals_iff a b)
