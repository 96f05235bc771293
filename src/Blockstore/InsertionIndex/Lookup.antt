-- ===== src/Blockstore/InsertionIndex/Lookup.antt =====
-- insertionIndex.GetAll against the items of the tree.
use go_car.Prelude.{ℕ, ◌≡◌, refl, inl, inr, arith, List, [], ◌∷◌, none, some}
use go_car.Prelude.{Bool, true, false, Bool-cases, if◌then◌else◌}
use go_car.Bytes.{Bytes, bytes_equal, bytes_less}
use go_car.Bytes.RoundTrip.{bytes_equal_refl, bytes_equal→eq, bytes_less_irrefl, bytes_less_tri}
use go_car.Stream.{not_found, ok}
use go_car.Cids.{CidLib, Decoded}
use go_car.Index.Single.{DigestRecord, record_less}
use go_car.Index.Single.Lookup.{NoneLess, IsSorted, offsets_of, offsets_of-above, is_nil, feed}
use go_car.Blockstore.InsertionIndex.{RecordDigest, Tree, iterate, get_all_iter, insertion_get_all}

module _ {Cid : Type 0} where
  -- The items as digests with offsets.
  abbrev pub as_records : List (RecordDigest Cid) → List DigestRecord
  as_records [] = []
  as_records (i ∷ is) = record { digest = i.digest; index = i.entry.offset } ∷ as_records is

  -- The items from the first one on that is not below a digest.
  unfoldable pub not_below : Bytes → List (RecordDigest Cid) → List (RecordDigest Cid)
  not_below d [] = []
  not_below d (i ∷ is) = if bytes_less i.digest d then not_below d is else i ∷ is

-- What package llrb documents of a tree: the items are in ascending order, and AscendGreaterOrEqual goes
-- through those that are not below its pivot.
pub record TreeLaws {Cid T : Type 0} (tree : Tree Cid T) (t : T) : Type 0 where
  pub ascending : IsSorted (as_records (tree.items t))
  pub from_pivot : (d : Bytes) → tree.ascend d t ≡ not_below d (tree.items t)

module _ {Cid : Type 0} (d : Bytes) where
  abbrev HeadNotBelow : List (RecordDigest Cid) → Type 0
  HeadNotBelow [] = Unit
  HeadNotBelow (i ∷ is) = bytes_less i.digest d ≡ false

  NoneLess-HeadNotBelow :
      (i : RecordDigest Cid) (is : List (RecordDigest Cid))
      → i.digest ≡ d
      → NoneLess (record { digest = i.digest; index = i.entry.offset }) (as_records is)
      → HeadNotBelow is
  unfolding record_less
  NoneLess-HeadNotBelow i [] e h = tt
  NoneLess-HeadNotBelow i (j ∷ is) e h = rw e at h.0

  above_digest :
      (i : RecordDigest Cid)
      → bytes_less i.digest d ≡ false
      → bytes_equal i.digest d ≡ false
      → (bytes_less d i.digest ≡ true) × (bytes_equal d i.digest ≡ false)
  above_digest i low differ = (
    ground (arith, bytes_less_tri i.digest d low, bytes_equal_refl d, low, differ),
    ground (arith, bytes_equal→eq d i.digest, bytes_equal_refl d, differ),
  )

  IsSorted-not_below :
      (is : List (RecordDigest Cid))
      → IsSorted (as_records is)
      → IsSorted (as_records (not_below d is))
        × HeadNotBelow (not_below d is)
        × (offsets_of d (as_records (not_below d is)) ≡ offsets_of d (as_records is))
  unfolding not_below
  IsSorted-not_below [] sorted = (tt, tt, refl)
  IsSorted-not_below (i ∷ is) sorted = elim (Bool-cases (bytes_less i.digest d)) [
    | inl p ↦
        let differ : bytes_equal d i.digest ≡ false =
          ground (arith, p, bytes_equal→eq d i.digest, bytes_less_irrefl d) in
        rw (p, differ) (IsSorted-not_below is sorted.1)
    | inr p ↦ rw p (sorted, p, refl)
  ]

  module _ {ℓ} {A : Type ℓ} (fn : ℕ → A → Bool × A) where
    -- From an item on that is not below the digest.
    iterate-feed :
        (is : List (RecordDigest Cid)) (any : Bool) (a : A)
        → IsSorted (as_records is)
        → HeadNotBelow is
        → iterate (get_all_iter d fn) is (any, a) ≡ (
          if is_nil (offsets_of d (as_records is)) then any else true,
          feed fn (offsets_of d (as_records is)) a,
        )
    unfolding iterate get_all_iter
    iterate-feed [] any a sorted start = ground arith
    iterate-feed (i ∷ is) any a sorted start = elim (Bool-cases (bytes_equal i.digest d)) [
      | inl p ↦
          let same : i.digest ≡ d = bytes_equal→eq i.digest d p in
          let equal : bytes_equal d i.digest ≡ true = rw same (bytes_equal_refl d) in
          ground (
            arith,
            p,
            equal,
            iterate-feed is true (fn i.entry.offset a).1 sorted.1
                (NoneLess-HeadNotBelow i is same sorted.0),
          )
      | inr p ↦
          let (above, differ) = above_digest i start p in
          let none_left : _ =
            offsets_of-above d (record { digest = i.digest; index = i.entry.offset })
              (as_records is) sorted.0 above in
          ground (arith, p, differ, none_left)
    ]

-- On a tree as package llrb documents it, GetAll calls the callback on the offsets of exactly the
-- items with the digest of the CID, in the order of the tree, until the callback answers false; it
-- returns ErrNotFound exactly if no item has the digest.
pub insertion_get_all-feed {ℓ} :
    {Cid T : Type 0} {A : Type ℓ} (lib : CidLib Cid) (tree : Tree Cid T) (c : Cid) (h : Decoded)
    (fn : ℕ → A → Bool × A) (t : T) (a : A)
    → TreeLaws tree t
    → lib.decode (lib.hash c) ≡ ok h
    → insertion_get_all lib tree c fn t a ≡ (
        let offsets = offsets_of h.digest (as_records (tree.items t)) in
        (if is_nil offsets then some not_found else none, feed fn offsets a))
unfolding insertion_get_all
insertion_get_all-feed lib tree c h fn t a laws decoded =
    let (sorted, start, same) = IsSorted-not_below h.digest (tree.items t) laws.ascending in
    let loop : _ =
      iterate-feed h.digest fn (not_below h.digest (tree.items t)) false a sorted start in
    ground (arith, decoded, laws.from_pivot h.digest, same, loop)
