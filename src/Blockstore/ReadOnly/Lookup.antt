-- ===== src/Blockstore/ReadOnly/Lookup.antt =====
-- Has, Get and GetSize over an index that answers the offsets of sections.
use go_car.Prelude.{
  ℕ, ◌≤◌, ◌<◌, ◌^◌, ◌≡◌, refl, ap, inl, inr, arith, List, [], ◌∷◌, ◌++◌, append_assoc, Option, none,
  some,
}
use go_car.Prelude.{length, length-append, Bool, true, false, Option-cases, if◌then◌else◌}
use go_car.Prelude.Int.{ℤ, pos, negsuc, sub_ℕ}
use go_car.Bytes.{Bytes, bytes_equal}
use go_car.Stream.{not_found, block_not_found, Result, ok, err}
use go_car.Varint.{Varint, VarintLaws}
use go_car.Cids.{CidLib, CidLaws, Block}
use go_car.Section.Frame.{read_node-frame}
use go_car.Carv1.ReadBack.{section}
use go_car.Index.Single.Lookup.{is_nil, feed}
use go_car.Blockstore.ReadOnly.{
  ReadOnly, open_at, Found, is_identity, read_cid_at, has_fn, has, read_block, get_fn, get,
  get_size_fn, is_minus_one, get_size,
}

module _ {Cid : Type 0} (lib : CidLib Cid) where
  -- The block among candidates that a lookup by whole CIDs, or by multihashes, comes to.
  abbrev pub pick : Bool → Cid → List (Block Cid) → Option (Block Cid)
  pick whole key [] = none
  pick whole key (c ∷ cs) =
      if whole
      then (if lib.equals c.cid key then some c else pick whole key cs)
      else if bytes_equal (lib.hash c.cid) (lib.hash key)
      then some c
      else none

  abbrev pub has_answer : Option (Block Cid) → Bool
  has_answer none = false
  has_answer (some c) = true

  abbrev pub get_answer : Cid → Option (Block Cid) → Result (Block Cid)
  get_answer key none = err block_not_found
  get_answer key (some c) = ok (record { cid = key; raw = c.raw })

  abbrev pub size_answer : Option (Block Cid) → Result ℤ
  size_answer none = err block_not_found
  size_answer (some c) = ok (pos (length c.raw))

module _ {Cid : Type 0} (v : Varint) (laws : VarintLaws v) (lib : CidLib Cid) (cids : CidLaws lib)
    (identity : ℕ) (b : ReadOnly Cid) where
  -- At the offset stands a section with the block, within the limit.
  pub record IsLocated (offset : ℕ) (c : Block Cid) : Type 0 where
    pub rest : Bytes
    pub opened : open_at b.backing offset ≡ ok (section v lib c ++ rest)
    pub fits : length (lib.to_bytes c.cid ++ c.raw) ≤ b.opts.max_allowed_section_size
    pub small : length (lib.to_bytes c.cid ++ c.raw) < 2 ^ 63

  abbrev pub AllLocated : List ℕ → List (Block Cid) → Type 0
  AllLocated [] [] = Unit
  AllLocated (o ∷ os) (c ∷ cs) = IsLocated o c × AllLocated os cs
  AllLocated _ _ = ⊥

  read_block-IsLocated :
      (offset : ℕ) (c : Block Cid)
      → IsLocated offset c
      → read_block v lib identity b offset ≡ ok (c.cid, c.raw)
  unfolding read_block
  read_block-IsLocated offset c at =
      let node : _ =
        read_node-frame v laws lib b.opts.zero_length_section_as_eof b.opts.max_allowed_section_size
          c.cid c.raw at.rest cids at.fits at.small in
      rw (at.opened, read_block) (ap (λ p. p.0) node)

  read_cid_at-IsLocated :
      (offset : ℕ) (c : Block Cid)
      → IsLocated offset c
      → read_cid_at v lib identity b.backing offset
        ≡ ok (length (lib.to_bytes c.cid ++ c.raw), length (lib.to_bytes c.cid), c.cid)
  unfolding read_cid_at
  read_cid_at-IsLocated offset c at =
      let payload = lib.to_bytes c.cid ++ c.raw in
      let whole : _ = append_assoc (v.put (length payload)) payload at.rest in
      let inner : _ = append_assoc (lib.to_bytes c.cid) c.raw at.rest in
      let read : _ = laws.read_put (length payload) (payload ++ at.rest) at.small in
      let cid : _ = cids.from_reader-to_bytes c.cid (c.raw ++ at.rest) in
      ground (arith, at.opened, whole, inner, read, cid)

  abbrev raw_of : Option (Block Cid) → Option Bytes
  raw_of none = none
  raw_of (some c) = some c.raw

  abbrev size_of : Option (Block Cid) → ℤ
  size_of none = negsuc 0
  size_of (some c) = pos (length c.raw)

  -- The index answers the key with these offsets, as the indexes of this repository do.
  abbrev pub Answers : Cid → List ℕ → Type 1
  Answers key os =
      (A : Type 0) (fn : ℕ → A → Bool × A) (a : A)
      → b.get_all A key fn a ≡ (if is_nil os then some not_found else none, feed fn os a)

  module _ (key : Cid) where
    feed-get_fn :
        (os : List ℕ) (cs : List (Block Cid))
        → AllLocated os cs
        → feed (get_fn v lib identity b key) os (record { value = none; error = none }) ≡ record {
          value = raw_of (pick lib b.opts.blockstore_use_whole_cids key cs);
          error = none;
        }
    unfolding get_fn
    feed-get_fn [] [] at = refl
    feed-get_fn [] (c ∷ cs) at = absurd at
    feed-get_fn (o ∷ os) [] at = absurd at
    feed-get_fn (o ∷ os) (c ∷ cs) at =
        ground (arith, read_block-IsLocated o c at.0, feed-get_fn os cs at.1)

    feed-has_fn :
        (os : List ℕ) (cs : List (Block Cid))
        → AllLocated os cs
        → feed (has_fn v lib identity b key) os (record { value = false; error = none }) ≡ record {
          value = has_answer lib (pick lib b.opts.blockstore_use_whole_cids key cs);
          error = none;
        }
    unfolding has_fn
    feed-has_fn [] [] at = refl
    feed-has_fn [] (c ∷ cs) at = absurd at
    feed-has_fn (o ∷ os) [] at = absurd at
    feed-has_fn (o ∷ os) (c ∷ cs) at =
        ground (arith, read_cid_at-IsLocated o c at.0, feed-has_fn os cs at.1)

    size_behind :
        (c : Block Cid)
        → sub_ℕ (length (lib.to_bytes c.cid ++ c.raw)) (length (lib.to_bytes c.cid))
          ≡ pos (length c.raw)
    size_behind c = ground (arith, length-append (lib.to_bytes c.cid) c.raw)

    feed-get_size_fn :
        (os : List ℕ) (cs : List (Block Cid))
        → AllLocated os cs
        → feed (get_size_fn v lib identity b key) os (record { value = negsuc 0; error = none })
          ≡ record {
            value = size_of (pick lib b.opts.blockstore_use_whole_cids key cs);
            error = none;
          }
    unfolding get_size_fn
    feed-get_size_fn [] [] at = refl
    feed-get_size_fn [] (c ∷ cs) at = absurd at
    feed-get_size_fn (o ∷ os) [] at = absurd at
    feed-get_size_fn (o ∷ os) (c ∷ cs) at =
        ground (arith, read_cid_at-IsLocated o c at.0, size_behind c, feed-get_size_fn os cs at.1)

    -- On a blockstore that is open, whose index answers a key that is no identity with the offsets
    -- of sections, Has, Get and GetSize agree: by whole CIDs they find the first block among these
    -- with the same CID, and else the first block of all, if it has the same multihash.
    pub reads_agree :
        (os : List ℕ) (cs : List (Block Cid)) (digest : Bytes)
        → Answers key os
        → AllLocated os cs
        → b.is_closed ≡ false
        → is_identity v lib identity key ≡ ok (digest, false)
        → let found = pick lib b.opts.blockstore_use_whole_cids key cs in
          (has v lib identity b key ≡ ok (has_answer lib found))
          × (get v lib identity b key ≡ get_answer lib key found)
          × (get_size v lib identity b key ≡ size_answer lib found)
    unfolding has get get_size is_minus_one
    reads_agree [] [] digest answers at opened plain =
        let as_has : _ =
          answers (Found Bool) (has_fn v lib identity b key)
            (record { value = false; error = none }) in
        let as_get : _ =
          answers (Found (Option Bytes)) (get_fn v lib identity b key)
            (record { value = none; error = none }) in
        let as_size : _ =
          answers (Found ℤ) (get_size_fn v lib identity b key)
            (record { value = negsuc 0; error = none }) in
        (
          ground (arith, as_has, opened, plain),
          ground (arith, as_get, opened, plain),
          ground (arith, as_size, opened, plain),
        )
    reads_agree [] (c ∷ cs) digest answers at opened plain = absurd at
    reads_agree (o ∷ os) [] digest answers at opened plain = absurd at
    reads_agree (o ∷ os) (c ∷ cs) digest answers at opened plain =
        let as_has : _ =
          answers (Found Bool) (has_fn v lib identity b key)
            (record { value = false; error = none }) in
        let as_get : _ =
          answers (Found (Option Bytes)) (get_fn v lib identity b key)
            (record { value = none; error = none }) in
        let as_size : _ =
          answers (Found ℤ) (get_size_fn v lib identity b key)
            (record { value = negsuc 0; error = none }) in
        elim (Option-cases (pick lib b.opts.blockstore_use_whole_cids key (c ∷ cs))) [
          | inl p ↦ (
            ground (arith, as_has, opened, plain, p, feed-has_fn (o ∷ os) (c ∷ cs) at),
            ground (arith, as_get, opened, plain, p, feed-get_fn (o ∷ os) (c ∷ cs) at),
            ground (arith, as_size, opened, plain, p, feed-get_size_fn (o ∷ os) (c ∷ cs) at),
          )
          | inr (x, p) ↦ (
            ground (arith, as_has, opened, plain, p, feed-has_fn (o ∷ os) (c ∷ cs) at),
            ground (arith, as_get, opened, plain, p, feed-get_fn (o ∷ os) (c ∷ cs) at),
            ground (arith, as_size, opened, plain, p, feed-get_size_fn (o ∷ os) (c ∷ cs) at),
          )
        ]
