-- ===== src/Blockstore/ReadWrite/Reach.antt =====
-- The states that an open ReadWrite blockstore comes to by calls that return no error.
use go_car.Prelude.{
  ℕ, ◌<◌, ◌^◌, ◌≡◌, ◌⊎◌, sym, ap, inl, inr, arith, List, [], ◌∷◌, ◌++◌, append_assoc, append-nil,
  none, some,
}
use go_car.Prelude.{length, Bool, true, false, not, Bool-cases, Option-cases, ltb, if◌then◌else◌}
use go_car.Bytes.{Bytes}
use go_car.Stream.{closed, ok, err, Result-cases}
use go_car.File.{FileLib, FileLaws}
use go_car.Varint.{Varint, VarintLaws}
use go_car.Cids.{CidLib, Block}
use go_car.Carv1.{Cbor}
use go_car.Options.{Options}
use go_car.Blockstore.InsertionIndex.{Tree}
use go_car.Blockstore.ReadWrite.{
  ReadWrite, data_start, open_blockstore, init_with_roots, is_skipped, write_block, is_ignored,
  put_block, put_blocks, put_many,
}
use go_car.Blockstore.ReadWrite.Items.{TreeInserts}
use go_car.Blockstore.ReadWrite.Put.{IsStored, write_block-IsStored}
use go_car.Blockstore.ReadOnly.Keys.{AllShort}
use go_car.Blockstore.ReadWrite.Init.{front_bytes, HasRoom, init_with_roots-IsStored}

module _ {F T Cid : Type 0} (files : FileLib F) (v : Varint) (lib : CidLib Cid) (tree : Tree Cid T)
    (identity : ℕ) where
  -- Whether a round of PutMany leaves its block out.
  abbrev pub leaves_out : Block Cid → ReadWrite F T → Bool
  leaves_out c b = elim (is_ignored files v lib tree identity b c.cid) [
    | err e ↦ false
    | ok ignored ↦
        if ignored
        then true
        else elim (is_skipped files v lib tree b c.cid) [ err e ↦ false | ok skipped ↦ skipped ]
  ]

  -- The blocks that PutMany does not leave out.
  abbrev pub taken : List (Block Cid) → ReadWrite F T → List (Block Cid)
  taken [] b = []
  taken (c ∷ cs) b =
      let rest = taken cs (put_block files v lib tree identity c b).1 in
      if leaves_out c b then rest else c ∷ rest

  pub put_many-open :
      (cs : List (Block Cid)) (b : ReadWrite F T)
      → b.is_closed ≡ false
      → put_many files v lib tree identity cs b ≡ put_blocks files v lib tree identity cs b
  unfolding put_many
  put_many-open cs b open_now =
      ap (λ c. if c then (some closed, b) else put_blocks files v lib tree identity cs b) open_now

  -- A round without an error changes nothing, or it writes the block.
  put_block_ok :
      (c : Block Cid) (b : ReadWrite F T)
      → (put_block files v lib tree identity c b).0 ≡ none
      → ((leaves_out c b ≡ true) × ((put_block files v lib tree identity c b).1 ≡ b))
        ⊎ ((leaves_out c b ≡ false)
            × ((write_block files v lib tree c b).0 ≡ none)
            × ((put_block files v lib tree identity c b).1 ≡ (write_block files v lib tree c b).1))
  unfolding put_block
  put_block_ok c b e = elim (Result-cases (is_ignored files v lib tree identity b c.cid)) [
    | inl (x, p) ↦ absurd (ground (arith, p, e))
    | inr (true, p) ↦ inl (ground (arith, p), ground (arith, p))
    | inr (false, p) ↦
        elim (Bool-cases (ltb b.opts.max_index_cid_size (length (lib.to_bytes c.cid)))) [
          | inl q ↦ absurd (ground (arith, p, q, e))
          | inr q ↦ elim (Result-cases (is_skipped files v lib tree b c.cid)) [
            | inl (x, r) ↦ absurd (ground (arith, p, q, r, e))
            | inr (true, r) ↦ inl (ground (arith, p, r), ground (arith, p, q, r))
            | inr (false, r) ↦
                inr (ground (arith, p, r), ground (arith, p, q, r, e), ground (arith, p, q, r))
          ]
        ]
  ]

module _ {F T Cid : Type 0} (files : FileLib F) (flaws : FileLaws files) (v : Varint)
    (laws : VarintLaws v) (lib : CidLib Cid) (tree : Tree Cid T) (inserts : TreeInserts tree)
    (identity : ℕ) (o : Options) (base : ℕ) (front : Bytes) where
  put_block-IsStored :
      (bs : List (Block Cid)) (c : Block Cid) (b : ReadWrite F T)
      → IsStored files flaws v laws lib tree inserts o base front bs b
      → length (lib.to_bytes c.cid ++ c.raw) < 2 ^ 63
      → (put_block files v lib tree identity c b).0 ≡ none
      → IsStored files flaws v laws lib tree inserts o base front
          (if leaves_out files v lib tree identity c b then bs else bs ++ (c ∷ []))
          (put_block files v lib tree identity c b).1
  put_block-IsStored bs c b stored small e = elim (put_block_ok files v lib tree identity c b e) [
    | inl (out, same) ↦ rw (out, same) stored
    | inr (out, wrote, same) ↦
        rw (out, same)
          (write_block-IsStored files flaws v laws lib tree inserts o base front bs c b stored small
            wrote)
  ]

  -- The rounds of PutMany.
  pub put_blocks-IsStored :
      (bs cs : List (Block Cid)) (b : ReadWrite F T)
      → IsStored files flaws v laws lib tree inserts o base front bs b
      → AllShort lib cs
      → (put_blocks files v lib tree identity cs b).0 ≡ none
      → IsStored files flaws v laws lib tree inserts o base front
          (bs ++ taken files v lib tree identity cs b)
          (put_blocks files v lib tree identity cs b).1
  unfolding put_blocks
  put_blocks-IsStored bs [] b stored small e = rw (append-nil bs) stored
  put_blocks-IsStored bs (c ∷ cs) b stored small e =
      let round = put_block files v lib tree identity c b in
      elim (Option-cases round.0) [
        | inr (x, p) ↦ absurd (ground (arith, p, e))
        | inl p ↦
            let now : _ = put_block-IsStored bs c b stored small.0 p in
            elim (Bool-cases (leaves_out files v lib tree identity c b)) [
              | inl out ↦
                  rw (p, put_blocks, out)
                    (put_blocks-IsStored bs cs round.1 (rw out at now) small.1
                      (rw (p, put_blocks) at e))
              | inr out ↦
                  rw
                    (
                      p,
                      put_blocks,
                      out,
                      sym (append_assoc bs (c ∷ []) (taken files v lib tree identity cs round.1)),
                    )
                    (put_blocks-IsStored (bs ++ (c ∷ [])) cs round.1 (rw out at now) small.1
                      (rw (p, put_blocks) at e))
            ]
      ]

module _ {F T Cid : Type 0} (files : FileLib F) (v : Varint) (cbor : Cbor Cid) (lib : CidLib Cid)
    (tree : Tree Cid T) (identity : ℕ) where
  -- OpenReadWrite on an empty file, and then calls of PutMany, each without an error; with the blocks
  -- that they did not leave out.
  pub data Reach (o : Options) (roots : List Cid) : ReadWrite F T → List (Block Cid) → Type 0 where
    opened :
        (f : F)
        → files.content f ≡ []
        → (init_with_roots files v cbor
            (not o.write_as_car_v1)
            roots
            (open_blockstore tree.empty f o)).0
          ≡ none
        → Reach o roots
            (init_with_roots files v cbor
              (not o.write_as_car_v1)
              roots
              (open_blockstore tree.empty f o)).1
            []
    put_more :
        {b : ReadWrite F T} {bs : List (Block Cid)} (cs : List (Block Cid))
        → Reach o roots b bs
        → AllShort lib cs
        → (put_many files v lib tree identity cs b).0 ≡ none
        → Reach o roots
            (put_many files v lib tree identity cs b).1
            (bs ++ taken files v lib tree identity cs b)

pub Reach-IsStored :
    {F T Cid : Type 0} (files : FileLib F) (flaws : FileLaws files) (v : Varint)
    (laws : VarintLaws v) (cbor : Cbor Cid) (lib : CidLib Cid) (tree : Tree Cid T)
    (inserts : TreeInserts tree) (identity : ℕ) (o : Options) (roots : List Cid) (hb : Bytes)
    (b : ReadWrite F T) (bs : List (Block Cid))
    → HasRoom o
    → cbor.dump_object (record { roots = roots; version = 1 }) ≡ ok hb
    → length hb < 2 ^ 63
    → Reach files v cbor lib tree identity o roots b bs
    → IsStored files flaws v laws lib tree inserts o (data_start o) (front_bytes v o hb) bs b
Reach-IsStored files flaws v laws cbor lib tree inserts identity o roots hb _ _ room dump small
      (opened f empty e) =
    init_with_roots-IsStored files flaws v laws cbor lib tree inserts o roots hb f room dump small
      empty e
Reach-IsStored files flaws v laws cbor lib tree inserts identity o roots hb _ _ room dump small
      (put_more {b} {bs} cs reach each e) =
    let stored : _ =
      Reach-IsStored files flaws v laws cbor lib tree inserts identity o roots hb b bs room dump
        small reach in
    let same : _ = put_many-open files v lib tree identity cs b stored.is_open in
    rw same (
      put_blocks-IsStored files flaws v laws lib tree inserts identity o (data_start o)
        (front_bytes v o hb) bs cs b stored each (rw same at e))
