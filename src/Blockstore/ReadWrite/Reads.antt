-- ===== src/Blockstore/ReadWrite/Reads.antt =====
-- Has, Get and GetSize of a ReadWrite blockstore, against the blocks that were put.
use go_car.Prelude.{
  ℕ, ◌+◌, ◌≤◌, ◌<◌, ◌^◌, ◌≡◌, ◌⊎◌, refl, ◌∙◌, ap, inl, inr, arith, List, [], ◌∷◌, ◌++◌, drop,
}
use go_car.Prelude.{length, length-append, true, false, ◌==◌, Bool-cases}
use go_car.Prelude.Int.{pos}
use go_car.Bytes.{Bytes, bytes_equal}
use go_car.Stream.{ok}
use go_car.Stream.Laws.{drop-append}
use go_car.File.{FileLib, FileLaws}
use go_car.Varint.{Varint, VarintLaws}
use go_car.Cids.{CidLib, CidLaws, Decoded, Block}
use go_car.Carv1.ReadBack.{section}
use go_car.Carv1.Load.{sections}
use go_car.Index.Single.Lookup.{offsets_of}
use go_car.Options.{Options}
use go_car.Blockstore.InsertionIndex.{RecordDigest, Tree}
use go_car.Blockstore.InsertionIndex.Lookup.{as_records, TreeLaws, insertion_get_all-feed}
use go_car.Blockstore.ReadOnly.{open_at, is_identity, has, get, get_size}
use go_car.Blockstore.ReadOnly.Lookup.{IsLocated, AllLocated, Answers, reads_agree}
use go_car.Blockstore.ReadWrite.{ReadWrite, unsigned, ronly}
use go_car.Blockstore.ReadWrite.Items.{TreeInserts, IsItem, Items}
use go_car.Blockstore.ReadWrite.Put.{IsStored}
use mathlib.Core.List.{Mem, mem-cons}
use mathlib.Core.List.Perm
use mathlib.Core.Logic.Or
use go_car.Blockstore.ReadWrite.Candidates.{
  AllFit, AllFit-Mem, with_digest, with_digest-Mem, Mem-with_digest, with_digest-hash, pick-some,
}

module _ {F T Cid : Type 0} (files : FileLib F) (flaws : FileLaws files) (v : Varint)
    (laws : VarintLaws v) (lib : CidLib Cid) (cids : CidLaws lib) (tree : Tree Cid T)
    (inserts : TreeInserts tree) (identity : ℕ) (o : Options) (base : ℕ) (front : Bytes)
    (bs : List (Block Cid)) (b : ReadWrite F T)
    (stored : IsStored files flaws v laws lib tree inserts o base front bs b) where
  IsItem-IsLocated :
      (i : RecordDigest Cid) (c : Block Cid)
      → IsItem v lib base (front ++ sections v lib bs) i c
      → length (lib.to_bytes c.cid ++ c.raw) ≤ o.max_allowed_section_size
      → IsLocated v laws lib cids identity (ronly files v lib tree b) i.entry.offset c
  unfolding ronly open_at unsigned
  IsItem-IsLocated i c item fit =
      let whole = section v lib c ++ item.at.rest in
      let content : files.content b.data_writer.w ≡ item.at.before ++ whole =
        stored.content ∙ item.at.split in
      let low : base + i.entry.offset < 2 ^ 63 = omega (
        arith,
        stored.at_end.2,
        ap length content,
        length-append item.at.before whole,
        item.at.place,
      ) in
      let at_base : unsigned b.data_writer.base ≡ base = rw stored.at_end.0 (omega (arith, low)) in
      let behind : drop (base + i.entry.offset) (item.at.before ++ whole) ≡ whole =
        drop-append item.at.before whole (base + i.entry.offset) item.at.place in
      record {
        rest = item.at.rest;
        opened = rw (at_base, content, behind) (ground (arith, low));
        fits = rw stored.same_opts fit;
        small = item.small;
      }

  located :
      (d : Bytes) (is : List (RecordDigest Cid)) (cs : List (Block Cid))
      → Items v lib base (front ++ sections v lib bs) is cs
      → ((c : Block Cid)
          → Mem c cs
          → length (lib.to_bytes c.cid ++ c.raw) ≤ o.max_allowed_section_size)
      → AllLocated v laws lib cids identity
          (ronly files v lib tree b)
          (offsets_of d (as_records is))
          (with_digest v lib d is cs)
  located d [] [] items fit = tt
  located d [] (c ∷ cs) items fit = absurd items
  located d (i ∷ is) [] items fit = absurd items
  located d (i ∷ is) (c ∷ cs) items fit =
      let rest : _ = located d is cs items.1 (λ x m. fit x (mem-cons.1 (Or.inr m))) in
      elim (Bool-cases (bytes_equal d i.digest)) [
        | inl p ↦ rw p (IsItem-IsLocated i c items.0 (fit c (mem-cons.1 (Or.inl refl))), rest)
        | inr p ↦ rw p rest
      ]

  -- A block that was put is found by its CID, if CIDs are compared as a whole, or if no other block
  -- that was put has its digest under another multihash: Has answers true, and Get and GetSize
  -- answer with one block that was put and has the multihash of the key. The tree is in order, and
  -- the blocks are within the limit on sections.
  pub put_is_found :
      (c : Block Cid) (h : Decoded)
      → TreeLaws tree b.idx
      → AllFit v lib o.max_allowed_section_size bs
      → Mem c bs
      → lib.decode (lib.hash c.cid) ≡ ok h
      → (h.code == identity) ≡ false
      → (o.blockstore_use_whole_cids ≡ true)
        ⊎ ((x : Block Cid) (g : Decoded)
            → Mem x bs
            → lib.decode (lib.hash x.cid) ≡ ok g
            → g.digest ≡ h.digest
            → lib.hash x.cid ≡ lib.hash c.cid)
      → let r = ronly files v lib tree b in
        (x : Block Cid) × Mem x bs
        × (lib.hash x.cid ≡ lib.hash c.cid)
        × (has v lib identity r c.cid ≡ ok true)
        × (get v lib identity r c.cid ≡ ok (record { cid = c.cid; raw = x.raw }))
        × (get_size v lib identity r c.cid ≡ ok (pos (length x.raw)))
  unfolding ronly is_identity
  put_is_found c h ordered fit mem decoded plain mode =
      let is = tree.items b.idx in
      let chosen = with_digest v lib h.digest is stored.blocks in
      let all : _ = located h.digest is stored.blocks stored.items (λ x m.
        AllFit-Mem v lib o.max_allowed_section_size bs x fit (Perm.subset stored.same x m)) in
      let here : Mem c chosen =
        with_digest-Mem v lib base (front ++ sections v lib bs) h.digest is stored.blocks c h
          stored.items decoded refl ((Perm.mem_iff stored.same).1 mem) in
      let whole : _ = ap (λ x. x.blockstore_use_whole_cids) stored.same_opts in
      let r = ronly files v lib tree b in
      let mode' : (r.opts.blockstore_use_whole_cids ≡ true)
          ⊎ ((x : Block Cid) → Mem x chosen → lib.hash x.cid ≡ lib.hash c.cid) =
        elim mode [
          | inl e ↦ inl (whole ∙ e)
          | inr one ↦ inr (
              with_digest-hash v lib base (front ++ sections v lib bs) h.digest (lib.hash c.cid) is
                stored.blocks stored.items (λ x g m e q. one x g (Perm.subset stored.same x m) e q))
        ] in
      let (x, found, among, hash) =
        pick-some v lib r.opts.blockstore_use_whole_cids c.cid c chosen cids mode' refl here in
      let answers : Answers v laws lib cids identity r c.cid (offsets_of h.digest (as_records is)) =
        λ A fn a. insertion_get_all-feed lib tree c.cid h fn b.idx a ordered decoded in
      let (as_has, as_get, as_size) =
        reads_agree v laws lib cids identity r c.cid (offsets_of h.digest (as_records is)) chosen
          h.digest answers all stored.is_open (ground (arith, decoded, plain)) in
      let was_put : Mem x bs = Perm.subset stored.same x (
        Mem-with_digest v lib base (front ++ sections v lib bs) h.digest is stored.blocks x
          stored.items among) in
      (x, was_put, hash, rw found at as_has, rw found at as_get, rw found at as_size)
