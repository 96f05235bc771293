-- ===== src/Blockstore/ReadWrite/Resumed.antt =====
-- The index that a resumption builds from the sections of a file.
use go_car.Prelude.{
  ℕ, zero, suc, ◌+◌, ◌-◌, ◌<◌, ◌^◌, ◌≡◌, refl, sym, ◌∙◌, ap, arith, List, [], ◌∷◌, ◌++◌,
  append_assoc, append-nil, Option, none, some, drop,
}
use go_car.Prelude.{length, length-append, leb, Bool, false, ◌==◌}
use go_car.Bytes.{Bytes}
use go_car.Stream.{Error, eof, ok}
use go_car.Stream.Laws.{drop-append, drop_all}
use go_car.File.{FileLib, FileLaws}
use go_car.Varint.{Varint, VarintLaws}
use go_car.Cids.{CidLib, CidLaws, Decoded, Block}
use go_car.Carv1.{Cbor}
use go_car.Carv1.ReadBack.{section}
use go_car.Carv1.Load.{sections}
use go_car.Blockstore.InsertionIndex.{RecordDigest, Tree, insert_no_replace, new_record_from_cid}
use go_car.Blockstore.ReadWrite.Resume.{resume_sections}
use go_car.Options.{Options}
use go_car.Blockstore.ReadWrite.{ReadWrite}
use go_car.Blockstore.ReadOnly.Keys.{AllShort, length-sections}
use go_car.Blockstore.ReadWrite.Put.{IsStored}
use go_car.Blockstore.ReadWrite.Items.{TreeInserts, IsItem, Items, Inserted, Items-insert}
use mathlib.Core.List.{Perm, perm_append_singleton}
use mathlib.Core.List.Perm

-- Blocks whose multihash can be decoded.
abbrev pub AllDecoded : {Cid : Type 0} → CidLib Cid → List (Block Cid) → Type 0
AllDecoded lib [] = Unit
AllDecoded lib (c ∷ cs) = ((d : Decoded) × (lib.decode (lib.hash c.cid) ≡ ok d)) × AllDecoded lib cs

module _ {F T Cid : Type 0} (files : FileLib F) (v : Varint) (laws : VarintLaws v) (cbor : Cbor Cid)
    (lib : CidLib Cid) (cids : CidLaws lib) (tree : Tree Cid T) (inserts : TreeInserts tree)
    (z : Bool) (base : ℕ) (content : Bytes) where
  -- What a loop over sections leaves: the index has one item for each section.
  pub record Reindexed (bs : List (Block Cid)) (result : Option (Option Error × ℕ × T))
      : Type 0 where
    pub idx : T
    pub ended : result ≡ some (none, length content - base, idx)
    pub blocks : List (Block Cid)
    pub items : Items v lib base content (tree.items idx) blocks
    pub same : Perm blocks bs

  -- One round, on a section.
  round :
      (fuel off : ℕ) (front rest : Bytes) (c : Block Cid) (d : Decoded) (idx : T)
      → content ≡ front ++ (section v lib c ++ rest)
      → length front ≡ base + off
      → length content < 2 ^ 63
      → length (lib.to_bytes c.cid ++ c.raw) < 2 ^ 63
      → lib.decode (lib.hash c.cid) ≡ ok d
      → resume_sections files v cbor lib tree z base content (suc fuel) off idx
        ≡ resume_sections files v cbor lib tree z base content fuel
            (length (front ++ section v lib c) - base)
            (tree.insert_no_replace
              (record { digest = d.digest; entry = record { cid = c.cid; offset = off } })
              idx)
  unfolding resume_sections insert_no_replace new_record_from_cid
  round fuel off front rest c d idx split place low small decoded =
      let payload = lib.to_bytes c.cid ++ c.raw in
      let src : drop (base + off) content ≡ section v lib c ++ rest =
        ap (drop (base + off)) split
        ∙ drop-append front (section v lib c ++ rest) (base + off) place in
      let whole : _ = append_assoc (v.put (length payload)) payload rest in
      let read : _ = laws.read_put (length payload) (payload ++ rest) small in
      let inner : _ = append_assoc (lib.to_bytes c.cid) c.raw rest in
      let cid : _ = cids.from_reader-to_bytes c.cid (c.raw ++ rest) in
      let size : length content ≡ length (front ++ section v lib c) + length rest =
        ap length split
        ∙ omega (
          arith,
          length-append front (section v lib c ++ rest),
          length-append (section v lib c) rest,
          length-append front (section v lib c),
        ) in
      let start : v.read (drop (base + off) content)
          ≡ record { value = length payload; error = none; rest = payload ++ rest } =
        ap v.read (src ∙ whole) ∙ read in
      let at : lib.from_reader (payload ++ rest) ≡ ok (length (lib.to_bytes c.cid), c.cid) =
        ap lib.from_reader inner ∙ cid in
      let end : length content - length (payload ++ rest) + length payload
          ≡ length (front ++ section v lib c) =
        omega (
          arith,
          size,
          length-append payload rest,
          length-append front (section v lib c),
          length-append (v.put (length payload)) payload,
        ) in
      let some_bytes : (length payload == 0) ≡ false =
        ground (arith, cids.to_bytes_pos c.cid, length-append (lib.to_bytes c.cid) c.raw) in
      let fits : leb (2 ^ 63) (length (front ++ section v lib c)) ≡ false =
        ground (arith, size, low) in
      ground (arith, start, some_bytes, at, decoded, end, fits)

  at_end :
      (fuel off : ℕ) (idx : T)
      → v.read (drop (base + off) content) ≡ record { value = 0; error = some eof; rest = [] }
      → length content - base ≡ off
      → resume_sections files v cbor lib tree z base content (suc fuel) off idx
        ≡ some (none, length content - base, idx)
  unfolding resume_sections
  at_end fuel off idx start here = ground (arith, start, here)

  pub resume_sections-Reindexed :
      (bs pre : List (Block Cid)) (fuel off : ℕ) (front : Bytes) (idx : T) (cs : List (Block Cid))
      → content ≡ front ++ sections v lib bs
      → length front ≡ base + off
      → length content < 2 ^ 63
      → AllShort lib bs
      → AllDecoded lib bs
      → length bs < fuel
      → Items v lib base content (tree.items idx) cs
      → Perm cs pre
      → Reindexed (pre ++ bs) (resume_sections files v cbor lib tree z base content fuel off idx)
  resume_sections-Reindexed bs pre zero off front idx cs split place low short decoded f items
        same =
      absurd (omega (arith, f))
  resume_sections-Reindexed [] pre (suc fuel) off front idx cs split place low short decoded f items
        same =
      let size : length content ≡ base + off = ap length (split ∙ append-nil front) ∙ place in
      let here : length content - base ≡ off = omega (arith, size) in
      let start : v.read (drop (base + off) content)
          ≡ record { value = 0; error = some eof; rest = [] } =
        ap v.read (drop_all content (base + off) (omega (arith, size))) ∙ laws.read_nil in
      let finished : _ = at_end fuel off idx start here in
      record {
        idx = idx;
        ended = finished;
        blocks = cs;
        items = items;
        same = rw (append-nil pre) same;
      }
  resume_sections-Reindexed (c ∷ bs) pre (suc fuel) off front idx cs split place low short decoded f
        items same =
      let (d, known) = decoded.0 in
      let rest = sections v lib bs in
      let split' : content ≡ front ++ (section v lib c ++ rest) = split in
      let longer : content ≡ (front ++ section v lib c) ++ rest =
        split ∙ sym (append_assoc front (section v lib c) rest) in
      let r : RecordDigest Cid = record {
        digest = d.digest;
        entry = record { cid = c.cid; offset = off };
      } in
      let item : IsItem v lib base content r c = record {
        same_cid = refl;
        small = short.0;
        code = d.code;
        decoded = known;
        at = record { before = front; rest = rest; split = split; place = place };
      } in
      let more : Inserted v lib base content (tree.items (tree.insert_no_replace r idx)) c cs =
        rw (inserts.inserted r idx) (
          Items-insert v lib base content (inserts.front r idx) (inserts.back r idx) r c cs item
            (rw (inserts.others r idx) at items)) in
      let next =
        resume_sections-Reindexed bs (pre ++ (c ∷ [])) fuel
          (length (front ++ section v lib c) - base) (front ++ section v lib c)
          (tree.insert_no_replace r idx) more.blocks longer
          (omega (arith, place, length-append front (section v lib c))) low short.1 decoded.1
          (omega (arith, f)) more.items
          (Perm.trans more.same
            (Perm.trans (Perm.cons c same) (Perm.symm (perm_append_singleton c pre)))) in
      rw
        (
          round fuel off front rest c d idx split place low short.0 known,
          sym (append_assoc pre (c ∷ []) bs),
        )
        next

  -- A last section that names more bytes than the file holds behind its CID is taken for whole by
  -- the loop of a resumption: the loop ends without an error at an offset behind the end of the
  -- file, and the index has a record of the section. The multihash of the CID can be decoded, the
  -- end that the section names fits an int64, and two rounds are left.
  pub cut_off :
      (fuel off n : ℕ) (front raw : Bytes) (c : Cid) (d : Decoded) (idx : T)
      → content ≡ front ++ (v.put n ++ (lib.to_bytes c ++ raw))
      → length front ≡ base + off
      → length (lib.to_bytes c ++ raw) < n
      → length front + length (v.put n) + n < 2 ^ 63
      → lib.decode (lib.hash c) ≡ ok d
      → resume_sections files v cbor lib tree z base content (suc (suc fuel)) off idx
        ≡ some (
          none,
          off + length (v.put n) + n,
          tree.insert_no_replace
              (record { digest = d.digest; entry = record { cid = c; offset = off } })
              idx,
        )
  unfolding resume_sections insert_no_replace new_record_from_cid
  cut_off fuel off n front raw c d idx split place short low decoded =
      let tail = lib.to_bytes c ++ raw in
      let start : v.read (drop (base + off) content)
          ≡ record { value = n; error = none; rest = tail } =
        ap v.read
          (ap (drop (base + off)) split ∙ drop-append front (v.put n ++ tail) (base + off) place)
        ∙ laws.read_put n tail (omega (arith, low)) in
      let size : length content ≡ length front + (length (v.put n) + length tail) =
        ap length split
        ∙ omega (arith, length-append front (v.put n ++ tail), length-append (v.put n) tail) in
      let end : length content - length tail + n ≡ base + (off + length (v.put n) + n) =
        omega (arith, size, place) in
      let behind : v.read (drop (base + (off + length (v.put n) + n)) content)
          ≡ record { value = 0; error = some eof; rest = [] } =
        ap v.read (
          drop_all content (base + (off + length (v.put n) + n))
            (omega (arith, size, place, short)))
        ∙ laws.read_nil in
      ground
        (arith, start, short, decoded, end, place, low, cids.from_reader-to_bytes c raw, behind)

module _ {F T Cid : Type 0} (files : FileLib F) (flaws : FileLaws files) (v : Varint)
    (laws : VarintLaws v) (cbor : Cbor Cid) (lib : CidLib Cid) (cids : CidLaws lib)
    (tree : Tree Cid T) (inserts : TreeInserts tree) where
  -- Over the file that a blockstore has written and that was not finalized, the loop of a resumption
  -- ends without an error at the end of the file, with an index that has one item for each of the
  -- blocks that were put, with its CID, its digest and the offset of its section. The blocks fit Go
  -- slices, and their multihashes can be decoded.
  pub resumes_what_was_put :
      (o : Options) (base off : ℕ) (front : Bytes) (bs : List (Block Cid)) (b : ReadWrite F T)
      (z : Bool)
      → IsStored files flaws v laws lib tree inserts o base front bs b
      → length front ≡ base + off
      → AllShort lib bs
      → AllDecoded lib bs
      → let content = files.content b.data_writer.w in
        Reindexed files v laws cbor lib cids tree inserts z base content bs (
          resume_sections files v cbor lib tree z base content
            (suc (length content))
            off
            tree.empty)
  resumes_what_was_put o base off front bs b z stored place short decoded =
      let content = files.content b.data_writer.w in
      resume_sections-Reindexed files v laws cbor lib cids tree inserts z base content bs []
        (suc (length content)) off front tree.empty [] stored.content place stored.at_end.2 short
        decoded
        (omega (
          arith,
          ap length stored.content,
          length-append front (sections v lib bs),
          length-sections v laws lib cids (λ c. c) cbor bs short,
        ))
        (rw inserts.empty_items tt) (Perm.refl [])
