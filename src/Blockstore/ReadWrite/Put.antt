-- ===== src/Blockstore/ReadWrite/Put.antt =====
-- The invariant of an open ReadWrite blockstore, and that writing a block keeps it.
use go_car.Prelude.{
  ℕ, ◌-◌, ◌≤◌, ◌<◌, ◌^◌, ◌≡◌, refl, sym, ◌∙◌, ap, inl, inr, arith, List, [], ◌∷◌, ◌++◌,
  append_assoc, append-nil, none,
}
use go_car.Prelude.{length, length-append, false, Option-cases}
use go_car.Bytes.{Bytes}
use go_car.Stream.{ok, Result-cases}
use go_car.File.{FileLib, FileLaws}
use go_car.OffsetIo.{OffsetWriteSeeker, write_position}
use go_car.OffsetIo.Writer.{
  offset_sink, in_front, offset_sink-Appends, IsAtEnd, write-IsAtEnd, in_front-IsAtEnd,
  write_position-IsAtEnd,
}
use go_car.Varint.{Varint, VarintLaws}
use go_car.Cids.{CidLib, Decoded, Block}
use go_car.Header.{u64}
use go_car.Section.{ld_write}
use go_car.Section.Frame.{frame, concat, ld_write-Appends}
use go_car.Section.Keeps.{ld_write-keeps}
use go_car.Carv1.ReadBack.{section}
use go_car.Carv1.Load.{sections}
use go_car.Options.{Options}
use go_car.Blockstore.InsertionIndex.{RecordDigest, Tree, insert_no_replace}
use go_car.Blockstore.ReadWrite.{ReadWrite, unsigned, initial_header, write_block}
use go_car.Blockstore.ReadWrite.Items.{
  TreeInserts, IsItem, Items, Items-append, Inserted, Items-insert,
}
use mathlib.Core.List.{Perm, perm_append_singleton}
use mathlib.Core.List.Perm

module _ {F T Cid : Type 0} (files : FileLib F) (flaws : FileLaws files) (v : Varint)
    (laws : VarintLaws v) (lib : CidLib Cid) (tree : Tree Cid T) (inserts : TreeInserts tree) where
  -- Where the data writer appends at the end of the file, LdWrite of a CID and data appends the
  -- section, and leaves the writer at the end.
  ld_write-section :
      (base : ℕ) (c : Block Cid) (ow : OffsetWriteSeeker F)
      → IsAtEnd files flaws base ow
      → length (lib.to_bytes c.cid ++ c.raw) < u64
      → (ld_write v (offset_sink files) (lib.to_bytes c.cid ∷ c.raw ∷ []) ow).0 ≡ none
      → let ow' = (ld_write v (offset_sink files) (lib.to_bytes c.cid ∷ c.raw ∷ []) ow).1 in
        (files.content ow'.w ≡ files.content ow.w ++ section v lib c) × IsAtEnd files flaws base ow'
  ld_write-section base c ow end small e =
      let ds : List Bytes = lib.to_bytes c.cid ∷ c.raw ∷ [] in
      let ow' = (ld_write v (offset_sink files) ds ow).1 in
      let end' : IsAtEnd files flaws base ow' =
        ld_write-keeps (offset_sink files) (IsAtEnd files flaws base)
          (write-IsAtEnd files flaws base) v ds ow end in
      let payload : concat ds ≡ lib.to_bytes c.cid ++ c.raw =
        ap (λ q. lib.to_bytes c.cid ++ q) (append-nil c.raw) in
      let appended : in_front files ow' ≡ in_front files ow ++ frame v (concat ds) =
        ld_write-Appends v laws (offset_sink files) (in_front files) ds ow
          (offset_sink-Appends files flaws) (rw payload small) e in
      let content : files.content ow'.w ≡ files.content ow.w ++ section v lib c =
        sym (in_front-IsAtEnd files flaws base ow' end')
        ∙ (appended
            ∙ (ap (λ q. q ++ frame v (concat ds)) (in_front-IsAtEnd files flaws base ow end)
                ∙ ap (λ q. files.content ow.w ++ frame v q) payload)) in
      (content, end')

  -- The file holds `front`, which ends with the header of the payload, and the sections of the
  -- blocks in the order of their puts; the data writer stands at its end; and the index has one item
  -- for each of the blocks, which stand in its order in `blocks`. The store is open, with its options
  -- and the header that OpenReadWrite prepared.
  pub record IsStored (o : Options) (base : ℕ) (front : Bytes) (bs : List (Block Cid))
      (b : ReadWrite F T) : Type 0 where
    pub at_end : IsAtEnd files flaws base b.data_writer
    pub content : files.content b.data_writer.w ≡ front ++ sections v lib bs
    pub low : base ≤ length front
    pub is_open : b.is_closed ≡ false
    pub same_opts : b.opts ≡ o
    pub same_header : b.header ≡ initial_header o
    pub blocks : List (Block Cid)
    pub items : Items v lib base (front ++ sections v lib bs) (tree.items b.idx) blocks
    pub same : Perm blocks bs

  sections-append :
      (bs : List (Block Cid)) (c : Block Cid)
      → sections v lib (bs ++ (c ∷ [])) ≡ sections v lib bs ++ section v lib c
  sections-append [] c = append-nil (section v lib c)
  sections-append (b ∷ bs) c =
      ap (λ q. section v lib b ++ q) (sections-append bs c)
      ∙ sym (append_assoc (section v lib b) (sections v lib bs) (section v lib c))

  front-sections-append :
      (front : Bytes) (bs : List (Block Cid)) (c : Block Cid)
      → (front ++ sections v lib bs) ++ section v lib c ≡ front ++ sections v lib (bs ++ (c ∷ []))
  front-sections-append front bs c =
      append_assoc front (sections v lib bs) (section v lib c)
      ∙ ap (λ q. front ++ q) (sym (sections-append bs c))

  -- The item that a put inserts.
  put-IsItem :
      (base : ℕ) (front : Bytes) (bs : List (Block Cid)) (c : Block Cid) (d : Decoded)
      → base ≤ length front
      → length (lib.to_bytes c.cid ++ c.raw) < 2 ^ 63
      → lib.decode (lib.hash c.cid) ≡ ok d
      → IsItem v lib base
          (front ++ sections v lib (bs ++ (c ∷ [])))
          (record {
            digest = d.digest;
            entry = record { cid = c.cid; offset = length (front ++ sections v lib bs) - base };
          })
          c
  put-IsItem base front bs c d low small decoded =
      let whole = front ++ sections v lib bs in
      record {
        same_cid = refl;
        small = small;
        code = d.code;
        decoded = decoded;
        at = record {
          before = whole;
          rest = [];
          split =
              ap (λ q. front ++ q) (sections-append bs c)
              ∙ (sym (append_assoc front (sections v lib bs) (section v lib c))
                  ∙ ap (λ q. whole ++ q) (sym (append-nil (section v lib c))));
          place = omega (arith, low, length-append front (sections v lib bs));
        };
      }

  -- The offset that a put records.
  pub put_offset :
      (o : Options) (base : ℕ) (front : Bytes) (bs : List (Block Cid)) (b : ReadWrite F T)
      → IsStored o base front bs b
      → unsigned (write_position b.data_writer) ≡ length (front ++ sections v lib bs) - base
  unfolding unsigned
  put_offset o base front bs b stored =
      let size : length (files.content b.data_writer.w) ≡ length (front ++ sections v lib bs) =
        ap length stored.content in
      let whole : _ = length-append front (sections v lib bs) in
      let at : _ =
        write_position-IsAtEnd files flaws base b.data_writer stored.at_end
          (omega (arith, size, whole, stored.low)) in
      rw at (omega (arith, size, stored.at_end.2))

  -- The items with the one that a put inserts.
  put_items :
      (o : Options) (base : ℕ) (front : Bytes) (bs : List (Block Cid)) (c : Block Cid)
      (b : ReadWrite F T) (r : RecordDigest Cid)
      → (stored : IsStored o base front bs b)
      → IsItem v lib base (front ++ sections v lib (bs ++ (c ∷ []))) r c
      → Inserted v lib base
          (front ++ sections v lib (bs ++ (c ∷ [])))
          (tree.items (tree.insert_no_replace r b.idx))
          c
          stored.blocks
  put_items o base front bs c b r stored item =
      let longer : _ = front-sections-append front bs c in
      let kept : _ =
        Items-append v lib base (front ++ sections v lib bs) (section v lib c) (tree.items b.idx)
          stored.blocks stored.items in
      rw (inserts.inserted r b.idx) (
        Items-insert v lib base (front ++ sections v lib (bs ++ (c ∷ []))) (inserts.front r b.idx)
          (inserts.back r b.idx) r c stored.blocks item
          (rw (inserts.others r b.idx) at (rw longer at kept)))

  -- What a write of a block without an error has done.
  write_block_ok :
      (c : Block Cid) (b : ReadWrite F T)
      → (write_block files v lib tree c b).0 ≡ none
      → let n = unsigned (write_position b.data_writer) in
        let wrote =
          ld_write v (offset_sink files) (lib.to_bytes c.cid ∷ c.raw ∷ []) b.data_writer in
        (d : Decoded) × (lib.decode (lib.hash c.cid) ≡ ok d)
        × (wrote.0 ≡ none)
        × ((write_block files v lib tree c b).1 ≡ record b {
          data_writer = wrote.1;
          idx =
              tree.insert_no_replace
                (record { digest = d.digest; entry = record { cid = c.cid; offset = n } })
                b.idx;
        })
  unfolding write_block insert_no_replace
  write_block_ok c b e =
      let wrote = ld_write v (offset_sink files) (lib.to_bytes c.cid ∷ c.raw ∷ []) b.data_writer in
      elim (Option-cases wrote.0) [
        | inr (x, p) ↦ absurd (ground (arith, p, e))
        | inl p ↦ elim (Result-cases (lib.decode (lib.hash c.cid))) [
          | inl (x, q) ↦ absurd (ground (arith, p, q, e))
          | inr (d, q) ↦ (d, q, p, ground (arith, p, q))
        ]
      ]

  -- Writing a block without an error appends its section and inserts its record.
  pub write_block-IsStored :
      (o : Options) (base : ℕ) (front : Bytes) (bs : List (Block Cid)) (c : Block Cid)
      (b : ReadWrite F T)
      → IsStored o base front bs b
      → length (lib.to_bytes c.cid ++ c.raw) < 2 ^ 63
      → (write_block files v lib tree c b).0 ≡ none
      → IsStored o base front (bs ++ (c ∷ [])) (write_block files v lib tree c b).1
  write_block-IsStored o base front bs c b stored small e =
      let (d, decoded, wrote, after) = write_block_ok c b e in
      let (content, end) =
        ld_write-section base c b.data_writer stored.at_end (omega (arith, small)) wrote in
      let item : _ = put-IsItem base front bs c d stored.low small decoded in
      let more =
        put_items o base front bs c b
          (record {
            digest = d.digest;
            entry = record { cid = c.cid; offset = unsigned (write_position b.data_writer) };
          })
          stored (rw (put_offset o base front bs b stored) item) in
      rw after (record {
        at_end = end;
        content =
            content
            ∙ (ap (λ q. q ++ section v lib c) stored.content ∙ front-sections-append front bs c);
        low = stored.low;
        is_open = stored.is_open;
        same_opts = stored.same_opts;
        same_header = stored.same_header;
        blocks = more.blocks;
        items = more.items;
        same =
            Perm.trans more.same
              (Perm.trans (Perm.cons c stored.same) (Perm.symm (perm_append_singleton c bs)));
      })
