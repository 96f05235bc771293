-- ===== src/Blockstore/ReadWrite/Items.antt =====
-- The items of the index of a ReadWrite blockstore, and the sections that they name.
use go_car.Prelude.{ℕ, ◌+◌, ◌<◌, ◌^◌, ◌≡◌, ◌∙◌, ap, List, [], ◌∷◌, ◌++◌, append_assoc}
use go_car.Prelude.{length}
use go_car.Bytes.{Bytes}
use go_car.Stream.{ok}
use go_car.Varint.{Varint}
use go_car.Cids.{CidLib, Block}
use go_car.Carv1.ReadBack.{section}
use go_car.Blockstore.InsertionIndex.{RecordDigest, Tree}
use mathlib.Core.List.{Perm}
use mathlib.Core.List.Perm

-- What package llrb documents of InsertNoReplace: the item is put somewhere among the others, which
-- keep their order.
pub record TreeInserts {Cid T : Type 0} (tree : Tree Cid T) : Type 0 where
  pub front : RecordDigest Cid → T → List (RecordDigest Cid)
  pub back : RecordDigest Cid → T → List (RecordDigest Cid)
  pub others : (r : RecordDigest Cid) (t : T) → tree.items t ≡ front r t ++ back r t
  pub inserted :
      (r : RecordDigest Cid) (t : T)
      → tree.items (tree.insert_no_replace r t) ≡ front r t ++ (r ∷ back r t)
  pub empty_items : tree.items tree.empty ≡ []

module _ {Cid : Type 0} (v : Varint) (lib : CidLib Cid) where
  -- The section of a block, at an offset from the start of the payload.
  pub record IsAt (base : ℕ) (content : Bytes) (offset : ℕ) (c : Block Cid) : Type 0 where
    pub before : Bytes
    pub rest : Bytes
    pub split : content ≡ before ++ (section v lib c ++ rest)
    pub place : length before ≡ base + offset

  -- An item of the index for a block.
  pub record IsItem (base : ℕ) (content : Bytes) (i : RecordDigest Cid) (c : Block Cid)
      : Type 0 where
    pub same_cid : i.entry.cid ≡ c.cid
    pub small : length (lib.to_bytes c.cid ++ c.raw) < 2 ^ 63
    pub code : ℕ
    pub decoded : lib.decode (lib.hash c.cid) ≡ ok (record { code = code; digest = i.digest })
    pub at : IsAt base content i.entry.offset c

  abbrev pub Items : ℕ → Bytes → List (RecordDigest Cid) → List (Block Cid) → Type 0
  Items base content [] [] = Unit
  Items base content (i ∷ is) (c ∷ cs) = IsItem base content i c × Items base content is cs
  Items base content _ _ = ⊥

  -- What is appended to the file does not move the sections.
  IsItem-append :
      (base : ℕ) (content more : Bytes) (i : RecordDigest Cid) (c : Block Cid)
      → IsItem base content i c
      → IsItem base (content ++ more) i c
  IsItem-append base content more i c item = record {
    same_cid = item.same_cid;
    small = item.small;
    code = item.code;
    decoded = item.decoded;
    at = record {
      before = item.at.before;
      rest = item.at.rest ++ more;
      split =
          ap (λ q. q ++ more) item.at.split
          ∙ (append_assoc item.at.before (section v lib c ++ item.at.rest) more
              ∙ ap (λ q. item.at.before ++ q) (append_assoc (section v lib c) item.at.rest more));
      place = item.at.place;
    };
  }

  pub Items-append :
      (base : ℕ) (content more : Bytes) (is : List (RecordDigest Cid)) (cs : List (Block Cid))
      → Items base content is cs
      → Items base (content ++ more) is cs
  Items-append base content more [] [] items = tt
  Items-append base content more [] (c ∷ cs) items = absurd items
  Items-append base content more (i ∷ is) [] items = absurd items
  Items-append base content more (i ∷ is) (c ∷ cs) items =
      (IsItem-append base content more i c items.0, Items-append base content more is cs items.1)

  -- An item among the others, with its block among theirs.
  pub record Inserted (base : ℕ) (content : Bytes) (is : List (RecordDigest Cid)) (c : Block Cid)
      (cs : List (Block Cid)) : Type 0 where
    pub blocks : List (Block Cid)
    pub items : Items base content is blocks
    pub same : Perm blocks (c ∷ cs)

  pub Items-insert :
      (base : ℕ) (content : Bytes) (front back : List (RecordDigest Cid)) (i : RecordDigest Cid)
      (c : Block Cid) (cs : List (Block Cid))
      → IsItem base content i c
      → Items base content (front ++ back) cs
      → Inserted base content (front ++ (i ∷ back)) c cs
  Items-insert base content [] back i c cs item items = record {
    blocks = c ∷ cs;
    items = (item, items);
    same = Perm.refl (c ∷ cs);
  }
  Items-insert base content (j ∷ front) back i c [] item items = absurd items
  Items-insert base content (j ∷ front) back i c (d ∷ cs) item items =
      let more = Items-insert base content front back i c cs item items.1 in
      record {
        blocks = d ∷ more.blocks;
        items = (items.0, more.items);
        same = Perm.trans (Perm.cons d more.same) (Perm.swap c d cs);
      }
