-- ===== src/Blockstore/ReadWrite/Init.antt =====
-- What OpenReadWrite leaves of an empty file.
use go_car.Prelude.{
  ℕ, ◌+◌, ◌≤◌, ◌<◌, ◌^◌, ◌≡◌, refl, sym, ◌∙◌, ap, inl, inr, arith, List, [], ◌∷◌, ◌++◌, append-nil,
  none,
}
use go_car.Prelude.{length, length-append, Bool, true, false, not, Option-cases, if◌then◌else◌}
use go_car.Prelude.Int.{pos}
use go_car.Bytes.{Bytes}
use go_car.Stream.{ok}
use go_car.Stream.Laws.{take_all}
use go_car.File.{before, FileLib, FileLaws}
use go_car.File.Overwrite.{overwrite_end, length-before}
use go_car.OffsetIo.{new_offset_writer}
use go_car.OffsetIo.Writer.{
  offset_sink, at, in_front, offset_sink-Appends, IsAtEnd, write-IsAtEnd, in_front-IsAtEnd,
}
use go_car.OffsetIo.PastEnd.{first_write-IsAtEnd}
use go_car.Varint.{Varint, VarintLaws}
use go_car.Cids.{CidLib}
use go_car.Header.{
  signed64, pragma, pragma_size, header_size, new_header, with_data_padding, with_index_padding,
}
use go_car.Section.{sum_lengths, ld_write}
use go_car.Section.Frame.{frame, ld_write-Appends}
use go_car.Section.Keeps.{ld_write-first}
use go_car.Carv1.{CarHeader, Cbor, write_car_header}
use go_car.Options.{Options}
use go_car.Blockstore.InsertionIndex.{Tree}
use go_car.Blockstore.ReadWrite.{
  ReadWrite, initial_header, data_start, open_blockstore, init_with_roots,
}
use go_car.Blockstore.ReadWrite.Items.{TreeInserts}
use go_car.Blockstore.ReadWrite.Put.{IsStored}
use mathlib.Core.List.Perm

-- The bytes in front of the sections: zeros for the CARv2 header and the padding, behind the
-- pragma, and the header of the payload.
abbrev pub front_bytes : Varint → Options → Bytes → Bytes
front_bytes v o hb =
    before (data_start o) (if not o.write_as_car_v1 then pragma else []) ++ frame v hb

-- The data padding that an option may ask for, for the payload to start within an int64.
abbrev pub HasRoom : Options → Type 0
HasRoom o = o.data_padding + (pragma_size + header_size) < 2 ^ 63

pub signed64_small : (n : ℕ) → n < 2 ^ 63 → signed64 n ≡ pos n
unfolding signed64
signed64_small n h = ground arith

data_start-HasRoom :
    (o : Options)
    → HasRoom o
    → (data_start o < 2 ^ 63)
      × (length (if not o.write_as_car_v1 then pragma else []) ≤ data_start o)
unfolding data_start initial_header new_header with_data_padding with_index_padding
data_start-HasRoom o room = ground (arith, room)

module _ {F Cid : Type 0} (files : FileLib F) (flaws : FileLaws files) (v : Varint)
    (laws : VarintLaws v) (cbor : Cbor Cid) where
  -- A header that is written at the end of a file, or behind it.
  write_header_behind :
      (h : CarHeader Cid) (hb : Bytes) (f : F) (base : ℕ)
      → cbor.dump_object h ≡ ok hb
      → length hb < 2 ^ 63
      → base < 2 ^ 63
      → length (files.content f) ≤ base
      → (write_car_header v cbor (offset_sink files) h (at files f base base)).0 ≡ none
      → let ow = (write_car_header v cbor (offset_sink files) h (at files f base base)).1 in
        IsAtEnd files flaws base ow
        × (files.content ow.w ≡ before base (files.content f) ++ frame v hb)
  unfolding write_car_header sum_lengths
  write_header_behind h hb f base dump small low short e =
      let e' : (ld_write v (offset_sink files) (hb ∷ []) (at files f base base)).0 ≡ none =
        rw (dump, write_car_header) at e in
      let ow = (ld_write v (offset_sink files) (hb ∷ []) (at files f base base)).1 in
      let end : IsAtEnd files flaws base ow =
        ld_write-first (offset_sink files) (IsAtEnd files flaws base)
          (write-IsAtEnd files flaws base) v laws (hb ∷ []) (at files f base base)
          (λ p some e. first_write-IsAtEnd files flaws p f base base some low short e)
          (omega (arith, small)) e' in
      let appended : in_front files ow ≡ before base (files.content f) ++ frame v (hb ++ []) =
        ld_write-Appends v laws (offset_sink files) (in_front files) (hb ∷ [])
          (at files f base base) (offset_sink-Appends files flaws)
          (omega (arith, length-append hb [], small)) e' in
      rw (dump, write_car_header)
        (
          end,
          sym (in_front-IsAtEnd files flaws base ow end)
              ∙ (appended ∙ ap (λ q. before base (files.content f) ++ frame v q) (append-nil hb)),
        )

  module _ {T : Type 0} (lib : CidLib Cid) (tree : Tree Cid T) (inserts : TreeInserts tree) where
    -- The pragma, at the start of an empty file.
    pragma_written :
        (v2 : Bool) (f : F)
        → files.content f ≡ []
        → (if v2 then files.write_at pragma (pos 0) f else ((0, none), f)).0.1 ≡ none
        → files.content (if v2 then files.write_at pragma (pos 0) f else ((0, none), f)).1
          ≡ (if v2 then pragma else [])
    pragma_written true f empty e =
        flaws.written pragma 0 f
        ∙ (rw
            (take_all pragma (files.write_at pragma (pos 0) f).0.0
              (omega (arith, flaws.complete pragma 0 f e)))
            (rw empty (overwrite_end 0 pragma [] refl)))
    pragma_written false f empty e = empty

    -- What initWithRoots without an error has done.
    init_with_roots_ok :
        (v2 : Bool) (roots : List Cid) (b : ReadWrite F T)
        → (init_with_roots files v cbor v2 roots b).0 ≡ none
        → let f' =
            (if v2
              then files.write_at pragma (pos 0) b.data_writer.w
              else ((0, none), b.data_writer.w)) in
          let wrote =
            write_car_header v cbor
              (offset_sink files)
              (record { roots = roots; version = 1 })
              (record b.data_writer { w = f'.1 }) in
          (f'.0.1 ≡ none)
          × (wrote.0 ≡ none)
          × ((init_with_roots files v cbor v2 roots b).1 ≡ record b { data_writer = wrote.1 })
    unfolding init_with_roots
    init_with_roots_ok v2 roots b e =
        let first =
          (if v2
            then files.write_at pragma (pos 0) b.data_writer.w
            else ((0, none), b.data_writer.w)) in
        elim (Option-cases first.0.1) [
          | inr (x, p) ↦ absurd (ground (arith, p, e))
          | inl p ↦ (p, ground (arith, p, e), ground (arith, p))
        ]

    -- A blockstore without a block over an empty file.
    abbrev empty_store : F → Options → ReadWrite F T
    empty_store f o = record {
      is_closed = false;
      data_writer = new_offset_writer f (pos (data_start o));
      idx = tree.empty;
      header = initial_header o;
      opts = o;
    }

    empty_store-IsStored :
        (o : Options) (roots : List Cid) (hb : Bytes) (f : F)
        → HasRoom o
        → cbor.dump_object (record { roots = roots; version = 1 }) ≡ ok hb
        → length hb < 2 ^ 63
        → files.content f ≡ []
        → let b = empty_store f o in
          (init_with_roots files v cbor (not o.write_as_car_v1) roots b).0 ≡ none
          → IsStored files flaws v laws lib tree inserts o
              (data_start o)
              (front_bytes v o hb)
              []
              (init_with_roots files v cbor (not o.write_as_car_v1) roots b).1
    unfolding new_offset_writer
    empty_store-IsStored o roots hb f room dump small empty e =
        let v2 = not o.write_as_car_v1 in
        let b = empty_store f o in
        let (first, wrote, after) = init_with_roots_ok v2 roots b e in
        let f' = (if v2 then files.write_at pragma (pos 0) f else ((0, none), f)).1 in
        let held : files.content f' ≡ (if v2 then pragma else []) =
          pragma_written v2 f empty first in
        let (low, short) = data_start-HasRoom o room in
        let (end, content) =
          write_header_behind (record { roots = roots; version = 1 }) hb f' (data_start o) dump
            small low (rw held short) wrote in
        rw after (record {
          at_end = end;
          content =
              content
              ∙ (ap (λ q. before (data_start o) q ++ frame v hb) held
                  ∙ sym (append-nil (front_bytes v o hb)));
          low = omega (
            arith,
            length-append (before (data_start o) (if v2 then pragma else [])) (frame v hb),
            length-before (data_start o) (if v2 then pragma else []),
          );
          is_open = refl;
          same_opts = refl;
          same_header = refl;
          blocks = [];
          items = rw inserts.empty_items tt;
          same = Perm.refl [];
        })

    -- OpenReadWrite on an empty file: it is stored without a block.
    pub init_with_roots-IsStored :
        (o : Options) (roots : List Cid) (hb : Bytes) (f : F)
        → HasRoom o
        → cbor.dump_object (record { roots = roots; version = 1 }) ≡ ok hb
        → length hb < 2 ^ 63
        → files.content f ≡ []
        → let b = open_blockstore tree.empty f o in
          (init_with_roots files v cbor (not o.write_as_car_v1) roots b).0 ≡ none
          → IsStored files flaws v laws lib tree inserts o
              (data_start o)
              (front_bytes v o hb)
              []
              (init_with_roots files v cbor (not o.write_as_car_v1) roots b).1
    unfolding open_blockstore
    init_with_roots-IsStored o roots hb f room dump small empty e =
        let start : signed64 (data_start o) ≡ pos (data_start o) =
          signed64_small (data_start o) (data_start-HasRoom o room).0 in
        let same : open_blockstore tree.empty f o ≡ empty_store f o =
          ap (λ q. record (empty_store f o) { data_writer = new_offset_writer f q }) start in
        rw same (empty_store-IsStored o roots hb f room dump small empty (rw same at e))
