-- ===== src/Blockstore/ReadWrite/Listed.antt =====
-- Roots and AllKeysChan of a ReadWrite blockstore, against the roots and the blocks that were put.
use go_car.Prelude.{
  ◌+◌, ◌≤◌, ◌<◌, ◌^◌, ◌≡◌, ◌∙◌, ap, arith, List, [], ◌++◌, append_assoc, none, some, drop,
}
use go_car.Prelude.{length, length-append, false, not, if◌then◌else◌}
use go_car.Bytes.{Bytes}
use go_car.Stream.{ok}
use go_car.Stream.Laws.{drop-append}
use go_car.File.{before, FileLib, FileLaws}
use go_car.File.Overwrite.{length-before}
use go_car.Varint.{Varint, VarintLaws}
use go_car.Cids.{CidLib, CidLaws, Block}
use go_car.Header.{pragma}
use go_car.Section.Frame.{frame, ld_read-frame}
use go_car.Carv1.{CarHeader, Cbor, CborLaws, read_car_header}
use go_car.Carv1.Load.{sections}
use go_car.Options.{Options}
use go_car.Blockstore.InsertionIndex.{Tree}
use go_car.Blockstore.ReadOnly as ReadOnly
use go_car.Blockstore.ReadOnly.{from_offset, open_at, all_keys_chan}
use go_car.Blockstore.ReadOnly.Keys.{keys, AllShort, all_keys_chan-sections}
use go_car.Blockstore.ReadWrite.{ReadWrite, unsigned, data_start, ronly}
use go_car.Blockstore.ReadWrite.Items.{TreeInserts}
use go_car.Blockstore.ReadWrite.Put.{IsStored}
use go_car.Blockstore.ReadWrite.Init.{front_bytes}

module _ {F T Cid : Type 0} (files : FileLib F) (flaws : FileLaws files) (v : Varint)
    (laws : VarintLaws v) (lib : CidLib Cid) (cids : CidLaws lib) (tree : Tree Cid T)
    (inserts : TreeInserts tree) (cbor : Cbor Cid) (claws : CborLaws cbor) (o : Options)
    (hb : Bytes) (bs : List (Block Cid)) (b : ReadWrite F T)
    (stored : IsStored files flaws v laws lib tree inserts o
      (data_start o)
      (front_bytes v o hb)
      bs
      b) where
  opened_payload :
      open_at (ronly files v lib tree b).backing 0 ≡ ok (frame v hb ++ sections v lib bs)
  unfolding open_at ronly unsigned
  opened_payload =
      let base = data_start o in
      let marker = (if not o.write_as_car_v1 then pragma else []) in
      let rest = frame v hb ++ sections v lib bs in
      let whole : files.content b.data_writer.w ≡ before base marker ++ rest =
        stored.content ∙ append_assoc (before base marker) (frame v hb) (sections v lib bs) in
      let low : base < 2 ^ 63 = omega (
        arith,
        stored.at_end.2,
        ap length whole,
        length-append (before base marker) rest,
        length-before base marker,
      ) in
      let at_base : unsigned b.data_writer.base ≡ base = rw stored.at_end.0 (omega (arith, low)) in
      let behind : drop (base + 0) (before base marker ++ rest) ≡ rest =
        drop-append (before base marker) rest (base + 0)
          (omega (arith, length-before base marker)) in
      rw (at_base, whole, behind) (ground (arith, low))

  -- On a blockstore that OpenReadWrite and PutMany have filled, Roots answers the roots, and
  -- AllKeysChan lists the keys of the blocks that were written, in the order of their puts, and
  -- reports no error. The header is within the limit, and the blocks fit Go slices.
  pub lists_what_was_put :
      (roots : List Cid) (raw_v1 : Cid → Cid)
      → cbor.dump_object (record { roots = roots; version = 1 }) ≡ ok hb
      → length hb ≤ o.max_allowed_header_size
      → length hb < 2 ^ 62
      → AllShort lib bs
      → let r = ronly files v lib tree b in
        (ReadOnly.roots v cbor lib r ≡ ok roots)
        × (all_keys_chan v cbor lib raw_v1 r ≡ ok (some (keys raw_v1 o bs, none)))
  unfolding ReadOnly.roots ronly read_car_header
  lists_what_was_put roots raw_v1 dump fits small short =
      let rest = sections v lib bs in
      let r = ronly files v lib tree b in
      let limit : length hb ≤ b.opts.max_allowed_header_size = rw stored.same_opts fits in
      let read : _ =
        ld_read-frame v laws false b.opts.max_allowed_header_size hb rest limit
          (omega (arith, small)) (ground arith) in
      let h : CarHeader Cid = record { roots = roots; version = 1 } in
      let all : all_keys_chan v cbor lib raw_v1 r ≡ ok (some (keys raw_v1 b.opts bs, none)) =
        all_keys_chan-sections v laws lib cids raw_v1 cbor r h hb bs claws stored.is_open
          opened_payload dump limit small short in
      (
        ground (arith, opened_payload, read, claws.decode-dump h hb dump),
        all ∙ ap (λ q. ok (some (keys raw_v1 q bs, none))) stored.same_opts,
      )
