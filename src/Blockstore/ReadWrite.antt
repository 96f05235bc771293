-- ===== src/Blockstore/ReadWrite.antt =====
-- v2/blockstore/readwrite.go: the blockstore that writes a CARv2, or a CARv1, while it can be read.
-- The file of the state is the one that the data writer, the header writers and the readers share.
pub mod Items
pub mod Resume
pub mod Resumed
pub mod Ends
pub mod Put
pub mod Init
pub mod Reach
pub mod Candidates
pub mod Reads
pub mod Listed
pub mod Closed
pub mod Trailer
pub mod Finalized
use go_car.Prelude.{ℕ, ◌+◌, ◌-◌, ◌%◌, List, [], ◌∷◌, Option, none, some, drop, length}
use go_car.Prelude.{Bool, true, false, not, ltb, ◌==◌, ◌&&◌, if◌then◌else◌}
use go_car.Prelude.Int.{ℤ, pos, negsuc}
use go_car.Bytes.{Bytes}
use go_car.Stream.{Error, closed, finalize_closed, cid_too_large, Result, ok, err, Written}
use go_car.File.{FileLib}
use go_car.OffsetIo.{
  OffsetWriteSeeker, new_offset_writer, offset_write, write_position, write_seek, seek_start,
}
use go_car.OffsetIo.Writer.{offset_sink}
use go_car.Varint.{Varint}
use go_car.Cids.{CidLib, Block}
use go_car.Header.{
  Header, u64, signed64, pragma, pragma_size, new_header, with_data_padding, with_index_padding,
  with_data_size, set_fully_indexed, write_header,
}
use go_car.Section.{ld_write}
use go_car.Carv1.{CarHeader, Cbor, write_car_header}
use go_car.Index.Single.{DigestRecord}
use go_car.Index.Codec.{Codecs, write_to}
use go_car.Options.{Options}
use go_car.Blockstore.InsertionIndex.{
  Tree, insert_no_replace, insertion_get, insertion_get_all, has_exact_cid, flatten,
}
use go_car.Blockstore.ReadOnly.{ReadOnly, Backing, from_offset, is_identity}

pub record ReadWrite (F T : Type 0) : Type 0 where
  pub is_closed : Bool
  pub data_writer : OffsetWriteSeeker F
  pub idx : T
  pub header : Header
  pub opts : Options

-- `uint64(b.dataWriter.Position())`.
unfoldable pub unsigned : ℤ → ℕ
unsigned (pos n) = n % u64
unsigned (negsuc n) = u64 - 1 - n % u64

-- The header that OpenReadWrite prepares from the paddings.
unfoldable pub initial_header : Options → Header
initial_header o =
    let h = new_header 0 in
    let h1 = if ltb 0 o.data_padding then with_data_padding o.data_padding h else h in
    if ltb 0 o.index_padding then with_index_padding o.index_padding h1 else h1

-- Where the payload starts.
unfoldable pub data_start : Options → ℕ
unfolding initial_header
data_start o = if o.write_as_car_v1 then 0 else (initial_header o).data_offset

module _ {F T : Type 0} where
  -- A write of one of the file's other writers.
  unfoldable pub with_file : ReadWrite F T → F → ReadWrite F T
  with_file b f = record b { data_writer = record b.data_writer { w = f } }

  -- Discard, which drops the answer of Close.
  unfoldable pub discard : ReadWrite F T → ReadWrite F T
  discard b = record b { is_closed = true }

-- The part of OpenReadWrite in front of resumeWithRoots and initWithRoots, with an empty index.
unfoldable pub open_blockstore : {F T : Type 0} → T → F → Options → ReadWrite F T
unfolding data_start initial_header
open_blockstore empty f o = record {
  is_closed = false;
  data_writer = new_offset_writer f (signed64 (data_start o));
  idx = empty;
  header = initial_header o;
  opts = o;
}

module _ {F T Cid : Type 0} (files : FileLib F) (v : Varint) (cbor : Cbor Cid) where
  unfoldable pub init_with_roots : Bool → List Cid → ReadWrite F T → Option Error × ReadWrite F T
  init_with_roots v2 roots b =
      let (pragma_written, f') =
        if v2
        then files.write_at pragma (pos 0) b.data_writer.w
        else ((0, none), b.data_writer.w) in
      let b' = record b { data_writer = record b.data_writer { w = f' } } in
      elim pragma_written.1 [
        | some e ↦ (some e, b')
        | none ↦
            let (failed, ow) =
              write_car_header v cbor (offset_sink files) (record { roots = roots; version = 1 })
                b'.data_writer in
            (failed, record b' { data_writer = ow })
      ]

module _ {F T Cid : Type 0} (files : FileLib F) (v : Varint) (lib : CidLib Cid)
    (tree : Tree Cid T) where
  -- Whether PutMany leaves a block out: an identity CID, or one that is there already.
  unfoldable pub is_skipped : ReadWrite F T → Cid → Result Bool
  is_skipped b c =
      if b.opts.blockstore_allow_duplicate_puts
      then ok false
      else if b.opts.blockstore_use_whole_cids
      then has_exact_cid lib tree c b.idx
      else ok (elim (insertion_get lib tree c b.idx) [ ok offset ↦ true | err e ↦ false ])

  -- The rest of a round of PutMany: write the section, and then the record.
  unfoldable pub write_block : Block Cid → ReadWrite F T → Option Error × ReadWrite F T
  unfolding unsigned
  write_block bl b =
      let n = unsigned (write_position b.data_writer) in
      let (failed, ow) =
        ld_write v (offset_sink files) (lib.to_bytes bl.cid ∷ bl.raw ∷ []) b.data_writer in
      let b' = record b { data_writer = ow } in
      elim failed [
        | some e ↦ (some e, b')
        | none ↦ elim (insert_no_replace lib tree bl.cid n b.idx) [
          | err e ↦ (some e, b')
          | ok idx ↦ (none, record b' { idx = idx })
        ]
      ]

  -- The embedded ReadOnly, as the read methods see it.
  unfoldable pub ronly : ReadWrite F T → ReadOnly Cid
  ronly b = record {
    is_closed = b.is_closed;
    backing = from_offset (unsigned b.data_writer.base) (files.content b.data_writer.w);
    get_all = λ A c fn a. insertion_get_all lib tree c fn b.idx a;
    closer = some (files.close b.data_writer.w);
    opts = b.opts;
  }

  -- Finalize from the flattened index on: write it, write the header, and close the file.
  module _ (codecs : Codecs) (sort : List DigestRecord → List DigestRecord) where
    unfoldable pub finalize : ReadWrite F T → Option Error × ReadWrite F T
    unfolding with_file discard
    finalize b =
        if b.opts.write_as_car_v1
        then (none, discard b)
        else if b.is_closed
        then (some finalize_closed, b)
        else let sized = with_data_size (unsigned (write_position b.data_writer)) b.header in
          let header = record sized {
            characteristics = set_fully_indexed b.opts.store_identity_cids sized.characteristics;
          } in
          let b1 = record b { header = header } in
          elim (flatten lib tree sort codecs b.opts.index_codec b.idx) [
            | err e ↦ (some e, discard b1)
            | ok fi ↦
                let index_writer =
                  new_offset_writer b1.data_writer.w (signed64 header.index_offset) in
                let w1 = write_to codecs v (offset_sink files) fi index_writer in
                let b2 = with_file b1 w1.state.w in
                elim w1.error [
                  | some e ↦ (some e, discard b2)
                  | none ↦
                      let header_writer = new_offset_writer b2.data_writer.w (pos pragma_size) in
                      let w2 = write_header (offset_sink files) header header_writer in
                      let b3 = with_file b2 w2.state.w in
                      elim w2.error [
                        | some e ↦ (some e, discard b3)
                        | none ↦ (files.close b3.data_writer.w, discard b3)
                      ]
                ]
          ]

  module _ (identity : ℕ) where
    unfoldable pub is_ignored : ReadWrite F T → Cid → Result Bool
    is_ignored b c =
        if b.opts.store_identity_cids then ok false else elim (is_identity v lib identity c) [
          | err e ↦ err e
          | ok (digest, identical) ↦ ok identical
        ]

    -- A round of PutMany.
    unfoldable pub put_block : Block Cid → ReadWrite F T → Option Error × ReadWrite F T
    put_block bl b = elim (is_ignored b bl.cid) [
      | err e ↦ (some e, b)
      | ok ignored ↦
          let size = length (lib.to_bytes bl.cid) in
          if ignored
          then (none, b)
          else if ltb b.opts.max_index_cid_size size
          then (some (cid_too_large b.opts.max_index_cid_size size), b)
          else elim (is_skipped b bl.cid) [
            | err e ↦ (some e, b)
            | ok skipped ↦ if skipped then (none, b) else write_block bl b
          ]
    ]

    unfoldable pub put_blocks : List (Block Cid) → ReadWrite F T → Option Error × ReadWrite F T
    put_blocks [] b = (none, b)
    put_blocks (bl ∷ bls) b =
        let (failed, b') = put_block bl b in
        let rest = put_blocks bls b' in elim failed [ some e ↦ (some e, b') | none ↦ rest ]

    unfoldable pub put_many : List (Block Cid) → ReadWrite F T → Option Error × ReadWrite F T
    put_many bls b = if b.is_closed then (some closed, b) else put_blocks bls b

    unfoldable pub put : Block Cid → ReadWrite F T → Option Error × ReadWrite F T
    unfolding put_many
    put bl b = put_many (bl ∷ []) b
