-- ===== src/BlockReader.antt =====
-- v2/block_reader.go: BlockReader, which reads the blocks of a CARv1 or of the payload in a CARv2.
pub mod Payload
use go_car.Prelude.{ℕ, ◌-◌, List, Option, none, some, take, drop, length}
use go_car.Prelude.{Bool, not, leb, ◌==◌, if◌then◌else◌}
use go_car.Bytes.{Bytes}
use go_car.Stream.{Error, eof, invalid_car_version, Result, ok, err}
use go_car.Varint.{Varint}
use go_car.Cids.{CidLib, Block}
use go_car.Header.{Header, HeaderRead, zero_header, read_header, pragma_size, header_size}
use go_car.Section.{read_node}
use go_car.Carv1.{CarHeader, Cbor, read_car_header, check_block}
use go_car.Options.{Options}

pub record BlockReader (Cid : Type 0) : Type 0 where
  pub version : ℕ
  pub roots : List Cid
  pub r : Bytes
  pub opts : Options

-- `ToByteReadSeeker(r).Seek(n, io.SeekCurrent)` for an `n` that is not negative. A reader that can
-- seek does not look at its end; for one that cannot, discardingReadSeekerPlusByte reads `n` bytes
-- and fails at the end.
unfoldable pub skip : Bool → ℕ → Bytes → Result Bytes
skip seekable n src =
    if seekable then ok (drop n src) else if leb n (length src) then ok (drop n src) else err eof

-- `io.LimitReader(r, n)`.
unfoldable pub limit : ℕ → Bytes → Bytes
limit n src = take n src

module _ {Cid : Type 0} (v : Varint) (cbor : Cbor Cid) where
  -- The case of version 2, behind the pragma. ReadFrom has made sure that the data offset is not
  -- below the sum of the two sizes, and that it and the data size are not negative.
  unfoldable pub open_payload : Bool → Options → Bytes → Result (BlockReader Cid)
  open_payload seekable o src =
      let v2h = read_header zero_header src in
      elim v2h.error [
        | some e ↦ err e
        | none ↦ elim (skip seekable (v2h.value.data_offset - pragma_size - header_size) v2h.rest) [
          | err e ↦ err e
          | ok behind ↦
              let r = limit v2h.value.data_size behind in
              let (header_read, rest) = read_car_header v cbor o.max_allowed_header_size r in
              elim header_read [
                | err e ↦ err e
                | ok header ↦
                    if not (header.version == 1)
                    then err invalid_car_version
                    else ok (record { version = 2; roots = header.roots; r = rest; opts = o })
              ]
        ]
      ]

  unfoldable pub new_block_reader : Bool → Options → Bytes → Result (BlockReader Cid)
  new_block_reader seekable o src =
      let (header_read, rest) = read_car_header v cbor o.max_allowed_header_size src in
      elim header_read [
        | err e ↦ err e
        | ok header ↦
            if header.version == 1
            then ok (record { version = 1; roots = header.roots; r = rest; opts = o })
            else if header.version == 2
            then open_payload seekable o rest
            else err invalid_car_version
      ]

module _ {Cid : Type 0} (v : Varint) (lib : CidLib Cid) where
  unfoldable pub next_block : BlockReader Cid → Result (Block Cid) × BlockReader Cid
  next_block br =
      let (node, rest) =
        read_node v lib br.opts.zero_length_section_as_eof br.opts.max_allowed_section_size br.r in
      let br' = record br { r = rest } in
      elim node [ err e ↦ (err e, br') | ok (c, raw) ↦ (check_block v lib c raw, br') ]
