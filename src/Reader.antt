-- ===== src/Reader.antt =====
-- v2/reader.go: the reader of both versions. It is over bytes in memory, and positions are within an
-- int64.
pub mod Inspect
pub mod Inspected
pub mod Ends
use go_car.Prelude.{
  ℕ, zero, suc, ◌+◌, ◌-◌, ◌/◌, ◌%◌, ◌^◌, List, [], ◌∷◌, Option, none, some, take, drop, length,
}
use go_car.Prelude.{Bool, true, false, not, ltb, ◌==◌, ◌&&◌, ◌||◌, if◌then◌else◌}
use go_car.Prelude.Int.{ℤ, pos, negsuc}
use go_car.Prelude.Assoc.{lookup, insert}
use go_car.Bytes.{Bytes}
use go_car.Stream.{
  Error, unexpected_eof, is_eof, section_too_large, content_mismatch, invalid_car_version,
  short_section, invalid_cid_version, Result, ok, err, ◌>>=◌,
}
use go_car.Varint.{Varint, Uvarint}
use go_car.Cids.{CidLib}
use go_car.Header.{
  Header, HeaderRead, u64, pragma_size, header_size, zero_header, read_header, has_index,
}
use go_car.Carv1.{CarHeader, Cbor, read_car_header}
use go_car.Index.Codec.{Codecs, Index, codec, read_from}
use go_car.Options.{Options}

pub record Reader (Cid : Type 0) : Type 0 where
  pub header : Header
  pub version : ℕ
  pub r : Bytes
  pub roots : Option (List Cid)
  pub opts : Options
  pub closer : Option (Option Error)

module _ {Cid : Type 0} where
  unfoldable pub data_reader : Reader Cid → Bytes
  data_reader r =
      if r.version == 2 then take r.header.data_size (drop r.header.data_offset r.r) else r.r

  unfoldable pub index_reader : Reader Cid → Option Bytes
  index_reader r =
      if (r.version == 1) || not (has_index r.header)
      then none
      else some (drop r.header.index_offset r.r)

module _ {Cid : Type 0} (v : Varint) (cbor : Cbor Cid) (lib : CidLib Cid) where
  unfoldable pub read_version : Options → Bytes → Result ℕ
  read_version o src = do
    header ← (read_car_header v cbor o.max_allowed_header_size src).0
    ok header.version

  -- readV2Header, over the section of the 40 bytes behind the pragma.
  unfoldable pub read_v2_header : Reader Cid → Result (Reader Cid)
  read_v2_header r =
      let read = read_header r.header (take header_size (drop pragma_size r.r)) in
      elim read.error [ some e ↦ err e | none ↦ ok (record r { header = read.value }) ]

  unfoldable pub new_reader : Bytes → Options → Result (Reader Cid)
  unfolding read_version read_v2_header
  new_reader src o = elim (read_version o src) [
    | err e ↦ err e
    | ok version ↦
        let cr : Reader Cid = record {
          header = zero_header;
          version = version;
          r = src;
          roots = none;
          opts = o;
          closer = none;
        } in
        if not (version == 1) && not (version == 2)
        then err invalid_car_version
        else if version == 2
        then read_v2_header cr
        else ok cr
  ]

  -- Reader.Roots, with the cache.
  unfoldable pub reader_roots : Reader Cid → Result (List Cid) × Reader Cid
  unfolding data_reader
  reader_roots r = elim r.roots [
    | some roots ↦ (ok roots, r)
    | none ↦ elim (read_car_header v cbor r.opts.max_allowed_header_size (data_reader r)).0 [
      | err e ↦ (err e, r)
      | ok header ↦ (ok header.roots, record r { roots = some header.roots })
    ]
  ]
