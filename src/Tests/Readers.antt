-- ===== src/Tests/Readers.antt =====
-- Runs on the block reader and on the generation of an index.
use go_car.Prelude.{◌≡◌, refl, inr, arith, List, [], ◌∷◌, ◌++◌, some, drop}
use go_car.Prelude.{true, if◌then◌else◌}
use go_car.Bytes.{Bytes, bytes_equal}
use go_car.Stream.{Result, ok, read_full}
use go_car.Cids.{Block}
use go_car.Header.{Header, pragma}
use go_car.Header.Codec.{IsPlaced}
use go_car.Section.{ld_read}
use go_car.Carv1.{CarHeader, Cbor, read_car_header}
use go_car.Index.{Record}
use go_car.Index.Single.{DigestRecord}
use go_car.Index.Codec.{Index, multihash_sorted}
use go_car.Options.{Options, initial_options, max_index_cid_size}
use go_car.BlockReader.{BlockReader, new_block_reader}
use go_car.BlockReader.Payload.{PragmaLaws, wrapped, new_block_reader-wrapped}
use go_car.IndexGen.{is_indexed, add_record, read_section, read_records, load_index}
use go_car.IndexGen.Total.{load_index_total}
use go_car.IndexGen.Sections.{located, read_records-sections, read_records_overrun}
use go_car.Carv1.ReadBack.{section}
use go_car.Carv1.Load.{sections}
use go_car.Tests.World.{
  leb, leb_put, leb_read, leb-VarintLaws, TestCid, test_cids, test_cids-CidLaws, decode_header,
  test_cbor,
}

program : Unit {0}
unfolding new_block_reader read_car_header ld_read read_full leb_put leb_read bytes_equal is_indexed
    add_record max_index_cid_size read_section read_records
program = tt

-- Decodes the pragma as well.
abbrev pub decode_either : Bytes → Result (CarHeader TestCid)
decode_either bs =
    if bytes_equal (drop 1 pragma) bs
    then ok (record { roots = []; version = 2 })
    else decode_header bs

abbrev pub pragma_cbor : Cbor TestCid
pragma_cbor = record { dump_object = test_cbor.dump_object; decode_into = decode_either }

pub pragma_cbor-PragmaLaws : PragmaLaws leb pragma_cbor
unfolding program
pragma_cbor-PragmaLaws = record { framed = refl; decoded = refl }

abbrev hello : Block TestCid
hello = record { cid = record { code = 1; value = 6 }; raw = 1 ∷ 2 ∷ 3 ∷ [] }

abbrev payload : Bytes
payload = 3 ∷ 1 ∷ 1 ∷ 6 ∷ 5 ∷ 1 ∷ 6 ∷ 1 ∷ 2 ∷ 3 ∷ []

abbrev around : Header
around = record {
  characteristics = record { hi = 0; lo = 0 };
  data_offset = 53;
  data_size = 10;
  index_offset = 0;
}

around-IsPlaced : IsPlaced around
around-IsPlaced = record {
  data_offset_low = omega arith;
  data_offset_high = omega arith;
  data_size_low = omega arith;
  data_size_high = omega arith;
  index_offset_high = omega arith;
}

abbrev options : Options
options = max_index_cid_size 2048 initial_options

abbrev opened : BlockReader TestCid
opened = record {
  version = 1;
  roots = hello.cid ∷ [];
  r = 5 ∷ 1 ∷ 6 ∷ 1 ∷ 2 ∷ 3 ∷ [];
  opts = options;
}

payload_opens : new_block_reader leb pragma_cbor true options payload ≡ ok opened
unfolding program
payload_opens = refl

new_block_reader-wrapped_example :
    new_block_reader leb pragma_cbor true options (wrapped around (0 ∷ 0 ∷ []) payload (9 ∷ []))
    ≡ ok (record opened { version = 2 })
unfolding program
new_block_reader-wrapped_example =
    new_block_reader-wrapped leb pragma_cbor true options around (0 ∷ 0 ∷ []) payload (9 ∷ [])
      opened leb-VarintLaws pragma_cbor-PragmaLaws (omega arith) (omega arith) (omega arith)
      around-IsPlaced refl refl payload_opens refl

abbrev pub same_order : List DigestRecord → List DigestRecord
same_order records = records

load_index_total_example :
    (r : Result Index) × (load_index leb test_cids 0 options test_cbor payload same_order
        (multihash_sorted [])
      ≡ some r)
load_index_total_example =
    load_index_total leb leb-VarintLaws test_cids 0 options test_cbor payload same_order
      (multihash_sorted [])

abbrev indexed : List (Record TestCid)
indexed = record { cid = hello.cid; offset = 4 } ∷ record { cid = hello.cid; offset = 10 } ∷ []

two_indexed : located leb test_cids 0 options 4 (hello ∷ hello ∷ []) ≡ indexed
unfolding program
two_indexed = refl

abbrev front : Bytes
front = 3 ∷ 1 ∷ 1 ∷ 6 ∷ []

-- The payload of a CARv2 with both sections, and a byte behind it.
read_records-sections_example :
    read_records leb test_cids 0 options
      (front ++ (sections leb test_cids (hello ∷ hello ∷ []) ++ (7 ∷ [])))
      0
      16
      3
      4
      4
      []
    ≡ some (ok indexed)
unfolding program
read_records-sections_example =
    read_records-sections leb leb-VarintLaws test_cids test_cids-CidLaws 0 options 0 16 front
      (hello ∷ hello ∷ []) (7 ∷ []) 3 [] (omega arith, (omega arith, tt)) (omega arith)
      (omega arith) (inr (omega arith, refl)) (omega arith)

-- A payload of four bytes, which is only a header, with a section behind it.
read_records_overrun_example :
    read_records leb test_cids 0 options (front ++ (section leb test_cids hello ++ [])) 0 4 1 4 4 []
    ≡ some (ok (record { cid = hello.cid; offset = 4 } ∷ []))
unfolding program
read_records_overrun_example =
    read_records_overrun leb leb-VarintLaws test_cids test_cids-CidLaws 0 options 0 4 front [] hello
      0 [] (omega arith) (omega arith) refl (omega arith) refl
