-- ===== src/Tests/Inspected.antt =====
-- Runs on the reader and on Inspect.
use go_car.Prelude.{◌/◌, ◌≡◌, ◌≢◌, refl, arith, List, [], ◌∷◌, ◌++◌, none, some}
use go_car.Prelude.{length, false, true, ltb, if◌then◌else◌}
use go_car.Prelude.Int.{pos}
use go_car.Stream.{ok}
use go_car.Cids.{Block}
use go_car.Header.{zero_header}
use go_car.Section.Frame.{frame}
use go_car.Carv1.Load.{sections}
use go_car.Options.{initial_options}
use go_car.Reader.{Reader, new_reader, data_reader, index_reader}
use go_car.Reader.Inspect.{PrefixLib, Stats, inspect}
use go_car.Reader.Inspected.{total_length, longest, inspect-sections}
use go_car.Reader.Ends.{inspect_total}
use go_car.Tests.World.{
  TestCid, leb, leb_put, leb_read, leb-VarintLaws, test_cids, test_cids-CidLaws, test_cbor,
  test_cbor-CborLaws, checksum,
}
use go_car.Tests.Codec.{codecs}

program : Unit {0}
unfolding data_reader index_reader leb_put leb_read new_reader go_car.Reader.read_version
    go_car.Carv1.read_car_header go_car.Section.ld_read go_car.Stream.read_full
program = tt

abbrev prefixes : PrefixLib TestCid
prefixes = record {
  version = λ c. 1;
  codec_of = λ c. 0x55;
  mh_length = λ c. pos 1;
  sum_stream = λ bs code len. ok (code ∷ checksum bs ∷ []);
  new_cid_v0 = λ mh. record { code = 18; value = 0 };
  new_cid_v1 = λ codec mh. record { code = 18; value = checksum mh };
}

abbrev root : TestCid
root = record { code = 18; value = 7 }

abbrev blocks : List (Block TestCid)
blocks =
    record { cid = root; raw = 3 ∷ 4 ∷ [] }
    ∷ record { cid = record { code = 18; value = 9 }; raw = 9 ∷ [] }
    ∷ []

abbrev opened : Reader TestCid
opened = record {
  header = zero_header;
  version = 1;
  r = frame leb (1 ∷ 18 ∷ 7 ∷ []) ++ sections leb test_cids blocks;
  roots = none;
  opts = initial_options;
  closer = none;
}

opens : new_reader leb test_cbor test_cids opened.r initial_options ≡ ok opened
unfolding program
opens = refl

inspect-sections_example :
    (stats : Stats TestCid) × (inspect leb test_cbor test_cids prefixes 0 codecs false opened
      ≡ some (ok stats))
    × (stats.roots ≡ root ∷ [])
    × (stats.block_count ≡ length blocks)
    × (stats.max_block_length ≡ longest blocks)
    × (stats.avg_block_length
        ≡ (if ltb 0 (length blocks) then total_length blocks / length blocks else 0))
inspect-sections_example =
    inspect-sections leb leb-VarintLaws test_cbor test_cids prefixes 0 codecs test_cids-CidLaws
      test_cbor-CborLaws opened (record { roots = root ∷ []; version = 1 }) (1 ∷ 18 ∷ 7 ∷ []) blocks
      (unfold program in refl) (unfold program in refl) refl (omega arith) (omega arith)
      (omega arith, (omega arith, tt)) (omega arith, (omega arith, tt)) (omega arith) (omega arith)

inspect_total_example : inspect leb test_cbor test_cids prefixes 0 codecs true opened ≢ none
inspect_total_example =
    inspect_total leb leb-VarintLaws test_cbor test_cids prefixes 0 codecs true opened
