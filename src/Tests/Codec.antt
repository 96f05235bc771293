-- ===== src/Tests/Codec.antt =====
-- Runs on the multihash index and on indexes with their codec.
use go_car.Prelude.{ℕ, ◌≡◌, arith, [], ◌∷◌, ◌++◌}
use go_car.Prelude.{Bool}
use go_car.Prelude.Assoc.{lookup, insert, keys, sort_keys}
use go_car.Bytes.{le_bytes, le_value}
use go_car.Stream.{ok, buffer_write, read_full}
use go_car.Cids.{CidLib}
use go_car.Index.Single.{single_marshal, single_prefix}
use go_car.Index.Multi.{multi_marshal, marshal_buckets, bucket}
use go_car.Index.Multihash.{
  MultihashIndexSorted, coded_marshal, coded_at, marshal_codes, sorted_multihash_codes,
  multihash_marshal, multihash_unmarshal, multihash_get_all,
}
use go_car.Index.Multihash.RoundTrip.{multihash_bytes, IsCoded, multihash_unmarshal-multihash_bytes}
use go_car.Index.Codec.{
  Codecs, Index, multihash_sorted, codec, write_to, read_from, index_get_all, index_marshal,
}
use go_car.Index.Codec.RoundTrip.{index_bytes, CodecsLaws, read_from-index_bytes}
use go_car.Tests.World.{leb, leb_put, leb-VarintLaws}
use go_car.Tests.Indexes.{one_bucket, one_bucket-IsKeyed}

program : Unit {0}
unfolding single_marshal le_bytes le_value read_full buffer_write multi_marshal marshal_buckets
    bucket lookup insert keys sort_keys coded_marshal coded_at marshal_codes sorted_multihash_codes
    multihash_marshal codec write_to index_marshal leb_put single_prefix
program = tt

abbrev coded : MultihashIndexSorted
coded = (18, record { multi = one_bucket; code = 18 }) ∷ []

coded-IsCoded : IsCoded 1 coded
unfolding lookup
coded-IsCoded = record { at_code = λ k c e. ground (arith, one_bucket-IsKeyed) }

multihash_unmarshal-multihash_bytes_example :
    (m' : MultihashIndexSorted) × (multihash_unmarshal 0 [] (multihash_bytes coded ++ (5 ∷ []))
      ≡ ok (m', 5 ∷ []))
    × ((Cid A : Type 0) (lib : CidLib Cid) (c : Cid) (fn : ℕ → A → Bool × A) (a : A)
        → multihash_get_all lib m' c fn a ≡ multihash_get_all lib coded c fn a)
unfolding program
multihash_unmarshal-multihash_bytes_example =
    multihash_unmarshal-multihash_bytes 1 0 coded (5 ∷ []) coded-IsCoded (omega arith) (omega arith)
      (omega arith)

abbrev pub codecs : Codecs
codecs = record { car_index_sorted = 0x0400; car_multihash_index_sorted = 0x0401 }

pub codecs-CodecsLaws : CodecsLaws codecs
codecs-CodecsLaws = record {
  distinct = λ e. omega arith;
  sorted_small = omega arith;
  multihash_small = omega arith;
}

read_from-index_bytes_example :
    (idx : Index) × (read_from codecs leb 0
        (index_bytes codecs leb (multihash_sorted coded) ++ (5 ∷ []))
      ≡ ok (idx, 5 ∷ []))
    × (codec codecs idx ≡ codec codecs (multihash_sorted coded))
    × ((Cid A : Type 0) (lib : CidLib Cid) (c : Cid) (fn : ℕ → A → Bool × A) (a : A)
        → index_get_all lib idx c fn a ≡ index_get_all lib (multihash_sorted coded) c fn a)
unfolding program
read_from-index_bytes_example =
    read_from-index_bytes codecs leb 0 (multihash_sorted coded) (5 ∷ []) leb-VarintLaws
      codecs-CodecsLaws (1, coded-IsCoded, omega arith, omega arith, omega arith)
