-- ===== src/Index/Codec.antt =====
-- v2/index/index.go: the two kinds of index behind one interface, and their form with a codec in
-- front of it.
pub mod RoundTrip
use go_car.Prelude.{ℕ, ◌+◌, ◌-◌, Option, none, some, length, [], List}
use go_car.Prelude.{Bool, false, ◌==◌, if◌then◌else◌}
use go_car.Bytes.{Bytes}
use go_car.Stream.{Error, unknown_codec, Result, ok, err, ◌>>=◌, Written, Sink}
use go_car.Varint.{Varint, Uvarint}
use go_car.Cids.{CidLib}
use go_car.Index.{Record}
use go_car.Index.Single.{DigestRecord}
use go_car.Index.Multi.{MultiWidthIndex, multi_marshal, multi_unmarshal, multi_get_all, multi_load}
use go_car.Index.Multihash.{
  MultihashIndexSorted, multihash_marshal, multihash_unmarshal, multihash_get_all, multihash_load,
}

-- The codes of package go-multicodec, which is not part of the repository.
pub record Codecs : Type 0 where
  pub car_index_sorted : ℕ
  pub car_multihash_index_sorted : ℕ

-- The implementations of the interface Index.
pub data Index : Type 0 where
  sorted : MultiWidthIndex → Index
  multihash_sorted : MultihashIndexSorted → Index

unfoldable pub index_marshal {ℓ} : {S : Type ℓ} → Sink S → Index → S → Written S
index_marshal k (sorted m) st = multi_marshal k m st
index_marshal k (multihash_sorted m) st = multihash_marshal k m st

-- With the reader at position `start`.
unfoldable pub index_unmarshal : ℕ → Index → Bytes → Result (Index × Bytes)
index_unmarshal start (sorted m) src = do
  (m', rest) ← multi_unmarshal start m src
  ok (sorted m', rest)
index_unmarshal start (multihash_sorted m) src = do
  (m', rest) ← multihash_unmarshal start m src
  ok (multihash_sorted m', rest)

unfoldable pub read_codec : Varint → Bytes → Result (ℕ × Bytes)
read_codec v src =
    let code = v.read src in elim code.error [ some e ↦ err e | none ↦ ok (code.value, code.rest) ]

module _ (codecs : Codecs) where
  unfoldable pub codec : Index → ℕ
  codec (sorted m) = codecs.car_index_sorted
  codec (multihash_sorted m) = codecs.car_multihash_index_sorted

  unfoldable pub new_index : ℕ → Result Index
  new_index c =
      if c == codecs.car_index_sorted
      then ok (sorted [])
      else if c == codecs.car_multihash_index_sorted
      then ok (multihash_sorted [])
      else err unknown_codec

  module _ (v : Varint) where
    unfoldable pub write_to {ℓ} : {S : Type ℓ} → Sink S → Index → S → Written S
    write_to k idx st =
        let w = k.write (v.put (codec idx)) st in
        elim w.error [
          | some e ↦ w
          | none ↦
              let inner = index_marshal k idx w.state in
              record inner { count = w.count + inner.count }
        ]

    -- With the reader at position `start`.
    unfoldable pub read_from : ℕ → Bytes → Result (Index × Bytes)
    read_from start src = do
      (c, rest) ← read_codec v src
      idx ← new_index c
      index_unmarshal (start + length src - length rest) idx rest

module _ {Cid : Type 0} (lib : CidLib Cid) where
  unfoldable pub index_get_all {ℓ} :
      {A : Type ℓ} → Index → Cid → (ℕ → A → Bool × A) → A → Option Error × A
  index_get_all (sorted m) c fn a = multi_get_all lib m c fn a
  index_get_all (multihash_sorted m) c fn a = multihash_get_all lib m c fn a

  unfoldable pub index_load :
      (List DigestRecord → List DigestRecord) → List (Record Cid) → Index → Result Index
  index_load sort items (sorted m) = do m' ← multi_load lib sort items m; ok (sorted m')
  index_load sort items (multihash_sorted m) = do
    m' ← multihash_load lib sort items m
    ok (multihash_sorted m')

  -- The offset is 0 where no callback sets it.
  unfoldable pub get_first : Index → Cid → Option Error × ℕ
  get_first idx key = index_get_all idx key (λ offset first. (false, offset)) 0
