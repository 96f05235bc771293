-- ===== src/Index/Codec/RoundTrip.antt =====
-- index.WriteTo and index.ReadFrom: an index that was written and read back answers the same.
use go_car.Prelude.{
  ℕ, ◌+◌, ◌-◌, ◌*◌, ◌<◌, ◌≤◌, ◌^◌, ◌≡◌, ◌≢◌, refl, ◌∙◌, ap, arith, [], ◌++◌, append_assoc, none,
}
use go_car.Prelude.{length, length-append, Bool}
use go_car.Bytes.{Bytes}
use go_car.Stream.{ok, Sink, Appends}
use go_car.Varint.{Varint, VarintLaws}
use go_car.Cids.{CidLib}
use go_car.Index.Multi.RoundTrip.{
  multi_bytes, IsKeyed, normal, multi_marshal-Appends, multi_unmarshal-normal, multi_get_all-normal,
}
use go_car.Index.Multihash.RoundTrip.{
  multihash_bytes, IsCoded, multihash_marshal-Appends, multihash_unmarshal-multihash_bytes,
}
use go_car.Index.Codec.{
  Codecs, Index, sorted, multihash_sorted, index_marshal, index_unmarshal, codec, new_index,
  write_to, read_codec, read_from, index_get_all,
}

abbrev pub marshal_bytes : Index → Bytes
marshal_bytes (sorted m) = multi_bytes m
marshal_bytes (multihash_sorted m) = multihash_bytes m

-- What an index has to satisfy to be read back from a stream that ends at position `stop`.
abbrev pub IsReadable : ℕ → Index → Type 0
IsReadable stop (sorted m) = IsKeyed m × (length m < 2 ^ 31) × ((length m + 1) * stop < 2 ^ 63)
IsReadable stop (multihash_sorted m) =
    (most : ℕ) × IsCoded most m × (length m ≤ most) × (most < 2 ^ 31) × ((most + 1) * stop < 2 ^ 63)

-- The two codes differ, and are small enough to be stored.
pub record CodecsLaws (codecs : Codecs) : Type 0 where
  pub distinct : codecs.car_index_sorted ≢ codecs.car_multihash_index_sorted
  pub sorted_small : codecs.car_index_sorted < 2 ^ 63
  pub multihash_small : codecs.car_multihash_index_sorted < 2 ^ 63

module _ (codecs : Codecs) (v : Varint) where
  -- The code of the index as a varint, and its serial form.
  abbrev pub index_bytes : Index → Bytes
  index_bytes idx = v.put (codec codecs idx) ++ marshal_bytes idx

  -- WriteTo without an error leaves the code and the serial form of the index behind what the
  -- writer held, and counts their bytes.
  pub write_to-Appends {ℓ} :
      {S : Type ℓ} (k : Sink S) (content : S → Bytes) (idx : Index) (st : S)
      → Appends k content
      → (write_to codecs v k idx st).error ≡ none
      → (content (write_to codecs v k idx st).state ≡ content st ++ index_bytes idx)
        × ((write_to codecs v k idx st).count ≡ length (index_bytes idx))
  unfolding write_to index_marshal codec
  write_to-Appends k content (sorted m) st law e =
      let code = v.put codecs.car_index_sorted in
      ground (
        arith,
        law.all_written code st,
        multi_marshal-Appends k content m (k.write code st).state law,
        append_assoc (content st) code (multi_bytes m),
        length-append code (multi_bytes m),
      )
  write_to-Appends k content (multihash_sorted m) st law e =
      let code = v.put codecs.car_multihash_index_sorted in
      ground (
        arith,
        law.all_written code st,
        multihash_marshal-Appends k content m (k.write code st).state law,
        append_assoc (content st) code (multihash_bytes m),
        length-append code (multihash_bytes m),
      )

  pub codec_small : CodecsLaws codecs → (idx : Index) → codec codecs idx < 2 ^ 63
  unfolding codec
  codec_small laws (sorted m) = laws.sorted_small
  codec_small laws (multihash_sorted m) = laws.multihash_small

  abbrev empty_like : Index → Index
  empty_like (sorted m) = sorted []
  empty_like (multihash_sorted m) = multihash_sorted []

  new_index-codec :
      CodecsLaws codecs → (idx : Index) → new_index codecs (codec codecs idx) ≡ ok (empty_like idx)
  unfolding new_index codec
  new_index-codec laws (sorted m) = ground arith
  new_index-codec laws (multihash_sorted m) = ground (arith, laws.distinct)

  read_codec-put :
      VarintLaws v
      → (code : ℕ) (rest : Bytes) → code < 2 ^ 63
      → read_codec v (v.put code ++ rest) ≡ ok (code, rest)
  unfolding read_codec
  read_codec-put laws code rest small = ground (arith, laws.read_put code rest small)

  -- The body of `read_from` behind the codec.
  index_unmarshal-marshal_bytes :
      (start : ℕ) (idx : Index) (rest : Bytes)
      → IsReadable (start + length (marshal_bytes idx ++ rest)) idx
      → (idx' : Index) × (index_unmarshal start (empty_like idx) (marshal_bytes idx ++ rest)
          ≡ ok (idx', rest))
        × (codec codecs idx' ≡ codec codecs idx)
        × ((Cid A : Type 0) (lib : CidLib Cid) (c : Cid) (fn : ℕ → A → Bool × A) (a : A)
            → index_get_all lib idx' c fn a ≡ index_get_all lib idx c fn a)
  unfolding index_unmarshal index_get_all codec
  index_unmarshal-marshal_bytes start (sorted m) rest (keyed, few, wide) =
      let read : _ = multi_unmarshal-normal start m rest keyed few wide in
      (
        sorted (normal m),
        ground (arith, read),
        refl,
        λ Cid A lib c fn a. multi_get_all-normal lib c fn a m,
      )
  index_unmarshal-marshal_bytes start (multihash_sorted m) rest (most, coded, few, small, wide) =
      let (m', read, same) =
        multihash_unmarshal-multihash_bytes most start m rest coded few small wide in
      (multihash_sorted m', ground (arith, read), refl, λ Cid A lib c fn a. same Cid A lib c fn a)

  -- ReadFrom on the code and the serial form of an index that can be read back succeeds, leaves
  -- what follows, and gives an index of the same codec whose GetAll answers every CID the same.
  pub read_from-index_bytes :
      (start : ℕ) (idx : Index) (rest : Bytes)
      → VarintLaws v
      → CodecsLaws codecs
      → IsReadable (start + length (index_bytes idx ++ rest)) idx
      → (idx' : Index) × (read_from codecs v start (index_bytes idx ++ rest) ≡ ok (idx', rest))
        × (codec codecs idx' ≡ codec codecs idx)
        × ((Cid A : Type 0) (lib : CidLib Cid) (c : Cid) (fn : ℕ → A → Bool × A) (a : A)
            → index_get_all lib idx' c fn a ≡ index_get_all lib idx c fn a)
  unfolding read_from
  read_from-index_bytes start idx rest varint laws readable =
      let code = v.put (codec codecs idx) in
      let body = marshal_bytes idx ++ rest in
      let assoc : _ = append_assoc code (marshal_bytes idx) rest in
      let size : length (index_bytes idx ++ rest) ≡ length code + length body =
        ap length assoc ∙ length-append code body in
      let place = start + length (index_bytes idx ++ rest) - length body in
      let end : place + length body ≡ start + length (index_bytes idx ++ rest) =
        omega (arith, size) in
      let (idx', read, same, answers) =
        index_unmarshal-marshal_bytes place idx rest (rw end readable) in
      (
        idx',
        ground (
          arith,
          assoc,
          read_codec-put varint (codec codecs idx) body (codec_small laws idx),
          new_index-codec laws idx,
          read,
        ),
        same,
        answers,
      )
