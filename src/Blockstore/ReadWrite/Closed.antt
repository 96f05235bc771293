-- ===== src/Blockstore/ReadWrite/Closed.antt =====
-- A ReadWrite blockstore after Finalize or Discard.
use go_car.Prelude.{ℕ, ◌≡◌, sym, ap, arith, List, none, some}
use go_car.Prelude.{true, false, if◌then◌else◌}
use go_car.Bytes.{Bytes}
use go_car.Stream.{closed, finalize_closed, ok, err}
use go_car.File.{FileLib}
use go_car.Varint.{Varint}
use go_car.Cids.{CidLib, Block}
use go_car.Carv1.{Cbor}
use go_car.Index.Single.{DigestRecord}
use go_car.Index.Codec.{Codecs}
use go_car.Blockstore.InsertionIndex.{Tree}
use go_car.Blockstore.ReadOnly.{is_identity, has, get, get_size, all_keys_chan}
use go_car.Blockstore.ReadWrite.{
  ReadWrite, with_file, discard, put_blocks, put_many, ronly, finalize,
}

module _ {F T Cid : Type 0} (files : FileLib F) (v : Varint) (lib : CidLib Cid) (tree : Tree Cid T)
    (codecs : Codecs) (sort : List DigestRecord → List DigestRecord) where
  finalize-closes :
      (b : ReadWrite F T) → (finalize files v lib tree codecs sort b).1.is_closed ≡ true
  unfolding finalize discard with_file
  finalize-closes b = ground arith

  finalize-opts : (b : ReadWrite F T) → (finalize files v lib tree codecs sort b).1.opts ≡ b.opts
  unfolding finalize discard with_file
  finalize-opts b = ground arith

  finalize_again :
      (b' b : ReadWrite F T)
      → b'.is_closed ≡ true
      → b'.opts ≡ b.opts
      → (finalize files v lib tree codecs sort b').0
        ≡ (if b.opts.write_as_car_v1 then none else some finalize_closed)
  unfolding finalize
  finalize_again b' b shut same = rw (sym (ap (λ o. o.write_as_car_v1) same)) (ground (arith, shut))

  refuses :
      (identity : ℕ) (cbor : Cbor Cid) (raw_v1 : Cid → Cid) (bls : List (Block Cid)) (key : Cid)
      (digest : Bytes) (b : ReadWrite F T)
      → b.is_closed ≡ true
      → is_identity v lib identity key ≡ ok (digest, false)
      → let r = ronly files v lib tree b in
        (put_many files v lib tree identity bls b ≡ (some closed, b))
        × (has v lib identity r key ≡ err closed)
        × (get v lib identity r key ≡ err closed)
        × (get_size v lib identity r key ≡ err closed)
        × (all_keys_chan v cbor lib raw_v1 r ≡ err closed)
  unfolding ronly put_many has get get_size all_keys_chan
  refuses identity cbor raw_v1 bls key digest b shut plain = (
    ap (λ c. if c then (some closed, b) else put_blocks files v lib tree identity bls b) shut,
    ground (arith, shut, plain),
    ground (arith, shut, plain),
    ground (arith, shut, plain),
    ground (arith, shut),
  )

  -- Whether Finalize succeeds or fails, the blockstore is closed behind it: PutMany and AllKeysChan
  -- fail, as do Has, Get and GetSize of a CID that is no identity; nothing is changed by them; and
  -- a second Finalize fails, but for
  -- a CARv1.
  pub finalized_refuses :
      (identity : ℕ) (cbor : Cbor Cid) (raw_v1 : Cid → Cid) (bls : List (Block Cid)) (key : Cid)
      (digest : Bytes) (b : ReadWrite F T)
      → is_identity v lib identity key ≡ ok (digest, false)
      → let b' = (finalize files v lib tree codecs sort b).1 in
        let r = ronly files v lib tree b' in
        (put_many files v lib tree identity bls b' ≡ (some closed, b'))
        × (has v lib identity r key ≡ err closed)
        × (get v lib identity r key ≡ err closed)
        × (get_size v lib identity r key ≡ err closed)
        × (all_keys_chan v cbor lib raw_v1 r ≡ err closed)
        × ((finalize files v lib tree codecs sort b').0
            ≡ (if b.opts.write_as_car_v1 then none else some finalize_closed))
  finalized_refuses identity cbor raw_v1 bls key digest b plain =
      let b' = (finalize files v lib tree codecs sort b).1 in
      let shut : _ = finalize-closes b in
      let (p, q, r, s, t) = refuses identity cbor raw_v1 bls key digest b' shut plain in
      (p, q, r, s, t, finalize_again b' b shut (finalize-opts b))
