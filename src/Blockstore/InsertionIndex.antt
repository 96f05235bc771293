-- ===== src/Blockstore/InsertionIndex.antt =====
-- v2/blockstore/insertionindex.go: the index in memory of a blockstore that is written to. The
-- tree is that of package llrb, and the records are written by a cbor package; neither is part of
-- the repository, so that both are parameters.
pub mod Lookup
use go_car.Prelude.{ℕ, zero, suc, ◌+◌, ◌^◌, List, [], ◌∷◌, ◌++◌, Option, none, some}
use go_car.Prelude.{Bool, true, false, not, leb, if◌then◌else◌}
use go_car.Bytes.{Bytes, bytes_equal, bytes_less, le_bytes, le_value}
use go_car.Stream.{
  Error, not_found, invalid_entry, panic, Result, ok, err, ◌>>=◌, Full, read_full, Written, Sink,
}
use go_car.Cids.{CidLib, Decoded}
use go_car.Index.{Record}
use go_car.Index.Single.{DigestRecord}
use go_car.Index.Codec.{Codecs, Index, new_index, index_load}

pub record RecordDigest (Cid : Type 0) : Type 0 where
  pub digest : Bytes
  pub entry : Record Cid

-- `recordDigest.Less`.
unfoldable pub digest_less : {Cid : Type 0} → RecordDigest Cid → RecordDigest Cid → Bool
digest_less r other = bytes_less r.digest other.digest

-- Package llrb, at an order by digest: `ascend` lists what AscendGreaterOrEqual goes through from a
-- digest on, `items` what it goes through from Min, and `find` is Get.
pub record Tree (Cid : Type 0) (T : Type 0) : Type 0 where
  pub empty : T
  pub insert_no_replace : RecordDigest Cid → T → T
  pub find : Bytes → T → Option (RecordDigest Cid)
  pub ascend : Bytes → T → List (RecordDigest Cid)
  pub items : T → List (RecordDigest Cid)
  pub len : T → ℕ

-- An iteration with a callback that changes a state, and stops it by answering false.
unfoldable pub iterate {ℓ κ} : {I : Type ℓ} {A : Type κ} → (I → A → Bool × A) → List I → A → A
iterate iter [] a = a
iterate iter (i ∷ is) a =
    let (more, a') = iter i a in let rest = iterate iter is a' in if more then rest else a'

-- The callback of GetAll, with its flag.
unfoldable pub get_all_iter {ℓ} :
    {Cid : Type 0} {A : Type ℓ}
    → Bytes
    → (ℕ → A → Bool × A)
    → RecordDigest Cid
    → Bool × A
    → Bool × (Bool × A)
get_all_iter digest fn existing (any, a) =
    if not (bytes_equal existing.digest digest)
    then (false, (any, a))
    else let (more, a') = fn existing.entry.offset a in (more, (true, a'))

unfoldable pub records_in_order : {Cid : Type 0} → List (RecordDigest Cid) → List (Record Cid)
records_in_order [] = []
records_in_order (i ∷ is) = i.entry ∷ records_in_order is

unfoldable pub encode_items {ℓ} :
    {Cid : Type 0} {S : Type ℓ}
    → (Record Cid → S → Option Error × S)
    → List (RecordDigest Cid)
    → S
    → Option Error × S
encode_items encode [] s = (none, s)
encode_items encode (i ∷ is) s =
    let (failed, s') = encode i.entry s in
    let rest = encode_items encode is s' in elim failed [ some e ↦ (some e, s') | none ↦ rest ]

module _ {Cid T : Type 0} (lib : CidLib Cid) (tree : Tree Cid T) where
  -- newRecordDigest and newRecordFromCid, which panic where the multihash cannot be decoded.
  unfoldable pub new_record_digest : Record Cid → Result (RecordDigest Cid)
  new_record_digest r = elim (lib.decode (lib.hash r.cid)) [
    | err e ↦ err panic
    | ok d ↦ ok (record { digest = d.digest; entry = r })
  ]

  unfoldable pub new_record_from_cid : Cid → ℕ → Result (RecordDigest Cid)
  new_record_from_cid c at = elim (lib.decode (lib.hash c)) [
    | err e ↦ err panic
    | ok d ↦ ok (record { digest = d.digest; entry = record { cid = c; offset = at } })
  ]

  unfoldable pub insert_no_replace : Cid → ℕ → T → Result T
  unfolding new_record_from_cid
  insert_no_replace key n t = do r ← new_record_from_cid key n; ok (tree.insert_no_replace r t)

  unfoldable pub insertion_get : Cid → T → Result ℕ
  insertion_get c t = do
    d ← lib.decode (lib.hash c)
    elim (tree.find d.digest t) [ none ↦ err not_found | some e ↦ ok e.entry.offset ]

  unfoldable pub insertion_get_all {ℓ} :
      {A : Type ℓ} → Cid → (ℕ → A → Bool × A) → T → A → Option Error × A
  unfolding get_all_iter iterate
  insertion_get_all c fn t a = elim (lib.decode (lib.hash c)) [
    | err e ↦ (some e, a)
    | ok d ↦
        let (any, a') = iterate (get_all_iter d.digest fn) (tree.ascend d.digest t) (false, a) in
        (if any then none else some not_found, a')
  ]

  -- The callback of hasExactCID, with its flag; it panics where the multihash cannot be decoded.
  unfoldable pub has_exact_iter : Bytes → Cid → RecordDigest Cid → Bool → Bool × Bool
  has_exact_iter digest c existing found =
      if not (bytes_equal existing.digest digest)
      then (false, found)
      else if lib.equals existing.entry.cid c
      then (false, true)
      else (true, found)

  unfoldable pub has_exact_cid : Cid → T → Result Bool
  unfolding has_exact_iter iterate
  has_exact_cid c t = elim (lib.decode (lib.hash c)) [
    | err e ↦ err panic
    | ok d ↦ ok (iterate (has_exact_iter d.digest c) (tree.ascend d.digest t) false)
  ]

  -- ForEach over the multihashes and offsets.
  unfoldable pub insertion_for_each {ℓ} :
      {A : Type ℓ} → (Bytes → ℕ → A → Option Error × A) → T → A → Option Error × A
  unfolding iterate
  insertion_for_each f t a =
      iterate
        (λ i s.
          let (failed, a') = f (lib.hash i.entry.cid) i.entry.offset s.1 in
          elim failed [ some e ↦ (false, (some e, a')) | none ↦ (true, (s.0, a')) ])
        (tree.items t) (none, a)

  -- Load; an entry whose digest is nil is refused.
  unfoldable pub insertion_load : (Bytes → Bool) → List (Record Cid) → T → Option Error × T
  unfolding new_record_digest
  insertion_load is_nil [] t = (none, t)
  insertion_load is_nil (r ∷ rs) t = elim (new_record_digest r) [
    | err e ↦ (some e, t)
    | ok rec ↦
        let rest = insertion_load is_nil rs (tree.insert_no_replace rec t) in
        elim (is_nil rec.digest) [ true ↦ (some invalid_entry, t) | false ↦ rest ]
  ]

  -- flatten: the records in the order of the tree, loaded into a new index.
  unfoldable pub flatten : (List DigestRecord → List DigestRecord) → Codecs → ℕ → T → Result Index
  unfolding records_in_order
  flatten sort codecs codec t = do
    si ← new_index codecs codec
    index_load lib sort (records_in_order (tree.items t)) si

  -- Marshal, with `encode` for the cbor form of a record: the number of items, and the items.
  unfoldable pub insertion_marshal {ℓ} :
      {S : Type ℓ} → Sink S → (Record Cid → S → Option Error × S) → T → S → Written S
  unfolding encode_items
  insertion_marshal k encode t s =
      let w = k.write (le_bytes 8 (tree.len t)) s in
      elim w.error [
        | some e ↦ record { count = 0; error = some e; state = w.state }
        | none ↦
            let (failed, s') = encode_items encode (tree.items t) w.state in
            record { count = 8; error = failed; state = s' }
      ]

  -- Unmarshal, with `decode` for the cbor decoder, which returns what it leaves of the stream.
  unfoldable pub decode_items :
      (Bytes → Result (Record Cid × Bytes)) → ℕ → Bytes → T → Result (T × Bytes)
  unfolding new_record_digest
  decode_items decode zero src t = ok (t, src)
  decode_items decode (suc n) src t = do
    (rec, rest) ← decode src
    r ← new_record_digest rec
    decode_items decode n rest (tree.insert_no_replace r t)

  -- The length is an int64; below zero there is no round.
  unfoldable pub insertion_unmarshal :
      (Bytes → Result (Record Cid × Bytes)) → Bytes → T → Result (T × Bytes)
  unfolding decode_items
  insertion_unmarshal decode src t =
      let full = read_full 8 src in
      let length = le_value full.buf in
      elim full.error [
        | some e ↦ err e
        | none ↦ decode_items decode (if leb (2 ^ 63) length then 0 else length) full.rest t
      ]
