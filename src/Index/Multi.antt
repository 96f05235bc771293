-- ===== src/Index/Multi.antt =====
-- v2/index/indexsorted.go: multiWidthIndex, one singleWidthIndex for each width.
pub mod RoundTrip
use go_car.Prelude.{
  ℕ, zero, suc, ◌+◌, ◌-◌, ◌*◌, ◌%◌, ◌^◌, List, [], ◌∷◌, ◌++◌, Option, none, some, length,
}
use go_car.Prelude.{Bool, true, false, leb, if◌then◌else◌}
use go_car.Prelude.Assoc.{lookup, insert, keys, sort_keys}
use go_car.Bytes.{Bytes, le_bytes}
use go_car.Stream.{
  Error, not_found, length_overflow, count_overflow, Result, ok, err, ◌>>=◌, Written, Sink,
}
use go_car.Cids.{CidLib, Decoded}
use go_car.Header.{u64}
use go_car.Index.{Record}
use go_car.Index.Single.{
  DigestRecord, SingleWidthIndex, single_marshal, single_unmarshal, read_number, single_get_all,
  single_for_each_digest,
}
use go_car.Index.Single.Compact.{compact}

abbrev pub u32 : ℕ
u32 = 2 ^ 32

abbrev pub MultiWidthIndex : Type 0
MultiWidthIndex = List (ℕ × SingleWidthIndex)

-- `(*m)[width]`, the zero value for a width that is not there.
unfoldable pub bucket : MultiWidthIndex → ℕ → SingleWidthIndex
bucket m width = elim (lookup width m) [
  | some s ↦ s
  | none ↦ record { width = 0; len = 0; index = [] }
]

-- The buckets in ascending order of their widths; `l` counts the bytes so far.
unfoldable pub marshal_buckets {ℓ} :
    {S : Type ℓ} → Sink S → MultiWidthIndex → List ℕ → ℕ → S → Written S
marshal_buckets k m [] l st = record { count = l; error = none; state = st }
marshal_buckets k m (width ∷ widths) l st =
    let w = single_marshal k (bucket m width) st in
    let rest = marshal_buckets k m widths (l + w.count) w.state in
    elim w.error [
      | some e ↦ record { count = l + w.count; error = some e; state = w.state }
      | none ↦ rest
    ]

unfoldable pub multi_marshal {ℓ} : {S : Type ℓ} → Sink S → MultiWidthIndex → S → Written S
multi_marshal k m st =
    let w = k.write (le_bytes 4 (length m)) st in
    elim w.error [
      | some e ↦ record { count = 0; error = some e; state = w.state }
      | none ↦ marshal_buckets k m (sort_keys (keys m)) 4 w.state
    ]

-- `stop` is the position of the stream's end, so `stop - length rest` is what
-- `reader.Seek(0, io.SeekCurrent)` answers. The sum of two int64 values that are not negative
-- falls below the first exactly if it passes 2^63.
unfoldable pub unmarshal_buckets :
    ℕ → ℕ → ℕ → Bytes → MultiWidthIndex → Result (MultiWidthIndex × Bytes)
unmarshal_buckets zero stop sum src m = ok (m, src)
unmarshal_buckets (suc l) stop sum src m = elim (single_unmarshal src) [
  | err e ↦ err e
  | ok (s, rest) ↦
      let n = stop - length rest in
      elim (leb (2 ^ 63) (sum + n)) [
        | true ↦ err length_overflow
        | false ↦ unmarshal_buckets l stop (sum + n) rest (insert s.width s m)
      ]
]

-- multiWidthIndex.Unmarshal into `m`, with the reader at position `start`.
unfoldable pub multi_unmarshal : ℕ → MultiWidthIndex → Bytes → Result (MultiWidthIndex × Bytes)
multi_unmarshal start m src = do
  (l, rest) ← read_number 4 src
  let stop = start + length src
  if leb (2 ^ 31) l
      then err count_overflow
      else unmarshal_buckets l stop (stop - length rest) rest m

module _ {Cid : Type 0} (lib : CidLib Cid) where
  unfoldable pub multi_get_all {ℓ} :
      {A : Type ℓ} → MultiWidthIndex → Cid → (ℕ → A → Bool × A) → A → Option Error × A
  multi_get_all m c fn a = elim (lib.decode (lib.hash c)) [
    | err e ↦ (some e, a)
    | ok d ↦ elim (lookup ((length d.digest + 8) % u32) m) [
      | some s ↦ single_get_all s fn d.digest a
      | none ↦ (some not_found, a)
    ]
  ]

  -- The records grouped by the length of their digests, each group in the order of arrival.
  unfoldable pub group_by_length :
      List (Record Cid) → List (ℕ × List DigestRecord) → Result (List (ℕ × List DigestRecord))
  group_by_length [] idxs = ok idxs
  group_by_length (item ∷ items) idxs = elim (lib.decode (lib.hash item.cid)) [
    | err e ↦ err e
    | ok d ↦
        let record_of : DigestRecord = record { digest = d.digest; index = item.offset } in
        let n = length d.digest in
        let group : List DigestRecord = elim (lookup n idxs) [ some old ↦ old | none ↦ [] ] in
        group_by_length items (insert n (group ++ record_of ∷ []) idxs)
  ]

  module _ (sort : List DigestRecord → List DigestRecord) where
    -- The second loop of Load. Its map has each width once, so its order does not matter.
    unfoldable pub load_groups : List (ℕ × List DigestRecord) → MultiWidthIndex → MultiWidthIndex
    load_groups [] m = m
    load_groups ((n, lst) ∷ groups) m =
        load_groups groups (insert ((n + 8) % u32) (compact ((n + 8) % u32) (sort lst)) m)

    unfoldable pub multi_load : List (Record Cid) → MultiWidthIndex → Result MultiWidthIndex
    multi_load items m = do idxs ← group_by_length items []; ok (load_groups idxs m)

-- multiWidthIndex.forEachDigest, over the widths in ascending order.
module _ {ℓ} {A : Type ℓ} (f : Bytes → ℕ → A → Option Error × A) where
  unfoldable pub for_each_bucket : MultiWidthIndex → List ℕ → A → Option Error × A
  for_each_bucket m [] a = (none, a)
  for_each_bucket m (size ∷ sizes) a =
      let (failed, a') = single_for_each_digest (bucket m size) f a in
      let rest = for_each_bucket m sizes a' in elim failed [ some e ↦ (some e, a') | none ↦ rest ]

  unfoldable pub multi_for_each_digest : MultiWidthIndex → A → Option Error × A
  multi_for_each_digest m a = for_each_bucket m (sort_keys (keys m)) a
