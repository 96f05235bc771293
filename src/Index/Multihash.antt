-- ===== src/Index/Multihash.antt =====
-- v2/index/mhindexsorted.go: MultihashIndexSorted, one multiWidthIndex for each multihash code.
-- The reader is taken for a ByteReadSeeker, whose position all of the nested calls share.
pub mod RoundTrip
use go_car.Prelude.{ℕ, zero, suc, ◌+◌, ◌-◌, ◌^◌, List, [], ◌∷◌, ◌++◌, Option, none, some, length}
use go_car.Prelude.{Bool, true, false, leb, if◌then◌else◌}
use go_car.Prelude.Assoc.{lookup, insert, keys, sort_keys}
use go_car.Bytes.{Bytes, le_bytes}
use go_car.Stream.{
  Error, not_found, length_overflow, count_overflow, Result, ok, err, ◌>>=◌, Written, Sink,
}
use go_car.Cids.{CidLib, Decoded}
use go_car.Index.{Record}
use go_car.Index.Single.{DigestRecord, read_number}
use go_car.Index.Multi.{
  MultiWidthIndex, multi_marshal, multi_unmarshal, multi_get_all, multi_load, multi_for_each_digest,
}

pub record MultiWidthCodedIndex : Type 0 where
  pub multi : MultiWidthIndex
  pub code : ℕ

abbrev pub MultihashIndexSorted : Type 0
MultihashIndexSorted = List (ℕ × MultiWidthCodedIndex)

unfoldable pub new_multi_width_coded_index : MultiWidthCodedIndex
new_multi_width_coded_index = record { multi = []; code = 0 }

unfoldable pub coded_marshal {ℓ} : {S : Type ℓ} → Sink S → MultiWidthCodedIndex → S → Written S
coded_marshal k c st =
    let w = k.write (le_bytes 8 c.code) st in
    elim w.error [
      | some e ↦ record { count = 8; error = some e; state = w.state }
      | none ↦
          let inner = multi_marshal k c.multi w.state in record inner { count = 8 + inner.count }
    ]

-- With the reader at position `start`, into a new index.
unfoldable pub coded_unmarshal : ℕ → Bytes → Result (MultiWidthCodedIndex × Bytes)
unfolding new_multi_width_coded_index
coded_unmarshal start src = do
  (code, rest) ← read_number 8 src
  (multi, rest') ←
      multi_unmarshal (start + length src - length rest) new_multi_width_coded_index.multi rest
  ok (record { multi = multi; code = code }, rest')

-- `(*m)[code]`; the callers take the codes from the map itself, so that one is there.
unfoldable pub coded_at : MultihashIndexSorted → ℕ → MultiWidthCodedIndex
unfolding new_multi_width_coded_index
coded_at m code = elim (lookup code m) [ some c ↦ c | none ↦ new_multi_width_coded_index ]

unfoldable pub sorted_multihash_codes : MultihashIndexSorted → List ℕ
sorted_multihash_codes m = sort_keys (keys m)

unfoldable pub put : MultiWidthCodedIndex → MultihashIndexSorted → MultihashIndexSorted
put c m = insert c.code c m

module _ {ℓ} {S : Type ℓ} (k : Sink S) (m : MultihashIndexSorted) where
  -- The loop over the codes; `l` counts the bytes so far.
  unfoldable pub marshal_codes : List ℕ → ℕ → S → Written S
  marshal_codes [] l st = record { count = l; error = none; state = st }
  marshal_codes (code ∷ codes) l st =
      let w = coded_marshal k (coded_at m code) st in
      let rest = marshal_codes codes (l + w.count) w.state in
      elim w.error [
        | some e ↦ record { count = l + w.count; error = some e; state = w.state }
        | none ↦ rest
      ]

  unfoldable pub multihash_marshal : S → Written S
  unfolding sorted_multihash_codes
  multihash_marshal st =
      let w = k.write (le_bytes 4 (length m)) st in
      elim w.error [
        | some e ↦ record { count = 4; error = some e; state = w.state }
        | none ↦ marshal_codes (sorted_multihash_codes m) 4 w.state
      ]

-- As in multiWidthIndex.Unmarshal, the positions behind the entries are summed, and `stop` is the
-- position of the stream's end.
unfoldable pub unmarshal_codes :
    ℕ → ℕ → ℕ → Bytes → MultihashIndexSorted → Result (MultihashIndexSorted × Bytes)
unfolding put
unmarshal_codes zero stop sum src m = ok (m, src)
unmarshal_codes (suc l) stop sum src m = elim (coded_unmarshal (stop - length src) src) [
  | err e ↦ err e
  | ok (c, rest) ↦
      let n = stop - length rest in
      elim (leb (2 ^ 63) (sum + n)) [
        | true ↦ err length_overflow
        | false ↦ unmarshal_codes l stop (sum + n) rest (put c m)
      ]
]

-- Into `m`, with the reader at position `start`.
unfoldable pub multihash_unmarshal :
    ℕ → MultihashIndexSorted → Bytes → Result (MultihashIndexSorted × Bytes)
multihash_unmarshal start m src = do
  (l, rest) ← read_number 4 src
  let stop = start + length src
  if leb (2 ^ 31) l then err count_overflow else unmarshal_codes l stop (stop - length rest) rest m

unfoldable pub get : Decoded → MultihashIndexSorted → Result MultiWidthCodedIndex
get d m = elim (lookup d.code m) [ some c ↦ ok c | none ↦ err not_found ]

module _ {Cid : Type 0} (lib : CidLib Cid) where
  unfoldable pub multihash_get_all {ℓ} :
      {A : Type ℓ} → MultihashIndexSorted → Cid → (ℕ → A → Bool × A) → A → Option Error × A
  unfolding get
  multihash_get_all m c fn a = elim (lib.decode (lib.hash c)) [
    | err e ↦ (some e, a)
    | ok d ↦ elim (get d m) [
      | err e ↦ (some e, a)
      | ok coded ↦ multi_get_all lib coded.multi c fn a
    ]
  ]

  -- The records grouped by multihash code, each group in the order of arrival.
  unfoldable pub group_by_code :
      List (Record Cid) → List (ℕ × List (Record Cid)) → Result (List (ℕ × List (Record Cid)))
  group_by_code [] by_code = ok by_code
  group_by_code (item ∷ items) by_code = elim (lib.decode (lib.hash item.cid)) [
    | err e ↦ err e
    | ok d ↦
        let group : List (Record Cid) = elim (lookup d.code by_code) [
          | some old ↦ old
          | none ↦ []
        ] in
        group_by_code items (insert d.code (group ++ item ∷ []) by_code)
  ]

  module _ (sort : List DigestRecord → List DigestRecord) where
    -- The second loop of Load. Its map has each code once, so its order does not matter.
    unfoldable pub load_codes :
        List (ℕ × List (Record Cid)) → MultihashIndexSorted → Result MultihashIndexSorted
    unfolding put new_multi_width_coded_index
    load_codes [] m = ok m
    load_codes ((code, items) ∷ groups) m =
        elim (multi_load lib sort items new_multi_width_coded_index.multi) [
          | err e ↦ err e
          | ok multi ↦ load_codes groups (put (record { multi = multi; code = code }) m)
        ]

    unfoldable pub multihash_load :
        List (Record Cid) → MultihashIndexSorted → Result MultihashIndexSorted
    multihash_load items m = do by_code ← group_by_code items []; load_codes by_code m

-- ForEach, with `encode` for multihash.Encode of a digest and a code.
module _ {ℓ} {A : Type ℓ} (encode : Bytes → ℕ → Result Bytes)
    (f : Bytes → ℕ → A → Option Error × A) where
  unfoldable pub coded_for_each : MultiWidthCodedIndex → A → Option Error × A
  coded_for_each c a =
      multi_for_each_digest
        (λ digest offset b. elim (encode digest c.code) [
          | err e ↦ (some e, b)
          | ok mh ↦ f mh offset b
        ])
        c.multi a

  unfoldable pub for_each_code : MultihashIndexSorted → List ℕ → A → Option Error × A
  for_each_code m [] a = (none, a)
  for_each_code m (code ∷ codes) a =
      let (failed, a') = coded_for_each (coded_at m code) a in
      let rest = for_each_code m codes a' in elim failed [ some e ↦ (some e, a') | none ↦ rest ]

  unfoldable pub multihash_for_each : MultihashIndexSorted → A → Option Error × A
  multihash_for_each m a = for_each_code m (sort_keys (keys m)) a
