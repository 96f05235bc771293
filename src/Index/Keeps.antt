-- ===== src/Index/Keeps.antt =====
-- What every write of a writer keeps, WriteTo of an index keeps.
use go_car.Prelude.{ℕ, ◌+◌, ◌≡◌, List, [], ◌∷◌, arith, none, inl, inr}
use go_car.Prelude.{length, Option-cases}
use go_car.Prelude.Assoc.{keys, sort_keys}
use go_car.Bytes.{Bytes, le_bytes}
use go_car.Stream.{Sink}
use go_car.Varint.{Varint}
use go_car.Index.Single.{SingleWidthIndex, single_marshal}
use go_car.Index.Multi.{MultiWidthIndex, bucket, marshal_buckets, multi_marshal}
use go_car.Index.Multihash.{
  MultiWidthCodedIndex, MultihashIndexSorted, coded_at, coded_marshal, marshal_codes,
  multihash_marshal, sorted_multihash_codes,
}
use go_car.Index.Codec.{Codecs, Index, sorted, multihash_sorted, index_marshal, write_to, codec}

module _ {ℓ κ} {S : Type ℓ} (k : Sink S) (P : S → Type κ)
    (keeps : (p : Bytes) (s : S) → P s → P (k.write p s).state) where
  single_marshal-keeps : (s : SingleWidthIndex) (st : S) → P st → P (single_marshal k s st).state
  unfolding single_marshal
  single_marshal-keeps s st h =
      let w1 = k.write (le_bytes 4 s.width) st in
      let h1 : P w1.state = keeps (le_bytes 4 s.width) st h in
      let w2 = k.write (le_bytes 8 (length s.index)) w1.state in
      let h2 : P w2.state = keeps (le_bytes 8 (length s.index)) w1.state h1 in
      elim (Option-cases w1.error) [
        | inr (e, p) ↦ rw (p, single_marshal) h1
        | inl p ↦ elim (Option-cases w2.error) [
          | inr (e, q) ↦ rw (p, q, single_marshal) h2
          | inl q ↦ rw (p, q, single_marshal) (keeps s.index w2.state h2)
        ]
      ]

  marshal_buckets-keeps :
      (m : MultiWidthIndex) (widths : List ℕ) (l : ℕ) (st : S)
      → P st
      → P (marshal_buckets k m widths l st).state
  unfolding marshal_buckets
  marshal_buckets-keeps m [] l st h = h
  marshal_buckets-keeps m (width ∷ widths) l st h =
      let w = single_marshal k (bucket m width) st in
      let h1 : P w.state = single_marshal-keeps (bucket m width) st h in
      elim (Option-cases w.error) [
        | inr (e, p) ↦ rw (p, marshal_buckets) h1
        | inl p ↦ rw (p, marshal_buckets) (marshal_buckets-keeps m widths (l + w.count) w.state h1)
      ]

  multi_marshal-keeps : (m : MultiWidthIndex) (st : S) → P st → P (multi_marshal k m st).state
  unfolding multi_marshal
  multi_marshal-keeps m st h =
      let w = k.write (le_bytes 4 (length m)) st in
      let h1 : P w.state = keeps (le_bytes 4 (length m)) st h in
      elim (Option-cases w.error) [
        | inr (e, p) ↦ rw (p, multi_marshal) h1
        | inl p ↦ rw (p, multi_marshal) (marshal_buckets-keeps m (sort_keys (keys m)) 4 w.state h1)
      ]

  coded_marshal-keeps : (c : MultiWidthCodedIndex) (st : S) → P st → P (coded_marshal k c st).state
  unfolding coded_marshal
  coded_marshal-keeps c st h =
      let w = k.write (le_bytes 8 c.code) st in
      let h1 : P w.state = keeps (le_bytes 8 c.code) st h in
      elim (Option-cases w.error) [
        | inr (e, p) ↦ rw (p, coded_marshal) h1
        | inl p ↦ rw (p, coded_marshal) (multi_marshal-keeps c.multi w.state h1)
      ]

  marshal_codes-keeps :
      (m : MultihashIndexSorted) (codes : List ℕ) (l : ℕ) (st : S)
      → P st
      → P (marshal_codes k m codes l st).state
  unfolding marshal_codes
  marshal_codes-keeps m [] l st h = h
  marshal_codes-keeps m (code ∷ codes) l st h =
      let w = coded_marshal k (coded_at m code) st in
      let h1 : P w.state = coded_marshal-keeps (coded_at m code) st h in
      elim (Option-cases w.error) [
        | inr (e, p) ↦ rw (p, marshal_codes) h1
        | inl p ↦ rw (p, marshal_codes) (marshal_codes-keeps m codes (l + w.count) w.state h1)
      ]

  index_marshal-keeps : (idx : Index) (st : S) → P st → P (index_marshal k idx st).state
  unfolding index_marshal multihash_marshal
  index_marshal-keeps (sorted m) st h = multi_marshal-keeps m st h
  index_marshal-keeps (multihash_sorted m) st h =
      let w = k.write (le_bytes 4 (length m)) st in
      let h1 : P w.state = keeps (le_bytes 4 (length m)) st h in
      elim (Option-cases w.error) [
        | inr (e, p) ↦ rw (p, index_marshal, multihash_marshal) h1
        | inl p ↦
            rw (p, index_marshal, multihash_marshal)
              (marshal_codes-keeps m (sorted_multihash_codes m) 4 w.state h1)
      ]

  -- What the first write of WriteTo brings about, and every write keeps, holds after it.
  pub write_to-first :
      (codecs : Codecs) (v : Varint) (idx : Index) (st : S)
      → let code = v.put (codec codecs idx) in
        ((k.write code st).error ≡ none → P (k.write code st).state)
        → (write_to codecs v k idx st).error ≡ none
        → P (write_to codecs v k idx st).state
  unfolding write_to
  write_to-first codecs v idx st first e =
      let w = k.write (v.put (codec codecs idx)) st in
      elim (Option-cases w.error) [
        | inr (x, p) ↦ absurd (ground (arith, p, e))
        | inl p ↦ rw (p, write_to) (index_marshal-keeps idx w.state (first p))
      ]
