-- ===== src/Index/Multi/RoundTrip.antt =====
-- multiWidthIndex: Unmarshal of what Marshal wrote has the same buckets.
use go_car.Prelude.{
  ℕ, ◌+◌, ◌-◌, ◌*◌, ◌%◌, ◌<◌, ◌^◌, ◌≡◌, refl, sym, ◌∙◌, inl, inr, arith, List, [], ◌∷◌, ◌++◌,
  append_assoc, append-nil, none, some,
}
use go_car.Prelude.{length, length-append, Bool, true}
use go_car.Prelude.Assoc.{
  lookup, insert, keys, sort_keys, elem, lookup-keys-some, length-sort_keys, length-keys,
}
use go_car.Prelude.Assoc.Rebuild.{rebuild, lookup-rebuild_all, AllKeys, sorted-AllKeys}
use go_car.Bytes.{Bytes, le_bytes}
use go_car.Bytes.RoundTrip.{length-le_bytes}
use go_car.Stream.{Result-cases, ok, Sink, Appends}
use go_car.Cids.{CidLib}
use go_car.Index.Single.{SingleWidthIndex, single_marshal}
use go_car.Index.Single.Serial.{
  single_bytes, IsMarshalable, single_marshal-Appends, single_unmarshal-single_bytes,
  read_number-append,
}
use go_car.Index.Multi.{
  MultiWidthIndex, u32, multi_get_all, bucket, marshal_buckets, multi_marshal, unmarshal_buckets,
  multi_unmarshal,
}

abbrev pub buckets_bytes : MultiWidthIndex → List ℕ → Bytes
buckets_bytes m [] = []
buckets_bytes m (k ∷ ks) = single_bytes (bucket m k) ++ buckets_bytes m ks

-- The number of buckets, and the buckets by ascending width.
abbrev pub multi_bytes : MultiWidthIndex → Bytes
multi_bytes m = le_bytes 4 (length m) ++ buckets_bytes m (sort_keys (keys m))

-- Each bucket stands under its own width, and can be marshalled.
pub record IsKeyed (m : MultiWidthIndex) : Type 0 where
  pub at_key :
      (k : ℕ) (s : SingleWidthIndex) → lookup k m ≡ some s → (s.width ≡ k) × IsMarshalable s

marshal_buckets-Appends {ℓ} :
    {S : Type ℓ} (k : Sink S) (content : S → Bytes) (m : MultiWidthIndex) (ks : List ℕ) (l : ℕ)
    (st : S)
    → Appends k content
    → (marshal_buckets k m ks l st).error ≡ none
    → (content (marshal_buckets k m ks l st).state ≡ content st ++ buckets_bytes m ks)
      × ((marshal_buckets k m ks l st).count ≡ l + length (buckets_bytes m ks))
unfolding marshal_buckets
marshal_buckets-Appends k content m [] l st law e = (sym (append-nil (content st)), omega arith)
marshal_buckets-Appends k content m (w ∷ ks) l st law e =
    let first = single_marshal k (bucket m w) st in
    ground (
      arith,
      single_marshal-Appends k content (bucket m w) st law,
      marshal_buckets-Appends k content m ks (l + first.count) first.state law,
      append_assoc (content st) (single_bytes (bucket m w)) (buckets_bytes m ks),
      length-append (single_bytes (bucket m w)) (buckets_bytes m ks),
    )

-- Marshal without an error leaves the serial form behind what the writer held, and counts it.
pub multi_marshal-Appends {ℓ} :
    {S : Type ℓ} (k : Sink S) (content : S → Bytes) (m : MultiWidthIndex) (st : S)
    → Appends k content
    → (multi_marshal k m st).error ≡ none
    → (content (multi_marshal k m st).state ≡ content st ++ multi_bytes m)
      × ((multi_marshal k m st).count ≡ length (multi_bytes m))
unfolding multi_marshal
multi_marshal-Appends k content m st law e =
    let ks = sort_keys (keys m) in
    let first = k.write (le_bytes 4 (length m)) st in
    ground (
      arith,
      law.all_written (le_bytes 4 (length m)) st,
      marshal_buckets-Appends k content m ks 4 first.state law,
      append_assoc (content st) (le_bytes 4 (length m)) (buckets_bytes m ks),
      length-append (le_bytes 4 (length m)) (buckets_bytes m ks),
      length-le_bytes 4 (length m),
    )

-- The index with its buckets in the order in which they are marshalled.
unfoldable pub normal : MultiWidthIndex → MultiWidthIndex
normal m = rebuild (bucket m) (sort_keys (keys m)) []

pub lookup-normal : (m : MultiWidthIndex) (j : ℕ) → lookup j (normal m) ≡ lookup j m
unfolding normal bucket
lookup-normal m j = lookup-rebuild_all (bucket m) m (λ k s p. rw (p, bucket) refl) j

bucket-IsMarshalable :
    (m : MultiWidthIndex) (k : ℕ)
    → IsKeyed m
    → elem k (keys m) ≡ true
    → ((bucket m k).width ≡ k) × IsMarshalable (bucket m k)
unfolding bucket
bucket-IsMarshalable m k keyed h =
    let (s, p) = lookup-keys-some k m h in rw (p, bucket) (keyed.at_key k s p)

unmarshal_buckets-rebuild :
    (m : MultiWidthIndex) (ks : List ℕ) (stop sum : ℕ) (rest : Bytes) (acc : MultiWidthIndex)
    → IsKeyed m
    → AllKeys m ks
    → sum + length ks * stop < 2 ^ 63
    → unmarshal_buckets (length ks) stop sum (buckets_bytes m ks ++ rest) acc
      ≡ ok (rebuild (bucket m) ks acc, rest)
unfolding unmarshal_buckets
unmarshal_buckets-rebuild m [] stop sum rest acc keyed all fits = refl
unmarshal_buckets-rebuild m (k ∷ ks) stop sum rest acc keyed all fits =
    let (width, good) = bucket-IsMarshalable m k keyed all.0 in
    let tail = buckets_bytes m ks ++ rest in
    let n = stop - length tail in
    ground (
      arith,
      append_assoc (single_bytes (bucket m k)) (buckets_bytes m ks) rest,
      single_unmarshal-single_bytes (bucket m k) tail good,
      unmarshal_buckets-rebuild m ks stop (sum + n) rest (insert k (bucket m k) acc) keyed all.1,
    )

pub multi_unmarshal-normal :
    (start : ℕ) (m : MultiWidthIndex) (rest : Bytes)
    → IsKeyed m
    → length m < 2 ^ 31
    → (length m + 1) * (start + length (multi_bytes m ++ rest)) < 2 ^ 63
    → multi_unmarshal start [] (multi_bytes m ++ rest) ≡ ok (normal m, rest)
unfolding multi_unmarshal normal
multi_unmarshal-normal start m rest keyed few fits =
    let ks = sort_keys (keys m) in
    let stop = start + length (multi_bytes m ++ rest) in
    let count : length ks ≡ length m = length-sort_keys (keys m) ∙ length-keys m in
    ground (
      arith,
      append_assoc (le_bytes 4 (length m)) (buckets_bytes m ks) rest,
      length-append (le_bytes 4 (length m)) (buckets_bytes m ks ++ rest),
      length-le_bytes 4 (length m),
      read_number-append 4 (length m) (buckets_bytes m ks ++ rest),
      rw count at
          (unmarshal_buckets-rebuild m ks stop (start + 4) rest [] keyed (sorted-AllKeys m)),
    )

-- GetAll does not depend on the order of the buckets.
pub multi_get_all-normal {ℓ} :
    {Cid : Type 0} (lib : CidLib Cid) {A : Type ℓ} (c : Cid) (fn : ℕ → A → Bool × A) (a : A)
    (m : MultiWidthIndex)
    → multi_get_all lib (normal m) c fn a ≡ multi_get_all lib m c fn a
unfolding multi_get_all
multi_get_all-normal lib c fn a m = elim (Result-cases (lib.decode (lib.hash c))) [
  | inl (e, p) ↦ ground arith
  | inr (d, p) ↦ ground (arith, lookup-normal m ((length d.digest + 8) % u32))
]

-- Unmarshal of a marshalled index succeeds, leaves what follows it, and gives an index that
-- answers each width as the one that was marshalled; if there are fewer than 2^31 buckets and the
-- sum of the positions behind them fits an int64.
pub multi_unmarshal-multi_bytes :
    (start : ℕ) (m : MultiWidthIndex) (rest : Bytes)
    → IsKeyed m
    → length m < 2 ^ 31
    → (length m + 1) * (start + length (multi_bytes m ++ rest)) < 2 ^ 63
    → (m' : MultiWidthIndex) × (multi_unmarshal start [] (multi_bytes m ++ rest) ≡ ok (m', rest))
      × ((k : ℕ) → lookup k m' ≡ lookup k m)
multi_unmarshal-multi_bytes start m rest keyed few fits =
    (normal m, multi_unmarshal-normal start m rest keyed few fits, lookup-normal m)
