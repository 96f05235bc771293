-- ===== src/Index/Multihash/RoundTrip.antt =====
-- MultihashIndexSorted: Unmarshal of what Marshal wrote answers every GetAll the same.
use go_car.Prelude.{
  ℕ, ◌+◌, ◌-◌, ◌*◌, ◌<◌, ◌≤◌, ◌^◌, ◌≡◌, refl, sym, ◌∙◌, ap, inl, inr, arith, List, [], ◌∷◌, ◌++◌,
  append_assoc, append-nil, Option, none, some,
}
use go_car.Prelude.{length, length-append, Bool, true, Bool-cases, Option-cases}
use go_car.Prelude.Assoc.{
  lookup, insert, keys, sort_keys, elem, lookup-keys-none, lookup-keys-some, length-sort_keys,
  length-keys,
}
use go_car.Prelude.Assoc.Rebuild.{rebuild, lookup-rebuild_keys, AllKeys, sorted-AllKeys}
use go_car.Bytes.{Bytes, le_bytes}
use go_car.Bytes.RoundTrip.{length-le_bytes}
use native.Mathlib.Nat.{mul-le-mul_right}
use go_car.Stream.{ok, Result-cases, Sink, Appends}
use go_car.Cids.{CidLib}
use go_car.Header.{u64}
use go_car.Index.Single.Serial.{read_number-append}
use go_car.Index.Multi.RoundTrip.{
  multi_bytes, IsKeyed, normal, multi_marshal-Appends, multi_unmarshal-normal, multi_get_all-normal,
}
use go_car.Index.Multihash.{
  MultiWidthCodedIndex, MultihashIndexSorted, coded_marshal, coded_unmarshal, coded_at,
  sorted_multihash_codes, marshal_codes, multihash_marshal, put, unmarshal_codes,
  multihash_unmarshal, get, multihash_get_all,
}

abbrev pub coded_bytes : MultiWidthCodedIndex → Bytes
coded_bytes c = le_bytes 8 c.code ++ multi_bytes c.multi

abbrev pub codes_bytes : MultihashIndexSorted → List ℕ → Bytes
codes_bytes m [] = []
codes_bytes m (code ∷ codes) = coded_bytes (coded_at m code) ++ codes_bytes m codes

-- The number of codes, and the indexes by ascending code.
abbrev pub multihash_bytes : MultihashIndexSorted → Bytes
multihash_bytes m = le_bytes 4 (length m) ++ codes_bytes m (sort_keys (keys m))

-- Each index stands under its own code, is keyed, and has at most `most` widths.
pub record IsCoded (most : ℕ) (m : MultihashIndexSorted) : Type 0 where
  pub at_code :
      (k : ℕ) (c : MultiWidthCodedIndex)
      → lookup k m ≡ some c
      → (c.code ≡ k) × (k < u64) × IsKeyed c.multi × (length c.multi ≤ most)

module _ {ℓ} {S : Type ℓ} (k : Sink S) (content : S → Bytes) where
  coded_marshal-Appends :
      (c : MultiWidthCodedIndex) (st : S)
      → Appends k content
      → (coded_marshal k c st).error ≡ none
      → (content (coded_marshal k c st).state ≡ content st ++ coded_bytes c)
        × ((coded_marshal k c st).count ≡ length (coded_bytes c))
  unfolding coded_marshal
  coded_marshal-Appends c st law e = ground (
    arith,
    law.all_written (le_bytes 8 c.code) st,
    multi_marshal-Appends k content c.multi (k.write (le_bytes 8 c.code) st).state law,
    append_assoc (content st) (le_bytes 8 c.code) (multi_bytes c.multi),
    length-append (le_bytes 8 c.code) (multi_bytes c.multi),
    length-le_bytes 8 c.code,
  )

  marshal_codes-Appends :
      (m : MultihashIndexSorted) (codes : List ℕ) (l : ℕ) (st : S)
      → Appends k content
      → (marshal_codes k m codes l st).error ≡ none
      → (content (marshal_codes k m codes l st).state ≡ content st ++ codes_bytes m codes)
        × ((marshal_codes k m codes l st).count ≡ l + length (codes_bytes m codes))
  unfolding marshal_codes
  marshal_codes-Appends m [] l st law e = (sym (append-nil (content st)), omega arith)
  marshal_codes-Appends m (code ∷ codes) l st law e =
      let first = coded_marshal k (coded_at m code) st in
      ground (
        arith,
        coded_marshal-Appends (coded_at m code) st law,
        marshal_codes-Appends m codes (l + first.count) first.state law,
        append_assoc (content st) (coded_bytes (coded_at m code)) (codes_bytes m codes),
        length-append (coded_bytes (coded_at m code)) (codes_bytes m codes),
      )

  -- Marshal without an error leaves the serial form, its indexes by ascending code, behind what
  -- the writer held, and counts its bytes.
  pub multihash_marshal-Appends :
      (m : MultihashIndexSorted) (st : S)
      → Appends k content
      → (multihash_marshal k m st).error ≡ none
      → (content (multihash_marshal k m st).state ≡ content st ++ multihash_bytes m)
        × ((multihash_marshal k m st).count ≡ length (multihash_bytes m))
  unfolding multihash_marshal sorted_multihash_codes
  multihash_marshal-Appends m st law e =
      let codes = sort_keys (keys m) in
      ground (
        arith,
        law.all_written (le_bytes 4 (length m)) st,
        marshal_codes-Appends m codes 4 (k.write (le_bytes 4 (length m)) st).state law,
        append_assoc (content st) (le_bytes 4 (length m)) (codes_bytes m codes),
        length-append (le_bytes 4 (length m)) (codes_bytes m codes),
        length-le_bytes 4 (length m),
      )

-- An index as it is read back.
unfoldable normal_coded : MultiWidthCodedIndex → MultiWidthCodedIndex
normal_coded c = record c { multi = normal c.multi }

coded_unmarshal-coded_bytes :
    (start : ℕ) (c : MultiWidthCodedIndex) (rest : Bytes)
    → c.code < u64
    → IsKeyed c.multi
    → length c.multi < 2 ^ 31
    → (length c.multi + 1) * (start + length (coded_bytes c ++ rest)) < 2 ^ 63
    → coded_unmarshal start (coded_bytes c ++ rest) ≡ ok (normal_coded c, rest)
unfolding coded_unmarshal normal_coded
coded_unmarshal-coded_bytes start c rest small keyed few fits =
    let inner = multi_bytes c.multi ++ rest in
    let count : length (le_bytes 8 c.code ++ inner) ≡ 8 + length inner =
      length-append (le_bytes 8 c.code) inner
      ∙ ap (λ n. n + length inner) (length-le_bytes 8 c.code) in
    let assoc : _ = append_assoc (le_bytes 8 c.code) (multi_bytes c.multi) rest in
    let same : start + length (coded_bytes c ++ rest) ≡ start + 8 + length inner =
      omega (arith, count, ap length assoc) in
    let fits' : (length c.multi + 1) * (start + 8 + length inner) < 2 ^ 63 = rw same at fits in
    ground (
      arith,
      assoc,
      count,
      read_number-append 8 c.code inner,
      multi_unmarshal-normal (start + 8) c.multi rest keyed few fits',
    )

coded_at-IsCoded :
    (most : ℕ) (m : MultihashIndexSorted) (k : ℕ)
    → IsCoded most m
    → elem k (keys m) ≡ true
    → ((coded_at m k).code ≡ k)
      × (k < u64)
      × IsKeyed (coded_at m k).multi
      × (length (coded_at m k).multi ≤ most)
unfolding coded_at
coded_at-IsCoded most m k coded h =
    let (c, p) = lookup-keys-some k m h in rw (p, coded_at) (coded.at_code k c p)

fits_less : (n most stop : ℕ) → n ≤ most → (most + 1) * stop < 2 ^ 63 → (n + 1) * stop < 2 ^ 63
fits_less n most stop le fits =
    let step : n + 1 ≤ most + 1 = omega arith in
    let scaled : (n + 1) * stop ≤ (most + 1) * stop = mul-le-mul_right stop step in
    omega (arith, scaled)

unmarshal_codes-rebuild :
    (most : ℕ) (m : MultihashIndexSorted) (codes : List ℕ) (stop sum : ℕ) (rest : Bytes)
    (acc : MultihashIndexSorted)
    → IsCoded most m
    → AllKeys m codes
    → most < 2 ^ 31
    → (most + 1) * stop < 2 ^ 63
    → length (codes_bytes m codes ++ rest) ≤ stop
    → sum + length codes * stop < 2 ^ 63
    → unmarshal_codes (length codes) stop sum (codes_bytes m codes ++ rest) acc
      ≡ ok (rebuild (λ k. normal_coded (coded_at m k)) codes acc, rest)
unfolding unmarshal_codes put
unmarshal_codes-rebuild most m [] stop sum rest acc coded all few wide inside fits = refl
unmarshal_codes-rebuild most m (k ∷ ks) stop sum rest acc coded all few wide inside fits =
    let (same, small, keyed, bound) = coded_at-IsCoded most m k coded all.0 in
    let c = coded_at m k in
    let tail = codes_bytes m ks ++ rest in
    let assoc : _ = append_assoc (coded_bytes c) (codes_bytes m ks) rest in
    let start = stop - length (coded_bytes c ++ tail) in
    let long : length (coded_bytes c ++ tail) ≤ stop = rw assoc at inside in
    let end : start + length (coded_bytes c ++ tail) ≡ stop = omega arith in
    let room : _ = fits_less (length c.multi) most stop bound wide in
    let head : coded_unmarshal start (coded_bytes c ++ tail) ≡ ok (normal_coded c, tail) =
      coded_unmarshal-coded_bytes start c tail (omega (arith, same)) keyed (omega arith)
        (rw end room) in
    let n = stop - length tail in
    let shorter : length tail ≤ stop = omega (arith, length-append (coded_bytes c) tail) in
    let later : _ =
      unmarshal_codes-rebuild most m ks stop (sum + n) rest (insert k (normal_coded c) acc) coded
        all.1 few wide shorter (omega arith) in
    let code : (normal_coded c).code ≡ k = unfold normal_coded in same in
    ground (arith, assoc, head, later, code)

-- The map as it is read back, and what it answers for a code.
unfoldable read_back : MultihashIndexSorted → MultihashIndexSorted
read_back m = rebuild (λ j. normal_coded (coded_at m j)) (sort_keys (keys m)) []

abbrev normal_option : Option MultiWidthCodedIndex → Option MultiWidthCodedIndex
normal_option none = none
normal_option (some c) = some (normal_coded c)

lookup-read_back :
    (m : MultihashIndexSorted) (k : ℕ) → lookup k (read_back m) ≡ normal_option (lookup k m)
unfolding coded_at read_back
lookup-read_back m k =
    let at : ℕ → MultiWidthCodedIndex = λ j. normal_coded (coded_at m j) in
    elim (Bool-cases (elem k (keys m))) [
      | inl p ↦
          let (c, q) = lookup-keys-some k m p in ground (arith, lookup-rebuild_keys at (keys m) k)
      | inr p ↦ ground (arith, lookup-rebuild_keys at (keys m) k, lookup-keys-none k m p)
    ]

multihash_get_all-read_back {ℓ} :
    {Cid : Type 0} (lib : CidLib Cid) {A : Type ℓ} (c : Cid) (fn : ℕ → A → Bool × A) (a : A)
    (m : MultihashIndexSorted)
    → multihash_get_all lib (read_back m) c fn a ≡ multihash_get_all lib m c fn a
unfolding multihash_get_all get normal_coded
multihash_get_all-read_back lib c fn a m = elim (Result-cases (lib.decode (lib.hash c))) [
  | inl (e, p) ↦ ground arith
  | inr (d, p) ↦
      let back : _ = lookup-read_back m d.code in
      elim (Option-cases (lookup d.code m)) [
        | inl q ↦ ground (arith, back)
        | inr (coded, q) ↦ ground (arith, back, multi_get_all-normal lib c fn a coded.multi)
      ]
]

-- Unmarshal of a marshalled multihash index succeeds, leaves what follows it, and gives an index
-- whose GetAll answers every CID as that of the one that was marshalled. Each index of it stands
-- under its own code, a uint64; each bucket stands under its own width, which is 8 bytes to 32
-- MiB, holds fewer than 2^63 bytes, and has as many items as its bytes hold widths; the numbers of
-- codes and of widths are below 2^31, and the sums of the positions behind them fit an int64.
pub multihash_unmarshal-multihash_bytes :
    (most start : ℕ) (m : MultihashIndexSorted) (rest : Bytes)
    → IsCoded most m
    → length m ≤ most
    → most < 2 ^ 31
    → (most + 1) * (start + length (multihash_bytes m ++ rest)) < 2 ^ 63
    → (m' : MultihashIndexSorted) × (multihash_unmarshal start [] (multihash_bytes m ++ rest)
        ≡ ok (m', rest))
      × ((Cid A : Type 0) (lib : CidLib Cid) (c : Cid) (fn : ℕ → A → Bool × A) (a : A)
          → multihash_get_all lib m' c fn a ≡ multihash_get_all lib m c fn a)
unfolding multihash_unmarshal read_back
multihash_unmarshal-multihash_bytes most start m rest coded few small wide =
    let codes = sort_keys (keys m) in
    let stop = start + length (multihash_bytes m ++ rest) in
    let count : length codes ≡ length m = length-sort_keys (keys m) ∙ length-keys m in
    let assoc : _ = append_assoc (le_bytes 4 (length m)) (codes_bytes m codes) rest in
    let size : _ = length-append (le_bytes 4 (length m)) (codes_bytes m codes ++ rest) in
    let long : length (multihash_bytes m ++ rest) ≡ 4 + length (codes_bytes m codes ++ rest) =
      omega (arith, ap length assoc, size, length-le_bytes 4 (length m)) in
    let room : _ = fits_less (length m) most stop few wide in
    let fits : start + 4 + length codes * stop < 2 ^ 63 = rw count (omega (arith, long, room)) in
    let loop : _ =
      unmarshal_codes-rebuild most m codes stop (start + 4) rest [] coded (sorted-AllKeys m) small
        wide (omega (arith, long)) fits in
    (
      read_back m,
      ground (
        arith,
        assoc,
        long,
        length-le_bytes 4 (length m),
        read_number-append 4 (length m) (codes_bytes m codes ++ rest),
        rw count at loop,
      ),
      λ Cid A lib c fn a. multihash_get_all-read_back lib c fn a m,
    )
