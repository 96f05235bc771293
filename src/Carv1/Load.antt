-- ===== src/Carv1/Load.antt =====
-- LoadCar stores the blocks of a stream in their order, block by block or in batches.
use go_car.Prelude.{
  ℕ, zero, suc, ◌≤◌, ◌<◌, ◌≡◌, ◌≢◌, refl, inl, inr, arith, List, [], ◌∷◌, ◌++◌, append-nil,
  append_assoc, Option, none, some,
}
use go_car.Prelude.{Option-cases, length, length-append}
use go_car.Bytes.{Bytes}
use go_car.Stream.{Error, eof, Result, ok, err, Result-cases}
use go_car.Varint.{Varint, VarintLaws}
use go_car.Cids.{CidLib, CidLaws, Block}
use go_car.Carv1.{
  CarHeader, CarReader, Cbor, Store, next, load_car_slow, load_car_fast, load_car, new_car_reader,
}
use go_car.Carv1.ReadBack.{section, IsGood, next-section, next_sound}

module _ {ℓ} {Cid : Type 0} {T : Type ℓ} where
  -- Storing the blocks one after the other, until an error.
  abbrev pub put_each : (Block Cid → T → Option Error × T) → List (Block Cid) → T → Option Error × T
  put_each put [] t = (none, t)
  put_each put (b ∷ bs) t =
      let rest = put_each put bs (put b t).1 in
      elim (put b t).0 [ some e ↦ (some e, (put b t).1) | none ↦ rest ]

  -- What LoadCar answers after storing: the error, or the header.
  abbrev pub answer : CarHeader Cid → Option Error × T → Result (CarHeader Cid) × T
  answer h (none, t) = (ok h, t)
  answer h (some e, t) = (err e, t)

  put_each-append :
      (put : Block Cid → T → Option Error × T) (front bs : List (Block Cid)) (t : T)
      → put_each put (front ++ bs) t ≡ elim (put_each put front t).0 [
        | some e ↦ (some e, (put_each put front t).1)
        | none ↦ put_each put bs (put_each put front t).1
      ]
  put_each-append put [] bs t = refl
  put_each-append put (a ∷ front) bs t = ground (arith, put_each-append put front bs (put a t).1)

abbrev pub sections : {Cid : Type 0} → Varint → CidLib Cid → List (Block Cid) → Bytes
sections v lib [] = []
sections v lib (b ∷ bs) = section v lib b ++ sections v lib bs

abbrev pub AllGood : {Cid : Type 0} → CidLib Cid → ℕ → List (Block Cid) → Type 0
AllGood lib m [] = Unit
AllGood lib m (b ∷ bs) = IsGood lib m b × AllGood lib m bs

module _ {ℓ} {Cid : Type 0} {T : Type ℓ} (v : Varint) (laws : VarintLaws v) (lib : CidLib Cid)
    (cids : CidLaws lib) (put : Block Cid → T → Option Error × T) (cr : CarReader Cid)
    (tail : Bytes) (ends : (next v lib (record cr { r = tail })).0 ≡ err eof) where
  load_car_slow-sections :
      (fuel : ℕ) (bs : List (Block Cid)) (t : T)
      → AllGood lib cr.max_allowed_section_size bs
      → length bs < fuel
      → load_car_slow v lib fuel put (record cr { r = sections v lib bs ++ tail }) t
        ≡ some (answer cr.header (put_each put bs t))
  unfolding load_car_slow
  load_car_slow-sections zero bs t good f = absurd (omega arith)
  load_car_slow-sections (suc fuel) [] t good f = ground (arith, ends)
  load_car_slow-sections (suc fuel) (b ∷ bs) t good f = ground (
    arith,
    append_assoc (section v lib b) (sections v lib bs) tail,
    next-section v laws lib cids cr b (sections v lib bs ++ tail) good.0,
    load_car_slow-sections fuel bs (put b t).1 good.1,
  )

  load_car_fast-sections :
      (put_many : List (Block Cid) → T → Option Error × T)
      (many : (bs : List (Block Cid)) (t : T) → put_many bs t ≡ put_each put bs t) (fuel : ℕ)
      (bs buf : List (Block Cid)) (t : T)
      → AllGood lib cr.max_allowed_section_size bs
      → length bs < fuel
      → load_car_fast v lib fuel put_many (record cr { r = sections v lib bs ++ tail }) buf t
        ≡ some (answer cr.header (put_each put (buf ++ bs) t))
  unfolding load_car_fast
  load_car_fast-sections put_many many zero bs buf t good f = absurd (omega arith)
  load_car_fast-sections put_many many (suc fuel) [] [] t good f = ground (arith, ends)
  load_car_fast-sections put_many many (suc fuel) [] (c ∷ buf) t good f =
      ground (arith, ends, append-nil buf, many (c ∷ buf) t)
  load_car_fast-sections put_many many (suc fuel) (b ∷ bs) buf t good f =
      let full = buf ++ b ∷ [] in
      ground (
        arith,
        append_assoc (section v lib b) (sections v lib bs) tail,
        next-section v laws lib cids cr b (sections v lib bs ++ tail) good.0,
        many full t,
        append_assoc buf (b ∷ []) bs,
        put_each-append put full bs t,
        load_car_fast-sections put_many many fuel bs full t good.1,
        load_car_fast-sections put_many many fuel bs [] (put_many full t).1 good.1,
      )

module _ {Cid : Type 0} (v : Varint) (lib : CidLib Cid) (cids : CidLaws lib) where
  length-sections : (bs : List (Block Cid)) → length bs ≤ length (sections v lib bs)
  length-sections [] = omega arith
  length-sections (b ∷ bs) =
      let payload = lib.to_bytes b.cid ++ b.raw in
      omega (
        arith,
        length-sections bs,
        cids.to_bytes_pos b.cid,
        length-append (lib.to_bytes b.cid) b.raw,
        length-append (v.put (length payload)) payload,
        length-append (section v lib b) (sections v lib bs),
      )

module _ {ℓ} {Cid : Type 0} {T : Type ℓ} (v : Varint) (laws : VarintLaws v) (lib : CidLib Cid)
    (cids : CidLaws lib) where
  -- A round of the loop that finds a block leaves a shorter stream, so the loop ends.
  load_car_slow_total :
      (put : Block Cid → T → Option Error × T) (fuel : ℕ) (cr : CarReader Cid) (t : T)
      → length cr.r < fuel
      → load_car_slow v lib fuel put cr t ≢ none
  unfolding load_car_slow
  load_car_slow_total put zero cr t f = absurd (omega arith)
  load_car_slow_total put (suc fuel) cr t f = elim (Result-cases (next v lib cr).0) [
    | inl (e, p) ↦ ground arith
    | inr (b, p) ↦ ground (
      arith,
      next_sound v laws lib cr b cids p,
      load_car_slow_total put fuel (next v lib cr).1 (put b t).1,
    )
  ]

  load_car_fast_total :
      (put_many : List (Block Cid) → T → Option Error × T) (fuel : ℕ) (cr : CarReader Cid)
      (buf : List (Block Cid)) (t : T)
      → length cr.r < fuel
      → load_car_fast v lib fuel put_many cr buf t ≢ none
  unfolding load_car_fast
  load_car_fast_total put_many zero cr buf t f = absurd (omega arith)
  load_car_fast_total put_many (suc fuel) cr buf t f = elim (Result-cases (next v lib cr).0) [
    | inl (e, p) ↦ ground arith
    | inr (b, p) ↦
        let full = buf ++ b ∷ [] in
        ground (
          arith,
          next_sound v laws lib cr b cids p,
          load_car_fast_total put_many fuel (next v lib cr).1 full t,
          load_car_fast_total put_many fuel (next v lib cr).1 [] (put_many full t).1,
        )
  ]

  -- LoadCar returns on every stream and for every store.
  pub load_car_total :
      (cbor : Cbor Cid) (store : Store Cid T) (src : Bytes) (t : T)
      → load_car v lib cbor store src t ≢ none
  unfolding load_car
  load_car_total cbor store src t = elim (Result-cases (new_car_reader v cbor src)) [
    | inl (e, p) ↦ ground arith
    | inr (cr, p) ↦ elim (Option-cases store.put_many) [
      | inl q ↦ ground (arith, load_car_slow_total store.put (suc (length cr.r)) cr t)
      | inr (put_many, q) ↦ ground (arith, load_car_fast_total put_many (suc (length cr.r)) cr [] t)
    ]
  ]

  -- LoadCar on a stream that opens as a CAR and then has good sections up to where Next answers
  -- io.EOF: the header is returned and the blocks are in the store, each put in its turn; or the
  -- first error of the store is returned. A store that takes batches ends in the same state, as
  -- long as PutMany of a batch is the same as Put of its blocks in turn.
  pub load_car-sections :
      (cbor : Cbor Cid) (store : Store Cid T) (src : Bytes) (cr : CarReader Cid)
      (bs : List (Block Cid)) (tail : Bytes) (t : T)
      (many : (put_many : List (Block Cid) → T → Option Error × T)
        → store.put_many ≡ some put_many
        → (batch : List (Block Cid)) (u : T) → put_many batch u ≡ put_each store.put batch u)
      → new_car_reader v cbor src ≡ ok (record cr { r = sections v lib bs ++ tail })
      → (next v lib (record cr { r = tail })).0 ≡ err eof
      → AllGood lib cr.max_allowed_section_size bs
      → load_car v lib cbor store src t ≡ some (answer cr.header (put_each store.put bs t))
  unfolding load_car
  load_car-sections cbor store src cr bs tail t many opens ends good =
      let fuel = suc (length (sections v lib bs ++ tail)) in
      let enough : length bs < fuel =
        omega (arith, length-sections v lib cids bs, length-append (sections v lib bs) tail) in
      elim (Option-cases store.put_many) [
        | inl q ↦ ground (
          arith,
          load_car_slow-sections v laws lib cids store.put cr tail ends fuel bs t good enough,
        )
        | inr (put_many, q) ↦ ground (
          arith,
          load_car_fast-sections v laws lib cids store.put cr tail ends put_many (many put_many q)
              fuel bs [] t good enough,
        )
      ]
