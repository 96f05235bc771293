-- ===== src/IndexGen/Total.antt =====
-- LoadIndex ends on every stream.
use go_car.Prelude.{
  ℕ, zero, suc, ◌-◌, ◌<◌, ◌≡◌, ◌≢◌, refl, inl, inr, arith, List, [], ◌⊎◌, none, some, drop,
}
use go_car.Prelude.{length, Option-cases, length-drop}
use go_car.Bytes.{Bytes}
use go_car.Stream.{Result, ok, err}
use go_car.Varint.{Varint, VarintLaws}
use go_car.Cids.{CidLib}
use go_car.Header.{zero_header, read_header}
use go_car.Carv1.{Cbor, read_car_header}
use go_car.Index.{Record}
use go_car.Index.Single.{DigestRecord}
use go_car.Index.Codec.{Index, index_load}
use go_car.Options.{Options}
use go_car.IndexGen.{
  Round, finished, continued, read_section, read_records, records_behind, records_v2, records_of,
  load_index,
}

Round-cases :
    {Cid : Type 0} (r : Round Cid)
    → ((end : Result (List (Record Cid))) × (r ≡ finished end))
      ⊎ ((go : ℕ × ℕ × List (Record Cid)) × (r ≡ continued go.0 go.1 go.2))
Round-cases (finished end) = inl (end, refl)
Round-cases (continued offset pos records) = inr ((offset, pos, records), refl)

module _ {Cid : Type 0} (v : Varint) (laws : VarintLaws v) (lib : CidLib Cid) (identity : ℕ)
    (o : Options) where
  -- A round that goes on leaves a position behind the old one.
  read_section_forward :
      (src : Bytes) (data_offset data_size section_offset pos offset' pos' : ℕ)
      (records records' : List (Record Cid))
      → read_section v lib identity o src data_offset data_size
          (v.read (drop pos src))
          section_offset
          records
        ≡ continued offset' pos' records'
      → length src - pos' < length src - pos
  unfolding read_section
  read_section_forward src data_offset data_size section_offset pos offset' pos' records records'
        e =
      ground (arith, laws.read_shorter (drop pos src), length-drop pos src)

  read_records_total :
      (src : Bytes) (data_offset data_size fuel section_offset pos : ℕ)
      (records : List (Record Cid))
      → length src - pos < fuel
      → read_records v lib identity o src data_offset data_size fuel section_offset pos records
        ≢ none
  unfolding read_records
  read_records_total src data_offset data_size zero section_offset pos records h e =
      omega (arith, h)
  read_records_total src data_offset data_size (suc fuel) section_offset pos records h e =
      let l = v.read (drop pos src) in
      elim (Round-cases
        (read_section v lib identity o src data_offset data_size l section_offset records)) [
          | inl (r, p) ↦ ground (arith, p, e)
          | inr ((offset', pos', records'), p) ↦
              let forward : _ =
                read_section_forward src data_offset data_size section_offset pos offset' pos'
                  records records' p in
              ground (
                arith,
                p,
                e,
                read_records_total src data_offset data_size fuel offset' pos' records'
                    (omega (arith, forward, h)),
              )
        ]

  records_behind_total :
      (src rest : Bytes) (data_offset data_size : ℕ)
      → records_behind v lib identity o src data_offset data_size rest ≢ none
  unfolding records_behind
  records_behind_total src rest data_offset data_size =
      let pos = length src - length rest in
      read_records_total src data_offset data_size (suc (length src)) (pos - data_offset) pos []
        (omega arith)

  module _ (cbor : Cbor Cid) (src : Bytes) where
    records_v2_total : (rest : Bytes) → records_v2 v lib identity o cbor src rest ≢ none
    unfolding records_v2
    records_v2_total rest e =
        let v2h = read_header zero_header rest in
        let behind =
          read_car_header v cbor o.max_allowed_header_size (drop v2h.value.data_offset src) in
        ground
          (arith, e, records_behind_total src behind.1 v2h.value.data_offset v2h.value.data_size)

    records_of_total : records_of v lib identity o cbor src ≢ none
    unfolding records_of
    records_of_total e =
        let rest = (read_car_header v cbor o.max_allowed_header_size src).1 in
        ground (arith, e, records_behind_total src rest 0 0, records_v2_total rest)

    -- LoadIndex returns on every stream, with an index or with an error: its loop never runs out
    -- of rounds.
    pub load_index_total :
        (sort : List DigestRecord → List DigestRecord) (idx : Index)
        → (r : Result Index) × (load_index v lib identity o cbor src sort idx ≡ some r)
    unfolding load_index
    load_index_total sort idx = elim (Option-cases (records_of v lib identity o cbor src)) [
      | inl p ↦ absurd (records_of_total p)
      | inr (err e, p) ↦ (err e, rw (p, load_index) refl)
      | inr (ok records, p) ↦ (index_load lib sort records idx, rw (p, load_index) refl)
    ]
