-- ===== src/IndexGen.antt =====
-- v2/index_gen.go: the index of the sections of a CARv1, or of the payload in a CARv2.
-- The reader is taken for one that can seek over a stream in memory: `pos` is its position in the
-- whole stream `src`, and a seek fails where the position passes the range of an int64.
pub mod Section
pub mod Sections
pub mod Total
use go_car.Prelude.{
  ℕ, zero, suc, ◌+◌, ◌-◌, ◌^◌, List, [], ◌∷◌, ◌++◌, Option, none, some, drop, length,
}
use go_car.Prelude.{Bool, true, false, not, ltb, leb, ◌==◌, ◌&&◌, ◌||◌, if◌then◌else◌}
use go_car.Bytes.{Bytes}
use go_car.Stream.{
  Error, is_eof, null_padding, cid_too_large, offset_overflow, malformed_v2, invalid_car_version,
  Result, ok, err,
}
use go_car.Varint.{Varint, Uvarint}
use go_car.Cids.{CidLib}
use go_car.Header.{Header, HeaderRead, zero_header, read_header, header_size}
use go_car.Carv1.{CarHeader, Cbor, read_car_header}
use go_car.Index.{Record}
use go_car.Index.Single.{DigestRecord}
use go_car.Index.Codec.{Codecs, Index, new_index, index_load}
use go_car.Options.{Options}

-- How a round ends: the loop is left, or goes on with the offset and the position of the next
-- section and the records so far.
pub data Round (Cid : Type 0) : Type 0 where
  finished : Result (List (Record Cid)) → Round Cid
  continued : ℕ → ℕ → List (Record Cid) → Round Cid

module _ {Cid : Type 0} (v : Varint) (lib : CidLib Cid) (identity : ℕ) (o : Options) where
  -- `o.StoreIdentityCIDs || c.Prefix().MhType != multihash.IDENTITY`.
  unfoldable pub is_indexed : Cid → Bool
  is_indexed c = o.store_identity_cids || not (lib.mh_type c == identity)

  unfoldable pub add_record : Cid → ℕ → List (Record Cid) → List (Record Cid)
  unfolding is_indexed
  add_record c offset records =
      if is_indexed c then records ++ record { cid = c; offset = offset } ∷ [] else records

  module _ (src : Bytes) (data_offset data_size : ℕ) where
    -- One round of the loop over the sections, behind the read of a section's length.
    unfoldable pub read_section : Uvarint → ℕ → List (Record Cid) → Round Cid
    unfolding is_indexed add_record
    read_section l section_offset records = elim l.error [
      | some e ↦ finished (if is_eof e then ok records else err e)
      | none ↦ elim (l.value == 0) [
        | true ↦ finished (if o.zero_length_section_as_eof then ok records else err null_padding)
        | false ↦ elim (lib.from_reader l.rest) [
          | err e ↦ finished (err e)
          | ok (cid_len, c) ↦ elim (is_indexed c && ltb o.max_index_cid_size cid_len) [
            | true ↦ finished (err (cid_too_large o.max_index_cid_size cid_len))
            | false ↦
                let records' = add_record c section_offset records in
                let pos' = length src - length l.rest + l.value in
                let offset' = pos' - data_offset in
                elim (leb (2 ^ 63) pos') [
                  | true ↦ finished (err offset_overflow)
                  | false ↦ elim (not (data_size == 0) && leb data_size offset') [
                    | true ↦ finished (ok records')
                    | false ↦ continued offset' pos' records'
                  ]
                ]
          ]
        ]
      ]
    ]

    -- The loop; `none` means that the fuel ran out.
    unfoldable pub read_records :
        ℕ → ℕ → ℕ → List (Record Cid) → Option (Result (List (Record Cid)))
    read_records zero section_offset pos records = none
    read_records (suc fuel) section_offset pos records =
        elim (read_section (v.read (drop pos src)) section_offset records) [
          | finished r ↦ some r
          | continued offset' pos' records' ↦ read_records fuel offset' pos' records'
        ]

    -- From the end of the header on, which leaves `rest`. A byte at least is passed in each round.
    unfoldable pub records_behind : Bytes → Option (Result (List (Record Cid)))
    records_behind rest =
        let pos = length src - length rest in
        read_records (suc (length src)) (pos - data_offset) pos []

  module _ (cbor : Cbor Cid) (src : Bytes) where
    -- The case of version 2, with `rest` behind the pragma.
    unfoldable pub records_v2 : Bytes → Option (Result (List (Record Cid)))
    records_v2 rest =
        let v2h = read_header zero_header rest in
        let data_offset = v2h.value.data_offset in
        elim v2h.error [
          | some e ↦ some (err e)
          | none ↦
              if ltb data_offset header_size
              then some (err malformed_v2)
              else if ltb v2h.value.data_size 1
              then some (err malformed_v2)
              else let (header_read, behind) =
                  read_car_header v cbor o.max_allowed_header_size (drop data_offset src) in
                elim header_read [
                  | err e ↦ some (err e)
                  | ok header ↦
                      if not (header.version == 1)
                      then some (err invalid_car_version)
                      else records_behind src data_offset v2h.value.data_size behind
                ]
        ]

    unfoldable pub records_of : Option (Result (List (Record Cid)))
    records_of =
        let (header_read, rest) = read_car_header v cbor o.max_allowed_header_size src in
        elim header_read [
          | err e ↦ some (err e)
          | ok header ↦
              if header.version == 1
              then records_behind src 0 0 rest
              else if header.version == 2
              then records_v2 rest
              else some (err invalid_car_version)
        ]

    module _ (sort : List DigestRecord → List DigestRecord) where
      unfoldable pub load_index : Index → Option (Result Index)
      load_index idx = elim records_of [
        | none ↦ none
        | some read ↦ elim read [
          | err e ↦ some (err e)
          | ok records ↦ some (index_load lib sort records idx)
        ]
      ]

      unfoldable pub generate_index : Codecs → Option (Result Index)
      generate_index codecs = elim (new_index codecs o.index_codec) [
        | err e ↦ some (err e)
        | ok idx ↦ load_index idx
      ]
