-- ===== src/Reader/Inspect.antt =====
-- v2/reader.go: Reader.Inspect and its statistics.
use go_car.Prelude.{
  ℕ, zero, suc, ◌+◌, ◌-◌, ◌/◌, ◌%◌, List, [], ◌∷◌, Option, none, some, take, drop, length,
}
use go_car.Prelude.{Bool, true, false, not, ltb, ◌==◌, ◌&&◌, ◌||◌, if◌then◌else◌}
use go_car.Prelude.Int.{ℤ, negsuc}
use go_car.Prelude.Assoc.{lookup, insert}
use go_car.Bytes.{Bytes}
use go_car.Stream.{
  Error, unexpected_eof, is_eof, section_too_large, content_mismatch, short_section,
  invalid_cid_version, Result, ok, err,
}
use go_car.Varint.{Varint}
use go_car.Cids.{CidLib}
use go_car.Header.{Header, u64}
use go_car.Carv1.{Cbor, read_car_header}
use go_car.Index.Codec.{Codecs, codec, read_from}
use go_car.Options.{Options}
use go_car.Reader.{Reader, data_reader, index_reader}

-- What Inspect uses of go-cid and go-multihash besides the record CidLib.
pub record PrefixLib (Cid : Type 0) : Type 0 where
  -- cid.Prefix.Version, Codec and MhLength
  pub version : Cid → ℕ
  pub codec_of : Cid → ℕ
  pub mh_length : Cid → ℤ
  -- multihash.SumStream of a whole stream, NewCidV0 and NewCidV1
  pub sum_stream : Bytes → ℕ → ℤ → Result Bytes
  pub new_cid_v0 : Bytes → Cid
  pub new_cid_v1 : ℕ → Bytes → Cid

pub record Stats (Cid : Type 0) : Type 0 where
  pub version : ℕ
  pub header : Header
  pub roots : List Cid
  pub roots_present : Bool
  pub block_count : ℕ
  pub codec_counts : List (ℕ × ℕ)
  pub mh_type_counts : List (ℕ × ℕ)
  pub avg_cid_length : ℕ
  pub max_cid_length : ℕ
  pub min_cid_length : ℕ
  pub avg_block_length : ℕ
  pub max_block_length : ℕ
  pub min_block_length : ℕ
  pub index_codec : ℕ

-- The variables of the loop of Inspect.
pub record Scan : Type 0 where
  pub present : List Bool
  pub present_count : ℕ
  pub codecs : List (ℕ × ℕ)
  pub mh_types : List (ℕ × ℕ)
  pub count : ℕ
  pub total_cid : ℕ
  pub total_block : ℕ
  pub min_cid : ℕ
  pub max_cid : ℕ
  pub min_block : ℕ
  pub max_block : ℕ

-- `count := counts[k]; counts[k] = count + 1`.
unfoldable pub count_up : ℕ → List (ℕ × ℕ) → List (ℕ × ℕ)
count_up k counts = elim (lookup k counts) [
  | none ↦ insert k 1 counts
  | some n ↦ insert k ((n + 1) % u64) counts
]

-- The lengths of a section, at the end of a round.
unfoldable pub add_lengths : ℕ → ℕ → Scan → Scan
add_lengths cid_len block_length s = record s {
  count = (s.count + 1) % u64;
  total_cid = (s.total_cid + cid_len) % u64;
  total_block = (s.total_block + block_length) % u64;
  min_cid = if ltb cid_len s.min_cid then cid_len else s.min_cid;
  max_cid = if ltb s.max_cid cid_len then cid_len else s.max_cid;
  min_block = if ltb block_length s.min_block then block_length else s.min_block;
  max_block = if ltb s.max_block block_length then block_length else s.max_block;
}

module _ {Cid : Type 0} (lib : CidLib Cid) where
  -- The loop over the roots for one CID.
  unfoldable pub mark_roots : Cid → List Cid → List Bool → ℕ → List Bool × ℕ
  mark_roots c (r ∷ rs) (p ∷ ps) n =
      let found = not p && lib.equals c r in
      let (marked, m) = mark_roots c rs ps (if found then n + 1 else n) in
      ((p || found) ∷ marked, m)
  mark_roots c _ _ n = ([], n)

  unfoldable pub see_root : Cid → List Cid → Scan → Scan
  unfolding mark_roots
  see_root c roots s =
      let (marked, n) = mark_roots c roots s.present s.present_count in
      if ltb s.present_count (length roots)
      then record s { present = marked; present_count = n }
      else s

abbrev none_present : {Cid : Type 0} → List Cid → List Bool
none_present [] = []
none_present (r ∷ rs) = false ∷ none_present rs

abbrev pub start_scan : {Cid : Type 0} → List Cid → Scan
start_scan roots = record {
  present = none_present roots;
  present_count = 0;
  codecs = [];
  mh_types = [];
  count = 0;
  total_cid = 0;
  total_block = 0;
  min_cid = u64 - 1;
  max_cid = 0;
  min_block = u64 - 1;
  max_block = 0;
}

module _ {Cid : Type 0} (v : Varint) (cbor : Cbor Cid) (lib : CidLib Cid) where
  module _ (prefixes : PrefixLib Cid) (identity : ℕ) where
    -- The hash of a block, and the CID that it makes.
    unfoldable pub validate_block : Cid → Bytes → Option Error
    validate_block c raw =
        let mhl = if lib.mh_type c == identity then negsuc 0 else prefixes.mh_length c in
        elim (prefixes.sum_stream raw (lib.mh_type c) mhl) [
          | err e ↦ some e
          | ok mh ↦
              if not (prefixes.version c == 0) && not (prefixes.version c == 1)
              then some invalid_cid_version
              else let got =
                  if prefixes.version c == 0
                  then prefixes.new_cid_v0 mh
                  else prefixes.new_cid_v1 (prefixes.codec_of c) mh in
                if lib.equals got c then none else some content_mismatch
        ]

    -- The loop of Inspect over the sections. `none` means that the fuel ran out.
    unfoldable pub inspect_sections :
        Bool → Options → List Cid → ℕ → Bytes → Scan → Option (Result Scan)
    unfolding validate_block
    inspect_sections validate o roots zero src s = none
    inspect_sections validate o roots (suc fuel) src s =
        let l = v.read src in
        elim l.error [
          | some e ↦
              some
                (if is_eof e then (if ltb 0 l.value then err unexpected_eof else ok s) else err e)
          | none ↦ elim ((l.value == 0) && o.zero_length_section_as_eof) [
            | true ↦ some (ok s)
            | false ↦ elim (ltb o.max_allowed_section_size l.value) [
              | true ↦ some (err section_too_large)
              | false ↦ elim (lib.from_reader l.rest) [
                | err e ↦ some (err e)
                | ok (cid_len, c) ↦ elim (ltb l.value cid_len) [
                  | true ↦ some (err short_section)
                  | false ↦
                      let seen = see_root lib c roots s in
                      let counted = record seen {
                        codecs = count_up (prefixes.codec_of c) seen.codecs;
                        mh_types = count_up (lib.mh_type c) seen.mh_types;
                      } in
                      let block_length = l.value - cid_len in
                      let behind = drop cid_len l.rest in
                      elim (if validate
                        then validate_block c (take block_length behind)
                        else none) [
                          | some e ↦ some (err e)
                          | none ↦
                              inspect_sections validate o roots fuel (drop block_length behind)
                                (add_lengths cid_len block_length counted)
                        ]
                ]
              ]
            ]
          ]
        ]

    -- The statistics behind the loop, without the index.
    unfoldable pub finish_stats : Reader Cid → List Cid → Scan → Stats Cid
    finish_stats r roots s =
        let any = ltb 0 s.count in
        record {
          version = r.version;
          header = r.header;
          roots = roots;
          roots_present = length roots == s.present_count;
          block_count = s.count;
          codec_counts = s.codecs;
          mh_type_counts = s.mh_types;
          avg_cid_length = if any then s.total_cid / s.count else 0;
          max_cid_length = s.max_cid;
          min_cid_length = if any then s.min_cid else 0;
          avg_block_length = if any then s.total_block / s.count else 0;
          max_block_length = s.max_block;
          min_block_length = if any then s.min_block else 0;
          index_codec = 0;
        }

    unfoldable pub inspect_index : Codecs → Reader Cid → Stats Cid → Result (Stats Cid)
    unfolding index_reader
    inspect_index codecs r stats = elim (index_reader r) [
      | none ↦ ok stats
      | some src ↦ elim (read_from codecs v 0 src) [
        | err e ↦ err e
        | ok (idx, rest) ↦ ok (record stats { index_codec = codec codecs idx })
      ]
    ]

    unfoldable pub inspect : Codecs → Bool → Reader Cid → Option (Result (Stats Cid))
    unfolding data_reader inspect_sections finish_stats inspect_index
    inspect codecs validate r =
        let (header_read, rest) =
          read_car_header v cbor r.opts.max_allowed_header_size (data_reader r) in
        elim header_read [
          | err e ↦ some (err e)
          | ok header ↦
              elim (inspect_sections validate r.opts header.roots (suc (length rest)) rest
                (start_scan header.roots)) [
                  | none ↦ none
                  | some scanned ↦ elim scanned [
                    | err e ↦ some (err e)
                    | ok s ↦ some (inspect_index codecs r (finish_stats r header.roots s))
                  ]
                ]
        ]
