-- ===== src/Tests/Wrapped.antt =====
-- Runs on the writer: wrapping a CARv1, extracting it again, and replacing its roots.
use go_car.Prelude.{
  ◌*◌, ◌≡◌, refl, ap, inl, inr, arith, List, [], ◌∷◌, ◌++◌, append-nil, none, some, drop,
}
use go_car.Prelude.{length, false, Bool-cases}
use go_car.Bytes.{Bytes, bytes_equal}
use go_car.Bytes.RoundTrip.{bytes_equal→eq}
use go_car.Stream.{Result, ok}
use go_car.Header.{Header, pragma}
use go_car.Header.Codec.{header_bytes}
use go_car.Section.Frame.{frame}
use go_car.Carv1.{CarHeader, CborLaws}
use go_car.Index.Codec.{Index, new_index}
use go_car.IndexGen.{load_index}
use go_car.Options.{Options, initial_options}
use go_car.Writer.{bytes_buffer, wrap_v1, extract_v1_file, replace_roots_in_file}
use go_car.Blockstore.ReadOnly.{section_of}
use go_car.Blockstore.ReadOnly.Open.{new_read_only}
use go_car.Writer.Wrapped.{wrapped_bytes, wrap_v1-wrapped_bytes}
use go_car.Writer.Extracted.{extract_v1_file-wrap_v1}
use go_car.Writer.Replaced.{bytes_buffer-Appends, replace_roots_in_file-v2}
use go_car.Tests.World.{
  TestCid, leb, leb_read, leb-VarintLaws, test_cids, roots_bytes, roots_from-roots_bytes,
}
use go_car.Tests.Readers.{pragma_cbor, pragma_cbor-PragmaLaws, same_order}
use go_car.Tests.Codec.{codecs}
use go_car.Tests.Disk.{disk, disk-FileLaws}
use go_car.Tests.Filled.{final_program}

program : Unit {0}
unfolding final_program go_car.IndexGen.load_index wrap_v1 extract_v1_file replace_roots_in_file
    leb_read go_car.IndexGen.records_of go_car.Carv1.read_car_header go_car.Section.ld_read
    go_car.Stream.read_full go_car.IndexGen.records_behind go_car.IndexGen.read_records
    go_car.IndexGen.read_section go_car.Writer.extracted_header go_car.Writer.extract_payload
    go_car.Writer.replaced_header go_car.Header.read_header go_car.Header.read_characteristics
    go_car.Header.assign_offsets go_car.Header.check_offsets go_car.Bytes.le_value
    go_car.Writer.write_wrapped
program = tt

length-roots_bytes : (cs : List TestCid) → length (roots_bytes cs) ≡ 2 * length cs
length-roots_bytes [] = refl
length-roots_bytes (c ∷ cs) = omega (arith, length-roots_bytes cs)

-- No header of the tests has the form of the pragma, which is of an even length.
pragma_differs :
    (h : CarHeader TestCid) → bytes_equal (drop 1 pragma) (h.version ∷ roots_bytes h.roots) ≡ false
pragma_differs h =
    elim (Bool-cases (bytes_equal (drop 1 pragma) (h.version ∷ roots_bytes h.roots))) [
      | inl p ↦
          let same : _ = bytes_equal→eq (drop 1 pragma) (h.version ∷ roots_bytes h.roots) p in
          absurd (omega (arith, ap length same, length-roots_bytes h.roots))
      | inr p ↦ p
    ]

pragma_cbor-CborLaws : CborLaws pragma_cbor
pragma_cbor-CborLaws = record {
  decode-dump = λ h hb e. ground (arith, e, pragma_differs h, roots_from-roots_bytes h.roots);
}

abbrev options : Options
options = record initial_options { index_codec = 0x0401; max_index_cid_size = 2048 }

abbrev whole_chunk : Bytes → List Bytes
whole_chunk b = b ∷ []

-- A header with a root, and a section.
abbrev source : Bytes
source = 3 ∷ 1 ∷ 18 ∷ 7 ∷ 4 ∷ 18 ∷ 7 ∷ 3 ∷ 4 ∷ []

abbrev wrapped : Bytes
wrapped =
    elim (wrap_v1 leb pragma_cbor test_cids codecs whole_chunk 0 same_order bytes_buffer options
      source []) [ none ↦ [] | some r ↦ r.1 ]

wraps :
    wrap_v1 leb pragma_cbor test_cids codecs whole_chunk 0 same_order bytes_buffer options source []
    ≡ some (none, wrapped)
unfolding program
wraps = refl

wrap_v1-wrapped_bytes_example :
    (empty : Index) × (idx : Index) × (new_index codecs options.index_codec ≡ ok empty)
    × (load_index leb test_cids 0 options pragma_cbor source same_order empty ≡ some (ok idx))
    × (wrapped ≡ [] ++ wrapped_bytes codecs leb source idx)
wrap_v1-wrapped_bytes_example =
    wrap_v1-wrapped_bytes leb pragma_cbor test_cids codecs whole_chunk (λ b. append-nil b) 0
      same_order bytes_buffer (λ s. s) options source [] wrapped bytes_buffer-Appends (omega arith)
      wraps

-- What is wrapped opens over the source, by the index of the file.
opens :
    (elim (new_read_only leb pragma_cbor test_cids 0 codecs same_order options wrapped none) [
      | some (ok b) ↦ some b.backing
      | _ ↦ none
    ])
    ≡ some (section_of source)
unfolding program go_car.Blockstore.ReadOnly.Open.new_read_only go_car.Reader.new_reader
    go_car.Reader.read_version go_car.Reader.read_v2_header go_car.Reader.index_reader
    go_car.Reader.data_reader go_car.Header.has_index go_car.Index.Codec.read_from
    go_car.Index.Codec.read_codec go_car.Index.Codec.index_unmarshal
    go_car.Index.Multihash.multihash_unmarshal go_car.Index.Single.read_number
    go_car.Index.Multihash.unmarshal_codes go_car.Index.Multihash.coded_unmarshal
    go_car.Index.Multi.multi_unmarshal go_car.Index.Multi.unmarshal_buckets
    go_car.Index.Single.single_unmarshal go_car.Index.Single.check_unmarshal_lengths
    go_car.Index.Single.read_buffer
opens = refl

-- Into a file that is longer than the source.
abbrev old_file : Bytes
old_file = 1 ∷ 2 ∷ 3 ∷ 4 ∷ 5 ∷ 6 ∷ 7 ∷ 8 ∷ 9 ∷ 10 ∷ 11 ∷ 12 ∷ []

extract_v1_file-wrap_v1_example :
    (extract_v1_file disk leb pragma_cbor whole_chunk options wrapped old_file).1 ≡ source
extract_v1_file-wrap_v1_example =
    extract_v1_file-wrap_v1 disk disk-FileLaws whole_chunk (λ b. append-nil b) leb pragma_cbor
      leb-VarintLaws pragma_cbor-PragmaLaws test_cids codecs 0 same_order bytes_buffer (λ s. s)
      options options source [] wrapped old_file bytes_buffer-Appends refl wraps (omega arith)
      (omega arith) (omega arith) (unfold program in refl)

abbrev new_root : TestCid
new_root = record { code = 18; value = 5 }

abbrev around : Header
around = record {
  characteristics = record { hi = 0; lo = 0 };
  data_offset = 53;
  data_size = 9;
  index_offset = 62;
}

abbrev file_with : Bytes → Bytes
file_with form =
    pragma ++ (header_bytes around ++ (0 ∷ 0 ∷ [] ++ (frame leb form ++ (4 ∷ 18 ∷ 7 ∷ 3 ∷ 4 ∷ []))))

replace_roots_in_file-v2_example :
    let f = file_with (1 ∷ 18 ∷ 7 ∷ []) in
    ((replace_roots_in_file disk leb pragma_cbor whole_chunk options (new_root ∷ []) f).1
      ≡ file_with (1 ∷ 18 ∷ 5 ∷ []))
    × (length (frame leb (1 ∷ 18 ∷ 5 ∷ [])) ≡ length (frame leb (1 ∷ 18 ∷ 7 ∷ [])))
replace_roots_in_file-v2_example =
    replace_roots_in_file-v2 disk disk-FileLaws leb leb-VarintLaws pragma_cbor pragma_cbor-CborLaws
      whole_chunk options (new_root ∷ []) (1 ∷ 18 ∷ 5 ∷ []) refl (omega arith)
      (record { roots = record { code = 18; value = 7 } ∷ []; version = 1 }) (1 ∷ 18 ∷ 7 ∷ []) refl
      (omega arith) (omega arith) (file_with (1 ∷ 18 ∷ 7 ∷ [])) around (0 ∷ 0 ∷ [])
      (4 ∷ 18 ∷ 7 ∷ 3 ∷ 4 ∷ []) pragma_cbor-PragmaLaws (omega arith) (omega arith) (omega arith)
      (record {
        data_offset_low = omega arith;
        data_offset_high = omega arith;
        data_size_low = omega arith;
        data_size_high = omega arith;
        index_offset_high = omega arith;
      })
      refl refl (unfold program in refl)
