-- ===== src/Blockstore/ReadWrite/Resume.antt =====
-- OpenReadWrite on a file that is not empty: resumeWithRoots, and the choice between it and
-- initWithRoots.
use go_car.Prelude.{ℕ, zero, suc, ◌+◌, ◌-◌, ◌%◌, ◌^◌, List, Option, none, some, drop, length}
use go_car.Prelude.{Bool, true, false, not, leb, ◌==◌, if◌then◌else◌}
use go_car.Prelude.Int.{pos}
use go_car.Bytes.{Bytes}
use go_car.Stream.{
  Error, is_eof, null_padding, offset_overflow, resume_version, resume_offset, resume_roots,
  corrupt_header, Result, ok, err,
}
use go_car.File.{FileLib}
use go_car.OffsetIo.{new_offset_writer, write_seek, seek_start}
use go_car.OffsetIo.Writer.{offset_sink}
use go_car.Varint.{Varint}
use go_car.Cids.{CidLib}
use go_car.Header.{Header, u64, zero_header, pragma_size, read_header, write_header}
use go_car.Carv1.{
  CarHeader, Cbor, default_max_allowed_header_size, read_car_header, car_header_size, matches,
}
use go_car.Options.{Options}
use go_car.Blockstore.InsertionIndex.{Tree, insert_no_replace}
use go_car.Blockstore.ReadWrite.{ReadWrite, data_start, open_blockstore, init_with_roots, with_file}

-- What is found of a CARv2 header in the file: an error, or the header.
unfoldable pub check_header_in_file : Header → Bytes → Result Header
check_header_in_file own content =
    let read = read_header zero_header (drop pragma_size content) in
    elim read.error [
      | some e ↦ ok read.value
      | none ↦
          if read.value.data_offset == 0
          then ok read.value
          else if not (read.value.data_offset == own.data_offset)
          then err resume_offset
          else if read.value.data_size == 0
          then err corrupt_header
          else ok read.value
    ]

module _ {F T Cid : Type 0} (files : FileLib F) (v : Varint) (cbor : Cbor Cid) (lib : CidLib Cid)
    (tree : Tree Cid T) where
  -- The loop over the sections of the payload, which starts at `base` of the file: the error, the
  -- offset of the section behind the last one, and the records. `none` means that the fuel ran out.
  unfoldable pub resume_sections : Bool → ℕ → Bytes → ℕ → ℕ → T → Option (Option Error × ℕ × T)
  resume_sections zero_len_as_eof base content zero section_offset idx = none
  resume_sections zero_len_as_eof base content (suc fuel) section_offset idx =
      let l = v.read (drop (base + section_offset) content) in
      elim l.error [
        | some e ↦ some ((if is_eof e then none else some e), section_offset, idx)
        | none ↦ elim (l.value == 0) [
          | true ↦ some ((if zero_len_as_eof then none else some null_padding), section_offset, idx)
          | false ↦ elim (lib.from_reader l.rest) [
            | err e ↦ some (some e, section_offset, idx)
            | ok (n, c) ↦ elim (insert_no_replace lib tree c section_offset idx) [
              | err e ↦ some (some e, section_offset, idx)
              | ok idx' ↦
                  let end = length content - length l.rest + l.value in
                  elim (leb (2 ^ 63) end) [
                    | true ↦ some (some offset_overflow, section_offset, idx')
                    | false ↦ resume_sections zero_len_as_eof base content fuel (end - base) idx'
                  ]
            ]
          ]
        ]
      ]

  unfoldable pub unfinalize : ReadWrite F T → Option Error × ReadWrite F T
  unfolding with_file
  unfinalize b =
      let w =
        write_header (offset_sink files) zero_header
          (new_offset_writer b.data_writer.w (pos pragma_size)) in
      (w.error, with_file b w.state.w)

  -- From the check of the CARv1 header on.
  unfoldable pub resume_payload :
      Bool → CarHeader Cid → ReadWrite F T → Option (Option Error × ReadWrite F T)
  resume_payload v2 header b =
      let base = data_start b.opts in
      let (undone, b1) = if v2 then unfinalize b else (none, b) in
      let content = files.content b1.data_writer.w in
      elim undone [
        | some e ↦ some (some e, b1)
        | none ↦ elim (car_header_size v cbor header) [
          | err e ↦ some (some e, b1)
          | ok offset ↦
              elim (resume_sections b.opts.zero_length_section_as_eof base content
                (suc (length content)) offset b1.idx) [
                  | none ↦ none
                  | some (failed, section_offset, idx) ↦ elim failed [
                    | some e ↦ some (some e, record b1 { idx = idx })
                    | none ↦
                        let (sought, ow) =
                          write_seek (pos section_offset) seek_start b1.data_writer in
                        some (none, record b1 { data_writer = ow; idx = idx })
                  ]
                ]
        ]
      ]

  unfoldable pub resume_with_roots :
      Bool → List Cid → ReadWrite F T → Option (Option Error × ReadWrite F T)
  resume_with_roots v2 roots b =
      let content = files.content b.data_writer.w in
      elim (read_car_header v cbor default_max_allowed_header_size content).0 [
        | err e ↦ some (some e, b)
        | ok version_read ↦
            if not (version_read.version == (if v2 then 2 else 1))
            then some (some resume_version, b)
            else elim (if v2 then check_header_in_file b.header content else ok zero_header) [
              | err e ↦ some (some e, b)
              | ok in_file ↦
                  elim (read_car_header v cbor b.opts.max_allowed_header_size
                    (drop (data_start b.opts) content)).0 [
                      | err e ↦ some (some e, b)
                      | ok header ↦
                          if not (matches lib header (record { roots = roots; version = 1 }))
                          then some (some resume_roots, b)
                          else if in_file.data_offset == 0
                          then resume_payload v2 header b
                          else let (failed, f') =
                              files.truncate ((in_file.data_offset + in_file.data_size) % u64)
                                b.data_writer.w in
                            let b' = with_file b f' in
                            elim failed [
                              | some e ↦ some (some e, b')
                              | none ↦ resume_payload v2 header b'
                            ]
                    ]
            ]
      ]

  -- OpenReadWrite, with the file open.
  unfoldable pub open_read_write : F → List Cid → Options → Option (Option Error × ReadWrite F T)
  open_read_write f roots o =
      let b = open_blockstore tree.empty f o in
      if length (files.content f) == 0
      then some (init_with_roots files v cbor (not o.write_as_car_v1) roots b)
      else resume_with_roots (not o.write_as_car_v1) roots b
