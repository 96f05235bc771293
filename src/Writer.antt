-- ===== src/Writer.antt =====
-- v2/writer.go: wrapping a CARv1, extracting it again, and replacing the roots of a file. The source
-- and the destination of ExtractV1File are two files here. `chunks` are the pieces in which io.Copy
-- and io.CopyN pass on what they read.
pub mod Wrapped
pub mod Extracted
pub mod Replaced
use go_car.Prelude.{ℕ, ◌+◌, ◌-◌, List, [], ◌∷◌, ◌++◌, Option, none, some, take, drop, length}
use go_car.Prelude.{Bool, not, ltb, ◌==◌, if◌then◌else◌}
use go_car.Prelude.Int.{ℤ, pos, negsuc, ltb_ℤ}
use go_car.Bytes.{Bytes}
use go_car.Stream.{
  Error, eof, already_v1, invalid_car_version, invalid_data_offset, invalid_data_size,
  header_size_mismatch, Result, ok, err, Written, Sink,
}
use go_car.File.{FileLib}
use go_car.OffsetIo.{OffsetWriteSeeker, new_offset_writer}
use go_car.OffsetIo.Writer.{offset_sink}
use go_car.Varint.{Varint}
use go_car.Cids.{CidLib}
use go_car.Header.{
  Header, u64, signed64, pragma, pragma_size, header_size, new_header, zero_header, read_header,
  write_header,
}
use go_car.Section.{write_all}
use go_car.Section.Frame.{frame}
use go_car.Carv1.{CarHeader, Cbor, read_car_header, write_car_header}
use go_car.Index.Single.{DigestRecord}
use go_car.Index.Codec.{Codecs, Index, new_index, write_to}
use go_car.Options.{Options}
use go_car.IndexGen.{load_index}

-- bytes.Buffer, which takes all that is written.
abbrev pub bytes_buffer : Sink Bytes
bytes_buffer = record { write = λ p s. record { count = length p; error = none; state = s ++ p } }

module _ {Cid : Type 0} (v : Varint) (cbor : Cbor Cid) (lib : CidLib Cid) (codecs : Codecs)
    (chunks : Bytes → List Bytes) where
  -- The writes of WrapV1: pragma, header, payload and index.
  unfoldable pub write_wrapped {ℓ} : {S : Type ℓ} → Sink S → Bytes → Index → S → Option Error × S
  write_wrapped k src idx dst =
      let w1 = k.write pragma dst in
      elim w1.error [
        | some e ↦ (some e, w1.state)
        | none ↦
            let w2 = write_header k (new_header (length src)) w1.state in
            elim w2.error [
              | some e ↦ (some e, w2.state)
              | none ↦
                  let (failed, dst3) = write_all k (chunks src) w2.state in
                  elim failed [
                    | some e ↦ (some e, dst3)
                    | none ↦ let w4 = write_to codecs v k idx dst3 in (w4.error, w4.state)
                  ]
            ]
      ]

  -- WrapV1. `none` means that the fuel of LoadIndex ran out.
  unfoldable pub wrap_v1 {ℓ} :
      {S : Type ℓ}
      → ℕ
      → (List DigestRecord → List DigestRecord)
      → Sink S
      → Options
      → Bytes
      → S
      → Option (Option Error × S)
  unfolding write_wrapped
  wrap_v1 identity sort k o src dst = elim (new_index codecs o.index_codec) [
    | err e ↦ some (some e, dst)
    | ok empty ↦ elim (load_index v lib identity o cbor src sort empty) [
      | none ↦ none
      | some loaded ↦ elim loaded [
        | err e ↦ some (some e, dst)
        | ok idx ↦ some (write_wrapped k src idx dst)
      ]
    ]
  ]

module _ {F Cid : Type 0} (files : FileLib F) (v : Varint) (cbor : Cbor Cid)
    (chunks : Bytes → List Bytes) where
  -- The header that ExtractV1File finds in the source.
  unfoldable pub extracted_header : Options → Bytes → Result Header
  extracted_header o src =
      let (version_read, rest) = read_car_header v cbor o.max_allowed_header_size src in
      elim version_read [
        | err e ↦ err e
        | ok header ↦
            if header.version == 1
            then err already_v1
            else if not (header.version == 2)
            then err invalid_car_version
            else let v2h = read_header zero_header rest in
              elim v2h.error [
                | some e ↦ err e
                | none ↦
                    if ltb_ℤ (signed64 v2h.value.data_offset) (pos (pragma_size + header_size))
                    then err invalid_data_offset
                    else if not (ltb_ℤ (pos 0) (signed64 v2h.value.data_size))
                    then err invalid_data_size
                    else ok v2h.value
              ]
      ]

  -- From the opened destination on: copy, cut to size, and close.
  unfoldable pub extract_payload : Header → Bytes → F → Option Error × F
  extract_payload h src dst =
      let payload = take h.data_size (drop h.data_offset src) in
      let (failed, ow) =
        write_all (offset_sink files) (chunks payload) (new_offset_writer dst (pos 0)) in
      elim failed [
        | some e ↦ (some e, ow.w)
        | none ↦
            if ltb (length payload) h.data_size
            then (some eof, ow.w)
            else if not (ltb h.data_size (length (files.content ow.w)))
            then (files.close ow.w, ow.w)
            else let (cut, f) = files.truncate h.data_size ow.w in
              elim cut [ some e ↦ (some e, f) | none ↦ (files.close f, f) ]
      ]

  unfoldable pub extract_v1_file : Options → Bytes → F → Option Error × F
  unfolding extracted_header extract_payload
  extract_v1_file o src dst = elim (extracted_header o src) [
    | err e ↦ (some e, dst)
    | ok h ↦ extract_payload h src dst
  ]

  unfoldable pub attach_index : Codecs → F → Index → ℕ → Option Error × F
  attach_index codecs out idx offset =
      let w = write_to codecs v (offset_sink files) idx (new_offset_writer out (signed64 offset)) in
      (w.error, w.state.w)

  -- Where the header stands that ReplaceRootsInFile replaces, and its size. The error on the version
  -- of an inner header is overwritten by that of the next Seek, which is nil.
  unfoldable pub replaced_header : Options → Bytes → Result (ℕ × ℕ)
  replaced_header o content =
      let (header_read, rest) = read_car_header v cbor o.max_allowed_header_size content in
      elim header_read [
        | err e ↦ err e
        | ok header ↦
            if header.version == 1
            then ok (0, length content - length rest)
            else if not (header.version == 2)
            then err invalid_car_version
            else let v2h = read_header zero_header rest in
              elim v2h.error [
                | some e ↦ err e
                | none ↦
                    let payload = drop v2h.value.data_offset content in
                    let (inner, behind) =
                      read_car_header v cbor o.max_allowed_header_size payload in
                    elim inner [
                      | err e ↦ err e
                      | ok inner_header ↦ ok (v2h.value.data_offset, length payload - length behind)
                    ]
              ]
      ]

  unfoldable pub replace_roots_in_file : Options → List Cid → F → Option Error × F
  unfolding replaced_header
  replace_roots_in_file o roots f = elim (replaced_header o (files.content f)) [
    | err e ↦ (some e, f)
    | ok (offset, current_size) ↦
        let new_header : CarHeader Cid = record { roots = roots; version = 1 } in
        let (failed, buf) = write_car_header v cbor bytes_buffer new_header [] in
        elim failed [
          | some e ↦ (some e, f)
          | none ↦
              if not (current_size == length buf)
              then (some (header_size_mismatch current_size (length buf)), f)
              else let (written, f') = files.write_at buf (pos offset) f in
                (elim written.1 [ some e ↦ some e | none ↦ files.close f' ], f')
        ]
  ]
