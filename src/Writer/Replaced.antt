-- ===== src/Writer/Replaced.antt =====
-- What ReplaceRootsInFile leaves of a file.
use go_car.Prelude.{
  ◌+◌, ◌-◌, ◌≤◌, ◌<◌, ◌^◌, ◌≡◌, refl, sym, ◌∙◌, ap, inl, inr, arith, List, [], ◌∷◌, ◌++◌,
  append_assoc, append-nil, none, drop,
}
use go_car.Prelude.{length, length-append, false, ◌==◌, Bool-cases, Option-cases}
use go_car.Prelude.Int.{pos}
use go_car.Bytes.{Bytes}
use go_car.Stream.{ok, Appends}
use go_car.Stream.Laws.{take_all, drop-append}
use go_car.File.{overwrite, FileLib, FileLaws}
use go_car.File.Overwrite.{overwrite_middle}
use go_car.Varint.{Varint, VarintLaws}
use go_car.Header.{
  Header, IsU64, pragma, pragma_size, header_size, zero_header, characteristics_bytes,
  offsets_bytes,
}
use go_car.Header.Codec.{header_bytes, IsPlaced, length-header_bytes, read_header-header_bytes}
use go_car.Section.Frame.{frame, ld_write-Appends, ld_read-frame}
use go_car.Carv1.{CarHeader, Cbor, CborLaws, read_car_header, write_car_header}
use go_car.BlockReader.Payload.{PragmaLaws, read_car_header-pragma}
use go_car.Options.{Options}
use go_car.Writer.{bytes_buffer, replaced_header, replace_roots_in_file}

pub bytes_buffer-Appends : Appends bytes_buffer (λ s. s)
bytes_buffer-Appends = record { all_written = λ p s e. (refl, refl) }

module _ {F Cid : Type 0} (files : FileLib F) (flaws : FileLaws files) (v : Varint)
    (laws : VarintLaws v) (cbor : Cbor Cid) (claws : CborLaws cbor) (chunks : Bytes → List Bytes)
    (o : Options) (roots : List Cid) (hb' : Bytes)
    (dump : cbor.dump_object (record { roots = roots; version = 1 }) ≡ ok hb')
    (short : length hb' < 2 ^ 62) where
  -- The new header in the buffer.
  buffered :
      let w = write_car_header v cbor bytes_buffer (record { roots = roots; version = 1 }) [] in
      w.0 ≡ none → w.1 ≡ frame v hb'
  unfolding write_car_header
  buffered e =
      let e' : _ = rw (dump, write_car_header) at e in
      rw (dump, write_car_header)
        (ld_write-Appends v laws bytes_buffer (λ s. s) (hb' ∷ []) [] bytes_buffer-Appends
            (omega (arith, length-append hb' [], short)) e'
          ∙ ap (frame v) (append-nil hb'))

  replaced :
      (f : F) (front old back : Bytes)
      → files.content f ≡ front ++ (old ++ back)
      → replaced_header files v cbor chunks o (files.content f) ≡ ok (length front, length old)
      → (replace_roots_in_file files v cbor chunks o roots f).0 ≡ none
      → (files.content (replace_roots_in_file files v cbor chunks o roots f).1
          ≡ front ++ (frame v hb' ++ back))
        × (length (frame v hb') ≡ length old)
  unfolding replace_roots_in_file
  replaced f front old back held found e =
      let w = write_car_header v cbor bytes_buffer (record { roots = roots; version = 1 }) [] in
      elim (Option-cases w.0) [
        | inr (x, p) ↦ absurd (ground (arith, found, p, e))
        | inl p ↦
            let buf : w.1 ≡ frame v hb' = buffered p in
            let wrote = files.write_at (frame v hb') (pos (length front)) f in
            elim (Bool-cases (length old == length (frame v hb'))) [
              | inr q ↦ absurd (ground (arith, found, p, buf, q, e))
              | inl q ↦
                  let size : length (frame v hb') ≡ length old = ground (arith, q) in
                  let done : wrote.0.1 ≡ none = elim (Option-cases wrote.0.1) [
                    | inl d ↦ d
                    | inr (x, d) ↦ absurd (ground (arith, found, p, buf, q, d, e))
                  ] in
                  let content : files.content wrote.1 ≡ front ++ (frame v hb' ++ back) =
                    flaws.written (frame v hb') (length front) f
                    ∙ (ap (λ p. overwrite (length front) p (files.content f))
                          (take_all (frame v hb') wrote.0.0
                            (omega (arith, flaws.complete (frame v hb') (length front) f done)))
                        ∙ (ap (overwrite (length front) (frame v hb')) held
                            ∙ overwrite_middle front old back (frame v hb') (length front) refl
                                size)) in
                  (ground (arith, found, p, buf, q, content), size)
            ]
      ]

  module _ (h : CarHeader Cid) (hb : Bytes) (dumped : cbor.dump_object h ≡ ok hb)
      (fits : length hb ≤ o.max_allowed_header_size) (small : length hb < 2 ^ 63) where
    header_read :
        (rest : Bytes)
        → read_car_header v cbor o.max_allowed_header_size (frame v hb ++ rest) ≡ (ok h, rest)
    unfolding read_car_header
    header_read rest = ground (
      arith,
      ld_read-frame v laws false o.max_allowed_header_size hb rest fits small (ground arith),
      claws.decode-dump h hb dumped,
    )

    found_v1 :
        (rest : Bytes)
        → h.version ≡ 1
        → replaced_header files v cbor chunks o (frame v hb ++ rest) ≡ ok (0, length (frame v hb))
    unfolding replaced_header
    found_v1 rest one =
        let size : length (frame v hb ++ rest) - length rest ≡ length (frame v hb) =
          omega (arith, length-append (frame v hb) rest) in
        ground (arith, header_read rest, one, size)

    -- ReplaceRootsInFile without an error, on a CARv1 file: the header is replaced by one with the
    -- new roots that has as many bytes, and what follows it is left as it was. The old header is
    -- within the limit, and both have a cbor form.
    pub replace_roots_in_file-v1 :
        (f : F) (rest : Bytes)
        → files.content f ≡ frame v hb ++ rest
        → h.version ≡ 1
        → (replace_roots_in_file files v cbor chunks o roots f).0 ≡ none
        → (files.content (replace_roots_in_file files v cbor chunks o roots f).1
            ≡ frame v hb' ++ rest)
          × (length (frame v hb') ≡ length (frame v hb))
    replace_roots_in_file-v1 f rest held one e =
        let found : replaced_header files v cbor chunks o (files.content f)
            ≡ ok (0, length (frame v hb)) =
          ap (replaced_header files v cbor chunks o) held ∙ found_v1 rest one in
        replaced f [] (frame v hb) rest held found e

    found_v2 :
        (v2h : Header) (pad rest : Bytes)
        → PragmaLaws v cbor
        → 10 ≤ o.max_allowed_header_size
        → IsU64 v2h.characteristics.hi
        → IsU64 v2h.characteristics.lo
        → IsPlaced v2h
        → v2h.data_offset ≡ pragma_size + header_size + length pad
        → replaced_header files v cbor chunks o
            (pragma ++ (header_bytes v2h ++ (pad ++ (frame v hb ++ rest))))
          ≡ ok (length ((pragma ++ header_bytes v2h) ++ pad), length (frame v hb))
    unfolding replaced_header
    found_v2 v2h pad rest pragma_laws room hi lo placed offset =
        let body = pad ++ (frame v hb ++ rest) in
        let start : _ =
          read_car_header-pragma v cbor o.max_allowed_header_size (header_bytes v2h ++ body) laws
            pragma_laws room in
        let read : _ = read_header-header_bytes v2h zero_header body hi lo placed in
        let front = (pragma ++ header_bytes v2h) ++ pad in
        let (c, d) = length-header_bytes v2h in
        let long : length front ≡ v2h.data_offset = omega (
          arith,
          offset,
          c,
          d,
          length-append (pragma ++ header_bytes v2h) pad,
          length-append pragma (header_bytes v2h),
          length-append (characteristics_bytes v2h.characteristics) (offsets_bytes v2h),
        ) in
        let joined : pragma ++ (header_bytes v2h ++ body) ≡ front ++ (frame v hb ++ rest) = sym (
          append_assoc (pragma ++ header_bytes v2h) pad (frame v hb ++ rest)
          ∙ append_assoc pragma (header_bytes v2h) body) in
        let payload : drop v2h.data_offset (pragma ++ (header_bytes v2h ++ body))
            ≡ frame v hb ++ rest =
          ap (drop v2h.data_offset) joined
          ∙ drop-append front (frame v hb ++ rest) v2h.data_offset long in
        let size : length (frame v hb ++ rest) - length rest ≡ length (frame v hb) =
          omega (arith, length-append (frame v hb) rest) in
        ground (arith, start, read, payload, header_read rest, size, long)

    -- ReplaceRootsInFile without an error, on a CARv2 file: the header of the payload is replaced by one
    -- with the new roots that has as many bytes; pragma, CARv2 header and padding are left as they were,
    -- as is all behind the header of the payload. The old header is within the limit, and both have a
    -- cbor form.
    pub replace_roots_in_file-v2 :
        (f : F) (v2h : Header) (pad rest : Bytes)
        → PragmaLaws v cbor
        → 10 ≤ o.max_allowed_header_size
        → IsU64 v2h.characteristics.hi
        → IsU64 v2h.characteristics.lo
        → IsPlaced v2h
        → v2h.data_offset ≡ pragma_size + header_size + length pad
        → files.content f ≡ pragma ++ (header_bytes v2h ++ (pad ++ (frame v hb ++ rest)))
        → (replace_roots_in_file files v cbor chunks o roots f).0 ≡ none
        → (files.content (replace_roots_in_file files v cbor chunks o roots f).1
            ≡ pragma ++ (header_bytes v2h ++ (pad ++ (frame v hb' ++ rest))))
          × (length (frame v hb') ≡ length (frame v hb))
    replace_roots_in_file-v2 f v2h pad rest pragma_laws room hi lo placed offset held e =
        let front = (pragma ++ header_bytes v2h) ++ pad in
        let joined : (b : Bytes) → front ++ b ≡ pragma ++ (header_bytes v2h ++ (pad ++ b)) = λ b.
          append_assoc (pragma ++ header_bytes v2h) pad b
          ∙ append_assoc pragma (header_bytes v2h) (pad ++ b) in
        let found : _ =
          ap (replaced_header files v cbor chunks o) held
          ∙ found_v2 v2h pad rest pragma_laws room hi lo placed offset in
        let (content, size) =
          replaced f front (frame v hb) rest (held ∙ sym (joined (frame v hb ++ rest))) found e in
        (content ∙ joined (frame v hb' ++ rest), size)
