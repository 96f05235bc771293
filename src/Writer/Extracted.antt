-- ===== src/Writer/Extracted.antt =====
-- What ExtractV1File leaves in its destination.
use go_car.Prelude.{
  ℕ, ◌+◌, ◌-◌, ◌≤◌, ◌<◌, ◌^◌, ◌≡◌, refl, sym, ◌∙◌, ap, inl, inr, arith, List, [], ◌∷◌, ◌++◌,
  append_assoc, append-nil, none, some, take, drop,
}
use go_car.Prelude.{length, length-append, length-take, ltb, Bool-cases, Option-cases}
use go_car.Prelude.Int.{pos}
use go_car.Bytes.{Bytes}
use go_car.Stream.{ok, Sink, Appends}
use go_car.Stream.Laws.{take_all, take-append, drop-append}
use go_car.File.{zeros, before, overwrite, FileLib, FileLaws}
use go_car.File.Overwrite.{length-before}
use go_car.OffsetIo.{OffsetWriteSeeker, new_offset_writer, offset_write}
use go_car.OffsetIo.Writer.{
  offset_sink, before_offset, in_front, offset_sink-Appends, offset_write-moves,
}
use go_car.Varint.{Varint, VarintLaws}
use go_car.Header.{
  Header, IsU64, signed64, pragma, pragma_size, header_size, zero_header, characteristics_bytes,
  offsets_bytes,
}
use go_car.Header.Codec.{header_bytes, IsPlaced, length-header_bytes, read_header-header_bytes}
use go_car.Section.{write_all}
use go_car.Section.Frame.{concat, write_all-Appends}
use go_car.Section.Keeps.{write_all-keeps}
use go_car.Carv1.{Cbor}
use go_car.BlockReader.Payload.{PragmaLaws, read_car_header-pragma}
use go_car.Options.{Options}
use go_car.Cids.{CidLib}
use go_car.Index.Single.{DigestRecord}
use go_car.Index.Codec.{Codecs}
use go_car.Index.Codec.RoundTrip.{index_bytes}
use go_car.Writer.Wrapped.{packed_header, wrapped_bytes, wrap_v1-wrapped_bytes}
use go_car.Writer.{wrap_v1, extracted_header, extract_payload, extract_v1_file}

length-overwrite_inside :
    (n : ℕ) (p c : Bytes) → n ≤ length c → n + length p ≤ length (overwrite n p c)
unfolding overwrite
length-overwrite_inside n [] c h = omega (arith, h)
length-overwrite_inside n (x ∷ p) c h =
    let back = drop (n + length (x ∷ p)) c in
    omega (
      arith,
      length-append (before n c) ((x ∷ p) ++ back),
      length-append (x ∷ p) back,
      length-before n c,
    )

module _ {F : Type 0} (files : FileLib F) (flaws : FileLaws files) where
  -- A writer that stands inside its file, or at its end.
  record IsInside (ow : OffsetWriteSeeker F) : Type 0 where
    place : ℕ
    stands : ow.offset ≡ pos place
    inside : place ≤ length (files.content ow.w)
    low : place < 2 ^ 63

  write-IsInside :
      (p : Bytes) (ow : OffsetWriteSeeker F)
      → IsInside ow
      → IsInside ((offset_sink files).write p ow).state
  write-IsInside p ow h =
      let n = h.place in
      let count = (files.write_at p (pos n) ow.w).0.0 in
      let f' = (files.write_at p (pos n) ow.w).1 in
      let moves : _ = offset_write-moves files flaws p ow.w ow.base n h.low in
      let content : files.content f' ≡ overwrite n (take count p) (files.content ow.w) =
        flaws.written p n ow.w in
      let size : n + count ≤ length (files.content f') = omega (
        arith,
        ap length content,
        length-overwrite_inside n (take count p) (files.content ow.w) h.inside,
        length-take count p,
        flaws.counted p n ow.w,
      ) in
      let moved : (offset_write files.write_at p ow).1
          ≡ record { w = f'; base = ow.base; offset = pos (n + count) } =
        rw h.stands (ap (λ x. x.1) moves) in
      rw moved (record {
        place = n + count;
        stands = refl;
        inside = size;
        low = flaws.in_range p n ow.w h.low;
      })

  front_taken :
      (ow : OffsetWriteSeeker F) (q : Bytes)
      → IsInside ow
      → in_front files ow ≡ q
      → take (length q) (files.content ow.w) ≡ q
  unfolding before
  front_taken ow q h e =
      let c = files.content ow.w in
      let here : before h.place c ≡ q = ap (λ o. before_offset files o c) (sym h.stands) ∙ e in
      let size : length q ≡ h.place = omega (arith, ap length here, length-before h.place c) in
      let filled : h.place - length c ≡ 0 = omega (arith, h.inside) in
      let plain : before h.place c ≡ take h.place c =
        ap (λ m. take h.place c ++ zeros m) filled ∙ append-nil (take h.place c) in
      ap (λ m. take m c) size ∙ (sym plain ∙ here)

  nothing_before : (c : Bytes) → before 0 c ≡ []
  unfolding before
  nothing_before c = let none_left : 0 - length c ≡ 0 = omega arith in ap zeros none_left

  module _ (chunks : Bytes → List Bytes) (whole : (b : Bytes) → concat (chunks b) ≡ b)
      {Cid : Type 0} (v : Varint) (cbor : Cbor Cid) where
    -- The copy stands in front of the writer, which is inside of the file.
    copied :
        (payload : Bytes) (dst : F)
        → let ow = new_offset_writer dst (pos 0) in
          (write_all (offset_sink files) (chunks payload) ow).0 ≡ none
          → take
              (length payload)
              (files.content (write_all (offset_sink files) (chunks payload) ow).1.w)
            ≡ payload
    unfolding new_offset_writer before
    copied payload dst e =
        let ow =
          (write_all (offset_sink files) (chunks payload) (new_offset_writer dst (pos 0))).1 in
        let c = files.content ow.w in
        let start : IsInside (new_offset_writer dst (pos 0)) = record {
          place = 0;
          stands = refl;
          inside = omega arith;
          low = omega arith;
        } in
        let end : IsInside ow =
          write_all-keeps (offset_sink files) IsInside write-IsInside (chunks payload)
            (new_offset_writer dst (pos 0)) start in
        let nothing : before 0 (files.content dst) ≡ [] = nothing_before (files.content dst) in
        let appended : in_front files ow ≡ payload =
          write_all-Appends (offset_sink files) (in_front files) (chunks payload)
            (new_offset_writer dst (pos 0)) (offset_sink-Appends files flaws) e
          ∙ (ap (λ q. q ++ concat (chunks payload)) nothing ∙ whole payload) in
        front_taken ow payload end appended

    take_short : (n : ℕ) (c q : Bytes) → take n c ≡ q → length q ≡ n → length c ≤ n → c ≡ q
    take_short n c q e size short = sym (take_all c n short) ∙ e

    -- The destination holds the payload, whatever it held before.
    extract_payload-take :
        (h : Header) (src : Bytes) (dst : F)
        → (extract_payload files v cbor chunks h src dst).0 ≡ none
        → (files.content (extract_payload files v cbor chunks h src dst).1
            ≡ take h.data_size (drop h.data_offset src))
          × (length (take h.data_size (drop h.data_offset src)) ≡ h.data_size)
    unfolding extract_payload
    extract_payload-take h src dst e =
        let payload = take h.data_size (drop h.data_offset src) in
        let wrote =
          write_all (offset_sink files) (chunks payload) (new_offset_writer dst (pos 0)) in
        let c = files.content wrote.1.w in
        elim (Option-cases wrote.0) [
          | inr (x, p) ↦ absurd (ground (arith, p, e))
          | inl p ↦
              let held : take (length payload) c ≡ payload = copied payload dst p in
              elim (Bool-cases (ltb (length payload) h.data_size)) [
                | inl q ↦ absurd (ground (arith, p, q, e))
                | inr q ↦
                    let size : length payload ≡ h.data_size =
                      ground (arith, q, length-take h.data_size (drop h.data_offset src)) in
                    elim (Bool-cases (ltb h.data_size (length c))) [
                      | inr r ↦
                          let all : c ≡ payload =
                            take_short (length payload) c payload held refl
                              (ground (arith, r, size)) in
                          (ground (arith, p, q, r, all), size)
                      | inl r ↦ elim (Option-cases (files.truncate h.data_size wrote.1.w).0) [
                        | inr (x, w) ↦ absurd (ground (arith, p, q, r, w, e))
                        | inl w ↦
                            let cut : _ =
                              flaws.truncated h.data_size wrote.1.w w (ground (arith, r)) in
                            (ground (arith, p, q, r, w, cut, held, size), size)
                      ]
                    ]
              ]
        ]

    with_header :
        (o : Options) (src : Bytes) (dst : F) (h : Header)
        → extracted_header files v cbor chunks o src ≡ ok h
        → extract_v1_file files v cbor chunks o src dst
          ≡ extract_payload files v cbor chunks h src dst
    unfolding extract_v1_file
    with_header o src dst h found = ground (arith, found)

    module _ (laws : VarintLaws v) (pragma_laws : PragmaLaws v cbor) where
      extracted_header-header_bytes :
          (o : Options) (h : Header) (rest : Bytes)
          → 10 ≤ o.max_allowed_header_size
          → IsU64 h.characteristics.hi
          → IsU64 h.characteristics.lo
          → IsPlaced h
          → extracted_header files v cbor chunks o (pragma ++ (header_bytes h ++ rest)) ≡ ok h
      unfolding extracted_header signed64
      extracted_header-header_bytes o h rest room hi lo placed =
          let start : _ =
            read_car_header-pragma v cbor o.max_allowed_header_size (header_bytes h ++ rest) laws
              pragma_laws room in
          let read : _ = read_header-header_bytes h zero_header rest hi lo placed in
          let p = placed.data_offset_low in
          ground (
            arith, start, read, placed.data_offset_low, placed.data_offset_high,
            placed.data_size_low, placed.data_size_high,
          )

      -- The payload of a CARv2, with any padding in front of it and anything behind it.
      extract_v1_file-payload :
          (o : Options) (h : Header) (pad payload rest : Bytes) (dst : F)
          → 10 ≤ o.max_allowed_header_size
          → IsU64 h.characteristics.hi
          → IsU64 h.characteristics.lo
          → IsPlaced h
          → h.data_offset ≡ pragma_size + header_size + length pad
          → h.data_size ≡ length payload
          → let src = pragma ++ (header_bytes h ++ (pad ++ (payload ++ rest))) in
            (extract_v1_file files v cbor chunks o src dst).0 ≡ none
            → files.content (extract_v1_file files v cbor chunks o src dst).1 ≡ payload
      extract_v1_file-payload o h pad payload rest dst room hi lo placed offset size e =
          let body = pad ++ (payload ++ rest) in
          let src = pragma ++ (header_bytes h ++ body) in
          let found : _ = extracted_header-header_bytes o h body room hi lo placed in
          let same : _ = with_header o src dst h found in
          let e' : (extract_payload files v cbor chunks h src dst).0 ≡ none =
            sym (ap (λ x. x.0) same) ∙ e in
          let copy : _ = (extract_payload-take h src dst e').0 in
          let (c, d) = length-header_bytes h in
          let front = (pragma ++ header_bytes h) ++ pad in
          let long : length front ≡ h.data_offset = omega (
            arith,
            offset,
            c,
            d,
            length-append (pragma ++ header_bytes h) pad,
            length-append pragma (header_bytes h),
            length-append (characteristics_bytes h.characteristics) (offsets_bytes h),
          ) in
          let joined : src ≡ front ++ (payload ++ rest) = sym (
            append_assoc (pragma ++ header_bytes h) pad (payload ++ rest)
            ∙ append_assoc pragma (header_bytes h) body) in
          let part : take h.data_size (drop h.data_offset src) ≡ payload =
            ap (λ q. take h.data_size (drop h.data_offset q)) joined
            ∙ (ap (take h.data_size) (drop-append front (payload ++ rest) h.data_offset long)
                ∙ take-append payload rest h.data_size (sym size)) in
          ap (λ x. files.content x.1) same ∙ (copy ∙ part)

      -- ExtractV1File of what WrapV1 wrote into an empty writer leaves exactly the source of
      -- WrapV1 in its destination, whatever the destination held before, if neither returns an
      -- error. The source is not empty and fits an int64 behind pragma and header. The limit on
      -- headers allows the pragma.
      pub extract_v1_file-wrap_v1 {ℓ} :
          {S : Type ℓ} (lib : CidLib Cid) (codecs : Codecs) (identity : ℕ)
          (sort : List DigestRecord → List DigestRecord) (k : Sink S) (content : S → Bytes)
          (o o' : Options) (src : Bytes) (empty wrapped : S) (dst : F)
          → Appends k content
          → content empty ≡ []
          → wrap_v1 v cbor lib codecs chunks identity sort k o src empty ≡ some (none, wrapped)
          → 0 < length src
          → pragma_size + header_size + length src < 2 ^ 63
          → 10 ≤ o'.max_allowed_header_size
          → (extract_v1_file files v cbor chunks o' (content wrapped) dst).0 ≡ none
          → files.content (extract_v1_file files v cbor chunks o' (content wrapped) dst).1 ≡ src
      extract_v1_file-wrap_v1 lib codecs identity sort k content o o' src empty wrapped dst law
            nothing done some_bytes low room e =
          let (start, idx, p, q, written) =
            wrap_v1-wrapped_bytes v cbor lib codecs chunks whole identity sort k content o src empty
              wrapped law low done in
          let h = packed_header (length src) in
          let file : content wrapped ≡ wrapped_bytes codecs v src idx =
            written ∙ ap (λ q. q ++ wrapped_bytes codecs v src idx) nothing in
          let placed : IsPlaced h = record {
            data_offset_low = omega arith;
            data_offset_high = omega arith;
            data_size_low = some_bytes;
            data_size_high = omega (arith, low);
            index_offset_high = omega (arith, low);
          } in
          let e' : (extract_v1_file files v cbor chunks o' (wrapped_bytes codecs v src idx) dst).0
              ≡ none =
            sym (ap (λ q. (extract_v1_file files v cbor chunks o' q dst).0) file) ∙ e in
          ap (λ q. files.content (extract_v1_file files v cbor chunks o' q dst).1) file
          ∙ extract_v1_file-payload o' h [] src (index_bytes codecs v idx) dst room (omega arith)
              (omega arith) placed (omega arith) refl e'
