-- ===== src/Blockstore/ReadWrite/Trailer.antt =====
-- The writes of Finalize: the index behind the payload, and the header in front of it.
use go_car.Prelude.{
  ℕ, ◌+◌, ◌-◌, ◌≤◌, ◌<◌, ◌^◌, ◌≡◌, refl, sym, ◌∙◌, ap, inl, inr, arith, ◌++◌, append_assoc, none,
  take, drop,
}
use go_car.Prelude.{length, length-append, length-take, length-drop, take-append-drop, Option-cases}
use go_car.Prelude.Int.{pos}
use go_car.Bytes.{Bytes}
use go_car.Stream.Laws.{take_all}
use go_car.File.{zeros, before, overwrite, FileLib, FileLaws}
use go_car.File.Overwrite.{length-before, zeros-append, before_past, overwrite_middle}
use go_car.OffsetIo.{new_offset_writer, offset_write}
use go_car.OffsetIo.Writer.{
  offset_sink, at, in_front, offset_sink-Appends, IsAtEnd, write-IsAtEnd, in_front-IsAtEnd,
  offset_write-moves,
}
use go_car.OffsetIo.PastEnd.{first_write-IsAtEnd}
use go_car.Varint.{Varint, VarintLaws}
use go_car.Header.{
  Header, pragma, pragma_size, header_size, write_header, characteristics_bytes, offsets_bytes,
  write_characteristics,
}
use go_car.Header.Codec.{header_bytes, length-header_bytes}
use go_car.Index.Codec.{Codecs, Index, write_to, codec}
use go_car.Index.Codec.RoundTrip.{CodecsLaws, codec_small, write_to-Appends, index_bytes}
use go_car.Index.Keeps.{write_to-first}

module _ {F : Type 0} (files : FileLib F) (flaws : FileLaws files) where
  -- A write inside of a file.
  write_inside :
      (p : Bytes) (f : F) (base n : ℕ) (front old back : Bytes)
      → n < 2 ^ 63
      → length front ≡ n
      → length p ≡ length old
      → files.content f ≡ front ++ (old ++ back)
      → (offset_write files.write_at p (at files f base n)).0.1 ≡ none
      → (files.content (files.write_at p (pos n) f).1 ≡ front ++ (p ++ back))
        × ((offset_write files.write_at p (at files f base n)).1
            ≡ at files (files.write_at p (pos n) f).1 base (n + length p))
  write_inside p f base n front old back low start same held e =
      let moves : _ = offset_write-moves files flaws p f (pos base) n low in
      let all : _ = flaws.complete p n f (rw moves at e) in
      (
        flaws.written p n f
            ∙ (ap (λ q. overwrite n q (files.content f))
                  (take_all p (files.write_at p (pos n) f).0.0 (omega (arith, all)))
                ∙ (ap (overwrite n p) held ∙ overwrite_middle front old back p n start same)),
        rw (moves, all) refl,
      )

  -- The header, written over as many bytes behind the pragma.
  pub write_header_inside :
      (h : Header) (f : F) (front gap back : Bytes)
      → length front ≡ pragma_size
      → length gap ≡ header_size
      → files.content f ≡ front ++ (gap ++ back)
      → (write_header (offset_sink files) h (new_offset_writer f (pos pragma_size))).error ≡ none
      → files.content
          (write_header (offset_sink files) h (new_offset_writer f (pos pragma_size))).state.w
        ≡ front ++ (header_bytes h ++ back)
  unfolding write_header write_characteristics new_offset_writer
  write_header_inside h f front gap back start size held e =
      let cb = characteristics_bytes h.characteristics in
      let ob = offsets_bytes h in
      let (long, longer) = length-header_bytes h in
      let first = offset_write files.write_at cb (at files f pragma_size pragma_size) in
      let f1 = (files.write_at cb (pos pragma_size) f).1 in
      let second =
        offset_write files.write_at ob (at files f1 pragma_size (pragma_size + length cb)) in
      let parts : take 16 gap ++ (drop 16 gap ++ back) ≡ gap ++ back =
        sym (append_assoc (take 16 gap) (drop 16 gap) back)
        ∙ ap (λ q. q ++ back) (take-append-drop 16 gap) in
      elim (Option-cases first.0.1) [
        | inr (x, p) ↦ absurd (ground (arith, p, e))
        | inl p ↦
            let (held1, moved1) =
              write_inside cb f pragma_size pragma_size front (take 16 gap) (drop 16 gap ++ back)
                (omega arith) start (omega (arith, long, size, length-take 16 gap))
                (held ∙ ap (λ q. front ++ q) (sym parts)) p in
            let e2 : second.0.1 ≡ none = ground (arith, p, moved1, e) in
            let (held2, moved2) =
              write_inside ob f1 pragma_size (pragma_size + length cb) (front ++ cb) (drop 16 gap)
                back (omega (arith, long)) (omega (arith, start, length-append front cb))
                (omega (arith, longer, size, length-drop 16 gap))
                (held1 ∙ sym (append_assoc front cb (drop 16 gap ++ back))) e2 in
            ground
              (arith, p, moved1, held2, append_assoc front cb (ob ++ back), append_assoc cb ob back)
      ]

  -- An index, written at the end of a file or behind it.
  pub index_written :
      (v : Varint) (laws : VarintLaws v) (codecs : Codecs) (claws : CodecsLaws codecs) (idx : Index)
      (f : F) (n : ℕ)
      → n < 2 ^ 63
      → length (files.content f) ≤ n
      → (write_to codecs v (offset_sink files) idx (at files f n n)).error ≡ none
      → files.content (write_to codecs v (offset_sink files) idx (at files f n n)).state.w
        ≡ before n (files.content f) ++ index_bytes codecs v idx
  index_written v laws codecs claws idx f n low short e =
      let code = codec codecs idx in
      let long : 0 < length (v.put code) =
        let small : _ = codec_small codecs v claws idx in
        omega (arith, laws.length_put code small, laws.size_pos code) in
      let ow = (write_to codecs v (offset_sink files) idx (at files f n n)).state in
      let end : IsAtEnd files flaws n ow =
        write_to-first (offset_sink files) (IsAtEnd files flaws n) (write-IsAtEnd files flaws n)
          codecs v idx (at files f n n)
          (λ e1. first_write-IsAtEnd files flaws (v.put code) f n n long low short e1) e in
      sym (in_front-IsAtEnd files flaws n ow end)
      ∙ (write_to-Appends codecs v (offset_sink files) (in_front files) idx (at files f n n)
          (offset_sink-Appends files flaws) e).0

-- The file, up to the index, as pragma, place of the header, padding, payload and padding.
pub padded_file :
    (payload : Bytes) (dp ip base : ℕ)
    → base ≡ pragma_size + header_size + dp
    → before (base + length payload + ip) (before base pragma ++ payload)
      ≡ pragma ++ (zeros header_size ++ (zeros dp ++ (payload ++ zeros ip)))
padded_file payload dp ip base at =
    let gap : base - length pragma ≡ header_size + dp = omega (arith, at) in
    let first : before base pragma ≡ pragma ++ (zeros header_size ++ zeros dp) =
      before_past base pragma (omega (arith, at))
      ∙ ap (λ q. pragma ++ q) (ap zeros gap ∙ zeros-append header_size dp) in
    let whole = before base pragma ++ payload in
    let size : length whole ≡ base + length payload =
      omega (arith, length-append (before base pragma) payload, length-before base pragma) in
    let left : (base + length payload + ip) - length whole ≡ ip = omega (arith, size) in
    before_past (base + length payload + ip) whole (omega (arith, size))
    ∙ (ap (λ q. whole ++ zeros q) left
        ∙ (ap (λ q. (q ++ payload) ++ zeros ip) first
            ∙ ap (λ q. pragma ++ (zeros header_size ++ q))
                (append_assoc (zeros dp) payload (zeros ip))))
