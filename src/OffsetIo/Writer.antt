-- ===== src/OffsetIo/Writer.antt =====
-- OffsetWriteSeeker over a file as an io.Writer: what is written stands in front of its offset.
use go_car.Prelude.{
  ℕ, ◌+◌, ◌-◌, ◌≤◌, ◌<◌, ◌^◌, ◌≡◌, refl, ap, ◌∙◌, arith, inl, inr, [], ◌++◌, none, take, length,
}
use go_car.Prelude.{Bool-cases, ltb, length-append, length-take}
use go_car.Prelude.Int.{ℤ, pos, negsuc, ◌+ℤ◌, ◌-ℤ◌}
use go_car.Bytes.{Bytes}
use go_car.Stream.{Sink, Appends}
use go_car.Stream.Laws.{take_all}
use go_car.Header.{signed64}
use go_car.File.{before, FileLib, FileLaws}
use go_car.File.Overwrite.{before_all, overwrite_end, before-overwrite}
use go_car.OffsetIo.{OffsetWriteSeeker, wrap64, add64, sub64, offset_write, write_position}

module _ {F : Type 0} (files : FileLib F) where
  abbrev pub offset_sink : Sink (OffsetWriteSeeker F)
  offset_sink = record {
    write = λ p ow.
        let (written, ow') = offset_write files.write_at p ow in
        record { count = written.0; error = written.1; state = ow' };
  }

  abbrev pub at : F → ℕ → ℕ → OffsetWriteSeeker F
  at f base off = record { w = f; base = pos base; offset = pos off }

  -- The same, with a base that may be negative.
  abbrev pub from_base : F → ℤ → ℕ → OffsetWriteSeeker F
  from_base f base off = record { w = f; base = base; offset = pos off }

  -- The file up to the offset, with zeros where it is shorter.
  abbrev pub before_offset : ℤ → Bytes → Bytes
  before_offset (pos n) c = before n c
  before_offset (negsuc n) c = []

  abbrev pub in_front : OffsetWriteSeeker F → Bytes
  in_front ow = before_offset ow.offset (files.content ow.w)

  module _ (laws : FileLaws files) where
    add64_small : (n k : ℕ) → n + k < 2 ^ 63 → add64 (pos n) (pos k) ≡ pos (n + k)
    unfolding add64 wrap64 signed64 ◌+ℤ◌
    add64_small n k h = ground arith

    -- A write moves the offset by the bytes that it counts, whether it fails or not.
    pub offset_write-moves :
        (p : Bytes) (f : F) (base : ℤ) (n : ℕ)
        → n < 2 ^ 63
        → offset_write files.write_at p (from_base f base n) ≡ (
          (files.write_at p (pos n) f).0,
          from_base (files.write_at p (pos n) f).1 base (n + (files.write_at p (pos n) f).0.0),
        )
    unfolding offset_write
    offset_write-moves p f base n low =
        let count = (files.write_at p (pos n) f).0.0 in
        rw (add64_small n count (laws.in_range p n f low))

    append_offset :
        (p : Bytes) (f : F) (base : ℤ) (n : ℕ)
        → (offset_write files.write_at p (from_base f base n)).0.1 ≡ none
        → (in_front (offset_write files.write_at p (from_base f base n)).1
            ≡ in_front (from_base f base n) ++ p)
          × ((offset_write files.write_at p (from_base f base n)).0.0 ≡ length p)
    append_offset p f base n e =
        let low : n < 2 ^ 63 = elim (Bool-cases (ltb n (2 ^ 63))) [
          | inl l ↦ ground (arith, l)
          | inr g ↦ absurd (laws.beyond p n f (ground (arith, g)) (unfold offset_write in e))
        ] in
        let moves : _ = offset_write-moves p f base n low in
        let all : _ = laws.complete p n f (rw moves at e) in
        let put : _ = before-overwrite n p (files.content f) in
        let content : _ = laws.written p n f in
        (rw (moves, content, all, take_all p (length p) (omega arith)) put, rw moves all)

    append_any :
        (p : Bytes) (f : F) (base offset : ℤ)
        → let ow : OffsetWriteSeeker F = record { w = f; base = base; offset = offset } in
          (offset_sink.write p ow).error ≡ none
          → (in_front (offset_sink.write p ow).state ≡ in_front ow ++ p)
            × ((offset_sink.write p ow).count ≡ length p)
    append_any p f base (pos n) e = append_offset p f base n e
    append_any p f base (negsuc n) e = absurd (laws.negative p n f (unfold offset_write in e))

    -- The OffsetWriteSeeker satisfies io.Writer, with what stands in front of its offset.
    pub offset_sink-Appends : Appends offset_sink in_front
    offset_sink-Appends = record { all_written = λ p ow e. append_any p ow.w ow.base ow.offset e }

    -- A writer that stands at the end of its file.
    abbrev pub IsAtEnd : ℕ → OffsetWriteSeeker F → Type 0
    IsAtEnd base ow =
        (ow.base ≡ pos base)
        × (ow.offset ≡ pos (length (files.content ow.w)))
        × (length (files.content ow.w) < 2 ^ 63)

    at_end-at :
        (base : ℕ) (ow : OffsetWriteSeeker F)
        → IsAtEnd base ow
        → ow ≡ at ow.w base (length (files.content ow.w))
    at_end-at base ow (b, o, small) = ground arith

    -- A write at the end leaves the writer at the end, also when it fails.
    pub write-IsAtEnd :
        (base : ℕ) (p : Bytes) (ow : OffsetWriteSeeker F)
        → IsAtEnd base ow
        → IsAtEnd base (offset_sink.write p ow).state
    write-IsAtEnd base p ow end =
        let n = length (files.content ow.w) in
        let same : _ = at_end-at base ow end in
        let moves : _ = offset_write-moves p ow.w (pos base) n end.2 in
        let f' = (files.write_at p (pos n) ow.w).1 in
        let count = (files.write_at p (pos n) ow.w).0.0 in
        let content : files.content f' ≡ files.content ow.w ++ take count p =
          laws.written p n ow.w ∙ overwrite_end n (take count p) (files.content ow.w) refl in
        let size : n + count ≡ length (files.content f') = omega (
          arith,
          ap length content,
          length-append (files.content ow.w) (take count p),
          length-take count p,
          laws.counted p n ow.w,
        ) in
        let goal : IsAtEnd base (offset_write files.write_at p (at ow.w base n)).1 =
          rw moves (refl, ap pos size, omega (arith, size, laws.in_range p n ow.w end.2)) in
        rw same goal

    -- There it stands behind the whole file.
    pub in_front-IsAtEnd :
        (base : ℕ) (ow : OffsetWriteSeeker F) → IsAtEnd base ow → in_front ow ≡ files.content ow.w
    in_front-IsAtEnd base ow end =
        ap (λ o. before_offset o (files.content ow.w)) end.1
        ∙ before_all (length (files.content ow.w)) (files.content ow.w) refl

    -- The position there is the length of the file behind the base.
    pub write_position-IsAtEnd :
        (base : ℕ) (ow : OffsetWriteSeeker F)
        → IsAtEnd base ow
        → base ≤ length (files.content ow.w)
        → write_position ow ≡ pos (length (files.content ow.w) - base)
    unfolding write_position sub64 wrap64 signed64 ◌-ℤ◌
    write_position-IsAtEnd base ow (b, o, small) low = ground (arith, b, o, small)
