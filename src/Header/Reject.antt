-- ===== src/Header/Reject.antt =====
-- What ReadFrom refuses.
use go_car.Prelude.{ℕ, ◌+◌, ◌≤◌, ◌<◌, ◌^◌, ◌≡◌, arith, none, some}
use go_car.Prelude.{take, drop, length, length-take, length-drop, if◌then◌else◌, ◌==◌, ◌||◌}
use go_car.Bytes.{Bytes, AllBytes, le_value}
use go_car.Bytes.RoundTrip.{le_value-lt, AllBytes-take, AllBytes-drop}
use go_car.Stream.{eof, unexpected_eof, read_full}
use go_car.Stream.Laws.{drop-drop}
use go_car.Header.{
  pragma_size, Characteristics, Header, read_header, read_characteristics, check_offsets,
  assign_offsets, header_size,
}
use go_car.Header.Codec.{IsPlaced, check_offsets→IsPlaced}

value8 : (bs : Bytes) → AllBytes bs → le_value (take 8 bs) < 2 ^ 64
value8 bs h =
    let l : _ = length-take 8 bs in
    omega (arith, le_value-lt 8 (take 8 bs) (AllBytes-take 8 bs h) (omega (arith, l)))

last8 : (bs : Bytes) → AllBytes bs → length bs ≤ 24 → le_value (drop 16 bs) < 2 ^ 64
last8 bs h l =
    let d = length-drop 16 bs in
    omega (arith, le_value-lt 8 (drop 16 bs) (AllBytes-drop 16 bs h) (omega (arith, d)))

offsets_ok :
    (bs : Bytes)
    → AllBytes bs
    → length bs ≤ 24
    → check_offsets (le_value (take 8 bs)) (le_value (take 8 (drop 8 bs))) (le_value (drop 16 bs))
      ≡ none
    → (pragma_size + header_size ≤ le_value (take 8 bs))
      × (le_value (take 8 bs) < 2 ^ 63)
      × (0 < le_value (take 8 (drop 8 bs)))
      × (le_value (take 8 (drop 8 bs)) < 2 ^ 63)
      × (le_value (drop 16 bs) < 2 ^ 63)
offsets_ok bs h l =
    check_offsets→IsPlaced (le_value (take 8 bs)) (le_value (take 8 (drop 8 bs)))
      (le_value (drop 16 bs)) (value8 bs h) (value8 (drop 8 bs) (AllBytes-drop 8 bs h))
      (last8 bs h l)

read_full_ok :
    (n : ℕ) (src : Bytes)
    → (read_full n src).error ≡ none
    → ((read_full n src).buf ≡ take n src)
      × ((read_full n src).count ≡ n)
      × ((read_full n src).rest ≡ drop n src)
unfolding read_full
read_full_ok n src e = ground arith

read_characteristics_ok :
    (c : Characteristics) (src : Bytes)
    → (read_characteristics c src).error ≡ none
    → ((read_characteristics c src).count ≡ 16) × ((read_characteristics c src).rest ≡ drop 16 src)
unfolding read_characteristics
read_characteristics_ok c src e = ground (arith, read_full_ok 16 src)

assign_offsets-IsPlaced :
    (h : Header) (n : ℕ) (buf rest : Bytes)
    → AllBytes buf
    → length buf ≤ 24
    → (assign_offsets h n buf rest).error ≡ none
    → IsPlaced (assign_offsets h n buf rest).value
      × ((assign_offsets h n buf rest).count ≡ n)
      × ((assign_offsets h n buf rest).rest ≡ rest)
unfolding assign_offsets
assign_offsets-IsPlaced h n buf rest b l e = ground (arith, offsets_ok buf b l)

-- A header that ReadFrom accepts, from any bytes and into any receiver, is placed: its payload
-- starts behind pragma and header, is not empty, and no offset is negative as an int64. Forty
-- bytes are taken.
pub read_header-IsPlaced :
    (old : Header) (src : Bytes)
    → AllBytes src
    → (read_header old src).error ≡ none
    → IsPlaced (read_header old src).value
      × ((read_header old src).count ≡ header_size)
      × ((read_header old src).rest ≡ drop header_size src)
unfolding read_header
read_header-IsPlaced old src h e =
    let tail = take 24 (drop 16 src) in
    let h' = record old {
      characteristics = (read_characteristics old.characteristics src).value;
    } in
    ground (
      arith,
      read_characteristics_ok old.characteristics src,
      read_full_ok 24 (read_characteristics old.characteristics src).rest,
      assign_offsets-IsPlaced h' 40 tail (drop 24 (drop 16 src))
          (AllBytes-take 24 (drop 16 src) (AllBytes-drop 16 src h))
          (omega (arith, length-take 24 (drop 16 src))),
      drop-drop 24 16 src,
    )

-- A stream that ends inside the header is refused. The error is io.EOF when nothing could be read,
-- and also when the stream ends right behind the characteristics; anywhere else it is
-- io.ErrUnexpectedEOF.
pub read_header_short :
    (old : Header) (src : Bytes)
    → length src < header_size
    → (read_header old src).error
      ≡ (if (length src == 0) || (length src == 16) then some eof else some unexpected_eof)
unfolding read_header read_characteristics read_full
read_header_short old src h = ground (arith, length-drop 16 src)
