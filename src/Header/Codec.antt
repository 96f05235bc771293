-- ===== src/Header/Codec.antt =====
-- WriteTo and ReadFrom of the CARv2 header.
use go_car.Prelude.{ℕ, ◌+◌, ◌≤◌, ◌<◌, ◌^◌, ◌≡◌, arith, ◌++◌, append_assoc, none}
use go_car.Prelude.{take, drop, length, length-append}
use go_car.Bytes.{Bytes, le_bytes, le_value}
use go_car.Bytes.RoundTrip.{length-le_bytes, le_value-le_bytes}
use go_car.Stream.{Sink, Appends, Buffer, buffer, buffer_write}
use go_car.Stream.Laws.{take-append, drop-append, read_full-append}
use go_car.Header.{
  Characteristics, Header, IsU64, characteristics_bytes, offsets_bytes, write_header, read_header,
  read_characteristics, check_offsets, assign_offsets, pragma_size, header_size,
}

-- What ReadFrom accepts: an offset behind pragma and header, a positive size, and no value that
-- is negative as an int64.
pub record IsPlaced (h : Header) : Type 0 where
  pub data_offset_low : pragma_size + header_size ≤ h.data_offset
  pub data_offset_high : h.data_offset < 2 ^ 63
  pub data_size_low : 0 < h.data_size
  pub data_size_high : h.data_size < 2 ^ 63
  pub index_offset_high : h.index_offset < 2 ^ 63

abbrev pub header_bytes : Header → Bytes
header_bytes h = characteristics_bytes h.characteristics ++ offsets_bytes h

pub length-header_bytes :
    (h : Header)
    → (length (characteristics_bytes h.characteristics) ≡ 16) × (length (offsets_bytes h) ≡ 24)
unfolding characteristics_bytes offsets_bytes
length-header_bytes h = (
  simp (length-append, length-le_bytes) (omega arith),
  simp (length-append, length-le_bytes) (omega arith),
)

-- A header written without an error stands behind what the writer held, 40 bytes long.
pub write_header-Appends {ℓ} :
    {S : Type ℓ} (k : Sink S) (content : S → Bytes) (h : Header) (s : S)
    → Appends k content
    → (write_header k h s).error ≡ none
    → (content (write_header k h s).state ≡ content s ++ header_bytes h)
      × ((write_header k h s).count ≡ header_size)
unfolding write_header
write_header-Appends k content h s law e =
    let w = k.write (characteristics_bytes h.characteristics) s in
    ground (
      arith,
      law.all_written (characteristics_bytes h.characteristics) s,
      law.all_written (offsets_bytes h) w.state,
      length-header_bytes h,
      append_assoc (content s) (characteristics_bytes h.characteristics) (offsets_bytes h),
    )

-- A buffer with 40 bytes of room takes the header without an error.
pub write_header_fits :
    (h : Header) (b : Buffer) → header_size ≤ b.room → (write_header buffer h b).error ≡ none
unfolding write_header buffer_write
write_header_fits h b r = ground (arith, length-header_bytes h)

check_offsets-IsPlaced :
    (h : Header) → IsPlaced h → check_offsets h.data_offset h.data_size h.index_offset ≡ none
unfolding check_offsets
check_offsets-IsPlaced h p = ground arith

pub check_offsets→IsPlaced :
    (a b c : ℕ)
    → IsU64 a
    → IsU64 b
    → IsU64 c
    → check_offsets a b c ≡ none
    → (pragma_size + header_size ≤ a) × (a < 2 ^ 63) × (0 < b) × (b < 2 ^ 63) × (c < 2 ^ 63)
unfolding check_offsets
check_offsets→IsPlaced a b c ha hb hc p = ground arith

read_characteristics-append :
    (c old : Characteristics) (rest : Bytes)
    → IsU64 c.hi
    → IsU64 c.lo
    → read_characteristics old (characteristics_bytes c ++ rest)
      ≡ record { value = c; count = 16; error = none; rest = rest }
unfolding read_characteristics characteristics_bytes
read_characteristics-append c old rest hi lo =
    let l : length (le_bytes 8 c.hi ++ le_bytes 8 c.lo) ≡ 16 =
      simp (length-append, length-le_bytes) (omega arith) in
    ground (
      arith,
      read_full-append (le_bytes 8 c.hi ++ le_bytes 8 c.lo) rest 16 l,
      take-append (le_bytes 8 c.hi) (le_bytes 8 c.lo) 8 (length-le_bytes 8 c.hi),
      drop-append (le_bytes 8 c.hi) (le_bytes 8 c.lo) 8 (length-le_bytes 8 c.hi),
      le_value-le_bytes 8 c.hi hi,
      le_value-le_bytes 8 c.lo lo,
    )

offsets_decoded :
    (h : Header)
    → IsPlaced h
    → (le_value (take 8 (offsets_bytes h)) ≡ h.data_offset)
      × (le_value (take 8 (drop 8 (offsets_bytes h))) ≡ h.data_size)
      × (le_value (drop 16 (offsets_bytes h)) ≡ h.index_offset)
unfolding offsets_bytes le_bytes
offsets_decoded h p = (
  le_value-le_bytes 8 h.data_offset (omega arith),
  le_value-le_bytes 8 h.data_size (omega arith),
  le_value-le_bytes 8 h.index_offset (omega arith),
)

-- ReadFrom reads back what WriteTo wrote, whatever the receiver held and whatever follows, and
-- counts 40 bytes.
pub read_header-header_bytes :
    (h old : Header) (rest : Bytes)
    → IsU64 h.characteristics.hi
    → IsU64 h.characteristics.lo
    → IsPlaced h
    → read_header old (header_bytes h ++ rest)
      ≡ record { value = h; count = header_size; error = none; rest = rest }
unfolding read_header assign_offsets
read_header-header_bytes h old rest hi lo p = ground (
  arith,
  append_assoc (characteristics_bytes h.characteristics) (offsets_bytes h) rest,
  read_characteristics-append h.characteristics old.characteristics (offsets_bytes h ++ rest) hi lo,
  read_full-append (offsets_bytes h) rest 24 (length-header_bytes h).1,
  offsets_decoded h p,
  check_offsets-IsPlaced h p,
)
