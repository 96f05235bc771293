-- ===== src/Tests/Headers.antt =====
-- Runs on CARv2 headers.
use go_car.Prelude.{◌/◌, ◌%◌, ◌≡◌, refl, arith, [], ◌∷◌, ◌++◌, none, some, drop}
use go_car.Prelude.{true, ◌==◌, ◌||◌, length, if◌then◌else◌}
use go_car.Bytes.{Bytes, le_bytes, le_value}
use go_car.Stream.{eof, unexpected_eof, Buffer, buffer, buffer_write, read_full}
use go_car.Header.{
  Characteristics, Header, IsU64, header_size, new_header, with_data_padding, with_index_padding,
  has_index, set_fully_indexed, is_fully_indexed, write_header, read_header, read_characteristics,
  assign_offsets, check_offsets, signed64, characteristics_bytes, offsets_bytes,
}
use go_car.Header.Bits.{set_fully_indexed_lem}
use go_car.Header.Layout.{paddings_commute}
use go_car.Header.Codec.{IsPlaced, header_bytes, read_header-header_bytes}
use go_car.Header.Reject.{read_header-IsPlaced, read_header_short}

abbrev flags : Characteristics
flags = record { hi = 0x8000_0000_0000_0001; lo = 7 }

abbrev sample : Header
sample = record {
  characteristics = flags;
  data_offset = 1387;
  data_size = 479907;
  index_offset = 500000;
}

abbrev empty_buffer : Buffer
empty_buffer = record { out = []; room = 64 }

program : Unit {0}
unfolding write_header read_header read_characteristics assign_offsets check_offsets signed64
    characteristics_bytes offsets_bytes le_bytes le_value read_full buffer_write new_header
    has_index
program = tt

write_then_read :
    (read_header sample ((write_header buffer (new_header 521859) empty_buffer).state.out)).value
    ≡ new_header 521859
unfolding program
write_then_read = refl

small_room : (write_header buffer sample (record { out = []; room = 20 })).count ≡ 20
unfolding program
small_room = refl

set_fully_indexed_lem_example :
    (is_fully_indexed (set_fully_indexed true flags) ≡ true)
    × ((set_fully_indexed true flags).hi % 128 ≡ 1)
    × ((set_fully_indexed true flags).hi / 256 ≡ 0x80_0000_0000_0000)
    × IsU64 (set_fully_indexed true flags).hi
    × ((set_fully_indexed true flags).lo ≡ 7)
set_fully_indexed_lem_example = set_fully_indexed_lem true flags (omega arith)

paddings_commute_example :
    with_data_padding 5 (with_index_padding 9 sample)
    ≡ with_index_padding 9 (with_data_padding 5 sample)
paddings_commute_example = paddings_commute 5 9 sample

read_header-header_bytes_example :
    read_header (new_header 0) (header_bytes sample ++ (9 ∷ []))
    ≡ record { value = sample; count = header_size; error = none; rest = 9 ∷ [] }
read_header-header_bytes_example =
    read_header-header_bytes sample (new_header 0) (9 ∷ []) (omega arith) (omega arith)
      (omega arith)

abbrev stored : Bytes
stored =
    0 ∷ 0 ∷ 0 ∷ 0 ∷ 0 ∷ 0 ∷ 0 ∷ 0 ∷ 0 ∷ 0 ∷ 0 ∷ 0 ∷ 0 ∷ 0 ∷ 0 ∷ 0 ∷ 51 ∷ 0 ∷ 0 ∷ 0 ∷ 0 ∷ 0 ∷ 0 ∷ 0
    ∷ 9 ∷ 0 ∷ 0 ∷ 0 ∷ 0 ∷ 0 ∷ 0 ∷ 0 ∷ 60 ∷ 0 ∷ 0 ∷ 0 ∷ 0 ∷ 0 ∷ 0 ∷ 0 ∷ 8 ∷ []

stored_accepted : (read_header sample stored).error ≡ none
unfolding program
stored_accepted = refl

read_header-IsPlaced_example :
    IsPlaced (read_header sample stored).value
    × ((read_header sample stored).count ≡ header_size)
    × ((read_header sample stored).rest ≡ drop header_size stored)
read_header-IsPlaced_example = read_header-IsPlaced sample stored (omega arith) stored_accepted

abbrev short : Bytes
short = 1 ∷ 2 ∷ []

read_header_short_example :
    (read_header sample short).error
    ≡ (if (length short == 0) || (length short == 16) then some eof else some unexpected_eof)
read_header_short_example = read_header_short sample short (omega arith)
