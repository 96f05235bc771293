-- ===== src/Header.antt =====
-- v2/car.go: the CARv2 pragma, the characteristics and the fixed 40-byte header.
pub mod Bits
pub mod Codec
pub mod Reject
pub mod Layout
use go_car.Prelude.{ℕ, ◌+◌, ◌-◌, ◌^◌, ◌%◌, ◌<◌, List, [], ◌∷◌, ◌++◌, Option, none, some, take, drop}
use go_car.Prelude.{Bool, not, ltb, ◌==◌, if◌then◌else◌, bit_and, bit_or}
use go_car.Prelude.Int.{ℤ, pos, negsuc, ltb_ℤ}
use go_car.Bytes.{Bytes, le_bytes, le_value}
use go_car.Stream.{Error, invalid_data_offset, invalid_data_size, invalid_index_offset}
use go_car.Stream.{Full, read_full, Written, Sink}

abbrev pub u64 : ℕ
u64 = 2 ^ 64

abbrev pub IsU64 : ℕ → Type 0
IsU64 v = v < u64

-- `int64(v)` of a uint64.
unfoldable pub signed64 : ℕ → ℤ
signed64 v = if ltb v (2 ^ 63) then pos v else negsuc (u64 - v - 1)

abbrev pub pragma_size : ℕ
pragma_size = 11

abbrev pub header_size : ℕ
header_size = 40

abbrev pub characteristics_size : ℕ
characteristics_size = 16

abbrev pub pragma : Bytes
pragma = 0x0a ∷ 0xa1 ∷ 0x67 ∷ 0x76 ∷ 0x65 ∷ 0x72 ∷ 0x73 ∷ 0x69 ∷ 0x6f ∷ 0x6e ∷ 0x02 ∷ []

pub record Characteristics : Type 0 where
  pub hi : ℕ
  pub lo : ℕ

pub record Header : Type 0 where
  pub characteristics : Characteristics
  pub data_offset : ℕ
  pub data_size : ℕ
  pub index_offset : ℕ

abbrev pub zero_header : Header
zero_header = record {
  characteristics = record { hi = 0; lo = 0 };
  data_offset = 0;
  data_size = 0;
  index_offset = 0;
}

abbrev pub fully_indexed_char_pos : ℕ
fully_indexed_char_pos = 7

-- `n |= 1 << pos`.
unfoldable pub set_bit : ℕ → ℕ → ℕ
set_bit n p = bit_or n (2 ^ p)

-- `mask := uint64(^(1 << pos)); n &= mask`.
unfoldable pub unset_bit : ℕ → ℕ → ℕ
unset_bit n p = bit_and n (u64 - 1 - 2 ^ p)

unfoldable pub is_bit_set : ℕ → ℕ → Bool
is_bit_set n p = ltb 0 (bit_and n (2 ^ p))

unfoldable pub is_fully_indexed : Characteristics → Bool
unfolding is_bit_set
is_fully_indexed c = is_bit_set c.hi fully_indexed_char_pos

unfoldable pub set_fully_indexed : Bool → Characteristics → Characteristics
unfolding set_bit unset_bit
set_fully_indexed b c =
    if b
    then record c { hi = set_bit c.hi fully_indexed_char_pos }
    else record c { hi = unset_bit c.hi fully_indexed_char_pos }

unfoldable pub new_header : ℕ → Header
new_header data_size =
    let data_offset : ℕ = pragma_size + header_size in
    record {
      characteristics = record { hi = 0; lo = 0 };
      data_offset = data_offset;
      data_size = data_size;
      index_offset = (data_offset + data_size) % u64;
    }

unfoldable pub with_index_padding : ℕ → Header → Header
with_index_padding padding h = record h { index_offset = (h.index_offset + padding) % u64 }

unfoldable pub with_data_padding : ℕ → Header → Header
with_data_padding padding h = record h {
  data_offset = (pragma_size + header_size + padding) % u64;
  index_offset = (h.index_offset + padding) % u64;
}

unfoldable pub with_data_size : ℕ → Header → Header
with_data_size size h = record h { data_size = size; index_offset = (size + h.index_offset) % u64 }

unfoldable pub has_index : Header → Bool
has_index h = not (h.index_offset == 0)

-- The buffers that the two WriteTo methods fill.
unfoldable pub characteristics_bytes : Characteristics → Bytes
characteristics_bytes c = le_bytes 8 c.hi ++ le_bytes 8 c.lo

unfoldable pub offsets_bytes : Header → Bytes
offsets_bytes h = le_bytes 8 h.data_offset ++ (le_bytes 8 h.data_size ++ le_bytes 8 h.index_offset)

module _ {ℓ} {S : Type ℓ} (k : Sink S) where
  unfoldable pub write_characteristics : Characteristics → S → Written S
  write_characteristics c s = k.write (characteristics_bytes c) s

  unfoldable pub write_header : Header → S → Written S
  unfolding write_characteristics
  write_header h s =
      let first = write_characteristics h.characteristics s in
      elim first.error [
        | some e ↦ first
        | none ↦
            let second = k.write (offsets_bytes h) first.state in
            record second { count = first.count + second.count }
      ]

-- What Characteristics.ReadFrom leaves: the receiver, the count, the error and the reader.
pub record CharacteristicsRead : Type 0 where
  pub value : Characteristics
  pub count : ℕ
  pub error : Option Error
  pub rest : Bytes

unfoldable pub read_characteristics : Characteristics → Bytes → CharacteristicsRead
read_characteristics c src =
    let full = read_full characteristics_size src in
    elim full.error [
      | some e ↦ record { value = c; count = full.count; error = some e; rest = full.rest }
      | none ↦ record {
        value = record { hi = le_value (take 8 full.buf); lo = le_value (drop 8 full.buf) };
        count = full.count;
        error = none;
        rest = full.rest;
      }
    ]

-- What Header.ReadFrom leaves.
pub record HeaderRead : Type 0 where
  pub value : Header
  pub count : ℕ
  pub error : Option Error
  pub rest : Bytes

-- The three assertions on the offsets, in their order.
unfoldable pub check_offsets : ℕ → ℕ → ℕ → Option Error
unfolding signed64
check_offsets data_offset data_size index_offset =
    if ltb_ℤ (signed64 data_offset) (pos (pragma_size + header_size))
    then some invalid_data_offset
    else if not (ltb_ℤ (pos 0) (signed64 data_size))
    then some invalid_data_size
    else if ltb_ℤ (signed64 index_offset) (pos 0)
    then some invalid_index_offset
    else none

-- From the full buffer of 24 bytes on: decode, assert, and only then assign.
unfoldable pub assign_offsets : Header → ℕ → Bytes → Bytes → HeaderRead
assign_offsets h n buf rest =
    let data_offset = le_value (take 8 buf) in
    let data_size = le_value (take 8 (drop 8 buf)) in
    let index_offset = le_value (drop 16 buf) in
    elim (check_offsets data_offset data_size index_offset) [
      | some e ↦ record { value = h; count = n; error = some e; rest = rest }
      | none ↦ record {
        value = record h {
          data_offset = data_offset;
          data_size = data_size;
          index_offset = index_offset;
        };
        count = n;
        error = none;
        rest = rest;
      }
    ]

unfoldable pub read_header : Header → Bytes → HeaderRead
read_header h src =
    let first = read_characteristics h.characteristics src in
    let h' = record h { characteristics = first.value } in
    elim first.error [
      | some e ↦ record { value = h'; count = first.count; error = some e; rest = first.rest }
      | none ↦
          let full = read_full 24 first.rest in
          let n = first.count + full.count in
          elim full.error [
            | some e ↦ record { value = h'; count = n; error = some e; rest = full.rest }
            | none ↦ assign_offsets h' n full.buf full.rest
          ]
    ]
