-- ===== src/Header/Bits.antt =====
-- The fully-indexed bit of the characteristics.
use go_car.Prelude.{ℕ, ◌+◌, ◌-◌, ◌*◌, ◌/◌, ◌%◌, ◌≡◌, Bool, true, false, arith}
use go_car.Prelude.{bit_and, bit_or}
use go_car.Prelude.Bits.{
  bit_and-double, bit_and-odd, bit_or-double, bit_and-one, bit_or_step, bit_or-zero, bit_and_ones,
}
use go_car.Header.{IsU64, u64, Characteristics, is_fully_indexed, set_fully_indexed}

bit_and_128 : (a : ℕ) → bit_and a 128 ≡ a / 128 % 2 * 128
bit_and_128 a = omega (
  arith,
  bit_and-double a 64,
  bit_and-double (a / 2) 32,
  bit_and-double (a / 2 / 2) 16,
  bit_and-double (a / 2 / 2 / 2) 8,
  bit_and-double (a / 2 / 2 / 2 / 2) 4,
  bit_and-double (a / 2 / 2 / 2 / 2 / 2) 2,
  bit_and-double (a / 2 / 2 / 2 / 2 / 2 / 2) 1,
  bit_and-one (a / 2 / 2 / 2 / 2 / 2 / 2 / 2),
)

bit_or-one : (a : ℕ) → bit_or a 1 ≡ a / 2 * 2 + 1
bit_or-one a = omega (arith, bit_or_step a 1, bit_or-zero (a / 2))

bit_or_128 : (a : ℕ) → bit_or a 128 ≡ a / 256 * 256 + 128 + a % 128
bit_or_128 a = omega (
  arith,
  bit_or-double a 64,
  bit_or-double (a / 2) 32,
  bit_or-double (a / 2 / 2) 16,
  bit_or-double (a / 2 / 2 / 2) 8,
  bit_or-double (a / 2 / 2 / 2 / 2) 4,
  bit_or-double (a / 2 / 2 / 2 / 2 / 2) 2,
  bit_or-double (a / 2 / 2 / 2 / 2 / 2 / 2) 1,
  bit_or-one (a / 2 / 2 / 2 / 2 / 2 / 2 / 2),
)

bit_and_not_128 : (a : ℕ) → IsU64 a → bit_and a (u64 - 1 - 128) ≡ a / 256 * 256 + a % 128
bit_and_not_128 a h = omega (
  arith,
  bit_and-odd a 0x7fffffffffffffbf,
  bit_and-odd (a / 2) 0x3fffffffffffffdf,
  bit_and-odd (a / 2 / 2) 0x1fffffffffffffef,
  bit_and-odd (a / 2 / 2 / 2) 0xffffffffffffff7,
  bit_and-odd (a / 2 / 2 / 2 / 2) 0x7fffffffffffffb,
  bit_and-odd (a / 2 / 2 / 2 / 2 / 2) 0x3fffffffffffffd,
  bit_and-odd (a / 2 / 2 / 2 / 2 / 2 / 2) 0x1fffffffffffffe,
  bit_and-double (a / 2 / 2 / 2 / 2 / 2 / 2 / 2) 0xffffffffffffff,
  bit_and_ones 56 (a / 2 / 2 / 2 / 2 / 2 / 2 / 2 / 2) (omega arith),
)

-- Setting or clearing the fully-indexed flag of a 128-bit field makes IsFullyIndexed answer it,
-- and changes no other bit: those of Hi below and above bit 7 stay, and so does Lo.
pub set_fully_indexed_lem :
    (b : Bool) (c : Characteristics)
    → IsU64 c.hi
    → (is_fully_indexed (set_fully_indexed b c) ≡ b)
      × ((set_fully_indexed b c).hi % 128 ≡ c.hi % 128)
      × ((set_fully_indexed b c).hi / 256 ≡ c.hi / 256)
      × IsU64 (set_fully_indexed b c).hi
      × ((set_fully_indexed b c).lo ≡ c.lo)
unfolding is_fully_indexed set_fully_indexed
set_fully_indexed_lem true c h = ground (arith, bit_or_128 c.hi, bit_and_128 (bit_or c.hi 128))
set_fully_indexed_lem false c h =
    ground (arith, bit_and_not_128 c.hi h, bit_and_128 (bit_and c.hi (u64 - 1 - 128)))
