-- ===== src/Prelude/Bits.antt =====
-- Laws of `bit_and` and `bit_or` at variables. Both stand for one recursion on the binary digits,
-- so that the law of the lowest digit is proved once, for any operation on digits.
use Prim.Native.Nat.{
  ℕ, zero, suc, ◌+◌, ◌-◌, ◌*◌, ◌/◌, ◌%◌, ◌^◌, ◌≤◌, ◌<◌, min, max, bit_and, bit_or, digits, bitwise,
  bit_and-bitwise, bit_or-bitwise,
}
use mathlib.Core.Path.{◌≡◌, refl}
use native.Mathlib.Nat.{pow-suc}
use native.Mathlib.Omega.{arith}

module _ (base : ℕ → ℕ) (op : ℕ → ℕ → ℕ) where
  -- Any fuel that is at least the number gives the same digits.
  digits-bitwise :
      (bound fuel x y : ℕ) → x ≤ bound → x ≤ fuel → digits base op fuel x y ≡ bitwise base op x y
  digits-bitwise bound zero zero y small le = refl
  digits-bitwise bound (suc fuel) zero y small le = refl
  digits-bitwise bound zero (suc x) y small le = absurd (omega arith)
  digits-bitwise zero (suc fuel) (suc x) y small le = absurd (omega arith)
  digits-bitwise (suc bound) (suc fuel) (suc x) y small le =
      let given : _ = digits-bitwise bound fuel (suc x / 2) (y / 2) (omega arith) (omega arith) in
      let least : _ = digits-bitwise bound x (suc x / 2) (y / 2) (omega arith) (omega arith) in
      omega (arith, given, least)

  -- The lowest digit of an operation whose base is in line with it.
  bitwise_low :
      ((y : ℕ) → base y ≡ base (y / 2) * 2 + op 0 (y % 2))
      → (x y : ℕ) → bitwise base op x y ≡ bitwise base op (x / 2) (y / 2) * 2 + op (x % 2) (y % 2)
  bitwise_low agree zero y = agree y
  bitwise_low agree (suc x) y =
      let half : _ = digits-bitwise x x (suc x / 2) (y / 2) (omega arith) (omega arith) in
      omega (arith, half)

bit_and_low : (x y : ℕ) → bit_and x y ≡ bit_and (x / 2) (y / 2) * 2 + min (x % 2) (y % 2)
bit_and_low x y =
    let low : _ = bitwise_low (λ _. zero) min (λ _. omega arith) x y in
    omega (arith, low, bit_and-bitwise x y, bit_and-bitwise (x / 2) (y / 2))

pub bit_or_step : (x y : ℕ) → bit_or x y ≡ bit_or (x / 2) (y / 2) * 2 + max (x % 2) (y % 2)
bit_or_step x y =
    let low : _ = bitwise_low (λ y. y) max (λ _. omega arith) x y in
    omega (arith, low, bit_or-bitwise x y, bit_or-bitwise (x / 2) (y / 2))

module _ (f : ℕ → ℕ) where
  -- A function that follows the halves of its argument down to zero, by induction on a bound.
  zero_halves : f 0 ≡ 0 → ((x : ℕ) → f x ≡ f (x / 2) * 2) → (bound x : ℕ) → x ≤ bound → f x ≡ 0
  zero_halves start half zero zero le = start
  zero_halves start half zero (suc x) le = absurd (omega arith)
  zero_halves start half (suc bound) x le =
      omega (arith, half x, zero_halves start half bound (x / 2) (omega arith))

  same_halves :
      f 0 ≡ 0 → ((x : ℕ) → f x ≡ f (x / 2) * 2 + x % 2) → (bound x : ℕ) → x ≤ bound → f x ≡ x
  same_halves start half zero zero le = start
  same_halves start half zero (suc x) le = absurd (omega arith)
  same_halves start half (suc bound) x le =
      omega (arith, half x, same_halves start half bound (x / 2) (omega arith))

pub bit_and_none : (x : ℕ) → bit_and x 0 ≡ 0
bit_and_none x =
    zero_halves (λ x. bit_and x 0) refl (λ x. omega (arith, bit_and_low x 0)) x x (omega arith)

pub bit_or-zero : (x : ℕ) → bit_or x 0 ≡ x
bit_or-zero x =
    same_halves (λ x. bit_or x 0) refl (λ x. omega (arith, bit_or_step x 0)) x x (omega arith)

pow_pos : (k : ℕ) → 0 < 2 ^ k
pow_pos zero = omega arith
pow_pos (suc k) =
    let e : 2 ^ suc k ≡ 2 * 2 ^ k = omega (arith, pow-suc 2 k) in omega (arith, e, pow_pos k)

pub bit_and-one : (x : ℕ) → bit_and x 1 ≡ x % 2
bit_and-one x =
    let low : _ = bit_and_low x 1 in let rest : _ = bit_and_none (x / 2) in omega (arith, low, rest)

pub bit_and-double : (a m : ℕ) → bit_and a (2 * m) ≡ bit_and (a / 2) m * 2
bit_and-double a m =
    let e : 2 * m / 2 ≡ m = omega arith in
    let s : _ = bit_and_low a (2 * m) in omega (arith, rw e at s)

pub bit_or-double : (a m : ℕ) → bit_or a (2 * m) ≡ bit_or (a / 2) m * 2 + a % 2
bit_or-double a m =
    let e : 2 * m / 2 ≡ m = omega arith in
    let s : _ = bit_or_step a (2 * m) in omega (arith, rw e at s)

pub bit_and-odd : (a m : ℕ) → bit_and a (2 * m + 1) ≡ bit_and (a / 2) m * 2 + a % 2
bit_and-odd a m =
    let e : (2 * m + 1) / 2 ≡ m = omega arith in
    let s : _ = bit_and_low a (2 * m + 1) in omega (arith, rw e at s)

-- A mask of `k` ones.
pub bit_and_ones : (k a : ℕ) → a < 2 ^ k → bit_and a (2 ^ k - 1) ≡ a
bit_and_ones zero a h = omega (arith, bit_and_none a)
bit_and_ones (suc k) a h =
    let e : 2 ^ suc k ≡ 2 * 2 ^ k = omega (arith, pow-suc 2 k) in
    let d : (2 ^ suc k - 1) / 2 ≡ 2 ^ k - 1 = omega (arith, e) in
    let s : _ = bit_and_low a (2 ^ suc k - 1) in
    omega (arith, rw d at s, bit_and_ones k (a / 2) (omega (arith, e)), e, pow_pos k)
