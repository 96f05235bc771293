-- ===== src/Bytes/RoundTrip.antt =====
-- Little-endian numbers are read back, and byte strings are compared as they should be.
use go_car.Prelude.{ℕ, zero, suc, ◌≤◌, take, drop, ◌*◌, ◌/◌, ◌^◌, ◌<◌, ◌≡◌, refl, ap, arith}
use go_car.Prelude.{[], ◌∷◌, length, true, false}
use go_car.Bytes.{Bytes, AllBytes, le_bytes, le_value, bytes_equal, bytes_less}
use native.Mathlib.Nat.{pow-suc}

pub length-le_bytes : (k v : ℕ) → length (le_bytes k v) ≡ k
unfolding le_bytes
length-le_bytes zero v = refl
length-le_bytes (suc k) v = ap suc (length-le_bytes k (v / 256))

pub le_value-le_bytes : (k v : ℕ) → v < 256 ^ k → le_value (le_bytes k v) ≡ v
unfolding le_bytes le_value
le_value-le_bytes zero v h = omega arith
le_value-le_bytes (suc k) v h =
    let e : 256 ^ suc k ≡ 256 * 256 ^ k = omega (arith, pow-suc 256 k) in
    omega (arith, le_value-le_bytes k (v / 256) (omega (arith, e)))

pub bytes_equal_refl : (xs : Bytes) → bytes_equal xs xs ≡ true
unfolding bytes_equal
bytes_equal_refl [] = refl
bytes_equal_refl (x ∷ xs) = ground (arith, bytes_equal_refl xs)

pub bytes_equal→eq : (xs ys : Bytes) → bytes_equal xs ys ≡ true → xs ≡ ys
unfolding bytes_equal
bytes_equal→eq [] [] h = refl
bytes_equal→eq [] (y ∷ ys) h = cc
bytes_equal→eq (x ∷ xs) [] h = cc
bytes_equal→eq (x ∷ xs) (y ∷ ys) h = ground (arith, bytes_equal→eq xs ys)

pub bytes_less_irrefl : (xs : Bytes) → bytes_less xs xs ≡ false
unfolding bytes_less
bytes_less_irrefl [] = refl
bytes_less_irrefl (x ∷ xs) = ground (arith, bytes_less_irrefl xs)

pub bytes_less_trans :
    (xs ys zs : Bytes) → bytes_less xs ys ≡ true → bytes_less ys zs ≡ true → bytes_less xs zs ≡ true
unfolding bytes_less
bytes_less_trans [] [] zs h k = cc
bytes_less_trans [] (y ∷ ys) [] h k = cc
bytes_less_trans [] (y ∷ ys) (z ∷ zs) h k = refl
bytes_less_trans (x ∷ xs) [] zs h k = cc
bytes_less_trans (x ∷ xs) (y ∷ ys) [] h k = cc
bytes_less_trans (x ∷ xs) (y ∷ ys) (z ∷ zs) h k = ground (arith, bytes_less_trans xs ys zs)

-- Of two strings of which neither is less than the other, both are the same.
pub bytes_less_tri : (xs ys : Bytes) → bytes_less xs ys ≡ false → bytes_less ys xs ≡ false → xs ≡ ys
unfolding bytes_less
bytes_less_tri [] [] h k = refl
bytes_less_tri [] (y ∷ ys) h k = cc
bytes_less_tri (x ∷ xs) [] h k = cc
bytes_less_tri (x ∷ xs) (y ∷ ys) h k = ground (arith, bytes_less_tri xs ys)

pub AllBytes-take : (n : ℕ) (bs : Bytes) → AllBytes bs → AllBytes (take n bs)
AllBytes-take zero bs h = tt
AllBytes-take (suc n) [] h = tt
AllBytes-take (suc n) (b ∷ bs) h = (h.0, AllBytes-take n bs h.1)

pub AllBytes-drop : (n : ℕ) (bs : Bytes) → AllBytes bs → AllBytes (drop n bs)
AllBytes-drop zero bs h = h
AllBytes-drop (suc n) [] h = tt
AllBytes-drop (suc n) (b ∷ bs) h = AllBytes-drop n bs h.1

pub le_value-lt : (k : ℕ) (bs : Bytes) → AllBytes bs → length bs ≤ k → le_value bs < 256 ^ k
unfolding le_value
le_value-lt zero [] h l = omega arith
le_value-lt zero (b ∷ bs) h l = absurd (omega arith)
le_value-lt (suc k) [] h l = omega (arith, pow-suc 256 k, le_value-lt k [] h (omega arith))
le_value-lt (suc k) (b ∷ bs) h l = omega (arith, pow-suc 256 k, le_value-lt k bs h.1 (omega arith))

-- What is not below `xs` is not below what `xs` is below.
pub bytes_less-le_trans :
    (xs ys zs : Bytes)
    → bytes_less ys xs ≡ false
    → bytes_less ys zs ≡ true
    → bytes_less xs zs ≡ true
unfolding bytes_less
bytes_less-le_trans [] [] [] h k = cc
bytes_less-le_trans [] [] (z ∷ zs) h k = refl
bytes_less-le_trans [] (y ∷ ys) [] h k = cc
bytes_less-le_trans [] (y ∷ ys) (z ∷ zs) h k = refl
bytes_less-le_trans (x ∷ xs) [] zs h k = cc
bytes_less-le_trans (x ∷ xs) (y ∷ ys) [] h k = cc
bytes_less-le_trans (x ∷ xs) (y ∷ ys) (z ∷ zs) h k = ground (arith, bytes_less-le_trans xs ys zs)
