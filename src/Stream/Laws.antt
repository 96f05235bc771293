-- ===== src/Stream/Laws.antt =====
-- `read_full` on a long enough input, and the buffer as an io.Writer.
use go_car.Prelude.{ℕ, zero, suc, ◌+◌, ◌≤◌, ◌≡◌, refl, ap, List, [], ◌∷◌, ◌++◌, none, arith}
use go_car.Prelude.{take, drop, length, length-append}
use native.Mathlib.Nat.{zero-add, add-zero, suc-add}
use go_car.Bytes.{Bytes}
use go_car.Stream.{read_full, Appends, Buffer, buffer_write, buffer}

module _ {ℓ} {A : Type ℓ} where
  pub take-append : (xs ys : List A) (n : ℕ) → length xs ≡ n → take n (xs ++ ys) ≡ xs
  take-append [] ys zero h = refl
  take-append [] ys (suc n) h = absurd (omega arith)
  take-append (x ∷ xs) ys zero h = absurd (omega arith)
  take-append (x ∷ xs) ys (suc n) h = ap (λ l. x ∷ l) (take-append xs ys n (omega arith))

  pub drop-append : (xs ys : List A) (n : ℕ) → length xs ≡ n → drop n (xs ++ ys) ≡ ys
  drop-append [] ys zero h = refl
  drop-append [] ys (suc n) h = absurd (omega arith)
  drop-append (x ∷ xs) ys zero h = absurd (omega arith)
  drop-append (x ∷ xs) ys (suc n) h = drop-append xs ys n (omega arith)

  pub drop-drop : (m n : ℕ) (xs : List A) → drop m (drop n xs) ≡ drop (n + m) xs
  drop-drop m zero xs = rw zero-add
  drop-drop zero (suc n) [] = rw add-zero
  drop-drop (suc m) (suc n) [] = rw suc-add
  drop-drop m (suc n) (x ∷ xs) = rw suc-add (drop-drop m n xs)

  pub drop_all : (xs : List A) (n : ℕ) → length xs ≤ n → drop n xs ≡ []
  drop_all [] zero h = refl
  drop_all [] (suc n) h = refl
  drop_all (x ∷ xs) zero h = absurd (omega arith)
  drop_all (x ∷ xs) (suc n) h = drop_all xs n (omega arith)

  pub take_all : (xs : List A) (n : ℕ) → length xs ≤ n → take n xs ≡ xs
  take_all [] zero h = refl
  take_all [] (suc n) h = refl
  take_all (x ∷ xs) zero h = absurd (omega arith)
  take_all (x ∷ xs) (suc n) h = ap (λ l. x ∷ l) (take_all xs n (omega arith))

-- A read of exactly the bytes that stand in front.
pub read_full-append :
    (p rest : Bytes) (n : ℕ)
    → length p ≡ n
    → read_full n (p ++ rest) ≡ record { buf = p; count = n; error = none; rest = rest }
unfolding read_full
read_full-append p rest n h =
    ground (arith, take-append p rest n h, drop-append p rest n h, length-append p rest)

-- The buffer keeps the contract of io.Writer.
pub buffer-Appends : Appends buffer (λ b. b.out)
unfolding buffer_write
buffer-Appends = record { all_written = λ p s h. ground (arith, take_all p s.room) }

pub buffer_write-error :
    (p : Bytes) (b : Buffer) → length p ≤ b.room → (buffer_write p b).error ≡ none
unfolding buffer_write
buffer_write-error p b h = ground arith
