-- ===== src/File.antt =====
-- os.File: a file that is open for reading and writing, as the operations that the code calls. Reads
-- see its content and do not fail; a write may fail after a part of its bytes.
pub mod Overwrite
use go_car.Prelude.{ℕ, ◌+◌, ◌-◌, ◌<◌, ◌≤◌, ◌^◌, ◌≡◌, ◌≢◌, ◌++◌, Option, none, take, drop, length}
use go_car.Prelude.{List, [], ◌∷◌, zero, suc}
use go_car.Prelude.Int.{ℤ, pos, negsuc}
use go_car.Bytes.{Bytes}
use go_car.Stream.{Error}

abbrev pub zeros : ℕ → Bytes
zeros zero = []
zeros (suc n) = 0 ∷ zeros n

-- The first `n` bytes of a file, filled up with zeros where the file is shorter.
unfoldable pub before : ℕ → Bytes → Bytes
before n content = take n content ++ zeros (n - length content)

-- The bytes `p`, written at the offset `n`; to write none does not make the file longer.
unfoldable pub overwrite : ℕ → Bytes → Bytes → Bytes
unfolding before
overwrite n [] content = content
overwrite n (x ∷ p) content = before n content ++ (x ∷ p ++ drop (n + length (x ∷ p)) content)

pub record FileLib (F : Type 0) : Type 0 where
  pub content : F → Bytes
  -- WriteAt: the count of bytes written, and the error
  pub write_at : Bytes → ℤ → F → (ℕ × Option Error) × F
  pub truncate : ℕ → F → Option Error × F
  pub close : F → Option Error

-- A write leaves at its offset the bytes that it counts; without an error those are all. It fails
-- at a negative offset, and where an offset behind it would not be an int64. Truncate cuts.
pub record FileLaws {F : Type 0} (lib : FileLib F) : Type 0 where
  pub written :
      (p : Bytes) (n : ℕ) (f : F)
      → lib.content (lib.write_at p (pos n) f).1
        ≡ overwrite n (take (lib.write_at p (pos n) f).0.0 p) (lib.content f)
  pub counted : (p : Bytes) (n : ℕ) (f : F) → (lib.write_at p (pos n) f).0.0 ≤ length p
  pub in_range :
      (p : Bytes) (n : ℕ) (f : F) → n < 2 ^ 63 → n + (lib.write_at p (pos n) f).0.0 < 2 ^ 63
  pub beyond : (p : Bytes) (n : ℕ) (f : F) → 2 ^ 63 ≤ n → (lib.write_at p (pos n) f).0.1 ≢ none
  pub complete :
      (p : Bytes) (n : ℕ) (f : F)
      → (lib.write_at p (pos n) f).0.1 ≡ none
      → (lib.write_at p (pos n) f).0.0 ≡ length p
  pub negative : (p : Bytes) (n : ℕ) (f : F) → (lib.write_at p (negsuc n) f).0.1 ≢ none
  pub truncated :
      (n : ℕ) (f : F)
      → (lib.truncate n f).0 ≡ none
      → n ≤ length (lib.content f)
      → lib.content (lib.truncate n f).1 ≡ take n (lib.content f)
