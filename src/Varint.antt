-- ===== src/Varint.antt =====
-- The package github.com/multiformats/go-varint, which is not part of the repository: its three
-- functions that the code calls, and what it documents of them.
use go_car.Prelude.{ℕ, ◌≤◌, ◌<◌, ◌^◌, ◌≡◌, ◌++◌, [], Option, none, some, length}
use go_car.Bytes.{Bytes}
use go_car.Stream.{Error, eof}

-- What ReadUvarint leaves. On an error the value is that of the bytes read so far.
pub record Uvarint : Type 0 where
  pub value : ℕ
  pub error : Option Error
  pub rest : Bytes

pub record Varint : Type 0 where
  -- the bytes that PutUvarint stores
  pub put : ℕ → Bytes
  -- UvarintSize
  pub size : ℕ → ℕ
  -- ReadUvarint
  pub read : Bytes → Uvarint

-- Values of 63 bits are stored in UvarintSize bytes and read back; a value of 56 bits takes at
-- most eight bytes; an empty stream gives io.EOF; what is read takes a byte at least and has 63
-- bits at most.
pub record VarintLaws (v : Varint) : Type 0 where
  pub size_pos : (n : ℕ) → 0 < v.size n
  pub size_max : (n : ℕ) → v.size n ≤ 10
  pub size_small : (n : ℕ) → n < 2 ^ 56 → v.size n ≤ 8
  pub length_put : (n : ℕ) → n < 2 ^ 63 → length (v.put n) ≡ v.size n
  pub read_put :
      (n : ℕ) (rest : Bytes)
      → n < 2 ^ 63
      → v.read (v.put n ++ rest) ≡ record { value = n; error = none; rest = rest }
  pub read_nil : v.read [] ≡ record { value = 0; error = some eof; rest = [] }
  pub read_shorter :
      (src : Bytes)
      → (v.read src).error ≡ none
      → (length (v.read src).rest < length src) × ((v.read src).value < 2 ^ 63)
