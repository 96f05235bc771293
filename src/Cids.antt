-- ===== src/Cids.antt =====
-- The packages go-cid and go-multihash, which are not part of the repository: the functions that
-- the code calls, over a type of CIDs, and what they document.
use go_car.Prelude.{ℕ, ◌<◌, ◌≡◌, ◌↔◌, ◌++◌, Bool, true, length}
use go_car.Bytes.{Bytes}
use go_car.Stream.{Result, ok}

-- multihash.DecodedMultihash, as far as it is used.
pub record Decoded : Type 0 where
  pub code : ℕ
  pub digest : Bytes

pub record CidLib (Cid : Type 0) : Type 0 where
  -- Cid.Bytes
  pub to_bytes : Cid → Bytes
  -- CidFromBytes, and CidFromReader: the count of bytes taken from the front, and the CID
  pub from_bytes : Bytes → Result (ℕ × Cid)
  pub from_reader : Bytes → Result (ℕ × Cid)
  -- Cid.Equals, also `==` on CIDs
  pub equals : Cid → Cid → Bool
  -- Cid.Hash, Cid.Prefix().Sum and Cid.Prefix().MhType
  pub hash : Cid → Bytes
  pub sum : Cid → Bytes → Result Cid
  pub mh_type : Cid → ℕ
  -- multihash.Decode
  pub decode : Bytes → Result Decoded

pub record CidLaws {Cid : Type 0} (lib : CidLib Cid) : Type 0 where
  pub equals_iff : (a b : Cid) → (lib.equals a b ≡ true) ↔ (a ≡ b)
  pub to_bytes_pos : (c : Cid) → 0 < length (lib.to_bytes c)
  pub from_bytes-to_bytes :
      (c : Cid) (rest : Bytes)
      → lib.from_bytes (lib.to_bytes c ++ rest) ≡ ok (length (lib.to_bytes c), c)
  pub from_reader-to_bytes :
      (c : Cid) (rest : Bytes)
      → lib.from_reader (lib.to_bytes c ++ rest) ≡ ok (length (lib.to_bytes c), c)

-- A block of go-block-format: its CID and its data.
pub record Block (Cid : Type 0) : Type 0 where
  pub cid : Cid
  pub raw : Bytes
