-- ===== src/Index.antt =====
-- v2/index: what the index implementations share.
pub mod Codec
pub mod Keeps
pub mod Single
pub mod Multi
pub mod Multihash
use go_car.Prelude.{ℕ, ◌-◌, ◌<◌, Bool, leb, ◌&&◌, if◌then◌else◌, length, take, drop}
use go_car.Bytes.{Bytes}
use go_car.Stream.{Result, ok, err, panic}

-- index.Record: a CID and the offset of its section in the data payload.
pub record Record (Cid : Type 0) : Type 0 where
  pub cid : Cid
  pub offset : ℕ

-- The Go slice expression `bs[lo:hi]`, which panics out of range.
unfoldable pub slice : ℕ → ℕ → Bytes → Result Bytes
slice lo hi bs =
    if leb lo hi && leb hi (length bs) then ok (take (hi - lo) (drop lo bs)) else err panic
