-- ===== src/OffsetIo/Seek.antt =====
-- The overflow tests of the offset reader.
use go_car.Prelude.{ℕ, ◌+◌, ◌-◌, ◌<◌, ◌≤◌, ◌^◌, ◌≡◌, arith}
use go_car.Prelude.{leb, if◌then◌else◌}
use go_car.Prelude.Int.{pos, negsuc, ◌+ℤ◌, ◌-ℤ◌}
use go_car.Stream.{offset_overflow, ok, err}
use go_car.Header.{signed64}
use go_car.OffsetIo.{
  wrap64, add64, sub64, ReaderAt, OffsetReadSeeker, seek_start, seek_current, position, offset_seek,
}

module _ (r : ReaderAt) where
  abbrev pub at : ℕ → ℕ → OffsetReadSeeker
  at base off = record { r = r; base = pos base; off = pos off }

  -- Seek from the start fails exactly if base and offset together pass the range of an int64, and
  -- then leaves the reader as it was; otherwise it answers the offset and stands there.
  pub offset_seek-seek_start :
      (base off n : ℕ)
      → base < 2 ^ 63
      → n < 2 ^ 63
      → offset_seek (pos n) seek_start (at base off) ≡ (
          if leb (2 ^ 63) (base + n)
          then (err offset_overflow, at base off)
          else (ok (pos n), at base (base + n)))
  unfolding offset_seek position add64 sub64 wrap64 signed64 ◌+ℤ◌ ◌-ℤ◌
  offset_seek-seek_start base off n hb hn = ground arith

  -- Seek backwards is tested against the start of the file, not against the base: a reader can be
  -- moved in front of its base, where it answers a negative position.
  pub offset_seek_below :
      (base off k : ℕ)
      → off < 2 ^ 63
      → base ≤ off
      → k < off
      → off < base + k + 1
      → offset_seek (negsuc k) seek_current (at base off)
        ≡ (ok (negsuc (base + k - off)), at base (off - (k + 1)))
  unfolding offset_seek position add64 sub64 wrap64 signed64 ◌+ℤ◌ ◌-ℤ◌
  offset_seek_below base off k ho hb hk h = ground arith
