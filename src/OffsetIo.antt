-- ===== src/OffsetIo.antt =====
-- v2/internal/io/offset_read_seeker.go and offset_write_seeker.go: a reader and a writer that stand
-- in a file from a base offset on. The offsets are int64 values, and their sums wrap around.
pub mod Seek
pub mod Writer
pub mod PastEnd
use go_car.Prelude.{ℕ, ◌+◌, ◌-◌, ◌%◌, ◌<◌, ◌≤◌, ◌^◌, List, [], Option, none, some, length}
use go_car.Prelude.{Bool, if◌then◌else◌}
use go_car.Prelude.Int.{ℤ, pos, negsuc, ◌+ℤ◌, ◌-ℤ◌, ltb_ℤ}
use go_car.Bytes.{Bytes}
use go_car.Stream.{Error, eof, offset_overflow, offset_underflow, panic, Result, ok, err}
use go_car.Header.{u64, signed64}

-- The int64 that a sum or a difference leaves.
unfoldable pub wrap64 : ℤ → ℤ
unfolding signed64
wrap64 (pos n) = signed64 (n % u64)
wrap64 (negsuc n) = signed64 (u64 - 1 - n % u64)

unfoldable pub add64 : ℤ → ℤ → ℤ
unfolding wrap64 ◌+ℤ◌
add64 a b = wrap64 (a +ℤ b)

unfoldable pub sub64 : ℤ → ℤ → ℤ
unfolding wrap64 ◌-ℤ◌
sub64 a b = wrap64 (a -ℤ b)

-- What `ReadAt(p, off)` and `Read(p)` leave: the bytes read, and the error.
pub record ReadBytes : Type 0 where
  pub bytes : Bytes
  pub error : Option Error

-- io.ReaderAt: the read of a number of bytes at an offset.
abbrev pub ReaderAt : Type 0
ReaderAt = ℕ → ℤ → ReadBytes

pub record OffsetReadSeeker : Type 0 where
  pub r : ReaderAt
  pub base : ℤ
  pub off : ℤ

pub data Whence : Type 0 where
  seek_start seek_current seek_end : Whence

-- NewOffsetReadSeeker over a reader that is not one itself, and over one that is.
unfoldable pub new_offset_read_seeker : ReaderAt → ℤ → OffsetReadSeeker
new_offset_read_seeker r off = record { r = r; base = off; off = off }

unfoldable pub nested_offset_read_seeker : OffsetReadSeeker → ℤ → Result OffsetReadSeeker
unfolding add64
nested_offset_read_seeker o off =
    let new_base = add64 o.base off in
    if ltb_ℤ new_base o.base
    then err offset_overflow
    else ok (record { r = o.r; base = new_base; off = new_base })

-- Read of `n` bytes.
unfoldable pub offset_read : ℕ → OffsetReadSeeker → ReadBytes × OffsetReadSeeker
unfolding add64
offset_read n o =
    let read = o.r n o.off in
    let off = add64 o.off (pos (length read.bytes)) in
    if ltb_ℤ off o.off
    then (record { bytes = []; error = some offset_overflow }, o)
    else (read, record o { off = off })

unfoldable pub offset_read_at : ℕ → ℤ → OffsetReadSeeker → ReadBytes
unfolding add64
offset_read_at n off o =
    if ltb_ℤ off (pos 0)
    then record { bytes = []; error = some eof }
    else let off' = add64 off o.base in
      if ltb_ℤ off' off then record { bytes = []; error = some offset_overflow } else o.r n off'

unfoldable pub position : OffsetReadSeeker → ℤ
unfolding sub64
position o = sub64 o.off o.base

unfoldable pub offset_seek : ℤ → Whence → OffsetReadSeeker → Result ℤ × OffsetReadSeeker
unfolding add64 sub64 position
offset_seek offset seek_start o =
    let off = add64 offset o.base in
    if ltb_ℤ off offset
    then (err offset_overflow, o)
    else let o' = record o { off = off } in (ok (position o'), o')
offset_seek offset seek_current o =
    let off = add64 o.off offset in
    let o' = record o { off = off } in
    if ltb_ℤ offset (pos 0)
    then (if ltb_ℤ o.off (sub64 (pos 0) offset)
        then (err offset_underflow, o)
        else (ok (position o'), o'))
    else if ltb_ℤ off o.off
    then (err offset_overflow, o)
    else (ok (position o'), o')
offset_seek offset seek_end o = (err panic, o)

-- OffsetWriteSeeker over a file with the state F, whose WriteAt answers the count and the error.
pub record OffsetWriteSeeker (F : Type 0) : Type 0 where
  pub w : F
  pub base : ℤ
  pub offset : ℤ

module _ {F : Type 0} where
  unfoldable pub new_offset_writer : F → ℤ → OffsetWriteSeeker F
  new_offset_writer w off = record { w = w; base = off; offset = off }

  unfoldable pub offset_write :
      (Bytes → ℤ → F → (ℕ × Option Error) × F)
      → Bytes
      → OffsetWriteSeeker F
      → (ℕ × Option Error) × OffsetWriteSeeker F
  unfolding add64
  offset_write write_at b ow =
      let (written, w') = write_at b ow.offset ow.w in
      (written, record { w = w'; base = ow.base; offset = add64 ow.offset (pos written.0) })

  unfoldable pub write_position : OffsetWriteSeeker F → ℤ
  unfolding sub64
  write_position ow = sub64 ow.offset ow.base

  unfoldable pub write_seek : ℤ → Whence → OffsetWriteSeeker F → Result ℤ × OffsetWriteSeeker F
  unfolding add64 write_position
  write_seek offset seek_start ow =
      let ow' = record ow { offset = add64 offset ow.base } in (ok (write_position ow'), ow')
  write_seek offset seek_current ow =
      let ow' = record ow { offset = add64 ow.offset offset } in (ok (write_position ow'), ow')
  write_seek offset seek_end ow = (err panic, ow)
