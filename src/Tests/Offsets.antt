-- ===== src/Tests/Offsets.antt =====
-- Runs on the offset reader.
use go_car.Prelude.{◌^◌, ◌+◌, ◌-◌, ◌≡◌, arith, [], none, leb, if◌then◌else◌}
use go_car.Prelude.Int.{pos, negsuc}
use go_car.Stream.{offset_overflow, ok, err}
use go_car.OffsetIo.{ReaderAt, offset_seek, seek_start, seek_current}
use go_car.OffsetIo.Seek.{at, offset_seek-seek_start, offset_seek_below}

abbrev nothing : ReaderAt
nothing n off = record { bytes = []; error = none }

offset_seek-seek_start_example : offset_seek (pos (2 ^ 63 - 1)) seek_start (at nothing 51 51) ≡ (
    if leb (2 ^ 63) (51 + (2 ^ 63 - 1))
    then (err offset_overflow, at nothing 51 51)
    else (ok (pos (2 ^ 63 - 1)), at nothing 51 (51 + (2 ^ 63 - 1))))
offset_seek-seek_start_example =
    offset_seek-seek_start nothing 51 51 (2 ^ 63 - 1) (omega arith) (omega arith)

-- From 2 bytes behind a base at 51, 10 bytes back.
offset_seek_below_example :
    offset_seek (negsuc 9) seek_current (at nothing 51 53)
    ≡ (ok (negsuc (51 + 9 - 53)), at nothing 51 (53 - (9 + 1)))
offset_seek_below_example =
    offset_seek_below nothing 51 53 9 (omega arith) (omega arith) (omega arith) (omega arith)
