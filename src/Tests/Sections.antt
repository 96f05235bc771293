-- ===== src/Tests/Sections.antt =====
-- Runs on sections, headers of CARv1 and LoadCar.
use go_car.Prelude.{◌≤◌, ◌<◌, ◌≡◌, ◌≢◌, ◌↔◌, refl, arith, List, [], ◌∷◌, ◌++◌, Option, none, some}
use go_car.Prelude.{true, false, length}
use go_car.Bytes.{Bytes}
use go_car.Stream.{Error, eof, ok, err, Buffer, buffer, buffer_write, read_full}
use go_car.Stream.Laws.{buffer-Appends}
use go_car.Cids.{Block}
use go_car.Section.{sum_lengths, write_all, ld_write, ld_size, ld_read, read_node}
use go_car.Section.Frame.{concat, frame, ld_write-Appends, read_node-frame}
use go_car.Section.Limits.{read}
use go_car.Carv1.{
  CarHeader, CarReader, Store, matches, read_car_header, write_car_header, new_car_reader,
  new_car_reader_without_defaults, check_block, next, load_car, load_car_slow,
}
use go_car.Carv1.ReadBack.{IsGood, next_sound, next_cut, new_car_reader-write_car_header}
use go_car.Carv1.Load.{put_each, answer, sections, load_car_total, load_car-sections}
use go_car.Carv1.Matches.{matches-Perm, matches_asymmetric}
use go_car.Tests.World.{
  leb, leb_put, leb_size, leb_read, leb-VarintLaws, TestCid, test_cids, test_cids-CidLaws,
  test_cbor, test_cbor-CborLaws,
}
use mathlib.Core.List.{Nodup-cons, Nodup-nil, Perm, not-mem-nil}

program : Unit {0}
unfolding sum_lengths write_all ld_write ld_size ld_read read_node read_car_header write_car_header
    new_car_reader new_car_reader_without_defaults check_block next load_car load_car_slow read_full
    buffer_write leb_put leb_size leb_read
program = tt

abbrev empty_buffer : Buffer
empty_buffer = record { out = []; room = 1000 }

abbrev hello : Block TestCid
hello = record { cid = record { code = 1; value = 6 }; raw = 1 ∷ 2 ∷ 3 ∷ [] }

abbrev other : Block TestCid
other = record { cid = record { code = 1; value = 0 }; raw = [] }

abbrev slices : List Bytes
slices = (1 ∷ 6 ∷ []) ∷ (1 ∷ 2 ∷ 3 ∷ []) ∷ []

hello_bytes : (ld_write leb buffer slices empty_buffer).1.out ≡ 5 ∷ 1 ∷ 6 ∷ 1 ∷ 2 ∷ 3 ∷ []
unfolding program
hello_bytes = refl

hello_written : (ld_write leb buffer slices empty_buffer).0 ≡ none
unfolding program
hello_written = refl

ld_write-Appends_example :
    (ld_write leb buffer slices empty_buffer).1.out ≡ [] ++ frame leb (concat slices)
ld_write-Appends_example =
    ld_write-Appends leb leb-VarintLaws buffer (λ b. b.out) slices empty_buffer buffer-Appends
      (omega arith) hello_written

read_node-frame_example :
    read_node leb test_cids false 100 (frame leb (1 ∷ 6 ∷ 1 ∷ 2 ∷ 3 ∷ []) ++ (9 ∷ []))
    ≡ (ok (hello.cid, hello.raw), 9 ∷ [])
read_node-frame_example =
    read_node-frame leb leb-VarintLaws test_cids false 100 hello.cid hello.raw (9 ∷ [])
      test_cids-CidLaws (omega arith) (omega arith)

two_read : (read leb leb-VarintLaws false 10 (2 ∷ 7 ∷ 8 ∷ 9 ∷ [])).0 ≡ ok (7 ∷ 8 ∷ [])
unfolding program
two_read = refl

abbrev car_header : CarHeader TestCid
car_header = record { roots = hello.cid ∷ []; version = 1 }

abbrev reader : CarReader TestCid
reader = record {
  r = [];
  header = car_header;
  zero_len_as_eof = false;
  max_allowed_section_size = 8388608;
}

hello-IsGood : IsGood test_cids 8388608 hello
hello-IsGood = record { hashed = refl; fits = omega arith; small = omega arith }

abbrev at_hello : CarReader TestCid
at_hello = record reader { r = 5 ∷ 1 ∷ 6 ∷ 1 ∷ 2 ∷ 3 ∷ 7 ∷ [] }

hello_read : (next leb test_cids at_hello).0 ≡ ok hello
unfolding program
hello_read = refl

next_sound_example :
    (test_cids.sum hello.cid hello.raw ≡ ok hello.cid)
    × (length hello.raw ≤ 8388608)
    × (length (next leb test_cids at_hello).1.r < 7)
next_sound_example =
    next_sound leb leb-VarintLaws test_cids at_hello hello test_cids-CidLaws hello_read

next_cut_example : (next leb test_cids (record reader { r = leb_put 8 5 })).0 ≡ err eof
next_cut_example =
    next_cut leb leb-VarintLaws test_cids reader 5 (omega arith) (omega arith) (omega arith)

header_written : (write_car_header leb test_cbor buffer car_header empty_buffer).0 ≡ none
unfolding program
header_written = refl

new_car_reader-write_car_header_example :
    new_car_reader_without_defaults leb test_cbor
      ((write_car_header leb test_cbor buffer car_header empty_buffer).1.out ++ (9 ∷ []))
      false
      100
      8388608
    ≡ ok (record reader { r = 9 ∷ [] })
new_car_reader-write_car_header_example =
    new_car_reader-write_car_header leb leb-VarintLaws test_cbor buffer (λ b. b.out) car_header
      empty_buffer (1 ∷ 1 ∷ 6 ∷ []) (9 ∷ []) false 100 8388608 test_cbor-CborLaws buffer-Appends
      refl refl (omega arith) (omega arith) refl (omega arith) header_written

-- The header, one section, and a last section of which only the length is there.
abbrev cut_stream : Bytes
cut_stream = 3 ∷ 1 ∷ 1 ∷ 6 ∷ 5 ∷ 1 ∷ 6 ∷ 1 ∷ 2 ∷ 3 ∷ 5 ∷ []

abbrev put_one : Block TestCid → List (Block TestCid) → Option Error × List (Block TestCid)
put_one b t = (none, t ++ b ∷ [])

abbrev store : Store TestCid (List (Block TestCid))
store = record { put = put_one; put_many = some (put_each put_one) }

stream_opens :
    new_car_reader leb test_cbor cut_stream
    ≡ ok (record reader { r = sections leb test_cids (hello ∷ []) ++ (5 ∷ []) })
unfolding program
stream_opens = refl

load_car-sections_example :
    load_car leb test_cids test_cbor store cut_stream []
    ≡ some (answer car_header (put_each put_one (hello ∷ []) []))
load_car-sections_example =
    load_car-sections leb leb-VarintLaws test_cids test_cids-CidLaws test_cbor store cut_stream
      reader (hello ∷ []) (5 ∷ []) [] (λ p q batch u. cc) stream_opens (unfold program in refl)
      (hello-IsGood, tt)

load_car_total_example : load_car leb test_cids test_cbor store (0x80 ∷ []) [] ≢ none
load_car_total_example =
    load_car_total leb leb-VarintLaws test_cids test_cids-CidLaws test_cbor store (0x80 ∷ []) []

abbrev swapped : CarHeader TestCid
swapped = record { roots = other.cid ∷ hello.cid ∷ []; version = 1 }

abbrev straight : CarHeader TestCid
straight = record { roots = hello.cid ∷ other.cid ∷ []; version = 1 }

matches-Perm_example :
    (matches test_cids car_header car_header ≡ true)
    ↔ ((car_header.version ≡ car_header.version) × Perm car_header.roots car_header.roots)
matches-Perm_example =
    matches-Perm test_cids test_cids-CidLaws car_header car_header
      (Nodup-cons.1 (not-mem-nil, Nodup-nil))

matches_asymmetric_example :
    (matches test_cids (record { roots = hello.cid ∷ hello.cid ∷ []; version = 1 }) straight ≡ true)
    × (matches test_cids straight (record { roots = hello.cid ∷ hello.cid ∷ []; version = 1 })
        ≡ false)
matches_asymmetric_example =
    matches_asymmetric test_cids test_cids-CidLaws hello.cid other.cid 1 (λ e. cc)
