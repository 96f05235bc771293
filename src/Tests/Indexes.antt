-- ===== src/Tests/Indexes.antt =====
-- Runs on the binary search and the sorted indexes.
use go_car.Prelude.{ℕ, ◌/◌, ◌≤◌, ◌≡◌, ◌⊎◌, refl, arith, List, [], ◌∷◌, ◌++◌, none, some}
use go_car.Prelude.{Bool, true, leb, length, if◌then◌else◌}
use go_car.Prelude.Assoc.{lookup, insert, keys, sort_keys}
use go_car.Bytes.{Bytes, le_bytes, le_value, bytes_less, bytes_equal}
use go_car.Stream.{not_found, panic, Result, ok, err, Buffer, buffer, buffer_write, read_full}
use go_car.Stream.Laws.{buffer-Appends}
use go_car.Search.{search, search_loop}
use go_car.Search.Laws.{IsMonotone, Splits, search-Splits}
use go_car.Index.{slice}
use go_car.Index.Single.{
  DigestRecord, SingleWidthIndex, record_bytes, record_less, single_marshal, single_prefix,
  single_unmarshal, read_number, read_buffer, check_unmarshal_lengths, digest_at, offset_at, less,
  get_all_loop, single_get_all, max_width,
}
use go_car.Index.Single.Compact.{compact, compact_bytes}
use go_car.Index.Single.Lookup.{offsets_of, is_nil, feed, single_get_all-feed}
use go_car.Index.Single.Serial.{single_bytes, IsMarshalable, single_marshal-Appends}
use go_car.Index.Single.Untrusted.{IsSound, single_unmarshal-IsSound, single_get_all_safe}
use go_car.Index.Multi.{
  MultiWidthIndex, multi_marshal, multi_unmarshal, marshal_buckets, unmarshal_buckets, bucket,
}
use go_car.Index.Multi.RoundTrip.{IsKeyed}

program : Unit {0}
unfolding search search_loop slice record_bytes single_marshal single_prefix single_unmarshal
    read_number read_buffer check_unmarshal_lengths digest_at offset_at less get_all_loop
    single_get_all compact compact_bytes le_bytes le_value bytes_less bytes_equal read_full
    buffer_write multi_marshal multi_unmarshal marshal_buckets unmarshal_buckets bucket lookup
    insert keys sort_keys record_less
program = tt

abbrev from_three : ℕ → Result Bool
from_three i = ok (leb 3 i)

from_three-IsMonotone : IsMonotone 5 from_three
from_three-IsMonotone = record { decides = λ i h. ground arith; stays = λ i j p q e. ground arith }

search-Splits_example : (r : ℕ) × (search 5 from_three ≡ ok r) × Splits 5 from_three r
search-Splits_example = search-Splits 5 from_three (omega arith) from_three-IsMonotone

abbrev fails : ℕ → Result Bool
fails i = err panic

abbrev one : DigestRecord
one = record { digest = 3 ∷ []; index = 100 }

abbrev two : DigestRecord
two = record { digest = 7 ∷ []; index = 200 }

abbrev three : DigestRecord
three = record { digest = 7 ∷ []; index = 300 }

abbrev records : List DigestRecord
records = one ∷ two ∷ three ∷ []

abbrev pub collect : ℕ → List ℕ → Bool × List ℕ
collect o a = (true, a ++ o ∷ [])

finds_both : single_get_all (compact 9 records) collect (7 ∷ []) [] ≡ (none, 200 ∷ 300 ∷ [])
unfolding program
finds_both = refl

single_get_all-feed_example : single_get_all (compact 9 records) collect (7 ∷ []) [] ≡ (
  if is_nil (offsets_of (7 ∷ []) records) then some not_found else none,
  feed collect (offsets_of (7 ∷ []) records) [],
)
unfolding program
single_get_all-feed_example =
    single_get_all-feed 9 records (omega arith) ((refl, (refl, tt)), ((refl, tt), (tt, tt)))
      (7 ∷ []) collect (omega arith) []

abbrev small : SingleWidthIndex
small = record { width = 9; len = 1; index = 3 ∷ 100 ∷ 0 ∷ 0 ∷ 0 ∷ 0 ∷ 0 ∷ 0 ∷ 0 ∷ [] }

small-IsMarshalable : IsMarshalable small
small-IsMarshalable = record {
  wide = omega arith;
  narrow = omega arith;
  short = omega arith;
  items = refl;
}

abbrev pub empty_buffer : Buffer
empty_buffer = record { out = []; room = 1000 }

single_marshal-Appends_example :
    ((single_marshal buffer small empty_buffer).state.out ≡ [] ++ single_bytes small)
    × ((single_marshal buffer small empty_buffer).count ≡ length (single_bytes small))
single_marshal-Appends_example =
    single_marshal-Appends buffer (λ b. b.out) small empty_buffer buffer-Appends
      (unfold program in refl)

abbrev untrusted : Bytes
untrusted = 9 ∷ 0 ∷ 0 ∷ 0 ∷ 3 ∷ 0 ∷ 0 ∷ 0 ∷ 0 ∷ 0 ∷ 0 ∷ 0 ∷ 1 ∷ 2 ∷ 3 ∷ []

abbrev no_item : SingleWidthIndex
no_item = record { width = 9; len = 0; index = 1 ∷ 2 ∷ 3 ∷ [] }

single_unmarshal-IsSound_example :
    IsSound no_item × (no_item.width ≤ max_width) × (no_item.len ≡ length no_item.index / 9)
single_unmarshal-IsSound_example =
    single_unmarshal-IsSound untrusted [] no_item (unfold program in refl)

single_get_all_safe_example :
    ((single_get_all small collect (3 ∷ []) []).0 ≡ none)
    ⊎ ((single_get_all small collect (3 ∷ []) []).0 ≡ some not_found)
single_get_all_safe_example =
    single_get_all_safe small
      (record { wide = omega arith; inside = omega arith; small = omega arith }) collect (3 ∷ []) []

abbrev pub one_bucket : MultiWidthIndex
one_bucket = (9, small) ∷ []

pub one_bucket-IsKeyed : IsKeyed one_bucket
unfolding lookup
one_bucket-IsKeyed = record { at_key = λ k s e. ground (arith, small-IsMarshalable) }
