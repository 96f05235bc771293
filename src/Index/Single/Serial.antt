-- ===== src/Index/Single/Serial.antt =====
-- singleWidthIndex: Marshal, and Unmarshal of what it wrote.
use go_car.Prelude.{ℕ, ◌+◌, ◌/◌, ◌≤◌, ◌<◌, ◌^◌, ◌≡◌, refl, arith, ◌++◌, append_assoc, none}
use go_car.Prelude.{length, length-append}
use go_car.Bytes.{Bytes, le_bytes}
use go_car.Bytes.RoundTrip.{length-le_bytes, le_value-le_bytes}
use go_car.Stream.{ok, Sink, Appends}
use go_car.Stream.Laws.{read_full-append}
use go_car.Index.Single.{
  SingleWidthIndex, single_prefix, single_marshal, check_unmarshal_lengths, read_number,
  read_buffer, single_unmarshal, max_width,
}

abbrev pub single_bytes : SingleWidthIndex → Bytes
single_bytes s = single_prefix s ++ s.index

-- What Load and Unmarshal build: a width that Unmarshal allows, a length that fits an int64, and
-- as many items as the bytes hold.
pub record IsMarshalable (s : SingleWidthIndex) : Type 0 where
  pub wide : 8 ≤ s.width
  pub narrow : s.width ≤ max_width
  pub short : length s.index < 2 ^ 63
  pub items : s.len ≡ length s.index / s.width

pub length-single_bytes : (s : SingleWidthIndex) → length (single_bytes s) ≡ 12 + length s.index
unfolding single_prefix
length-single_bytes s = simp (length-append, length-le_bytes) refl

-- Marshal without an error leaves the width, the length and the items behind what the writer held,
-- and counts them.
pub single_marshal-Appends {ℓ} :
    {S : Type ℓ} (k : Sink S) (content : S → Bytes) (s : SingleWidthIndex) (st : S)
    → Appends k content
    → (single_marshal k s st).error ≡ none
    → (content (single_marshal k s st).state ≡ content st ++ single_bytes s)
      × ((single_marshal k s st).count ≡ length (single_bytes s))
unfolding single_marshal single_prefix
single_marshal-Appends k content s st law e =
    let w1 = k.write (le_bytes 4 s.width) st in
    let w2 = k.write (le_bytes 8 (length s.index)) w1.state in
    ground (
      arith,
      length-single_bytes s,
      law.all_written (le_bytes 4 s.width) st,
      law.all_written (le_bytes 8 (length s.index)) w1.state,
      law.all_written s.index w2.state,
      append_assoc (content st) (le_bytes 4 s.width) (le_bytes 8 (length s.index)),
      append_assoc (content st) (le_bytes 4 s.width ++ le_bytes 8 (length s.index)) s.index,
    )

pub read_number-append :
    (n v : ℕ) (rest : Bytes) → v < 256 ^ n → read_number n (le_bytes n v ++ rest) ≡ ok (v, rest)
unfolding read_number
read_number-append n v rest h =
    ground
      (arith, read_full-append (le_bytes n v) rest n (length-le_bytes n v), le_value-le_bytes n v h)

read_buffer-append : (p rest : Bytes) → read_buffer (length p) (p ++ rest) ≡ ok (p, rest)
unfolding read_buffer
read_buffer-append p rest = ground (arith, read_full-append p rest (length p) refl)

-- Unmarshal reads back the index that Marshal wrote, and leaves what follows.
pub single_unmarshal-single_bytes :
    (s : SingleWidthIndex) (rest : Bytes)
    → IsMarshalable s
    → single_unmarshal (single_bytes s ++ rest) ≡ ok (s, rest)
unfolding single_unmarshal single_prefix check_unmarshal_lengths
single_unmarshal-single_bytes s rest m = ground (
  arith,
  append_assoc (le_bytes 4 s.width ++ le_bytes 8 (length s.index)) s.index rest,
  append_assoc (le_bytes 4 s.width) (le_bytes 8 (length s.index)) (s.index ++ rest),
  read_number-append 4 s.width (le_bytes 8 (length s.index) ++ (s.index ++ rest)),
  read_number-append 8 (length s.index) (s.index ++ rest),
  read_buffer-append s.index rest,
)
