-- ===== src/Section.antt =====
-- v2/internal/carv1/util/util.go (and util/util.go of the v0 module): length-prefixed sections.
pub mod Frame
pub mod Keeps
pub mod Limits
use go_car.Prelude.{ℕ, ◌+◌, ◌%◌, List, [], ◌∷◌, ◌++◌, Option, none, some, drop, length}
use go_car.Prelude.{Bool, ltb, ◌==◌, ◌&&◌, if◌then◌else◌}
use go_car.Bytes.{Bytes}
use go_car.Stream.{Error, eof, unexpected_eof, section_too_large, panic, is_eof}
use go_car.Stream.{Result, ok, err, Full, read_full, Written, Sink}
use go_car.Varint.{Varint, Uvarint}
use go_car.Cids.{CidLib}
use go_car.Header.{u64}

-- `sum += uint64(len(s))` over the slices, from `acc`.
unfoldable pub sum_lengths : ℕ → List Bytes → ℕ
sum_lengths acc [] = acc
sum_lengths acc (s ∷ ds) = sum_lengths ((acc + length s) % u64) ds

module _ {ℓ} {S : Type ℓ} (k : Sink S) where
  -- The loop that writes the slices, and stops at the first error.
  unfoldable pub write_all : List Bytes → S → Option Error × S
  write_all [] s = (none, s)
  write_all (d ∷ ds) s =
      let w = k.write d s in
      let rest = write_all ds w.state in elim w.error [ some e ↦ (some e, w.state) | none ↦ rest ]

module _ (v : Varint) where
  -- `varint.PutUvarint(buf, sum)` panics when `sum` does not fit the buffer of eight bytes.
  unfoldable pub ld_write {ℓ} : {S : Type ℓ} → Sink S → List Bytes → S → Option Error × S
  ld_write k ds s =
      let sum = sum_lengths 0 ds in
      if ltb 8 (v.size sum)
      then (some panic, s)
      else let w = k.write (v.put sum) s in
        elim w.error [ some e ↦ (some e, w.state) | none ↦ write_all k ds w.state ]

  unfoldable pub ld_size : List Bytes → ℕ
  ld_size ds = let sum = sum_lengths 0 ds in (sum + v.size sum) % u64

  -- The result, and what is left of the stream.
  unfoldable pub ld_read : Bool → ℕ → Bytes → Result Bytes × Bytes
  ld_read zero_len_as_eof max_read_bytes src =
      let l = v.read src in
      elim l.error [
        | some e ↦ (if ltb 0 l.value && is_eof e then err unexpected_eof else err e, l.rest)
        | none ↦
            if (l.value == 0) && zero_len_as_eof
            then (err eof, l.rest)
            else if ltb max_read_bytes l.value
            then (err section_too_large, l.rest)
            else let full = read_full l.value l.rest in
              elim full.error [ some e ↦ (err e, full.rest) | none ↦ (ok full.buf, full.rest) ]
      ]

  unfoldable pub read_node :
      {Cid : Type 0} → CidLib Cid → Bool → ℕ → Bytes → Result (Cid × Bytes) × Bytes
  read_node lib zero_len_as_eof max_read_bytes src =
      let (data_read, rest) = ld_read zero_len_as_eof max_read_bytes src in
      elim data_read [
        | err e ↦ (err e, rest)
        | ok section ↦ elim (lib.from_bytes section) [
          | err e ↦ (err e, rest)
          | ok (n, c) ↦ (ok (c, drop n section), rest)
        ]
      ]
