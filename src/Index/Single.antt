-- ===== src/Index/Single.antt =====
-- v2/index/indexsorted.go: singleWidthIndex, the records of one digest length in one byte string.
pub mod Compact
pub mod Lookup
pub mod Serial
pub mod Untrusted
use go_car.Prelude.{
  ℕ, zero, suc, ◌+◌, ◌-◌, ◌*◌, ◌/◌, ◌%◌, ◌^◌, List, [], ◌∷◌, ◌++◌, Option, none, some,
}
use go_car.Prelude.{Bool, true, false, not, ltb, leb, ◌==◌, if◌then◌else◌, length}
use go_car.Bytes.{Bytes, le_bytes, le_value, bytes_equal, bytes_less}
use go_car.Stream.{
  Error, eof, unexpected_eof, is_eof, not_found, width_too_small, width_too_large, length_overflow,
  Result, ok, err, ◌>>=◌, Full, read_full, Written, Sink,
}
use go_car.Header.{u64}
use go_car.Search.{search}
use go_car.Index.{slice}

pub record DigestRecord : Type 0 where
  pub digest : Bytes
  pub index : ℕ

-- `digestRecord.write` into a buffer of exactly its width.
unfoldable pub record_bytes : DigestRecord → Bytes
record_bytes d = d.digest ++ le_bytes 8 d.index

-- `recordSet.Less`.
unfoldable pub record_less : DigestRecord → DigestRecord → Bool
record_less a b = bytes_less a.digest b.digest

pub record SingleWidthIndex : Type 0 where
  pub width : ℕ
  pub len : ℕ
  pub index : Bytes

abbrev pub max_width : ℕ
max_width = 32 * 2 ^ 20

-- The width and the length of the compact form, in front of it.
unfoldable pub single_prefix : SingleWidthIndex → Bytes
single_prefix s = le_bytes 4 s.width ++ le_bytes 8 (length s.index)

-- singleWidthIndex.Marshal. An error of the first write reports nothing written, one of the second
-- the four bytes of the width.
unfoldable pub single_marshal {ℓ} : {S : Type ℓ} → Sink S → SingleWidthIndex → S → Written S
single_marshal k s st =
    let w1 = k.write (le_bytes 4 s.width) st in
    elim w1.error [
      | some e ↦ record { count = 0; error = some e; state = w1.state }
      | none ↦
          let w2 = k.write (le_bytes 8 (length s.index)) w1.state in
          elim w2.error [
            | some e ↦ record { count = 4; error = some e; state = w2.state }
            | none ↦
                let w3 = k.write s.index w2.state in
                record { count = 12 + w3.count; error = w3.error; state = w3.state }
          ]
    ]

-- checkUnmarshalLengths: the width and the number of items, or the first failed test.
unfoldable pub check_unmarshal_lengths : ℕ → ℕ → ℕ → Result (ℕ × ℕ)
check_unmarshal_lengths width data_len extra =
    let total = (data_len + extra) % u64 in
    if ltb width 8
    then err width_too_small
    else if ltb max_width width
    then err width_too_large
    else if ltb total data_len
    then err length_overflow
    else if leb (2 ^ 63) total
    then err length_overflow
    else ok (width, total / width)

-- `binary.Read` of a little-endian number of `n` bytes; the callers take io.EOF for unexpected.
unfoldable pub read_number : ℕ → Bytes → Result (ℕ × Bytes)
read_number n src =
    let full = read_full n src in
    elim full.error [
      | some e ↦ err (if is_eof e then unexpected_eof else e)
      | none ↦ ok (le_value full.buf, full.rest)
    ]

-- `io.ReadFull` into a new buffer of `n` bytes.
unfoldable pub read_buffer : ℕ → Bytes → Result (Bytes × Bytes)
read_buffer n src =
    let full = read_full n src in
    elim full.error [ some e ↦ err e | none ↦ ok (full.buf, full.rest) ]

-- singleWidthIndex.Unmarshal: the index, and what is left of the reader.
unfoldable pub single_unmarshal : Bytes → Result (SingleWidthIndex × Bytes)
single_unmarshal src = do
  (width, src1) ← read_number 4 src
  (data_len, src2) ← read_number 8 src1
  (width', len) ← check_unmarshal_lengths width data_len 0
  (buf, rest) ← read_buffer data_len src2
  ok (record { width = width'; len = len; index = buf }, rest)

module _ (s : SingleWidthIndex) where
  -- The digest of item `i`, and its offset.
  unfoldable pub digest_at : ℕ → Result Bytes
  digest_at i = slice (i * s.width) ((i + 1) * s.width - 8) s.index

  unfoldable pub offset_at : ℕ → Result ℕ
  offset_at i = do
    raw ← slice ((i + 1) * s.width - 8) ((i + 1) * s.width) s.index
    ok (le_value raw)

  -- singleWidthIndex.Less: `bytes.Compare(digest, item i) <= 0`.
  unfoldable pub less : ℕ → Bytes → Result Bool
  less i digest = do item ← digest_at i; ok (not (bytes_less item digest))

  module _ {ℓ} {A : Type ℓ} (fn : ℕ → A → Bool × A) where
    -- The loop of getAll from `idx` on, `left` items being left; `any` is its flag.
    unfoldable pub get_all_loop : ℕ → ℕ → Bytes → Bool → A → Result Bool × A
    get_all_loop zero idx d any a = (ok any, a)
    get_all_loop (suc left) idx d any a = elim (digest_at idx) [
      | err e ↦ (err e, a)
      | ok item ↦ elim (bytes_equal d item) [
        | false ↦ (ok any, a)
        | true ↦ elim (offset_at idx) [
          | err e ↦ (err e, a)
          | ok offset ↦
              let (more, a') = fn offset a in
              elim more [ false ↦ (ok true, a') | true ↦ get_all_loop left (idx + 1) d true a' ]
        ]
      ]
    ]

    unfoldable pub single_get_all : Bytes → A → Option Error × A
    single_get_all d a = elim (search s.len (λ i. less i d)) [
      | err e ↦ (some e, a)
      | ok idx ↦
          let (any, a') = get_all_loop (s.len - idx) idx d false a in
          elim any [
            | err e ↦ (some e, a')
            | ok found ↦ (if found then none else some not_found, a')
          ]
    ]

  -- singleWidthIndex.forEachDigest, from item `i` on.
  module _ {ℓ} {A : Type ℓ} (f : Bytes → ℕ → A → Option Error × A) where
    unfoldable pub for_each_from : ℕ → ℕ → A → Option Error × A
    for_each_from zero i a = (none, a)
    for_each_from (suc left) i a = elim (digest_at i) [
      | err e ↦ (some e, a)
      | ok digest ↦ elim (offset_at i) [
        | err e ↦ (some e, a)
        | ok offset ↦
            let (failed, a') = f digest offset a in
            elim failed [ some e ↦ (some e, a') | none ↦ for_each_from left (i + 1) a' ]
      ]
    ]

    unfoldable pub single_for_each_digest : A → Option Error × A
    single_for_each_digest a = for_each_from (length s.index / s.width) 0 a
