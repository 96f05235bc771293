-- ===== src/Index/Single/Compact.antt =====
-- The compact form of a list of records, and what its items are.
use go_car.Prelude.{
  ℕ, zero, suc, ◌+◌, ◌-◌, ◌*◌, ◌≤◌, ◌<◌, ◌^◌, ◌≡◌, refl, sym, ap, ◌∙◌, arith, List, [], ◌∷◌, ◌++◌,
  append_assoc, some,
}
use go_car.Prelude.{length, length-append, drop, get_elem?, not}
use go_car.Bytes.{Bytes, le_bytes, bytes_less}
use go_car.Bytes.RoundTrip.{length-le_bytes, le_value-le_bytes}
use go_car.Stream.{ok}
use go_car.Stream.Laws.{take-append, drop-append, drop-drop}
use native.Mathlib.Nat.{mul-le-mul_right}
use go_car.Index.{slice}
use go_car.Index.Single.{DigestRecord, record_bytes, SingleWidthIndex, digest_at, offset_at, less}

-- The compact form: the records one behind the other.
unfoldable pub compact_bytes : List DigestRecord → Bytes
compact_bytes [] = []
compact_bytes (e ∷ es) = record_bytes e ++ compact_bytes es

unfoldable pub compact : ℕ → List DigestRecord → SingleWidthIndex
compact w rs = record { width = w; len = length rs; index = compact_bytes rs }

-- All records fill the width, and their offsets are uint64 values.
abbrev pub AllWide : ℕ → List DigestRecord → Type 0
AllWide w [] = Unit
AllWide w (e ∷ es) = (length e.digest + 8 ≡ w) × (e.index < 2 ^ 64) × AllWide w es

length-record_bytes : (e : DigestRecord) → length (record_bytes e) ≡ length e.digest + 8
unfolding record_bytes
length-record_bytes e =
    omega (arith, length-append e.digest (le_bytes 8 e.index), length-le_bytes 8 e.index)

pub length-compact_bytes :
    (w : ℕ) (rs : List DigestRecord) → AllWide w rs → length (compact_bytes rs) ≡ length rs * w
unfolding compact_bytes
length-compact_bytes w [] h = omega arith
length-compact_bytes w (e ∷ es) h = omega (
  arith,
  length-append (record_bytes e) (compact_bytes es),
  length-record_bytes e,
  length-compact_bytes w es h.2,
)

drop_items :
    (w : ℕ) (rs : List DigestRecord) (i : ℕ) (e : DigestRecord)
    → AllWide w rs
    → get_elem? rs i ≡ some e
    → drop (i * w) (compact_bytes rs) ≡ record_bytes e ++ compact_bytes (drop (suc i) rs)
unfolding compact_bytes
drop_items w [] i e h p = cc
drop_items w (x ∷ rs) zero e h p =
    let none_skipped : 0 * w ≡ 0 = omega arith in let same : x ≡ e = cc p in rw (none_skipped, same)
drop_items w (x ∷ rs) (suc i) e h p =
    let split : suc i * w ≡ w + i * w = omega arith in
    let tail = compact_bytes rs in
    rw split (
      sym (drop-drop (i * w) w (record_bytes x ++ tail))
      ∙ ap (drop (i * w))
          (drop-append (record_bytes x) tail w (omega (arith, length-record_bytes x, h.0)))
      ∙ drop_items w rs i e h.2 p)

wide_item :
    (w : ℕ) (rs : List DigestRecord) (i : ℕ) (e : DigestRecord)
    → AllWide w rs
    → get_elem? rs i ≡ some e
    → (length e.digest + 8 ≡ w) × (e.index < 2 ^ 64) × (i < length rs)
wide_item w [] i e h p = cc
wide_item w (x ∷ rs) zero e h p = ground arith
wide_item w (x ∷ rs) (suc i) e h p = ground (arith, wide_item w rs i e h.2)

module _ (w : ℕ) (rs : List DigestRecord) (wide : AllWide w rs) (i : ℕ) (e : DigestRecord)
    (at_i : get_elem? rs i ≡ some e) where
  bounds : (i * w ≤ (i + 1) * w - 8) × ((i + 1) * w ≤ length (compact_bytes rs))
  bounds =
      let (fills, _, inside) = wide_item w rs i e wide at_i in
      let step : i + 1 ≤ length rs = omega arith in
      (
        omega arith,
        omega (
          arith,
          length-compact_bytes w rs wide,
          mul-le-mul_right {m = i + 1} {n = length rs} w step,
        ),
      )

  tail : Bytes
  tail = compact_bytes (drop (suc i) rs)

  item_bytes : drop (i * w) (compact_bytes rs) ≡ e.digest ++ (le_bytes 8 e.index ++ tail)
  unfolding record_bytes tail
  item_bytes = drop_items w rs i e wide at_i ∙ append_assoc e.digest (le_bytes 8 e.index) tail

  pub digest_at-compact : digest_at (compact w rs) i ≡ ok e.digest
  unfolding digest_at slice compact
  digest_at-compact =
      let (fills, _, inside) = wide_item w rs i e wide at_i in
      let size : (i + 1) * w - 8 - i * w ≡ length e.digest = omega arith in
      ground (
        arith,
        bounds,
        size,
        item_bytes,
        take-append e.digest (le_bytes 8 e.index ++ tail) (length e.digest) refl,
      )

  offset_bytes : drop ((i + 1) * w - 8) (compact_bytes rs) ≡ le_bytes 8 e.index ++ tail
  offset_bytes =
      let (fills, _, inside) = wide_item w rs i e wide at_i in
      let start : (i + 1) * w - 8 ≡ i * w + length e.digest = omega arith in
      rw start (
        sym (drop-drop (length e.digest) (i * w) (compact_bytes rs))
        ∙ ap (drop (length e.digest)) item_bytes
        ∙ drop-append e.digest (le_bytes 8 e.index ++ tail) (length e.digest) refl)

  pub offset_at-compact : offset_at (compact w rs) i ≡ ok e.index
  unfolding offset_at slice compact
  offset_at-compact =
      let (fills, fits, inside) = wide_item w rs i e wide at_i in
      let size : (i + 1) * w - ((i + 1) * w - 8) ≡ 8 = omega arith in
      ground (
        arith,
        bounds,
        size,
        offset_bytes,
        take-append (le_bytes 8 e.index) tail 8 (length-le_bytes 8 e.index),
        le_value-le_bytes 8 e.index,
      )

  pub less-compact : (d : Bytes) → less (compact w rs) i d ≡ ok (not (bytes_less e.digest d))
  unfolding less
  less-compact d = rw digest_at-compact
