-- ===== src/Index/Single/Untrusted.antt =====
-- A singleWidthIndex that Unmarshal accepts is safe to search, whatever the bytes were.
use go_car.Prelude.{
  ℕ, zero, suc, ◌+◌, ◌-◌, ◌*◌, ◌/◌, ◌≤◌, ◌<◌, ◌^◌, ◌≡◌, ◌≢◌, ◌⊎◌, sym, ◌∙◌, inl, inr, arith, none,
  some,
}
use go_car.Prelude.{length, take, drop, length-take, Bool, true, false, not}
use go_car.Bytes.{Bytes, le_value, bytes_less}
use go_car.Stream.{Error, not_found, ok, err, Result-cases, >>=-eq-ok, read_full}
use go_car.Search.{search}
use go_car.Search.Laws.{search_error}
use go_car.Index.{slice}
use go_car.Index.Single.{
  SingleWidthIndex, check_unmarshal_lengths, read_number, read_buffer, single_unmarshal, digest_at,
  offset_at, less, get_all_loop, single_get_all, max_width,
}
use native.Mathlib.Nat.{div-add-mod, le_trans, mul-le-mul_right}

-- All items stand within the bytes of the index, and each is wide enough for its offset.
pub record IsSound (s : SingleWidthIndex) : Type 0 where
  pub wide : 8 ≤ s.width
  pub inside : s.len * s.width ≤ length s.index
  pub small : s.len < 2 ^ 63

lengths_sound :
    (width data_len w len : ℕ)
    → check_unmarshal_lengths width data_len 0 ≡ ok (w, len)
    → (8 ≤ w) × (w ≤ max_width) × (len ≡ data_len / w) × (data_len < 2 ^ 63)
unfolding check_unmarshal_lengths
lengths_sound width data_len w len e = ground arith

items_inside : (w n : ℕ) → n / w * w ≤ n
items_inside w n = omega (arith, div-add-mod n w)

items_few : (w n : ℕ) → 8 ≤ w → n / w ≤ n
items_few w n h = grind (arith, div-add-mod n w)

length-read_buffer :
    (n : ℕ) (src buf rest : Bytes) → read_buffer n src ≡ ok (buf, rest) → length buf ≡ n
unfolding read_buffer read_full
length-read_buffer n src buf rest e = ground (arith, length-take n src)

-- Whatever the bytes, an index that Unmarshal returns has all its items inside its buffer, items
-- of 8 bytes and of 32 MiB at most, and as many as the buffer can hold.
pub single_unmarshal-IsSound :
    (src rest : Bytes) (s : SingleWidthIndex)
    → single_unmarshal src ≡ ok (s, rest)
    → IsSound s × (s.width ≤ max_width) × (s.len ≡ length s.index / s.width)
unfolding single_unmarshal
single_unmarshal-IsSound src rest s e =
    let (number1, p1, e1) = >>=-eq-ok (read_number 4 src) _ e in
    let (number2, p2, e2) = >>=-eq-ok (read_number 8 number1.1) _ e1 in
    let (lengths, p3, e3) = >>=-eq-ok (check_unmarshal_lengths number1.0 number2.0 0) _ e2 in
    let (buffer, p4, e4) = >>=-eq-ok (read_buffer number2.0 number2.1) _ e3 in
    ground (
      arith,
      lengths_sound number1.0 number2.0 lengths.0 lengths.1 p3,
      length-read_buffer number2.0 number2.1 buffer.0 buffer.1 p4,
      items_inside lengths.0 number2.0,
      items_few lengths.0 number2.0,
    )

module _ (s : SingleWidthIndex) (sound : IsSound s) where
  item_inside : (i : ℕ) → i < s.len → (i + 1) * s.width ≤ length s.index
  item_inside i h =
      let step : i + 1 ≤ s.len = omega arith in
      le_trans (mul-le-mul_right s.width step) sound.inside

  digest_at_ok : (i : ℕ) → i < s.len → (d : Bytes) × (digest_at s i ≡ ok d)
  unfolding digest_at slice
  digest_at_ok i h = (
    take ((i + 1) * s.width - 8 - i * s.width) (drop (i * s.width) s.index),
    ground (arith, item_inside i h, sound.wide),
  )

  offset_at_ok : (i : ℕ) → i < s.len → (o : ℕ) × (offset_at s i ≡ ok o)
  unfolding offset_at slice
  offset_at_ok i h = (
    le_value
        (take ((i + 1) * s.width - ((i + 1) * s.width - 8)) (drop ((i + 1) * s.width - 8) s.index)),
    ground (arith, item_inside i h, sound.wide),
  )

  less_ok : (i : ℕ) (d : Bytes) → i < s.len → (b : Bool) × (less s i d ≡ ok b)
  unfolding less
  less_ok i d h = let (item, p) = digest_at_ok i h in (not (bytes_less item d), rw p)

  module _ {ℓ} {A : Type ℓ} (fn : ℕ → A → Bool × A) where
    get_all_loop-ne-err :
        (left idx : ℕ) (d : Bytes) (any : Bool) (a : A) (e : Error)
        → left ≤ s.len - idx
        → (get_all_loop s fn left idx d any a).0 ≢ err e
    unfolding get_all_loop
    get_all_loop-ne-err zero idx d any a e h p = cc
    get_all_loop-ne-err (suc left) idx d any a e h p =
        let (item, q) = digest_at_ok idx (omega arith) in
        let (offset, r) = offset_at_ok idx (omega arith) in
        ground (arith, q, r, get_all_loop-ne-err left (idx + 1) d true (fn offset a).1 e)

    -- Searching a sound index answers with no error or with ErrNotFound: no slice is out of range.
    pub single_get_all_safe :
        (d : Bytes) (a : A)
        → ((single_get_all s fn d a).0 ≡ none) ⊎ ((single_get_all s fn d a).0 ≡ some not_found)
    unfolding single_get_all
    single_get_all_safe d a = elim (Result-cases (search s.len (λ i. less s i d))) [
      | inl (e, p) ↦
          let (h, hn, q) = search_error s.len (λ i. less s i d) sound.small e p in
          let (b, r) = less_ok h d hn in cc (sym q ∙ r)
      | inr (idx, p) ↦
          let loop = get_all_loop s fn (s.len - idx) idx d false a in
          elim (Result-cases loop.0) [
            | inl (e, q) ↦
                absurd (get_all_loop-ne-err (s.len - idx) idx d false a e (omega arith) q)
            | inr (true, q) ↦ inl (ground arith)
            | inr (false, q) ↦ inr (ground arith)
          ]
    ]
