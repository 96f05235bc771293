-- ===== src/File/Overwrite.antt =====
-- Writing into a file: at its end, and inside it.
use go_car.Prelude.{
  ℕ, ◌+◌, ◌-◌, ◌≤◌, ◌≡◌, refl, sym, ◌∙◌, ap, arith, [], ◌∷◌, ◌++◌, append_assoc, append-nil, take,
  drop, zero, suc,
}
use go_car.Prelude.{length, length-append, length-take}
use go_car.Bytes.{Bytes}
use go_car.Stream.Laws.{take-append, drop-append, take_all, drop_all}
use go_car.File.{zeros, before, overwrite}

pub length-zeros : (n : ℕ) → length (zeros n) ≡ n
length-zeros zero = refl
length-zeros (suc n) = omega (arith, length-zeros n)

pub length-before : (n : ℕ) (c : Bytes) → length (before n c) ≡ n
unfolding before
length-before n c = omega (
  arith,
  length-append (take n c) (zeros (n - length c)),
  length-take n c,
  length-zeros (n - length c),
)

pub before_all : (n : ℕ) (c : Bytes) → length c ≡ n → before n c ≡ c
unfolding before
before_all n c h =
    let none_left : n - length c ≡ 0 = omega arith in
    rw (none_left, take_all c n (omega arith)) (append-nil c)

pub before-append : (q r : Bytes) (n : ℕ) → length q ≡ n → before n (q ++ r) ≡ q
unfolding before
before-append q r n h =
    let none_left : n - length (q ++ r) ≡ 0 = omega (arith, length-append q r) in
    rw (none_left, take-append q r n h) (append-nil q)

pub overwrite_end : (n : ℕ) (p c : Bytes) → length c ≡ n → overwrite n p c ≡ c ++ p
unfolding overwrite
overwrite_end n [] c h = sym (append-nil c)
overwrite_end n (x ∷ p) c h =
    rw (before_all n c h, drop_all c (n + length (x ∷ p)) (omega arith))
      (ap (λ q. c ++ q) (append-nil (x ∷ p)))

-- Replacing bytes in the middle by as many others.
pub overwrite_middle :
    (front old back p : Bytes) (n : ℕ)
    → length front ≡ n
    → length p ≡ length old
    → overwrite n p (front ++ (old ++ back)) ≡ front ++ (p ++ back)
unfolding overwrite before
overwrite_middle front [] back [] n h k = refl
overwrite_middle front (y ∷ old) back [] n h k = absurd (omega arith)
overwrite_middle front old back (x ∷ p) n h k =
    let q : Bytes = x ∷ p in
    let size : length (front ++ (old ++ back)) ≡ length front + length (old ++ back) =
      length-append front (old ++ back) in
    let none_left : n - length (front ++ (old ++ back)) ≡ 0 = omega arith in
    let start : take n (front ++ (old ++ back)) ≡ front = take-append front (old ++ back) n h in
    let whole : (front ++ old) ++ back ≡ front ++ (old ++ back) = append_assoc front old back in
    let rest : drop (n + length q) (front ++ (old ++ back)) ≡ back =
      ap (drop (n + length q)) (sym whole)
      ∙ drop-append (front ++ old) back (n + length q) (omega (arith, length-append front old)) in
    rw (none_left, start, rest) (ap (λ r. r ++ (q ++ back)) (append-nil front))

-- Behind the bytes written stands what stood there, and in front of them what stood there.
pub before-overwrite :
    (n : ℕ) (p c : Bytes) → before (n + length p) (overwrite n p c) ≡ before n c ++ p
unfolding overwrite
before-overwrite n [] c =
    let same : n + 0 ≡ n = omega arith in rw same (sym (append-nil (before n c)))
before-overwrite n (x ∷ p) c =
    let q : Bytes = x ∷ p in
    let whole : _ = append_assoc (before n c) q (drop (n + length q) c) in
    let size : length (before n c ++ q) ≡ n + length q =
      omega (arith, length-append (before n c) q, length-before n c) in
    ap (before (n + length q)) (sym whole)
    ∙ before-append (before n c ++ q) (drop (n + length q) c) (n + length q) size

pub zeros-append : (m n : ℕ) → zeros (m + n) ≡ zeros m ++ zeros n
zeros-append zero n = let same : 0 + n ≡ n = omega arith in ap zeros same
zeros-append (suc m) n =
    let next : suc m + n ≡ suc (m + n) = omega arith in
    ap zeros next ∙ ap (λ l. 0 ∷ l) (zeros-append m n)

pub before_past : (n : ℕ) (c : Bytes) → length c ≤ n → before n c ≡ c ++ zeros (n - length c)
unfolding before
before_past n c h = ap (λ q. q ++ zeros (n - length c)) (take_all c n h)
