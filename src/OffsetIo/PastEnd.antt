-- ===== src/OffsetIo/PastEnd.antt =====
-- A writer that stands at the end of its file or behind it comes to the end with its first byte.
use go_car.Prelude.{
  ℕ, ◌+◌, ◌≤◌, ◌<◌, ◌^◌, ◌≡◌, refl, ap, ◌∙◌, arith, [], ◌∷◌, append-nil, none, drop, length,
}
use go_car.Prelude.{length-append}
use go_car.Prelude.Int.{pos}
use go_car.Bytes.{Bytes}
use go_car.Stream.Laws.{take_all, drop_all}
use go_car.File.{before, overwrite, FileLib, FileLaws}
use go_car.File.Overwrite.{length-before}
use go_car.OffsetIo.{offset_write}
use go_car.OffsetIo.Writer.{at, offset_write-moves, IsAtEnd}

length-overwrite :
    (n : ℕ) (p c : Bytes) → 0 < length p → length c ≤ n → length (overwrite n p c) ≡ n + length p
unfolding overwrite
length-overwrite n [] c some past = absurd (omega arith)
length-overwrite n (x ∷ p) c some past =
    let rest : drop (n + length (x ∷ p)) c ≡ [] = drop_all c (n + length (x ∷ p)) (omega arith) in
    rw (rest, append-nil (x ∷ p))
      (omega (arith, length-append (before n c) (x ∷ p), length-before n c))

module _ {F : Type 0} (files : FileLib F) (laws : FileLaws files) where
  pub first_write-IsAtEnd :
      (p : Bytes) (f : F) (base n : ℕ)
      → 0 < length p
      → n < 2 ^ 63
      → length (files.content f) ≤ n
      → (offset_write files.write_at p (at files f base n)).0.1 ≡ none
      → IsAtEnd files laws base (offset_write files.write_at p (at files f base n)).1
  first_write-IsAtEnd p f base n some low past e =
      let moves : _ = offset_write-moves files laws p f (pos base) n low in
      let all : _ = laws.complete p n f (rw moves at e) in
      let f' = (files.write_at p (pos n) f).1 in
      let count = (files.write_at p (pos n) f).0.0 in
      let content : files.content f' ≡ overwrite n p (files.content f) =
        laws.written p n f
        ∙ ap (λ q. overwrite n q (files.content f)) (take_all p count (omega (arith, all))) in
      let size : n + count ≡ length (files.content f') =
        omega (arith, ap length content, length-overwrite n p (files.content f) some past, all) in
      rw moves (refl, ap pos size, omega (arith, size, laws.in_range p n f low))
