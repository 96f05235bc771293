-- ===== src/Search.antt =====
-- v2/internal/errsort/search.go: binary search with a test that may fail. The library's
-- `sort.Search` is the same search with a test that does not.
pub mod Laws
use go_car.Prelude.{ℕ, zero, suc, ◌+◌, ◌%◌, ◌/◌, Bool, true, false, ltb}
use go_car.Stream.{Result, ok, err}
use go_car.Header.{u64}

-- A round shortens the range, so as many rounds as it is long are enough: when they are used up,
-- `i` has met `j` and the loop has ended.
unfoldable pub search_loop : ℕ → ℕ → ℕ → (ℕ → Result Bool) → Result ℕ
search_loop zero i j f = ok i
search_loop (suc rounds) i j f =
    let h = (i + j) % u64 / 2 in
    elim (ltb i j) [
      | false ↦ ok i
      | true ↦ elim (f h) [
        | err e ↦ err e
        | ok less ↦ elim less [
          | false ↦ search_loop rounds (h + 1) j f
          | true ↦ search_loop rounds i h f
        ]
      ]
    ]

unfoldable pub search : ℕ → (ℕ → Result Bool) → Result ℕ
search n f = search_loop n 0 n f
