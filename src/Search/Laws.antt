-- ===== src/Search/Laws.antt =====
-- The search finds the first index at which the test holds, and passes a failure on.
use go_car.Prelude.{
  ℕ, zero, suc, ◌+◌, ◌%◌, ◌/◌, ◌≤◌, ◌<◌, ◌^◌, ◌≡◌, refl, sym, ◌∙◌, inl, inr, arith, Bool, true,
  false, ltb, Bool-cases, ◌⊎◌,
}
use go_car.Stream.{Error, Result, ok, err, Result-cases}
use go_car.Header.{u64}
use go_car.Search.{search_loop, search}

-- `r` splits 0 .. n into indices where the test is false and indices where it is true.
pub record Splits (n : ℕ) (f : ℕ → Result Bool) (r : ℕ) : Type 0 where
  pub within : r ≤ n
  pub below : (i : ℕ) → i < r → f i ≡ ok false
  pub above : (i : ℕ) → r ≤ i → i < n → f i ≡ ok true

-- The test never fails below `n`, and stays true once it is true.
pub record IsMonotone (n : ℕ) (f : ℕ → Result Bool) : Type 0 where
  pub decides : (i : ℕ) → i < n → (f i ≡ ok false) ⊎ (f i ≡ ok true)
  pub stays : (i j : ℕ) → i ≤ j → j < n → f i ≡ ok true → f j ≡ ok true

-- One round, in its three outcomes, and the exit.
module _ (rounds i j : ℕ) (f : ℕ → Result Bool) where
  abbrev mid : ℕ
  mid = (i + j) % u64 / 2

  round_right :
      i < j → f mid ≡ ok false → search_loop (suc rounds) i j f ≡ search_loop rounds (mid + 1) j f
  unfolding search_loop
  round_right h e = ground arith

  round_left : i < j → f mid ≡ ok true → search_loop (suc rounds) i j f ≡ search_loop rounds i mid f
  unfolding search_loop
  round_left h e = ground arith

  round_fails : (e : Error) → i < j → f mid ≡ err e → search_loop (suc rounds) i j f ≡ err e
  unfolding search_loop
  round_fails e h p = ground arith

  round_ends : j ≤ i → search_loop (suc rounds) i j f ≡ ok i
  unfolding search_loop
  round_ends h = ground arith

le_or_lt : (a b : ℕ) → (b ≤ a) ⊎ (a < b)
le_or_lt a b = elim (Bool-cases (ltb a b)) [
  | inl p ↦ inr (ground arith)
  | inr p ↦ inl (ground arith)
]

module _ (n : ℕ) (f : ℕ → Result Bool) (small : n < 2 ^ 63) where
  module _ (mono : IsMonotone n f) where
    search_loop-Splits :
        (rounds i j : ℕ)
        → i ≤ j
        → j ≤ n
        → j ≤ i + rounds
        → ((k : ℕ) → k < i → f k ≡ ok false)
        → ((k : ℕ) → j ≤ k → k < n → f k ≡ ok true)
        → (r : ℕ) × (search_loop rounds i j f ≡ ok r) × Splits n f r
    search_loop-Splits zero i j ij jn w lo hi = (
      i,
      unfold search_loop in refl,
      record { within = omega arith; below = lo; above = λ k p q. hi k (omega arith) q },
    )
    search_loop-Splits (suc rounds) i j ij jn w lo hi =
        let h = (i + j) % u64 / 2 in
        elim (le_or_lt i j) [
          | inl closed ↦ (
            i,
            round_ends rounds i j f closed,
            record { within = omega arith; below = lo; above = λ k p q. hi k (omega arith) q },
          )
          | inr wide ↦ elim (mono.decides h (omega arith)) [
            | inl no_h ↦
                let (r, p, s) =
                  search_loop-Splits rounds (h + 1) j (omega arith) jn (omega arith)
                    (λ k q. stays_false k h (omega arith) (omega arith) no_h) hi in
                (r, round_right rounds i j f wide no_h ∙ p, s)
            | inr yes_h ↦
                let (r, p, s) =
                  search_loop-Splits rounds i h (omega arith) (omega arith) (omega arith) lo
                    (λ k q b. mono.stays h k q b yes_h) in
                (r, round_left rounds i j f wide yes_h ∙ p, s)
          ]
        ]
      where
        stays_false : (k h : ℕ) → k ≤ h → h < n → f h ≡ ok false → f k ≡ ok false
        stays_false k h kh hn e = elim (mono.decides k (omega arith)) [
          | inl p ↦ p
          | inr p ↦ cc (mono.stays k h kh hn p)
        ]

    -- On a monotone test the search returns, with the index that splits the range: the test is
    -- false below it and true from it on.
    pub search-Splits : (r : ℕ) × (search n f ≡ ok r) × Splits n f r
    unfolding search
    search-Splits =
        search_loop-Splits n 0 n (omega arith) (omega arith) (omega arith)
          (λ k p. absurd (omega arith)) (λ k p q. absurd (omega arith))

  search_loop_error :
      (rounds i j : ℕ) (e : Error)
      → j ≤ n
      → search_loop rounds i j f ≡ err e
      → (h : ℕ) × (h < n) × (f h ≡ err e)
  search_loop_error zero i j e jn p = unfold search_loop in cc p
  search_loop_error (suc rounds) i j e jn p =
      let h = (i + j) % u64 / 2 in
      elim (le_or_lt i j) [
        | inl closed ↦ cc (round_ends rounds i j f closed)
        | inr wide ↦ elim (Result-cases (f h)) [
          | inl (x, q) ↦ (h, omega arith, cc (round_fails rounds i j f x wide q))
          | inr (false, q) ↦
              search_loop_error rounds (h + 1) j e jn (sym (round_right rounds i j f wide q) ∙ p)
          | inr (true, q) ↦
              search_loop_error rounds i h e (omega arith)
                (sym (round_left rounds i j f wide q) ∙ p)
        ]
      ]

  -- An error of the search is an error of the test, at an index in range.
  pub search_error : (e : Error) → search n f ≡ err e → (h : ℕ) × (h < n) × (f h ≡ err e)
  unfolding search
  search_error e p = search_loop_error n 0 n e (omega arith) p
