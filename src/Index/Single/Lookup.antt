-- ===== src/Index/Single/Lookup.antt =====
-- getAll on the compact form of sorted records: it visits the offsets of the digest, in order.
use go_car.Prelude.{
  ℕ, zero, suc, ◌+◌, ◌-◌, ◌≤◌, ◌<◌, ◌^◌, ◌≡◌, refl, sym, ap, ◌∙◌, inl, inr, arith, List, [], ◌∷◌,
  none, some,
}
use go_car.Prelude.{
  length, drop, get_elem?, length-drop, Bool, true, false, not, Bool-cases, ◌||◌, if◌then◌else◌,
}
use go_car.Bytes.{Bytes, bytes_less, bytes_equal}
use go_car.Bytes.RoundTrip.{
  bytes_equal→eq, bytes_equal_refl, bytes_less_irrefl, bytes_less-le_trans, bytes_less_tri,
}
use go_car.Stream.{not_found, Result, ok}
use go_car.Search.{search}
use go_car.Search.Laws.{Splits, IsMonotone, search-Splits}
use go_car.Index.Single.{DigestRecord, record_less, less, get_all_loop, single_get_all}
use go_car.Index.Single.Compact.{
  compact, AllWide, less-compact, digest_at-compact, offset_at-compact,
}

-- Sorted by `recordSet.Less`: no record is less than one in front of it.
abbrev pub NoneLess : DigestRecord → List DigestRecord → Type 0
NoneLess x [] = Unit
NoneLess x (y ∷ ys) = (record_less y x ≡ false) × NoneLess x ys

abbrev pub IsSorted : List DigestRecord → Type 0
IsSorted [] = Unit
IsSorted (x ∷ xs) = NoneLess x xs × IsSorted xs

-- The offsets of the records with the digest `d`, in the order of the list.
abbrev pub offsets_of : Bytes → List DigestRecord → List ℕ
offsets_of d [] = []
offsets_of d (e ∷ es) =
    if bytes_equal d e.digest then e.index ∷ offsets_of d es else offsets_of d es

abbrev pub is_nil : List ℕ → Bool
is_nil [] = true
is_nil (_ ∷ _) = false

-- Calling `fn` on each offset until it answers false.
abbrev pub feed {ℓ} : {A : Type ℓ} → (ℕ → A → Bool × A) → List ℕ → A → A
feed fn [] a = a
feed fn (o ∷ os) a =
    let rest = feed fn os (fn o a).1 in elim (fn o a).0 [ true ↦ rest | false ↦ (fn o a).1 ]

NoneLess-get :
    (x : DigestRecord) (ys : List DigestRecord) (j : ℕ) (e : DigestRecord)
    → NoneLess x ys
    → get_elem? ys j ≡ some e
    → record_less e x ≡ false
NoneLess-get x [] j e h p = cc
NoneLess-get x (y ∷ ys) zero e h p = ground (arith, h.0)
NoneLess-get x (y ∷ ys) (suc j) e h p = NoneLess-get x ys j e h.1 p

IsSorted-get :
    (rs : List DigestRecord) (i j : ℕ) (a b : DigestRecord)
    → IsSorted rs
    → i ≤ j
    → get_elem? rs i ≡ some a
    → get_elem? rs j ≡ some b
    → record_less b a ≡ false
unfolding record_less
IsSorted-get [] i j a b s h p q = cc
IsSorted-get (x ∷ rs) zero zero a b s h p q = ground (arith, bytes_less_irrefl a.digest)
IsSorted-get (x ∷ rs) zero (suc j) a b s h p q = ground (arith, NoneLess-get x rs j b s.0)
IsSorted-get (x ∷ rs) (suc i) zero a b s h p q = absurd (omega arith)
IsSorted-get (x ∷ rs) (suc i) (suc j) a b s h p q = IsSorted-get rs i j a b s.1 (omega arith) p q

get_elem?-lt {ℓ} :
    {A : Type ℓ} (xs : List A) (i : ℕ) → i < length xs → (e : A) × (get_elem? xs i ≡ some e)
get_elem?-lt [] i h = absurd (omega arith)
get_elem?-lt (x ∷ xs) zero h = (x, refl)
get_elem?-lt (x ∷ xs) (suc i) h = get_elem?-lt xs i (omega arith)

abbrev NotBelow : Bytes → List DigestRecord → Type 0
NotBelow d [] = Unit
NotBelow d (e ∷ es) = (bytes_less e.digest d ≡ false) × NotBelow d es

-- Records below `d` do not have the digest `d`.
offsets_of-skip :
    (d : Bytes) (rs : List DigestRecord) (r : ℕ)
    → ((i : ℕ) (e : DigestRecord) → i < r → get_elem? rs i ≡ some e → bytes_less e.digest d ≡ true)
    → offsets_of d rs ≡ offsets_of d (drop r rs)
offsets_of-skip d [] zero h = refl
offsets_of-skip d [] (suc r) h = refl
offsets_of-skip d (e ∷ rs) zero h = refl
offsets_of-skip d (e ∷ rs) (suc r) h = ground (
  arith,
  h 0 e,
  bytes_equal→eq d e.digest,
  bytes_less_irrefl d,
  offsets_of-skip d rs r (λ i x p q. h (suc i) x (omega arith) q),
)

NotBelow-drop :
    (d : Bytes) (rs : List DigestRecord) (r : ℕ)
    → ((i : ℕ) (e : DigestRecord) → r ≤ i → get_elem? rs i ≡ some e → bytes_less e.digest d ≡ false)
    → NotBelow d (drop r rs)
NotBelow-drop d [] zero h = tt
NotBelow-drop d [] (suc r) h = tt
NotBelow-drop d (e ∷ rs) zero h =
    (h 0 e (omega arith) refl, NotBelow-drop d rs zero (λ i x p q. h (suc i) x (omega arith) q))
NotBelow-drop d (e ∷ rs) (suc r) h = NotBelow-drop d rs r (λ i x p q. h (suc i) x (omega arith) q)

IsSorted-drop : (rs : List DigestRecord) (r : ℕ) → IsSorted rs → IsSorted (drop r rs)
IsSorted-drop [] zero s = tt
IsSorted-drop [] (suc r) s = tt
IsSorted-drop (e ∷ rs) zero s = s
IsSorted-drop (e ∷ rs) (suc r) s = IsSorted-drop rs r s.1

-- Behind a record above `d`, sorted records do not have the digest `d`.
pub offsets_of-above :
    (d : Bytes) (e : DigestRecord) (es : List DigestRecord)
    → NoneLess e es
    → bytes_less d e.digest ≡ true
    → offsets_of d es ≡ []
unfolding record_less
offsets_of-above d e [] h p = refl
offsets_of-above d e (y ∷ es) h p =
    ground (arith, h.0, bytes_equal→eq d y.digest, offsets_of-above d e es h.1 p)

drop_cons :
    (rs : List DigestRecord) (i : ℕ) (e : DigestRecord) (es : List DigestRecord)
    → drop i rs ≡ e ∷ es
    → (get_elem? rs i ≡ some e) × (drop (i + 1) rs ≡ es)
drop_cons [] zero e es p = cc
drop_cons [] (suc i) e es p = cc
drop_cons (x ∷ rs) zero e es p = (cc, cc)
drop_cons (x ∷ rs) (suc i) e es p =
    let n : suc i + 1 ≡ suc (i + 1) = omega arith in rw n (drop_cons rs i e es p)

get_elem?-inside {ℓ} :
    {A : Type ℓ} (xs : List A) (i : ℕ) (e : A) → get_elem? xs i ≡ some e → i < length xs
get_elem?-inside [] i e p = cc
get_elem?-inside (x ∷ xs) zero e p = omega arith
get_elem?-inside (x ∷ xs) (suc i) e p = omega (arith, get_elem?-inside xs i e p)

module _ (w : ℕ) (rs : List DigestRecord) (wide : AllWide w rs) (sorted : IsSorted rs)
    (d : Bytes) where
  abbrev test : ℕ → Result Bool
  test i = less (compact w rs) i d

  less-IsMonotone : IsMonotone (length rs) test
  less-IsMonotone = record {
    decides = λ i h.
        let (e, p) = get_elem?-lt rs i h in
        elim (Bool-cases (bytes_less e.digest d)) [
          | inl q ↦ inl (less-compact w rs wide i e p d ∙ ap (λ b. ok (not b)) q)
          | inr q ↦ inr (less-compact w rs wide i e p d ∙ ap (λ b. ok (not b)) q)
        ];
    stays = λ i j ij hj t.
        let (a, p) = get_elem?-lt rs i (omega arith) in
        let (b, q) = get_elem?-lt rs j hj in
        unfold record_less in
        ground (
          arith,
          less-compact w rs wide i a p d,
          less-compact w rs wide j b q d,
          IsSorted-get rs i j a b sorted ij p q,
          bytes_less-le_trans a.digest b.digest d,
        );
  }

  searched :
      (r : ℕ)
      → search (length rs) test ≡ ok r
      → search (compact w rs).len (λ i. less (compact w rs) i d) ≡ ok r
  unfolding compact
  searched r p = p

  module _ (r : ℕ) (splits : Splits (length rs) test r) where
    below_split :
        (i : ℕ) (e : DigestRecord) → i < r → get_elem? rs i ≡ some e → bytes_less e.digest d ≡ true
    below_split i e h p = ground (arith, splits.below i h, less-compact w rs wide i e p d)

    above_split :
        (i : ℕ) (e : DigestRecord) → r ≤ i → get_elem? rs i ≡ some e → bytes_less e.digest d ≡ false
    above_split i e h p =
        ground (arith, splits.above i h (get_elem?-inside rs i e p), less-compact w rs wide i e p d)

  module _ {ℓ} {A : Type ℓ} (fn : ℕ → A → Bool × A) where
    get_all_loop-feed :
        (es : List DigestRecord) (idx : ℕ) (any : Bool) (a : A)
        → drop idx rs ≡ es
        → IsSorted es
        → NotBelow d es
        → get_all_loop (compact w rs) fn (length es) idx d any a
          ≡ (ok (any || not (is_nil (offsets_of d es))), feed fn (offsets_of d es) a)
    unfolding get_all_loop
    get_all_loop-feed [] idx any a p s n = ground arith
    get_all_loop-feed (e ∷ es) idx any a p s n =
        let (at_idx, behind) = drop_cons rs idx e es p in
        ground (
          arith,
          digest_at-compact w rs wide idx e at_idx,
          offset_at-compact w rs wide idx e at_idx,
          offsets_of-above d e es s.0,
          bytes_less_tri d e.digest,
          bytes_equal_refl d,
          get_all_loop-feed es (idx + 1) true (fn e.index a).1 behind s.1 n.1,
        )

    -- GetAll on an index of sorted records calls `fn` on the offsets of the records that have the
    -- digest, in the order of the records, until `fn` answers false. It returns ErrNotFound
    -- exactly if no record has the digest.
    pub single_get_all-feed :
        length rs < 2 ^ 63
        → (a : A)
        → single_get_all (compact w rs) fn d a
          ≡ (if is_nil (offsets_of d rs) then some not_found else none, feed fn (offsets_of d rs) a)
    unfolding single_get_all
    single_get_all-feed small a =
        let (r, found, splits) = search-Splits (length rs) test small less-IsMonotone in
        let left : (compact w rs).len - r ≡ length (drop r rs) =
          unfold compact in sym (length-drop r rs) in
        ground (
          arith,
          searched r found,
          left,
          offsets_of-skip d rs r (λ i e h p. below_split r splits i e h p),
          get_all_loop-feed (drop r rs) r false a refl (IsSorted-drop rs r sorted)
              (NotBelow-drop d rs r (λ i e h p. above_split r splits i e h p)),
        )
