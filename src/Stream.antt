-- ===== src/Stream.antt =====
-- Go's io.Reader and io.Writer, and the errors of the repository as values.
-- A reader is the list of the bytes that it has still to give (a stream in memory, which fails in
-- no other way than by ending). A writer is any state with a `write`, so that a buffer and an
-- open file serve the same code.
pub mod Laws
use go_car.Prelude.{
  ℕ, ◌+◌, ◌-◌, ◌≡◌, refl, ◌⊎◌, inl, inr, List, [], ◌∷◌, ◌++◌, Option, none, some, min, take, drop,
}
use go_car.Prelude.{Bool, true, false, length, leb, ◌==◌, if◌then◌else◌}
use go_car.Bytes.{Bytes}

pub data Error : Type 0 where
  -- package io
  eof unexpected_eof short_write : Error
  -- v2/internal/carv1/util
  section_too_large header_too_large : Error
  -- v2 and v2/internal/carv1
  invalid_header invalid_car_version empty_car content_mismatch : Error
  invalid_data_offset invalid_data_size invalid_index_offset : Error
  already_v1 null_padding malformed_v2 unknown_codec : Error
  cid_too_large : ℕ → ℕ → Error
  -- v2/internal/io
  offset_overflow offset_underflow : Error
  -- v2/index
  not_found width_too_small width_too_large length_overflow count_overflow : Error
  wrong_width_count : Error
  -- v2/blockstore
  closed read_only finalize_closed resume_version resume_offset corrupt_header : Error
  resume_roots delete_unsupported invalid_entry : Error
  block_not_found zero_length_section : Error
  -- v2/writer.go
  header_size_mismatch : ℕ → ℕ → Error
  -- v2/reader.go
  short_section invalid_cid_version : Error
  -- no error value: the call panics
  panic : Error
  -- an error of a package outside this repository
  external : ℕ → Error

pub data Result {ℓ} (A : Type ℓ) : Type ℓ where
  ok : A → Result A
  err : Error → Result A

-- To split on a computed result and keep the equation.
pub Result-cases {ℓ} :
    {A : Type ℓ} (r : Result A) → ((e : Error) × (r ≡ err e)) ⊎ ((a : A) × (r ≡ ok a))
Result-cases (ok a) = inr (a, refl)
Result-cases (err e) = inl (e, refl)

-- `err == io.EOF`.
abbrev pub is_eof : Error → Bool
is_eof eof = true
is_eof _ = false

abbrev pub is_section_too_large : Error → Bool
is_section_too_large section_too_large = true
is_section_too_large _ = false

-- `errors.Is(err, index.ErrNotFound)`.
abbrev pub is_not_found : Error → Bool
is_not_found not_found = true
is_not_found _ = false

infixl 5 ◌>>=◌
abbrev pub ◌>>=◌ {ℓ κ} : {A : Type ℓ} {B : Type κ} → Result A → (A → Result B) → Result B
err e >>= next = err e
ok x >>= next = next x

-- A chain that succeeds has a first step that succeeds, with a value that its second step takes.
pub >>=-eq-ok {ℓ κ} :
    {A : Type ℓ} {B : Type κ} (first : Result A) (next : A → Result B) {end : B}
    → (first >>= next) ≡ ok end
    → (x : A) × (first ≡ ok x) × (next x ≡ ok end)
>>=-eq-ok (err e) next eq = cc
>>=-eq-ok (ok x) next eq = (x, refl, eq)

-- What `io.ReadFull(r, buf)` leaves, for a buffer of `n` bytes.
pub record Full : Type 0 where
  pub buf : Bytes
  pub count : ℕ
  pub error : Option Error
  pub rest : Bytes

unfoldable pub read_full : ℕ → Bytes → Full
read_full n src = record {
  buf = take n src;
  count = min n (length src);
  error =
      if leb n (length src)
      then none
      else if length src == 0
      then some eof
      else some unexpected_eof;
  rest = drop n src;
}

-- What `w.Write(p)` leaves.
pub record Written {ℓ} (S : Type ℓ) : Type ℓ where
  pub count : ℕ
  pub error : Option Error
  pub state : S

-- An io.Writer with the state S.
pub record Sink {ℓ} (S : Type ℓ) : Type ℓ where
  pub write : Bytes → S → Written S

-- What io.Writer documents, as far as the code relies on it: without an error all of `p` is
-- written, behind what was written before.
pub record Appends {ℓ} {S : Type ℓ} (k : Sink S) (content : S → Bytes) : Type ℓ where
  pub all_written :
      (p : Bytes) (s : S)
      → (k.write p s).error ≡ none
      → (content (k.write p s).state ≡ content s ++ p) × ((k.write p s).count ≡ length p)

-- A buffer that takes `room` more bytes, and then fails.
pub record Buffer : Type 0 where
  pub out : Bytes
  pub room : ℕ

unfoldable pub buffer_write : Bytes → Buffer → Written Buffer
buffer_write p b = record {
  count = min (length p) b.room;
  error = if leb (length p) b.room then none else some short_write;
  state = record { out = b.out ++ take b.room p; room = b.room - length p };
}

abbrev pub buffer : Sink Buffer
buffer = record { write = buffer_write }
