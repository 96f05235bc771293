-- ===== src/Section/Limits.antt =====
-- LdRead on any stream: its bounds, and how it answers streams that end too early.
use go_car.Prelude.{ℕ, ◌≤◌, ◌<◌, ◌^◌, ◌≡◌, inl, inr, arith, [], ◌++◌}
use go_car.Prelude.{length, length-take, take-append-drop, length-drop, Bool, ◌==◌, if◌then◌else◌}
use go_car.Bytes.{Bytes}
use go_car.Stream.{eof, unexpected_eof, section_too_large, Result, ok, err, Result-cases, read_full}
use go_car.Stream.Laws.{drop_all}
use go_car.Varint.{Varint, VarintLaws}
use go_car.Cids.{CidLib}
use go_car.Section.{ld_read, read_node}

module _ (v : Varint) (laws : VarintLaws v) (zero_len_as_eof : Bool) (max_read_bytes : ℕ) where
  abbrev pub read : Bytes → Result Bytes × Bytes
  read = ld_read v zero_len_as_eof max_read_bytes

  -- What LdRead returns is within the limit, was the next part of the stream, and costs a byte of
  -- it at least: so a loop of reads ends.
  pub ld_read_bounds :
      (src payload : Bytes)
      → (read src).0 ≡ ok payload
      → (length payload ≤ max_read_bytes)
        × (length (read src).1 < length src)
        × ((v.read src).rest ≡ payload ++ (read src).1)
  unfolding ld_read read_full
  ld_read_bounds src payload e =
      let l = v.read src in
      ground (
        arith,
        laws.read_shorter src,
        length-take l.value l.rest,
        length-drop l.value l.rest,
        take-append-drop l.value l.rest,
      )

  -- A length above the limit is refused with the body unread, whatever follows.
  pub ld_read_too_large :
      (n : ℕ) (body : Bytes)
      → n < 2 ^ 63
      → max_read_bytes < n
      → ld_read v zero_len_as_eof max_read_bytes (v.put n ++ body) ≡ (err section_too_large, body)
  unfolding ld_read
  ld_read_too_large n body small big = ground (arith, laws.read_put n body small)

  -- A body that is cut short is refused: io.ErrUnexpectedEOF if some of it is there, and io.EOF,
  -- the error of a clean end, if the stream stops right behind the length.
  pub ld_read_cut :
      (n : ℕ) (body : Bytes)
      → n < 2 ^ 63
      → n ≤ max_read_bytes
      → length body < n
      → ld_read v zero_len_as_eof max_read_bytes (v.put n ++ body)
        ≡ (if length body == 0 then err eof else err unexpected_eof, [])
  unfolding ld_read read_full
  ld_read_cut n body small fits cut = ground (arith, laws.read_put n body small, drop_all body n)

  -- The data of a block that ReadNode returns is within the limit as well.
  pub read_node_bounds :
      {Cid : Type 0} (lib : CidLib Cid) (src : Bytes) (c : Cid) (raw : Bytes)
      → (read_node v lib zero_len_as_eof max_read_bytes src).0 ≡ ok (c, raw)
      → (length raw ≤ max_read_bytes)
        × (length (read_node v lib zero_len_as_eof max_read_bytes src).1 < length src)
  unfolding read_node
  read_node_bounds lib src c raw e = elim (Result-cases (read src).0) [
    | inl (x, p) ↦ ground arith
    | inr (payload, p) ↦ elim (Result-cases (lib.from_bytes payload)) [
      | inl (x, q) ↦ ground arith
      | inr ((n, c'), q) ↦ ground (arith, ld_read_bounds src payload p, length-drop n payload)
    ]
  ]
