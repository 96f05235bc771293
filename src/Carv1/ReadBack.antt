-- ===== src/Carv1/ReadBack.antt =====
-- A header and blocks that were written are read back by CarReader.
use go_car.Prelude.{ℕ, ◌≤◌, ◌<◌, ◌^◌, ◌≡◌, inl, inr, arith, [], ◌∷◌, ◌++◌, append-nil, none}
use go_car.Prelude.{length, Bool, false}
use go_car.Bytes.{Bytes}
use go_car.Stream.{eof, ok, err, Result-cases, Sink, Appends}
use go_car.Varint.{Varint, VarintLaws}
use go_car.Cids.{CidLib, CidLaws, Block}
use go_car.Section.{ld_read, read_node}
use go_car.Section.Frame.{frame, ld_write-Appends, ld_read-frame, read_node-frame}
use go_car.Section.Limits.{ld_read_cut, read_node_bounds}
use go_car.Carv1.{
  CarHeader, Cbor, CborLaws, CarReader, read_car_header, write_car_header,
  new_car_reader_without_defaults, check_block, next,
}

-- A block as a section.
abbrev pub section : {Cid : Type 0} → Varint → CidLib Cid → Block Cid → Bytes
section v lib b = frame v (lib.to_bytes b.cid ++ b.raw)

-- A block whose data has the hash that its CID names, and that the limit allows.
pub record IsGood {Cid : Type 0} (lib : CidLib Cid) (max_section : ℕ) (b : Block Cid) : Type 0 where
  pub hashed : lib.sum b.cid b.raw ≡ ok b.cid
  pub fits : length (lib.to_bytes b.cid ++ b.raw) ≤ max_section
  pub small : length (lib.to_bytes b.cid ++ b.raw) < 2 ^ 63

module _ {Cid : Type 0} (v : Varint) (laws : VarintLaws v) where
  -- NewCarReader on what WriteHeader wrote without an error into an empty writer for a version 1
  -- header with roots, followed by anything, returns a reader with that header that stands behind
  -- it. The header has a cbor form, which is within the limit on headers and fits an int64.
  pub new_car_reader-write_car_header {ℓ} :
      {S : Type ℓ} (cbor : Cbor Cid) (k : Sink S) (content : S → Bytes) (h : CarHeader Cid) (s : S)
      (hb rest : Bytes) (zero_len_as_eof : Bool) (max_header max_section : ℕ)
      → CborLaws cbor
      → Appends k content
      → content s ≡ []
      → cbor.dump_object h ≡ ok hb
      → length hb ≤ max_header
      → length hb < 2 ^ 63
      → h.version ≡ 1
      → 0 < length h.roots
      → (write_car_header v cbor k h s).0 ≡ none
      → new_car_reader_without_defaults v cbor
          (content (write_car_header v cbor k h s).1 ++ rest)
          zero_len_as_eof
          max_header
          max_section
        ≡ ok (record {
          r = rest;
          header = h;
          zero_len_as_eof = zero_len_as_eof;
          max_allowed_section_size = max_section;
        })
  unfolding new_car_reader_without_defaults read_car_header write_car_header
  new_car_reader-write_car_header cbor k content h s hb rest z mh ms claws law start dump fits small
        one roots e =
      ground (
        arith,
        append-nil hb,
        ld_write-Appends v laws k content (hb ∷ []) s law,
        ld_read-frame v laws false mh hb rest,
        claws.decode-dump h hb dump,
      )

  module _ (lib : CidLib Cid) (cids : CidLaws lib) where
    -- Next returns a good block in front of the stream, and leaves the reader behind it.
    pub next-section :
        (cr : CarReader Cid) (b : Block Cid) (rest : Bytes)
        → IsGood lib cr.max_allowed_section_size b
        → next v lib (record cr { r = section v lib b ++ rest }) ≡ (ok b, record cr { r = rest })
    unfolding next check_block
    next-section cr b rest good = ground (
      arith,
      read_node-frame v laws lib cr.zero_len_as_eof cr.max_allowed_section_size b.cid b.raw rest
          cids,
      good.hashed,
      good.fits,
      good.small,
      cids.equals_iff b.cid b.cid,
    )

    -- At the end of the stream Next returns io.EOF, again and again.
    pub next_end : (cr : CarReader Cid) → cr.r ≡ [] → next v lib cr ≡ (err eof, cr)
    unfolding next read_node ld_read
    next_end cr e = ground (arith, laws.read_nil)

  -- Next never answers with a block that does not have the hash in its CID, or that is over the
  -- limit; and with each block it takes a byte of the stream at least.
  pub next_sound :
      (lib : CidLib Cid) (cr : CarReader Cid) (b : Block Cid)
      → CidLaws lib
      → (next v lib cr).0 ≡ ok b
      → (lib.sum b.cid b.raw ≡ ok b.cid)
        × (length b.raw ≤ cr.max_allowed_section_size)
        × (length (next v lib cr).1.r < length cr.r)
  unfolding next check_block
  next_sound lib cr b cids e =
      let node = read_node v lib cr.zero_len_as_eof cr.max_allowed_section_size cr.r in
      elim (Result-cases node.0) [
        | inl (x, p) ↦ ground arith
        | inr ((c, raw), p) ↦ elim (Result-cases (lib.sum c raw)) [
          | inl (x, q) ↦ ground arith
          | inr (hashed, q) ↦ ground (
            arith,
            cids.equals_iff hashed c,
            read_node_bounds v laws cr.zero_len_as_eof cr.max_allowed_section_size lib cr.r c raw p,
          )
        ]
      ]

  -- A stream that stops right behind the length of a section is answered by Next with io.EOF, the
  -- answer of a clean end, if the length is not zero, within the limit on sections and fits an
  -- int64.
  pub next_cut :
      (lib : CidLib Cid) (cr : CarReader Cid) (n : ℕ)
      → n < 2 ^ 63
      → 0 < n
      → n ≤ cr.max_allowed_section_size
      → (next v lib (record cr { r = v.put n })).0 ≡ err eof
  unfolding next read_node
  next_cut lib cr n small pos fits = ground (
    arith,
    append-nil (v.put n),
    ld_read_cut v laws cr.zero_len_as_eof cr.max_allowed_section_size n [] small fits,
  )
