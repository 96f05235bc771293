-- ===== src/BlockReader/Payload.antt =====
-- BlockReader hides the container: a CARv2 around a payload reads as the payload alone.
use go_car.Prelude.{ℕ, ◌+◌, ◌-◌, ◌≤◌, ◌≡◌, inl, inr, sym, ap, arith, [], ◌∷◌, ◌++◌, drop}
use go_car.Prelude.{length, length-append, Bool, false}
use go_car.Bytes.{Bytes}
use go_car.Stream.{ok, Result-cases}
use go_car.Stream.Laws.{take-append, drop-append}
use go_car.Varint.{Varint, VarintLaws}
use go_car.Header.{Header, IsU64, pragma, pragma_size, header_size, zero_header}
use go_car.Header.Codec.{header_bytes, IsPlaced, read_header-header_bytes}
use go_car.Section.Frame.{ld_read-frame}
use go_car.Carv1.{CarHeader, Cbor, read_car_header}
use go_car.Options.{Options}
use go_car.BlockReader.{BlockReader, skip, limit, open_payload, new_block_reader}

-- What the comment on the pragma says: it is a CARv1 header, of version 2 and without roots.
pub record PragmaLaws {Cid : Type 0} (v : Varint) (cbor : Cbor Cid) : Type 0 where
  pub framed : v.put 10 ≡ 10 ∷ []
  pub decoded : cbor.decode_into (drop 1 pragma) ≡ ok (record { roots = []; version = 2 })

-- A CARv2 around a payload.
abbrev pub wrapped : Header → Bytes → Bytes → Bytes → Bytes
wrapped h pad payload rest = pragma ++ (header_bytes h ++ (pad ++ (payload ++ rest)))

module _ {Cid : Type 0} (v : Varint) (cbor : Cbor Cid) where
  pub read_car_header-pragma :
      (max : ℕ) (rest : Bytes)
      → VarintLaws v
      → PragmaLaws v cbor
      → 10 ≤ max
      → read_car_header v cbor max (pragma ++ rest)
        ≡ (ok (record { roots = []; version = 2 }), rest)
  unfolding read_car_header
  read_car_header-pragma max rest laws p h =
      let read : _ = ld_read-frame v laws false max (drop 1 pragma) rest in
      ground (arith, p.framed, p.decoded, read)

  skip-append :
      (seekable : Bool) (pad rest : Bytes) (n : ℕ)
      → length pad ≡ n
      → skip seekable n (pad ++ rest) ≡ ok rest
  unfolding skip
  skip-append seekable pad rest n h =
      ground (arith, drop-append pad rest n h, length-append pad rest)

  open_payload-header_bytes :
      (seekable : Bool) (o : Options) (h : Header) (pad payload rest : Bytes)
      (header : CarHeader Cid) (sections : Bytes)
      → IsU64 h.characteristics.hi
      → IsU64 h.characteristics.lo
      → IsPlaced h
      → h.data_offset ≡ pragma_size + header_size + length pad
      → h.data_size ≡ length payload
      → read_car_header v cbor o.max_allowed_header_size payload ≡ (ok header, sections)
      → header.version ≡ 1
      → open_payload v cbor seekable o (header_bytes h ++ (pad ++ (payload ++ rest)))
        ≡ ok (record { version = 2; roots = header.roots; r = sections; opts = o })
  unfolding open_payload limit
  open_payload-header_bytes seekable o h pad payload rest header sections hi lo placed offset size
        read one =
      let body = pad ++ (payload ++ rest) in
      let gap : h.data_offset - pragma_size - header_size ≡ length pad = omega (arith, offset) in
      ground (
        arith,
        read_header-header_bytes h zero_header body hi lo placed,
        skip-append seekable pad (payload ++ rest) (h.data_offset - pragma_size - header_size)
            (sym gap),
        take-append payload rest h.data_size (omega (arith, size)),
        read,
        one,
      )

  open_payload_version :
      (seekable : Bool) (o : Options) (src : Bytes) (br : BlockReader Cid)
      → open_payload v cbor seekable o src ≡ ok br
      → br.version ≡ 2
  unfolding open_payload
  open_payload_version seekable o src br e = ground arith

  -- What a reader of version 1 was opened from.
  new_block_reader_v1 :
      (seekable : Bool) (o : Options) (src : Bytes) (br : BlockReader Cid)
      → new_block_reader v cbor seekable o src ≡ ok br
      → br.version ≡ 1
      → (header : CarHeader Cid) × (sections : Bytes) × (read_car_header v cbor
            o.max_allowed_header_size src
          ≡ (ok header, sections))
        × (header.version ≡ 1)
        × (br ≡ record { version = 1; roots = header.roots; r = sections; opts = o })
  unfolding new_block_reader
  new_block_reader_v1 seekable o src br opened one =
      let read = read_car_header v cbor o.max_allowed_header_size src in
      elim (Result-cases read.0) [
        | inl (e, p) ↦ ground (arith, p, opened)
        | inr (header, p) ↦
            let version : header.version ≡ 1 =
              ground (arith, p, opened, open_payload_version seekable o read.1 br) in
            (header, read.1, ap (λ x. (x, read.1)) p, version, ground (arith, p, opened, version))
      ]

  -- If NewBlockReader opens a payload on its own as a CARv1, it opens a CARv2 around that payload,
  -- with any padding in front and anything behind, to a reader with the same roots and the same
  -- bytes to read, whether the stream can seek or not. The header of the CARv2 places the payload,
  -- and the limit on headers allows the pragma.
  pub new_block_reader-wrapped :
      (seekable : Bool) (o : Options) (h : Header) (pad payload rest : Bytes) (br : BlockReader Cid)
      → VarintLaws v
      → PragmaLaws v cbor
      → 10 ≤ o.max_allowed_header_size
      → IsU64 h.characteristics.hi
      → IsU64 h.characteristics.lo
      → IsPlaced h
      → h.data_offset ≡ pragma_size + header_size + length pad
      → h.data_size ≡ length payload
      → new_block_reader v cbor seekable o payload ≡ ok br
      → br.version ≡ 1
      → new_block_reader v cbor seekable o (wrapped h pad payload rest)
        ≡ ok (record br { version = 2 })
  unfolding new_block_reader
  new_block_reader-wrapped seekable o h pad payload rest br laws pragma_laws room hi lo placed
        offset size opened one =
      let (header, sections, read, version, same) =
        new_block_reader_v1 seekable o payload br opened one in
      let body = header_bytes h ++ (pad ++ (payload ++ rest)) in
      let start : _ = read_car_header-pragma o.max_allowed_header_size body laws pragma_laws room in
      let inner : _ =
        open_payload-header_bytes seekable o h pad payload rest header sections hi lo placed offset
          size read version in
      ground (arith, start, inner, same)
