-- ===== src/Blockstore/ReadOnly/Open.antt =====
-- v2/blockstore/readonly.go: NewReadOnly over bytes in memory.
use go_car.Prelude.{
  ℕ, List, Option, none, some, false, ◌==◌, if◌then◌else◌, append-nil, [], ◌+◌, ◌≤◌, refl, arith,
  ◌++◌, append_assoc, take, drop, length, length-append, ◌≡◌, ap, ◌∙◌, sym,
}
use go_car.Bytes.{Bytes}
use go_car.Stream.{invalid_car_version, Result, ok, err}
use go_car.Varint.{Varint, VarintLaws}
use go_car.Cids.{CidLib}
use go_car.Carv1.{Cbor}
use go_car.Index.Single.{DigestRecord}
use go_car.Index.Codec.{Codecs, Index, read_from, index_get_all}
use go_car.Options.{Options}
use go_car.IndexGen.{generate_index}
use go_car.Header.{
  characteristics_bytes, offsets_bytes, Header, IsU64, pragma, pragma_size, header_size,
  zero_header, has_index,
}
use go_car.Reader.{Reader, read_version, read_v2_header, new_reader, data_reader, index_reader}
use go_car.Blockstore.ReadOnly.{ReadOnly, Backing, section_of, from_offset}
use go_car.Stream.Laws.{take-append, drop-append, drop-drop}
use go_car.Header.Codec.{header_bytes, IsPlaced, length-header_bytes, read_header-header_bytes}
use go_car.BlockReader.Payload.{PragmaLaws, wrapped, read_car_header-pragma}

module _ {Cid : Type 0} (v : Varint) (cbor : Cbor Cid) (lib : CidLib Cid) (identity : ℕ)
    (codecs : Codecs) (sort : List DigestRecord → List DigestRecord) where
  abbrev opened : Options → Backing → Index → ReadOnly Cid
  opened o backing idx = record {
    is_closed = false;
    backing = backing;
    get_all = λ A c fn a. index_get_all lib idx c fn a;
    closer = none;
    opts = o;
  }

  -- The index of a CARv2 when none is given: the one of the file, or one that is generated. `none`
  -- means that the fuel of the generation ran out.
  unfoldable index_of : Options → Reader Cid → Option (Result Index)
  index_of o r = elim (index_reader r) [
    | some src ↦ some (elim (read_from codecs v 0 src) [ err e ↦ err e | ok (idx, rest) ↦ ok idx ])
    | none ↦ generate_index v lib identity o cbor (data_reader r) sort codecs
  ]

  abbrev open_with : Options → Backing → Option (Result Index) → Option (Result (ReadOnly Cid))
  open_with o backing found = elim found [
    | none ↦ none
    | some (err e) ↦ some (err e)
    | some (ok idx) ↦ some (ok (opened o backing idx))
  ]

  unfoldable pub new_read_only : Options → Bytes → Option Index → Option (Result (ReadOnly Cid))
  unfolding index_of
  new_read_only o src given = elim (read_version v cbor lib o src) [
    | err e ↦ some (err e)
    | ok version ↦
        if version == 1
        then open_with o (from_offset 0 src) (elim given [
          | some idx ↦ some (ok idx)
          | none ↦ generate_index v lib identity o cbor src sort codecs
        ])
        else if version == 2
        then elim (new_reader v cbor lib src o) [
          | err e ↦ some (err e)
          | ok r ↦
              open_with o (section_of (data_reader r))
                (elim given [ some idx ↦ some (ok idx) | none ↦ index_of o r ])
        ]
        else some (err invalid_car_version)
  ]

  module _ (o : Options) (h : Header) (pad payload rest : Bytes) (laws : VarintLaws v)
      (pragma_laws : PragmaLaws v cbor) where
    full : length (header_bytes h) ≡ header_size
    full =
        let (c_size, o_size) = length-header_bytes h in
        omega (
          arith,
          c_size,
          o_size,
          length-append (characteristics_bytes h.characteristics) (offsets_bytes h),
        )

    new_reader-wrapped :
        10 ≤ o.max_allowed_header_size
        → IsU64 h.characteristics.hi
        → IsU64 h.characteristics.lo
        → IsPlaced h
        → new_reader v cbor lib (wrapped h pad payload rest) o
          ≡ ok (record {
            header = h;
            version = 2;
            r = wrapped h pad payload rest;
            roots = none;
            opts = o;
            closer = none;
          })
    unfolding new_reader read_version read_v2_header
    new_reader-wrapped room hi lo placed =
        let tail = pad ++ (payload ++ rest) in
        let version : _ =
          read_car_header-pragma v cbor o.max_allowed_header_size (header_bytes h ++ tail) laws
            pragma_laws room in
        let behind : drop pragma_size (wrapped h pad payload rest) ≡ header_bytes h ++ tail =
          drop-append pragma (header_bytes h ++ tail) pragma_size refl in
        let first : take header_size (header_bytes h ++ tail) ≡ header_bytes h ++ [] =
          take-append (header_bytes h) tail header_size full ∙ sym (append-nil (header_bytes h)) in
        let read : _ = read_header-header_bytes h zero_header [] hi lo placed in
        ground (arith, version, behind, first, read)

    drop-wrapped :
        (n : ℕ)
        → n ≡ pragma_size + header_size + length pad
        → drop n (wrapped h pad payload rest) ≡ payload ++ rest
    drop-wrapped n offset =
        let front = pragma ++ (header_bytes h ++ pad) in
        let split : wrapped h pad payload rest ≡ front ++ (payload ++ rest) = sym (
          append_assoc pragma (header_bytes h ++ pad) (payload ++ rest)
          ∙ ap (λ l. pragma ++ l) (append_assoc (header_bytes h) pad (payload ++ rest))) in
        ap (drop n) split
        ∙ drop-append front (payload ++ rest) n (
            length-append pragma (header_bytes h ++ pad)
            ∙ omega (arith, full, offset, length-append (header_bytes h) pad))

    payload-wrapped :
        h.data_offset ≡ pragma_size + header_size + length pad
        → h.data_size ≡ length payload
        → take h.data_size (drop h.data_offset (wrapped h pad payload rest)) ≡ payload
    payload-wrapped offset size =
        ap (take h.data_size) (drop-wrapped h.data_offset offset)
        ∙ take-append payload rest h.data_size (sym size)

    rest-wrapped :
        h.index_offset ≡ pragma_size + header_size + length pad + length payload
        → drop h.index_offset (wrapped h pad payload rest) ≡ rest
    rest-wrapped offset =
        let n = pragma_size + header_size + length pad in
        let bytes = wrapped h pad payload rest in
        ap (λ m. drop m bytes) offset
        ∙ sym (drop-drop (length payload) n bytes)
        ∙ ap (drop (length payload)) (drop-wrapped n refl)
        ∙ drop-append payload rest (length payload) refl

    -- Given an index, NewReadOnly of a CARv2 that is placed as its header says succeeds, within the
    -- limit on headers, and reads the payload through that index.
    new_read_only-wrapped :
        (idx : Index)
        → 10 ≤ o.max_allowed_header_size
        → IsU64 h.characteristics.hi
        → IsU64 h.characteristics.lo
        → IsPlaced h
        → h.data_offset ≡ pragma_size + header_size + length pad
        → h.data_size ≡ length payload
        → new_read_only o (wrapped h pad payload rest) (some idx)
          ≡ some (ok (opened o (section_of payload) idx))
    unfolding new_read_only data_reader read_version
    new_read_only-wrapped idx room hi lo placed offset size =
        let tail = header_bytes h ++ (pad ++ (payload ++ rest)) in
        let version : _ =
          read_car_header-pragma v cbor o.max_allowed_header_size tail laws pragma_laws room in
        let reader : _ = new_reader-wrapped room hi lo placed in
        let held : _ = payload-wrapped offset size in ground (arith, version, reader, held)

    -- Without an index, NewReadOnly of a CARv2 that is placed as its header says, with an index
    -- behind the payload that reads back, succeeds, within the limit on headers, and reads the
    -- payload through the index of the file.
    new_read_only-indexed :
        (idx : Index) (trailer : Bytes)
        → 10 ≤ o.max_allowed_header_size
        → IsU64 h.characteristics.hi
        → IsU64 h.characteristics.lo
        → IsPlaced h
        → h.data_offset ≡ pragma_size + header_size + length pad
        → h.data_size ≡ length payload
        → h.index_offset ≡ pragma_size + header_size + length pad + length payload
        → read_from codecs v 0 rest ≡ ok (idx, trailer)
        → new_read_only o (wrapped h pad payload rest) none
          ≡ some (ok (opened o (section_of payload) idx))
    unfolding new_read_only data_reader read_version index_of index_reader has_index
    new_read_only-indexed idx trailer room hi lo placed offset size index_offset index =
        let tail = header_bytes h ++ (pad ++ (payload ++ rest)) in
        let version : _ =
          read_car_header-pragma v cbor o.max_allowed_header_size tail laws pragma_laws room in
        let reader : _ = new_reader-wrapped room hi lo placed in
        let held : _ = payload-wrapped offset size in
        let last : _ = rest-wrapped index_offset in
        ground (arith, version, reader, held, last, index, index_offset)
