-- ===== src/Blockstore/ReadOnly.antt =====
-- v2/blockstore/readonly.go: the blockstore over a CAR that is only read. The mutex and the
-- goroutine of AllKeysChan are left out: a call is one step, and the keys are the list that a
-- consumer of the whole channel gets. The position of that walk is taken within an int64.
pub mod Lookup
pub mod Keys
pub mod Open
use go_car.Prelude.{
  ℕ, zero, suc, ◌+◌, ◌-◌, ◌^◌, List, [], ◌∷◌, ◌++◌, Option, none, some, drop, length,
}
use go_car.Prelude.{Bool, true, false, not, ltb, leb, ◌==◌, if◌then◌else◌}
use go_car.Prelude.Int.{ℤ, pos, negsuc, sub_ℕ}
use go_car.Bytes.{Bytes, bytes_equal}
use go_car.Stream.{
  Error, is_eof, is_not_found, closed, read_only, not_found, block_not_found, zero_length_section,
  offset_overflow, Result, ok, err, ◌>>=◌,
}
use go_car.Varint.{Varint, Uvarint}
use go_car.Cids.{CidLib, Decoded, Block}
use go_car.Section.{read_node}
use go_car.Carv1.{CarHeader, Cbor, read_car_header, car_header_size}
use go_car.Options.{Options}

-- The backing: a section of a file in memory, as io.SectionReader gives it, or the file from a base
-- on, as offsetReadSeeker does.
pub data Backing : Type 0 where
  section_of : Bytes → Backing
  from_offset : ℕ → Bytes → Backing

-- `internalio.NewOffsetReadSeeker(b.backing, int64(offset))`: the bytes from there on. A negative
-- int64 is outside of a section, where a read finds its end; over an offsetReadSeeker it makes the
-- new base smaller than the old one.
unfoldable pub open_at : Backing → ℕ → Result Bytes
open_at (section_of bs) offset = ok (if leb (2 ^ 63) offset then [] else drop offset bs)
open_at (from_offset base bs) offset =
    if leb (2 ^ 63) (base + offset) then err offset_overflow else ok (drop (base + offset) bs)

-- What the methods use of the index.
abbrev pub GetAll : Type 0 → Type 1
GetAll Cid = (A : Type 0) → Cid → (ℕ → A → Bool × A) → A → Option Error × A

pub record ReadOnly (Cid : Type 0) : Type 1 where
  pub is_closed : Bool
  pub backing : Backing
  pub get_all : GetAll Cid
  -- what carv2Closer.Close answers, if there is one
  pub closer : Option (Option Error)
  pub opts : Options

-- What a callback leaves: the value found, and the error.
pub record Found (A : Type 0) : Type 0 where
  pub value : A
  pub error : Option Error

module _ {Cid : Type 0} (v : Varint) (lib : CidLib Cid) (identity : ℕ) where
  -- isIdentity: the digest, and whether the code is multihash.IDENTITY.
  unfoldable pub is_identity : Cid → Result (Bytes × Bool)
  is_identity key = do d ← lib.decode (lib.hash key); ok (d.digest, d.code == identity)

  -- The CID of the section at an offset, with the lengths of the section and of the CID.
  unfoldable pub read_cid_at : Backing → ℕ → Result (ℕ × ℕ × Cid)
  read_cid_at backing offset = elim (open_at backing offset) [
    | err e ↦ err e
    | ok uar ↦
        let l = v.read uar in
        elim l.error [
          | some e ↦ err e
          | none ↦ elim (lib.from_reader l.rest) [
            | err e ↦ err e
            | ok (cid_len, c) ↦ ok (l.value, cid_len, c)
          ]
        ]
  ]

  -- The callback of Has; its value is `fnFound`.
  unfoldable pub has_fn : ReadOnly Cid → Cid → ℕ → Found Bool → Bool × Found Bool
  has_fn b key offset s = elim (read_cid_at b.backing offset) [
    | err e ↦ (false, record s { error = some e })
    | ok (section_len, cid_len, read_cid) ↦
        if b.opts.blockstore_use_whole_cids
        then (not (lib.equals read_cid key), record s { value = lib.equals read_cid key })
        else (false, record s { value = bytes_equal (lib.hash read_cid) (lib.hash key) })
  ]

  unfoldable pub has : ReadOnly Cid → Cid → Result Bool
  has b key = elim (is_identity key) [
    | err e ↦ err e
    | ok (digest, identical) ↦
        if identical
        then ok true
        else if b.is_closed
        then err closed
        else let (failed, s) =
            b.get_all (Found Bool) key (has_fn b key) (record { value = false; error = none }) in
          elim failed [
            | some e ↦ if is_not_found e then ok false else err e
            | none ↦ elim s.error [ some e ↦ err e | none ↦ ok s.value ]
          ]
  ]

  unfoldable pub read_block : ReadOnly Cid → ℕ → Result (Cid × Bytes)
  read_block b idx = elim (open_at b.backing idx) [
    | err e ↦ err e
    | ok r ↦ (read_node v lib b.opts.zero_length_section_as_eof b.opts.max_allowed_section_size r).0
  ]

  -- The callback of Get; its value is `fnData`, `none` for nil.
  unfoldable pub get_fn :
      ReadOnly Cid → Cid → ℕ → Found (Option Bytes) → Bool × Found (Option Bytes)
  get_fn b key offset s = elim (read_block b offset) [
    | err e ↦ (false, record s { error = some e })
    | ok (read_cid, data_read) ↦
        if b.opts.blockstore_use_whole_cids
        then (if lib.equals read_cid key
            then (false, record s { value = some data_read })
            else (true, s))
        else if bytes_equal (lib.hash read_cid) (lib.hash key)
        then (false, record s { value = some data_read })
        else (false, s)
  ]

  unfoldable pub get : ReadOnly Cid → Cid → Result (Block Cid)
  get b key = elim (is_identity key) [
    | err e ↦ err e
    | ok (digest, identical) ↦
        if identical
        then ok (record { cid = key; raw = digest })
        else if b.is_closed
        then err closed
        else let (failed, s) =
            b.get_all (Found (Option Bytes)) key (get_fn b key)
              (record { value = none; error = none }) in
          elim failed [
            | some e ↦ err block_not_found
            | none ↦ elim s.error [
              | some e ↦ err e
              | none ↦ elim s.value [
                | none ↦ err block_not_found
                | some found ↦ ok (record { cid = key; raw = found })
              ]
            ]
          ]
  ]

  -- The callback of GetSize; its value is `fnSize`, where -1 stands for a size not found.
  unfoldable pub get_size_fn : ReadOnly Cid → Cid → ℕ → Found ℤ → Bool × Found ℤ
  get_size_fn b key offset s = elim (read_cid_at b.backing offset) [
    | err e ↦ (false, record s { error = some e })
    | ok (section_len, cid_len, read_cid) ↦
        let found = record s { value = sub_ℕ section_len cid_len } in
        if b.opts.blockstore_use_whole_cids
        then (if lib.equals read_cid key then (false, found) else (true, s))
        else if bytes_equal (lib.hash read_cid) (lib.hash key)
        then (false, found)
        else (false, s)
  ]

  -- `fnSize == -1`.
  unfoldable pub is_minus_one : ℤ → Bool
  is_minus_one (pos n) = false
  is_minus_one (negsuc n) = n == 0

  unfoldable pub get_size : ReadOnly Cid → Cid → Result ℤ
  get_size b key = elim (is_identity key) [
    | err e ↦ err e
    | ok (digest, identical) ↦
        if identical
        then ok (pos (length digest))
        else if b.is_closed
        then err closed
        else let (failed, s) =
            b.get_all (Found ℤ) key (get_size_fn b key)
              (record { value = negsuc 0; error = none }) in
          elim failed [
            | some e ↦ err (if is_not_found e then block_not_found else e)
            | none ↦ elim s.error [
              | some e ↦ err e
              | none ↦ if is_minus_one s.value then err block_not_found else ok s.value
            ]
          ]
  ]

-- DeleteBlock, Put and PutMany.
abbrev pub delete_block : {Cid : Type 0} → ReadOnly Cid → Cid → Option Error
delete_block b c = some read_only

abbrev pub put : {Cid : Type 0} → ReadOnly Cid → Block Cid → Option Error
put b blk = some read_only

abbrev pub put_many : {Cid : Type 0} → ReadOnly Cid → List (Block Cid) → Option Error
put_many b blks = some read_only

-- Close, which may be called again.
unfoldable pub close : {Cid : Type 0} → ReadOnly Cid → Option Error × ReadOnly Cid
close b =
    let b' = record b { is_closed = true } in
    elim b.closer [ none ↦ (none, b') | some answer ↦ (answer, b') ]

module _ {Cid : Type 0} (v : Varint) (cbor : Cbor Cid) (lib : CidLib Cid) where
  unfoldable pub roots : ReadOnly Cid → Result (List Cid)
  roots b = elim (open_at b.backing 0) [
    | err e ↦ err e
    | ok ors ↦ elim (read_car_header v cbor b.opts.max_allowed_header_size ors).0 [
      | err e ↦ err e
      | ok header ↦ ok header.roots
    ]
  ]

  -- The goroutine of AllKeysChan, over the bytes from the end of the header on: the keys sent, and
  -- the error reported. `raw_v1` is `cid.NewCidV1(cid.Raw, c.Hash())`. The keys sent so far are in
  -- front; `none` means that the fuel ran out.
  unfoldable pub send_keys :
      (Cid → Cid) → Options → ℕ → Bytes → List Cid → Option (List Cid × Option Error)
  send_keys raw_v1 o zero src sent = none
  send_keys raw_v1 o (suc fuel) src sent =
      let l = v.read src in
      elim l.error [
        | some e ↦ some (sent, (if is_eof e then none else some e))
        | none ↦ elim (l.value == 0) [
          | true ↦
              some (sent, (if o.zero_length_section_as_eof then none else some zero_length_section))
          | false ↦ elim (lib.from_reader l.rest) [
            | err e ↦ some (sent, some e)
            | ok (n, c) ↦
                let key = if o.blockstore_use_whole_cids then c else raw_v1 c in
                send_keys raw_v1 o fuel (drop l.value l.rest) (sent ++ key ∷ [])
          ]
        ]
      ]

  unfoldable pub all_keys_chan :
      (Cid → Cid) → ReadOnly Cid → Result (Option (List Cid × Option Error))
  all_keys_chan raw_v1 b = if b.is_closed then err closed else elim (open_at b.backing 0) [
    | err e ↦ err e
    | ok rdr ↦ elim (read_car_header v cbor b.opts.max_allowed_header_size rdr).0 [
      | err e ↦ err e
      | ok header ↦ elim (car_header_size v cbor header) [
        | err e ↦ err e
        | ok header_size ↦ ok (send_keys raw_v1 b.opts (suc (length rdr)) (drop header_size rdr) [])
      ]
    ]
  ]
