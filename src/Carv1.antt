-- ===== src/Carv1.antt =====
-- v2/internal/carv1/car.go (and car.go of the v0 module): the CARv1 header and the reader.
pub mod Load
pub mod Matches
pub mod ReadBack
use go_car.Prelude.{
  ℕ, suc, zero, ◌≡◌, ◌+◌, ◌^◌, ◌*◌, List, [], ◌∷◌, ◌++◌, Option, none, some, length,
}
use go_car.Prelude.{Bool, true, false, not, ltb, ◌==◌, if◌then◌else◌}
use go_car.Bytes.{Bytes}
use go_car.Stream.{
  Error, is_eof, is_section_too_large, header_too_large, invalid_header, invalid_car_version,
  empty_car, content_mismatch, Result, ok, err, Sink,
}
use go_car.Varint.{Varint}
use go_car.Cids.{CidLib, Block}
use go_car.Section.{ld_write, ld_size, ld_read, read_node}

abbrev pub default_max_allowed_header_size : ℕ
default_max_allowed_header_size = 32 * 2 ^ 20

abbrev pub default_max_allowed_section_size : ℕ
default_max_allowed_section_size = 8 * 2 ^ 20

pub record CarHeader (Cid : Type 0) : Type 0 where
  pub roots : List Cid
  pub version : ℕ

-- go-ipld-cbor, which is not part of the repository: DumpObject and DecodeInto at CarHeader.
pub record Cbor (Cid : Type 0) : Type 0 where
  pub dump_object : CarHeader Cid → Result Bytes
  pub decode_into : Bytes → Result (CarHeader Cid)

pub record CborLaws {Cid : Type 0} (c : Cbor Cid) : Type 0 where
  pub decode-dump :
      (h : CarHeader Cid) (hb : Bytes) → c.dump_object h ≡ ok hb → c.decode_into hb ≡ ok h

-- The store that LoadCar fills. `put_many` is there if it implements batchStore.
pub record Store {ℓ} (Cid : Type 0) (T : Type ℓ) : Type ℓ where
  pub put : Block Cid → T → Option Error × T
  pub put_many : Option (List (Block Cid) → T → Option Error × T)

pub record CarReader (Cid : Type 0) : Type 0 where
  pub r : Bytes
  pub header : CarHeader Cid
  pub zero_len_as_eof : Bool
  pub max_allowed_section_size : ℕ

module _ {Cid : Type 0} (lib : CidLib Cid) where
  unfoldable pub contains_root : List Cid → Cid → Bool
  contains_root [] root = false
  contains_root (r ∷ rs) root = if lib.equals r root then true else contains_root rs root

  -- `for _, r := range h.Roots { if !other.containsRoot(r) { return false } }`.
  unfoldable pub contains_roots : List Cid → List Cid → Bool
  contains_roots other [] = true
  contains_roots other (r ∷ rs) =
      if not (contains_root other r) then false else contains_roots other rs

  -- `h.Roots[0].Equals(other.Roots[0])`, at two lists of length one.
  unfoldable pub first_equals : List Cid → List Cid → Bool
  first_equals (r ∷ _) (s ∷ _) = lib.equals r s
  first_equals _ _ = false

  unfoldable pub matches : CarHeader Cid → CarHeader Cid → Bool
  matches h other =
      if not (h.version == other.version)
      then false
      else if not (length h.roots == length other.roots)
      then false
      else if length h.roots == 1
      then first_equals h.roots other.roots
      else contains_roots other.roots h.roots

module _ {Cid : Type 0} (v : Varint) (cbor : Cbor Cid) where
  unfoldable pub read_car_header : ℕ → Bytes → Result (CarHeader Cid) × Bytes
  read_car_header max_read_bytes src =
      let (hb_read, rest) = ld_read v false max_read_bytes src in
      elim hb_read [
        | err e ↦ (err (if is_section_too_large e then header_too_large else e), rest)
        | ok hb ↦ elim (cbor.decode_into hb) [
          | err e ↦ (err invalid_header, rest)
          | ok ch ↦ (ok ch, rest)
        ]
      ]

  unfoldable pub write_car_header {ℓ} : {S : Type ℓ} → Sink S → CarHeader Cid → S → Option Error × S
  write_car_header k h s = elim (cbor.dump_object h) [
    | err e ↦ (some e, s)
    | ok hb ↦ ld_write v k (hb ∷ []) s
  ]

  unfoldable pub car_header_size : CarHeader Cid → Result ℕ
  car_header_size h = elim (cbor.dump_object h) [ err e ↦ err e | ok hb ↦ ok (ld_size v (hb ∷ [])) ]

  unfoldable pub new_car_reader_without_defaults : Bytes → Bool → ℕ → ℕ → Result (CarReader Cid)
  new_car_reader_without_defaults src zero_len_as_eof max_header max_section =
      let (header_read, rest) = read_car_header max_header src in
      elim header_read [
        | err e ↦ err e
        | ok ch ↦
            if not (ch.version == 1)
            then err invalid_car_version
            else if length ch.roots == 0
            then err empty_car
            else ok (record {
              r = rest;
              header = ch;
              zero_len_as_eof = zero_len_as_eof;
              max_allowed_section_size = max_section;
            })
      ]

  unfoldable pub new_car_reader : Bytes → Result (CarReader Cid)
  new_car_reader src =
      new_car_reader_without_defaults src false default_max_allowed_header_size
        default_max_allowed_section_size

  unfoldable pub new_car_reader_with_zero_length_section_as_eof : Bytes → Result (CarReader Cid)
  new_car_reader_with_zero_length_section_as_eof src =
      new_car_reader_without_defaults src true default_max_allowed_header_size
        default_max_allowed_section_size

module _ {Cid : Type 0} (v : Varint) (lib : CidLib Cid) where
  -- The content check behind ReadNode: hash the data and compare.
  unfoldable pub check_block : Cid → Bytes → Result (Block Cid)
  check_block c raw = elim (lib.sum c raw) [
    | err e ↦ err e
    | ok hashed ↦
        if not (lib.equals hashed c)
        then err content_mismatch
        else ok (record { cid = c; raw = raw })
  ]

  unfoldable pub next : CarReader Cid → Result (Block Cid) × CarReader Cid
  next cr =
      let (node, rest) = read_node v lib cr.zero_len_as_eof cr.max_allowed_section_size cr.r in
      let cr' = record cr { r = rest } in
      elim node [ err e ↦ (err e, cr') | ok (c, raw) ↦ (check_block c raw, cr') ]

  module _ {ℓ} {T : Type ℓ} where
    -- `none` means that the fuel ran out.
    unfoldable pub load_car_slow :
        ℕ
        → (Block Cid → T → Option Error × T)
        → CarReader Cid
        → T
        → Option (Result (CarHeader Cid) × T)
    load_car_slow zero put cr t = none
    load_car_slow (suc fuel) put cr t =
        let (read, cr') = next cr in
        elim read [
          | err e ↦ some (if is_eof e then ok cr.header else err e, t)
          | ok blk ↦
              let (failed, t') = put blk t in
              elim failed [ some e ↦ some (err e, t') | none ↦ load_car_slow fuel put cr' t' ]
        ]

    -- `buf` is the batch that is not stored yet.
    unfoldable pub load_car_fast :
        ℕ
        → (List (Block Cid) → T → Option Error × T)
        → CarReader Cid
        → List (Block Cid)
        → T
        → Option (Result (CarHeader Cid) × T)
    load_car_fast zero put_many cr buf t = none
    load_car_fast (suc fuel) put_many cr buf t =
        let (read, cr') = next cr in
        elim read [
          | err e ↦
              if is_eof e
              then (if ltb 0 (length buf)
                  then (let (failed, t') = put_many buf t in
                      elim failed [ some e' ↦ some (err e', t') | none ↦ some (ok cr.header, t') ])
                  else some (ok cr.header, t))
              else some (err e, t)
          | ok blk ↦
              let full = buf ++ blk ∷ [] in
              elim (ltb 1000 (length full)) [
                | true ↦
                    let (failed, t') = put_many full t in
                    elim failed [
                      | some e' ↦ some (err e', t')
                      | none ↦ load_car_fast fuel put_many cr' [] t'
                    ]
                | false ↦ load_car_fast fuel put_many cr' full t
              ]
        ]

    -- A byte at least is read in each round, so one round more than there are bytes is enough.
    unfoldable pub load_car :
        Cbor Cid → Store Cid T → Bytes → T → Option (Result (CarHeader Cid) × T)
    load_car cbor store src t = elim (new_car_reader v cbor src) [
      | err e ↦ some (err e, t)
      | ok cr ↦ elim store.put_many [
        | some put_many ↦ load_car_fast (suc (length cr.r)) put_many cr [] t
        | none ↦ load_car_slow (suc (length cr.r)) store.put cr t
      ]
    ]
