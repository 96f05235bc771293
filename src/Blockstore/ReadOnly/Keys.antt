-- ===== src/Blockstore/ReadOnly/Keys.antt =====
-- AllKeysChan on a payload that was written.
use go_car.Prelude.{
  ℕ, zero, suc, ◌≤◌, ◌<◌, ◌^◌, ◌≡◌, ◌≢◌, refl, inl, inr, arith, List, [], ◌∷◌, ◌++◌, append_assoc,
  append-nil, none, some, drop,
}
use go_car.Prelude.{
  length, length-append, length-drop, Option-cases, Bool-cases, false, ◌==◌, if◌then◌else◌,
}
use go_car.Bytes.{Bytes}
use go_car.Stream.{ok, Result-cases}
use go_car.Stream.Laws.{drop-append}
use go_car.Varint.{Varint, VarintLaws}
use go_car.Cids.{CidLib, CidLaws, Block}
use go_car.Section.Frame.{frame, ld_read-frame, ld_size-frame}
use go_car.Carv1.{CarHeader, Cbor, CborLaws, read_car_header, car_header_size}
use go_car.Carv1.ReadBack.{section}
use go_car.Carv1.Load.{sections}
use go_car.Options.{Options}
use go_car.Blockstore.ReadOnly.{ReadOnly, open_at, send_keys, all_keys_chan}

-- The keys of blocks: their CIDs, or the version 1 CIDs of their multihashes.
abbrev pub keys : {Cid : Type 0} → (Cid → Cid) → Options → List (Block Cid) → List Cid
keys raw_v1 o [] = []
keys raw_v1 o (b ∷ bs) =
    (if o.blockstore_use_whole_cids then b.cid else raw_v1 b.cid) ∷ keys raw_v1 o bs

-- Sections of the length of a Go slice.
abbrev pub AllShort : {Cid : Type 0} → CidLib Cid → List (Block Cid) → Type 0
AllShort lib [] = Unit
AllShort lib (b ∷ bs) = (length (lib.to_bytes b.cid ++ b.raw) < 2 ^ 63) × AllShort lib bs

module _ {Cid : Type 0} (v : Varint) (laws : VarintLaws v) (lib : CidLib Cid) (cids : CidLaws lib)
    (raw_v1 : Cid → Cid) (cbor : Cbor Cid) where
  send_keys-sections :
      (o : Options) (fuel : ℕ) (bs : List (Block Cid)) (sent : List Cid)
      → AllShort lib bs
      → length bs < fuel
      → send_keys v cbor lib raw_v1 o fuel (sections v lib bs) sent
        ≡ some (sent ++ keys raw_v1 o bs, none)
  unfolding send_keys
  send_keys-sections o zero bs sent short f = absurd (omega arith)
  send_keys-sections o (suc fuel) [] sent short f = ground (arith, laws.read_nil, append-nil sent)
  send_keys-sections o (suc fuel) (b ∷ bs) sent short f =
      let payload = lib.to_bytes b.cid ++ b.raw in
      let rest = sections v lib bs in
      let key = if o.blockstore_use_whole_cids then b.cid else raw_v1 b.cid in
      ground (
        arith,
        append_assoc (v.put (length payload)) payload rest,
        laws.read_put (length payload) (payload ++ rest) short.0,
        append_assoc (lib.to_bytes b.cid) b.raw rest,
        cids.from_reader-to_bytes b.cid (b.raw ++ rest),
        cids.to_bytes_pos b.cid,
        length-append (lib.to_bytes b.cid) b.raw,
        drop-append payload rest (length payload) refl,
        send_keys-sections o fuel bs (sent ++ (key ∷ [])) short.1,
        append_assoc sent (key ∷ []) (keys raw_v1 o bs),
      )

  pub length-sections :
      (bs : List (Block Cid)) → AllShort lib bs → length bs ≤ length (sections v lib bs)
  length-sections [] short = omega arith
  length-sections (b ∷ bs) short =
      let n = length (lib.to_bytes b.cid ++ b.raw) in
      omega (
        arith,
        length-sections bs short.1,
        length-append (section v lib b) (sections v lib bs),
        length-append (v.put n) (lib.to_bytes b.cid ++ b.raw),
        laws.length_put n short.0,
        laws.size_pos n,
      )

  -- Where the backing holds a header and sections, AllKeysChan of an open blockstore sends the keys
  -- of all blocks in order, and reports no error.
  pub all_keys_chan-sections :
      (b : ReadOnly Cid) (h : CarHeader Cid) (hb : Bytes) (bs : List (Block Cid))
      → CborLaws cbor
      → b.is_closed ≡ false
      → open_at b.backing 0 ≡ ok (frame v hb ++ sections v lib bs)
      → cbor.dump_object h ≡ ok hb
      → length hb ≤ b.opts.max_allowed_header_size
      → length hb < 2 ^ 62
      → AllShort lib bs
      → all_keys_chan v cbor lib raw_v1 b ≡ ok (some (keys raw_v1 b.opts bs, none))
  unfolding all_keys_chan read_car_header car_header_size
  all_keys_chan-sections b h hb bs claws opened held dump fits small short =
      let rest = sections v lib bs in
      let read : _ =
        ld_read-frame v laws false b.opts.max_allowed_header_size hb rest fits
          (omega (arith, small)) (ground arith) in
      let size : _ = ld_size-frame v laws (hb ∷ []) (omega (arith, length-append hb [], small)) in
      let fuel : length bs < suc (length (frame v hb ++ rest)) =
        omega (arith, length-append (frame v hb) rest, length-sections bs short) in
      let sent : _ =
        send_keys-sections b.opts (suc (length (frame v hb ++ rest))) bs [] short fuel in
      let behind : _ = drop-append (frame v hb) rest (length (frame v hb)) refl in
      ground (
        arith,
        held,
        opened,
        read,
        claws.decode-dump h hb dump,
        dump,
        size,
        append-nil hb,
        behind,
        sent,
      )

  send_keys_total :
      (o : Options) (fuel : ℕ) (src : Bytes) (sent : List Cid)
      → length src < fuel
      → send_keys v cbor lib raw_v1 o fuel src sent ≢ none
  unfolding send_keys
  send_keys_total o zero src sent f = absurd (omega arith)
  send_keys_total o (suc fuel) src sent f =
      let l = v.read src in
      elim (Option-cases l.error) [
        | inr (e, p) ↦ ground (arith, p)
        | inl p ↦ elim (Bool-cases (l.value == 0)) [
          | inl q ↦ ground (arith, p, q)
          | inr q ↦ elim (Result-cases (lib.from_reader l.rest)) [
            | inl (e, r) ↦ ground (arith, p, q, r)
            | inr ((n, c), r) ↦
                let less : length (drop l.value l.rest) < fuel =
                  omega (arith, laws.read_shorter src p, length-drop l.value l.rest, f) in
                let key = if o.blockstore_use_whole_cids then c else raw_v1 c in
                let rest : _ =
                  send_keys_total o fuel (drop l.value l.rest) (sent ++ (key ∷ [])) less in
                λ e. rest (ground (arith, p, q, r, e))
          ]
        ]
      ]

  -- The walk of AllKeysChan ends on every backing: its loop never runs out of rounds.
  pub all_keys_chan_total : (b : ReadOnly Cid) → all_keys_chan v cbor lib raw_v1 b ≢ ok none
  unfolding all_keys_chan
  all_keys_chan_total b = elim (Bool-cases b.is_closed) [
    | inl p ↦ ground (arith, p)
    | inr p ↦ elim (Result-cases (open_at b.backing 0)) [
      | inl (e, q) ↦ ground (arith, p, q)
      | inr (rdr, q) ↦
          elim (Result-cases (read_car_header v cbor b.opts.max_allowed_header_size rdr).0) [
            | inl (e, r) ↦ ground (arith, p, q, r)
            | inr (header, r) ↦ elim (Result-cases (car_header_size v cbor header)) [
              | inl (e, s) ↦ ground (arith, p, q, r, s)
              | inr (n, s) ↦
                  let rest : _ =
                    send_keys_total b.opts (suc (length rdr)) (drop n rdr) []
                      (omega (arith, length-drop n rdr)) in
                  λ e. rest (ground (arith, p, q, r, s, e))
            ]
          ]
    ]
  ]
