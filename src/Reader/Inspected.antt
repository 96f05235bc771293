-- ===== src/Reader/Inspected.antt =====
-- What Inspect finds in a payload that was written.
use go_car.Prelude.{
  ℕ, zero, suc, ◌+◌, ◌-◌, ◌/◌, ◌≤◌, ◌<◌, ◌^◌, ◌≡◌, refl, ◌∙◌, ap, arith, List, [], ◌∷◌, ◌++◌,
  append_assoc, none, some, drop,
}
use go_car.Prelude.{length, length-append, ltb, false, if◌then◌else◌}
use go_car.Bytes.{Bytes}
use go_car.Stream.{ok}
use go_car.Stream.Laws.{drop-append}
use go_car.Varint.{Varint, VarintLaws}
use go_car.Cids.{CidLib, CidLaws, Block}
use go_car.Header.{u64}
use go_car.Section.Frame.{frame, ld_read-frame}
use go_car.Carv1.{CarHeader, Cbor, CborLaws, read_car_header}
use go_car.Carv1.ReadBack.{section}
use go_car.Carv1.Load.{sections}
use go_car.Index.Codec.{Codecs}
use go_car.Options.{Options}
use go_car.Blockstore.ReadOnly.Keys.{AllShort, length-sections}
use go_car.Blockstore.ReadWrite.Candidates.{AllFit}
use go_car.Reader.{Reader, data_reader, index_reader}
use go_car.Reader.Inspect.{
  PrefixLib, Stats, Scan, count_up, add_lengths, see_root, start_scan, inspect_sections,
  finish_stats, inspect_index, inspect,
}

-- The data of all blocks together, and the longest data.
abbrev pub total_length : {Cid : Type 0} → List (Block Cid) → ℕ
total_length [] = 0
total_length (b ∷ bs) = length b.raw + total_length bs

abbrev pub longest : {Cid : Type 0} → List (Block Cid) → ℕ
longest [] = 0
longest (b ∷ bs) = if ltb (longest bs) (length b.raw) then length b.raw else longest bs

module _ {Cid : Type 0} (v : Varint) (laws : VarintLaws v) (cbor : Cbor Cid) (lib : CidLib Cid)
    (cids : CidLaws lib) (prefixes : PrefixLib Cid) (identity : ℕ) (o : Options)
    (roots : List Cid) where
  abbrev scan_block : Block Cid → Scan → Scan
  scan_block b s =
      let seen = see_root lib b.cid roots s in
      add_lengths (length (lib.to_bytes b.cid)) (length b.raw) (record seen {
        codecs = count_up (prefixes.codec_of b.cid) seen.codecs;
        mh_types = count_up (lib.mh_type b.cid) seen.mh_types;
      })

  abbrev scan_all : List (Block Cid) → Scan → Scan
  scan_all [] s = s
  scan_all (b ∷ bs) s = scan_all bs (scan_block b s)

  inspect_sections-sections :
      (fuel : ℕ) (bs : List (Block Cid)) (s : Scan)
      → AllShort lib bs
      → AllFit v lib o.max_allowed_section_size bs
      → length bs < fuel
      → inspect_sections v cbor lib prefixes identity false o roots fuel (sections v lib bs) s
        ≡ some (ok (scan_all bs s))
  unfolding inspect_sections
  inspect_sections-sections zero bs s short fit f = absurd (omega (arith, f))
  inspect_sections-sections (suc fuel) [] s short fit f = ground (arith, laws.read_nil)
  inspect_sections-sections (suc fuel) (b ∷ bs) s short fit f =
      let cid_form = lib.to_bytes b.cid in
      let payload = cid_form ++ b.raw in
      let rest = sections v lib bs in
      let start : v.read (section v lib b ++ rest)
          ≡ record { value = length payload; error = none; rest = payload ++ rest } =
        ap v.read (append_assoc (v.put (length payload)) payload rest)
        ∙ laws.read_put (length payload) (payload ++ rest) short.0 in
      let at : lib.from_reader (payload ++ rest) ≡ ok (length cid_form, b.cid) =
        ap lib.from_reader (append_assoc cid_form b.raw rest)
        ∙ cids.from_reader-to_bytes b.cid (b.raw ++ rest) in
      let size : length payload ≡ length cid_form + length b.raw = length-append cid_form b.raw in
      let raw_size : length payload - length cid_form ≡ length b.raw = omega (arith, size) in
      let behind : drop (length cid_form) (payload ++ rest) ≡ b.raw ++ rest =
        ap (drop (length cid_form)) (append_assoc cid_form b.raw rest)
        ∙ drop-append cid_form (b.raw ++ rest) (length cid_form) refl in
      let next : drop (length b.raw) (b.raw ++ rest) ≡ rest =
        drop-append b.raw rest (length b.raw) refl in
      ground (
        arith,
        start,
        at,
        size,
        raw_size,
        behind,
        next,
        cids.to_bytes_pos b.cid,
        fit.0,
        inspect_sections-sections fuel bs (scan_block b s) short.1 fit.1,
      )

  scan_all-lengths :
      (bs : List (Block Cid)) (s : Scan)
      → s.count + length bs < u64
      → s.total_block + total_length bs < u64
      → ((scan_all bs s).count ≡ s.count + length bs)
        × ((scan_all bs s).total_block ≡ s.total_block + total_length bs)
        × ((scan_all bs s).max_block
            ≡ (if ltb s.max_block (longest bs) then longest bs else s.max_block))
  unfolding add_lengths see_root
  scan_all-lengths [] s c t = ground arith
  scan_all-lengths (b ∷ bs) s c t = ground (arith, c, t, scan_all-lengths bs (scan_block b s))

module _ {Cid : Type 0} (v : Varint) (laws : VarintLaws v) (cbor : Cbor Cid) (lib : CidLib Cid)
    (prefixes : PrefixLib Cid) (identity : ℕ) (codecs : Codecs) where
  -- Inspect without validation, of a reader without an index whose payload holds a header and
  -- sections within the limits, succeeds: it finds the roots of the header, as many blocks as
  -- there are sections, the length of the longest data, and the average length of the data,
  -- rounded down. The header has a cbor form, and the number of blocks and the length of their
  -- data fit a uint64.
  pub inspect-sections :
      (cids : CidLaws lib) (claws : CborLaws cbor) (r : Reader Cid) (h : CarHeader Cid) (hb : Bytes)
      (bs : List (Block Cid))
      → data_reader r ≡ frame v hb ++ sections v lib bs
      → index_reader r ≡ none
      → cbor.dump_object h ≡ ok hb
      → length hb ≤ r.opts.max_allowed_header_size
      → length hb < 2 ^ 63
      → AllShort lib bs
      → AllFit v lib r.opts.max_allowed_section_size bs
      → length bs < u64
      → total_length bs < u64
      → (stats : Stats Cid) × (inspect v cbor lib prefixes identity codecs false r
          ≡ some (ok stats))
        × (stats.roots ≡ h.roots)
        × (stats.block_count ≡ length bs)
        × (stats.max_block_length ≡ longest bs)
        × (stats.avg_block_length ≡ (if ltb 0 (length bs) then total_length bs / length bs else 0))
  unfolding inspect inspect_index finish_stats read_car_header
  inspect-sections cids claws r h hb bs held no_index dumped limit small short fit few light =
      let rest = sections v lib bs in
      let scan =
        scan_all v laws cbor lib cids prefixes identity r.opts h.roots bs (start_scan h.roots) in
      let read : _ =
        ld_read-frame v laws false r.opts.max_allowed_header_size hb rest limit small
          (ground arith) in
      let loop : _ =
        inspect_sections-sections v laws cbor lib cids prefixes identity r.opts h.roots
          (suc (length rest)) bs (start_scan h.roots) short fit
          (omega (arith, length-sections v laws lib cids (λ c. c) cbor bs short)) in
      let (count, total, most) =
        scan_all-lengths v laws cbor lib cids prefixes identity r.opts h.roots bs
          (start_scan h.roots) (omega (arith, few)) (omega (arith, light)) in
      (
        finish_stats v cbor lib prefixes identity r h.roots scan,
        ground (arith, held, read, claws.decode-dump h hb dumped, loop, no_index),
        refl,
        omega (arith, count),
        ground (arith, most),
        ground (arith, count, total),
      )
