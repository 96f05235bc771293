-- ===== src/Reader/Ends.antt =====
-- Inspect ends on every reader.
use go_car.Prelude.{ℕ, zero, suc, ◌-◌, ◌<◌, ◌≢◌, inl, inr, arith, List, none, take, drop}
use go_car.Prelude.{
  length, length-drop, Option-cases, ltb, Bool, ◌==◌, ◌&&◌, Bool-cases, if◌then◌else◌,
}
use go_car.Bytes.{Bytes}
use go_car.Stream.{ok, err, Result-cases}
use go_car.Varint.{Varint, VarintLaws}
use go_car.Cids.{CidLib}
use go_car.Carv1.{Cbor, read_car_header}
use go_car.Index.Codec.{Codecs}
use go_car.Options.{Options}
use go_car.Reader.{Reader, data_reader}
use go_car.Reader.Inspect.{
  PrefixLib, Scan, count_up, add_lengths, see_root, start_scan, validate_block, inspect_sections,
  inspect,
}

module _ {Cid : Type 0} (v : Varint) (laws : VarintLaws v) (cbor : Cbor Cid) (lib : CidLib Cid)
    (prefixes : PrefixLib Cid) (identity : ℕ) (codecs : Codecs) where
  inspect_sections_total :
      (validate : Bool) (o : Options) (roots : List Cid) (fuel : ℕ) (src : Bytes) (s : Scan)
      → length src < fuel
      → inspect_sections v cbor lib prefixes identity validate o roots fuel src s ≢ none
  unfolding inspect_sections
  inspect_sections_total validate o roots zero src s f = absurd (omega (arith, f))
  inspect_sections_total validate o roots (suc fuel) src s f =
      let l = v.read src in
      elim (Option-cases l.error) [
        | inr (e, p) ↦ ground (arith, p)
        | inl p ↦ elim (Result-cases (lib.from_reader l.rest)) [
          | inl (e, q) ↦ ground (arith, p, q)
          | inr ((n, c), q) ↦
              let seen = see_root lib c roots s in
              let counted : Scan = record seen {
                codecs = count_up (prefixes.codec_of c) seen.codecs;
                mh_types = count_up (lib.mh_type c) seen.mh_types;
              } in
              let behind = drop (l.value - n) (drop n l.rest) in
              let less : length behind < fuel = omega (
                arith,
                laws.read_shorter src p,
                length-drop (l.value - n) (drop n l.rest),
                length-drop n l.rest,
                f,
              ) in
              let rest : _ =
                inspect_sections_total validate o roots fuel behind
                  (add_lengths n (l.value - n) counted) less in
              elim (Bool-cases ((l.value == 0) && o.zero_length_section_as_eof)) [
                | inl a ↦ ground (arith, p, a)
                | inr a ↦ elim (Bool-cases (ltb o.max_allowed_section_size l.value)) [
                  | inl b ↦ ground (arith, p, a, b)
                  | inr b ↦ elim (Bool-cases (ltb l.value n)) [
                    | inl d ↦ ground (arith, p, a, b, q, d)
                    | inr d ↦
                        elim (Option-cases (
                          if validate
                          then validate_block v cbor lib prefixes identity c
                              (take (l.value - n) (drop n l.rest))
                          else none)) [
                            | inr (e, w) ↦ ground (arith, p, a, b, q, d, w)
                            | inl w ↦ λ e. rest (ground (arith, p, a, b, q, d, w, e))
                          ]
                  ]
                ]
              ]
        ]
      ]

  -- Inspect returns, with statistics or an error, for every reader and with and without validation.
  pub inspect_total :
      (validate : Bool) (r : Reader Cid)
      → inspect v cbor lib prefixes identity codecs validate r ≢ none
  unfolding inspect
  inspect_total validate r =
      let src = data_reader r in
      let header_read = read_car_header v cbor r.opts.max_allowed_header_size src in
      elim (Result-cases header_read.0) [
        | inl (e, p) ↦ ground (arith, p)
        | inr (h, p) ↦
            let rest = header_read.1 in
            let loop =
              inspect_sections v cbor lib prefixes identity validate r.opts h.roots
                (suc (length rest)) rest (start_scan h.roots) in
            elim (Option-cases loop) [
              | inl q ↦ absurd (
                  inspect_sections_total validate r.opts h.roots (suc (length rest)) rest
                    (start_scan h.roots) (omega arith) q)
              | inr (err e, q) ↦ ground (arith, p, q)
              | inr (ok s, q) ↦ ground (arith, p, q)
            ]
      ]
