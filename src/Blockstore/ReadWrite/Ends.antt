-- ===== src/Blockstore/ReadWrite/Ends.antt =====
-- The loop of a resumption, and with it OpenReadWrite, ends on every file.
use go_car.Prelude.{
  ℕ, zero, suc, ◌+◌, ◌-◌, ◌%◌, ◌<◌, ◌^◌, ◌≢◌, inl, inr, arith, List, none, some, drop,
}
use go_car.Prelude.{
  length, length-drop, leb, not, Bool, ◌==◌, Bool-cases, Option-cases, if◌then◌else◌,
}
use go_car.Bytes.{Bytes}
use go_car.Stream.{ok, Result-cases}
use go_car.File.{FileLib}
use go_car.Varint.{Varint, VarintLaws}
use go_car.Cids.{CidLib}
use go_car.Carv1.{
  CarHeader, Cbor, car_header_size, default_max_allowed_header_size, read_car_header, matches,
}
use go_car.Blockstore.InsertionIndex.{Tree, insert_no_replace}
use go_car.Blockstore.ReadWrite.Resume.{
  resume_sections, unfinalize, check_header_in_file, resume_payload, resume_with_roots,
  open_read_write,
}
use go_car.Header.{u64, zero_header}
use go_car.Options.{Options}
use go_car.Blockstore.ReadWrite.{ReadWrite, data_start, open_blockstore, with_file}

module _ {F T Cid : Type 0} (files : FileLib F) (v : Varint) (laws : VarintLaws v) (cbor : Cbor Cid)
    (lib : CidLib Cid) (tree : Tree Cid T) (z : Bool) (base : ℕ) (content : Bytes) where
  -- The loop has rounds enough on every file.
  pub resume_sections_total :
      (fuel off : ℕ) (idx : T)
      → length content - (base + off) < fuel
      → resume_sections files v cbor lib tree z base content fuel off idx ≢ none
  unfolding resume_sections
  resume_sections_total zero off idx f = absurd (omega (arith, f))
  resume_sections_total (suc fuel) off idx f =
      let src = drop (base + off) content in
      let l = v.read src in
      elim (Option-cases l.error) [
        | inr (e, p) ↦ ground (arith, p)
        | inl p ↦ elim (Bool-cases (l.value == 0)) [
          | inl q ↦ ground (arith, p, q)
          | inr q ↦ elim (Result-cases (lib.from_reader l.rest)) [
            | inl (e, r) ↦ ground (arith, p, q, r)
            | inr ((n, c), r) ↦ elim (Result-cases (insert_no_replace lib tree c off idx)) [
              | inl (e, s) ↦ ground (arith, p, q, r, s)
              | inr (idx', s) ↦
                  let end = length content - length l.rest + l.value in
                  elim (Bool-cases (leb (2 ^ 63) end)) [
                    | inl t ↦ ground (arith, p, q, r, s, t)
                    | inr t ↦
                        let more : length content - (base + (end - base)) < fuel =
                          omega
                            (arith, f, laws.read_shorter src p, length-drop (base + off) content) in
                        let rest : _ = resume_sections_total fuel (end - base) idx' more in
                        λ e. rest (ground (arith, p, q, r, s, t, e))
                  ]
            ]
          ]
        ]
      ]

module _ {F T Cid : Type 0} (files : FileLib F) (v : Varint) (laws : VarintLaws v) (cbor : Cbor Cid)
    (lib : CidLib Cid) (tree : Tree Cid T) where
  resume_payload_total :
      (v2 : Bool) (h : CarHeader Cid) (b : ReadWrite F T)
      → resume_payload files v cbor lib tree v2 h b ≢ none
  unfolding resume_payload
  resume_payload_total v2 h b =
      let undone = (if v2 then unfinalize files v cbor lib tree b else (none, b)) in
      let c = files.content undone.1.data_writer.w in
      elim (Option-cases undone.0) [
        | inr (e, p) ↦ ground (arith, p)
        | inl p ↦ elim (Result-cases (car_header_size v cbor h)) [
          | inl (e, q) ↦ ground (arith, p, q)
          | inr (n, q) ↦
              let result =
                resume_sections files v cbor lib tree b.opts.zero_length_section_as_eof
                  (data_start b.opts) c (suc (length c)) n undone.1.idx in
              elim (Option-cases result) [
                | inl r ↦ absurd (
                    resume_sections_total files v laws cbor lib tree
                      b.opts.zero_length_section_as_eof (data_start b.opts) c (suc (length c)) n
                      undone.1.idx (omega arith) r)
                | inr ((none, off, idx), r) ↦ ground (arith, p, q, r)
                | inr ((some e, off, idx), r) ↦ ground (arith, p, q, r)
              ]
        ]
      ]

  resume_with_roots_total :
      (v2 : Bool) (roots : List Cid) (b : ReadWrite F T)
      → resume_with_roots files v cbor lib tree v2 roots b ≢ none
  unfolding resume_with_roots
  resume_with_roots_total v2 roots b =
      let content = files.content b.data_writer.w in
      let own : CarHeader Cid = record { roots = roots; version = 1 } in
      elim (Result-cases (read_car_header v cbor default_max_allowed_header_size content).0) [
        | inl (e, p) ↦ ground (arith, p)
        | inr (version_read, p) ↦
            elim (Bool-cases (not (version_read.version == (if v2 then 2 else 1)))) [
              | inl q ↦ ground (arith, p, q)
              | inr q ↦
                  elim (Result-cases
                    (if v2 then check_header_in_file b.header content else ok zero_header)) [
                      | inl (e, r) ↦ ground (arith, p, q, r)
                      | inr (in_file, r) ↦
                          elim (Result-cases
                            (read_car_header v cbor b.opts.max_allowed_header_size
                              (drop (data_start b.opts) content)).0) [
                                | inl (e, s) ↦ ground (arith, p, q, r, s)
                                | inr (header, s) ↦ elim (Bool-cases (matches lib header own)) [
                                  | inr t ↦ ground (arith, p, q, r, s, t)
                                  | inl t ↦ elim (Bool-cases (in_file.data_offset == 0)) [
                                    | inl u ↦ λ e.
                                        resume_payload_total v2 header b
                                          (ground (arith, p, q, r, s, t, u, e))
                                    | inr u ↦
                                        let cut =
                                          files.truncate
                                            ((in_file.data_offset + in_file.data_size) % u64)
                                            b.data_writer.w in
                                        elim (Option-cases cut.0) [
                                          | inr (x, w) ↦ ground (arith, p, q, r, s, t, u, w)
                                          | inl w ↦ λ e.
                                              resume_payload_total v2 header (with_file b cut.1)
                                                (ground (arith, p, q, r, s, t, u, w, e))
                                        ]
                                  ]
                                ]
                              ]
                    ]
            ]
      ]

  -- OpenReadWrite returns, with a blockstore or an error, on every file, whatever it holds:
  -- the loop over its sections never runs out of rounds.
  pub open_read_write_total :
      (f : F) (roots : List Cid) (o : Options)
      → open_read_write files v cbor lib tree f roots o ≢ none
  unfolding open_read_write
  open_read_write_total f roots o =
      let b = open_blockstore tree.empty f o in
      elim (Bool-cases (length (files.content f) == 0)) [
        | inl p ↦ ground (arith, p)
        | inr p ↦
            λ e. resume_with_roots_total (not o.write_as_car_v1) roots b (ground (arith, p, e))
      ]
