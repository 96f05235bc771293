-- ===== src/IndexGen/Sections.antt =====
-- LoadIndex on a payload of sections.
use go_car.Prelude.{
  ℕ, zero, suc, ◌+◌, ◌-◌, ◌≤◌, ◌<◌, ◌^◌, ◌≡◌, refl, inl, inr, ◌⊎◌, arith, List, [], ◌∷◌, ◌++◌,
  append_assoc, append-nil, sym, ap, ◌∙◌, Bool, some,
}
use go_car.Prelude.{length, length-append, true, false, leb, ◌==◌, ◌&&◌, not, if◌then◌else◌}
use go_car.Bytes.{Bytes}
use go_car.Stream.{ok}
use go_car.Stream.Laws.{drop-append}
use go_car.Varint.{Varint, VarintLaws}
use go_car.Cids.{CidLib, CidLaws, Block}
use go_car.Carv1.ReadBack.{section}
use go_car.Carv1.Load.{sections}
use go_car.Index.{Record}
use go_car.Options.{Options}
use go_car.IndexGen.Section.{payload_pos, place_behind, read_length, read_section-section}
use go_car.IndexGen.{is_indexed, add_record, read_section, read_records}

module _ {Cid : Type 0} (v : Varint) (lib : CidLib Cid) where
  -- Where the loop is left: at the end of the stream, or behind the last section where the header
  -- of a CARv2 names the size of the payload.
  abbrev pub Ends : ℕ → ℕ → ℕ → List (Block Cid) → Bytes → Type 0
  Ends data_offset data_size start bs behind =
      ((data_size ≡ 0) × (behind ≡ []))
      ⊎ ((0 < length bs) × (data_size ≡ start - data_offset + length (sections v lib bs)))

  -- No CID is longer than the limit.
  abbrev pub AllSmall : Options → List (Block Cid) → Type 0
  AllSmall o [] = Unit
  AllSmall o (b ∷ bs) = (length (lib.to_bytes b.cid) ≤ o.max_index_cid_size) × AllSmall o bs

  module _ (identity : ℕ) (o : Options) where
    -- Every CID, or those that are no identity.
    abbrev pub is_kept : Cid → Bool
    is_kept c = if o.store_identity_cids then true else not (lib.mh_type c == identity)

    -- The blocks that stand as sections from `offset` on, each kept CID with the place of its section.
    abbrev pub located : ℕ → List (Block Cid) → List (Record Cid)
    located offset [] = []
    located offset (b ∷ bs) =
        let later = located (offset + length (section v lib b)) bs in
        if is_kept b.cid then record { cid = b.cid; offset = offset } ∷ later else later

    add_record-located :
        (offset : ℕ) (b : Block Cid) (bs : List (Block Cid)) (records : List (Record Cid))
        → add_record v lib identity o b.cid offset records
            ++ located (offset + length (section v lib b)) bs
          ≡ records ++ located offset (b ∷ bs)
    unfolding add_record is_indexed
    add_record-located offset b bs records =
        let later = located (offset + length (section v lib b)) bs in
        ground (arith, append_assoc records (record { cid = b.cid; offset = offset } ∷ []) later)

module _ {Cid : Type 0} (v : Varint) (laws : VarintLaws v) (lib : CidLib Cid) (cids : CidLaws lib)
    (identity : ℕ) (o : Options) where
  module _ (data_offset data_size : ℕ) where
    read_at_end :
        (front : Bytes) (fuel offset : ℕ) (records : List (Record Cid))
        → read_records v lib identity o
            (front ++ [])
            data_offset
            data_size
            (suc fuel)
            offset
            (length front)
            records
          ≡ some (ok records)
    unfolding read_records read_section
    read_at_end front fuel offset records =
        ground (arith, drop-append front [] (length front) refl, laws.read_nil)

    sections_pos : (bs : List (Block Cid)) → 0 < length bs → 0 < length (sections v lib bs)
    sections_pos [] h = omega (arith, h)
    sections_pos (b ∷ bs) h =
        let whole : _ = length-append (section v lib b) (sections v lib bs) in
        let parts : _ =
          length-append (v.put (length (lib.to_bytes b.cid ++ b.raw)))
            (lib.to_bytes b.cid ++ b.raw) in
        omega (arith, payload_pos v laws lib cids identity o b, whole, parts)

    -- The test at the end of a round holds behind the last section only, and there in a CARv2 only.
    last_section :
        (front : Bytes) (b : Block Cid) (bs : List (Block Cid)) (behind : Bytes)
        → length (front ++ (section v lib b ++ (sections v lib bs ++ behind))) < 2 ^ 63
        → data_offset ≤ length front
        → Ends v lib data_offset data_size (length front) (b ∷ bs) behind
        → not (data_size == 0)
            && leb data_size (length front + length (section v lib b) - data_offset)
          ≡ not (data_size == 0) && (length bs == 0)
    last_section front b bs behind fits low (inl (p, q)) = ground (arith, p)
    last_section front b [] behind fits low (inr (p, q)) =
        let whole : _ = length-append (section v lib b) [] in ground (arith, q, whole)
    last_section front b (c ∷ cs) behind fits low (inr (p, q)) =
        let whole : _ = length-append (section v lib b) (sections v lib (c ∷ cs)) in
        let more : 0 < length (sections v lib (c ∷ cs)) = sections_pos (c ∷ cs) (omega arith) in
        let past : leb data_size (length front + length (section v lib b) - data_offset) ≡ false =
          ground (arith, q, whole, more, low) in
        ground (arith, past)

    -- The loop over a front section and the rest, by the loop over the rest.
    read_records_round :
        (front : Bytes) (b : Block Cid) (bs : List (Block Cid)) (behind : Bytes) (fuel offset : ℕ)
        (records : List (Record Cid))
        → length (lib.to_bytes b.cid) ≤ o.max_index_cid_size
        → length (front ++ (section v lib b ++ (sections v lib bs ++ behind))) < 2 ^ 63
        → data_offset ≤ length front
        → Ends v lib data_offset data_size (length front) (b ∷ bs) behind
        → read_records v lib identity o
            (front ++ (section v lib b ++ (sections v lib bs ++ behind)))
            data_offset
            data_size
            (suc fuel)
            offset
            (length front)
            records
          ≡ (let records' = add_record v lib identity o b.cid offset records in
              let pos' = length front + length (section v lib b) in
              if not (data_size == 0) && (length bs == 0)
              then some (ok records')
              else read_records v lib identity o
                  (front ++ (section v lib b ++ (sections v lib bs ++ behind)))
                  data_offset
                  data_size
                  fuel
                  (pos' - data_offset)
                  pos'
                  records')
    unfolding read_records
    read_records_round front b bs behind fuel offset records small fits low ends =
        let tail = sections v lib bs ++ behind in
        let short : _ = (place_behind v laws lib cids identity o front tail b fits).2 in
        let read : _ = read_length v laws lib cids identity o front tail b short in
        let step : _ =
          read_section-section v laws lib cids identity o data_offset data_size front tail b offset
            records small fits in
        let last : _ = last_section front b bs behind fits low ends in
        ground (arith, read, step, last)

    -- Whether the section is the last one of a CARv2, or where the loop ends behind it.
    next-Ends :
        (front : Bytes) (b : Block Cid) (bs : List (Block Cid)) (behind : Bytes)
        → data_offset ≤ length front
        → Ends v lib data_offset data_size (length front) (b ∷ bs) behind
        → ((not (data_size == 0) && (length bs == 0) ≡ true) × (bs ≡ []))
          ⊎ ((not (data_size == 0) && (length bs == 0) ≡ false)
              × Ends v lib data_offset data_size (length (front ++ section v lib b)) bs behind)
    next-Ends front b bs behind low (inl (p, q)) = inr (ground (arith, p), inl (p, q))
    next-Ends front b [] behind low (inr (p, q)) =
        let pos : _ = sections_pos (b ∷ []) (omega arith) in inl (ground (arith, q, pos), refl)
    next-Ends front b (c ∷ cs) behind low (inr (p, q)) =
        let size : _ = length-append front (section v lib b) in
        let whole : _ = length-append (section v lib b) (sections v lib (c ∷ cs)) in
        inr (ground arith, inr (omega arith, omega (arith, size, whole, q)))

    -- Behind the header, on sections up to the end of the stream or of the payload, the loop of
    -- LoadIndex adds one record for each section whose CID is no identity, or for each section if
    -- identities are stored: with its CID and the offset of the section from the start of the
    -- payload, in the order of the sections, behind the records it had. No CID is longer than the
    -- limit, the positions fit an int64, in a CARv2 the payload holds a section and ends with its
    -- last one, and there are more rounds than sections.
    pub read_records-sections :
        (front : Bytes) (bs : List (Block Cid)) (behind : Bytes) (fuel : ℕ)
        (records : List (Record Cid))
        → AllSmall v lib o bs
        → length (front ++ (sections v lib bs ++ behind)) < 2 ^ 63
        → data_offset ≤ length front
        → Ends v lib data_offset data_size (length front) bs behind
        → length bs < fuel
        → read_records v lib identity o
            (front ++ (sections v lib bs ++ behind))
            data_offset
            data_size
            fuel
            (length front - data_offset)
            (length front)
            records
          ≡ some (ok (records ++ located v lib identity o (length front - data_offset) bs))
    read_records-sections front bs behind zero records small fits low ends enough =
        absurd (omega (arith, enough))
    read_records-sections front [] behind (suc fuel) records small fits low (inl (p, q)) enough =
        rw (q, append-nil records) (read_at_end front fuel (length front - data_offset) records)
    read_records-sections front [] behind (suc fuel) records small fits low (inr (p, q)) enough =
        absurd (omega (arith, p))
    read_records-sections front (b ∷ bs) behind (suc fuel) records small fits low ends enough =
        let tail = sections v lib bs ++ behind in
        let inner : _ = append_assoc (section v lib b) (sections v lib bs) behind in
        let outer : (front ++ section v lib b) ++ tail ≡ front ++ (section v lib b ++ tail) =
          append_assoc front (section v lib b) tail in
        let fits' : length (front ++ (section v lib b ++ tail)) < 2 ^ 63 = rw inner at fits in
        let records' = add_record v lib identity o b.cid (length front - data_offset) records in
        let round : _ =
          read_records_round front b bs behind fuel (length front - data_offset) records small.0
            fits' low ends in
        let size : length (front ++ section v lib b) ≡ length front + length (section v lib b) =
          length-append front (section v lib b) in
        let offset : length front + length (section v lib b) - data_offset
            ≡ length front - data_offset + length (section v lib b) =
          omega arith in
        let added : _ =
          add_record-located v lib identity o (length front - data_offset) b bs records in
        elim (next-Ends front b bs behind low ends) [
          | inl (p, q) ↦
              let last : records'
                  ≡ records'
                    ++ located v lib identity o
                        (length front - data_offset + length (section v lib b)) bs =
                rw q (sym (append-nil records')) in
              ground (arith, inner, round, p, last ∙ added)
          | inr (p, q) ↦
              let later : _ =
                read_records-sections (front ++ section v lib b) bs behind fuel records' small.1
                  (rw outer fits') (omega (arith, size)) q (omega arith) in
              let there : _ = rw offset at (rw size at (rw outer at later)) in
              ground (arith, inner, round, p, offset, there ∙ ap (λ l. some (ok l)) added)
        ]

    -- Where the payload of a CARv2 holds no section, the loop of LoadIndex does not stop at its
    -- end: behind the records it had it adds one of the section that stands behind the payload,
    -- with its CID and its offset, and stops there. The CID is no identity, or identities are
    -- stored; it is within the limit, and the positions fit an int64.
    pub read_records_overrun :
        (front tail : Bytes) (b : Block Cid) (fuel : ℕ) (records : List (Record Cid))
        → length (lib.to_bytes b.cid) ≤ o.max_index_cid_size
        → length (front ++ (section v lib b ++ tail)) < 2 ^ 63
        → is_kept v lib identity o b.cid ≡ true
        → 0 < data_size
        → data_size ≡ length front - data_offset
        → read_records v lib identity o
            (front ++ (section v lib b ++ tail))
            data_offset
            data_size
            (suc fuel)
            (length front - data_offset)
            (length front)
            records
          ≡ some (ok (records ++ record { cid = b.cid; offset = length front - data_offset } ∷ []))
    unfolding read_records
    read_records_overrun front tail b fuel records small fits kept pos size =
        let short : _ = (place_behind v laws lib cids identity o front tail b fits).2 in
        let read : _ = read_length v laws lib cids identity o front tail b short in
        let step : _ =
          read_section-section v laws lib cids identity o data_offset data_size front tail b
            (length front - data_offset) records small fits in
        let added : _ =
          add_record-located v lib identity o (length front - data_offset) b [] records in
        let one : add_record v lib identity o b.cid (length front - data_offset) records
            ≡ records ++ record { cid = b.cid; offset = length front - data_offset } ∷ [] =
          sym (append-nil _) ∙ (added ∙ ground (arith, kept)) in
        ground (arith, read, step, pos, size, one)
