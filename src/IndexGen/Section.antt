-- ===== src/IndexGen/Section.antt =====
-- LoadIndex: one round of the loop, in front of a section.
use go_car.Prelude.{
  ℕ, ◌+◌, ◌-◌, ◌≤◌, ◌<◌, ◌^◌, ◌≡◌, refl, ◌∙◌, ap, arith, List, ◌++◌, append_assoc, none, drop,
}
use go_car.Prelude.{length, length-append, leb, ◌==◌, ◌&&◌, not, if◌then◌else◌}
use go_car.Bytes.{Bytes}
use go_car.Stream.{ok}
use go_car.Stream.Laws.{drop-append}
use go_car.Varint.{Varint, VarintLaws}
use go_car.Cids.{CidLib, CidLaws, Block}
use go_car.Carv1.ReadBack.{section}
use go_car.Index.{Record}
use go_car.Options.{Options}
use go_car.IndexGen.{add_record, finished, continued, read_section}

module _ {Cid : Type 0} (v : Varint) (laws : VarintLaws v) (lib : CidLib Cid) (cids : CidLaws lib)
    (identity : ℕ) (o : Options) where
  pub payload_pos : (b : Block Cid) → 0 < length (lib.to_bytes b.cid ++ b.raw)
  payload_pos b = omega (arith, cids.to_bytes_pos b.cid, length-append (lib.to_bytes b.cid) b.raw)

  -- Where the payload of a section ends, and that it does so within the stream.
  pub place_behind :
      (front tail : Bytes) (b : Block Cid)
      → length (front ++ (section v lib b ++ tail)) < 2 ^ 63
      → (length (front ++ (section v lib b ++ tail))
            - length ((lib.to_bytes b.cid ++ b.raw) ++ tail)
            + length (lib.to_bytes b.cid ++ b.raw)
          ≡ length front + length (section v lib b))
        × (length front + length (section v lib b) < 2 ^ 63)
        × (length (lib.to_bytes b.cid ++ b.raw) < 2 ^ 63)
  place_behind front tail b fits =
      let payload = lib.to_bytes b.cid ++ b.raw in
      let whole : _ = length-append front (section v lib b ++ tail) in
      let inner : _ = length-append (section v lib b) tail in
      let parts : _ = length-append (v.put (length payload)) payload in
      let rest : _ = length-append payload tail in
      (
        omega (arith, whole, inner, parts, rest),
        omega (arith, whole, inner),
        omega (arith, whole, inner, parts),
      )

  pub read_length :
      (front tail : Bytes) (b : Block Cid)
      → length (lib.to_bytes b.cid ++ b.raw) < 2 ^ 63
      → v.read (drop (length front) (front ++ (section v lib b ++ tail))) ≡ record {
        value = length (lib.to_bytes b.cid ++ b.raw);
        error = none;
        rest = (lib.to_bytes b.cid ++ b.raw) ++ tail;
      }
  read_length front tail b small =
      let payload = lib.to_bytes b.cid ++ b.raw in
      ap v.read (drop-append front (section v lib b ++ tail) (length front) refl)
      ∙ (ap v.read (append_assoc (v.put (length payload)) payload tail)
          ∙ laws.read_put (length payload) (payload ++ tail) small)

  read_cid :
      (tail : Bytes) (b : Block Cid)
      → lib.from_reader ((lib.to_bytes b.cid ++ b.raw) ++ tail)
        ≡ ok (length (lib.to_bytes b.cid), b.cid)
  read_cid tail b =
      ap lib.from_reader (append_assoc (lib.to_bytes b.cid) b.raw tail)
      ∙ cids.from_reader-to_bytes b.cid (b.raw ++ tail)

  module _ (data_offset data_size : ℕ) where
    -- One round of the loop, in front of a section.
    pub read_section-section :
        (front tail : Bytes) (b : Block Cid) (offset : ℕ) (records : List (Record Cid))
        → length (lib.to_bytes b.cid) ≤ o.max_index_cid_size
        → length (front ++ (section v lib b ++ tail)) < 2 ^ 63
        → read_section v lib identity o
            (front ++ (section v lib b ++ tail))
            data_offset
            data_size
            (record {
              value = length (lib.to_bytes b.cid ++ b.raw);
              error = none;
              rest = (lib.to_bytes b.cid ++ b.raw) ++ tail;
            })
            offset
            records
          ≡ (let pos' = length front + length (section v lib b) in
              let records' = add_record v lib identity o b.cid offset records in
              if not (data_size == 0) && leb data_size (pos' - data_offset)
              then finished (ok records')
              else continued (pos' - data_offset) pos' records')
    unfolding read_section
    read_section-section front tail b offset records small fits =
        let (place, within, short) = place_behind front tail b fits in
        ground (arith, read_cid tail b, place, within, payload_pos b, small)
