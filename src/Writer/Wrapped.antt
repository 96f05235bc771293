-- ===== src/Writer/Wrapped.antt =====
-- What WrapV1 writes.
use go_car.Prelude.{
  ℕ, ◌+◌, ◌<◌, ◌^◌, ◌≡◌, sym, ◌∙◌, ap, inl, inr, arith, List, ◌++◌, append_assoc, none, some,
}
use go_car.Prelude.{length, Option-cases}
use go_car.Bytes.{Bytes}
use go_car.Stream.{ok, err, Result-cases, Sink, Appends}
use go_car.Varint.{Varint}
use go_car.Cids.{CidLib}
use go_car.Header.{Header, pragma, pragma_size, header_size, new_header, write_header}
use go_car.Header.Codec.{header_bytes, write_header-Appends}
use go_car.Section.{write_all}
use go_car.Section.Frame.{concat, write_all-Appends}
use go_car.Carv1.{Cbor}
use go_car.Index.Single.{DigestRecord}
use go_car.Index.Codec.{Codecs, Index, new_index, write_to}
use go_car.Index.Codec.RoundTrip.{write_to-Appends, index_bytes}
use go_car.Options.{Options}
use go_car.IndexGen.{load_index}
use go_car.Writer.{write_wrapped, wrap_v1}

-- The header of a CARv2 without padding and with an index: the payload starts behind pragma and
-- header, and the index behind the payload.
abbrev pub packed_header : ℕ → Header
packed_header data_size = record {
  characteristics = record { hi = 0; lo = 0 };
  data_offset = pragma_size + header_size;
  data_size = data_size;
  index_offset = pragma_size + header_size + data_size;
}

new_header_lem : (n : ℕ) → pragma_size + header_size + n < 2 ^ 63 → new_header n ≡ packed_header n
unfolding new_header
new_header_lem n fits = ground (arith, fits)

-- A CARv1 as a CARv2 without padding.
abbrev pub wrapped_bytes : Codecs → Varint → Bytes → Index → Bytes
wrapped_bytes codecs v src idx =
    pragma ++ (header_bytes (packed_header (length src)) ++ (src ++ index_bytes codecs v idx))

module _ {Cid : Type 0} (v : Varint) (cbor : Cbor Cid) (lib : CidLib Cid) (codecs : Codecs)
    (chunks : Bytes → List Bytes) (whole : (b : Bytes) → concat (chunks b) ≡ b) where
  write_wrapped-Appends {ℓ} :
      {S : Type ℓ} (k : Sink S) (content : S → Bytes) (src : Bytes) (idx : Index) (dst : S)
      → Appends k content
      → pragma_size + header_size + length src < 2 ^ 63
      → (write_wrapped v cbor lib codecs chunks k src idx dst).0 ≡ none
      → content (write_wrapped v cbor lib codecs chunks k src idx dst).1
        ≡ content dst ++ wrapped_bytes codecs v src idx
  unfolding write_wrapped
  write_wrapped-Appends k content src idx dst law fits e =
      let hb = header_bytes (new_header (length src)) in
      let ib = index_bytes codecs v idx in
      let w1 = k.write pragma dst in
      let w2 = write_header k (new_header (length src)) w1.state in
      let w3 = write_all k (chunks src) w2.state in
      let w4 = write_to codecs v k idx w3.1 in
      elim (Option-cases w1.error) [
        | inr (x, p) ↦ absurd (ground (arith, p, e))
        | inl p ↦ elim (Option-cases w2.error) [
          | inr (x, q) ↦ absurd (ground (arith, p, q, e))
          | inl q ↦ elim (Option-cases w3.0) [
            | inr (x, r) ↦ absurd (ground (arith, p, q, r, e))
            | inl r ↦
                let last : w4.error ≡ none = ground (arith, p, q, r, e) in
                let c1 : _ = (law.all_written pragma dst p).0 in
                let c2 : _ =
                  (write_header-Appends k content (new_header (length src)) w1.state law q).0 in
                let c3 : content w3.1 ≡ content w2.state ++ src =
                  write_all-Appends k content (chunks src) w2.state law r
                  ∙ ap (λ b. content w2.state ++ b) (whole src) in
                let c4 : _ = (write_to-Appends codecs v k content idx w3.1 law last).0 in
                let one : content w4.state ≡ (((content dst ++ pragma) ++ hb) ++ src) ++ ib =
                  c4 ∙ ap (λ b. b ++ ib) (c3 ∙ ap (λ b. b ++ src) (c2 ∙ ap (λ b. b ++ hb) c1)) in
                let joined : (((content dst ++ pragma) ++ hb) ++ src) ++ ib
                    ≡ content dst ++ (pragma ++ (hb ++ (src ++ ib))) =
                  append_assoc ((content dst ++ pragma) ++ hb) src ib
                  ∙ (append_assoc (content dst ++ pragma) hb (src ++ ib)
                      ∙ append_assoc (content dst) pragma (hb ++ (src ++ ib))) in
                let placed : _ =
                  ap (λ h. content dst ++ (pragma ++ (header_bytes h ++ (src ++ ib))))
                    (new_header_lem (length src) fits) in
                ground (arith, p, q, r, one ∙ (joined ∙ placed))
          ]
        ]
      ]

  -- WrapV1 without an error leaves, behind what the writer held, the pragma, a header that places
  -- the payload right behind it and the index right behind the payload, the source unchanged, and
  -- the index that LoadIndex makes of the source in the codec of the options. The source fits an
  -- int64 behind pragma and header, and the pieces that io.Copy passes on are the source.
  pub wrap_v1-wrapped_bytes {ℓ} :
      {S : Type ℓ} (identity : ℕ) (sort : List DigestRecord → List DigestRecord) (k : Sink S)
      (content : S → Bytes) (o : Options) (src : Bytes) (dst end : S)
      → Appends k content
      → pragma_size + header_size + length src < 2 ^ 63
      → wrap_v1 v cbor lib codecs chunks identity sort k o src dst ≡ some (none, end)
      → (empty : Index) × (idx : Index) × (new_index codecs o.index_codec ≡ ok empty)
        × (load_index v lib identity o cbor src sort empty ≡ some (ok idx))
        × (content end ≡ content dst ++ wrapped_bytes codecs v src idx)
  unfolding wrap_v1
  wrap_v1-wrapped_bytes identity sort k content o src dst end law fits e =
      elim (Result-cases (new_index codecs o.index_codec)) [
        | inl (x, p) ↦ absurd (ground (arith, p, e))
        | inr (empty, p) ↦ elim (Option-cases (load_index v lib identity o cbor src sort empty)) [
          | inl q ↦ absurd (ground (arith, p, q, e))
          | inr (err x, q) ↦ absurd (ground (arith, p, q, e))
          | inr (ok idx, q) ↦
              let done : write_wrapped v cbor lib codecs chunks k src idx dst ≡ (none, end) =
                ground (arith, p, q, e) in
              let written : _ =
                write_wrapped-Appends k content src idx dst law fits (ap (λ x. x.0) done) in
              (empty, idx, p, q, sym (ap (λ x. content x.1) done) ∙ written)
        ]
      ]
