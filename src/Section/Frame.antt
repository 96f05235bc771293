-- ===== src/Section/Frame.antt =====
-- A section that LdWrite wrote is read back by LdRead and ReadNode.
use go_car.Prelude.{
  ℕ, ◌+◌, ◌%◌, ◌≤◌, ◌<◌, ◌^◌, ◌≡◌, refl, arith, List, [], ◌∷◌, ◌++◌, append-nil, append_assoc, none,
}
use go_car.Prelude.{length, length-append, Bool, false, ◌==◌, ◌&&◌}
use go_car.Bytes.{Bytes}
use go_car.Stream.{ok, Sink, Appends}
use go_car.Stream.Laws.{read_full-append, drop-append}
use go_car.Varint.{Varint, VarintLaws}
use go_car.Cids.{CidLib, CidLaws}
use go_car.Header.{u64}
use go_car.Section.{sum_lengths, write_all, ld_write, ld_size, ld_read, read_node}

abbrev pub concat : List Bytes → Bytes
concat [] = []
concat (d ∷ ds) = d ++ concat ds

sum_lengths-concat :
    (acc : ℕ) (ds : List Bytes)
    → acc + length (concat ds) < u64
    → sum_lengths acc ds ≡ acc + length (concat ds)
unfolding sum_lengths
sum_lengths-concat acc [] h = omega arith
sum_lengths-concat acc (d ∷ ds) h =
    let e = length-append d (concat ds) in
    let m : (acc + length d) % u64 ≡ acc + length d = omega (arith, e) in
    rw m (omega (arith, e, sum_lengths-concat (acc + length d) ds (omega (arith, e))))

pub write_all-Appends {ℓ} :
    {S : Type ℓ} (k : Sink S) (content : S → Bytes) (ds : List Bytes) (s : S)
    → Appends k content
    → (write_all k ds s).0 ≡ none
    → content (write_all k ds s).1 ≡ content s ++ concat ds
unfolding write_all
write_all-Appends k content [] s law e = rw append-nil
write_all-Appends k content (d ∷ ds) s law e = ground (
  arith,
  law.all_written d s,
  write_all-Appends k content ds (k.write d s).state law,
  append_assoc (content s) d (concat ds),
)

-- The length of the payload as a varint, and the payload.
abbrev pub frame : Varint → Bytes → Bytes
frame v payload = v.put (length payload) ++ payload

module _ (v : Varint) (laws : VarintLaws v) where
  -- LdWrite without an error leaves one frame behind what the writer held, whose payload is all
  -- slices in order.
  pub ld_write-Appends {ℓ} :
      {S : Type ℓ} (k : Sink S) (content : S → Bytes) (ds : List Bytes) (s : S)
      → Appends k content
      → length (concat ds) < u64
      → (ld_write v k ds s).0 ≡ none
      → content (ld_write v k ds s).1 ≡ content s ++ frame v (concat ds)
  unfolding ld_write
  ld_write-Appends k content ds s law fits e =
      let n = length (concat ds) in
      ground (
        arith,
        sum_lengths-concat 0 ds,
        law.all_written (v.put n) s,
        write_all-Appends k content ds (k.write (v.put n) s).state law,
        append_assoc (content s) (v.put n) (concat ds),
      )

  -- LdSize is the number of bytes that LdWrite writes.
  pub ld_size-frame :
      (ds : List Bytes) → length (concat ds) < 2 ^ 62 → ld_size v ds ≡ length (frame v (concat ds))
  unfolding ld_size
  ld_size-frame ds h =
      let n = length (concat ds) in
      ground (
        arith,
        sum_lengths-concat 0 ds,
        laws.size_max n,
        laws.length_put n,
        length-append (v.put n) (concat ds),
      )

  -- LdRead takes one frame from the front of a stream, if its payload is allowed by the limit and
  -- is not the empty one that may stand for the end.
  pub ld_read-frame :
      (zero_len_as_eof : Bool) (max_read_bytes : ℕ) (payload rest : Bytes)
      → length payload ≤ max_read_bytes
      → length payload < 2 ^ 63
      → (length payload == 0) && zero_len_as_eof ≡ false
      → ld_read v zero_len_as_eof max_read_bytes (frame v payload ++ rest) ≡ (ok payload, rest)
  unfolding ld_read
  ld_read-frame z m payload rest h small plain = ground (
    arith,
    append_assoc (v.put (length payload)) payload rest,
    laws.read_put (length payload) (payload ++ rest) small,
    read_full-append payload rest (length payload) refl,
  )

  -- ReadNode takes a section that holds a CID and data from the front of a stream.
  pub read_node-frame :
      {Cid : Type 0} (lib : CidLib Cid) (zero_len_as_eof : Bool) (max_read_bytes : ℕ) (c : Cid)
      (raw rest : Bytes)
      → CidLaws lib
      → length (lib.to_bytes c ++ raw) ≤ max_read_bytes
      → length (lib.to_bytes c ++ raw) < 2 ^ 63
      → read_node v lib zero_len_as_eof max_read_bytes (frame v (lib.to_bytes c ++ raw) ++ rest)
        ≡ (ok (c, raw), rest)
  unfolding read_node
  read_node-frame lib z m c raw rest cids h small =
      let payload = lib.to_bytes c ++ raw in
      ground (
        arith,
        cids.to_bytes_pos c,
        length-append (lib.to_bytes c) raw,
        ld_read-frame z m payload rest,
        cids.from_bytes-to_bytes c raw,
        drop-append (lib.to_bytes c) raw (length (lib.to_bytes c)) refl,
      )
