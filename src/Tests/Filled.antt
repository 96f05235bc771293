-- ===== src/Tests/Filled.antt =====
-- A ReadWrite blockstore that is opened on an empty file, filled, read and finalized.
use go_car.Prelude.{
  ℕ, ◌+◌, ◌%◌, ◌<◌, ◌^◌, ◌≡◌, refl, inl, arith, List, [], ◌∷◌, ◌++◌, Option, none, some,
}
use go_car.Prelude.{length, Bool, true, false, not, if◌then◌else◌}
use go_car.Prelude.Int.{pos, ◌+ℤ◌, ◌-ℤ◌}
use go_car.Bytes.{Bytes, bytes_less, bytes_equal}
use go_car.Stream.{closed, finalize_closed, ok, err}
use go_car.File.{overwrite, before}
use go_car.OffsetIo.{wrap64, add64, sub64, new_offset_writer, offset_write, write_position}
use go_car.Cids.{Block}
use go_car.Header.{
  Header, pragma_size, header_size, signed64, new_header, with_data_padding, with_index_padding,
}
use go_car.Section.{sum_lengths, ld_write, write_all}
use go_car.Section.Frame.{frame}
use go_car.Carv1.{write_car_header}
use go_car.Carv1.Load.{sections}
use go_car.Index.Single.{record_less}
use go_car.Index.Codec.{Index}
use go_car.Options.{Options, initial_options}
use go_car.Blockstore.InsertionIndex.{
  insert_no_replace, new_record_from_cid, has_exact_cid, has_exact_iter, iterate, flatten,
}
use go_car.Blockstore.InsertionIndex.Lookup.{TreeLaws, not_below}
use go_car.Blockstore.ReadOnly.{is_identity, has, get, get_size, all_keys_chan}
use go_car.Blockstore.ReadOnly as ReadOnly
use go_car.Blockstore.ReadOnly.Keys.{keys}
use go_car.Blockstore.ReadWrite.{
  ReadWrite, unsigned, initial_header, data_start, open_blockstore, init_with_roots, is_skipped,
  write_block, is_ignored, put_block, put_blocks, put_many, ronly, finalize,
}
use go_car.Blockstore.ReadWrite.Put.{IsStored}
use go_car.Blockstore.ReadWrite.Init.{front_bytes}
use go_car.Blockstore.ReadWrite.Reach.{taken, Reach, opened, put_more, Reach-IsStored}
use go_car.Blockstore.ReadWrite.Reads.{put_is_found}
use go_car.Blockstore.ReadWrite.Listed.{lists_what_was_put}
use go_car.Blockstore.ReadWrite.Closed.{finalized_refuses}
use go_car.Tests.World.{
  TestCid, leb, leb_put, leb_size, leb-VarintLaws, test_cids, test_cids-CidLaws, test_cbor,
  test_cbor-CborLaws,
}
use go_car.Tests.Stores.{Items, list_tree}
use go_car.Tests.Codec.{codecs}
use go_car.Tests.Disk.{disk, disk_write, disk-FileLaws, list_tree-TreeInserts}
use mathlib.Core.List.{Mem, mem-cons}
use mathlib.Core.Logic.Or

unfoldable pub program : Unit {0}
unfolding disk_write overwrite before offset_write new_offset_writer write_position add64 sub64
    wrap64 signed64 ◌+ℤ◌ ◌-ℤ◌ sum_lengths ld_write write_all write_car_header leb_put leb_size
    new_header with_data_padding with_index_padding initial_header data_start open_blockstore
    init_with_roots unsigned is_skipped has_exact_cid has_exact_iter iterate insert_no_replace
    new_record_from_cid write_block is_identity is_ignored put_block put_blocks put_many bytes_less
    bytes_equal not_below record_less
program = tt

unfoldable pub final_program : Unit {0}
unfolding program finalize flatten go_car.Index.Codec.new_index go_car.Index.Codec.index_load
    go_car.Index.Multihash.multihash_load go_car.Index.Multihash.group_by_code
    go_car.Index.Multihash.load_codes go_car.Prelude.Assoc.insert go_car.Index.Multi.multi_load
    go_car.Index.Multi.group_by_length go_car.Prelude.Assoc.lookup go_car.Index.Codec.write_to
    go_car.Header.with_data_size go_car.Index.Codec.codec go_car.Index.Codec.index_marshal
    go_car.Index.Multihash.multihash_marshal go_car.Bytes.le_bytes
    go_car.Index.Multihash.marshal_codes go_car.Blockstore.InsertionIndex.records_in_order
    go_car.Index.Multi.bucket go_car.Index.Multi.load_groups go_car.Index.Multi.marshal_buckets
    go_car.Index.Multi.multi_marshal go_car.Index.Multihash.coded_at
    go_car.Index.Multihash.coded_marshal go_car.Index.Multihash.new_multi_width_coded_index
    go_car.Index.Multihash.put go_car.Index.Multihash.sorted_multihash_codes
    go_car.Index.Single.Compact.compact go_car.Index.Single.Compact.compact_bytes
    go_car.Index.Single.record_bytes go_car.Index.Single.single_marshal go_car.Prelude.Assoc.keys
    go_car.Prelude.Assoc.sort_keys go_car.Header.write_header go_car.Header.write_characteristics
    go_car.Header.characteristics_bytes go_car.Header.offsets_bytes go_car.Header.set_fully_indexed
    go_car.Header.set_bit go_car.Header.unset_bit go_car.Blockstore.ReadWrite.with_file
    go_car.Blockstore.ReadWrite.discard
final_program = tt

abbrev pub opts : Options
opts = record initial_options {
  data_padding = 3;
  index_padding = 2;
  index_codec = 0x0401;
  max_index_cid_size = 2048;
  blockstore_use_whole_cids = true;
}

abbrev pub root : TestCid
root = record { code = 18; value = 9 }

abbrev pub nine : Block TestCid
nine = record { cid = root; raw = 9 ∷ [] }

abbrev pub seven : Block TestCid
seven = record { cid = record { code = 18; value = 7 }; raw = 3 ∷ 4 ∷ [] }

-- An identity CID, which is not stored.
abbrev inline : Block TestCid
inline = record { cid = record { code = 0; value = 7 }; raw = 7 ∷ [] }

abbrev puts : List (Block TestCid)
puts = nine ∷ inline ∷ seven ∷ nine ∷ []

abbrev pub start : ReadWrite Bytes Items
start =
    (init_with_roots disk leb test_cbor (not opts.write_as_car_v1) (root ∷ [])
      (open_blockstore list_tree.empty [] opts)).1

abbrev pub filled : ReadWrite Bytes Items
filled = (put_many disk leb test_cids list_tree 0 puts start).1

abbrev pub stored_blocks : List (Block TestCid)
stored_blocks = [] ++ taken disk leb test_cids list_tree 0 puts start

-- The identity CID and the second put are left out.
two_are_stored : stored_blocks ≡ nine ∷ seven ∷ []
unfolding program
two_are_stored = refl

filled-Reach : Reach disk leb test_cbor test_cids list_tree 0 opts (root ∷ []) filled stored_blocks
unfolding program
filled-Reach =
    put_more puts (opened [] refl refl)
      (omega arith, (omega arith, (omega arith, (omega arith, tt)))) refl

abbrev pub header_form : Bytes
header_form = 1 ∷ 18 ∷ 9 ∷ []

pub filled-IsStored :
    IsStored disk disk-FileLaws leb leb-VarintLaws test_cids list_tree list_tree-TreeInserts opts
      (data_start opts)
      (front_bytes leb opts header_form)
      stored_blocks
      filled
filled-IsStored =
    Reach-IsStored disk disk-FileLaws leb leb-VarintLaws test_cbor test_cids list_tree
      list_tree-TreeInserts 0 opts (root ∷ []) header_form filled stored_blocks (omega arith) refl
      (omega arith) filled-Reach

filled-TreeLaws : TreeLaws list_tree filled.idx
unfolding program
filled-TreeLaws = record { ascending = ((refl, tt), (tt, tt)); from_pivot = λ d. refl }

abbrev pub reader : ReadOnly.ReadOnly TestCid
reader = ronly disk leb test_cids list_tree filled

put_is_found_example :
    (x : Block TestCid) × Mem x stored_blocks
    × (test_cids.hash x.cid ≡ test_cids.hash seven.cid)
    × (has leb test_cids 0 reader seven.cid ≡ ok true)
    × (get leb test_cids 0 reader seven.cid ≡ ok (record { cid = seven.cid; raw = x.raw }))
    × (get_size leb test_cids 0 reader seven.cid ≡ ok (pos (length x.raw)))
unfolding program
put_is_found_example =
    put_is_found disk disk-FileLaws leb leb-VarintLaws test_cids test_cids-CidLaws list_tree
      list_tree-TreeInserts 0 opts (data_start opts) (front_bytes leb opts header_form)
      stored_blocks filled filled-IsStored seven (record { code = 18; digest = 7 ∷ [] })
      filled-TreeLaws (omega arith, (omega arith, tt))
      (mem-cons.1 (Or.inr (mem-cons.1 (Or.inl refl)))) refl refl (inl refl)

lists_what_was_put_example :
    (ReadOnly.roots leb test_cbor test_cids reader ≡ ok (root ∷ []))
    × (all_keys_chan leb test_cbor test_cids (λ c. c) reader
        ≡ ok (some (keys (λ c. c) opts stored_blocks, none)))
unfolding program
lists_what_was_put_example =
    lists_what_was_put disk disk-FileLaws leb leb-VarintLaws test_cids test_cids-CidLaws list_tree
      list_tree-TreeInserts test_cbor test_cbor-CborLaws opts header_form stored_blocks filled
      filled-IsStored (root ∷ []) (λ c. c) refl (omega arith) (omega arith)
      (omega arith, (omega arith, tt))

abbrev finalized : ReadWrite Bytes Items
finalized = (finalize disk leb test_cids list_tree codecs (λ rs. rs) filled).1

finalized_refuses_example :
    let r = ronly disk leb test_cids list_tree finalized in
    (put_many disk leb test_cids list_tree 0 puts finalized ≡ (some closed, finalized))
    × (has leb test_cids 0 r seven.cid ≡ err closed)
    × (get leb test_cids 0 r seven.cid ≡ err closed)
    × (get_size leb test_cids 0 r seven.cid ≡ err closed)
    × (all_keys_chan leb test_cbor test_cids (λ c. c) r ≡ err closed)
    × ((finalize disk leb test_cids list_tree codecs (λ rs. rs) finalized).0
        ≡ (if filled.opts.write_as_car_v1 then none else some finalize_closed))
finalized_refuses_example =
    finalized_refuses disk leb test_cids list_tree codecs (λ rs. rs) 0 test_cbor (λ c. c) puts
      seven.cid (7 ∷ []) filled (unfold program in refl)

abbrev payload : Bytes
payload = frame leb header_form ++ sections leb test_cids stored_blocks
