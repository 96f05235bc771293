-- ===== src/Tests/Resumed.antt =====
-- Resuming from files, and the loops that end on all of them.
use go_car.Prelude.{suc, ◌+◌, ◌≡◌, ◌≢◌, refl, arith, [], ◌∷◌, ◌++◌, none, some}
use go_car.Prelude.{length, false}
use go_car.Stream.{ok}
use go_car.Blockstore.ReadOnly.{all_keys_chan}
use go_car.Blockstore.ReadOnly.Keys.{all_keys_chan_total}
use go_car.Blockstore.ReadWrite.{data_start}
use go_car.Blockstore.ReadWrite.Init.{front_bytes}
use go_car.Blockstore.ReadWrite.Resume.{resume_sections, open_read_write}
use go_car.Blockstore.ReadWrite.Resumed.{Reindexed, cut_off, resumes_what_was_put}
use go_car.Blockstore.ReadWrite.Ends.{open_read_write_total}
use go_car.Tests.World.{leb, leb_put, leb-VarintLaws, test_cids, test_cids-CidLaws, test_cbor}
use go_car.Tests.Stores.{list_tree}
use go_car.Tests.Disk.{disk, disk-FileLaws, list_tree-TreeInserts}
use go_car.Tests.Filled.{
  program, opts, root, seven, filled, stored_blocks, header_form, reader, filled-IsStored,
}

resumes_what_was_put_example :
    Reindexed disk leb leb-VarintLaws test_cbor test_cids test_cids-CidLaws list_tree
      list_tree-TreeInserts false
      (data_start opts)
      (disk.content filled.data_writer.w)
      stored_blocks
      (resume_sections disk leb test_cbor test_cids list_tree false
        (data_start opts)
        (disk.content filled.data_writer.w)
        (suc (length (disk.content filled.data_writer.w)))
        4
        list_tree.empty)
unfolding program
resumes_what_was_put_example =
    resumes_what_was_put disk disk-FileLaws leb leb-VarintLaws test_cbor test_cids test_cids-CidLaws
      list_tree list_tree-TreeInserts opts (data_start opts) 4 (front_bytes leb opts header_form)
      stored_blocks filled false filled-IsStored refl (omega arith, (omega arith, tt))
      (
        (record { code = 18; digest = 9 ∷ [] }, refl),
        ((record { code = 18; digest = 7 ∷ [] }, refl), tt),
      )

-- The section names ten bytes, of which the file holds three.
cut_off_example :
    resume_sections disk leb test_cbor test_cids list_tree false 0
      ([] ++ (leb.put 10 ++ (18 ∷ 7 ∷ [] ++ (3 ∷ []))))
      (suc (suc 0))
      0
      []
    ≡ some (
      none,
      0 + length (leb.put 10) + 10,
      list_tree.insert_no_replace
          (record { digest = 7 ∷ []; entry = record { cid = seven.cid; offset = 0 } })
          [],
    )
unfolding leb_put
cut_off_example =
    cut_off disk leb leb-VarintLaws test_cbor test_cids test_cids-CidLaws list_tree
      list_tree-TreeInserts false 0 ([] ++ (leb.put 10 ++ (18 ∷ 7 ∷ [] ++ (3 ∷ [])))) 0 0 10 []
      (3 ∷ []) seven.cid (record { code = 18; digest = 7 ∷ [] }) [] refl refl (omega arith)
      (omega arith) refl

open_read_write_total_example :
    open_read_write disk leb test_cbor test_cids list_tree (1 ∷ 2 ∷ []) (root ∷ []) opts ≢ none
open_read_write_total_example =
    open_read_write_total disk leb leb-VarintLaws test_cbor test_cids list_tree (1 ∷ 2 ∷ [])
      (root ∷ []) opts

all_keys_chan_total_example : all_keys_chan leb test_cbor test_cids (λ c. c) reader ≢ ok none
all_keys_chan_total_example =
    all_keys_chan_total leb leb-VarintLaws test_cids test_cids-CidLaws (λ c. c) test_cbor reader
