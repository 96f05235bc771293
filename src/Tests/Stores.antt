-- ===== src/Tests/Stores.antt =====
-- Runs on the insertion index, over a tree that is a list in order.
use go_car.Prelude.{ℕ, length, ◌≡◌, refl, List, [], ◌∷◌, ◌++◌, none, some}
use go_car.Prelude.{Bool, true, if◌then◌else◌, Option}
use go_car.Bytes.{bytes_less, bytes_equal, Bytes}
use go_car.Stream.{not_found}
use go_car.Index.Single.{record_less}
use go_car.Index.Single.Lookup.{offsets_of, is_nil, feed}
use go_car.Blockstore.InsertionIndex.{RecordDigest, Tree, iterate, get_all_iter, insertion_get_all}
use go_car.Blockstore.InsertionIndex.Lookup.{
  as_records, not_below, TreeLaws, insertion_get_all-feed,
}
use go_car.Tests.World.{TestCid, test_cids}

program : Unit {0}
unfolding bytes_less bytes_equal iterate get_all_iter insertion_get_all not_below record_less
program = tt

abbrev pub Items : Type 0
Items = List (RecordDigest TestCid)

abbrev pub place : RecordDigest TestCid → Items → Items
place r [] = r ∷ []
place r (i ∷ is) = if bytes_less r.digest i.digest then r ∷ i ∷ is else i ∷ place r is

abbrev first_equal : Bytes → Items → Option (RecordDigest TestCid)
first_equal d [] = none
first_equal d (i ∷ is) = if bytes_equal i.digest d then some i else first_equal d is

abbrev pub list_tree : Tree TestCid Items
list_tree = record {
  empty = [];
  insert_no_replace = place;
  find = first_equal;
  ascend = not_below;
  items = λ t. t;
  len = length;
}

abbrev item : ℕ → ℕ → RecordDigest TestCid
item value offset = record {
  digest = value ∷ [];
  entry = record { cid = record { code = 1; value = value }; offset = offset };
}

abbrev three_items : Items
three_items = item 3 100 ∷ item 7 200 ∷ item 7 300 ∷ []

inserted : place (item 7 300) (place (item 3 100) (place (item 7 200) [])) ≡ three_items
unfolding program
inserted = refl

three_items-TreeLaws : TreeLaws list_tree three_items
unfolding program
three_items-TreeLaws = record {
  ascending = ((refl, (refl, tt)), ((refl, tt), (tt, tt)));
  from_pivot = λ d. refl;
}

abbrev seven : TestCid
seven = record { code = 1; value = 7 }

abbrev collect : ℕ → List ℕ → Bool × List ℕ
collect o a = (true, a ++ o ∷ [])

finds_both :
    insertion_get_all test_cids list_tree seven collect three_items [] ≡ (none, 200 ∷ 300 ∷ [])
unfolding program
finds_both = refl

insertion_get_all-feed_example :
    insertion_get_all test_cids list_tree seven collect three_items [] ≡ (
      if is_nil (offsets_of (7 ∷ []) (as_records three_items)) then some not_found else none,
      feed collect (offsets_of (7 ∷ []) (as_records three_items)) [],
    )
insertion_get_all-feed_example =
    insertion_get_all-feed test_cids list_tree seven (record { code = 1; digest = 7 ∷ [] }) collect
      three_items [] three_items-TreeLaws refl
