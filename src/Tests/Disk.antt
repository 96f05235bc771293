-- ===== src/Tests/Disk.antt =====
-- A file of at most 4096 bytes, in memory.
use go_car.Prelude.{ℕ, ◌-◌, ◌≡◌, refl, arith, [], ◌∷◌, ◌++◌, Option, none, some, min, take}
use go_car.Prelude.{length, leb, ◌&&◌, if◌then◌else◌}
use go_car.Prelude.Int.{ℤ, pos, negsuc}
use go_car.Bytes.{Bytes, bytes_less}
use go_car.Stream.{Error, short_write, external}
use go_car.File.{FileLib, FileLaws, overwrite}
use go_car.Blockstore.InsertionIndex.{RecordDigest}
use go_car.Blockstore.ReadWrite.Items.{TreeInserts}
use go_car.Tests.World.{TestCid}
use go_car.Tests.Stores.{list_tree, place, Items}

unfoldable pub disk_write : Bytes → ℤ → Bytes → (ℕ × Option Error) × Bytes
disk_write p (pos n) c =
    let k = min (length p) (4096 - n) in
    (
      (k, (if leb n 4096 && leb (length p) k then none else some short_write)),
      overwrite n (take k p) c,
    )
disk_write p (negsuc n) c = ((0, some (external 5)), c)

abbrev pub disk : FileLib Bytes
disk = record {
  content = λ c. c;
  write_at = disk_write;
  truncate = λ n c. (none, take n c);
  close = λ c. none;
}

pub disk-FileLaws : FileLaws disk
unfolding disk_write
disk-FileLaws = record {
  written = λ p n c. refl;
  counted = λ p n c. ground arith;
  in_range = λ p n c h. ground arith;
  beyond = λ p n c h e. ground arith;
  complete = λ p n c e. ground arith;
  negative = λ p n c e. cc e;
  truncated = λ n c e h. refl;
}

-- Where the tree of Tests/Stores puts an item.
abbrev before_item : RecordDigest TestCid → Items → Items
before_item r [] = []
before_item r (i ∷ is) = if bytes_less r.digest i.digest then [] else i ∷ before_item r is

abbrev behind_item : RecordDigest TestCid → Items → Items
behind_item r [] = []
behind_item r (i ∷ is) = if bytes_less r.digest i.digest then i ∷ is else behind_item r is

others_kept : (r : RecordDigest TestCid) (t : Items) → t ≡ before_item r t ++ behind_item r t
others_kept r [] = refl
others_kept r (i ∷ is) = ground (arith, others_kept r is)

place-between :
    (r : RecordDigest TestCid) (t : Items) → place r t ≡ before_item r t ++ (r ∷ behind_item r t)
place-between r [] = refl
place-between r (i ∷ is) = ground (arith, place-between r is)

pub list_tree-TreeInserts : TreeInserts list_tree
list_tree-TreeInserts = record {
  front = before_item;
  back = behind_item;
  others = others_kept;
  inserted = place-between;
  empty_items = refl;
}
