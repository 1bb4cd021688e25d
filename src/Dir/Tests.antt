-- ===== src/Dir/Tests.antt =====
-- An empty directory in one block, and the name "ab".
use yonix.Base.{ℕ, ◌<◌, refl, ◌≢◌, true, arith, Mem, update}
use yonix.Fs.Tests.{small_disk}
use yonix.Inode.{Inode}
use yonix.Inode.Tests.{one_block-WellFormed}
use yonix.Dir.{dirlookup, dirlink}
use yonix.Dir.Lookup.{IsDir, LookedUp, dirlookup-LookedUp}
use yonix.Dir.Names.{IsName}
use yonix.Dir.Link.{LinkedUp, dirlink-LinkedUp}
use yonix.Dir.RoundTrip.{FindsLinked, dirlink-dirlookup}

abbrev small_dir : Inode
small_dir = record {
  dev = 1;
  inum = 1;
  ref = 1;
  lock = record { locked = true; pid = 1 };
  valid = true;
  type = 1;
  major = 0;
  minor = 0;
  nlink = 1;
  size = 32;
  addrs = update (λ i. 0) 0 5;
}

small_dir-IsDir : IsDir small_dir small_disk
small_dir-IsDir = record {
  well = one_block-WellFormed small_dir refl refl;
  type = refl;
  whole = omega arith;
  short = omega arith;
}

abbrev name_ab : Mem
name_ab = update (update (λ i. 0) 0 b'a') 1 b'b'

name_ab-IsName : IsName name_ab 2
name_ab-IsName = (omega arith, refl, (λ i p. early i p), λ i. small i)
  where
    early : (i : ℕ) → i < 2 → name_ab i ≢ 0
    early i p = ground (arith, p)

    small : (i : ℕ) → name_ab i < 256
    small i = ground arith

dirlookup-LookedUp_example :
    LookedUp small_dir small_disk name_ab (dirlookup name_ab small_dir small_disk)
dirlookup-LookedUp_example = dirlookup-LookedUp name_ab small_dir small_disk small_dir-IsDir

dirlink-LinkedUp_example :
    LinkedUp small_dir small_disk name_ab 7 (dirlink name_ab 7 small_dir small_disk)
dirlink-LinkedUp_example =
    dirlink-LinkedUp name_ab 2 7 small_dir small_disk small_dir-IsDir (omega arith) name_ab-IsName
      (omega arith)

dirlink-dirlookup_example : FindsLinked name_ab 7 (dirlink name_ab 7 small_dir small_disk)
dirlink-dirlookup_example =
    dirlink-dirlookup name_ab 2 7 small_dir small_disk small_dir-IsDir (omega arith) name_ab-IsName
      (omega arith) (omega arith)
