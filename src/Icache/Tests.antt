-- ===== src/Icache/Tests.antt =====
-- A table with one inode, in entry 1.
use yonix.Base.{ℕ, ◌<◌, ◌≡◌, sym, ◌∙◌, true, false, [], arith, update, ◌==◌, if◌then◌else◌}
use yonix.Inode.{Inode}
use yonix.Fs.{Disk}
use yonix.Icache.{Table, iget, ialloc}
use yonix.Icache.Ialloc.{IsAllocated, ialloc-IsAllocated}
use yonix.Icache.Unique.{Unique, IsGot}
use yonix.Icache.Get.{iget-IsGot}

abbrev no_inode : Inode
no_inode = record {
  dev = 0;
  inum = 0;
  ref = 0;
  lock = record { locked = false; pid = 0 };
  valid = false;
  type = 0;
  major = 0;
  minor = 0;
  nlink = 0;
  size = 0;
  addrs = λ i. 0;
}

abbrev one_inode : Table
one_inode = update (λ i. no_inode) 1 (record no_inode { dev = 1; inum = 7; ref = 2; valid = true })

one_inode-Unique : Unique one_inode
one_inode-Unique i j li lj ri rj ed en = only i ri ∙ sym (only j rj)
  where
    only : (i : ℕ) → 0 < (one_inode i).ref → i ≡ 1
    only i h = ground (arith, h)

iget-IsGot_example : IsGot 1 8 one_inode (iget 1 8 one_inode)
iget-IsGot_example = iget-IsGot 1 8 one_inode one_inode-Unique

abbrev eight_inodes : Disk
eight_inodes = record {
  sb = record {
    size = 8;
    nblocks = 0;
    ninodes = 8;
    nlog = 0;
    logstart = 0;
    inodestart = 2;
    bmapstart = 3;
  };
  bytes = λ b i. if i == 192 then 0 else if i == 193 then 0 else 1;
  logged = [];
}

ialloc-IsAllocated_example :
    IsAllocated 1 2 one_inode eight_inodes (ialloc 1 2 one_inode eight_inodes)
ialloc-IsAllocated_example =
    ialloc-IsAllocated 1 2 one_inode eight_inodes (omega arith) one_inode-Unique
