-- ===== src/Fs/Tests.antt =====
-- A disk of eight blocks: boot block, superblock, inodes, map, a free block, one in use, two free ones.
use yonix.Base.{ℕ, ◌<◌, ◌≡◌, refl, subst, false, [], arith, Mem, update}
use yonix.Words.{load32}
use yonix.Fs.{Disk, superblock_at, bblock, bit_clear, balloc, bfree}
use yonix.Fs.Bitmap.{is_free, MapOk}
use yonix.Fs.Balloc.{Balloc, balloc-Balloc}
use yonix.Fs.Bfree.{Bfree, bfree-Bfree}

abbrev super_bytes : Mem
super_bytes = update (update (update (λ i. 0) 0 8) 20 2) 24 3

abbrev map_bytes : Mem
map_bytes = update (λ i. 0) 0 47

abbrev pub small_disk : Disk
small_disk = record {
  sb = record {
    size = 8;
    nblocks = 0;
    ninodes = 0;
    nlog = 0;
    logstart = 0;
    inodestart = 2;
    bmapstart = 3;
  };
  bytes = update (update (λ b i. 0) 1 super_bytes) 3 map_bytes;
  logged = [];
}

pub small_disk-MapOk : MapOk small_disk
unfolding is_free bit_clear
small_disk-MapOk = record {
  all_bytes = λ b i. small b i;
  boot_used = refl;
  map_used = λ x lt _.
      let e : 3 ≡ bblock small_disk.sb x = omega (arith, lt) in
      subst (λ b. is_free small_disk b ≡ false) e refl;
}
  where
    small : (b i : ℕ) → small_disk.bytes b i < 256
    small b i = ground arith

pub inodes_used : is_free small_disk 2 ≡ false
unfolding is_free bit_clear
inodes_used = refl

pub five_used : is_free small_disk 5 ≡ false
unfolding is_free bit_clear
five_used = refl

small_disk-sb : small_disk.sb ≡ superblock_at (small_disk.bytes 1)
unfolding superblock_at load32
small_disk-sb = refl

balloc-Balloc_example : Balloc small_disk (balloc small_disk)
balloc-Balloc_example = balloc-Balloc small_disk small_disk-MapOk

bfree-Bfree_example : Bfree small_disk 5 (bfree 5 small_disk)
bfree-Bfree_example = bfree-Bfree 5 small_disk small_disk-MapOk small_disk-sb
