-- ===== src/Inode/Tests.antt =====
-- A file of 100 bytes in one block.
use yonix.Base.{
  ℕ, ◌-◌, ◌*◌, ◌≡◌, refl, sym, ap, ◌∙◌, subst, ◌≢◌, true, false, [], ◌∷◌, arith, update, replicate,
  leb, ◌==◌, if◌then◌else◌,
}
use yonix.Words.{load32}
use yonix.Fs.Tests.{small_disk, small_disk-MapOk, inodes_used, five_used}
use yonix.Inode.{iblock, Inode, bmap, writei, load_dinode, store_dinode}
use yonix.Inode.Slots.{owned, Used, WellFormed}
use yonix.Inode.Bmap.{Mapped, bmap-Mapped}
use yonix.Log.{Log}
use yonix.Inode.Calls.{readi_call, writei_call}
use yonix.Inode.Logged.{ReadCall, readi-ReadCall, WriteCall, writei-WriteCall}
use yonix.Inode.ReadBack.{ReadBack, writei-readi}
use yonix.Inode.Dinode.{Fits, SameFile, load_dinode-store_dinode}

abbrev small_file : Inode
small_file = record {
  dev = 1;
  inum = 1;
  ref = 1;
  lock = record { locked = true; pid = 1 };
  valid = true;
  type = 2;
  major = 0;
  minor = 0;
  nlink = 1;
  size = 100;
  addrs = update (λ i. 0) 0 5;
}

-- Inode 1 with one block on the disk, block 5.
module _ (ip : Inode) (has : ip.addrs ≡ update (λ i. 0) 0 5) (one : ip.inum ≡ 1) where
  owned_lem : (n : ℕ) → owned ip small_disk n ≡ (if 0 == n then 5 else 0)
  unfolding owned
  owned_lem n =
      ap
        (λ (a : ℕ → ℕ).
          if leb n 12
          then a n
          else if a 12 == 0
          then 0
          else load32 (small_disk.bytes (a 12)) (4 * (n - 13)))
        has
      ∙ ground arith

  five-Used : Used small_disk 5
  five-Used = record {
    inside = omega arith;
    not_free = five_used;
    not_map = λ y lt e. absurd (omega (arith, lt, e));
  }

  owned-cases : (n : ℕ) → owned ip small_disk n ≢ 0 → (0 ≡ n) × (owned ip small_disk n ≡ 5)
  owned-cases n nz = pick (if 0 == n then 5 else 0) (owned_lem n) refl
    where
      pick :
          (v : ℕ)
          → owned ip small_disk n ≡ v
          → v ≡ (if 0 == n then 5 else 0)
          → (0 ≡ n) × (owned ip small_disk n ≡ 5)
      pick v e h = ground (arith, e, h, nz)

  home_lem : 2 ≡ iblock small_disk.sb ip.inum
  home_lem = omega (arith, one)

  pub one_block-WellFormed : WellFormed ip small_disk
  one_block-WellFormed = record {
    small = omega arith;
    map_ok = small_disk-MapOk;
    used = λ n _ nz. subst (Used small_disk) (sym (owned-cases n nz).1) five-Used;
    once = λ n k _ _ nz e. sym (owned-cases n nz).0 ∙ (owned-cases k (λ z. nz (e ∙ z))).0;
    home_used = subst (Used small_disk) home_lem (record {
      inside = omega arith;
      not_free = inodes_used;
      not_map = λ y lt e. absurd (omega (arith, lt, e));
    });
    home = λ n _ e.
        let q = e ∙ sym home_lem in
        let c = owned-cases n (λ z. absurd (omega (arith, q, z))) in absurd (omega (arith, q, c.1));
  }

small_file-WellFormed : WellFormed small_file small_disk
small_file-WellFormed = one_block-WellFormed small_file refl refl

bmap-Mapped_example : Mapped small_file 12 small_disk (bmap small_file 12 small_disk)
bmap-Mapped_example = bmap-Mapped small_file 12 small_disk small_file-WellFormed (omega arith)

-- A log with one operation under way.
abbrev begun : Log
begun = record {
  start = 2;
  size = 30;
  outstanding = 1;
  committing = false;
  dev = 1;
  n = 0;
  block = replicate 30 0;
}

writei-WriteCall_example :
    WriteCall
      (λ m. false)
      small_file
      small_disk
      begun
      (7 ∷ 8 ∷ [])
      99
      (writei_call (λ m. false) small_file (7 ∷ 8 ∷ []) 99 small_disk begun)
writei-WriteCall_example =
    writei-WriteCall (λ m. false) small_file (7 ∷ 8 ∷ []) 99 small_disk begun small_file-WellFormed
      (omega arith) (omega arith) (omega arith) (omega arith)

readi-ReadCall_example :
    ReadCall
      (λ m. false)
      small_file
      small_disk
      begun
      99
      2
      (readi_call (λ m. false) small_file 99 2 small_disk begun)
readi-ReadCall_example =
    readi-ReadCall (λ m. false) small_file 99 2 small_disk begun small_file-WellFormed (omega arith)
      (omega arith) (omega arith) (omega arith)

writei-readi_example :
    ReadBack
      (λ m. false)
      (7 ∷ 8 ∷ [])
      99
      (writei (λ m. false) small_file (7 ∷ 8 ∷ []) 99 small_disk)
writei-readi_example =
    writei-readi (λ m. false) small_file (7 ∷ 8 ∷ []) 99 small_disk small_file-WellFormed
      (omega arith) (omega arith) (λ e. absurd (omega (arith, e))) (omega arith) (omega arith)

small_file-Fits : Fits small_file
small_file-Fits = record {
  type = omega arith;
  major = omega arith;
  minor = omega arith;
  nlink = omega arith;
  size = omega arith;
  addrs = λ i _. ground arith;
}

load_dinode-store_dinode_example :
    SameFile (load_dinode (store_dinode small_file 64 (λ i. 1)) 64 small_file) small_file
load_dinode-store_dinode_example =
    load_dinode-store_dinode small_file small_file 64 (λ i. 1) small_file-Fits
