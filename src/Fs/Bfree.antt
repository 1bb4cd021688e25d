-- ===== src/Fs/Bfree.antt =====
-- What bfree changes.
use yonix.Base.{
  ℕ, ◌+◌, ◌/◌, ◌%◌, ◌≡◌, refl, ap, ap₂, ◌∙◌, subst, ◌≢◌, inl, inr, Bool, true, false, [], ◌∷◌, ◌++◌,
  arith, ◌==◌, if◌then◌else◌, Bool-cases,
}
use yonix.Fs.{
  Superblock, Disk, Result, ok, panics, put_block, bblock, bpb, superblock_at, readsb, bit_clear,
  clear_bit, bfree,
}
use yonix.Fs.Bits.{bit_clear-clear_bit}
use yonix.Fs.Bitmap.{is_free, MapOk}

-- Block `b` was in use and is free, and all else is as it was but for its bit in the map.
pub record Freed (s : Disk) (b : ℕ) (t : Disk) : Type 0 where
  pub was_used : is_free s b ≡ false
  pub free_now : (y : ℕ) → is_free t y ≡ (if b == y then true else is_free s y)
  pub kept : (c : ℕ) → c ≢ bblock s.sb b → t.bytes c ≡ s.bytes c
  pub same_sb : t.sb ≡ s.sb
  pub logs : t.logged ≡ s.logged ++ bblock s.sb b ∷ []

-- What bfree gives: the disk with the block free, or a panic because it was free before.
abbrev pub Bfree : Disk → ℕ → Result Disk → Type 0
Bfree s b (ok t) = Freed s b t
Bfree s b (panics t) = (t ≡ s) × (is_free s b ≡ true)

module _ (s : Disk) (good : MapOk s) (b : ℕ) where
  abbrev mb : ℕ
  mb = bblock s.sb b

  abbrev after : Disk
  after = put_block mb (clear_bit (s.bytes mb) (b % bpb)) s

  free_after : (y : ℕ) → is_free after y ≡ (if b == y then true else is_free s y)
  unfolding is_free
  free_after y = elim (Bool-cases (mb == bblock s.sb y)) [
    | inl e ↦
        let same : mb ≡ bblock s.sb y = ground (arith, e) in
        rw e (
          bit_clear-clear_bit (s.bytes mb) (b % bpb) (y % bpb) (good.all_bytes mb)
          ∙ ap₂ (λ t c. if t then true else bit_clear (s.bytes c) (y % bpb))
              (same_index b y s.sb.bmapstart same) same)
    | inr e ↦ let ne : b == y ≡ false = apart b y s.sb.bmapstart e in rw (e, ne) refl
  ]
    where
      same_index : (x y c : ℕ) → x / 4096 + c ≡ y / 4096 + c → (x % 4096 == y % 4096) ≡ (x == y)
      same_index x y c h = ground arith

      apart : (x y c : ℕ) → x / 4096 + c == y / 4096 + c ≡ false → x == y ≡ false
      apart x y c h = ground arith

  by_bit :
      (z : Bool)
      → bit_clear (s.bytes mb) (b % bpb) ≡ z
      → Bfree s b (if z then panics s else ok after)
  unfolding is_free
  by_bit true e = (refl, e)
  by_bit false e = record {
    was_used = e;
    free_now = free_after;
    kept = λ c ne. other c ne (mb == c) refl;
    same_sb = refl;
    logs = refl;
  }
    where
      other :
          (c : ℕ)
          → c ≢ mb
          → (z : Bool) → mb == c ≡ z
          → (if z then clear_bit (s.bytes mb) (b % bpb) else s.bytes c) ≡ s.bytes c
      other c ne true e = absurd (ground (arith, ne, e))
      other c ne false e = refl

-- Where `sb` is the superblock that block 1 holds, bfree of a block in use clears its bit in the map:
-- the block is free then, and no other block's state and no other byte of the disk changes. It panics
-- exactly if the block is free, and then has changed nothing.
pub bfree-Bfree :
    (b : ℕ) (s : Disk) → MapOk s → s.sb ≡ superblock_at (s.bytes 1) → Bfree s b (bfree b s)
unfolding bfree
bfree-Bfree b s good e =
    let same : s ≡ readsb s = ap (λ (c : Superblock). record s { sb = c }) e in
    subst
      (λ t. Bfree s b (
        if bit_clear (t.bytes (bblock t.sb b)) (b % bpb)
        then panics t
        else ok (put_block (bblock t.sb b) (clear_bit (t.bytes (bblock t.sb b)) (b % bpb)) t)))
      same (by_bit s good b (bit_clear (s.bytes (bblock s.sb b)) (b % bpb)) refl)
