-- ===== src/Fs.antt =====
-- fs.c: the blocks of the file system on one device.
-- `bytes` gives the bytes of each block as the buffer cache has them; `logged` lists the blocks that
-- were given to log_write, in order. What brelse does is in Bio, what log_write does in Log.
pub mod Bits
pub mod Bitmap
pub mod Balloc
pub mod Changes
pub mod Bfree
pub mod Tests
use yonix.Base.{
  ℕ, zero, suc, ◌+◌, ◌-◌, ◌*◌, ◌/◌, ◌%◌, ◌^◌, ◌≤◌, ◌<◌, min, bit_and, bit_or, bit_xor, ◌≡◌, refl,
  sym, ap, ap₂, ◌∙◌, fun_ext, subst, ◌≢◌, ◌↔◌, ◌⊎◌, inl, inr, Bool, true, false, not, ◌&&◌, ◌||◌,
  Option, none, some, List, [], ◌∷◌, ◌++◌, map, append-nil, append_assoc, arith, dec_lt, dec_le,
  ℕ_discrete, Mem, update, ltb, leb, ◌==◌, if◌then◌else◌, ltb→lt, lt→ltb, le→ltb, ==_refl, ==_iff,
  Bool-cases, Option-cases, Nat-cases, length, get_elem?, get_or, set, take, drop, replicate, All,
  length-append, length-set, get_or-set_self, get_or-set_ne, length-replicate,
}
use yonix.Words.{word, load32, store32}

abbrev pub bsize : ℕ
bsize = 512

-- BPB
abbrev pub bpb : ℕ
bpb = bsize * 8

abbrev pub ndirect : ℕ
ndirect = 12

abbrev pub nindirect : ℕ
nindirect = bsize / 4

abbrev pub maxfile : ℕ
maxfile = ndirect + nindirect

-- `struct superblock`
pub record Superblock : Type 0 where
  pub size : ℕ
  pub nblocks : ℕ
  pub ninodes : ℕ
  pub nlog : ℕ
  pub logstart : ℕ
  pub inodestart : ℕ
  pub bmapstart : ℕ

pub record Disk : Type 0 where
  pub sb : Superblock
  pub bytes : ℕ → Mem
  pub logged : List ℕ

-- A result, or a panic in a state of the disk.
pub data Result {ℓ} (A : Type ℓ) : Type ℓ where
  ok : A → Result A
  panics : Disk → Result A

infixl 5 ◌>>=◌
abbrev pub ◌>>=◌ {ℓ κ} : {A : Type ℓ} {B : Type κ} → Result A → (A → Result B) → Result B
ok a >>= f = f a
panics s >>= f = panics s

-- The block `b` is given other bytes, and is logged.
abbrev pub put_block : ℕ → Mem → Disk → Disk
put_block b m s = record s { bytes = update s.bytes b m; logged = s.logged ++ b ∷ [] }

-- The superblock that block 1 holds, and readsb into the variable `sb`.
pub superblock_at : Mem → Superblock
unfolding load32
superblock_at m = record {
  size = load32 m 0;
  nblocks = load32 m 4;
  ninodes = load32 m 8;
  nlog = load32 m 12;
  logstart = load32 m 16;
  inodestart = load32 m 20;
  bmapstart = load32 m 24;
}

abbrev pub readsb : Disk → Disk
readsb s = record s { sb = superblock_at (s.bytes 1) }

abbrev pub bzero : ℕ → Disk → Disk
bzero b s = put_block b (λ i. 0) s

-- BBLOCK
abbrev pub bblock : Superblock → ℕ → ℕ
bblock sb b = b / bpb + sb.bmapstart

-- `(bp->data[bi/8] & m) == 0`, `|= m` and `&= ~m` for `m = 1 << (bi % 8)`, on bytes
pub bit_clear : Mem → ℕ → Bool
bit_clear m bi = bit_and (m (bi / 8)) (2 ^ (bi % 8)) == 0

pub set_bit : Mem → ℕ → Mem
set_bit m bi = update m (bi / 8) (bit_or (m (bi / 8)) (2 ^ (bi % 8)))

pub clear_bit : Mem → ℕ → Mem
clear_bit m bi = update m (bi / 8) (bit_and (m (bi / 8)) (255 - 2 ^ (bi % 8)))

-- The inner loop of balloc over `k` bits from `bi` on, of the map block for the blocks from `b` on.
pub find_bit : ℕ → ℕ → ℕ → ℕ → Mem → Option ℕ
find_bit zero bi b size m = none
find_bit (suc k) bi b size m =
    let rest = find_bit k (bi + 1) b size m in
    if ltb (b + bi) size then (if bit_clear m bi then some bi else rest) else none

-- What balloc does with the bit that it finds.
abbrev pub take_block : ℕ → ℕ → Disk → ℕ × Disk
take_block b bi s =
    let map_block = bblock s.sb b in
    (b + bi, bzero (b + bi) (put_block map_block (set_bit (s.bytes map_block) bi) s))

-- The outer loop of balloc from `b` on, with fuel.
pub balloc_from : ℕ → ℕ → Disk → Result (ℕ × Disk)
balloc_from zero b s = panics s
balloc_from (suc fuel) b s =
    let rest = balloc_from fuel (b + bpb) s in
    if ltb b s.sb.size
    then elim (find_bit bpb 0 b s.sb.size (s.bytes (bblock s.sb b))) [
      | none ↦ rest
      | some bi ↦ ok (take_block b bi s)
    ]
    else panics s

-- balloc: the block and the disk.
pub balloc : Disk → Result (ℕ × Disk)
balloc s = balloc_from (s.sb.size / bpb + 1) 0 s

pub bfree : ℕ → Disk → Result Disk
bfree b s0 =
    let s = readsb s0 in
    let map_block = bblock s.sb b in
    let bi = b % bpb in
    if bit_clear (s.bytes map_block) bi
    then panics s
    else ok (put_block map_block (clear_bit (s.bytes map_block) bi) s)
