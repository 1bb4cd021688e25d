-- ===== src/Inode/Slots.antt =====
-- The blocks that an inode owns: what it is for them to be well formed, and what a new one changes.
use yonix.Base.{
  ℕ, ◌+◌, ◌-◌, ◌*◌, ◌≤◌, ◌<◌, ◌≡◌, refl, ◌∙◌, ◌≢◌, Bool, true, false, arith, Mem, leb, ◌==◌,
  if◌then◌else◌, ==_refl,
}
use yonix.Words.{word, load32, store32}
use yonix.Fs.{Disk, bblock, put_block}
use yonix.Fs.Bits.{Bytes}
use yonix.Fs.Bitmap.{is_free, MapOk}
use yonix.Inode.{Inode, iblock}

-- The blocks of an inode: the direct ones, the indirect block, and those it lists; 0 for none.
abbrev pub nowned : ℕ
nowned = 141

unfoldable pub owned : Inode → Disk → ℕ → ℕ
owned ip s n =
    if leb n 12
    then ip.addrs n
    else if ip.addrs 12 == 0
    then 0
    else load32 (s.bytes (ip.addrs 12)) (4 * (n - 13))

abbrev pub NotMap : Disk → ℕ → Type 0
NotMap s b = (y : ℕ) → y < s.sb.size → bblock s.sb y ≢ b

pub record Used (s : Disk) (b : ℕ) : Type 0 where
  pub inside : b < s.sb.size
  pub not_free : is_free s b ≡ false
  pub not_map : NotMap s b

-- The blocks that are owned are in use, each is owned once, and the block of the inode's copy on the
-- disk is not among them.
pub record WellFormed (ip : Inode) (s : Disk) : Type 0 where
  pub small : s.sb.size ≤ word
  pub map_ok : MapOk s
  pub used : (n : ℕ) → n < nowned → owned ip s n ≢ 0 → Used s (owned ip s n)
  pub once :
      (n k : ℕ) → n < nowned → k < nowned → owned ip s n ≢ 0 → owned ip s n ≡ owned ip s k → n ≡ k
  pub home_used : Used s (iblock s.sb ip.inum)
  pub home : (n : ℕ) → n < nowned → owned ip s n ≢ iblock s.sb ip.inum

pub owned_direct : (ip : Inode) (s : Disk) (n : ℕ) → n ≤ 12 → owned ip s n ≡ ip.addrs n
unfolding owned
owned_direct ip s n h = let e : leb n 12 ≡ true = ground (arith, h) in rw e refl

pub owned_none : (ip : Inode) (s : Disk) (n : ℕ) → 12 < n → ip.addrs 12 ≡ 0 → owned ip s n ≡ 0
unfolding owned
owned_none ip s n h z =
    let e : leb n 12 ≡ false = ground (arith, h) in
    let f : ip.addrs 12 == 0 ≡ true = ground (arith, z) in rw (e, f) refl

pub owned_indirect :
    (ip : Inode) (s : Disk) (n : ℕ)
    → 12 < n
    → ip.addrs 12 ≢ 0
    → owned ip s n ≡ load32 (s.bytes (ip.addrs 12)) (4 * (n - 13))
unfolding owned
owned_indirect ip s n h z =
    let e : leb n 12 ≡ false = ground (arith, h) in
    let f : ip.addrs 12 == 0 ≡ false = ground (arith, z) in rw (e, f) refl

pub load32_zero : (m : Mem) (a : ℕ) → ((i : ℕ) → m i ≡ 0) → load32 m a ≡ 0
unfolding load32
load32_zero m a h = ground (arith, h a, h (a + 1), h (a + 2), h (a + 3))

-- Writing a block that is not of the map leaves the map alone.
pub is_free-put_block :
    (s : Disk) (b : ℕ) (m : Mem) (y : ℕ)
    → NotMap s b
    → y < s.sb.size
    → is_free (put_block b m s) y ≡ is_free s y
unfolding is_free
is_free-put_block s b m y nm lt =
    let e : b == bblock s.sb y ≡ false = ground (arith, nm y lt) in rw e refl

pub put_block-MapOk :
    (s : Disk) (b : ℕ) (m : Mem)
    → NotMap s b
    → Bytes m
    → 0 < s.sb.size
    → MapOk s
    → MapOk (put_block b m s)
put_block-MapOk s b m nm bm pos good = record {
  all_bytes = λ c. by_test c (b == c);
  boot_used = is_free-put_block s b m 0 nm pos ∙ good.boot_used;
  map_used = λ y lt lt'. is_free-put_block s b m (bblock s.sb y) nm lt' ∙ good.map_used y lt lt';
}
  where
    by_test : (c : ℕ) (z : Bool) → Bytes (if z then m else s.bytes c)
    by_test c true = bm
    by_test c false = good.all_bytes c

pub put_block-Used :
    (s : Disk) (b : ℕ) (m : Mem) (c : ℕ) → NotMap s b → Used s c → Used (put_block b m s) c
put_block-Used s b m c nm u = record {
  inside = u.inside;
  not_free = is_free-put_block s b m c nm u.inside ∙ u.not_free;
  not_map = u.not_map;
}

pub bytes_same : (s : Disk) (b : ℕ) (m : Mem) → (put_block b m s).bytes b ≡ m
bytes_same s b m = rw (==_refl b) refl

pub bytes_other :
    (s : Disk) (b : ℕ) (m : Mem) (c : ℕ) → b ≢ c → (put_block b m s).bytes c ≡ s.bytes c
bytes_other s b m c ne = let e : b == c ≡ false = ground (arith, ne) in rw e refl

pub store32-Bytes : (m : Mem) (a w : ℕ) → Bytes m → Bytes (store32 m a w)
unfolding store32
store32-Bytes m a w h i = let q = h i in ground (arith, q)
