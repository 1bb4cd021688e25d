-- ===== src/Inode.antt =====
-- fs.c: inodes: their blocks, reading and writing, and their copies on the disk.
-- A short is the number of its 16 bits. The functions of devices are not modelled: reading and writing
-- a device stops at the call of its function.
pub mod Slots
pub mod Grow
pub mod Content
pub mod Bmap
pub mod Overwrite
pub mod Splice
pub mod Writing
pub mod Iupdate
pub mod Update
pub mod Reading
pub mod ReadBack
pub mod Dinode
pub mod Changes
pub mod Calls
pub mod Logged
pub mod Tests
use yonix.Base.{
  ℕ, zero, suc, ◌+◌, ◌-◌, ◌*◌, ◌/◌, ◌%◌, ◌^◌, ◌≤◌, ◌<◌, min, bit_and, bit_or, bit_xor, ◌≡◌, refl,
  sym, ap, ap₂, ◌∙◌, fun_ext, subst, ◌≢◌, ◌↔◌, ◌⊎◌, inl, inr, Bool, true, false, not, ◌&&◌, ◌||◌,
  Option, none, some, List, [], ◌∷◌, ◌++◌, map, append-nil, append_assoc, arith, dec_lt, dec_le,
  ℕ_discrete, Mem, update, ltb, leb, ◌==◌, if◌then◌else◌, ltb→lt, lt→ltb, le→ltb, ==_refl, ==_iff,
  Bool-cases, Option-cases, Nat-cases, length, get_elem?, get_or, set, take, drop, replicate, All,
  length-append, length-set, get_or-set_self, get_or-set_ne, length-replicate,
}
use yonix.Words.{word, load32, store32}
use yonix.Bio.{SleepLock}
use yonix.Fs.{
  Superblock, Disk, Result, ok, panics, ◌>>=◌, bsize, ndirect, nindirect, maxfile, put_block,
  balloc, bfree,
}

abbrev pub t_dir : ℕ
t_dir = 1

abbrev pub t_dev : ℕ
t_dev = 3

abbrev pub ndev : ℕ
ndev = 10

-- `struct inode`; `addrs` has ndirect + 1 entries.
pub record Inode : Type 0 where
  pub dev : ℕ
  pub inum : ℕ
  pub ref : ℕ
  pub lock : SleepLock
  pub valid : Bool
  pub type : ℕ
  pub major : ℕ
  pub minor : ℕ
  pub nlink : ℕ
  pub size : ℕ
  pub addrs : ℕ → ℕ

-- `if ((addr = ip->addrs[k]) == 0) ip->addrs[k] = addr = balloc(ip->dev);`
pub addr_slot : Inode → ℕ → Disk → Result (ℕ × (Inode × Disk))
addr_slot ip k s =
    if ip.addrs k == 0
    then (balloc s >>= λ (x, t). ok (x, (record ip { addrs = update ip.addrs k x }, t)))
    else ok (ip.addrs k, (ip, s))

-- The same for entry `j` of the indirect block `b`.
pub indirect_slot : ℕ → ℕ → Disk → Result (ℕ × Disk)
indirect_slot b j s =
    if load32 (s.bytes b) (4 * j) == 0
    then (balloc s >>= λ (x, t). ok (x, put_block b (store32 (t.bytes b) (4 * j) x) t))
    else ok (load32 (s.bytes b) (4 * j), s)

-- bmap: the address of block `bn` of the inode.
pub bmap : Inode → ℕ → Disk → Result (ℕ × (Inode × Disk))
bmap ip bn s =
    if ltb bn ndirect
    then addr_slot ip bn s
    else if ltb (bn - ndirect) nindirect
    then (addr_slot ip ndirect s >>= λ (b, (ip1, s1)).
        indirect_slot b (bn - ndirect) s1 >>= λ (x, s2). ok (x, (ip1, s2)))
    else panics s

-- Shorts in memory.
abbrev pub load16 : Mem → ℕ → ℕ
load16 m a = m a + 256 * m (a + 1)

abbrev pub store16 : Mem → ℕ → ℕ → Mem
store16 m a w = update (update m a (w % 256)) (a + 1) (w / 256 % 256)

-- The `k` words of `addrs` from index `i` on, at address `a` of `m`.
pub store_addrs : ℕ → ℕ → (ℕ → ℕ) → ℕ → Mem → Mem
store_addrs zero i f a m = m
store_addrs (suc k) i f a m = store_addrs k (i + 1) f a (store32 m (a + 4 * i) (f i))

-- IPB and IBLOCK
abbrev pub ipb : ℕ
ipb = bsize / 64

abbrev pub iblock : Superblock → ℕ → ℕ
iblock sb i = i / ipb + sb.inodestart

-- The `struct dinode` of an inode, at address `a`.
pub store_dinode : Inode → ℕ → Mem → Mem
store_dinode ip a m = store_addrs (ndirect + 1) 0 ip.addrs (a + 12) (
    store32
      (store16 (store16 (store16 (store16 m a ip.type) (a + 2) ip.major) (a + 4) ip.minor) (a + 6)
        ip.nlink)
      (a + 8) ip.size)

pub iupdate : Inode → Disk → Disk
iupdate ip s =
    let b = iblock s.sb ip.inum in put_block b (store_dinode ip (ip.inum % ipb * 64) (s.bytes b)) s

-- What ilock reads from the disk, in an inode that is not valid.
pub load_dinode : Mem → ℕ → Inode → Inode
load_dinode m a ip = record ip {
  type = load16 m a;
  major = load16 m (a + 2);
  minor = load16 m (a + 4);
  nlink = load16 m (a + 6);
  size = load32 m (a + 8);
  addrs = λ i. load32 m (a + 12 + 4 * i);
  valid = true;
}

-- The loop of itrunc over `k` direct blocks from `i` on.
pub free_direct : ℕ → ℕ → Inode → Disk → Result (Inode × Disk)
free_direct zero i ip s = ok (ip, s)
free_direct (suc k) i ip s =
    if ip.addrs i == 0
    then free_direct k (i + 1) ip s
    else bfree (ip.addrs i) s >>= λ t.
        free_direct k (i + 1) (record ip { addrs = update ip.addrs i 0 }) t

-- The loop over `k` entries from `j` on of the indirect block `b`.
pub free_indirect : ℕ → ℕ → ℕ → Disk → Result Disk
free_indirect zero j b s = ok s
free_indirect (suc k) j b s =
    if load32 (s.bytes b) (4 * j) == 0
    then free_indirect k (j + 1) b s
    else bfree (load32 (s.bytes b) (4 * j)) s >>= λ t. free_indirect k (j + 1) b t

pub itrunc : Inode → Disk → Result (Inode × Disk)
itrunc ip s = free_direct ndirect 0 ip s >>= λ (ip1, s1).
    (if ip1.addrs ndirect == 0
      then ok (ip1, s1)
      else free_indirect nindirect 0 (ip1.addrs ndirect) s1 >>= λ s2.
          bfree (ip1.addrs ndirect) s2 >>= λ s3.
          ok (record ip1 { addrs = update ip1.addrs ndirect 0 }, s3))
    >>= λ (ip2, s4). let ip3 : Inode = record ip2 { size = 0 } in ok (ip3, iupdate ip3 s4)

-- `struct stat` and stati
pub record Stat : Type 0 where
  pub type : ℕ
  pub dev : ℕ
  pub ino : ℕ
  pub nlink : ℕ
  pub size : ℕ

pub stati : Inode → Stat
stati ip = record { dev = ip.dev; ino = ip.inum; type = ip.type; nlink = ip.nlink; size = ip.size }

-- The `k` bytes of a block from `a` on, and bytes put there.
abbrev pub slice : ℕ → ℕ → Mem → List ℕ
slice zero a m = []
slice (suc k) a m = m a ∷ slice k (a + 1) m

abbrev pub put_bytes : ℕ → List ℕ → Mem → Mem
put_bytes a [] m = m
put_bytes a (x ∷ xs) m = put_bytes (a + 1) xs (update m a x)

-- `min(n - tot, BSIZE - off%BSIZE)`, with `left` for `n - tot`
abbrev pub piece : ℕ → ℕ → ℕ
piece left off = if ltb left (bsize - off % bsize) then left else bsize - off % bsize

-- The loop of readi with fuel, for `left` bytes from `off` on: the bytes read.
pub read_from : ℕ → ℕ → ℕ → Inode → Disk → Result (List ℕ × (Inode × Disk))
read_from zero left off ip s = ok ([], (ip, s))
read_from (suc fuel) left off ip s =
    if left == 0
    then ok ([], (ip, s))
    else bmap ip (off / bsize) s >>= λ (b, (ip1, s1)).
        let m = piece left off in
        read_from fuel (left - m) (off + m) ip1 s1 >>= λ (xs, (ip2, s2)).
        ok (slice m (off % bsize) (s1.bytes b) ++ xs, (ip2, s2))

-- The loop of writei with fuel, for the bytes `src` from `off` on: the offset behind them.
pub write_from : ℕ → List ℕ → ℕ → Inode → Disk → Result (ℕ × (Inode × Disk))
write_from zero src off ip s = ok (off, (ip, s))
write_from (suc fuel) [] off ip s = ok (off, (ip, s))
write_from (suc fuel) (x ∷ xs) off ip s = bmap ip (off / bsize) s >>= λ (b, (ip1, s1)).
    let m = piece (length (x ∷ xs)) off in
    write_from fuel (drop m (x ∷ xs)) (off + m) ip1
      (put_block b (put_bytes (off % bsize) (take m (x ∷ xs)) (s1.bytes b)) s1)

-- What readi and writei do: the function of a device, -1, or the bytes and the state.
pub data Read : Type 0 where
  device_read : (major : ℕ) → Read
  read_failed : Read
  read_bytes : List ℕ → Inode → Disk → Read
  read_panics : Disk → Read

pub data Write : Type 0 where
  device_write : (major : ℕ) → Write
  write_failed : Write
  written : (n : ℕ) → Inode → Disk → Write
  write_panics : Disk → Write

-- Whether a device has the function: `major` is a number of a device, and its entry is set.
abbrev pub has_device : (ℕ → Bool) → ℕ → Bool
has_device entry major = ltb major ndev && entry major

abbrev pub read_end : Result (List ℕ × (Inode × Disk)) → Read
read_end (ok (xs, (ip, s))) = read_bytes xs ip s
read_end (panics s) = read_panics s

-- readi of `n` bytes at `off`.
pub readi : (ℕ → Bool) → Inode → ℕ → ℕ → Disk → Read
readi entry ip off n s =
    if ip.type == t_dev
    then (if has_device entry ip.major then device_read ip.major else read_failed)
    else if ltb ip.size off || ltb ((off + n) % word) off
    then read_failed
    else let n1 = if ltb ip.size ((off + n) % word) then ip.size - off else n in
      read_end (read_from n1 n1 off ip s)

abbrev pub write_end : ℕ → Result (ℕ × (Inode × Disk)) → Write
write_end n (ok (off, (ip, s))) =
    let grown : Inode = record ip { size = off } in
    if ltb 0 n && ltb ip.size off then written n grown (iupdate grown s) else written n ip s
write_end n (panics s) = write_panics s

-- writei of the bytes `src` at `off`.
pub writei : (ℕ → Bool) → Inode → List ℕ → ℕ → Disk → Write
writei entry ip src off s =
    let n = length src in
    if ip.type == t_dev
    then (if has_device entry ip.major then device_write ip.major else write_failed)
    else if ltb ip.size off || ltb ((off + n) % word) off
    then write_failed
    else if ltb (maxfile * bsize) ((off + n) % word)
    then write_failed
    else write_end n (write_from n src off ip s)
