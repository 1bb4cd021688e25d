-- ===== src/Icache.antt =====
-- fs.c: the table of inodes in memory: iinit, iget, idup, ilock, iunlock, iput, and ialloc.
-- An inode is its index in the table; its lock is that of Bio. A reference is given back only by a
-- caller that has one, so iput subtracts from a count that is not 0.
pub mod Unique
pub mod Get
pub mod Ialloc
mod Tests
use yonix.Base.{
  ℕ, zero, suc, ◌+◌, ◌-◌, ◌*◌, ◌/◌, ◌%◌, ◌^◌, ◌≤◌, ◌<◌, min, bit_and, bit_or, bit_xor, ◌≡◌, refl,
  sym, ap, ap₂, ◌∙◌, fun_ext, subst, ◌≢◌, ◌↔◌, ◌⊎◌, inl, inr, Bool, true, false, not, ◌&&◌, ◌||◌,
  Option, none, some, List, [], ◌∷◌, ◌++◌, map, append-nil, append_assoc, arith, dec_lt, dec_le,
  ℕ_discrete, Mem, update, ltb, leb, ◌==◌, if◌then◌else◌, ltb→lt, lt→ltb, le→ltb, ==_refl, ==_iff,
  Bool-cases, Option-cases, Nat-cases, length, get_elem?, get_or, set, take, drop, replicate, All,
  length-append, length-set, get_or-set_self, get_or-set_ne, length-replicate,
}
use yonix.Bio.{initsleeplock, acquiresleep, holdingsleep, releasesleep}
use yonix.Fs.{readsb, Disk, Result, ok, panics, ◌>>=◌, put_block}
use yonix.Inode.{load_dinode, Inode, iblock, ipb, load16, store16, itrunc, iupdate}

abbrev pub ninode : ℕ
ninode = 50

abbrev pub Table : Type 0
Table = ℕ → Inode

-- `ip->ref > 0 && ip->dev == dev && ip->inum == inum`
abbrev pub is_inode : ℕ → ℕ → Inode → Bool
is_inode dev inum ip = ltb 0 ip.ref && (ip.dev == dev && ip.inum == inum)

-- `if (empty == 0 && ip->ref == 0) empty = ip;`
abbrev pub note_empty : Option ℕ → ℕ → Inode → Option ℕ
note_empty (some e) i ip = some e
note_empty none i ip = if ip.ref == 0 then some i else none

-- What the loop of iget finds: the inode, or else the first empty entry.
pub data Scanned : Type 0 where
  hit : ℕ → Scanned
  empty_at : ℕ → Scanned
  table_full : Scanned

abbrev pub scan_end : Option ℕ → Scanned
scan_end none = table_full
scan_end (some e) = empty_at e

-- The loop over `k` entries from `i` on.
pub scan_table : ℕ → ℕ → Option ℕ → ℕ → ℕ → Table → Scanned
scan_table zero i empty dev inum t = scan_end empty
scan_table (suc k) i empty dev inum t =
    let rest = scan_table k (i + 1) (note_empty empty i (t i)) dev inum t in
    if is_inode dev inum (t i) then hit i else rest

-- What iget gives: an entry and the table, or a panic.
pub data Got : Type 0 where
  got_inode : ℕ → Table → Got
  iget_panics : Got

abbrev pub iget_at : ℕ → ℕ → Table → Scanned → Got
iget_at dev inum t (hit i) = got_inode i (update t i (record (t i) { ref = (t i).ref + 1 }))
iget_at dev inum t (empty_at i) =
    got_inode i (update t i (record (t i) { dev = dev; inum = inum; ref = 1; valid = false }))
iget_at dev inum t table_full = iget_panics

pub iget : ℕ → ℕ → Table → Got
iget dev inum t = iget_at dev inum t (scan_table ninode 0 none dev inum t)

abbrev pub idup : ℕ → Table → Table
idup i t = update t i (record (t i) { ref = (t i).ref + 1 })

-- iunlock; `none` is its panic.
pub iunlock : ℕ → Table → Option Table
iunlock i t =
    if not (holdingsleep (t i).lock) || (t i).ref == 0
    then none
    else some (update t i (record (t i) { lock = releasesleep (t i).lock }))

-- What the last iput does with an inode to which no link is left.
pub reclaim : Inode → Disk → Result (Inode × Disk)
reclaim ip s = itrunc ip s >>= λ (ip1, s1).
    let ip2 : Inode = record ip1 { type = 0 } in ok (record ip2 { valid = false }, iupdate ip2 s1)

pub iput : ℕ → Table → Disk → Result (Table × Disk)
iput i t s =
    (if (t i).ref == 1 && ((t i).valid && (t i).nlink == 0) then reclaim (t i) s else ok (t i, s))
    >>= λ (ip, s1). ok (update t i (record ip { ref = ip.ref - 1 }), s1)

-- `memset(dip, 0, sizeof(*dip))`, and the type
abbrev pub clear_bytes : ℕ → ℕ → Mem → Mem
clear_bytes zero a m = m
clear_bytes (suc n) a m = clear_bytes n (a + 1) (update m a 0)

abbrev pub new_dinode : ℕ → ℕ → Mem → Mem
new_dinode type a m = store16 (clear_bytes 64 a m) a type

-- The loop of ialloc over `k` numbers from `inum` on: the number, or a panic.
pub ialloc_from : ℕ → ℕ → ℕ → Disk → Result (ℕ × Disk)
ialloc_from zero inum type s = panics s
ialloc_from (suc k) inum type s =
    let rest = ialloc_from k (inum + 1) type s in
    let b = iblock s.sb inum in
    let a = inum % ipb * 64 in
    if load16 (s.bytes b) a == 0
    then ok (inum, put_block b (new_dinode type a (s.bytes b)) s)
    else rest

-- What ialloc gives: an entry of the table, or a panic of its own or of iget.
pub data Alloc : Type 0 where
  allocated : ℕ → Table → Disk → Alloc
  no_free_inode : Disk → Alloc
  no_entry : Disk → Alloc

abbrev pub entered : Disk → Got → Alloc
entered s (got_inode i t) = allocated i t s
entered s iget_panics = no_entry s

abbrev pub ialloc_iget : ℕ → Table → Result (ℕ × Disk) → Alloc
ialloc_iget dev t (ok (inum, s)) = entered s (iget dev inum t)
ialloc_iget dev t (panics s) = no_free_inode s

-- ialloc on the device `dev`.
pub ialloc : ℕ → ℕ → Table → Disk → Alloc
ialloc dev type t s = ialloc_iget dev t (ialloc_from (s.sb.ninodes - 1) 1 type s)

-- iinit
pub iinit : Table → Disk → Table × Disk
iinit t s = ((λ i. if ltb i ninode then record (t i) { lock = initsleeplock } else t i), readsb s)

-- What ilock gives: a panic, a sleep on the lock, or the table.
pub data Locked : Type 0 where
  ilock_panics : Locked
  ilock_sleeps : Locked
  ilock_done : Table → Locked

abbrev pub ilock_fill : ℕ → Table → Disk → Inode → Locked
ilock_fill i t s ip =
    if ip.valid
    then ilock_done (update t i ip)
    else let ip1 = load_dinode (s.bytes (iblock s.sb ip.inum)) (ip.inum % ipb * 64) ip in
      if ip1.type == 0 then ilock_panics else ilock_done (update t i ip1)

-- ilock by the process `pid`, up to the sleep where another process holds the lock.
pub ilock : ℕ → ℕ → Table → Disk → Locked
ilock pid i t s = if (t i).ref == 0 then ilock_panics else elim (acquiresleep pid (t i).lock) [
  | none ↦ ilock_sleeps
  | some lk ↦ ilock_fill i t s (record (t i) { lock = lk })
]

pub iunlockput : ℕ → Table → Disk → Result (Table × Disk)
iunlockput i t s = elim (iunlock i t) [ none ↦ panics s | some t1 ↦ iput i t1 s ]
