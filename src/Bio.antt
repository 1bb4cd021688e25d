-- ===== src/Bio.antt =====
-- bio.c and sleeplock.c: the buffer cache, a list of buffers in the order of their last use.
-- `order` lists the buffers from `head.next` on; `buf` gives what each holds, but for its data.
mod Tests
pub mod Unique
pub mod Calls
use yonix.Base.{
  ℕ, zero, suc, ◌+◌, ◌-◌, ◌*◌, ◌/◌, ◌%◌, ◌^◌, ◌≤◌, ◌<◌, min, bit_and, bit_or, bit_xor, ◌≡◌, refl,
  sym, ap, ap₂, ◌∙◌, fun_ext, subst, ◌≢◌, ◌↔◌, ◌⊎◌, inl, inr, Bool, true, false, not, ◌&&◌, ◌||◌,
  Option, none, some, List, [], ◌∷◌, ◌++◌, map, append-nil, append_assoc, arith, dec_lt, dec_le,
  ℕ_discrete, Mem, update, ltb, leb, ◌==◌, if◌then◌else◌, ltb→lt, lt→ltb, le→ltb, ==_refl, ==_iff,
  Bool-cases, Option-cases, Nat-cases, length, get_elem?, get_or, set, take, drop, replicate, All,
  length-append, length-set, get_or-set_self, get_or-set_ne, length-replicate,
}

abbrev pub nbuf : ℕ
nbuf = 30

-- A `dev` of -1.
abbrev pub no_dev : ℕ
no_dev = 2 ^ 32 - 1

-- `struct sleeplock`
pub record SleepLock : Type 0 where
  pub locked : Bool
  pub pid : ℕ

abbrev pub initsleeplock : SleepLock
initsleeplock = record { locked = false; pid = 0 }

-- One pass of the loop of acquiresleep by the process `pid`; `none` means that it sleeps.
abbrev pub acquiresleep : ℕ → SleepLock → Option SleepLock
acquiresleep pid lk = if lk.locked then none else some (record { locked = true; pid = pid })

-- releasesleep, which also wakes the sleepers.
abbrev pub releasesleep : SleepLock → SleepLock
releasesleep lk = record { locked = false; pid = 0 }

abbrev pub holdingsleep : SleepLock → Bool
holdingsleep lk = lk.locked

-- `struct buf`
pub record Buf : Type 0 where
  pub valid : Bool
  pub dirty : Bool
  pub dev : ℕ
  pub blockno : ℕ
  pub lock : SleepLock
  pub refcnt : ℕ

pub record Cache : Type 0 where
  pub buf : ℕ → Buf
  pub order : List ℕ

pub data Result {ℓ} (A : Type ℓ) : Type ℓ where
  ok : A → Result A
  panics : Result A

-- The loop of binit: each buffer in turn is put behind the head.
pub push_all : ℕ → ℕ → List ℕ → List ℕ
push_all zero b l = l
push_all (suc k) b l = push_all k (b + 1) (b ∷ l)

-- binit, on buffers that are zero but for what it sets.
pub binit : Cache
unfolding push_all
binit = record {
  buf = λ b. record {
    valid = false;
    dirty = false;
    dev = no_dev;
    blockno = 0;
    lock = initsleeplock;
    refcnt = 0;
  };
  order = push_all nbuf 0 [];
}

-- The first buffer of a list that has a test.
pub find_buf : (ℕ → Bool) → List ℕ → Option ℕ
find_buf t [] = none
find_buf t (b ∷ l) = let rest = find_buf t l in if t b then some b else rest

-- The list from its end on.
abbrev pub backwards : List ℕ → List ℕ
backwards [] = []
backwards (b ∷ l) = backwards l ++ b ∷ []

-- What bget does: it has the buffer, it sleeps on the buffer's lock, or it panics.
pub data Got : Type 0 where
  got : (b : ℕ) → Cache → Got
  waits : (b : ℕ) → Cache → Got
  no_buffers : Got

-- `acquiresleep(&b->lock); return b;`
abbrev pub lock_buf : ℕ → ℕ → Cache → Got
lock_buf pid b s = elim (acquiresleep pid (s.buf b).lock) [
  | none ↦ waits b s
  | some lk ↦ got b (record s { buf = update s.buf b (record (s.buf b) { lock = lk }) })
]

abbrev pub is_block : (ℕ → Buf) → ℕ → ℕ → ℕ → Bool
is_block f dev blockno b = (f b).dev == dev && (f b).blockno == blockno

abbrev pub is_spare : (ℕ → Buf) → ℕ → Bool
is_spare f b = (f b).refcnt == 0 && not (f b).dirty

-- The buffer made one of another block.
abbrev pub recycle : ℕ → ℕ → ℕ → Cache → Cache
recycle dev blockno b s = record s {
  buf =
      update s.buf b (record (s.buf b) {
        dev = dev;
        blockno = blockno;
        valid = false;
        dirty = false;
        refcnt = 1;
      });
}

abbrev pub refer : ℕ → Cache → Cache
refer b s = record s {
  buf = update s.buf b (record (s.buf b) { refcnt = ((s.buf b).refcnt + 1) % 2 ^ 32 });
}

-- bget by the process `pid`.
pub bget : ℕ → ℕ → ℕ → Cache → Got
unfolding find_buf
bget pid dev blockno s = elim (find_buf (is_block s.buf dev blockno) s.order) [
  | some b ↦ lock_buf pid b (refer b s)
  | none ↦ elim (find_buf (is_spare s.buf) (backwards s.order)) [
    | some b ↦ lock_buf pid b (recycle dev blockno b s)
    | none ↦ no_buffers
  ]
]

-- bwrite, with the driver's iderw.
pub bwrite : (ℕ → Cache → Cache) → ℕ → Cache → Result Cache
bwrite iderw b s =
    if not (holdingsleep (s.buf b).lock)
    then panics
    else ok (iderw b (record s { buf = update s.buf b (record (s.buf b) { dirty = true }) }))

-- The list without `b`.
abbrev pub unlink : ℕ → List ℕ → List ℕ
unlink b [] = []
unlink b (c ∷ l) = if c == b then l else c ∷ unlink b l

pub brelse : ℕ → Cache → Result Cache
brelse b s =
    let f = s.buf b in
    let less : Buf = record f {
      lock = releasesleep f.lock;
      refcnt = (f.refcnt + 2 ^ 32 - 1) % 2 ^ 32;
    } in
    if not (holdingsleep f.lock)
    then panics
    else ok (record {
      buf = update s.buf b less;
      order = if less.refcnt == 0 then b ∷ unlink b s.order else s.order;
    })
