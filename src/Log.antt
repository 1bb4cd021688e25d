-- ===== src/Log.antt =====
-- log.c: the write-ahead log of the file system.
-- A block is the list of its 32-bit words. `Store` is what log.c sees of the buffer cache and the
-- disk: `cached b` is what `bread` gives for block `b`, and `writes` are the blocks that `bwrite`
-- has put on the disk since `base`, oldest first. `brelse` keeps both.
mod Tests
pub mod Replay
pub mod Install
pub mod Crash
pub mod Atomic
pub mod Admission
pub mod Overflow
pub mod Room
use yonix.Base.{
  ℕ, zero, suc, ◌+◌, ◌-◌, ◌*◌, ◌/◌, ◌%◌, ◌^◌, ◌≤◌, ◌<◌, min, bit_and, bit_or, bit_xor, ◌≡◌, refl,
  sym, ap, ap₂, ◌∙◌, fun_ext, subst, ◌≢◌, ◌↔◌, ◌⊎◌, inl, inr, Bool, true, false, not, ◌&&◌, ◌||◌,
  Option, none, some, List, [], ◌∷◌, ◌++◌, map, append-nil, append_assoc, arith, dec_lt, dec_le,
  ℕ_discrete, Mem, update, ltb, leb, ◌==◌, if◌then◌else◌, ltb→lt, lt→ltb, le→ltb, ==_refl, ==_iff,
  Bool-cases, Option-cases, Nat-cases, length, get_elem?, get_or, set, take, drop, replicate, All,
  length-append, length-set, get_or-set_self, get_or-set_ne, length-replicate,
}

abbrev pub Block : Type 0
Block = List ℕ

pub record Store : Type 0 where
  pub base : ℕ → Block
  pub writes : List (ℕ × Block)
  pub cached : ℕ → Block

-- The disk after some writes.
pub replay : List (ℕ × Block) → (ℕ → Block) → ℕ → Block
replay [] d = d
replay ((b, w) ∷ ws) d = replay ws (update d b w)

abbrev pub bread : Store → ℕ → Block
bread s b = s.cached b

-- The caller stores `w` in the buffer of block `b` and calls `bwrite`.
abbrev pub bwrite : Store → ℕ → Block → Store
bwrite s b w = record s { writes = s.writes ++ (b, w) ∷ []; cached = update s.cached b w }

abbrev pub logsize : ℕ
logsize = 30

abbrev pub maxopblocks : ℕ
maxopblocks = 10

-- `struct log`, with `n` and `block` of its header.
pub record Log : Type 0 where
  pub start : ℕ
  pub size : ℕ
  pub outstanding : ℕ
  pub committing : Bool
  pub dev : ℕ
  pub n : ℕ
  pub block : List ℕ

-- `block[0..n)`, over which the loops `for (tail = 0; tail < n; tail++)` run.
abbrev pub logged : Log → List ℕ
logged l = take l.n l.block

-- The loop of install_trans, from `tail` on.
pub install_from : ℕ → ℕ → List ℕ → Store → Store
install_from start tail [] s = s
install_from start tail (b ∷ bs) s =
    install_from start (tail + 1) bs (bwrite s b (bread s (start + tail + 1)))

pub install_trans : Log → Store → Store
unfolding install_from
install_trans l s = install_from l.start 0 (logged l) s

-- The loop of write_log, from `tail` on.
pub write_log_from : ℕ → ℕ → List ℕ → Store → Store
write_log_from start tail [] s = s
write_log_from start tail (b ∷ bs) s =
    write_log_from start (tail + 1) bs (bwrite s (start + tail + 1) (bread s b))

pub write_log : Log → Store → Store
unfolding write_log_from
write_log l s = write_log_from l.start 0 (logged l) s

-- `hb->block[i] = log.lh.block[i]` from `i` on; `hb->block[i]` is word `i + 1`.
pub fill_head : ℕ → List ℕ → Block → Block
fill_head i [] w = w
fill_head i (b ∷ bs) w = fill_head (i + 1) bs (set w (i + 1) b)

abbrev pub head_block : Log → Block → Block
head_block l w = fill_head 0 (logged l) (set w 0 l.n)

pub write_head : Log → Store → Store
unfolding fill_head
write_head l s = bwrite s l.start (head_block l (bread s l.start))

-- `log.lh.block[i] = lh->block[i]` for `k` rounds from `i` on.
pub load_head : ℕ → ℕ → Block → List ℕ → List ℕ
load_head zero i w bs = bs
load_head (suc k) i w bs = load_head k (i + 1) w (set bs i (get_or w (i + 1) 0))

pub read_head : Log → Store → Log
unfolding load_head
read_head l s =
    let w = bread s l.start in
    record l { n = get_or w 0 0; block = load_head (get_or w 0 0) 0 w l.block }

pub recover_from_log : Log → Store → Log × Store
unfolding read_head install_trans write_head
recover_from_log l s =
    let l1 = read_head l s in
    let s1 = install_trans l1 s in let l2 = record l1 { n = 0 } in (l2, write_head l2 s1)

pub commit : Log → Store → Log × Store
unfolding write_log write_head install_trans
commit l s =
    let s1 = install_trans l (write_head l (write_log l s)) in
    let l1 = record l { n = 0 } in if ltb 0 l.n then (l1, write_head l1 s1) else (l, s)

-- What begin_op does when it is called or woken: it sleeps on the log, or it is admitted.
pub data Admit : Type 0 where
  waits : Admit
  admitted : Log → Admit

pub begin_op : Log → Admit
begin_op l =
    if l.committing
    then waits
    else if ltb logsize (l.n + (l.outstanding + 1) * maxopblocks)
    then waits
    else admitted (record l { outstanding = l.outstanding + 1 })

-- The result of end_op and log_write; every end_op that returns wakes those that wait for the log.
pub data Result {ℓ} (A : Type ℓ) : Type ℓ where
  ok : A → Result A
  panics : Result A

-- `outstanding` is at least 1: each end_op follows a begin_op.
pub end_op : Log → Store → Result (Log × Store)
unfolding commit
end_op l s =
    let l1 = record l { outstanding = l.outstanding - 1 } in
    let (l2, s2) = commit (record l1 { committing = true }) s in
    if l.committing
    then panics
    else if l1.outstanding == 0
    then ok (record l2 { committing = false }, s2)
    else ok (l1, s)

-- The index of the first of `bs` that is `b`, counted from `i`, or the count of them all.
pub find_block : ℕ → ℕ → List ℕ → ℕ
find_block b i [] = i
find_block b i (c ∷ bs) = let rest = find_block b (i + 1) bs in if c == b then i else rest

-- The buffer of block `b` becomes dirty besides, so it stays in the cache.
pub log_write : Log → ℕ → Result Log
unfolding find_block
log_write l b =
    let i = find_block b 0 (logged l) in
    if leb logsize l.n || leb (l.size - 1) l.n
    then panics
    else if ltb l.outstanding 1
    then panics
    else ok (record l { block = set l.block i b; n = if i == l.n then l.n + 1 else l.n })

abbrev pub and_then : Result Log → (Log → Result Log) → Result Log
and_then panics f = panics
and_then (ok l) f = f l

-- The calls of log_write for the blocks of a list, one after the other.
pub log_all : Log → List ℕ → Result Log
log_all l [] = ok l
log_all l (b ∷ bs) = and_then (log_write l b) (λ l'. log_all l' bs)

-- A function of another file, with the calls of log_write that it makes: it ends with a result, or one
-- of those calls panics.
pub data Call {ℓ} (A : Type ℓ) : Type ℓ where
  returns : A → Log → Call A
  log_panics : List ℕ → Call A

abbrev pub call_end {ℓ} : {A : Type ℓ} → A → List ℕ → Result Log → Call A
call_end a bs (ok l) = returns a l
call_end a bs panics = log_panics bs

-- The function ends with `a`, and has called log_write for `bs`.
abbrev pub with_log {ℓ} : {A : Type ℓ} → A → List ℕ → Log → Call A
with_log a bs l = call_end a bs (log_all l bs)

-- initlog, given the superblock's `logstart` and `nlog`.
pub initlog : Log → ℕ → ℕ → ℕ → Store → Log × Store
unfolding recover_from_log
initlog l dev logstart nlog s =
    recover_from_log (record l { start = logstart; size = nlog; dev = dev }) s
