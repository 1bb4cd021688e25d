-- ===== src/Log/Crash.antt =====
-- A commit that is cut off at any write, followed by the recovery of the next boot.
pub mod Head
use yonix.Base.{
  ℕ, zero, suc, ◌+◌, ◌-◌, ◌*◌, ◌/◌, ◌%◌, ◌^◌, ◌≤◌, ◌<◌, min, bit_and, bit_or, bit_xor, ◌≡◌, refl,
  sym, ap, ap₂, ◌∙◌, fun_ext, subst, ◌≢◌, ◌↔◌, ◌⊎◌, inl, inr, Bool, true, false, not, ◌&&◌, ◌||◌,
  Option, none, some, List, [], ◌∷◌, ◌++◌, map, append-nil, append_assoc, arith, dec_lt, dec_le,
  ℕ_discrete, Mem, update, ltb, leb, ◌==◌, if◌then◌else◌, ltb→lt, lt→ltb, le→ltb, ==_refl, ==_iff,
  Bool-cases, Option-cases, Nat-cases, length, get_elem?, get_or, set, take, drop, replicate, All,
  length-append, length-set, get_or-set_self, get_or-set_ne, length-replicate,
}
use yonix.Log.{
  Block, Store, Log, logged, bread, bwrite, replay, install_from, install_trans, write_log_from,
  write_log, fill_head, head_block, write_head, read_head, recover_from_log, commit,
}
use yonix.Log.Replay.{
  replay-append, take-append, mem, home_writes, log_writes, replay-home, replay-home_all,
  length-home, length-log, take-all, replay-log_outside, replay-log_at, mem_take,
}
use yonix.Log.Install.{Outside, Logged, install_from-writes, write_log_from-writes}
use Head.{HeadOf, HeadOf-head_block, read_head-HeadOf}

-- The store after a boot with disk `d`: nothing is cached, so `bread` reads the disk.
abbrev pub boot : (ℕ → Block) → Store
boot d = record { base = d; writes = []; cached = d }

abbrev pub disk : Store → ℕ → Block
disk s = replay s.writes s.base

-- The disk when the power fails after `k` of the writes.
abbrev pub crashed : ℕ → Store → ℕ → Block
crashed k s = replay (take k s.writes) s.base

-- The disk that the recovery of the next boot leaves.
abbrev pub recovered : Log → (ℕ → Block) → ℕ → Block
recovered l d = disk (recover_from_log l (boot d)).1

pub disk-bwrite :
    (s : Store) (b : ℕ) (w : Block) (x : ℕ)
    → disk (bwrite s b w) x ≡ (if b == x then w else disk s x)
unfolding replay
disk-bwrite s b w x = ap (λ f. f x) (replay-append s.writes ((b, w) ∷ []) s.base)

disk-install :
    (start : ℕ) (d new : ℕ → Block) (bs : List ℕ) (x : ℕ)
    → Logged start 0 new bs d
    → Outside start (length bs) bs
    → disk (install_from start 0 bs (boot d)) x ≡ (if mem x bs then new x else d x)
disk-install start d new bs x lg out =
    let (ws, base_eq, c) =
      install_from-writes start 0 (length bs) new bs (boot d) out (omega arith) lg in
    ap₂ (λ vs b. replay vs b x) ws base_eq ∙ replay-home_all new bs d x

finish :
    (l : Log) (d new : ℕ → Block) (x : ℕ)
    → Logged l.start 0 new (logged l) d
    → Outside l.start (length (logged l)) (logged l)
    → x ≢ l.start
    → disk (write_head (record l { n = 0 }) (install_trans l (boot d))) x
      ≡ (if mem x (logged l) then new x else d x)
unfolding install_trans write_head
finish l d new x lg out ne =
    disk-bwrite (install_from l.start 0 (logged l) (boot d)) l.start _ x
    ∙ skip (disk (install_from l.start 0 (logged l) (boot d)) x) _
    ∙ disk-install l.start d new (logged l) x lg out
  where
    skip : (u w : Block) → (if l.start == x then w else u) ≡ u
    skip u w = ground arith

start-read_head : (l : Log) (s : Store) → (read_head l s).start ≡ l.start
unfolding read_head
start-read_head l s = refl

finish_at :
    (l : Log) (start : ℕ) (d new : ℕ → Block) (bs : List ℕ) (x : ℕ)
    → l.start ≡ start
    → logged l ≡ bs
    → Logged start 0 new bs d
    → Outside start (length bs) bs
    → x ≢ start
    → disk (write_head (record l { n = 0 }) (install_trans l (boot d))) x
      ≡ (if mem x bs then new x else d x)
finish_at l start d new bs x e e' =
    subst (λ st. Logged st 0 new bs d → Outside st (length bs) bs → x ≢ st → Goal bs) e
      (subst (λ b. Logged l.start 0 new b d → Outside l.start (length b) b → x ≢ l.start → Goal b)
        e' (finish l d new x))
  where
    Goal : List ℕ → Type 0
    Goal b =
        disk (write_head (record l { n = 0 }) (install_trans l (boot d))) x
        ≡ (if mem x b then new x else d x)

recovered-eq :
    (l : Log) (d : ℕ → Block)
    → recovered l d
      ≡ disk (
          write_head
            (record (read_head l (boot d)) { n = 0 })
            (install_trans (read_head l (boot d)) (boot d)))
recovered-eq l d = unfold recover_from_log in refl

-- Recovery from a disk whose header lists `bs` copies the logged blocks home.
pub recovered_lem :
    (l : Log) (d new : ℕ → Block) (bs : List ℕ) (x : ℕ)
    → HeadOf bs (d l.start)
    → length bs ≤ length l.block
    → Logged l.start 0 new bs d
    → Outside l.start (length bs) bs
    → x ≢ l.start
    → recovered l d x ≡ (if mem x bs then new x else d x)
recovered_lem l d new bs x h room lg out ne =
    let (n_eq, bs_eq) = read_head-HeadOf l (boot d) bs h room in
    ap (λ f. f x) (recovered-eq l d)
    ∙ finish_at (read_head l (boot d)) l.start d new bs x (start-read_head l (boot d)) bs_eq lg out
        ne

-- What must hold when a transaction commits: the writes of `s` count from here; the disk's header
-- is empty; the logged blocks lie outside the log; the header block has room for them.
pub record Ready (l : Log) (s : Store) : Type 0 where
  pub fresh_writes : s.writes ≡ []
  pub some_blocks : 0 < l.n
  pub listed : l.n ≡ length (logged l)
  pub disk_head : get_or (s.base l.start) 0 0 ≡ 0
  pub outside : Outside l.start l.n (logged l)
  pub head_room : l.n < length (s.cached l.start)

pub commit-open :
    (l : Log) (s : Store)
    → 0 < l.n
    → (commit l s).1
      ≡ write_head (record l { n = 0 }) (install_trans l (write_head l (write_log l s)))
commit-open l s h = unfold commit in ground arith
