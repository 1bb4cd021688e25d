-- ===== src/Kalloc.antt =====
-- kalloc.c: the pool of free pages, and the pool of slabs of 32 bytes that is carved from it.
-- A pool's list has the addresses of its free blocks; the `size` that each block is marked with is
-- read nowhere. `end` is the first address after the kernel.
mod Tests
pub mod Pages
pub mod Runs
pub mod Slabs
use yonix.Base.{
  ℕ, zero, suc, ◌+◌, ◌-◌, ◌*◌, ◌/◌, ◌%◌, ◌^◌, ◌≤◌, ◌<◌, min, bit_and, bit_or, bit_xor, ◌≡◌, refl,
  sym, ap, ap₂, ◌∙◌, fun_ext, subst, ◌≢◌, ◌↔◌, ◌⊎◌, inl, inr, Bool, true, false, not, ◌&&◌, ◌||◌,
  Option, none, some, List, [], ◌∷◌, ◌++◌, map, append-nil, append_assoc, arith, dec_lt, dec_le,
  ℕ_discrete, Mem, update, ltb, leb, ◌==◌, if◌then◌else◌, ltb→lt, lt→ltb, le→ltb, ==_refl, ==_iff,
  Bool-cases, Option-cases, Nat-cases, length, get_elem?, get_or, set, take, drop, replicate, All,
  length-append, length-set, get_or-set_self, get_or-set_ne, length-replicate,
}

abbrev pub pgsize : ℕ
pgsize = 4096

abbrev pub kernbase : ℕ
kernbase = 2 ^ 31

-- PHYSTOP
abbrev pub phystop : ℕ
phystop = 33554432

abbrev pub slabsize : ℕ
slabsize = 32

-- `kmem` or `slab`: the counter is a uint.
pub record Pool : Type 0 where
  pub nfreeblock : ℕ
  pub freelist : List ℕ

pub record Memory : Type 0 where
  pub kmem : Pool
  pub slab : Pool

pub data Result {ℓ} (A : Type ℓ) : Type ℓ where
  ok : A → Result A
  panics : Result A

-- A block put on the list of a pool, and the block taken off it; no block is 0.
abbrev pub push : ℕ → Pool → Pool
push v p = record { nfreeblock = (p.nfreeblock + 1) % 2 ^ 32; freelist = v ∷ p.freelist }

pub pop : Pool → ℕ × Pool
pop p = elim p.freelist [
  | [] ↦ (0, record p { nfreeblock = (p.nfreeblock + 2 ^ 32 - 1) % 2 ^ 32 })
  | v ∷ vs ↦ (v, record { nfreeblock = (p.nfreeblock + 2 ^ 32 - 1) % 2 ^ 32; freelist = vs })
]

-- `(uint)v % PGSIZE || v < end || V2P(v) >= PHYSTOP`, for an address `v` of 32 bits
abbrev pub is_bad : ℕ → ℕ → Bool
is_bad end v = not (v % pgsize == 0) || ltb v end || leb phystop ((v + 2 ^ 32 - kernbase) % 2 ^ 32)

pub kfree : ℕ → ℕ → Memory → Result Memory
kfree end v m = if is_bad end v then panics else ok (record m { kmem = push v m.kmem })

-- PGROUNDUP
abbrev pub page_up : ℕ → ℕ
page_up a = (a + pgsize - 1) / pgsize * pgsize

abbrev pub and_then {ℓ κ} : {A : Type ℓ} {B : Type κ} → Result A → (A → Result B) → Result B
and_then (ok a) k = k a
and_then panics k = panics

-- The loop of freerange from `p` on, for `k` pages.
pub free_pages : ℕ → ℕ → ℕ → Memory → Result Memory
free_pages end zero p m = ok m
free_pages end (suc k) p m = and_then (kfree end p m) (λ t. free_pages end k (p + pgsize) t)

-- freerange: the loop runs once for each page from PGROUNDUP(vstart) that begins below vend.
pub freerange : ℕ → ℕ → ℕ → Memory → Result Memory
unfolding free_pages kfree
freerange end vstart vend m =
    free_pages end ((vend - page_up vstart + pgsize - 1) / pgsize) (page_up vstart) m

-- kalloc, with the effect `page_out` of the swap on the memory; the page, or 0.
pub kalloc : (Memory → Memory) → Memory → ℕ × Memory
unfolding pop
kalloc page_out m =
    let m1 = if m.kmem.nfreeblock == 0 then page_out m else m in
    let (v, p) = pop m1.kmem in (v, record m1 { kmem = p })

pub free_slab : ℕ → Memory → Memory
free_slab v m = record m { slab = push v m.slab }

-- The loop of slabinit, `while (p + SLABSIZE < start + PGSIZE)`, with fuel.
pub carve : ℕ → ℕ → ℕ → Memory → Memory
unfolding free_slab
carve zero start p m = m
carve (suc fuel) start p m =
    let rest = carve fuel start (p + slabsize) (free_slab p m) in
    if ltb (p + slabsize) (start + pgsize) then rest else m

pub slabinit : (Memory → Memory) → Memory → Memory
unfolding kalloc carve
slabinit page_out m = let (start, m1) = kalloc page_out m in carve 128 start start m1

pub alloc_slab : (Memory → Memory) → Memory → ℕ × Memory
unfolding slabinit pop
alloc_slab page_out m =
    let m1 = if m.slab.nfreeblock == 0 then slabinit page_out m else m in
    let (v, p) = pop m1.slab in (v, record m1 { slab = p })
