-- ===== src/Kalloc/Pages.antt =====
-- The pool of pages.
use yonix.Base.{
  Absent, Distinct, ℕ, ◌+◌, ◌-◌, ◌%◌, ◌^◌, ◌<◌, ◌≡◌, refl, ap, subst, Bool, true, false, List, [],
  ◌∷◌, arith, ◌==◌, if◌then◌else◌, length,
}
use yonix.Kalloc.{Pool, Memory, ok, panics, push, pop, is_bad, kfree, kalloc}

-- The counter of a pool is the length of its list, which has no block twice.
pub record Sound (p : Pool) : Type 0 where
  pub counted : p.nfreeblock ≡ length p.freelist
  pub small : p.nfreeblock < 2 ^ 32
  pub distinct : Distinct p.freelist

-- A page that is in no list is freed into a sound pool: the pool stays sound, and the next kalloc
-- gives that page and the pool as it was.
pub kalloc-kfree :
    (page_out : Memory → Memory) (end v : ℕ) (m : Memory) {t : Memory}
    → Sound m.kmem
    → m.kmem.nfreeblock + 1 < 2 ^ 32
    → Absent v m.kmem.freelist
    → kfree end v m ≡ ok t
    → Sound t.kmem × (kalloc page_out t ≡ (v, m))
unfolding kfree
kalloc-kfree page_out end v m {t} s room a e = by_test (is_bad end v) e
  where
    n1 : (m.kmem.nfreeblock + 1) % 2 ^ 32 ≡ m.kmem.nfreeblock + 1
    n1 = omega (arith, room)

    pushed : Sound (push v m.kmem)
    pushed = record {
      counted = omega (arith, n1, s.counted);
      small = omega (arith, room);
      distinct = (a, s.distinct);
    }

    given : kalloc page_out (record m { kmem = push v m.kmem }) ≡ (v, m)
    given =
        let nz : (m.kmem.nfreeblock + 1) % 2 ^ 32 == 0 ≡ false = ground (arith, n1) in
        let back : ((m.kmem.nfreeblock + 1) % 2 ^ 32 + 2 ^ 32 - 1) % 2 ^ 32 ≡ m.kmem.nfreeblock =
          omega (arith, n1) in
        unfold kalloc in
        rw nz (ap (λ n. (v, record m { kmem = record m.kmem { nfreeblock = n } })) back)

    by_test :
        (b : Bool)
        → (if b then panics else ok (record m { kmem = push v m.kmem })) ≡ ok t
        → Sound t.kmem × (kalloc page_out t ≡ (v, m))
    by_test true h = absurd (ground arith)
    by_test false h =
        let same : record m { kmem = push v m.kmem } ≡ t = ground arith in
        subst (λ (u : Memory). Sound u.kmem × (kalloc page_out u ≡ (v, m))) same (pushed, given)

-- What kalloc takes off the list `l` of free pages and leaves.
abbrev pub Given : Memory → ℕ × Memory → Type 0
Given m (v, t) =
    (m.kmem.freelist ≡ v ∷ t.kmem.freelist)
    × Absent v t.kmem.freelist
    × Sound t.kmem
    × (t.slab ≡ m.slab)

take_one :
    (page_out : Memory → Memory) (n : ℕ) (l : List ℕ) (slab : Pool)
    → Sound (record { nfreeblock = n; freelist = l })
    → 0 < n
    → Given
        (record { kmem = record { nfreeblock = n; freelist = l }; slab = slab })
        (kalloc page_out (record { kmem = record { nfreeblock = n; freelist = l }; slab = slab }))
unfolding kalloc
take_one page_out n [] slab s h = absurd (omega (arith, s.counted))
take_one page_out n (v ∷ vs) slab s h =
    let nz : n == 0 ≡ false = ground arith in
    let less : (n + 2 ^ 32 - 1) % 2 ^ 32 ≡ n - 1 = omega (arith, s.small) in
    rw nz (
      refl,
      s.distinct.0,
      record {
        counted = omega (arith, less, s.counted);
        small = omega (arith, less, s.small);
        distinct = s.distinct.1;
      },
      refl,
    )

-- While the pool counts a free page, kalloc of a sound pool takes one off the list, which is then
-- in the list no more, without swapping anything out, and the pool stays sound.
pub kalloc-Given :
    (page_out : Memory → Memory) (m : Memory)
    → Sound m.kmem
    → 0 < m.kmem.nfreeblock
    → Given m (kalloc page_out m)
kalloc-Given page_out m s h = take_one page_out m.kmem.nfreeblock m.kmem.freelist m.slab s h

-- A memory without a free page.
abbrev pub full : Pool → Memory
full slab = record { kmem = record { nfreeblock = 0; freelist = [] }; slab = slab }

-- When no page is free and page_out frees none, kalloc returns 0 and counts 2^32 - 1 free pages: the
-- counter wraps round, and the kalloc after that returns 0 without trying to swap anything out.
pub kalloc_wraps :
    (page_out : Memory → Memory) (slab : Pool)
    → page_out (full slab) ≡ full slab
    → (t : Memory) × (kalloc page_out (full slab) ≡ (0, t))
      × (t.kmem.nfreeblock ≡ 2 ^ 32 - 1)
      × ((kalloc page_out t).0 ≡ 0)
unfolding kalloc pop
kalloc_wraps page_out slab e = (
  record (full slab) { kmem = record { nfreeblock = 2 ^ 32 - 1; freelist = [] } },
  ap (λ (u : Memory). let (v, p) = pop u.kmem in (v, record u { kmem = p })) e,
  refl,
  refl,
)
