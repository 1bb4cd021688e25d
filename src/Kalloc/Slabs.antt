-- ===== src/Kalloc/Slabs.antt =====
-- How a page is cut into slabs.
use yonix.Base.{
  ℕ, zero, suc, ◌+◌, ◌*◌, ◌≤◌, ◌≡◌, refl, subst, true, false, List, [], ◌∷◌, arith, ltb,
}
use yonix.Kalloc.{pgsize, slabsize, Memory, kalloc, free_slab, carve, slabinit}

-- Each slab of the list lies in the page at `start`, or is one of `old`.
abbrev pub Cut : ℕ → List ℕ → List ℕ → ℕ → Type 0
Cut start old l zero = l ≡ old
Cut start old [] (suc k) = ⊥
Cut start old (v ∷ l) (suc k) = (v ≡ start + slabsize * k) × Cut start old l k

carve_lem :
    (fuel start k j : ℕ) (old : List ℕ) (m : Memory)
    → k ≤ fuel
    → j + k ≡ 127
    → Cut start old m.slab.freelist j
    → Cut start old (carve fuel start (start + slabsize * j) m).slab.freelist 127
unfolding carve free_slab
carve_lem zero start k j old m le e c =
    let all : j ≡ 127 = omega (arith, le, e) in subst (Cut start old m.slab.freelist) all c
carve_lem (suc fuel) start zero j old m le e c =
    let all : j ≡ 127 = omega (arith, e) in
    let stop : ltb (start + slabsize * j + slabsize) (start + pgsize) ≡ false =
      ground (arith, all) in
    rw stop (subst (Cut start old m.slab.freelist) all c)
carve_lem (suc fuel) start (suc k) j old m le e c =
    let more : ltb (start + slabsize * j + slabsize) (start + pgsize) ≡ true = ground (arith, e) in
    let next : start + slabsize * suc j ≡ start + slabsize * j + slabsize = omega arith in
    let ih =
      carve_lem fuel start k (suc j) old (free_slab (start + slabsize * j) m) (omega (arith, le))
        (omega (arith, e)) (refl, c) in
    rw more (
      subst
        (λ p.
          Cut start old (carve fuel start p (free_slab (start + slabsize * j) m)).slab.freelist 127)
        next ih)

-- slabinit cuts the page that kalloc gives, at any address, into 127 slabs of 32 bytes, which it puts
-- in front of the free slabs, the last one first. (A page has room for 128: its last 32 bytes are
-- never used.)
pub slabinit-Cut :
    (page_out : Memory → Memory) (m : Memory)
    → let (start, m1) = kalloc page_out m in
      Cut start m1.slab.freelist (slabinit page_out m).slab.freelist 127
unfolding slabinit
slabinit-Cut page_out m =
    let (start, m1) = kalloc page_out m in
    let first : start + slabsize * 0 ≡ start = omega arith in
    subst (λ p. Cut start m1.slab.freelist (carve 128 start p m1).slab.freelist 127) first
      (carve_lem 128 start 127 0 m1.slab.freelist m1 (omega arith) (omega arith) refl)
