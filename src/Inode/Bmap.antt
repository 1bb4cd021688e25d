-- ===== src/Inode/Bmap.antt =====
-- bmap: it gives the block of the file, which it makes if it is not there.
use yonix.Base.{
  ℕ, ◌+◌, ◌-◌, ◌*◌, ◌/◌, ◌≤◌, ◌<◌, ◌≡◌, refl, sym, ap, ◌∙◌, subst, ◌≢◌, Bool, true, false, arith,
  dec_lt, update, ltb, ◌==◌, if◌then◌else◌,
}
use yonix.Words.{load32, store32}
use yonix.Fs.{Disk, Result, ok, panics, ◌>>=◌, put_block, balloc, maxfile}
use yonix.Fs.Bitmap.{IsFull}
use yonix.Fs.Balloc.{Balloc, balloc-Balloc}
use yonix.Inode.{Inode, addr_slot, indirect_slot, bmap}
use yonix.Inode.Slots.{owned, WellFormed, owned_direct, owned_indirect}
use yonix.Inode.Grow.{not_zero, slot-Grown, listed-Grown}
use yonix.Inode.Content.{index, byte_at, Holds, grown-Holds}

pub Holds-refl : (ip : Inode) (s : Disk) → WellFormed ip s → Holds ip s (byte_at ip s) ip s
Holds-refl ip s w = record {
  rest = refl;
  same_sb = refl;
  well = w;
  content = λ o lt. refl;
  others = λ b u ne. (refl, u, ne);
}

pub Holds-trans :
    (ip : Inode) (s : Disk) (f : ℕ → ℕ) (ip1 : Inode) (s1 : Disk) (g : ℕ → ℕ) (ip2 : Inode)
    (s2 : Disk)
    → Holds ip s f ip1 s1
    → Holds ip1 s1 g ip2 s2
    → Holds ip s g ip2 s2
Holds-trans ip s f ip1 s1 g ip2 s2 p q = record {
  rest = q.rest ∙ ap (λ (i : Inode). record i { addrs = ip2.addrs }) p.rest;
  same_sb = q.same_sb ∙ p.same_sb;
  well = q.well;
  content = q.content;
  others = λ b u ne.
      let (e, u1, ne1) = p.others b u ne in
      let (f, u2, ne2) = q.others b u1 ne1 in (f ∙ e, u2, ne2);
}

pub Holds-as :
    (ip : Inode) (s : Disk) (f g : ℕ → ℕ) (ip' : Inode) (t : Disk)
    → ((o : ℕ) → o / 512 < 140 → f o ≡ g o)
    → Holds ip s f ip' t
    → Holds ip s g ip' t
Holds-as ip s f g ip' t e h = record {
  rest = h.rest;
  same_sb = h.same_sb;
  well = h.well;
  content = λ o lt. h.content o lt ∙ e o lt;
  others = h.others;
}

-- What a slot of the inode gives.
abbrev pub Slot : Inode → ℕ → Disk → Result (ℕ × (Inode × Disk)) → Type 0
Slot ip k s (ok (x, (ip', t))) = Holds ip s (byte_at ip s) ip' t × (ip'.addrs k ≡ x) × (x ≢ 0)
Slot ip k s (panics t) = IsFull t

got-Slot :
    (ip : Inode) (k : ℕ) (s : Disk)
    → WellFormed ip s
    → k ≤ 12
    → ip.addrs k ≡ 0
    → (r : Result (ℕ × Disk)) → Balloc s r
    → Slot ip k s (r >>= λ (x, t). ok (x, (record ip { addrs = update ip.addrs k x }, t)))
got-Slot ip k s w lt e (panics t) (h, full) = subst IsFull (sym h) full
got-Slot ip k s w lt e (ok (x, t)) a = (
  grown-Holds ip s k x _ t w (omega (arith, lt)) (slot-Grown ip s w x t a k lt e),
  written,
  not_zero s x w.map_ok a.was_free,
)
  where
    written : update ip.addrs k x k ≡ x
    written = ground arith

addr_slot-Slot :
    (ip : Inode) (k : ℕ) (s : Disk) → WellFormed ip s → k ≤ 12 → Slot ip k s (addr_slot ip k s)
unfolding addr_slot
addr_slot-Slot ip k s w lt = by_test (ip.addrs k == 0) refl
  where
    by_test :
        (z : Bool)
        → ip.addrs k == 0 ≡ z
        → Slot ip k s (
            if z
            then (balloc s >>= λ (x, t). ok (x, (record ip { addrs = update ip.addrs k x }, t)))
            else ok (ip.addrs k, (ip, s)))
    by_test true e = got-Slot ip k s w lt (ground (arith, e)) (balloc s) (balloc-Balloc s w.map_ok)
    by_test false e = (Holds-refl ip s w, refl, ground (arith, e))

-- What bmap gives: the address of the block, or a panic with a full disk.
abbrev pub Mapped : Inode → ℕ → Disk → Result (ℕ × (Inode × Disk)) → Type 0
Mapped ip bn s (ok (x, (ip', t))) =
    Holds ip s (byte_at ip s) ip' t × (owned ip' t (index bn) ≡ x) × (x ≢ 0)
Mapped ip bn s (panics t) = IsFull t

got_listed :
    (ip : Inode) (j : ℕ) (s : Disk)
    → WellFormed ip s
    → j < 128
    → ip.addrs 12 ≢ 0
    → load32 (s.bytes (ip.addrs 12)) (4 * j) ≡ 0
    → (r : Result (ℕ × Disk)) → Balloc s r
    → Mapped ip (j + 12) s (
        r
        >>= (λ (x, t).
            ok (x, put_block (ip.addrs 12) (store32 (t.bytes (ip.addrs 12)) (4 * j) x) t))
        >>= λ (x, t). ok (x, (ip, t)))
got_listed ip j s w lt have e (panics t) (h, full) = subst IsFull (sym h) full
got_listed ip j s w lt have e (ok (x, t)) a =
    let g = listed-Grown ip s w x t a j have e in
    (
      grown-Holds ip s (j + 13) x ip _ w (omega (arith, lt)) g,
      ap (owned ip (put_block (ip.addrs 12) (store32 (t.bytes (ip.addrs 12)) (4 * j) x) t))
            (at_index j)
          ∙ g.owned_now (j + 13) (omega (arith, lt))
          ∙ if_same (j + 13) x _,
      not_zero s x w.map_ok a.was_free,
    )
  where
    at_index : (j : ℕ) → index (j + 12) ≡ j + 13
    at_index j = ground arith

    if_same : (n x y : ℕ) → (if n == n then x else y) ≡ x
    if_same n x y = ground arith

indirect-Mapped :
    (ip : Inode) (j : ℕ) (s : Disk)
    → WellFormed ip s
    → j < 128
    → ip.addrs 12 ≢ 0
    → Mapped ip (j + 12) s (indirect_slot (ip.addrs 12) j s >>= λ (x, t). ok (x, (ip, t)))
unfolding indirect_slot
indirect-Mapped ip j s w lt have = by_test (load32 (s.bytes (ip.addrs 12)) (4 * j) == 0) refl
  where
    at_index : (j : ℕ) → index (j + 12) ≡ j + 13
    at_index j = ground arith

    by_test :
        (z : Bool)
        → load32 (s.bytes (ip.addrs 12)) (4 * j) == 0 ≡ z
        → Mapped ip (j + 12) s (
            (if z
              then (balloc s >>= λ (x, t).
                  ok (x, put_block (ip.addrs 12) (store32 (t.bytes (ip.addrs 12)) (4 * j) x) t))
              else ok (load32 (s.bytes (ip.addrs 12)) (4 * j), s))
            >>= λ (x, t). ok (x, (ip, t)))
    by_test true e =
        got_listed ip j s w lt have (ground (arith, e)) (balloc s) (balloc-Balloc s w.map_ok)
    by_test false e = (
      Holds-refl ip s w,
      ap (owned ip s) (at_index j)
          ∙ owned_indirect ip s (j + 13) (omega arith) have
          ∙ (let q : j + 13 - 13 ≡ j = omega arith in
              ap (λ i. load32 (s.bytes (ip.addrs 12)) (4 * i)) q),
      ground (arith, e),
    )

after-Slot :
    (ip : Inode) (j : ℕ) (s : Disk)
    → j < 128
    → (r : Result (ℕ × (Inode × Disk))) → Slot ip 12 s r
    → Mapped ip
        (j + 12)
        s
        (r >>= λ (b, (ip1, s1)). indirect_slot b j s1 >>= λ (x, s2). ok (x, (ip1, s2)))
after-Slot ip j s lt (panics t) full = full
after-Slot ip j s lt (ok (b, (ip1, s1))) (kept, e, nz) =
    subst (λ c. Mapped ip (j + 12) s (indirect_slot c j s1 >>= λ (x, s2). ok (x, (ip1, s2)))) e
      (further _ (indirect-Mapped ip1 j s1 kept.well lt (λ z. nz (sym e ∙ z))))
  where
    further : (r : Result (ℕ × (Inode × Disk))) → Mapped ip1 (j + 12) s1 r → Mapped ip (j + 12) s r
    further (ok (x, (ip2, s2))) (k2, o, n) = (
      Holds-as ip s _ _ ip2 s2 kept.content
          (Holds-trans ip s (byte_at ip s) ip1 s1 (byte_at ip1 s1) ip2 s2 kept k2),
      o,
      n,
    )
    further (panics t) full = full

-- bmap gives an address that is not 0, which is that of block `bn` of the file from then on. No byte of
-- the file changes, nor does a block in use that is not of this inode, and all stays well formed; it
-- panics only with a disk that has no free block.
pub bmap-Mapped :
    (ip : Inode) (bn : ℕ) (s : Disk)
    → WellFormed ip s
    → bn < maxfile
    → Mapped ip bn s (bmap ip bn s)
unfolding bmap
bmap-Mapped ip bn s w lt = elim (dec_lt bn 12) [
  | yes p ↦
      let e : ltb bn 12 ≡ true = ground (arith, p) in
      rw e (direct p (addr_slot ip bn s) (addr_slot-Slot ip bn s w (omega (arith, p))))
  | no p ↦
      let e : ltb bn 12 ≡ false = ground (arith, p) in
      let f : ltb (bn - 12) 128 ≡ true = ground (arith, lt, p) in
      let q : bn - 12 + 12 ≡ bn = omega (arith, p) in
      subst (λ n. Mapped ip n s (bmap ip bn s)) q
        (rw (e, f)
          (after-Slot ip (bn - 12) s (omega (arith, lt)) (addr_slot ip 12 s)
            (addr_slot-Slot ip 12 s w (omega arith))))
]
  where
    at_index : (n : ℕ) → n < 12 → index n ≡ n
    at_index n h = ground (arith, h)

    direct : bn < 12 → (r : Result (ℕ × (Inode × Disk))) → Slot ip bn s r → Mapped ip bn s r
    direct p (panics t) full = full
    direct p (ok (x, (ip1, s1))) (k, e, nz) =
        (k, ap (owned ip1 s1) (at_index bn p) ∙ owned_direct ip1 s1 bn (omega (arith, p)) ∙ e, nz)
