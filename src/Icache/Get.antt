-- ===== src/Icache/Get.antt =====
-- iget: which entry it gives, and that an inode stays in the table once.
use yonix.Base.{
  ℕ, ◌+◌, ◌<◌, ◌≡◌, refl, sym, ap, ◌∙◌, subst, ◌≢◌, inl, inr, Bool, true, false, ◌&&◌, none, arith,
  ℕ_discrete, update, ltb, ◌==◌, ==_refl,
}
use yonix.Inode.{Inode}
use yonix.Icache.{
  ninode, Table, is_inode, Scanned, hit, empty_at, table_full, scan_table, iget_at, iget,
}
use yonix.Icache.Unique.{Unique, Scan, scan_table-Scan, IsGot}

is_inode-fields :
    (dev inum : ℕ) (ip : Inode)
    → is_inode dev inum ip ≡ true
    → (0 < ip.ref) × (ip.dev ≡ dev) × (ip.inum ≡ inum)
is_inode-fields dev inum ip h = numbers ip.ref ip.dev ip.inum h
  where
    numbers :
        (r d n : ℕ) → (ltb 0 r && (d == dev && n == inum)) ≡ true → (0 < r) × (d ≡ dev) × (n ≡ inum)
    numbers r d n h = ground (arith, h)

fields-is_inode :
    (dev inum : ℕ) (ip : Inode)
    → 0 < ip.ref
    → dev ≡ ip.dev
    → inum ≡ ip.inum
    → is_inode dev inum ip ≡ true
fields-is_inode dev inum ip r d n = numbers ip.ref ip.dev ip.inum r d n
  where
    numbers : (r d n : ℕ) → 0 < r → dev ≡ d → inum ≡ n → (ltb 0 r && (d == dev && n == inum)) ≡ true
    numbers r d n a b c = ground (arith, a, b, c)

module _ (t : Table) (i : ℕ) (x : Inode) where
  abbrev t' : Table
  t' = update t i x

  pub at_entry : t' i ≡ x
  at_entry = rw (==_refl i) refl

  pub elsewhere : (j : ℕ) → i ≢ j → t' j ≡ t j
  elsewhere j ne = let e : i == j ≡ false = ground (arith, ne) in rw e refl

  -- Entry `i` stays the inode that it was.
  pub same-Unique :
      Unique t → x.dev ≡ (t i).dev → x.inum ≡ (t i).inum → (0 < x.ref → 0 < (t i).ref) → Unique t'
  same-Unique u d n r a b la lb ra rb ed en =
      u a b la lb (refs a ra) (refs b rb) (sym (devs a) ∙ ed ∙ devs b)
        (sym (inums a) ∙ en ∙ inums b)
    where
      devs : (j : ℕ) → (t' j).dev ≡ (t j).dev
      devs j = elim (ℕ_discrete i j) [
        | yes q ↦ subst (λ k. (t' k).dev ≡ (t k).dev) q (ap (λ (p : Inode). p.dev) at_entry ∙ d)
        | no q ↦ ap (λ (p : Inode). p.dev) (elsewhere j q)
      ]

      inums : (j : ℕ) → (t' j).inum ≡ (t j).inum
      inums j = elim (ℕ_discrete i j) [
        | yes q ↦ subst (λ k. (t' k).inum ≡ (t k).inum) q (ap (λ (p : Inode). p.inum) at_entry ∙ n)
        | no q ↦ ap (λ (p : Inode). p.inum) (elsewhere j q)
      ]

      refs : (j : ℕ) → 0 < (t' j).ref → 0 < (t j).ref
      refs j h = elim (ℕ_discrete i j) [
        | yes q ↦
            subst (λ k. 0 < (t k).ref) q
              (r
                (subst (λ (p : Inode). 0 < p.ref) at_entry (subst (λ k. 0 < (t' k).ref) (sym q) h)))
        | no q ↦ subst (λ (p : Inode). 0 < p.ref) (elsewhere j q) h
      ]

  -- Entry `i` becomes an inode that was not there.
  pub new-Unique :
      Unique t → ((j : ℕ) → j < ninode → is_inode x.dev x.inum (t j) ≡ false) → Unique t'
  new-Unique u absent a b la lb ra rb ed en = elim (ℕ_discrete i a) [
    | yes p ↦ elim (ℕ_discrete i b) [
      | yes q ↦ sym p ∙ q
      | no q ↦ absurd (
          clash b lb q (subst (λ (y : Inode). 0 < y.ref) (elsewhere b q) rb)
            (sym (here_dev a p) ∙ ed ∙ ap (λ (y : Inode). y.dev) (elsewhere b q))
            (sym (here_inum a p) ∙ en ∙ ap (λ (y : Inode). y.inum) (elsewhere b q)))
    ]
    | no p ↦ elim (ℕ_discrete i b) [
      | yes q ↦ absurd (
          clash a la p (subst (λ (y : Inode). 0 < y.ref) (elsewhere a p) ra)
            (sym (here_dev b q) ∙ sym ed ∙ ap (λ (y : Inode). y.dev) (elsewhere a p))
            (sym (here_inum b q) ∙ sym en ∙ ap (λ (y : Inode). y.inum) (elsewhere a p)))
      | no q ↦
          u a b la lb (subst (λ (y : Inode). 0 < y.ref) (elsewhere a p) ra)
            (subst (λ (y : Inode). 0 < y.ref) (elsewhere b q) rb)
            (sym (ap (λ (y : Inode). y.dev) (elsewhere a p))
              ∙ ed
              ∙ ap (λ (y : Inode). y.dev) (elsewhere b q))
            (sym (ap (λ (y : Inode). y.inum) (elsewhere a p))
              ∙ en
              ∙ ap (λ (y : Inode). y.inum) (elsewhere b q))
    ]
  ]
    where
      here_dev : (j : ℕ) → i ≡ j → (t' j).dev ≡ x.dev
      here_dev j q = subst (λ k. (t' k).dev ≡ x.dev) q (ap (λ (y : Inode). y.dev) at_entry)

      here_inum : (j : ℕ) → i ≡ j → (t' j).inum ≡ x.inum
      here_inum j q = subst (λ k. (t' k).inum ≡ x.inum) q (ap (λ (y : Inode). y.inum) at_entry)

      both : {b : Bool} → b ≡ false → b ≡ true → ⊥
      both h k = ground (arith, h, k)

      clash :
          (j : ℕ) → j < ninode → i ≢ j → 0 < (t j).ref → x.dev ≡ (t j).dev → x.inum ≡ (t j).inum → ⊥
      clash j lt ne r d n = both (absent j lt) (fields-is_inode x.dev x.inum (t j) r d n)

from-Scan :
    (dev inum : ℕ) (t : Table)
    → Unique t
    → (r : Scanned) → Scan ninode dev inum t r
    → IsGot dev inum t (iget_at dev inum t r)
from-Scan dev inum t u table_full h = h
from-Scan dev inum t u (hit i) (lt, is) =
    let (r, d, n) = is_inode-fields dev inum (t i) is in
    let x : Inode = record (t i) { ref = (t i).ref + 1 } in
    let e = at_entry t i x in
    (
      lt,
      ap (λ (y : Inode). y.dev) e ∙ d,
      ap (λ (y : Inode). y.inum) e ∙ n,
      elsewhere t i x,
      inl (is, ap (λ (y : Inode). y.ref) e, ap (λ (y : Inode). y.valid) e),
      same-Unique t i x u refl refl (λ _. r),
    )
from-Scan dev inum t u (empty_at i) (lt, z, absent, first) =
    let x : Inode = record (t i) { dev = dev; inum = inum; ref = 1; valid = false } in
    let e = at_entry t i x in
    (
      lt,
      ap (λ (y : Inode). y.dev) e,
      ap (λ (y : Inode). y.inum) e,
      elsewhere t i x,
      inr (z, first, absent, ap (λ (y : Inode). y.ref) e, ap (λ (y : Inode). y.valid) e),
      new-Unique t i x u absent,
    )

-- In a table that has no inode twice, iget gives the entry of the inode: with one reference more where
-- it is there, and else the first empty entry, with one reference and its fields to be read. All other
-- entries are as they were, and no inode is twice in the table. It panics only if the inode is not there
-- and no entry is empty.
pub iget-IsGot : (dev inum : ℕ) (t : Table) → Unique t → IsGot dev inum t (iget dev inum t)
unfolding iget
iget-IsGot dev inum t u = from-Scan dev inum t u (scan_table ninode 0 none dev inum t) (
    subst (λ n. Scan n dev inum t (scan_table ninode 0 none dev inum t)) start
      (scan_table-Scan ninode 0 none dev inum t (λ j p. absurd (omega (arith, p)))))
  where
    start : ◌≡◌ {A = ℕ} (0 + ninode) ninode
    start = refl
