-- ===== src/Icache/Unique.antt =====
-- iget: an inode is in the table once.
use yonix.Base.{
  ℕ, zero, suc, ◌+◌, ◌<◌, ◌≡◌, refl, sym, subst, ◌≢◌, ◌⊎◌, Bool, true, false, Option, none, some,
  arith, ℕ_discrete, ◌==◌, if◌then◌else◌,
}
use yonix.Icache.{
  ninode, Table, is_inode, note_empty, Scanned, hit, empty_at, table_full, scan_table, Got,
  got_inode, iget_panics,
}

-- Two entries with references to one inode are one.
abbrev pub Unique : Table → Type 0
Unique t =
    (i j : ℕ)
    → i < ninode
    → j < ninode
    → 0 < (t i).ref
    → 0 < (t j).ref
    → (t i).dev ≡ (t j).dev
    → (t i).inum ≡ (t j).inum
    → i ≡ j

-- The loop from `i` on, with what it has seen before.
abbrev pub Seen : ℕ → Option ℕ → ℕ → ℕ → Table → Type 0
Seen i none dev inum t = (j : ℕ) → j < i → (is_inode dev inum (t j) ≡ false) × ((t j).ref ≢ 0)
Seen i (some e) dev inum t =
    (e < i)
    × ((t e).ref ≡ 0)
    × ((j : ℕ) → j < i → is_inode dev inum (t j) ≡ false)
    × ((j : ℕ) → j < e → (t j).ref ≢ 0)

abbrev pub Scan : ℕ → ℕ → ℕ → Table → Scanned → Type 0
Scan n dev inum t (hit i) = (i < n) × (is_inode dev inum (t i) ≡ true)
Scan n dev inum t (empty_at e) =
    (e < n)
    × ((t e).ref ≡ 0)
    × ((j : ℕ) → j < n → is_inode dev inum (t j) ≡ false)
    × ((j : ℕ) → j < e → (t j).ref ≢ 0)
Scan n dev inum t table_full = (j : ℕ) → j < n → (is_inode dev inum (t j) ≡ false) × ((t j).ref ≢ 0)

Seen-more :
    (i : ℕ) (empty : Option ℕ) (dev inum : ℕ) (t : Table)
    → is_inode dev inum (t i) ≡ false
    → Seen i empty dev inum t
    → Seen (i + 1) (note_empty empty i (t i)) dev inum t
Seen-more i (some e) dev inum t no_hit (lt, z, others, first) = (
  omega (arith, lt),
  z,
  (λ j p. elim (ℕ_discrete j i) [
    | yes q ↦ subst (λ k. is_inode dev inum (t k) ≡ false) (sym q) no_hit
    | no q ↦ others j (omega (arith, p, q))
  ]),
  first,
)
Seen-more i none dev inum t no_hit before = by_test ((t i).ref == 0) refl
  where
    zero_of : (n : ℕ) → n == 0 ≡ true → n ≡ 0
    zero_of n h = ground (arith, h)

    nonzero : (n : ℕ) → n == 0 ≡ false → n ≢ 0
    nonzero n h = ground (arith, h)

    by_test : (z : Bool) → (t i).ref == 0 ≡ z → Seen (i + 1) (if z then some i else none) dev inum t
    by_test true e = (
      omega arith,
      zero_of _ e,
      (λ j p. elim (ℕ_discrete j i) [
        | yes q ↦ subst (λ k. is_inode dev inum (t k) ≡ false) (sym q) no_hit
        | no q ↦ (before j (omega (arith, p, q))).0
      ]),
      λ j p. (before j p).1,
    )
    by_test false e = λ j p. elim (ℕ_discrete j i) [
      | yes q ↦
          subst (λ k. (is_inode dev inum (t k) ≡ false) × ((t k).ref ≢ 0)) (sym q)
            (no_hit, nonzero _ e)
      | no q ↦ before j (omega (arith, p, q))
    ]

pub scan_table-Scan :
    (k i : ℕ) (empty : Option ℕ) (dev inum : ℕ) (t : Table)
    → Seen i empty dev inum t
    → Scan (i + k) dev inum t (scan_table k i empty dev inum t)
unfolding scan_table
scan_table-Scan zero i none dev inum t seen = λ j p. seen j (omega (arith, p))
scan_table-Scan zero i (some e) dev inum t (lt, z, others, first) =
    (omega (arith, lt), z, (λ j p. others j (omega (arith, p))), first)
scan_table-Scan (suc k) i empty dev inum t seen =
    by_test
      (λ h.
        scan_table-Scan k (i + 1) (note_empty empty i (t i)) dev inum t
          (Seen-more i empty dev inum t h seen))
      (is_inode dev inum (t i)) refl
  where
    by_test :
        (is_inode dev inum (t i) ≡ false
          → Scan
              (i + 1 + k)
              dev
              inum
              t
              (scan_table k (i + 1) (note_empty empty i (t i)) dev inum t))
        → (z : Bool) → is_inode dev inum (t i) ≡ z
        → Scan
            (i + suc k)
            dev
            inum
            t
            (if z then hit i else scan_table k (i + 1) (note_empty empty i (t i)) dev inum t)
    by_test go true e = (omega arith, e)
    by_test go false e =
        let n : i + 1 + k ≡ i + suc k = omega arith in
        subst (λ n. Scan n dev inum t (scan_table k (i + 1) (note_empty empty i (t i)) dev inum t))
          n (go e)

-- What iget gives: entry `i` is the inode, with one reference more than before if it was there, or with
-- one in the first empty entry if it was not; the other entries are as they were. It panics only
-- if there is neither.
abbrev pub IsGot : ℕ → ℕ → Table → Got → Type 0
IsGot dev inum t (got_inode i t') =
    (i < ninode)
    × ((t' i).dev ≡ dev)
    × ((t' i).inum ≡ inum)
    × ((j : ℕ) → i ≢ j → t' j ≡ t j)
    × (((is_inode dev inum (t i) ≡ true)
          × ((t' i).ref ≡ (t i).ref + 1)
          × ((t' i).valid ≡ (t i).valid))
        ⊎ (((t i).ref ≡ 0)
            × ((j : ℕ) → j < i → (t j).ref ≢ 0)
            × ((j : ℕ) → j < ninode → is_inode dev inum (t j) ≡ false)
            × ((t' i).ref ≡ 1)
            × ((t' i).valid ≡ false)))
    × Unique t'
IsGot dev inum t iget_panics =
    (j : ℕ) → j < ninode → (is_inode dev inum (t j) ≡ false) × ((t j).ref ≢ 0)
