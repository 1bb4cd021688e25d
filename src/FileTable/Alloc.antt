-- ===== src/FileTable/Alloc.antt =====
-- Which file filealloc gives.
use yonix.Base.{
  ℕ, zero, suc, ◌+◌, ◌≤◌, ◌<◌, ◌≡◌, refl, subst, ◌≢◌, inl, inr, Option, none, some, arith,
  ℕ_discrete, update, ◌==◌, if◌then◌else◌, Bool-cases,
}
use yonix.FileTable.{nfile, find_free, filealloc, File, Files}

-- What filealloc gives: nothing, only if all NFILE files are referenced, or the first file that is
-- not, which then has one reference.
abbrev pub Fresh : Files → Option ℕ × Files → Type 0
Fresh s (none, t) = ((j : ℕ) → j < nfile → (s.table j).ref ≢ 0) × (t ≡ s)
Fresh s (some i, t) =
    (i < nfile)
    × ((s.table i).ref ≡ 0)
    × ((j : ℕ) → j < i → (s.table j).ref ≢ 0)
    × ((j : ℕ) → (t.table j).ref ≡ (if i == j then 1 else (s.table j).ref))

find_free-some :
    (k i : ℕ) (t : ℕ → File) (x : ℕ)
    → find_free k i t ≡ some x
    → (i ≤ x) × (x < i + k) × ((t x).ref ≡ 0) × ((j : ℕ) → i ≤ j → j < x → (t j).ref ≢ 0)
unfolding find_free
find_free-some zero i t x h = absurd (ground arith)
find_free-some (suc k) i t x h = elim (Bool-cases ((t i).ref == 0)) [
  | inl here ↦
      let e : i ≡ x = ground (arith, here) in
      let z : (t i).ref ≡ 0 = ground (arith, here) in
      (omega arith, omega arith, subst (λ y. (t y).ref ≡ 0) e z, λ j a b. absurd (omega arith))
  | inr later ↦
      let (a, b, z, f) = find_free-some k (i + 1) t x (ground (arith, later)) in
      let nz : (t i).ref ≢ 0 = ground (arith, later) in
      (
        omega arith,
        omega arith,
        z,
        λ j le lt. elim (ℕ_discrete i j) [
          | yes e ↦ subst (λ y. (t y).ref ≢ 0) e nz
          | no ne ↦ f j (omega arith) lt
        ],
      )
]

find_free-none :
    (k i : ℕ) (t : ℕ → File) → find_free k i t ≡ none → (j : ℕ) → i ≤ j → j < i + k → (t j).ref ≢ 0
unfolding find_free
find_free-none zero i t h j a b = absurd (omega arith)
find_free-none (suc k) i t h j a b = elim (Bool-cases ((t i).ref == 0)) [
  | inl here ↦ absurd (ground arith)
  | inr later ↦
      let nz : (t i).ref ≢ 0 = ground (arith, later) in
      elim (ℕ_discrete i j) [
        | yes e ↦ subst (λ y. (t y).ref ≢ 0) e nz
        | no ne ↦ find_free-none k (i + 1) t (ground (arith, later)) j (omega arith) (omega arith)
      ]
]

one_ref :
    (t : ℕ → File) (i j : ℕ)
    → (update t i (record (t i) { ref = 1 }) j).ref ≡ (if i == j then 1 else (t j).ref)
one_ref t i j = elim (Bool-cases (i == j)) [ inl e ↦ rw e refl | inr e ↦ rw e refl ]

-- filealloc gives the first file that is not referenced, with one reference, and leaves the counts
-- of the others alone; it fails only if all NFILE files are referenced, and then changes nothing.
pub filealloc-Fresh : (s : Files) → Fresh s (filealloc s)
unfolding filealloc
filealloc-Fresh s = by_found (find_free nfile 0 s.table) refl
  where
    by_found :
        (o : Option ℕ)
        → find_free nfile 0 s.table ≡ o
        → Fresh s (elim o [
          | none ↦ (none, s)
          | some i ↦
              (some i, record s { table = update s.table i (record (s.table i) { ref = 1 }) })
        ])
    by_found none e = (λ j lt. find_free-none nfile 0 s.table e j (omega arith) (omega arith), refl)
    by_found (some i) e =
        let (a, b, z, f) = find_free-some nfile 0 s.table i e in
        (omega arith, z, λ j lt. f j (omega arith) lt, λ j. one_ref s.table i j)
