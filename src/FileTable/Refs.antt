-- ===== src/FileTable/Refs.antt =====
-- The references to open files are counted.
use yonix.Base.{
  ℕ, zero, suc, ◌+◌, ◌-◌, ◌≤◌, ◌<◌, ◌≡◌, refl, sym, ap, ◌∙◌, Bool, true, false, Option, none, some,
  ◌++◌, arith, ℕ_discrete, update, ltb, leb, ◌==◌, if◌then◌else◌,
}
use yonix.Syscall.{User, argint, to_int}
use yonix.Base.Int.{ℤ, pos, negsuc}
use yonix.FileTable.{
  nofile, fd_none, File, Files, Result, ok, panics, release, filedup, fileclose, argfd, find_fd,
  fdalloc, returns, dup_after, sys_dup, sys_close,
}

-- How often a descriptor refers to file `i`, and how many of the first `k` do.
abbrev pub refers : Option ℕ → ℕ → ℕ
refers none i = 0
refers (some j) i = if j == i then 1 else 0

abbrev pub count : ℕ → (ℕ → Option ℕ) → ℕ → ℕ
count zero of i = 0
count (suc k) of i = count k of i + refers (of k) i

-- The reference count of every file is the number of the process's descriptors for it and of the
-- references that `others` hold.
abbrev pub Counted : (ℕ → ℕ) → Files → Type 0
Counted others s = (i : ℕ) → (s.table i).ref ≡ count nofile s.of i + others i

count-update_above :
    (k : ℕ) (of : ℕ → Option ℕ) (fd : ℕ) (v : Option ℕ) (i : ℕ)
    → k ≤ fd
    → count k (update of fd v) i ≡ count k of i
count-update_above zero of fd v i h = refl
count-update_above (suc k) of fd v i h = ground (arith, count-update_above k of fd v i)

count-update :
    (k : ℕ) (of : ℕ → Option ℕ) (fd : ℕ) (v : Option ℕ) (i : ℕ)
    → fd < k
    → count k (update of fd v) i + refers (of fd) i ≡ count k of i + refers v i
count-update zero of fd v i h = absurd (omega arith)
count-update (suc k) of fd v i h = elim (ℕ_discrete fd k) [
  | yes e ↦ ground (arith, e, count-update_above k of fd v i)
  | no ne ↦ ground (arith, ne, count-update k of fd v i)
]

argfd-some :
    (u : User) (n : ℕ) (s : Files) (fd f : ℕ)
    → argfd u n s ≡ some (fd, f)
    → (fd < nofile) × (s.of fd ≡ some f)
unfolding argfd
argfd-some u n s fd f h = by_word (argint u n) h
  where
    by_file :
        (k : ℕ) (o : Option ℕ)
        → s.of k ≡ o
        → (if leb nofile k
            then none
            else elim o as (λ x. Option (ℕ × ℕ)) [ none ↦ none | some j ↦ some (k, j) ])
          ≡ some (fd, f)
        → (fd < nofile) × (s.of fd ≡ some f)
    by_file k none e g = ground arith
    by_file k (some j) e g = ground arith

    by_int :
        (v : ℤ)
        → elim v as (λ x. Option (ℕ × ℕ)) [
          | negsuc k ↦ none
          | pos k ↦
              if leb nofile k then none else elim (s.of k) [ none ↦ none | some j ↦ some (k, j) ]
        ]
          ≡ some (fd, f)
        → (fd < nofile) × (s.of fd ≡ some f)
    by_int (pos k) g = by_file k (s.of k) refl g
    by_int (negsuc k) g = absurd (ground arith)

    by_word :
        (o : Option ℕ)
        → elim o as (λ x. Option (ℕ × ℕ)) [
          | none ↦ none
          | some w ↦ elim (to_int w) [
            | negsuc k ↦ none
            | pos k ↦
                if leb nofile k then none else elim (s.of k) [ none ↦ none | some j ↦ some (k, j) ]
          ]
        ]
          ≡ some (fd, f)
        → (fd < nofile) × (s.of fd ≡ some f)
    by_word none g = absurd (ground arith)
    by_word (some w) g = by_int (to_int w) g

find_fd-some :
    (k i : ℕ) (of : ℕ → Option ℕ) (fd : ℕ)
    → find_fd k i of ≡ some fd
    → (i ≤ fd) × (fd < i + k) × (of fd ≡ none)
unfolding find_fd
find_fd-some zero i of fd h = absurd (ground arith)
find_fd-some (suc k) i of fd h = by_entry (λ g. find_fd-some k (i + 1) of fd g) (of i) refl h
  where
    by_entry :
        (find_fd k (i + 1) of ≡ some fd → (i + 1 ≤ fd) × (fd < i + 1 + k) × (of fd ≡ none))
        → (o : Option ℕ) → of i ≡ o
        → elim o as (λ x. Option ℕ) [ none ↦ some i | some f ↦ find_fd k (i + 1) of ] ≡ some fd
        → (i ≤ fd) × (fd < i + suc k) × (of fd ≡ none)
    by_entry ih none e g = ground arith
    by_entry ih (some f) e g = ground (arith, ih g)

-- The outcome of a call does not panic and keeps the count.
abbrev pub Keeps : (ℕ → ℕ) → Result (Option ℕ × Files) → Type 0
Keeps others (ok (r, t)) = Counted others t
Keeps others panics = ⊥

count-removed :
    (k : ℕ) (of : ℕ → Option ℕ) (fd f i : ℕ)
    → fd < k
    → of fd ≡ some f
    → count k (update of fd none) i + (if f == i then 1 else 0) ≡ count k of i
count-removed k of fd f i lt h =
    ap (λ o. count k (update of fd none) i + refers o i) (sym h)
    ∙ count-update k of fd none i lt
    ∙ omega arith

count-added :
    (k : ℕ) (of : ℕ → Option ℕ) (fd f i : ℕ)
    → fd < k
    → of fd ≡ none
    → count k (update of fd (some f)) i ≡ count k of i + (if f == i then 1 else 0)
count-added k of fd f i lt h =
    let e = count-update k of fd (some f) i lt in
    let z : refers (of fd) i ≡ 0 = ap (λ o. refers o i) h in omega (arith, e, z)

-- A file that a descriptor refers to has a reference.
referred :
    (k : ℕ) (of : ℕ → Option ℕ) (fd f r o : ℕ)
    → r ≡ count k of f + o
    → fd < k
    → of fd ≡ some f
    → 0 < r
referred k of fd f r o c lt h = ground (arith, count-removed k of fd f f lt h, c)

-- The count of each file after a descriptor of file `f` is closed or opened.
closed-count :
    (k : ℕ) (t : ℕ → File) (g : File) (of : ℕ → Option ℕ) (fd f i o : ℕ)
    → (t i).ref ≡ count k of i + o
    → (t f).ref ≡ suc g.ref
    → fd < k
    → of fd ≡ some f
    → (update t f g i).ref ≡ count k (update of fd none) i + o
closed-count k t g of fd f i o c e lt h = elim (ℕ_discrete f i) [
  | yes same ↦ ground (arith, count-removed k of fd f i lt h, same, c, e)
  | no other ↦ ground (arith, count-removed k of fd f i lt h, other, c)
]

opened-count :
    (k : ℕ) (t : ℕ → File) (g : File) (of : ℕ → Option ℕ) (fd f i o : ℕ)
    → (t i).ref ≡ count k of i + o
    → g.ref ≡ suc (t f).ref
    → fd < k
    → of fd ≡ none
    → (update t f g i).ref ≡ count k (update of fd (some f)) i + o
opened-count k t g of fd f i o c e lt h = elim (ℕ_discrete f i) [
  | yes same ↦ ground (arith, count-added k of fd f i lt h, same, c, e)
  | no other ↦ ground (arith, count-added k of fd f i lt h, other, c)
]

not_zero : (r : ℕ) → 0 < r → ltb r 1 ≡ false
not_zero r h = ground arith

last_one : (q r : ℕ) → r ≡ suc q → ltb 0 (r - 1) ≡ false → r ≡ 1
last_one q r e h = ground arith

close_step :
    (others : ℕ → ℕ) (s : Files) (fd f : ℕ)
    → Counted others s
    → fd < nofile
    → s.of fd ≡ some f
    → Keeps others (returns (some 0) (fileclose f (record s { of = update s.of fd none })))
unfolding fileclose
close_step others s fd f c lt h = by_ref (s.table f).ref refl
  where
    t : File
    t = s.table f

    by_more :
        (r : ℕ) (b : Bool)
        → t.ref ≡ suc r
        → ltb 0 (t.ref - 1) ≡ b
        → Keeps others (
            returns (some 0) (
              if b
              then ok (record s {
                of = update s.of fd none;
                table = update s.table f (record t { ref = t.ref - 1 });
              })
              else ok (record s {
                of = update s.of fd none;
                table = update s.table f (record t { ref = 0; type = fd_none });
                effects = s.effects ++ release t;
              })))
    by_more r true e m = λ i.
        closed-count nofile s.table (record t { ref = t.ref - 1 }) s.of fd f i (others i) (c i)
          (omega (arith, e)) lt h
    by_more r false e m = λ i.
        closed-count nofile s.table (record t { ref = 0; type = fd_none }) s.of fd f i (others i)
          (c i) (last_one r t.ref e m) lt h

    by_ref :
        (r : ℕ)
        → t.ref ≡ r
        → Keeps others (returns (some 0) (fileclose f (record s { of = update s.of fd none })))
    by_ref zero e = absurd (omega (arith, e, referred nofile s.of fd f t.ref (others f) (c f) lt h))
    by_ref (suc r) e =
        let some_ref = not_zero t.ref (referred nofile s.of fd f t.ref (others f) (c f) lt h) in
        unfold fileclose in rw some_ref (by_more r (ltb 0 (t.ref - 1)) e refl)

dup_step :
    (others : ℕ → ℕ) (s : Files) (fd f : ℕ) (o : Option ℕ)
    → Counted others s
    → fd < nofile
    → s.of fd ≡ some f
    → find_fd nofile 0 s.of ≡ o
    → Keeps others (
        dup_after f (elim o [
          | none ↦ (none, s)
          | some new ↦ (some new, record s { of = update s.of new (some f) })
        ]))
unfolding dup_after
dup_step others s fd f none c lt h e = c
dup_step others s fd f (some new) c lt h e =
    let (a, below, free) = find_fd-some nofile 0 s.of new e in
    let some_ref =
      not_zero (s.table f).ref (referred nofile s.of fd f (s.table f).ref (others f) (c f) lt h) in
    unfold filedup in
    rw some_ref λ i.
      opened-count nofile s.table (record (s.table f) { ref = (s.table f).ref + 1 }) s.of new f i
        (others i) (c i) (omega arith) below free

-- If every reference count is right, a call of sys_dup or of sys_close does not panic, and all
-- counts are right behind it, whether it succeeds or returns -1.
pub dup_close-Keeps :
    (u : User) (others : ℕ → ℕ) (s : Files)
    → Counted others s
    → Keeps others (sys_dup u s) × Keeps others (sys_close u s)
unfolding sys_dup sys_close fdalloc
dup_close-Keeps u others s c = (dup (argfd u 0 s) refl, close (argfd u 0 s) refl)
  where
    dup :
        (o : Option (ℕ × ℕ))
        → argfd u 0 s ≡ o
        → Keeps others (elim o [ none ↦ ok (none, s) | some (fd, f) ↦ dup_after f (fdalloc f s) ])
    dup none e = c
    dup (some (fd, f)) e =
        let (lt, h) = argfd-some u 0 s fd f e in
        dup_step others s fd f (find_fd nofile 0 s.of) c lt h refl

    close :
        (o : Option (ℕ × ℕ))
        → argfd u 0 s ≡ o
        → Keeps others (elim o [
          | none ↦ ok (none, s)
          | some (fd, f) ↦ returns (some 0) (fileclose f (record s { of = update s.of fd none }))
        ])
    close none e = c
    close (some (fd, f)) e =
        let (lt, h) = argfd-some u 0 s fd f e in close_step others s fd f c lt h
