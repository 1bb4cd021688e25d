-- ===== src/Log/Overflow.antt =====
-- Operations that keep to their reservation may overflow the log; and how much a log surely holds.
use yonix.Base.{
  Absent, Distinct, ℕ, zero, suc, ◌+◌, ◌-◌, ◌*◌, ◌≤◌, ◌<◌, ◌≡◌, refl, sym, ap, ◌∙◌, subst, ◌≢◌, inr,
  Bool, true, false, ◌||◌, Option, none, some, List, [], ◌∷◌, ◌++◌, arith, ℕ_discrete, leb, ◌==◌,
  if◌then◌else◌, length, take, All, length-set,
}
use yonix.Log.{
  Log, logsize, maxopblocks, logged, waits, admitted, begin_op, ok, panics, find_block, log_write,
  and_then, log_all,
}
use yonix.Log.Replay.{mem}
use yonix.Log.Admission.{find_block-Found, written, log_write-written, by_mem, length-take}

-- None of the blocks is logged.
abbrev pub NoneLogged : List ℕ → List ℕ → Type 0
NoneLogged ls bs = All (λ b. mem b ls ≡ false) bs

mem-append : (x : ℕ) (xs : List ℕ) (b : ℕ) → mem x xs ≡ false → b ≢ x → mem x (xs ++ b ∷ []) ≡ false
mem-append x [] b h ne = ground (arith, ne)
mem-append x (y ∷ ys) b h ne = ground (arith, h, mem-append x ys b (ground (arith, h)) ne)

still_none :
    (ls : List ℕ) (b : ℕ) (bs : List ℕ)
    → NoneLogged ls bs
    → Absent b bs
    → NoneLogged (ls ++ b ∷ []) bs
still_none ls b [] h a = tt
still_none ls b (c ∷ cs) (h, hs) (a, as') = (mem-append c ls b h a, still_none ls b cs hs as')

-- A log of LOGSIZE blocks, the header included, as mkfs makes it, with operations under way.
pub record Open (l : Log) : Type 0 where
  pub size : l.size ≡ logsize
  pub running : 0 < l.outstanding
  pub entries : length l.block ≡ logsize
  pub below : l.n ≤ 29

log_all-step :
    (l l' : Log) (b : ℕ) (bs : List ℕ) → log_write l b ≡ ok l' → log_all l (b ∷ bs) ≡ log_all l' bs
unfolding log_all
log_all-step l l' b bs e = ap (λ r. and_then r (λ k. log_all k bs)) e

log_all-stop :
    (l : Log) (b : ℕ) (bs : List ℕ) → log_write l b ≡ panics → log_all l (b ∷ bs) ≡ panics
unfolding log_all
log_all-stop l b bs e = ap (λ r. and_then r (λ k. log_all k bs)) e

full_stop : (l : Log) (b : ℕ) → Open l → l.n ≡ 29 → log_write l b ≡ panics
unfolding log_write
full_stop l b o e =
    let s = o.size in
    let q : (leb logsize l.n || leb (l.size - 1) l.n) ≡ true = numbers l.n l.size e s in rw q refl
  where
    numbers : (n s : ℕ) → n ≡ 29 → s ≡ 30 → (leb logsize n || leb (s - 1) n) ≡ true
    numbers n s a b = ground (arith, a, b)

pub overflow :
    (bs : List ℕ) (l : Log)
    → Open l
    → Distinct bs
    → NoneLogged (logged l) bs
    → 29 < l.n + length bs
    → log_all l bs ≡ panics
overflow [] l o d none_there big = let b = o.below in absurd (omega (arith, b, big))
overflow (b ∷ bs) l o (a, d) (new, none_there) big = elim (ℕ_discrete l.n 29) [
  | yes e ↦ log_all-stop l b bs (full_stop l b o e)
  | no ne ↦
      let below = o.below in
      let entries = o.entries in
      let s = o.size in
      let size : length (logged l) ≡ l.n =
        length-take l.n l.block (omega (arith, entries, below)) in
      let f = find_block-Found b 0 (logged l) in
      let at_end : find_block b 0 (logged l) ≡ l.n = f.missing new ∙ omega (arith, size) in
      let n : (written l b).n ≡ l.n + 1 = grown l.n (find_block b 0 (logged l)) at_end in
      let ls : logged (written l b) ≡ logged l ++ b ∷ [] =
        by_mem l b (omega (arith, entries, below, ne)) size f (inr new)
        ∙ if_no (mem b (logged l)) _ _ new in
      log_all-step l (written l b) b bs
        (log_write-written l b (omega (arith, below, ne)) (omega (arith, s, below, ne)) o.running)
      ∙ overflow bs (written l b)
          (record {
            size = o.size;
            running = o.running;
            entries = length-set l.block (find_block b 0 (logged l)) b ∙ o.entries;
            below = omega (arith, n, below, ne);
          })
          d (subst (λ k. NoneLogged k bs) (sym ls) (still_none (logged l) b bs none_there a))
          (omega (arith, n, big))
]
  where
    grown : (n i : ℕ) → i ≡ n → (if i == n then n + 1 else n) ≡ n + 1
    grown n i e = ground (arith, e)

    if_no : (z : Bool) (x y : List ℕ) → z ≡ false → (if z then x else y) ≡ y
    if_no z x y e = rw e refl

-- The log after `k` calls of begin_op in a row, if each is admitted.
pub begin_times : ℕ → Log → Option Log
unfolding begin_op
begin_times zero l = some l
begin_times (suc k) l = elim (begin_op l) [ waits ↦ none | admitted l' ↦ begin_times k l' ]

-- In a log of LOGSIZE blocks, the size that mkfs gives it, the reservation is not enough. On an empty
-- log begin_op admits three operations, of MAXOPBLOCKS blocks each; and whichever 30 different blocks they
-- log, ten each, log_write panics before all of them are in the log.
pub reservation_overflows :
    (l : Log) (bs : List ℕ)
    → l.size ≡ logsize
    → l.n ≡ 0
    → l.outstanding ≡ 0
    → l.committing ≡ false
    → length l.block ≡ logsize
    → Distinct bs
    → length bs ≡ 3 * maxopblocks
    → (l' : Log) × (begin_times 3 l ≡ some l') × (log_all l' bs ≡ panics)
unfolding begin_times begin_op
reservation_overflows l bs size n out idle entries d len = (
  record l { outstanding = 3 },
  starts l.outstanding l.n l.committing out n idle,
  overflow bs (record l { outstanding = 3 })
      (record { size = size; running = omega arith; entries = entries; below = omega (arith, n) }) d
      (subst (λ k. NoneLogged (take k l.block) bs) (sym n) (empty bs)) (omega (arith, len)),
)
  where
    empty : (cs : List ℕ) → NoneLogged [] cs
    empty [] = tt
    empty (c ∷ cs) = (refl, empty cs)

    starts :
        (o m : ℕ) (c : Bool)
        → o ≡ 0
        → m ≡ 0
        → c ≡ false
        → begin_times 3 (record l { outstanding = o; n = m; committing = c })
          ≡ some (record l { outstanding = 3; n = m; committing = c })
    starts o m c a b e =
        subst
          (λ x.
            begin_times 3 (record l { outstanding = x; n = m; committing = c })
            ≡ some (record l { outstanding = 3; n = m; committing = c }))
          (sym a)
          (subst
            (λ x.
              begin_times 3 (record l { outstanding = 0; n = x; committing = c })
              ≡ some (record l { outstanding = 3; n = x; committing = c }))
            (sym b)
            (subst
              (λ x.
                begin_times 3 (record l { outstanding = 0; n = 0; committing = x })
                ≡ some (record l { outstanding = 3; n = 0; committing = x }))
              (sym e) refl))
