-- ===== src/Log/Admission.antt =====
-- begin_op's reservation: no transaction overflows the log.
use yonix.Base.{
  ℕ, zero, suc, ◌+◌, ◌-◌, ◌*◌, ◌≤◌, ◌<◌, ◌≡◌, refl, sym, ap, ap₂, ◌∙◌, ◌⊎◌, inl, inr, true, false,
  List, [], ◌∷◌, ◌++◌, arith, ◌==◌, if◌then◌else◌, Bool-cases, length, get_or, set, take, All,
  length-append, length-set,
}
use yonix.Log.{Log, logsize, maxopblocks, logged, admitted, begin_op, ok, find_block, log_write}
use yonix.Log.Replay.{mem}

-- The operations under way, each with the number of blocks that it may still log.
abbrev pub budget : List ℕ → ℕ
budget [] = 0
budget (b ∷ bs) = b + budget bs

-- The log's header fits, and the blocks that the operations under way may still log fit too.
pub record Reserved (l : Log) (ops : List ℕ) : Type 0 where
  pub counted : l.outstanding ≡ length ops
  pub fits : l.n + budget ops ≤ logsize
  pub entries : length l.block ≡ logsize

budget-le : (ops : List ℕ) → All (λ b. b ≤ maxopblocks) ops → budget ops ≤ maxopblocks * length ops
budget-le [] h = omega arith
budget-le (b ∷ ops) h = omega (arith, budget-le ops h.1)

budget-append : (xs ys : List ℕ) → budget (xs ++ ys) ≡ budget xs + budget ys
budget-append [] ys = omega arith
budget-append (x ∷ xs) ys = omega (arith, budget-append xs ys)

-- begin_op admits an operation only where it reserves `maxopblocks` blocks for it, whatever the
-- others may still log: the reservation of every operation under way still fits the log.
pub begin_op-Reserved :
    (l : Log) (ops : List ℕ) {l' : Log}
    → Reserved l ops
    → All (λ b. b ≤ maxopblocks) ops
    → begin_op l ≡ admitted l'
    → Reserved l' (maxopblocks ∷ ops) × (l'.n ≡ l.n) × (l.committing ≡ false)
unfolding begin_op
begin_op-Reserved l ops r small e = ground (arith, budget-le ops)

take-set_last :
    (bs : List ℕ) (n b : ℕ) → n < length bs → take (suc n) (set bs n b) ≡ take n bs ++ b ∷ []
take-set_last [] n b h = absurd (omega arith)
take-set_last (c ∷ bs) zero b h = refl
take-set_last (c ∷ bs) (suc n) b h = ap (λ l. c ∷ l) (take-set_last bs n b (omega arith))

set_same : (bs : List ℕ) (i b : ℕ) → get_or bs i 0 ≡ b → i < length bs → set bs i b ≡ bs
set_same [] i b e h = refl
set_same (c ∷ bs) zero b e h = ap (λ d. d ∷ bs) (sym e)
set_same (c ∷ bs) (suc i) b e h = ap (λ l. c ∷ l) (set_same bs i b e (omega arith))

get_or-take : (bs : List ℕ) (n i : ℕ) → i < n → get_or (take n bs) i 0 ≡ get_or bs i 0
get_or-take bs zero i h = absurd (omega arith)
get_or-take [] (suc n) i h = refl
get_or-take (c ∷ bs) (suc n) zero h = refl
get_or-take (c ∷ bs) (suc n) (suc i) h = get_or-take bs n i (omega arith)

pub length-take : (n : ℕ) (bs : List ℕ) → n ≤ length bs → length (take n bs) ≡ n
length-take zero bs h = refl
length-take (suc n) [] h = absurd (omega arith)
length-take (suc n) (c ∷ bs) h = ap suc (length-take n bs (omega arith))

pub record Found (b i : ℕ) (bs : List ℕ) (j : ℕ) : Type 0 where
  pub least : i ≤ j
  pub present : mem b bs ≡ true → (j < i + length bs) × (get_or bs (j - i) 0 ≡ b)
  pub missing : mem b bs ≡ false → j ≡ i + length bs

pub find_block-Found : (b i : ℕ) (bs : List ℕ) → Found b i bs (find_block b i bs)
unfolding find_block
find_block-Found b i [] = record {
  least = omega arith;
  present = λ e. cc;
  missing = λ e. omega arith;
}
find_block-Found b i (c ∷ bs) = elim (Bool-cases (c == b)) [
  | inl here ↦ rw here (record {
    least = omega arith;
    present = λ e. (omega arith, ground (arith, minus_self i));
    missing = λ e. absurd (ground arith);
  })
  | inr later ↦
      let ih = find_block-Found b (i + 1) bs in
      rw later (record {
        least = omega (arith, ih.least);
        present = λ e. (
          omega (arith, (ih.present (ground arith)).0),
          step ih.least ∙ (ih.present (ground arith)).1,
        );
        missing = λ e. omega (arith, ih.missing (ground arith));
      })
]
  where
    minus_self : (k : ℕ) → k - k ≡ 0
    minus_self k = omega arith

    step : {j : ℕ} → i + 1 ≤ j → get_or (c ∷ bs) (j - i) 0 ≡ get_or bs (j - (i + 1)) 0
    step {j} le = let e : j - i ≡ suc (j - (i + 1)) = omega arith in rw e

-- The log after log_write has found room.
abbrev pub written : Log → ℕ → Log
written l b =
    let i = find_block b 0 (logged l) in
    record l { block = set l.block i b; n = if i == l.n then l.n + 1 else l.n }

pub log_write-written :
    (l : Log) (b : ℕ)
    → l.n < logsize
    → l.n < l.size - 1
    → 0 < l.outstanding
    → log_write l b ≡ ok (written l b)
log_write-written l b h1 h2 h3 = unfold log_write in ground arith

pub by_mem :
    (l : Log) (b : ℕ)
    → l.n < length l.block
    → length (logged l) ≡ l.n
    → Found b 0 (logged l) (find_block b 0 (logged l))
    → (mem b (logged l) ≡ true) ⊎ (mem b (logged l) ≡ false)
    → logged (written l b) ≡ (if mem b (logged l) then logged l else logged l ++ b ∷ [])
by_mem l b room size f (inl e) = rw e (ap₂ take keep same)
  where
    i : ℕ
    i = find_block b 0 (logged l)

    below : i < l.n
    below = omega (arith, (f.present e).0, size)

    keep : (if i == l.n then l.n + 1 else l.n) ≡ l.n
    keep = ground (arith, below)

    same : set l.block i b ≡ l.block
    same =
        set_same l.block i b
          (sym (get_or-take l.block l.n i below)
            ∙ ap (λ k. get_or (logged l) k 0) (omega arith)
            ∙ (f.present e).1)
          (omega (arith, below))
by_mem l b room size f (inr e) =
    rw e (ap₂ take grow (ap (λ j. set l.block j b) at_end) ∙ take-set_last l.block l.n b room)
  where
    at_end : find_block b 0 (logged l) ≡ l.n
    at_end = omega (arith, f.missing e, size)

    grow : (if find_block b 0 (logged l) == l.n then l.n + 1 else l.n) ≡ suc l.n
    grow = ground (arith, at_end)

-- In a reserved log whose size exceeds LOGSIZE, an operation that has budget left can log a block:
-- log_write does not panic, appends the block to the logged blocks unless it is among them already,
-- in which case they stay as they are, and the log is reserved with that budget lowered by one.
pub log_write_lem :
    (l : Log) (b m : ℕ) (before after : List ℕ)
    → Reserved l (before ++ suc m ∷ after)
    → logsize < l.size
    → (l' : Log) × (log_write l b ≡ ok l')
      × (logged l' ≡ (if mem b (logged l) then logged l else logged l ++ b ∷ []))
      × Reserved l' (before ++ m ∷ after)
log_write_lem l b m before after r big = (
  written l b,
  log_write-written l b (ground (arith, b1)) (ground (arith, b1))
      (omega (arith, length-append before (suc m ∷ after), r.counted)),
  logged_written,
  record {
    counted = r.counted ∙ sizes;
    fits = ground (arith, b1, b2, n_le, r.fits);
    entries = length-set l.block (find_block b 0 (logged l)) b ∙ r.entries;
  },
)
  where
    b1 : budget (before ++ suc m ∷ after) ≡ budget before + suc (m + budget after)
    b1 = budget-append before (suc m ∷ after) ∙ (omega arith)

    b2 : budget (before ++ m ∷ after) ≡ budget before + (m + budget after)
    b2 = budget-append before (m ∷ after)

    sizes : length (before ++ suc m ∷ after) ≡ length (before ++ m ∷ after)
    sizes = length-append before (suc m ∷ after) ∙ sym (length-append before (m ∷ after))

    n_le : (written l b).n ≤ l.n + 1
    n_le = ground arith

    room : l.n < length l.block
    room = omega (arith, b1, r.fits, r.entries)

    size : length (logged l) ≡ l.n
    size = length-take l.n l.block (omega arith)

    f : Found b 0 (logged l) (find_block b 0 (logged l))
    f = find_block-Found b 0 (logged l)

    logged_written :
        logged (written l b) ≡ (if mem b (logged l) then logged l else logged l ++ b ∷ [])
    logged_written = by_mem l b room size f (Bool-cases (mem b (logged l)))
