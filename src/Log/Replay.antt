-- ===== src/Log/Replay.antt =====
-- Replaying writes on a disk.
use yonix.Base.{
  ℕ, zero, suc, ◌+◌, ◌-◌, ◌≤◌, ◌<◌, ◌≡◌, refl, ap, ◌⊎◌, Bool, true, false, ◌||◌, List, [], ◌∷◌,
  ◌++◌, arith, update, ◌==◌, if◌then◌else◌, length, get_or, take,
}
use yonix.Log.{Block, replay}

pub replay-append :
    (ws vs : List (ℕ × Block)) (d : ℕ → Block) → replay (ws ++ vs) d ≡ replay vs (replay ws d)
unfolding replay
replay-append [] vs d = refl
replay-append ((b, w) ∷ ws) vs d = replay-append ws vs (update d b w)

pub take-append {ℓ} :
    {A : Type ℓ} (k : ℕ) (xs ys : List A) → take k (xs ++ ys) ≡ take k xs ++ take (k - length xs) ys
take-append zero [] ys = refl
take-append zero (x ∷ xs) ys = let e : 0 - suc (length xs) ≡ 0 = omega arith in rw e
take-append (suc k) [] ys = let e : suc k - 0 ≡ suc k = omega arith in rw e
take-append (suc k) (x ∷ xs) ys =
    let e : suc k - suc (length xs) ≡ k - length xs = omega arith in
    rw e (ap (λ l. x ∷ l) (take-append k xs ys))

-- `mem x bs`: the block `x` is one of `bs`.
abbrev pub mem : ℕ → List ℕ → Bool
mem x [] = false
mem x (b ∷ bs) = b == x || mem x bs

-- Copying blocks to the same blocks of `new`.
abbrev pub home_writes : (ℕ → Block) → List ℕ → List (ℕ × Block)
home_writes new [] = []
home_writes new (b ∷ bs) = (b, new b) ∷ home_writes new bs

-- Writing block `b` of `new` to `start + tail + 1` for each of the blocks.
abbrev pub log_writes : ℕ → ℕ → (ℕ → Block) → List ℕ → List (ℕ × Block)
log_writes start tail new [] = []
log_writes start tail new (b ∷ bs) = (start + tail + 1, new b) ∷ log_writes start (tail + 1) new bs

pub replay-home :
    (new : ℕ → Block) (k : ℕ) (bs : List ℕ) (d : ℕ → Block) (x : ℕ)
    → replay (take k (home_writes new bs)) d x ≡ (if mem x (take k bs) then new x else d x)
unfolding replay
replay-home new zero bs d x = refl
replay-home new (suc k) [] d x = refl
replay-home new (suc k) (b ∷ bs) d x = ground (arith, replay-home new k bs (update d b (new b)) x)

-- Writes to the log leave all blocks up to `start + tail` alone, and those behind the log.
pub replay-log_outside :
    (start tail : ℕ) (new : ℕ → Block) (k : ℕ) (bs : List ℕ) (d : ℕ → Block) (x : ℕ)
    → (x ≤ start + tail) ⊎ (start + tail + length bs < x)
    → replay (take k (log_writes start tail new bs)) d x ≡ d x
unfolding replay
replay-log_outside start tail new zero bs d x h = refl
replay-log_outside start tail new (suc k) [] d x h = refl
replay-log_outside start tail new (suc k) (b ∷ bs) d x h =
    ground
      (arith, replay-log_outside start (tail + 1) new k bs (update d (start + tail + 1) (new b)) x)

pub mem_take : (k x : ℕ) (bs : List ℕ) → mem x (take k bs) ≡ true → mem x bs ≡ true
mem_take zero x bs h = cc
mem_take (suc k) x [] h = cc
mem_take (suc k) x (b ∷ bs) h = ground (arith, mem_take k x bs)

replay-all :
    (start tail : ℕ) (new : ℕ → Block) (bs : List ℕ) (d : ℕ → Block) (x : ℕ)
    → x ≤ start + tail
    → replay (log_writes start tail new bs) d x ≡ d x
unfolding replay
replay-all start tail new [] d x h = refl
replay-all start tail new (b ∷ bs) d x h =
    ground (arith, replay-all start (tail + 1) new bs (update d (start + tail + 1) (new b)) x)

-- The block at index `j` of the log after all the writes to it.
pub replay-log_at :
    (start tail : ℕ) (new : ℕ → Block) (bs : List ℕ) (d : ℕ → Block) (j : ℕ)
    → j < length bs
    → replay (log_writes start tail new bs) d (start + tail + 1 + j) ≡ new (get_or bs j 0)
unfolding replay
replay-log_at start tail new [] d j h = absurd (omega arith)
replay-log_at start tail new (b ∷ bs) d zero h = ground (
  arith,
  replay-all start (tail + 1) new bs (update d (start + tail + 1) (new b)) (start + tail + 1),
)
replay-log_at start tail new (b ∷ bs) d (suc j) h =
    ground (arith, replay-log_at start (tail + 1) new bs (update d (start + tail + 1) (new b)) j)

pub replay-home_all :
    (new : ℕ → Block) (bs : List ℕ) (d : ℕ → Block) (x : ℕ)
    → replay (home_writes new bs) d x ≡ (if mem x bs then new x else d x)
unfolding replay
replay-home_all new [] d x = refl
replay-home_all new (b ∷ bs) d x = ground (arith, replay-home_all new bs (update d b (new b)) x)

pub length-home : (new : ℕ → Block) (bs : List ℕ) → length (home_writes new bs) ≡ length bs
length-home new [] = refl
length-home new (b ∷ bs) = ap suc (length-home new bs)

pub length-log :
    (start tail : ℕ) (new : ℕ → Block) (bs : List ℕ)
    → length (log_writes start tail new bs) ≡ length bs
length-log start tail new [] = refl
length-log start tail new (b ∷ bs) = ap suc (length-log start (tail + 1) new bs)

pub take-all {ℓ} : {A : Type ℓ} (k : ℕ) (xs : List A) → length xs ≤ k → take k xs ≡ xs
take-all zero [] h = refl
take-all zero (x ∷ xs) h = absurd (omega arith)
take-all (suc k) [] h = refl
take-all (suc k) (x ∷ xs) h = ap (λ l. x ∷ l) (take-all k xs (omega arith))
