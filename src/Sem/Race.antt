-- ===== src/Sem/Race.antt =====
-- The callers of one semaphore in any order. A pass of sem_P behind a sleep is not atomic: the scheduler
-- has turned interrupts on (scheduler in schedule.c), and swtch restores no flags. Each access to the
-- value is one step.
use yonix.Base.{ℕ, suc, ◌+◌, ◌-◌, ◌≤◌, ◌≡◌, refl, Bool, true, false, List, [], ◌∷◌, ◌++◌, arith}
use yonix.Base.Int.{ℤ, pos, negsuc, ◌+ℤ◌, ◌-ℤ◌}
use yonix.Sem.{done, sleeps, sem_p, sem_v}

-- `held` counts the units taken and not given back. The lists have the step of each caller of sem_P that
-- sleeps, that was woken and has to test, that has found enough units, or too few, behind a sleep.
pub record System : Type 0 where
  pub value : ℤ
  pub held : ℕ
  pub asleep : List ℕ
  pub woken : List ℕ
  pub passed : List ℕ
  pub failed : List ℕ

pub data Step (s : System) : System → Type 0 where
  take_first :
      (n : ℕ) {v : ℤ} {w : Bool}
      → sem_p (pos n) s.value ≡ done v w
      → Step s (record s { value = v; held = s.held + n })
  sleep_first :
      (n : ℕ) → sem_p (pos n) s.value ≡ sleeps → Step s (record s { asleep = n ∷ s.asleep })
  test_pass :
      (n : ℕ) (before behind : List ℕ) {v : ℤ} {w : Bool}
      → s.woken ≡ before ++ (n ∷ behind)
      → sem_p (pos n) s.value ≡ done v w
      → Step s (record s { woken = before ++ behind; passed = n ∷ s.passed })
  take_again :
      (n : ℕ) (before behind : List ℕ)
      → s.passed ≡ before ++ (n ∷ behind)
      → Step s (record s { value = s.value -ℤ pos n; held = s.held + n; passed = before ++ behind })
  test_fail :
      (n : ℕ) (before behind : List ℕ)
      → s.woken ≡ before ++ (n ∷ behind)
      → sem_p (pos n) s.value ≡ sleeps
      → Step s (record s { woken = before ++ behind; failed = n ∷ s.failed })
  sleep_again :
      (n : ℕ) (before behind : List ℕ)
      → s.failed ≡ before ++ (n ∷ behind)
      → Step s (record s { failed = before ++ behind; asleep = n ∷ s.asleep })
  give :
      (n : ℕ) {v : ℤ}
      → n ≤ s.held
      → sem_v (pos n) s.value ≡ done v false
      → Step s (record s { value = v; held = s.held - n })
  give_wake :
      (n : ℕ) {v : ℤ}
      → n ≤ s.held
      → sem_v (pos n) s.value ≡ done v true
      → Step s (record s { value = v; held = s.held - n; woken = s.woken ++ s.asleep; asleep = [] })

abbrev pub fresh : ℤ → System
fresh v = record { value = v; held = 0; asleep = []; woken = []; passed = []; failed = [] }

pub data Reach (s : System) : System → Type 0 where
  start : Reach s s
  later : {t u : System} → Reach s t → Step t u → Reach s u

total : System → ℤ
total s = s.value +ℤ pos s.held

-- A semaphore of one unit or more can give out all its units twice: some order of the steps leads to
-- a state in which twice as many are held.
pub units_twice :
    (m : ℕ)
    → (s : System) × Reach (fresh (pos (suc m))) s × (s.held ≡ suc m + suc m) × (s.value ≡ negsuc m)
unfolding sem_p sem_v
units_twice m = (
  record {
    value = (pos n -ℤ pos n) -ℤ pos n;
    held = 0 + n - n + n + n;
    asleep = [];
    woken = [];
    passed = [];
    failed = [];
  },
  later
      (later
        (later
          (later
            (later
              (later (later (later start (Step.take_first n passes)) (Step.sleep_first n none_left))
                (Step.sleep_first n none_left))
              (Step.give_wake n (omega arith) gives))
            (Step.test_pass n [] (n ∷ []) refl passes))
          (Step.test_pass n [] [] refl passes))
        (Step.take_again n [] (n ∷ []) refl))
      (Step.take_again n [] [] refl),
  omega arith,
  below,
)
  where
    n : ℕ
    n = suc m

    passes : sem_p (pos (suc m)) (pos (suc m)) ≡ done (pos 0) false
    passes = ground arith

    none_left : sem_p (pos (suc m)) (pos 0) ≡ sleeps
    none_left = ground arith

    gives : sem_v (pos (suc m)) (pos 0) ≡ done (pos (suc m)) true
    gives = ground arith

    below : (pos (suc m) -ℤ pos (suc m)) -ℤ pos (suc m) ≡ negsuc m
    below = ground arith
