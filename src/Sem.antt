-- ===== src/Sem.antt =====
-- semaphore.c: counting semaphores and mutexes, between `cli` and `sti`.
-- A call that waits goes to sleep on the semaphore; when it is woken it tests again. One pass of the
-- waiting loop is a function of the value, whose outcome says whether the caller slept. Interrupts are off
-- in the first pass, but on in a pass behind a sleep, whose test and subtraction are then steps of their own
-- in Race.
pub mod Race
mod Tests
use yonix.Base.{ℕ, zero, suc, ◌+◌, ◌-◌, Bool, true, false, if◌then◌else◌, ltb}
use yonix.Base.Int.{ℤ, pos, negsuc, ◌+ℤ◌, ◌-ℤ◌, pos_part, neg_part}

-- What a call does: it returns 0 with the new value, sleeps on the semaphore, or panics.
pub data Outcome : Type 0 where
  done : (value : ℤ) (wakes : Bool) → Outcome
  sleeps : Outcome
  panics : Outcome

-- Boolean tests of the C int comparisons `a < b` and `a <= b`.
abbrev pub lt_int : ℤ → ℤ → Bool
lt_int a b = ltb (pos_part a + neg_part b) (pos_part b + neg_part a)

abbrev pub le_int : ℤ → ℤ → Bool
le_int a b = ltb (pos_part a + neg_part b) (suc (pos_part b + neg_part a))

pub sem_init : ℤ → Outcome
sem_init num = if lt_int num (pos 0) then panics else done num false

-- One pass of `while (*semaphore <= step - 1) sleep(semaphore);` and what follows the loop.
pub sem_p : ℤ → ℤ → Outcome
sem_p step v =
    if lt_int step (pos 0)
    then panics
    else if le_int v (step -ℤ pos 1)
    then sleeps
    else done (v -ℤ step) false

pub sem_v : ℤ → ℤ → Outcome
sem_v step v = if lt_int step (pos 0) then panics else done (v +ℤ step) (lt_int (pos 0) (v +ℤ step))

pub mutex_init : Outcome
mutex_init = done (pos 1) false

pub mutex_p : ℤ → Outcome
mutex_p v = if le_int v (pos 0) then sleeps else done (v -ℤ pos 1) false

pub mutex_v : ℤ → Outcome
mutex_v v = done (v +ℤ pos 1) (lt_int (pos 0) (v +ℤ pos 1))
