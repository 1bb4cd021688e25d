-- ===== src/Log/Tests.antt =====
-- log.c on a log of one block.
use yonix.Base.{
  Absent, Distinct, ℕ, zero, suc, List, ◌+◌, ◌<◌, ◌≡◌, refl, inr, false, some, [], ◌∷◌, arith,
  update, length, replicate, length-replicate,
}
use yonix.Log.{
  Store, Log, logged, maxopblocks, commit, begin_op, admitted, log_write, log_all, ok, panics,
}
use yonix.Log.Crash.{crashed, recovered, Ready}
use yonix.Log.Atomic.{commit_atomic}
use yonix.Log.Admission.{Reserved, begin_op-Reserved, log_write_lem}
use yonix.Log.Overflow.{begin_times, reservation_overflows}

-- The log begins at block 2; block 7 is logged.
abbrev log : Log
log = record {
  start = 2;
  size = 31;
  outstanding = 1;
  committing = false;
  dev = 1;
  n = 1;
  block = 7 ∷ [];
}

abbrev store : Store
store = record {
  base = λ b. 0 ∷ 0 ∷ [];
  writes = [];
  cached = update (λ b. 0 ∷ 0 ∷ []) 7 (5 ∷ 6 ∷ []);
}

log-Ready : Ready log store
log-Ready = record {
  fresh_writes = refl;
  some_blocks = omega arith;
  listed = refl;
  disk_head = refl;
  outside = (inr (omega arith), tt);
  head_room = omega arith;
}

commit_example : recovered log (crashed 2 (commit log store).1) 7 ≡ 5 ∷ 6 ∷ []
commit_example = commit_atomic log store log 2 7 log-Ready (omega arith) (inr (omega arith))

abbrev empty_log : Log
empty_log = record {
  start = 2;
  size = 31;
  outstanding = 0;
  committing = false;
  dev = 1;
  n = 0;
  block = replicate 30 0;
}

empty-Reserved : Reserved empty_log []
empty-Reserved = record {
  counted = refl;
  fits = omega arith;
  entries = length-replicate {A = ℕ} 30 0;
}

empty-admitted : begin_op empty_log ≡ admitted (record empty_log { outstanding = 1 })
unfolding begin_op
empty-admitted = refl

begin_op_example :
    Reserved (record empty_log { outstanding = 1 }) (maxopblocks ∷ [])
    × ((record empty_log { outstanding = 1 }).n ≡ empty_log.n)
    × (empty_log.committing ≡ false)
begin_op_example =
    begin_op-Reserved empty_log [] {l' = record empty_log { outstanding = 1 }} empty-Reserved tt
      empty-admitted

begun-Reserved : Reserved (record empty_log { outstanding = 1 }) (10 ∷ [])
begun-Reserved = record {
  counted = refl;
  fits = omega arith;
  entries = length-replicate {A = ℕ} 30 0;
}

log_write_example :
    (l' : Log) × (log_write (record empty_log { outstanding = 1 }) 9 ≡ ok l')
    × (logged l' ≡ 9 ∷ [])
    × Reserved l' (9 ∷ [])
log_write_example =
    log_write_lem (record empty_log { outstanding = 1 }) 9 9 [] [] begun-Reserved (omega arith)

-- `k` numbers from `n` on.
abbrev numbers : ℕ → ℕ → List ℕ
numbers zero n = []
numbers (suc k) n = n ∷ numbers k (n + 1)

numbers-Absent : (k n x : ℕ) → x < n → Absent x (numbers k n)
numbers-Absent zero n x lt = tt
numbers-Absent (suc k) n x lt =
    ((λ e. absurd (omega (arith, lt, e))), numbers-Absent k (n + 1) x (omega (arith, lt)))

numbers-Distinct : (k n : ℕ) → Distinct (numbers k n)
numbers-Distinct zero n = tt
numbers-Distinct (suc k) n = (numbers-Absent k (n + 1) n (omega arith), numbers-Distinct k (n + 1))

length-numbers : (k n : ℕ) → length (numbers k n) ≡ k
length-numbers zero n = refl
length-numbers (suc k) n = let h = length-numbers k (n + 1) in omega (arith, h)

abbrev made_log : Log
made_log = record empty_log { size = 30 }

reservation_overflows_example :
    (l' : Log) × (begin_times 3 made_log ≡ some l') × (log_all l' (numbers 30 40) ≡ panics)
reservation_overflows_example =
    reservation_overflows made_log (numbers 30 40) refl refl refl refl
      (length-replicate {A = ℕ} 30 0) (numbers-Distinct 30 40) (length-numbers 30 40)
