-- ===== src/Priority.antt =====
-- The numbers that the scheduler keeps for each process: the macros of proc.h, and the updates of
-- the time slice and of the average sleep in schedule.c and scheduler_class.c.
mod Tests
pub mod Range
pub mod Average
use yonix.Base.{
  ℕ, zero, suc, ◌+◌, ◌-◌, ◌*◌, ◌/◌, ◌%◌, ◌^◌, ◌≤◌, ◌<◌, min, bit_and, bit_or, bit_xor, ◌≡◌, refl,
  sym, ap, ap₂, ◌∙◌, fun_ext, subst, ◌≢◌, ◌↔◌, ◌⊎◌, inl, inr, Bool, true, false, not, ◌&&◌, ◌||◌,
  Option, none, some, List, [], ◌∷◌, ◌++◌, map, append-nil, append_assoc, arith, dec_lt, dec_le,
  ℕ_discrete, Mem, update, ltb, leb, ◌==◌, if◌then◌else◌, ltb→lt, lt→ltb, le→ltb, ==_refl, ==_iff,
  Bool-cases, Option-cases, Nat-cases, length, get_elem?, get_or, set, take, drop, replicate, All,
  length-append, length-set, get_or-set_self, get_or-set_ne, length-replicate,
}
use yonix.Base.Int.{ℤ, pos, negsuc, pos_part, neg_part, sub_ℕ, ◌+ℤ◌, ◌-ℤ◌}

-- The C test `a > b`, and the macros MAX and MIN.
abbrev pub gt_int : ℤ → ℤ → Bool
gt_int a b = ltb (pos_part b + neg_part a) (pos_part a + neg_part b)

abbrev pub max_int : ℤ → ℤ → ℤ
max_int a b = if gt_int a b then a else b

abbrev pub min_int : ℤ → ℤ → ℤ
min_int a b = if gt_int b a then a else b

abbrev pub max_rt_pri : ℤ
max_rt_pri = pos 100

abbrev pub pri_num : ℤ
pri_num = pos 140

abbrev pub min_timeslice : ℤ
min_timeslice = pos 100

abbrev pub max_avgslp : ℕ
max_avgslp = 100

-- ETERNAL
abbrev pub eternal : ℤ
eternal = negsuc 254

abbrev pub sched_rr_timeslice : ℤ
sched_rr_timeslice = pos 100

abbrev pub timer_interval : ℤ
timer_interval = pos 10

-- STATIC_PRI
abbrev pub static_pri : ℤ → ℤ
static_pri nice = max_rt_pri +ℤ nice +ℤ pos 20

-- `n` times an int, for the numerals of TIME_SLICE.
abbrev pub times : ℕ → ℤ → ℤ
times k (pos n) = pos (k * n)
times k (negsuc n) = sub_ℕ 0 (k * (n + 1))

-- TIME_SLICE
pub time_slice : ℤ → ℤ
time_slice stpri =
    if gt_int stpri (pos 120)
    then max_int (times 5 (pri_num -ℤ stpri)) min_timeslice
    else max_int (times 20 (pri_num -ℤ stpri)) min_timeslice

-- BONUS: the quotient of ints cuts towards 0.
abbrev pub bonus : ℤ → ℤ
bonus (pos n) = pos (n / 10)
bonus (negsuc n) = sub_ℕ 0 ((n + 1) / 10)

-- DYNAMIC_PRI
pub dynamic_pri : ℤ → ℤ → ℤ
dynamic_pri stpri bns = max_int max_rt_pri (min_int (stpri -ℤ bns +ℤ pos 5) (pri_num -ℤ pos 1))

-- What timeslice_yield does with the slice and the average of the current process: nothing in the
-- fifo scheme; else both fall, and the process gives up the processor when the slice is used up.
pub record Slice : Type 0 where
  pub left : ℤ
  pub avgslp : ℤ
  pub gives_up : Bool

pub timeslice_yield : ℤ → ℤ → Slice
timeslice_yield slice avgslp =
    let left : ℤ = slice -ℤ timer_interval in
    if pos_part slice + neg_part eternal == pos_part eternal + neg_part slice
    then record { left = slice; avgslp = avgslp; gives_up = false }
    else record {
      left = left;
      avgslp = max_int (negsuc 49) (avgslp -ℤ pos 1);
      gives_up = not (gt_int left (pos 0));
    }

-- `MIN(proc->p_avgslp + (tick0 - ticks), MAX_AVGSLP)` of sleep: the sum and the comparison are those
-- of `uint`, since `ticks` is one. The words stand for ints; the result is stored in an int.
pub average_after_sleep : ℕ → ℕ → ℕ → ℕ
average_after_sleep avgslp tick0 ticks =
    let sum = (avgslp + (tick0 + 2 ^ 32 - ticks) % 2 ^ 32) % 2 ^ 32 in
    if ltb sum max_avgslp then sum else max_avgslp
