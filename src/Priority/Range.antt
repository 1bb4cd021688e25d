-- ===== src/Priority/Range.antt =====
-- The ranges of the priorities and of the time slices.
use yonix.Base.{ℕ, zero, suc, ◌+◌, ◌-◌, ◌*◌, ◌<◌, ◌≡◌, ap, ◌∙◌, arith, dec_lt, leb}
use yonix.Base.Int.{ℤ, pos, negsuc, ◌+ℤ◌, ◌-ℤ◌, ◌≤ℤ◌}
use yonix.Priority.{
  max_int, min_int, min_timeslice, time_slice, dynamic_pri, Slice, timeslice_yield,
}

-- DYNAMIC_PRI gives a priority from 100 to 139 whatever the static priority and the bonus are, so
-- that `dpri - 100` is an index of the 40 ready queues.
pub dynamic_pri_range :
    (stpri bns : ℤ) → (i : ℕ) × (dynamic_pri stpri bns ≡ pos (100 + i)) × (i < 40)
unfolding dynamic_pri
dynamic_pri_range stpri bns = clamp (stpri -ℤ bns +ℤ pos 5)
  where
    clamp : (v : ℤ) → (i : ℕ) × (max_int (pos 100) (min_int v (pos 139)) ≡ pos (100 + i)) × (i < 40)
    clamp (negsuc n) = (0, ground arith, omega arith)
    clamp (pos n) = elim (dec_lt n 140) [
      | yes below ↦ (n - 100, ground arith, omega arith)
      | no above ↦ (39, ground arith, omega arith)
    ]

-- Every time slice of the priority scheme is at least MIN_TIMESLICE.
pub time_slice-min : (stpri : ℤ) → min_timeslice ≤ℤ time_slice stpri
unfolding time_slice
time_slice-min stpri = ground arith

-- What timeslice_yield finds at the (k + 1)-th timer interrupt.
pub yields : ℕ → ℤ → ℤ → Slice
yields zero slice avgslp = timeslice_yield slice avgslp
yields (suc k) slice avgslp = let s = timeslice_yield slice avgslp in yields k s.left s.avgslp

slice-left : (n : ℕ) (avgslp : ℤ) → 10 < n → (timeslice_yield (pos n) avgslp).left ≡ pos (n - 10)
unfolding timeslice_yield
slice-left n avgslp h = ground arith

-- A process with a time slice of `n` ms, of which 10 * k < n have passed, gives up the processor at
-- the (k + 1)-th timer interrupt exactly if 10 * (k + 1) has reached `n`.
pub yields-gives_up :
    (k n : ℕ) (avgslp : ℤ) → 10 * k < n → (yields k (pos n) avgslp).gives_up ≡ leb n (10 * (k + 1))
unfolding yields
yields-gives_up zero n avgslp h = unfold timeslice_yield in ground arith
yields-gives_up (suc k) n avgslp h =
    ap (λ s. (yields k s (timeslice_yield (pos n) avgslp).avgslp).gives_up)
      (slice-left n avgslp (omega arith))
    ∙ yields-gives_up k (n - 10) (timeslice_yield (pos n) avgslp).avgslp (omega arith)
    ∙ shift
  where
    shift : leb (n - 10) (10 * (k + 1)) ≡ leb n (10 * (suc k + 1))
    shift = ground arith
