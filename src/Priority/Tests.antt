-- ===== src/Priority/Tests.antt =====
-- The numbers of the scheduler at concrete values.
use yonix.Base.{ℕ, ◌+◌, ◌<◌, ◌≡◌}
use yonix.Base.Int.{pos}
use yonix.Priority.{dynamic_pri}
use yonix.Priority.Range.{dynamic_pri_range}

dynamic_pri_example : (i : ℕ) × (dynamic_pri (pos 120) (pos 10) ≡ pos (100 + i)) × (i < 40)
dynamic_pri_example = dynamic_pri_range (pos 120) (pos 10)
