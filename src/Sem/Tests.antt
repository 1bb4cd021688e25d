-- ===== src/Sem/Tests.antt =====
-- semaphore.c: one caller takes both units of a semaphore, the next sleeps.
use yonix.Base.{◌+◌, ◌≡◌, [], ◌∷◌}
use yonix.Base.Int.{pos, negsuc}
use yonix.Sem.Race.{System, fresh, Reach, units_twice}

abbrev waiting : System
waiting = record { value = pos 0; held = 2; asleep = 1 ∷ []; woken = []; passed = []; failed = [] }

units_twice_example :
    (s : System) × Reach (fresh (pos 1)) s × (s.held ≡ 1 + 1) × (s.value ≡ negsuc 0)
units_twice_example = units_twice 0
