-- ===== src/TailQueue.antt =====
-- The tail queues of queue_netbsd.h, which the kernel uses and does not implement: an interface.
-- An entry holds a slot, a number here; `entries` lists the slots in the order of Q_FOREACH.
use yonix.Base.{ℕ, zero, suc, ◌≡◌, refl, List, [], ◌∷◌, ◌++◌}

-- The list without its element at position `i`.
abbrev pub remove_at : ℕ → List ℕ → List ℕ
remove_at i [] = []
remove_at zero (x ∷ xs) = xs
remove_at (suc i) (x ∷ xs) = x ∷ remove_at i xs

pub record TailQueue : Type 1 where
  pub Queue : Type 0
  pub entries : Queue → List ℕ
  pub init : Queue  -- Q_INIT
  pub insert_tail : Queue → ℕ → Queue  -- Q_INSERT_TAIL
  pub remove : Queue → ℕ → Queue  -- Q_REMOVE of the entry at a position
  pub entries-init : entries init ≡ []
  pub entries-insert_tail : (q : Queue) (x : ℕ) → entries (insert_tail q x) ≡ entries q ++ x ∷ []
  pub entries-remove : (q : Queue) (i : ℕ) → entries (remove q i) ≡ remove_at i (entries q)

-- The lists themselves are such queues.
abbrev pub list_queue : TailQueue
list_queue = record {
  Queue = List ℕ;
  entries = λ q. q;
  init = [];
  insert_tail = λ q x. q ++ x ∷ [];
  remove = λ q i. remove_at i q;
  entries-init = refl;
  entries-insert_tail = λ q x. refl;
  entries-remove = λ q i. refl;
}
