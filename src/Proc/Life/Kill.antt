-- ===== src/Proc/Life/Kill.antt =====
-- What kill does to the table and to the ready queues.
use yonix.Base.{
  ℕ, suc, ◌+◌, ◌≡◌, refl, ap, subst, Bool, true, false, some, List, [], ◌∷◌, arith, ◌==◌,
  if◌then◌else◌, get_elem?, take, All,
}
use yonix.TailQueue.{TailQueue}
use yonix.Proc.Table.{ready, is_sleeping, Proc, State, modify}
use yonix.Proc.Life.{kill, kill_from}

abbrev pub victim : Proc → Proc
victim p = record p { killed = true; stat = if is_sleeping p.stat then ready else p.stat }

module _ (tq : TailQueue) where
  -- What a search of the processes `ps`, which stand in the table from index `i` on, does.
  abbrev pub Killed : ℕ → List Proc → ℕ → State tq → Bool × State tq → Type 0
  Killed i ps pid s (false, t) = All (λ p. p.pid == pid ≡ false) ps × (t ≡ s)
  Killed i ps pid s (true, t) =
      (k : ℕ) × (p : Proc) × (get_elem? ps k ≡ some p)
      × (p.pid ≡ pid)
      × All (λ q. q.pid == pid ≡ false) (take k ps)
      × (t.table ≡ modify (i + k) (λ q. victim p) s.table)
      × (t.rdyqueue ≡ s.rdyqueue)
      × (t.rdy_q_dy ≡ s.rdy_q_dy)

  Killed-cons :
      (i : ℕ) (p : Proc) (ps : List Proc) (pid : ℕ) (s : State tq) (r : Bool × State tq)
      → p.pid == pid ≡ false
      → Killed (i + 1) ps pid s r
      → Killed i (p ∷ ps) pid s r
  Killed-cons i p ps pid s (false, t) e (a, b) = ((e, a), b)
  Killed-cons i p ps pid s (true, t) e (k, q, g, f, a, tb, r, d) =
      let z : i + 1 + k ≡ i + suc k = omega arith in
      (suc k, q, g, f, (e, a), subst (λ n. t.table ≡ modify n (λ x. victim q) s.table) z tb, r, d)

  kill_from-Killed :
      (i : ℕ) (ps : List Proc) (pid : ℕ) (s : State tq)
      → Killed i ps pid s (kill_from tq i ps pid s)
  unfolding kill_from
  kill_from-Killed i [] pid s = (tt, refl)
  kill_from-Killed i (p ∷ ps) pid s =
      by_test (kill_from-Killed (i + 1) ps pid s) (p.pid == pid) refl
    where
      by_test :
          Killed (i + 1) ps pid s (kill_from tq (i + 1) ps pid s)
          → (b : Bool) → p.pid == pid ≡ b
          → Killed i (p ∷ ps) pid s (
              if b
              then (true, record s { table = modify i (λ q. victim p) s.table })
              else kill_from tq (i + 1) ps pid s)
      by_test ih true e =
          let z : i ≡ i + 0 = omega arith in
          (
            0,
            p,
            refl,
            ground (arith, e),
            tt,
            ap (λ n. modify n (λ q. victim p) s.table) z,
            refl,
            refl,
          )
      by_test ih false e = Killed-cons i p ps pid s _ e ih

  -- kill marks the first process of the table with the pid as killed and makes it ready if it
  -- sleeps, and puts it on no ready queue; if no process has the pid it changes nothing.
  pub kill-Killed : (pid : ℕ) (s : State tq) → Killed 0 s.table pid s (kill tq pid s)
  unfolding kill
  kill-Killed pid s = kill_from-Killed 0 s.table pid s
