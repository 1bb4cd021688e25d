-- ===== src/Proc/Sched/Choice.antt =====
-- The choices of the schedulers.
use yonix.Base.{
  ℕ, zero, suc, ◌+◌, ◌-◌, ◌≤◌, ◌<◌, ◌≡◌, refl, ap, ◌∙◌, subst, inl, inr, true, false, Option, none,
  some, List, [], ◌∷◌, arith, Bool-cases, length, get_elem?, take, drop, All,
}
use yonix.TailQueue.{TailQueue, remove_at}
use yonix.Proc.Table.{srun, is_ready, Proc, State, modify}
use yonix.Proc.Sched.{
  at_queue, switch_to, find_ready, sched_rr, sched_fifo, sched_priority, find_queue,
}

-- No process of the list is ready.
abbrev pub NoneReady : List Proc → Type 0
NoneReady ps = All (λ p. is_ready p.stat ≡ false) ps

module _ (tq : TailQueue) where
  open tq use {Queue, entries, remove, entries-remove}

  record FoundReady (i : ℕ) (ps : List Proc) (j : ℕ) : Type 0 where
    at_least : i ≤ j
    below : j < i + length ps
    is_there : (p : Proc) × (get_elem? ps (j - i) ≡ some p) × (is_ready p.stat ≡ true)
    first_one : NoneReady (take (j - i) ps)

  find_ready-some :
      (i : ℕ) (ps : List Proc) (j : ℕ) → find_ready tq i ps ≡ some j → FoundReady i ps j
  unfolding find_ready
  find_ready-some i [] j h = absurd (ground arith)
  find_ready-some i (p ∷ ps) j h = elim (Bool-cases (is_ready p.stat)) [
    | inl here ↦
        let e : j ≡ i = ground arith in
        let z : j - i ≡ 0 = omega arith in
        record {
          at_least = omega arith;
          below = omega arith;
          is_there = (p, rw z refl, here);
          first_one = rw z tt;
        }
    | inr later ↦
        let ih = find_ready-some (i + 1) ps j (ground arith) in
        let z : j - i ≡ suc (j - (i + 1)) = omega (arith, ih.at_least) in
        record {
          at_least = omega (arith, ih.at_least);
          below = omega (arith, ih.below);
          is_there = (ih.is_there.0, rw z (ih.is_there.1), ih.is_there.2);
          first_one = rw z (later, ih.first_one);
        }
  ]

  find_ready-none : (i : ℕ) (ps : List Proc) → find_ready tq i ps ≡ none → NoneReady ps
  unfolding find_ready
  find_ready-none i [] h = tt
  find_ready-none i (p ∷ ps) h = elim (Bool-cases (is_ready p.stat)) [
    | inl here ↦ absurd (ground arith)
    | inr later ↦ (later, find_ready-none (i + 1) ps (ground arith))
  ]

  -- What a call of sched_rr chooses and leaves.
  abbrev pub RoundRobin : State tq → Option ℕ × State tq → Type 0
  RoundRobin s (some j, t) =
      (s.rr_next ≤ j)
      × ((p : Proc) × (get_elem? (drop s.rr_next s.table) (j - s.rr_next) ≡ some p)
          × (is_ready p.stat ≡ true))
      × NoneReady (take (j - s.rr_next) (drop s.rr_next s.table))
      × (t.rr_next ≡ j + 1)
      × (t.table ≡ modify j (λ p. record p { stat = srun }) s.table)
  RoundRobin s (none, t) =
      NoneReady (drop s.rr_next s.table) × (t.rr_next ≡ 0) × (t.table ≡ s.table)

  -- sched_rr chooses the first ready process from its static pointer on, which becomes the running
  -- process and moves the pointer behind it; if there is none, the pointer goes back to the start
  -- of the table, which does not change.
  pub sched_rr-RoundRobin : (s : State tq) → RoundRobin s (sched_rr tq s)
  unfolding sched_rr
  sched_rr-RoundRobin s = by_found (find_ready tq s.rr_next (drop s.rr_next s.table)) refl
    where
      by_found :
          (o : Option ℕ)
          → find_ready tq s.rr_next (drop s.rr_next s.table) ≡ o
          → RoundRobin s (elim o [
            | none ↦ (none, record s { rr_next = 0 })
            | some i ↦ (some i, record (switch_to tq i s) { rr_next = i + 1 })
          ])
      by_found none h = (find_ready-none s.rr_next (drop s.rr_next s.table) h, refl, refl)
      by_found (some j) h =
          let f = find_ready-some s.rr_next (drop s.rr_next s.table) j h in
          (f.at_least, f.is_there, f.first_one, refl, refl)

  -- The queues before index `i` are empty, and `x` is the first entry of the one at `i`.
  abbrev pub FirstQueue : ℕ → ℕ → List Queue → Type 0
  FirstQueue i x [] = ⊥
  FirstQueue zero x (q ∷ qs) = (rest : List ℕ) × (entries q ≡ x ∷ rest)
  FirstQueue (suc i) x (q ∷ qs) = (entries q ≡ []) × FirstQueue i x qs

  abbrev pub AllEmpty : List Queue → Type 0
  AllEmpty qs = All (λ q. entries q ≡ []) qs

  Searched : ℕ → List Queue → Option (ℕ × ℕ) → Type 0
  Searched i qs none = AllEmpty qs
  Searched i qs (some (j, x)) = (i ≤ j) × FirstQueue (j - i) x qs

  Searched-cons :
      (i : ℕ) (q : Queue) (qs : List Queue) (o : Option (ℕ × ℕ))
      → entries q ≡ []
      → Searched (i + 1) qs o
      → Searched i (q ∷ qs) o
  unfolding Searched
  Searched-cons i q qs none h r = (h, r)
  Searched-cons i q qs (some (j, x)) h (le, f) =
      let e : j - i ≡ suc (j - (i + 1)) = omega arith in (omega arith, rw e (h, f))

  find_queue-Searched : (i : ℕ) (qs : List Queue) → Searched i qs (find_queue tq i qs)
  unfolding find_queue
  find_queue-Searched i [] = unfold Searched in tt
  find_queue-Searched i (q ∷ qs) = by_entries (entries q) refl (find_queue-Searched (i + 1) qs)
    where
      by_entries :
          (l : List ℕ)
          → entries q ≡ l
          → Searched (i + 1) qs (find_queue tq (i + 1) qs)
          → Searched i (q ∷ qs) (elim (elim l as (λ k. Option ℕ) [ [] ↦ none | x ∷ xs ↦ some x ]) [
            | none ↦ find_queue tq (i + 1) qs
            | some x ↦ some (i, x)
          ])
      by_entries [] h ih = Searched-cons i q qs (find_queue tq (i + 1) qs) h ih
      by_entries (x ∷ xs) h ih =
          unfold Searched in let z : i - i ≡ 0 = omega arith in (omega arith, rw z (xs, h))

  -- What a call of sched_priority chooses and leaves.
  abbrev pub ByPriority : State tq → Option ℕ × State tq → Type 0
  ByPriority s (none, t) = AllEmpty s.rdy_q_dy × (t ≡ s)
  ByPriority s (some x, t) =
      (i : ℕ) × FirstQueue i x s.rdy_q_dy
      × (t.rdy_q_dy ≡ at_queue i (λ q. remove q 0) s.rdy_q_dy)
      × (t.table ≡ modify x (λ p. record p { stat = srun }) s.table)

  -- sched_priority chooses the first process of the first ready queue that is not empty, so none
  -- with a smaller priority number is waiting, takes it off that queue and makes it run; it chooses
  -- nothing only if all ready queues are empty, and then changes nothing.
  pub sched_priority-ByPriority : (s : State tq) → ByPriority s (sched_priority tq s)
  unfolding sched_priority Searched
  sched_priority-ByPriority s =
      by_found (find_queue tq 0 s.rdy_q_dy) (find_queue-Searched 0 s.rdy_q_dy)
    where
      by_found :
          (o : Option (ℕ × ℕ))
          → Searched 0 s.rdy_q_dy o
          → ByPriority s (elim o [
            | none ↦ (none, s)
            | some (i, x) ↦ (
              some x,
              switch_to tq x (record s { rdy_q_dy = at_queue i (λ q. remove q 0) s.rdy_q_dy }),
            )
          ])
      by_found none f = (f, refl)
      by_found (some (i, x)) f =
          let e : i - 0 ≡ i = omega arith in
          (i, subst (λ k. FirstQueue k x s.rdy_q_dy) e f.1, refl, refl)

  -- What a call of sched_fifo chooses and leaves.
  abbrev pub Fifo : List ℕ → State tq → Option ℕ × State tq → Type 0
  Fifo [] s (o, t) = (o ≡ none) × (t ≡ s)
  Fifo (x ∷ xs) s (o, t) =
      (o ≡ some x)
      × (entries t.rdyqueue ≡ xs)
      × (t.table ≡ modify x (λ p. record p { stat = srun }) s.table)

  -- sched_fifo chooses the first process of the ready queue, takes it off and makes it run; if the
  -- queue is empty it chooses nothing and changes nothing.
  pub sched_fifo-Fifo : (s : State tq) → Fifo (entries s.rdyqueue) s (sched_fifo tq s)
  unfolding sched_fifo
  sched_fifo-Fifo s = by_entries (entries s.rdyqueue) refl
    where
      by_entries :
          (l : List ℕ)
          → entries s.rdyqueue ≡ l
          → Fifo l s (elim (elim l as (λ k. Option ℕ) [ [] ↦ none | x ∷ xs ↦ some x ]) [
            | none ↦ (none, s)
            | some i ↦ (some i, switch_to tq i (record s { rdyqueue = remove s.rdyqueue 0 }))
          ])
      by_entries [] h = (refl, refl)
      by_entries (x ∷ xs) h = (refl, entries-remove s.rdyqueue 0 ∙ ap (remove_at 0) h, refl)
