-- ===== src/Proc/Sched.antt =====
-- The schedulers: enqueue, choice of the next process, wakeup, and giving up the processor.
pub mod Wakeup
pub mod Choice
pub mod Bypass
use yonix.Base.{
  ℕ, zero, suc, ◌+◌, ◌-◌, ◌*◌, ◌/◌, ◌%◌, ◌^◌, ◌≤◌, ◌<◌, min, bit_and, bit_or, bit_xor, ◌≡◌, refl,
  sym, ap, ap₂, ◌∙◌, fun_ext, subst, ◌≢◌, ◌↔◌, ◌⊎◌, inl, inr, Bool, true, false, not, ◌&&◌, ◌||◌,
  Option, none, some, List, [], ◌∷◌, ◌++◌, map, append-nil, append_assoc, arith, dec_lt, dec_le,
  ℕ_discrete, Mem, update, ltb, leb, ◌==◌, if◌then◌else◌, ltb→lt, lt→ltb, le→ltb, ==_refl, ==_iff,
  Bool-cases, Option-cases, Nat-cases, length, get_elem?, get_or, set, take, drop, replicate, All,
  length-append, length-set, get_or-set_self, get_or-set_ne, length-replicate,
}
use yonix.Base.Int.{ℤ, pos, negsuc, ◌+ℤ◌}
use yonix.TailQueue.{TailQueue}
use yonix.Priority.{dynamic_pri, bonus}
use yonix.Proc.Table.{
  Stat, sunused, ready, srun, ssleeping, is_ready, is_sleeping, Scheme, fifo, rr, priority, Chan,
  null, same_chan, Proc, State, modify, set_timeslice, queue_index,
}

-- The queues of a list, with `f` applied to the one at an index.
abbrev pub at_queue {ℓ} : {Q : Type ℓ} → ℕ → (Q → Q) → List Q → List Q
at_queue i f [] = []
at_queue zero f (q ∷ qs) = f q ∷ qs
at_queue (suc i) f (q ∷ qs) = q ∷ at_queue i f qs

-- The position of the first entry that is `x`, or the number of entries.
abbrev pub position : ℕ → List ℕ → ℕ
position x [] = 0
position x (y ∷ ys) = if y == x then 0 else suc (position x ys)

module _ (tq : TailQueue) where
  open tq use {Queue, entries, insert_tail, remove}

  -- `sched_reftable[cpu->scheme].enqueue(p)` for the process `p` at index `i`.
  unfoldable pub enqueue : ℕ → Proc → State tq → State tq
  enqueue i p s = elim s.scheme [
    | fifo ↦ record s { rdyqueue = insert_tail s.rdyqueue i }
    | rr ↦ s
    | priority ↦ record s { rdy_q_dy = at_queue (queue_index p) (λ q. insert_tail q i) s.rdy_q_dy }
  ]

  -- `p->p_stat == SSLEEPING && p->p_chan == e`
  abbrev pub sleeps_on : Chan → Proc → Bool
  sleeps_on e p = is_sleeping p.stat && same_chan p.chan e

  -- The loop of wakeup over the processes from index `i` on.
  pub wakeup_from : ℕ → List Proc → Chan → State tq → State tq
  unfolding enqueue
  wakeup_from i [] e s = s
  wakeup_from i (p ∷ ps) e s = wakeup_from (i + 1) ps e (
      if sleeps_on e p
      then enqueue i (record p { stat = ready })
          (record s { table = modify i (λ q. record q { stat = ready }) s.table })
      else s)

  pub wakeup : Chan → State tq → State tq
  unfolding wakeup_from
  wakeup e s = wakeup_from 0 s.table e s

  -- `switch_to(p)` up to the switch.
  abbrev pub switch_to : ℕ → State tq → State tq
  switch_to i s = record s { table = modify i (λ p. record p { stat = srun }) s.table }

  -- The first entry of a queue.
  abbrev pub first : Queue → Option ℕ
  first q = elim (entries q) [ [] ↦ none | x ∷ xs ↦ some x ]

  -- The choice of each scheme: the process that it switches to, if any. `proc` is 0 whenever the
  -- scheduler's loop calls these, so the first test of sched_fifo fails.
  pub sched_fifo : State tq → Option ℕ × State tq
  sched_fifo s = elim (first s.rdyqueue) [
    | none ↦ (none, s)
    | some i ↦ (some i, switch_to i (record s { rdyqueue = remove s.rdyqueue 0 }))
  ]

  -- The loop of sched_rr: the index of the first ready process, counted from `i`.
  unfoldable pub find_ready : ℕ → List Proc → Option ℕ
  find_ready i [] = none
  find_ready i (p ∷ ps) =
      let rest = find_ready (i + 1) ps in if is_ready p.stat then some i else rest

  unfoldable pub sched_rr : State tq → Option ℕ × State tq
  unfolding find_ready
  sched_rr s = elim (find_ready s.rr_next (drop s.rr_next s.table)) [
    | none ↦ (none, record s { rr_next = 0 })
    | some i ↦ (some i, record (switch_to i s) { rr_next = i + 1 })
  ]

  -- The loop of sched_priority over the queues from index `i` on: the first that is not empty, and
  -- its first entry.
  pub find_queue : ℕ → List Queue → Option (ℕ × ℕ)
  find_queue i [] = none
  find_queue i (q ∷ qs) =
      let rest = find_queue (i + 1) qs in elim (first q) [ none ↦ rest | some x ↦ some (i, x) ]

  pub sched_priority : State tq → Option ℕ × State tq
  unfolding find_queue
  sched_priority s = elim (find_queue 0 s.rdy_q_dy) [
    | none ↦ (none, s)
    | some (i, x) ↦
        (some x, switch_to x (record s { rdy_q_dy = at_queue i (λ q. remove q 0) s.rdy_q_dy }))
  ]

  -- `after` of each scheme, for the current process `p` at index `i`.
  pub after : ℕ → Proc → State tq → State tq
  unfolding set_timeslice
  after i p s = elim s.scheme [
    | fifo ↦ record s { table = modify i (set_timeslice fifo) s.table }
    | rr ↦ record s { table = modify i (set_timeslice rr) s.table }
    | priority ↦
        let p1 = set_timeslice priority p in
        let p2 : Proc = record p1 { dpri = dynamic_pri p1.spri (bonus p1.avgslp) } in
        let qs = at_queue (queue_index p) (λ q. remove q (position i (entries q))) s.rdy_q_dy in
        record s {
          table = modify i (λ q. p2) s.table;
          rdy_q_dy = at_queue (queue_index p2) (λ q. insert_tail q i) qs;
        }
  ]

  -- `giveup_cpu` up to the switch, for the current process `p` at index `i`.
  pub giveup_cpu : ℕ → Proc → State tq → State tq
  unfolding enqueue after
  giveup_cpu i p s =
      let p1 : Proc = record p { stat = ready } in
      after i p1 (enqueue i p1 (record s { table = modify i (λ q. p1) s.table }))

  -- `sleep` up to the switch; what follows the switch is `average_after_sleep` of Priority.
  unfoldable pub sleep : ℕ → Chan → State tq → State tq
  sleep i e s = record s { table = modify i (λ p. record p { chan = e; stat = ssleeping }) s.table }
