-- ===== src/Proc/Life/Reap.antt =====
-- What one pass of wait and of lwp_join does.
use yonix.Base.{
  zero, ◌≢◌, ℕ, suc, ◌+◌, ◌-◌, ◌≤◌, ◌≡◌, refl, ap, subst, ◌⊎◌, inl, inr, Bool, true, false, not,
  ◌&&◌, ◌||◌, Option, none, some, List, [], ◌∷◌, ◌++◌, arith, if◌then◌else◌, Bool-cases, get_elem?,
  All,
}
use yonix.TailQueue.{TailQueue}
use yonix.Proc.Table.{modify, sunused, Effect, is_zombie, at_proc, Proc, State, kfree, freeuvm}
use yonix.Proc.Sched.{sleep}
use yonix.Proc.Life.{
  Waited, reaped, no_child, sleeps, find_proc, any_proc, is_child, is_thread_of, wait, lwp_join,
  reap, emit,
}

-- No process of the list passes the test.
abbrev pub NoProc : (Proc → Bool) → List Proc → Type 0
NoProc t ps = All (λ p. t p ≡ false) ps

-- Some process of the list passes it.
abbrev pub SomeProc : (Proc → Bool) → List Proc → Type 0
SomeProc t ps = (i : ℕ) × (p : Proc) × (get_elem? ps i ≡ some p) × (t p ≡ true)

module _ (tq : TailQueue) where
  open tq use {entries, insert_tail, entries-insert_tail}

  any_proc-true : (t : Proc → Bool) (ps : List Proc) → any_proc tq t ps ≡ true → SomeProc t ps
  any_proc-true t [] h = absurd (ground arith)
  any_proc-true t (p ∷ ps) h = elim (Bool-cases (t p)) [
    | inl e ↦ (0, p, refl, e)
    | inr e ↦ let (i, q, g, f) = any_proc-true t ps (ground (arith, e)) in (suc i, q, g, f)
  ]

  any_proc-false : (t : Proc → Bool) (ps : List Proc) → any_proc tq t ps ≡ false → NoProc t ps
  any_proc-false t [] h = tt
  any_proc-false t (p ∷ ps) h = elim (Bool-cases (t p)) [
    | inl e ↦ absurd (ground arith)
    | inr e ↦ (e, any_proc-false t ps (ground (arith, e)))
  ]

  find_proc-none :
      (t : Proc → Bool) (i : ℕ) (ps : List Proc) → find_proc tq t i ps ≡ none → NoProc t ps
  unfolding find_proc
  find_proc-none t i [] h = tt
  find_proc-none t i (p ∷ ps) h = elim (Bool-cases (t p)) [
    | inl e ↦ absurd (ground arith)
    | inr e ↦ (e, find_proc-none t (i + 1) ps (ground arith))
  ]

  find_proc-some :
      (t : Proc → Bool) (i : ℕ) (ps : List Proc) (j : ℕ) (q : Proc)
      → find_proc tq t i ps ≡ some (j, q)
      → (i ≤ j) × (get_elem? ps (j - i) ≡ some q) × (t q ≡ true)
  unfolding find_proc
  find_proc-some t i [] j q h = absurd (ground arith)
  find_proc-some t i (p ∷ ps) j q h = elim (Bool-cases (t p)) [
    | inl e ↦
        let a : i ≡ j = ground arith in
        let b : p ≡ q = ground arith in
        let z : j - i ≡ 0 = omega arith in
        (omega arith, rw z (ap some b), subst (λ r. t r ≡ true) b e)
    | inr e ↦
        let (le, g, f) = find_proc-some t (i + 1) ps j q (ground arith) in
        let z : j - i ≡ suc (j - (i + 1)) = omega (arith, le) in (omega (arith, le), rw z g, f)
  ]

  -- Slot `i` is empty: it has no process, parent, name or stack.
  pub record Emptied (u : State tq) (i : ℕ) : Type 0 where
    pub entry : Proc
    pub there : get_elem? u.table i ≡ some entry
    pub stat : entry.stat ≡ sunused
    pub pid : entry.pid ≡ 0
    pub parent : entry.parent ≡ none
    pub kstack : entry.kstack ≡ 0
    pub name : entry.name ≡ []
    pub killed : entry.killed ≡ false

  -- What one pass over the children that pass the test `t` finds and leaves; `calls` are the calls on
  -- the memory of the child that is reaped.
  abbrev pub Pass : (Proc → Bool) → (Proc → List Effect) → ℕ → Proc → State tq → Waited tq → Type 0
  Pass t calls c cur s (reaped pid stack u) =
      (i : ℕ) × (p : Proc) × (get_elem? s.table i ≡ some p)
      × (t p && is_zombie p.stat ≡ true)
      × (pid ≡ p.pid)
      × (stack ≡ p.stack)
      × Emptied u i
      × ((j : ℕ) → i ≢ j → get_elem? u.table j ≡ get_elem? s.table j)
      × (entries u.esqueue ≡ entries s.esqueue ++ i ∷ [])
      × (u.effects ≡ s.effects ++ calls p)
  Pass t calls c cur s no_child =
      NoProc (λ p. t p && is_zombie p.stat) s.table × (NoProc t s.table ⊎ (cur.killed ≡ true))
  Pass t calls c cur s (sleeps u) =
      NoProc (λ p. t p && is_zombie p.stat) s.table
      × SomeProc t s.table
      × (u ≡ sleep tq c (at_proc c) s)

  modify_there :
      (i : ℕ) (f : Proc → Proc) (ps : List Proc) (p : Proc)
      → get_elem? ps i ≡ some p
      → get_elem? (modify i f ps) i ≡ some (f p)
  modify_there i f [] p h = absurd (ground (arith, h))
  modify_there zero f (q ∷ ps) p h = let e : q ≡ p = ground (arith, h) in ap (λ r. some (f r)) e
  modify_there (suc i) f (q ∷ ps) p h = modify_there i f ps p h

  modify_else :
      (i : ℕ) (f : Proc → Proc) (ps : List Proc) (j : ℕ)
      → i ≢ j
      → get_elem? (modify i f ps) j ≡ get_elem? ps j
  modify_else i f [] j ne = refl
  modify_else zero f (q ∷ ps) zero ne = absurd (ne refl)
  modify_else zero f (q ∷ ps) (suc j) ne = refl
  modify_else (suc i) f (q ∷ ps) zero ne = refl
  modify_else (suc i) f (q ∷ ps) (suc j) ne = modify_else i f ps j (λ e. ne (ap suc e))

  reap-Emptied :
      (i : ℕ) (s : State tq) (p : Proc) (es : List Effect)
      → get_elem? s.table i ≡ some p
      → Emptied (emit tq es (reap tq i s)) i
  reap-Emptied i s p es h = record {
    entry = record p {
      kstack = 0;
      pid = 0;
      parent = none;
      name = [];
      killed = false;
      stat = sunused;
    };
    there = modify_there i _ s.table p h;
    stat = refl;
    pid = refl;
    parent = refl;
    kstack = refl;
    name = refl;
    killed = refl;
  }

  -- wait frees the kernel stack and the page table of the child, lwp_join the kernel stack of the thread.
  abbrev pub wait_calls : Proc → List Effect
  wait_calls p = kfree p.kstack ∷ freeuvm p.page p.pid ∷ []

  abbrev pub join_calls : Proc → List Effect
  join_calls p = kfree p.kstack ∷ []

  waits :
      (t : Proc → Bool) (calls : Proc → List Effect) (c : ℕ) (cur : Proc) (s : State tq)
      → NoProc (λ p. t p && is_zombie p.stat) s.table
      → Pass t calls c cur s (
          if not (any_proc tq t s.table) || cur.killed
          then no_child
          else sleeps (sleep tq c (at_proc c) s))
  waits t calls c cur s h = elim (Bool-cases (any_proc tq t s.table)) [
    | inr e ↦ rw e (h, inl (any_proc-false t s.table e))
    | inl e ↦ elim (Bool-cases cur.killed) [
      | inl k ↦ rw (e, k) (h, inr refl)
      | inr k ↦ rw (e, k) (h, any_proc-true t s.table e, refl)
    ]
  ]

  -- One pass of wait by the process at index `c` reaps a zombie child if there is one and returns
  -- its pid: it frees the kernel stack and the page table of the child, clears its slot, puts the
  -- slot at the tail of the queue of empty slots and changes no other slot; it returns -1 only if
  -- the process has no child or is killed, and no child is a zombie; and it sleeps on its own
  -- address only if it has a child and none is a zombie.
  pub wait-Pass :
      (c : ℕ) (cur : Proc) (s : State tq)
      → Pass (is_child tq c) wait_calls c cur s (wait tq c cur s)
  unfolding wait
  wait-Pass c cur s =
      by_found (find_proc tq (λ p. is_child tq c p && is_zombie p.stat) 0 s.table) refl
    where
      by_found :
          (o : Option (ℕ × Proc))
          → find_proc tq (λ p. is_child tq c p && is_zombie p.stat) 0 s.table ≡ o
          → Pass (is_child tq c) wait_calls c cur s (elim o [
            | some (i, p) ↦
                reaped p.pid p.stack
                  (emit tq (kfree p.kstack ∷ freeuvm p.page p.pid ∷ []) (reap tq i s))
            | none ↦
                if not (any_proc tq (is_child tq c) s.table) || cur.killed
                then no_child
                else sleeps (sleep tq c (at_proc c) s)
          ])
      by_found none h = waits (is_child tq c) wait_calls c cur s (find_proc-none _ 0 s.table h)
      by_found (some (i, p)) h =
          let (le, g, f) = find_proc-some _ 0 s.table i p h in
          let z : i - 0 ≡ i = omega arith in
          let here = subst (λ k. get_elem? s.table k ≡ some p) z g in
          (
            i,
            p,
            here,
            f,
            refl,
            refl,
            reap-Emptied i s p (wait_calls p) here,
            (λ j ne. modify_else i _ s.table j ne),
            entries-insert_tail s.esqueue i,
            refl,
          )

  -- One pass of lwp_join does the same with the threads of the process in place of its children, but
  -- frees only the kernel stack, and returns the stack of the thread that it reaps.
  pub lwp_join-Pass :
      (c : ℕ) (cur : Proc) (s : State tq)
      → Pass (is_thread_of tq c) join_calls c cur s (lwp_join tq c cur s)
  unfolding lwp_join
  lwp_join-Pass c cur s =
      by_found (find_proc tq (λ p. is_thread_of tq c p && is_zombie p.stat) 0 s.table) refl
    where
      by_found :
          (o : Option (ℕ × Proc))
          → find_proc tq (λ p. is_thread_of tq c p && is_zombie p.stat) 0 s.table ≡ o
          → Pass (is_thread_of tq c) join_calls c cur s (elim o [
            | some (i, p) ↦ reaped p.pid p.stack (emit tq (kfree p.kstack ∷ []) (reap tq i s))
            | none ↦
                if not (any_proc tq (is_thread_of tq c) s.table) || cur.killed
                then no_child
                else sleeps (sleep tq c (at_proc c) s)
          ])
      by_found none h = waits (is_thread_of tq c) join_calls c cur s (find_proc-none _ 0 s.table h)
      by_found (some (i, p)) h =
          let (le, g, f) = find_proc-some _ 0 s.table i p h in
          let z : i - 0 ≡ i = omega arith in
          let here = subst (λ k. get_elem? s.table k ≡ some p) z g in
          (
            i,
            p,
            here,
            f,
            refl,
            refl,
            reap-Emptied i s p (join_calls p) here,
            (λ j ne. modify_else i _ s.table j ne),
            entries-insert_tail s.esqueue i,
            refl,
          )
