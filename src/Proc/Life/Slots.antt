-- ===== src/Proc/Life/Slots.antt =====
-- Where the slots of the process table go when fork succeeds and when it fails.
use yonix.Base.{
  ℕ, ◌+◌, ◌≡◌, refl, ap, ◌∙◌, ◌≢◌, inl, inr, ◌||◌, none, some, List, [], ◌∷◌, ◌++◌, arith, ◌==◌,
  if◌then◌else◌, Bool-cases, get_elem?,
}
use yonix.TailQueue.{TailQueue, remove_at}
use yonix.Proc.Table.{
  sunused, Scheme, fifo, rr, priority, Proc, State, modify, set_timeslice, sembryo,
}
use yonix.Priority.{static_pri}
use yonix.Base.Int.{pos}
use yonix.Proc.Sched.{enqueue}
use yonix.Proc.Life.{procalloc, fork_after, fork, slot, first_slot, embryo}

module _ (tq : TailQueue) where
  open tq use {entries, insert_tail, remove, entries-insert_tail, entries-remove}

  first_slot-eq :
      (s : State tq) (i : ℕ) (q : Proc) (rest : List ℕ)
      → entries s.esqueue ≡ i ∷ rest
      → get_elem? s.table i ≡ some q
      → first_slot tq s ≡ some (i, q)
  first_slot-eq s i q rest h g = rw (h, first_slot) (rw (g, slot))

  es_after_remove :
      (s : State tq) (i : ℕ) (rest : List ℕ)
      → entries s.esqueue ≡ i ∷ rest
      → entries (remove s.esqueue 0) ≡ rest
  es_after_remove s i rest h = entries-remove s.esqueue 0 ∙ ap (remove_at 0) h

  enqueue-esqueue : (i : ℕ) (p : Proc) (s : State tq) → (enqueue tq i p s).esqueue ≡ s.esqueue
  enqueue-esqueue i p s = by_scheme s.scheme refl
    where
      by_scheme : (k : Scheme) → s.scheme ≡ k → (enqueue tq i p s).esqueue ≡ s.esqueue
      by_scheme fifo h = unfold enqueue in ground (arith, h)
      by_scheme rr h = unfold enqueue in ground (arith, h)
      by_scheme priority h = unfold enqueue in ground (arith, h)

  set_timeslice-pid : (k : Scheme) (p : Proc) → (set_timeslice k p).pid ≡ p.pid
  unfolding set_timeslice
  set_timeslice-pid fifo p = refl
  set_timeslice-pid rr p = refl
  set_timeslice-pid priority p = refl

  abbrev fresh : State tq → Proc → Proc
  fresh s q = record q {
    stat = sembryo;
    pid = s.nextpid;
    nice = pos 0;
    spri = static_pri (pos 0);
    creatime = s.ticks;
    avgslp = pos 0;
  }

  -- The process that procalloc makes, and the state that it leaves.
  abbrev new_proc : State tq → Proc → ℕ → Proc
  new_proc s q kstack = record (embryo tq s q) { kstack = kstack; ctxt_eip = 0 }

  abbrev lost_proc : State tq → Proc → ℕ → Proc
  lost_proc s q kstack = record (embryo tq s q) { kstack = kstack; stat = sunused }

  abbrev left : State tq → ℕ → Proc → State tq
  left s i p = record s {
    esqueue = remove s.esqueue 0;
    nextpid = s.nextpid + 1;
    table = modify i (λ q. p) s.table;
  }

  procalloc-ok :
      (s : State tq) (i : ℕ) (q : Proc) (kstack : ℕ)
      → first_slot tq s ≡ some (i, q)
      → kstack ≢ 0
      → procalloc tq kstack s ≡ (some (i, new_proc s q kstack), left s i (new_proc s q kstack))
  unfolding procalloc
  procalloc-ok s i q kstack h ne = ground (arith, h)

  procalloc-failed :
      (s : State tq) (i : ℕ) (q : Proc) (kstack : ℕ)
      → first_slot tq s ≡ some (i, q)
      → kstack ≡ 0
      → procalloc tq kstack s ≡ (none, left s i (lost_proc s q kstack))
  unfolding procalloc
  procalloc-failed s i q kstack h z = ground (arith, h)

  fork_cases :
      (c : ℕ) (cur : Proc) (kstack page forkret : ℕ) (s : State tq) (i : ℕ) (q : Proc)
      (rest : List ℕ)
      → entries s.esqueue ≡ i ∷ rest
      → get_elem? s.table i ≡ some q
      → let (pid, t) = fork tq c cur kstack page forkret s in
        (kstack ≢ 0 → page ≢ 0 → (pid ≡ some s.nextpid) × (entries t.esqueue ≡ rest))
        × (kstack ≢ 0 → page ≡ 0 → (pid ≡ none) × (entries t.esqueue ≡ rest ++ i ∷ []))
        × (kstack ≡ 0 → (pid ≡ none) × (entries t.esqueue ≡ rest))
  unfolding fork
  fork_cases c cur kstack page forkret s i q rest h g = (
    λ nk np. rw (procalloc-ok s i q kstack f nk) (made nk np),
    λ nk z. rw (procalloc-ok s i q kstack f nk) (unmade nk z),
    λ z.
        rw (procalloc-failed s i q kstack f z)
          (unfold fork_after in (refl, es_after_remove s i rest h)),
  )
    where
      f : first_slot tq s ≡ some (i, q)
      f = first_slot-eq s i q rest h g

      s1 : State tq
      s1 = left s i (new_proc s q kstack)

      made :
          kstack ≢ 0
          → page ≢ 0
          → let (pid, t) = fork_after tq c cur page forkret (some (i, new_proc s q kstack), s1) in
            (pid ≡ some s.nextpid) × (entries t.esqueue ≡ rest)
      made nk np = elim (Bool-cases (page == 0)) [
        | inl z ↦ absurd (ground arith)
        | inr nz ↦
            unfold fork_after in
            rw nz (
              ap some (set_timeslice-pid s.scheme (fresh s q)),
              ap entries (enqueue-esqueue i _ _) ∙ es_after_remove s i rest h,
            )
      ]

      unmade :
          kstack ≢ 0
          → page ≡ 0
          → let (pid, t) = fork_after tq c cur page forkret (some (i, new_proc s q kstack), s1) in
            (pid ≡ none) × (entries t.esqueue ≡ rest ++ i ∷ [])
      unmade nk z =
          unfold fork_after in
          rw z (
            refl,
            entries-insert_tail (remove s.esqueue 0) i
                ∙ ap (λ l. l ++ i ∷ []) (es_after_remove s i rest h),
          )

  -- Let `i` be the first empty slot and `rest` the others. fork takes slot `i` for the child and
  -- returns its pid, the next one; if copyuvm fails it returns -1 and slot `i` becomes the last
  -- empty slot; but if kalloc fails it returns -1 and slot `i` is in the queue no more: it is lost.
  pub fork-slots :
      (c : ℕ) (cur : Proc) (kstack page forkret : ℕ) (s : State tq) (i : ℕ) (q : Proc)
      (rest : List ℕ)
      → entries s.esqueue ≡ i ∷ rest
      → get_elem? s.table i ≡ some q
      → let (pid, t) = fork tq c cur kstack page forkret s in
        (pid ≡ (if kstack == 0 || page == 0 then none else some s.nextpid))
        × (entries t.esqueue
            ≡ (if kstack == 0 then rest else if page == 0 then rest ++ i ∷ [] else rest))
  fork-slots c cur kstack page forkret s i q rest h g =
      let (made, unmade, lost) = fork_cases c cur kstack page forkret s i q rest h g in
      elim (Bool-cases (kstack == 0)) [
        | inl z ↦ let (a, b) = lost (ground (arith, z)) in rw z (a, b)
        | inr nz ↦ elim (Bool-cases (page == 0)) [
          | inl y ↦
              let (a, b) = unmade (ground (arith, nz)) (ground (arith, y)) in rw (nz, y) (a, b)
          | inr ny ↦
              let (a, b) = made (ground (arith, nz)) (ground (arith, ny)) in rw (nz, ny) (a, b)
        ]
      ]
