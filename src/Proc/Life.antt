-- ===== src/Proc/Life.antt =====
-- process.c: how processes and threads are made, end and are reaped.
-- The results of the memory functions (`kalloc`, `copyuvm`, the new `p_page`) are arguments.
pub mod Slots
pub mod Reap
pub mod Kill
use yonix.Base.{
  ℕ, zero, suc, ◌+◌, ◌-◌, ◌*◌, ◌/◌, ◌%◌, ◌^◌, ◌≤◌, ◌<◌, min, bit_and, bit_or, bit_xor, ◌≡◌, refl,
  sym, ap, ap₂, ◌∙◌, fun_ext, subst, ◌≢◌, ◌↔◌, ◌⊎◌, inl, inr, Bool, true, false, not, ◌&&◌, ◌||◌,
  Option, none, some, List, [], ◌∷◌, ◌++◌, map, append-nil, append_assoc, arith, dec_lt, dec_le,
  ℕ_discrete, Mem, update, ltb, leb, ◌==◌, if◌then◌else◌, ltb→lt, lt→ltb, le→ltb, ==_refl, ==_iff,
  Bool-cases, Option-cases, Nat-cases, length, get_elem?, get_or, set, take, drop, replicate, All,
  length-append, length-set, get_or-set_self, get_or-set_ne, length-replicate,
}
use yonix.Base.Int.{ℤ, pos}
use yonix.TailQueue.{TailQueue}
use yonix.Priority.{static_pri, dynamic_pri, bonus}
use yonix.Proc.Table.{
  Stat, sunused, sembryo, ssleeping, ready, szomb, is_zombie, is_sleeping, Chan, null, at_proc,
  Proc, Effect, filedup, fileclose, idup, iput, begin_op, end_op, kfree, freeuvm, State, modify,
  set_timeslice,
}
use yonix.Proc.Sched.{enqueue, wakeup, first, sleep}

-- `filedup` or `fileclose` of each open file.
abbrev pub each_file : (ℕ → Effect) → List ℕ → List Effect
each_file f [] = []
each_file f (x ∷ xs) = if x == 0 then each_file f xs else f x ∷ each_file f xs

-- The open files of a new process: the parent's, and where it has none what the slot held.
abbrev pub inherit : List ℕ → List ℕ → List ℕ
inherit [] ys = ys
inherit (x ∷ xs) [] = []
inherit (x ∷ xs) (y ∷ ys) = (if x == 0 then y else x) ∷ inherit xs ys

-- The result of an operation that may panic.
pub data Result {ℓ} (A : Type ℓ) : Type ℓ where
  ok : A → Result A
  panics : Result A

module _ (tq : TailQueue) where
  open tq use {entries, insert_tail, remove}

  abbrev pub emit : List Effect → State tq → State tq
  emit es s = record s { effects = s.effects ++ es }

  abbrev put : ℕ → Proc → State tq → State tq
  put i p s = record s { table = modify i (λ q. p) s.table }

  -- What procalloc makes of the slot's process `q`.
  abbrev pub embryo : State tq → Proc → Proc
  embryo s q =
      let p : Proc = record q {
        stat = sembryo;
        pid = s.nextpid;
        nice = pos 0;
        spri = static_pri (pos 0);
        creatime = s.ticks;
        avgslp = pos 0;
      } in
      let p1 = set_timeslice s.scheme p in
      record p1 { dpri = dynamic_pri p1.spri (bonus p1.avgslp) }

  -- The process in a slot that procalloc has taken off the queue; every slot is in the table.
  abbrev pub slot : ℕ → State tq → Option (ℕ × Proc)
  slot i s = elim (get_elem? s.table i) [ none ↦ none | some q ↦ some (i, q) ]

  abbrev pub first_slot : State tq → Option (ℕ × Proc)
  first_slot s = elim (first tq s.esqueue) [ none ↦ none | some i ↦ slot i s ]

  -- procalloc, given the result `kstack` of kalloc.
  pub procalloc : ℕ → State tq → Option (ℕ × Proc) × State tq
  procalloc kstack s = elim (first_slot s) [
    | none ↦ (none, s)
    | some (i, q) ↦
        let s1 : State tq = record s { esqueue = remove s.esqueue 0; nextpid = s.nextpid + 1 } in
        let p : Proc = record (embryo s q) { kstack = kstack } in
        if kstack == 0
        then (none, put i (record p { stat = sunused }) s1)
        else (some (i, record p { ctxt_eip = 0 }), put i (record p { ctxt_eip = 0 }) s1)
  ]

  -- What fork does with the result of procalloc.
  pub fork_after : ℕ → Proc → ℕ → ℕ → Option (ℕ × Proc) × State tq → Option ℕ × State tq
  fork_after c cur page forkret (none, s1) = (none, s1)
  fork_after c cur page forkret (some (i, np), s1) =
      let failed : Proc = record np { page = 0; kstack = 0; stat = sunused } in
      let child : Proc = record np {
        page = page;
        size = cur.size;
        parent = some c;
        tf = cur.tf;
        tf_eip = cur.tf_eip;
        tf_esp = cur.tf_esp;
        tf_eax = 0;
        ctxt_eip = forkret;
        files = inherit cur.files np.files;
        cdir = cur.cdir;
        name = cur.name;
        procp = true;
        stat = ready;
      } in
      if page == 0
      then (
        none,
        emit (kfree np.kstack ∷ [])
            (put i failed (record s1 { esqueue = insert_tail s1.esqueue i })),
      )
      else (
        some np.pid,
        enqueue tq i child
            (emit (each_file filedup cur.files ++ idup cur.cdir ∷ []) (put i child s1)),
      )

  -- fork by the process `cur` at index `c`. `page` is the result of copyuvm, `forkret` the address
  -- of that function. The pid, or `none` for -1.
  pub fork : ℕ → Proc → ℕ → ℕ → ℕ → State tq → Option ℕ × State tq
  fork c cur kstack page forkret s = fork_after c cur page forkret (procalloc kstack s)

  -- `search_through_ptablef(p) if (p->p_prt == proc) { ... }` of exit, from index `i` on.
  pub orphan_from : ℕ → List Proc → ℕ → State tq → State tq
  orphan_from i [] c s = s
  orphan_from i (p ∷ ps) c s =
      let moved : State tq = record s {
        table = modify i (λ r. record r { parent = some s.initproc }) s.table;
      } in
      let mine : Bool = elim p.parent [ none ↦ false | some j ↦ j == c ] in
      orphan_from (i + 1) ps c (
        if mine
        then (if is_zombie p.stat then wakeup tq (at_proc s.initproc) moved else moved)
        else s)

  -- The channel of a process's parent.
  abbrev pub parent_chan : Proc → Chan
  parent_chan p = elim p.parent [ none ↦ null | some j ↦ at_proc j ]

  -- exit by the process `cur` at index `c`, up to the switch.
  pub exit : ℕ → Proc → State tq → Result (State tq)
  unfolding orphan_from
  exit c cur s =
      let closed = replicate (length cur.files) 0 in
      let s1 =
        emit (each_file fileclose cur.files ++ begin_op ∷ iput cur.cdir ∷ end_op ∷ [])
          (record s { table = modify c (λ p. record p { files = closed; cdir = 0 }) s.table }) in
      let s2 = wakeup tq (parent_chan cur) s1 in
      let s3 = orphan_from 0 s2.table c s2 in
      if c == s.initproc
      then panics
      else ok (record s3 { table = modify c (λ p. record p { stat = szomb }) s3.table })

  -- kill: whether the pid is found.
  pub kill_from : ℕ → List Proc → ℕ → State tq → Bool × State tq
  kill_from i [] pid s = (false, s)
  kill_from i (p ∷ ps) pid s =
      let rest = kill_from (i + 1) ps pid s in
      let killed : Proc = record p {
        killed = true;
        stat = if is_sleeping p.stat then ready else p.stat;
      } in
      if p.pid == pid then (true, put i killed s) else rest

  pub kill : ℕ → State tq → Bool × State tq
  unfolding kill_from
  kill pid s = kill_from 0 s.table pid s

  -- What one pass of wait or lwp_join does: it reaps a child and returns its pid and `p_stack`,
  -- returns -1, or sleeps on the caller's own address.
  pub data Waited : Type 0 where
    reaped : (pid stack : ℕ) → State tq → Waited
    no_child : Waited
    sleeps : State tq → Waited

  abbrev pub is_child : ℕ → Proc → Bool
  is_child c p = elim p.parent [ none ↦ false | some j ↦ j == c ]

  -- The index of the first process from `i` on that has the test.
  pub find_proc : (Proc → Bool) → ℕ → List Proc → Option (ℕ × Proc)
  find_proc t i [] = none
  find_proc t i (p ∷ ps) = let rest = find_proc t (i + 1) ps in if t p then some (i, p) else rest

  abbrev pub any_proc : (Proc → Bool) → List Proc → Bool
  any_proc t [] = false
  any_proc t (p ∷ ps) = t p || any_proc t ps

  -- A reaped slot, which goes to the tail of the queue of empty slots.
  abbrev pub reap : ℕ → State tq → State tq
  reap i s = record s {
    table =
        modify i
          (λ p. record p {
            kstack = 0;
            pid = 0;
            parent = none;
            name = [];
            killed = false;
            stat = sunused;
          })
          s.table;
    esqueue = insert_tail s.esqueue i;
  }

  -- One pass of wait by the process `cur` at index `c`.
  pub wait : ℕ → Proc → State tq → Waited
  unfolding find_proc sleep
  wait c cur s = elim (find_proc (λ p. is_child c p && is_zombie p.stat) 0 s.table) [
    | some (i, p) ↦
        reaped p.pid p.stack (emit (kfree p.kstack ∷ freeuvm p.page p.pid ∷ []) (reap i s))
    | none ↦
        if not (any_proc (is_child c) s.table) || cur.killed
        then no_child
        else sleeps (sleep tq c (at_proc c) s)
  ]

  -- A thread that the process at index `c` waits for.
  abbrev pub is_thread_of : ℕ → Proc → Bool
  is_thread_of c p = is_child c p && not p.procp

  -- One pass of lwp_join.
  pub lwp_join : ℕ → Proc → State tq → Waited
  unfolding find_proc sleep
  lwp_join c cur s = elim (find_proc (λ p. is_thread_of c p && is_zombie p.stat) 0 s.table) [
    | some (i, p) ↦ reaped p.pid p.stack (emit (kfree p.kstack ∷ []) (reap i s))
    | none ↦
        if not (any_proc (is_thread_of c) s.table) || cur.killed
        then no_child
        else sleeps (sleep tq c (at_proc c) s)
  ]

  -- What lwp_create does with the result of procalloc, but for the two words that it stores on the
  -- new stack.
  pub lwp_after : ℕ → Proc → ℕ → ℕ → ℕ → ℕ → Option (ℕ × Proc) × State tq → Option ℕ × State tq
  lwp_after c cur forkret task stack stksz (none, s1) = (none, s1)
  lwp_after c cur forkret task stack stksz (some (i, np), s1) =
      let lwp : Proc = record np {
        page = cur.page;
        size = cur.size;
        parent = if cur.procp then some c else cur.parent;
        tf = cur.tf;
        tf_eax = 0;
        ctxt_eip = forkret;
        tf_eip = task;
        stack = stack;
        tf_esp = (stack + stksz + 2 ^ 32 - 8) % 2 ^ 32;
        files = inherit cur.files np.files;
        cdir = cur.cdir;
        name = cur.name;
        procp = false;
        stat = ready;
      } in
      let half : Proc = record np { page = 0; size = cur.size } in
      if cur.page == 0 then (none, put i half s1) else (
        some np.pid,
        enqueue tq i lwp (emit (each_file filedup cur.files ++ idup cur.cdir ∷ []) (put i lwp s1)),
      )

  -- lwp_create by the process `cur` at index `c`. The pid, or `none` for -1.
  pub lwp_create : ℕ → Proc → ℕ → ℕ → ℕ → ℕ → ℕ → State tq → Option ℕ × State tq
  lwp_create c cur kstack forkret task stack stksz s =
      lwp_after c cur forkret task stack stksz (procalloc kstack s)
