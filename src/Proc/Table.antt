-- ===== src/Proc/Table.antt =====
-- proc.h: the process table and the state that the functions change.
use yonix.Base.{ℕ, zero, suc, ◌-◌, Bool, true, false, Option, List, [], ◌∷◌, ◌==◌}
use yonix.Base.Int.{ℤ, pos}
use yonix.TailQueue.{TailQueue}
use yonix.Priority.{static_pri, time_slice, eternal, sched_rr_timeslice}

-- `enum procstat`
pub data Stat : Type 0 where
  sunused sembryo swait ssleeping ready srun szomb : Stat

abbrev pub is_ready : Stat → Bool
is_ready ready = true
is_ready _ = false

abbrev pub is_zombie : Stat → Bool
is_zombie szomb = true
is_zombie _ = false

abbrev pub is_sleeping : Stat → Bool
is_sleeping ssleeping = true
is_sleeping _ = false

-- `enum sched_method`
pub data Scheme : Type 0 where
  fifo rr priority : Scheme

-- `p_chan`: null, the address of a process, or another address.
pub data Chan : Type 0 where
  null : Chan
  at_proc : ℕ → Chan
  at_address : ℕ → Chan

abbrev pub same_chan : Chan → Chan → Bool
same_chan null null = true
same_chan (at_proc i) (at_proc j) = i == j
same_chan (at_address i) (at_address j) = i == j
same_chan _ _ = false

-- `struct proc`, with the registers of its trap frame and of its context that the code sets. A
-- pointer is an address, 0 being null; `parent` is `p_prt`.
pub record Proc : Type 0 where
  pub stat : Stat
  pub pid : ℕ
  pub procp : Bool
  pub parent : Option ℕ
  pub page : ℕ
  pub size : ℕ
  pub tf : ℕ  -- the trap frame's other registers
  pub tf_eax : ℕ
  pub tf_eip : ℕ
  pub tf_esp : ℕ
  pub kstack : ℕ
  pub stack : ℕ
  pub ctxt_eip : ℕ
  pub chan : Chan
  pub killed : Bool
  pub files : List ℕ
  pub cdir : ℕ
  pub name : List ℕ
  pub slice : ℤ
  pub creatime : ℕ
  pub nice : ℤ
  pub spri : ℤ
  pub dpri : ℤ
  pub avgslp : ℤ

-- What the functions ask of the other parts of the kernel.
pub data Effect : Type 0 where
  filedup fileclose : (file : ℕ) → Effect
  idup iput : (inode : ℕ) → Effect
  begin_op end_op : Effect
  kfree : (page : ℕ) → Effect
  freeuvm : (page pid : ℕ) → Effect

pub record State (tq : TailQueue) : Type 0 where
  pub table : List Proc
  pub esqueue : tq.Queue
  pub rdyqueue : tq.Queue
  pub rdy_q_dy : List tq.Queue
  pub scheme : Scheme
  pub nextpid : ℕ
  pub initproc : ℕ
  pub ticks : ℕ
  pub rr_next : ℕ  -- the static pointer of sched_rr
  pub effects : List Effect

-- `f` applied at an index of the table.
abbrev pub modify : ℕ → (Proc → Proc) → List Proc → List Proc
modify i f [] = []
modify zero f (p ∷ ps) = f p ∷ ps
modify (suc i) f (p ∷ ps) = p ∷ modify i f ps

-- The timeslice function of each scheme.
unfoldable pub set_timeslice : Scheme → Proc → Proc
set_timeslice fifo p = record p { slice = eternal }
set_timeslice rr p = record p { slice = sched_rr_timeslice }
set_timeslice priority p =
    let pri = static_pri p.nice in record p { spri = pri; slice = time_slice pri }

-- The index of the ready queue of a process, `p_dpri - 100`.
abbrev pub queue_index : Proc → ℕ
queue_index p = elim p.dpri [ pos n ↦ n - 100 | _ ↦ 0 ]
