-- ===== src/Proc/Tests.antt =====
-- The process table and the schedulers on a table of three processes.
use yonix.Base.{◌≡◌, ◌≢◌, ◌≤◌, arith, refl, true, false, none, some, [], ◌∷◌, map, replicate}
use yonix.Base.Int.{pos}
use yonix.TailQueue.{list_queue}
use yonix.Proc.Table.{sunused, ssleeping, ready, szomb, fifo, null, at_address, Proc, State}
use yonix.Proc.Sched.{wakeup, find_ready, sched_rr, sched_priority}
use yonix.Proc.Sched.Wakeup.{woken, wakeup_lem}
use yonix.Proc.Sched.Choice.{RoundRobin, ByPriority, sched_rr-RoundRobin, sched_priority-ByPriority}
use yonix.Proc.Sched.Bypass.{PassedOver, starts, calls, sched_rr_bypass}
use yonix.Proc.Life.{wait, lwp_join, fork, is_child, is_thread_of}
use yonix.Proc.Life.Reap.{wait_calls, join_calls, Pass, wait-Pass, lwp_join-Pass}
use yonix.Proc.Life.Slots.{fork-slots}

abbrev idle : Proc
idle = record {
  stat = sunused;
  pid = 0;
  procp = true;
  parent = none;
  page = 0;
  size = 0;
  tf = 0;
  tf_eax = 0;
  tf_eip = 0;
  tf_esp = 0;
  kstack = 0;
  stack = 0;
  ctxt_eip = 0;
  chan = null;
  killed = false;
  files = 0 ∷ [];
  cdir = 0;
  name = [];
  slice = pos 0;
  creatime = 0;
  nice = pos 0;
  spri = pos 120;
  dpri = pos 125;
  avgslp = pos 0;
}

abbrev shell : Proc
shell = record idle { stat = ssleeping; pid = 1; chan = at_address 5 }

abbrev zombie : Proc
zombie = record idle { stat = szomb; pid = 2; parent = some 0 }

abbrev state : State list_queue
state = record {
  table = shell ∷ zombie ∷ idle ∷ [];
  esqueue = 2 ∷ [];
  rdyqueue = [];
  rdy_q_dy = replicate 40 [];
  scheme = fifo;
  nextpid = 3;
  initproc = 0;
  ticks = 0;
  rr_next = 0;
  effects = [];
}

wakeup_example :
    (wakeup list_queue (at_address 5) state).table
    ≡ map (woken list_queue (at_address 5)) state.table
wakeup_example = wakeup_lem list_queue (at_address 5) state

sched_rr_example : RoundRobin list_queue state (sched_rr list_queue state)
sched_rr_example = sched_rr-RoundRobin list_queue state

-- The process of entry 1 can run; sched_rr passes it over once, for that of entry 0.
abbrev two_ready : State list_queue
two_ready = record state {
  table = (record shell { stat = ready }) ∷ (record zombie { stat = ready }) ∷ idle ∷ [];
}

abbrev after_one : State list_queue
after_one = record two_ready { rr_next = 1 }

other_chosen : (sched_rr list_queue two_ready).0 ≢ some 1
unfolding sched_rr find_ready
other_chosen e = absurd (ground (arith, e))

pointer_moved : after_one.rr_next ≡ (sched_rr list_queue two_ready).1.rr_next
unfolding sched_rr find_ready
pointer_moved = refl

passed_once : PassedOver list_queue 1 3 1 after_one
passed_once =
    calls after_one (starts two_ready (omega arith)) refl
      (record zombie { stat = ready }, refl, refl) other_chosen pointer_moved

sched_rr_bypass_example : 1 ≤ 3
sched_rr_bypass_example = sched_rr_bypass list_queue 1 3 1 after_one (omega arith) passed_once

sched_priority_example : ByPriority list_queue state (sched_priority list_queue state)
sched_priority_example = sched_priority-ByPriority list_queue state

abbrev queued : State list_queue
queued = record state { rdyqueue = 2 ∷ 0 ∷ [] }

wait_example :
    Pass list_queue
      (is_child list_queue 0)
      (wait_calls list_queue)
      0
      shell
      state
      (wait list_queue 0 shell state)
wait_example = wait-Pass list_queue 0 shell state

lwp_join_example :
    Pass list_queue
      (is_thread_of list_queue 0)
      (join_calls list_queue)
      0
      shell
      state
      (lwp_join list_queue 0 shell state)
lwp_join_example = lwp_join-Pass list_queue 0 shell state

fork_example :
    ((fork list_queue 0 shell 4096 8192 1 state).0 ≡ some 3)
    × ((fork list_queue 0 shell 4096 8192 1 state).1.esqueue ≡ [])
fork_example = fork-slots list_queue 0 shell 4096 8192 1 state 2 idle [] refl refl
