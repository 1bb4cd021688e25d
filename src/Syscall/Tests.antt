-- ===== src/Syscall/Tests.antt =====
-- The system calls of a process of 64 bytes.
use yonix.Base.{ℕ, ◌+◌, ◌≤◌, ◌<◌, ◌≡◌, refl, false, some, arith, ◌==◌, if◌then◌else◌}
use yonix.Base.Int.{pos}
use yonix.Syscall.{User, fetchint, argint, argptr, argstr, fetchstr}
use yonix.Words.{load32}
use yonix.Syscall.Args.{argptr-inside}

-- A process of 64 bytes whose stack ends at 16: its arguments are 40 and 7.
abbrev user : User
user = record {
  size = 64;
  esp = 16;
  mem = λ a. if a == 20 then 40 else if a == 24 then 7 else 0;
  pid = 3;
  killed = false;
  nice = pos 0;
}

argptr_here : argptr user 0 (pos 8) ≡ some 40
unfolding argptr argint fetchint load32
argptr_here = refl

argptr_example : (argint user 0 ≡ some 40) × (40 < 64) × (40 + 8 ≤ 64)
argptr_example = argptr-inside user 0 8 (omega arith) (omega arith) argptr_here

argstr_here : argstr user 0 ≡ some (40, 0)
unfolding argstr argint fetchint load32 fetchstr
argstr_here = refl

user_bytes : (x : ℕ) → user.mem x < 256
user_bytes x = ground arith
