-- ===== src/Syscall.antt =====
-- syscall.c, sysproc.c and atomic.c: how a system call fetches its arguments from user memory, and
-- the system calls that work on numbers there.
-- A word is a number below 2^32 that stands for a C int or uint; an int in memory is four bytes,
-- the lowest first. The calls run between `cli` and `sti`, or without a wait, so each is one step.
mod Tests
pub mod Args
pub mod Atomic
pub mod Words
pub mod Calls
use yonix.Base.{
  ℕ, zero, suc, ◌+◌, ◌-◌, ◌*◌, ◌/◌, ◌%◌, ◌^◌, ◌≤◌, ◌<◌, min, bit_and, bit_or, bit_xor, ◌≡◌, refl,
  sym, ap, ap₂, ◌∙◌, fun_ext, subst, ◌≢◌, ◌↔◌, ◌⊎◌, inl, inr, Bool, true, false, not, ◌&&◌, ◌||◌,
  Option, none, some, List, [], ◌∷◌, ◌++◌, map, append-nil, append_assoc, arith, dec_lt, dec_le,
  ℕ_discrete, Mem, update, ltb, leb, ◌==◌, if◌then◌else◌, ltb→lt, lt→ltb, le→ltb, ==_refl, ==_iff,
  Bool-cases, Option-cases, Nat-cases, length, get_elem?, get_or, set, take, drop, replicate, All,
  length-append, length-set, get_or-set_self, get_or-set_ne, length-replicate,
}
use mathlib.Core.Bool.{xor}
use yonix.Sem
use yonix.Words.{word, load32, store32}
use yonix.Base.Int.{ℤ, pos, negsuc, pos_part, neg_part, ◌+ℤ◌, ◌-ℤ◌}

-- The result -1.
abbrev pub minus_one : ℕ
minus_one = word - 1

-- The int that a word stands for, and the word of an int.
pub to_int : ℕ → ℤ
to_int w = if ltb w (2 ^ 31) then pos w else negsuc (word - 1 - w)

pub of_int : ℤ → ℕ
of_int (pos n) = n % word
of_int (negsuc n) = word - 1 - n % word

-- What the system calls see of the current process: `p_size`, the saved `esp`, the memory that its
-- page table maps (the kernel's part too), and the fields that they change.
pub record User : Type 0 where
  pub size : ℕ
  pub esp : ℕ
  pub mem : Mem
  pub pid : ℕ
  pub killed : Bool
  pub nice : ℤ

-- `fetchint`; `none` is -1.
pub fetchint : User → ℕ → Option ℕ
unfolding load32
fetchint u addr =
    if leb u.size addr || ltb u.size ((addr + 4) % word) then none else some (load32 u.mem addr)

-- The loop of fetchstr: `k` bytes are left up to `ep`, and `i` have been passed.
pub scan : ℕ → ℕ → ℕ → Mem → Option ℕ
scan zero s i m = none
scan (suc k) s i m = let rest = scan k s (i + 1) m in if m (s + i) == 0 then some i else rest

-- `fetchstr`: the length of the string at `addr`.
pub fetchstr : User → ℕ → Option ℕ
unfolding scan
fetchstr u addr = if leb u.size addr then none else scan (u.size - addr) addr 0 u.mem

pub argint : User → ℕ → Option ℕ
unfolding fetchint
argint u n = fetchint u ((u.esp + 4 + 4 * n) % word)

-- `argptr` with the int `size`; the pointer.
pub argptr : User → ℕ → ℤ → Option ℕ
unfolding argint
argptr u n (negsuc size) = elim (argint u n) [ none ↦ none | some i ↦ none ]
argptr u n (pos size) = elim (argint u n) [
  | none ↦ none
  | some i ↦ if leb u.size i || ltb u.size ((i + size) % word) then none else some i
]

-- `argstr`: the pointer and the length of the string.
pub argstr : User → ℕ → Option (ℕ × ℕ)
unfolding argint fetchstr
argstr u n = elim (argint u n) [
  | none ↦ none
  | some addr ↦ elim (fetchstr u addr) [ none ↦ none | some len ↦ some (addr, len) ]
]

-- What a call does: it returns a word, sleeps on a channel, panics, or raises a divide fault.
pub data Outcome : Type 0 where
  ret : (value : ℕ) → User → Outcome
  sleeps_on : (chan : ℕ) → Outcome
  panics : Outcome
  faults : Outcome

-- `if (sysc_argint(n, &x) < 0) return -1;`
abbrev pub with_int : User → ℕ → (ℕ → Outcome) → Outcome
with_int u n k = elim (argint u n) [ none ↦ ret minus_one u | some x ↦ k x ]

-- atomic.c. The C operators wrap at 32 bits; `/` and `%` are those of ints, which cut towards 0.
pub atomic_add : ℕ → ℕ → ℕ → Mem → Mem
atomic_add a b c m = store32 m c ((a + b) % word)

pub atomic_sub : ℕ → ℕ → ℕ → Mem → Mem
atomic_sub a b c m = store32 m c ((a + word - b) % word)

pub atomic_multi : ℕ → ℕ → ℕ → Mem → Mem
atomic_multi a b c m = store32 m c (a * b % word)

abbrev pub magnitude : ℤ → ℕ
magnitude a = pos_part a + neg_part a

-- The int with the magnitude `n`, and negative if the test holds.
abbrev pub signed : Bool → ℕ → ℤ
signed negative zero = pos 0
signed true (suc n) = negsuc n
signed false (suc n) = pos (suc n)

abbrev pub is_negative : ℤ → Bool
is_negative (pos n) = false
is_negative (negsuc n) = true

pub div_int : ℤ → ℤ → ℤ
div_int a b = signed (xor (is_negative a) (is_negative b)) (magnitude a / magnitude b)

pub mod_int : ℤ → ℤ → ℤ
mod_int a b = signed (is_negative a) (magnitude a % magnitude b)

-- The processor faults on a division by 0, and on -2^31 / -1, whose quotient is no int.
abbrev pub divides : ℕ → ℕ → Bool
divides a b = not (b == 0) && not (a == 2 ^ 31 && b == minus_one)

pub atomic_divide : ℕ → ℕ → ℕ → Mem → Option Mem
unfolding div_int to_int of_int
atomic_divide a b c m =
    if divides a b then some (store32 m c (of_int (div_int (to_int a) (to_int b)))) else none

pub atomic_mod : ℕ → ℕ → ℕ → Mem → Option Mem
unfolding mod_int to_int of_int
atomic_mod a b c m =
    if divides a b then some (store32 m c (of_int (mod_int (to_int a) (to_int b)))) else none

pub atomic_set : ℕ → ℕ → Mem → Mem
atomic_set a b m = store32 m a b

pub atomic_swap : ℕ → ℕ → Mem → Mem
atomic_swap a b m = let temp = load32 m a in store32 (store32 m a (load32 m b)) b temp

-- A call that stores and returns 0.
abbrev pub stores : User → Mem → Outcome
stores u m = ret 0 (record u { mem = m })

abbrev pub stores_if : User → Option Mem → Outcome
stores_if u o = elim o [ none ↦ faults | some m ↦ stores u m ]

pub sys_atom_add : User → Outcome
unfolding argint atomic_add
sys_atom_add u =
    with_int u 0 λ a. with_int u 1 λ b. with_int u 2 λ c. stores u (atomic_add a b c u.mem)

pub sys_atom_sub : User → Outcome
unfolding argint atomic_sub
sys_atom_sub u =
    with_int u 0 λ a. with_int u 1 λ b. with_int u 2 λ c. stores u (atomic_sub a b c u.mem)

pub sys_atom_mul : User → Outcome
unfolding argint atomic_multi
sys_atom_mul u =
    with_int u 0 λ a. with_int u 1 λ b. with_int u 2 λ c. stores u (atomic_multi a b c u.mem)

pub sys_atom_div : User → Outcome
unfolding argint atomic_divide
sys_atom_div u =
    with_int u 0 λ a. with_int u 1 λ b. with_int u 2 λ c. stores_if u (atomic_divide a b c u.mem)

pub sys_atom_mod : User → Outcome
unfolding argint atomic_mod
sys_atom_mod u =
    with_int u 0 λ a. with_int u 1 λ b. with_int u 2 λ c. stores_if u (atomic_mod a b c u.mem)

pub sys_atom_set : User → Outcome
unfolding argint atomic_set
sys_atom_set u = with_int u 0 λ a. with_int u 1 λ b. stores u (atomic_set a b u.mem)

pub sys_atom_swp : User → Outcome
unfolding argint atomic_swap
sys_atom_swp u = with_int u 0 λ a. with_int u 1 λ b. stores u (atomic_swap a b u.mem)

-- The semaphore at address `s`, after an operation of semaphore.c on its value.
abbrev pub on_sem : User → ℕ → Sem.Outcome → Outcome
on_sem u s (Sem.Outcome.done v wakes) = stores u (store32 u.mem s (of_int v))
on_sem u s Sem.Outcome.sleeps = sleeps_on s
on_sem u s Sem.Outcome.panics = panics

abbrev pub sem_at : User → ℕ → ℤ
sem_at u s = to_int (load32 u.mem s)

pub sys_sem_init : User → Outcome
unfolding argint of_int to_int
sys_sem_init u = with_int u 0 λ n. with_int u 1 λ s. on_sem u s (Sem.sem_init (to_int n))

pub sys_sem_p : User → Outcome
unfolding argint of_int to_int load32
sys_sem_p u = with_int u 0 λ d. with_int u 1 λ s. on_sem u s (Sem.sem_p (to_int d) (sem_at u s))

pub sys_sem_v : User → Outcome
unfolding argint of_int to_int load32
sys_sem_v u = with_int u 0 λ d. with_int u 1 λ s. on_sem u s (Sem.sem_v (to_int d) (sem_at u s))

pub sys_mut_init : User → Outcome
unfolding argint of_int
sys_mut_init u = with_int u 0 λ s. on_sem u s Sem.mutex_init

pub sys_mut_p : User → Outcome
unfolding argint of_int to_int load32
sys_mut_p u = with_int u 0 λ s. on_sem u s (Sem.mutex_p (sem_at u s))

pub sys_mut_v : User → Outcome
unfolding argint of_int to_int load32
sys_mut_v u = with_int u 0 λ s. on_sem u s (Sem.mutex_v (sem_at u s))

pub sys_getpid : User → Outcome
sys_getpid u = ret u.pid u

-- One pass of the loop of sys_sleep, `now` and `ticks0` being values of `ticks`; the channel is
-- the address of `ticks`. The uint difference is compared with the word of `n`.
pub sleep_pass : User → ℕ → ℕ → ℕ → ℕ → Outcome
sleep_pass u chan now ticks0 n =
    if ltb ((now + word - ticks0) % word) n
    then (if u.killed then ret minus_one u else sleeps_on chan)
    else ret 0 u

pub sys_sleep : User → ℕ → ℕ → Outcome
unfolding argint sleep_pass
sys_sleep u chan ticks = with_int u 0 λ n. sleep_pass u chan ticks ticks n

pub sys_uptime : User → ℕ → Outcome
sys_uptime u ticks = ret ticks u

abbrev pub min_nice : ℤ
min_nice = negsuc 14

abbrev pub max_nice : ℤ
max_nice = pos 15

-- `__incnice`
pub incnice : User → ℤ → Outcome
incnice u n =
    let aim = u.nice +ℤ n in
    if Sem.le_int min_nice aim && Sem.le_int aim max_nice
    then ret 0 (record u { nice = aim })
    else ret minus_one u

pub sys_incnice : User → Outcome
unfolding argint incnice to_int
sys_incnice u = with_int u 0 λ n. incnice u (to_int n)

pub sys_decnice : User → Outcome
unfolding argint incnice to_int
sys_decnice u = with_int u 0 λ n. incnice u (pos 0 -ℤ to_int n)
