-- ===== src/Pipe.antt =====
-- pipe.c: a ring of PIPESIZE bytes with free-running `uint` counters.
-- A call runs until it returns, fails, or sleeps; a caller that is woken runs the same loop again
-- from where it slept. The wakeups of a call are those that its outcome names.
mod Tests
pub mod Ring
pub mod Stream
use yonix.Base.{
  ℕ, zero, suc, ◌+◌, ◌-◌, ◌%◌, ◌^◌, Bool, true, false, not, ◌||◌, ◌&&◌, if◌then◌else◌, ◌==◌, List,
  [], ◌∷◌, get_or, set,
}

abbrev pub pipesize : ℕ
pipesize = 512

-- `uint` arithmetic
abbrev pub add32 : ℕ → ℕ → ℕ
add32 a b = (a + b) % 2 ^ 32

-- `struct pipe`; the field `data` is called `bytes`.
pub record Pipe : Type 0 where
  pub bytes : List ℕ
  pub nread : ℕ
  pub nwrite : ℕ
  pub readopen : Bool
  pub writeopen : Bool

-- What `pipealloc` stores in the page that it got; `page` is what the page held.
pub pipe_init : List ℕ → Pipe
pipe_init page = record { bytes = page; nread = 0; nwrite = 0; readopen = true; writeopen = true }

-- `p->data[p->nwrite++ % PIPESIZE] = x`
pub put : Pipe → ℕ → Pipe
put p x = record p { bytes = set p.bytes (p.nwrite % pipesize) x; nwrite = add32 p.nwrite 1 }

-- `p->nwrite == p->nread + PIPESIZE`
abbrev pub is_full : Pipe → Bool
is_full p = p.nwrite == add32 p.nread pipesize

-- `wrote`: the readers are woken and `n` is returned. `write_failed`: -1 is returned.
-- `write_sleeps i`: the readers are woken and the caller sleeps on `nwrite`, before byte `i`.
pub data WriteOutcome : Type 0 where
  wrote : (n : ℕ) → Pipe → WriteOutcome
  write_failed : Pipe → WriteOutcome
  write_sleeps : (i : ℕ) → Pipe → WriteOutcome

-- The list is `addr[i..n)`; `killed` is `proc->p_killed`.
pub pipewrite_from : Bool → Pipe → List ℕ → ℕ → WriteOutcome
pipewrite_from killed p [] i = wrote i p
pipewrite_from killed p (x ∷ xs) i =
    let more = pipewrite_from killed (put p x) xs (i + 1) in
    if is_full p
    then (if not p.readopen || killed then write_failed p else write_sleeps i p)
    else more

pub pipewrite : Bool → Pipe → List ℕ → WriteOutcome
unfolding pipewrite_from put
pipewrite killed p addr = pipewrite_from killed p addr 0

-- `got`: the bytes stored through `addr`; the writers are woken and their number is returned.
-- `read_failed`: -1 is returned. `read_sleeps`: the caller sleeps on `nread`.
pub data ReadOutcome : Type 0 where
  got : List ℕ → Pipe → ReadOutcome
  read_failed : ReadOutcome
  read_sleeps : ReadOutcome

abbrev pub is_empty : Pipe → Bool
is_empty p = p.nread == p.nwrite

-- `for (i = 0; i < n; i++) { if (nread == nwrite) break; addr[i] = data[nread++ % PIPESIZE]; }`
pub drain : Pipe → ℕ → List ℕ × Pipe
drain p zero = ([], p)
drain p (suc n) =
    let (xs, p') = drain (record p { nread = add32 p.nread 1 }) n in
    if is_empty p then ([], p) else (get_or p.bytes (p.nread % pipesize) 0 ∷ xs, p')

pub piperead : Bool → Pipe → ℕ → ReadOutcome
unfolding drain
piperead killed p n =
    let (xs, p') = drain p n in
    if is_empty p && p.writeopen then (if killed then read_failed else read_sleeps) else got xs p'

-- The new pipe, and whether its page is freed; the other end's sleepers are woken.
pub pipeclose : Pipe → Bool → Pipe × Bool
pipeclose p writable =
    let p' : Pipe =
      if writable then record p { writeopen = false } else record p { readopen = false } in
    (p', not p'.readopen && not p'.writeopen)
