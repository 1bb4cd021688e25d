-- ===== src/FileTable.antt =====
-- file.c: the table of open files, and the file descriptors of sysfile.c.
-- The table is a function of the index, of which the code searches the first NFILE; a pointer to a
-- file is its index. `of` is `proc->p_of`, of NOFILE entries.
mod Tests
pub mod Refs
pub mod Alloc
pub mod Chunks
use yonix.Base.{
  ℕ, zero, suc, ◌+◌, ◌-◌, ◌*◌, ◌/◌, ◌%◌, ◌^◌, ◌≤◌, ◌<◌, min, bit_and, bit_or, bit_xor, ◌≡◌, refl,
  sym, ap, ap₂, ◌∙◌, fun_ext, subst, ◌≢◌, ◌↔◌, ◌⊎◌, inl, inr, Bool, true, false, not, ◌&&◌, ◌||◌,
  Option, none, some, List, [], ◌∷◌, ◌++◌, map, append-nil, append_assoc, arith, dec_lt, dec_le,
  ℕ_discrete, Mem, update, ltb, leb, ◌==◌, if◌then◌else◌, ltb→lt, lt→ltb, le→ltb, ==_refl, ==_iff,
  Bool-cases, Option-cases, Nat-cases, length, get_elem?, get_or, set, take, drop, replicate, All,
  length-append, length-set, get_or-set_self, get_or-set_ne, length-replicate,
}
use yonix.Base.Int.{ℤ, pos, negsuc}
use yonix.Syscall.{User, argint, to_int}

abbrev pub nfile : ℕ
nfile = 100

abbrev pub nofile : ℕ
nofile = 16

pub data FileType : Type 0 where
  fd_none fd_pipe fd_inode : FileType

-- `struct file`; the pipe and the inode are addresses.
pub record File : Type 0 where
  pub type : FileType
  pub ref : ℕ
  pub readable : Bool
  pub writable : Bool
  pub pipe : ℕ
  pub ip : ℕ
  pub off : ℕ

-- The calls of fileclose into other parts.
pub data Effect : Type 0 where
  pipe_closed : (pipe : ℕ) (writable : Bool) → Effect
  op_begun op_ended : Effect
  inode_put : (ip : ℕ) → Effect

pub record Files : Type 0 where
  pub table : ℕ → File
  pub of : ℕ → Option ℕ
  pub effects : List Effect

pub data Result {ℓ} (A : Type ℓ) : Type ℓ where
  ok : A → Result A
  panics : Result A

-- The first of `k` files from index `i` on that is not referenced.
pub find_free : ℕ → ℕ → (ℕ → File) → Option ℕ
find_free zero i t = none
find_free (suc k) i t = let rest = find_free k (i + 1) t in if (t i).ref == 0 then some i else rest

pub filealloc : Files → Option ℕ × Files
unfolding find_free
filealloc s = elim (find_free nfile 0 s.table) [
  | none ↦ (none, s)
  | some i ↦ (some i, record s { table = update s.table i (record (s.table i) { ref = 1 }) })
]

pub filedup : ℕ → Files → Result Files
filedup i s =
    let f = s.table i in
    if ltb f.ref 1
    then panics
    else ok (record s { table = update s.table i (record f { ref = f.ref + 1 }) })

-- What fileclose does with the last reference to a file.
abbrev pub release : File → List Effect
release f = elim f.type [
  | fd_pipe ↦ pipe_closed f.pipe f.writable ∷ []
  | fd_inode ↦ op_begun ∷ inode_put f.ip ∷ op_ended ∷ []
  | fd_none ↦ []
]

pub fileclose : ℕ → Files → Result Files
fileclose i s =
    let f = s.table i in
    let less : File = record f { ref = f.ref - 1 } in
    let closed : File = record f { ref = 0; type = fd_none } in
    if ltb f.ref 1
    then panics
    else if ltb 0 less.ref
    then ok (record s { table = update s.table i less })
    else ok (record s { table = update s.table i closed; effects = s.effects ++ release f })

-- `argfd`: the descriptor and its file.
pub argfd : User → ℕ → Files → Option (ℕ × ℕ)
argfd u n s = elim (argint u n) [
  | none ↦ none
  | some w ↦ elim (to_int w) [
    | negsuc k ↦ none
    | pos fd ↦
        if leb nofile fd then none else elim (s.of fd) [ none ↦ none | some f ↦ some (fd, f) ]
  ]
]

-- The first of `k` descriptors from `fd` on that is free.
pub find_fd : ℕ → ℕ → (ℕ → Option ℕ) → Option ℕ
find_fd zero fd of = none
find_fd (suc k) fd of =
    let rest = find_fd k (fd + 1) of in elim (of fd) [ none ↦ some fd | some f ↦ rest ]

-- `fdalloc` for the file `f`.
pub fdalloc : ℕ → Files → Option ℕ × Files
unfolding find_fd
fdalloc f s = elim (find_fd nofile 0 s.of) [
  | none ↦ (none, s)
  | some fd ↦ (some fd, record s { of = update s.of fd (some f) })
]

-- A call that has a result, if the code does not panic: the word, or `none` for -1.
abbrev pub returns : Option ℕ → Result Files → Result (Option ℕ × Files)
returns r (ok s) = ok (r, s)
returns r panics = panics

-- What sys_dup does with the result of fdalloc.
pub dup_after : ℕ → Option ℕ × Files → Result (Option ℕ × Files)
unfolding filedup
dup_after f (none, s) = ok (none, s)
dup_after f (some fd, s) = returns (some fd) (filedup f s)

pub sys_dup : User → Files → Result (Option ℕ × Files)
unfolding argfd fdalloc dup_after
sys_dup u s = elim (argfd u 0 s) [ none ↦ ok (none, s) | some (fd, f) ↦ dup_after f (fdalloc f s) ]

pub sys_close : User → Files → Result (Option ℕ × Files)
unfolding argfd fileclose
sys_close u s = elim (argfd u 0 s) [
  | none ↦ ok (none, s)
  | some (fd, f) ↦ returns (some 0) (fileclose f (record s { of = update s.of fd none }))
]

-- `((LOGSIZE-1-1-2) / 2) * 512` of filewrite.
abbrev pub max_chunk : ℕ
max_chunk = (30 - 1 - 1 - 2) / 2 * 512

-- What the loop of filewrite leaves: the bytes written, the offset of the file, and the writes
-- that it asked for, an offset and a number of bytes each, every one between begin_op and end_op.
pub data Progress : Type 0 where
  stopped : (i off : ℕ) → List (ℕ × ℕ) → Progress
  short_filewrite : Progress
  out_of_fuel : Progress

abbrev pub asked : ℕ × ℕ → Progress → Progress
asked c (stopped i off cs) = stopped i off (c ∷ cs)
asked c short_filewrite = short_filewrite
asked c out_of_fuel = out_of_fuel

-- The loop of filewrite from `i` on, with fuel. `writei` gives the result of writing a number of
-- bytes at an offset.
pub write_chunks : (ℕ → ℕ → ℤ) → ℕ → ℕ → ℕ → ℕ → Progress
write_chunks writei zero n i off = if leb n i then stopped i off [] else out_of_fuel
write_chunks writei (suc fuel) n i off =
    let n1 = if ltb max_chunk (n - i) then max_chunk else n - i in
    let more = write_chunks writei fuel n (i + n1) (off + n1) in
    if leb n i then stopped i off [] else elim (writei off n1) [
      | negsuc k ↦ stopped i off ((off, n1) ∷ [])
      | pos r ↦ if r == n1 then asked (off, n1) more else short_filewrite
    ]

-- What filewrite does: it returns a number, or `none` for -1, with the file and the writes asked
-- for; it goes on in pipewrite; or it panics.
pub data WriteResult : Type 0 where
  written : Option ℕ → File → List (ℕ × ℕ) → WriteResult
  to_pipe : (pipe : ℕ) → WriteResult
  write_panics : WriteResult
  no_fuel : WriteResult

abbrev pub write_end : ℕ → File → Progress → WriteResult
write_end n f (stopped i off cs) =
    written (if i == n then some n else none) (record f { off = off }) cs
write_end n f short_filewrite = write_panics
write_end n f out_of_fuel = no_fuel

-- filewrite of `n` bytes; the loop has fuel `n`, since it writes at least one byte each time.
abbrev pub write_to : (ℕ → ℕ → ℤ) → File → ℕ → FileType → WriteResult
write_to writei f n fd_pipe = to_pipe f.pipe
write_to writei f n fd_inode = write_end n f (write_chunks writei n n 0 f.off)
write_to writei f n fd_none = write_panics

pub filewrite : (ℕ → ℕ → ℤ) → File → ℕ → WriteResult
unfolding write_chunks
filewrite writei f n = if not f.writable then written none f [] else write_to writei f n f.type
