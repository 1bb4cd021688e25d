-- ===== src/Syscall/Args.antt =====
-- The checks of the argument fetches keep the kernel inside the process.
use yonix.Base.{
  ℕ, zero, suc, ◌+◌, ◌-◌, ◌^◌, ◌≤◌, ◌<◌, ◌≡◌, ap, ◌∙◌, ◌≢◌, inl, inr, none, some, arith, Mem, leb,
  if◌then◌else◌, Option-cases, Nat-cases,
}
use yonix.Base.Int.{pos}
use yonix.Syscall.{User, fetchint, scan, fetchstr, argint, argptr, argstr}
use yonix.Words.{load32}

abbrev pub kernbase : ℕ
kernbase = 2 ^ 31

-- In a process of at most KERNBASE bytes, `fetchint` reads exactly the four bytes at an address
-- from which four bytes lie inside the process, and fails at every other address.
pub fetchint_iff :
    (u : User) (addr : ℕ)
    → u.size ≤ kernbase
    → fetchint u addr ≡ (if leb (addr + 4) u.size then some (load32 u.mem addr) else none)
unfolding fetchint
fetchint_iff u addr h = ground arith

-- `argptr` accepts a block only if all its bytes lie inside a process of at most KERNBASE bytes.
pub argptr-inside :
    (u : User) (n size : ℕ) {p : ℕ}
    → u.size ≤ kernbase
    → size < 2 ^ 31
    → argptr u n (pos size) ≡ some p
    → (argint u n ≡ some p) × (p < u.size) × (p + size ≤ u.size)
unfolding argptr
argptr-inside u n size h hs e = elim (Option-cases (argint u n)) [
  | inl fails ↦ absurd (ground (arith, fails))
  | inr (i, got) ↦ (ground (arith, got), ground (arith, got), ground (arith, got))
]

scan-first :
    (k s i : ℕ) (m : Mem) {n : ℕ}
    → scan k s i m ≡ some n
    → (i ≤ n) × (n < i + k) × (m (s + n) ≡ 0) × ((j : ℕ) → i ≤ j → j < n → m (s + j) ≢ 0)
unfolding scan
scan-first zero s i m e = absurd (ground arith)
scan-first (suc k) s i m {n = n} e = elim (Nat-cases (m (s + i))) [
  | inl z ↦ (ground arith, ground arith, ground arith, λ j a b. absurd (ground arith))
  | inr nz ↦
      let (a, b, c, d) = scan-first k s (i + 1) m {n = n} (ground arith) in
      (omega arith, omega arith, c, λ j le lt. ground (arith, d j))
]

fetchstr-first :
    (u : User) (addr : ℕ) {n : ℕ}
    → fetchstr u addr ≡ some n
    → (addr < u.size)
      × (n < u.size - addr)
      × (u.mem (addr + n) ≡ 0)
      × ((j : ℕ) → j < n → u.mem (addr + j) ≢ 0)
unfolding fetchstr
fetchstr-first u addr {n = n} e =
    let below : addr < u.size = ground arith in
    let (a, b, c, d) = scan-first (u.size - addr) addr 0 u.mem {n = n} (ground arith) in
    (below, omega arith, c, λ j lt. d j (omega arith) lt)

-- A string that `argstr` accepts lies in the process with its NUL, and its length is that up to its
-- first NUL.
pub argstr-inside :
    (u : User) (n : ℕ) {p len : ℕ}
    → argstr u n ≡ some (p, len)
    → (argint u n ≡ some p)
      × (p + len < u.size)
      × (u.mem (p + len) ≡ 0)
      × ((j : ℕ) → j < len → u.mem (p + j) ≢ 0)
unfolding argstr
argstr-inside u n {p} {len} e = elim (Option-cases (argint u n)) [
  | inl fails ↦ absurd (ground (arith, fails))
  | inr (i, got) ↦ elim (Option-cases (fetchstr u i)) [
    | inl fails ↦ absurd (ground (arith, got, fails))
    | inr (k, found) ↦
        let at : i ≡ p = ground (arith, got, found) in
        let long : k ≡ len = ground (arith, got, found) in
        let (a, b, c, d) = fetchstr-first u i found in
        (
          got ∙ ap some at,
          ground (arith, at, long, a, b),
          ground (arith, at, long, c),
          λ j lt. ground (arith, at, long, d j),
        )
  ]
]
