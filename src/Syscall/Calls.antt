-- ===== src/Syscall/Calls.antt =====
-- The system calls of sysproc.c: the nice value.
use yonix.Base.{ℕ, ◌≡◌, inl, inr, true, ◌&&◌, Option, none, some, arith, Bool-cases}
use yonix.Base.Int.{ℤ, pos, ◌+ℤ◌, ◌-ℤ◌, ◌≤ℤ◌}
use yonix.Sem
use yonix.Syscall.{
  minus_one, User, Outcome, ret, argint, to_int, incnice, sys_incnice, sys_decnice, min_nice,
  max_nice,
}

-- The nice value lies in the range that the calls keep.
abbrev pub NiceOk : User → Type 0
NiceOk u = (min_nice ≤ℤ u.nice) × (u.nice ≤ℤ max_nice)

abbrev pub Keeps : Outcome → Type 0
Keeps (ret v u) = NiceOk u
Keeps o = ⊥

incnice-Keeps : (u : User) (n : ℤ) → NiceOk u → Keeps (incnice u n)
unfolding incnice
incnice-Keeps u n h =
    elim (Bool-cases (Sem.le_int min_nice (u.nice +ℤ n) && Sem.le_int (u.nice +ℤ n) max_nice)) [
      | inl fits ↦ rw fits (in_range (u.nice +ℤ n) fits)
      | inr beyond ↦ rw beyond h
    ]
  where
    in_range :
        (v : ℤ)
        → (Sem.le_int min_nice v && Sem.le_int v max_nice) ≡ true
        → (min_nice ≤ℤ v) × (v ≤ℤ max_nice)
    in_range v e = ground arith

-- The calls that change the nice value always return, and keep it between -15 and 15.
pub nice-Keeps : (u : User) → NiceOk u → Keeps (sys_incnice u) × Keeps (sys_decnice u)
unfolding sys_incnice sys_decnice
nice-Keeps u h = (at (λ n. n) (argint u 0), at (λ n. pos 0 -ℤ n) (argint u 0))
  where
    at :
        (f : ℤ → ℤ) (o : Option ℕ)
        → Keeps (elim o [ none ↦ ret minus_one u | some n ↦ incnice u (f (to_int n)) ])
    at f none = h
    at f (some n) = incnice-Keeps u (f (to_int n)) h
