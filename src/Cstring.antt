-- ===== src/Cstring.antt =====
-- string.c: the kernel's byte and string routines, over a memory of bytes.
-- An address is a number, a pointer into the memory; `*p` is `m p`.
mod Tests
pub mod Move
pub mod Strings
use yonix.Base.{
  ℕ, zero, suc, ◌+◌, Bool, true, false, ◌&&◌, Option, none, some, if◌then◌else◌, ltb, ◌==◌, not,
  Mem, update,
}
use yonix.Base.Int.{ℤ, pos, sub_ℕ}

-- `while (n-- > 0) *d++ = *s++;`
pub move_up : ℕ → ℕ → ℕ → Mem → Mem
move_up zero d s m = m
move_up (suc n) d s m = move_up n (d + 1) (s + 1) (update m d (m s))

-- `while (n-- > 0) *--d = *--s;` with the pointers at `d + n` and `s + n`.
pub move_down : ℕ → ℕ → ℕ → Mem → Mem
move_down zero d s m = m
move_down (suc n) d s m = move_down n d s (update m (d + n) (m (s + n)))

pub memmove : ℕ → ℕ → ℕ → Mem → Mem
memmove dst src n m =
    if ltb src dst && ltb dst (src + n) then move_down n dst src m else move_up n dst src m

-- The loop of strlen from `n` on, with fuel; `none` means that the fuel ran out.
pub strlen_from : ℕ → ℕ → ℕ → Mem → Option ℕ
strlen_from zero s n m = none
strlen_from (suc f) s n m =
    let rest = strlen_from f s (n + 1) m in if m (s + n) == 0 then some n else rest

pub strlen : ℕ → ℕ → Mem → Option ℕ
unfolding strlen_from
strlen fuel s m = strlen_from fuel s 0 m

-- The bytes are those of unsigned characters, so `*p == *q` is equality of bytes.
pub strncmp : ℕ → ℕ → ℕ → Mem → ℤ
strncmp p q zero m = pos 0
strncmp p q (suc n) m =
    let rest = strncmp (p + 1) (q + 1) n m in
    if not (m p == 0) && (m p == m q) then rest else sub_ℕ (m p) (m q)

-- `while (n-- > 0) *s++ = 0;`
pub zero_fill : ℕ → ℕ → Mem → Mem
zero_fill s zero m = m
zero_fill s (suc n) m = zero_fill (s + 1) n (update m s 0)

pub strncpy : ℕ → ℕ → ℕ → Mem → Mem
strncpy s t zero m = m
strncpy s t (suc n) m =
    let m' = update m s (m t) in
    let more = strncpy (s + 1) (t + 1) n m' in
    let padded = zero_fill (s + 1) n m' in if m t == 0 then padded else more

-- The loop of safestrcpy with `n` bytes of room, the last of them for the NUL.
pub safestrcpy_loop : ℕ → ℕ → ℕ → Mem → Mem
safestrcpy_loop s t zero m = m
safestrcpy_loop s t (suc zero) m = update m s 0
safestrcpy_loop s t (suc (suc n)) m =
    let m' = update m s (m t) in
    let more = safestrcpy_loop (s + 1) (t + 1) (suc n) m' in
    let ended = update m' (s + 1) 0 in if m t == 0 then ended else more

-- `n` is an int: nothing is written for a negative one, nor for 0.
pub safestrcpy : ℕ → ℕ → ℤ → Mem → Mem
unfolding safestrcpy_loop
safestrcpy s t (pos n) m = safestrcpy_loop s t n m
safestrcpy s t (ℤ.negsuc n) m = m

-- `while (n-- > 0) { if (*s1 != *s2) return *s1 - *s2; s1++, s2++; } return 0;`
pub memcmp : ℕ → ℕ → ℕ → Mem → ℤ
memcmp s1 s2 zero m = pos 0
memcmp s1 s2 (suc n) m =
    let rest = memcmp (s1 + 1) (s2 + 1) n m in if m s1 == m s2 then rest else sub_ℕ (m s1) (m s2)
