-- ===== src/Cstring/Move.antt =====
-- memmove of string.c, for any overlap.
use yonix.Base.{
  ℕ, zero, suc, ◌+◌, ◌-◌, ◌≤◌, ◌<◌, ◌≡◌, ◌⊎◌, ◌&&◌, if◌then◌else◌, ltb, leb, arith, Mem, update,
}
use yonix.Cstring.{move_up, move_down, memmove}

-- What a copy of `n` bytes leaves at `x`.
abbrev pub copied : ℕ → ℕ → ℕ → Mem → Mem
copied n d s m x = if leb d x && ltb x (d + n) then m (s + (x - d)) else m x

move_up_lem :
    (n d s : ℕ) (m : Mem) (x : ℕ) → (d ≤ s) ⊎ (s + n ≤ d) → move_up n d s m x ≡ copied n d s m x
unfolding move_up
move_up_lem zero d s m x h = ground arith
move_up_lem (suc n) d s m x h = ground (arith, move_up_lem n (d + 1) (s + 1) (update m d (m s)) x)

move_down_lem : (n d s : ℕ) (m : Mem) (x : ℕ) → s < d → move_down n d s m x ≡ copied n d s m x
unfolding move_down
move_down_lem zero d s m x h = ground arith
move_down_lem (suc n) d s m x h =
    ground (arith, move_down_lem n d s (update m (d + n) (m (s + n))) x)

-- After `memmove(dst, src, n)` every byte of the destination holds what the source byte at the same
-- offset held before the call, however the two ranges overlap, and every byte outside the
-- destination is unchanged.
pub memmove-eq-copied :
    (dst src n : ℕ) (m : Mem) (x : ℕ) → memmove dst src n m x ≡ copied n dst src m x
unfolding memmove
memmove-eq-copied dst src n m x =
    ground (arith, move_up_lem n dst src m x, move_down_lem n dst src m x)
