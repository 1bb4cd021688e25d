-- ===== src/Syscall/Atomic.antt =====
-- atomic.c: exchange and division.
use yonix.Base.{
  ℕ, zero, suc, ◌+◌, ◌*◌, ◌/◌, ◌%◌, ◌≤◌, ◌<◌, ◌≡◌, refl, ◌∙◌, ◌⊎◌, inl, inr, Bool, true, false,
  arith, Mem,
}
use mathlib.Core.Bool.{xor}
use yonix.Base.Int.{ℤ, pos}
use yonix.Syscall.{magnitude, signed, is_negative, div_int, mod_int, atomic_swap}
use yonix.Words.{word, load32, store32}
use yonix.Words.{load32-store32, load32-store32_apart}

load32-lt : (m : Mem) (a : ℕ) → ((x : ℕ) → m x < 256) → load32 m a < word
unfolding load32
load32-lt m a h = omega (arith, h a, h (a + 1), h (a + 2), h (a + 3))

-- In a memory of bytes, `atomic_swap` of two ints that do not overlap exchanges them, and leaves
-- every int alone that overlaps neither.
pub atomic_swap_lem :
    (a b c : ℕ) (m : Mem)
    → ((x : ℕ) → m x < 256)
    → (a + 4 ≤ b) ⊎ (b + 4 ≤ a)
    → (a + 4 ≤ c) ⊎ (c + 4 ≤ a)
    → (b + 4 ≤ c) ⊎ (c + 4 ≤ b)
    → (load32 (atomic_swap a b m) a ≡ load32 m b)
      × (load32 (atomic_swap a b m) b ≡ load32 m a)
      × (load32 (atomic_swap a b m) c ≡ load32 m c)
unfolding atomic_swap
atomic_swap_lem a b c m bytes ab ac bc = (
  load32-store32_apart m1 b a (load32 m a) (omega arith)
      ∙ load32-store32 m a (load32 m b) (load32-lt m b bytes),
  load32-store32 m1 b (load32 m a) (load32-lt m a bytes),
  load32-store32_apart m1 b c (load32 m a) (omega arith)
      ∙ load32-store32_apart m a c (load32 m b) (omega arith),
)
  where
    m1 : Mem
    m1 = store32 m a (load32 m b)

magnitude-signed : (s : Bool) (n : ℕ) → magnitude (signed s n) ≡ n
magnitude-signed true zero = refl
magnitude-signed false zero = refl
magnitude-signed true (suc n) = omega arith
magnitude-signed false (suc n) = omega arith

-- The quotient and the remainder of two ints, the divisor not 0, are those of a division that cuts
-- towards 0: |a| = |q| * |b| + |r| with |r| < |b|, a remainder that is not 0 has the sign of the
-- dividend, and a quotient that is not 0 is negative exactly if one of the two is.
pub div_mod_int :
    (a b : ℤ)
    → 0 < magnitude b
    → (magnitude a ≡ magnitude (div_int a b) * magnitude b + magnitude (mod_int a b))
      × (magnitude (mod_int a b) < magnitude b)
      × ((mod_int a b ≡ pos 0) ⊎ (is_negative (mod_int a b) ≡ is_negative a))
      × ((div_int a b ≡ pos 0) ⊎ (is_negative (div_int a b) ≡ xor (is_negative a) (is_negative b)))
unfolding div_int mod_int
div_mod_int a b h = (
  grind (arith, magnitude-signed),
  rw magnitude-signed (omega arith),
  sign (is_negative a) (magnitude a % magnitude b),
  sign (xor (is_negative a) (is_negative b)) (magnitude a / magnitude b),
)
  where
    sign : (s : Bool) (n : ℕ) → (signed s n ≡ pos 0) ⊎ (is_negative (signed s n) ≡ s)
    sign s zero = inl refl
    sign true (suc n) = inr refl
    sign false (suc n) = inr refl
