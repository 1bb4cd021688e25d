-- ===== src/Cstring/Tests.antt =====
-- string.c on two strings.
use yonix.Base.{ℕ, zero, suc, ◌+◌, ◌<◌, ◌≡◌, refl, ◌≢◌, inl, [], ◌∷◌, arith, Mem, get_or}
use yonix.Base.Int.{pos}
use yonix.Cstring.{memmove, safestrcpy}
use yonix.Cstring.Move.{memmove-eq-copied}
use yonix.Cstring.Strings.{IsString, safestrcpy-eq-terminated}

-- "abc" at 0 and "abd" at 4
abbrev memory : Mem
memory a = get_or (97 ∷ 98 ∷ 99 ∷ 0 ∷ 97 ∷ 98 ∷ 100 ∷ 0 ∷ []) a 0

memory-IsString : IsString memory 0 3
memory-IsString = (refl, bytes)
  where
    bytes : (j : ℕ) → j < 3 → memory (0 + j) ≢ 0
    bytes zero h = ground arith
    bytes (suc zero) h = ground arith
    bytes (suc (suc zero)) h = ground arith
    bytes (suc (suc (suc j))) h = absurd (omega arith)

memmove_example : memmove 1 0 3 memory 3 ≡ 99
memmove_example = memmove-eq-copied 1 0 3 memory 3

safestrcpy_example : safestrcpy 10 0 (pos 3) memory 12 ≡ 0
safestrcpy_example =
    safestrcpy-eq-terminated 10 0 3 3 memory 12 (omega arith) (inl (omega arith)) memory-IsString
