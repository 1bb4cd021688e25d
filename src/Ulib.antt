-- ===== src/Ulib.antt =====
-- ulib.c and printf.c: numbers in text, as user programs print and read them.
-- A string is the list of its characters, without the NUL.
pub mod Numbers
mod Tests
use yonix.Base.{
  ℕ, zero, suc, ◌+◌, ◌-◌, ◌*◌, ◌/◌, ◌%◌, ◌^◌, ◌≤◌, ◌<◌, min, bit_and, bit_or, bit_xor, ◌≡◌, refl,
  sym, ap, ap₂, ◌∙◌, fun_ext, subst, ◌≢◌, ◌↔◌, ◌⊎◌, inl, inr, Bool, true, false, not, ◌&&◌, ◌||◌,
  Option, none, some, List, [], ◌∷◌, ◌++◌, map, append-nil, append_assoc, arith, dec_lt, dec_le,
  ℕ_discrete, Mem, update, ltb, leb, ◌==◌, if◌then◌else◌, ltb→lt, lt→ltb, le→ltb, ==_refl, ==_iff,
  Bool-cases, Option-cases, Nat-cases, length, get_elem?, get_or, set, take, drop, replicate, All,
  length-append, length-set, get_or-set_self, get_or-set_ne, length-replicate,
}
use yonix.Base.Int.{ℤ, pos}
use yonix.Words.{word}

-- `digits[d]`
abbrev pub digit : ℕ → ℕ
digit d = if ltb d 10 then b'0' + d else b'A' + (d - 10)

-- The loop of printint with fuel. `out` is `buf` read from its last character back, the order in which
-- the characters are printed.
pub put_digits : ℕ → ℕ → ℕ → List ℕ → List ℕ
put_digits zero base x out = out
put_digits (suc fuel) base x out =
    let d = digit (x % base) in
    let rest = put_digits fuel base (x / base) (d ∷ out) in if x / base == 0 then d ∷ out else rest

-- The characters that printint puts; `sgn` is whether a sign is printed.
pub printint : ℤ → ℕ → Bool → List ℕ
printint (pos n) base sgn = put_digits (n + 1) base n []
printint (ℤ.negsuc n) base true = b'-' ∷ put_digits (n + 2) base (n + 1) []
printint (ℤ.negsuc n) base false = put_digits (word - n) base (word - (n + 1)) []

-- The loop of atoi from `n` on.
pub atoi_from : ℕ → List ℕ → ℕ
atoi_from n [] = n
atoi_from n (c ∷ s) =
    let rest = atoi_from (n * 10 + (c - b'0')) s in if leb b'0' c && leb c b'9' then rest else n

pub atoi : List ℕ → ℕ
atoi s = atoi_from 0 s
