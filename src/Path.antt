-- ===== src/Path.antt =====
-- fs.c: paths: skipelem.
-- A path is the list of its characters, without the NUL; `name` is a buffer of characters.
pub mod Elements
mod Tests
use yonix.Base.{
  ℕ, zero, suc, ◌+◌, ◌-◌, ◌*◌, ◌/◌, ◌%◌, ◌^◌, ◌≤◌, ◌<◌, min, bit_and, bit_or, bit_xor, ◌≡◌, refl,
  sym, ap, ap₂, ◌∙◌, fun_ext, subst, ◌≢◌, ◌↔◌, ◌⊎◌, inl, inr, Bool, true, false, not, ◌&&◌, ◌||◌,
  Option, none, some, List, [], ◌∷◌, ◌++◌, map, append-nil, append_assoc, arith, dec_lt, dec_le,
  ℕ_discrete, Mem, update, ltb, leb, ◌==◌, if◌then◌else◌, ltb→lt, lt→ltb, le→ltb, ==_refl, ==_iff,
  Bool-cases, Option-cases, Nat-cases, length, get_elem?, get_or, set, take, drop, replicate, All,
  length-append, length-set, get_or-set_self, get_or-set_ne, length-replicate,
}
use yonix.Inode.{put_bytes}
use yonix.Dir.{dirsiz}

abbrev pub slash : ℕ
slash = b'/'

-- `while(*path == '/') path++;`
pub skip_slashes : List ℕ → List ℕ
skip_slashes [] = []
skip_slashes (c ∷ p) = let rest = skip_slashes p in if c == slash then rest else c ∷ p

-- `while(*path != '/' && *path != 0) path++;`: what is passed over, and what is left.
pub element : List ℕ → List ℕ × List ℕ
element [] = ([], [])
element (c ∷ p) = let (e, rest) = element p in if c == slash then ([], c ∷ p) else (c ∷ e, rest)

-- The element `e` in the buffer.
pub set_name : List ℕ → Mem → Mem
set_name e name =
    if leb dirsiz (length e)
    then put_bytes 0 (take dirsiz e) name
    else update (put_bytes 0 e name) (length e) 0

-- `none` is the null pointer.
pub skipelem : List ℕ → Mem → Option (List ℕ × Mem)
skipelem path name = elim (skip_slashes path) [
  | [] ↦ none
  | c ∷ p ↦ let (e, rest) = element (c ∷ p) in some (skip_slashes rest, set_name e name)
]
