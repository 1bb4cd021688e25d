-- ===== src/Regex.antt =====
-- grep.c: the matcher of Kernighan and Pike for the operators ^ . * $.
-- A NUL-terminated string is the list of its bytes, so the end of the list is the NUL.
mod Tests
pub mod Matches
use yonix.Base.{ℕ, zero, suc, Bool, true, false, if◌then◌else◌, ◌==◌, ◌||◌, ◌&&◌, List, [], ◌∷◌}

-- `do { if (matchhere(re, text)) return 1; } while (*text != 0 && (*text++ == c || c == '.'));`
-- where `here` is `matchhere(re, ·)`.
pub matchstar : ℕ → (List ℕ → Bool) → List ℕ → Bool
matchstar c here [] = here []
matchstar c here (t ∷ text) =
    let rest = matchstar c here text in
    if here (t ∷ text) then true else if t == c || c == b'.' then rest else false

-- The test of one character: `*text != 0 && (re[0] == '.' || re[0] == *text)`, and then `rest`.
abbrev pub matchone : ℕ → (List ℕ → Bool) → List ℕ → Bool
matchone c rest [] = false
matchone c rest (t ∷ text) = if c == b'.' || c == t then rest text else false

-- `*text == 0`
abbrev pub at_end : List ℕ → Bool
at_end [] = true
at_end (t ∷ text) = false

pub matchhere : List ℕ → List ℕ → Bool
unfolding matchstar
matchhere [] = λ text. true
matchhere (c ∷ []) =
    let rest = matchhere [] in λ text. if c == b'$' then at_end text else matchone c rest text
matchhere (c ∷ d ∷ re) =
    let starred = matchhere re in
    let rest = matchhere (d ∷ re) in
    λ text. if d == b'*' then matchstar c starred text else matchone c rest text

-- `do { if (matchhere(re, text)) return 1; } while (*text++ != 0);`
pub search_from : (List ℕ → Bool) → List ℕ → Bool
search_from here [] = here []
search_from here (t ∷ text) =
    let rest = search_from here text in if here (t ∷ text) then true else rest

pub match : List ℕ → List ℕ → Bool
unfolding search_from matchhere
match [] text = search_from (matchhere []) text
match (c ∷ re) text = if c == b'^' then matchhere re text else search_from (matchhere (c ∷ re)) text
