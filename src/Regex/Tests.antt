-- ===== src/Regex/Tests.antt =====
-- grep.c on a pattern and a line.
use yonix.Base.{ℕ, ◌≡◌, ◌↔◌, true, List, [], ◌∷◌}
use yonix.Regex.{match}
use yonix.Regex.Matches.{Matches, match_iff}

-- `^ab*$` on "abb"
abbrev pattern : List ℕ
pattern = b'^' ∷ b'a' ∷ b'b' ∷ b'*' ∷ b'$' ∷ []

abbrev line : List ℕ
line = b'a' ∷ b'b' ∷ b'b' ∷ []

match_example : (match pattern line ≡ true) ↔ Matches pattern line
match_example = match_iff pattern line
