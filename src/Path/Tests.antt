-- ===== src/Path/Tests.antt =====
-- A path of two elements.
use yonix.Base.{ℕ, ◌≡◌, refl, List, [], ◌∷◌}
use yonix.Path.{skipelem}
use yonix.Path.Elements.{components, split, Skipped, skipelem-Skipped}

-- "/a//a/"
abbrev some_path : List ℕ
some_path = b'/' ∷ b'a' ∷ b'/' ∷ b'/' ∷ b'a' ∷ b'/' ∷ []

two_elements : components some_path ≡ (b'a' ∷ []) ∷ (b'a' ∷ []) ∷ []
unfolding components split
two_elements = refl

skipelem-Skipped_example : Skipped some_path (skipelem some_path (λ i. 1))
skipelem-Skipped_example = skipelem-Skipped some_path (λ i. 1)
