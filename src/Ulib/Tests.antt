-- ===== src/Ulib/Tests.antt =====
-- Numbers printed and read.
use yonix.Base.{◌≡◌, refl, true, [], ◌∷◌, ◌++◌}
use yonix.Base.Int.{pos}
use yonix.Ulib.{printint, atoi, put_digits}
use yonix.Ulib.Numbers.{atoi-printint}

printed : printint (pos 305) 10 true ≡ b'3' ∷ b'0' ∷ b'5' ∷ []
unfolding printint put_digits
printed = refl

atoi-printint_example : atoi (printint (pos 305) 10 true ++ b' ' ∷ b'1' ∷ []) ≡ 305
atoi-printint_example = atoi-printint 305 true (b' ' ∷ b'1' ∷ []) refl
