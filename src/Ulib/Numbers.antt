-- ===== src/Ulib/Numbers.antt =====
-- A number that is printed is read back.
use yonix.Base.{
  ℕ, zero, suc, ◌+◌, ◌-◌, ◌*◌, ◌/◌, ◌%◌, ◌<◌, ◌≡◌, refl, ap, ap₂, ◌∙◌, ◌≢◌, Bool, true, false, ◌&&◌,
  List, [], ◌∷◌, ◌++◌, arith, leb, ◌==◌, if◌then◌else◌,
}
use yonix.Base.Int.{pos}
use yonix.Ulib.{digit, put_digits, printint, atoi_from, atoi}

-- The string does not begin with a digit.
abbrev pub NoDigit : List ℕ → Type 0
NoDigit [] = Unit
NoDigit (c ∷ s) = (leb b'0' c && leb c b'9') ≡ false

put_digits-append :
    (fuel base x : ℕ) (out rest : List ℕ)
    → put_digits fuel base x out ++ rest ≡ put_digits fuel base x (out ++ rest)
unfolding put_digits
put_digits-append zero base x out rest = refl
put_digits-append (suc fuel) base x out rest =
    by_test (x / base == 0) (put_digits-append fuel base (x / base) (digit (x % base) ∷ out) rest)
  where
    by_test :
        (z : Bool)
        → put_digits fuel base (x / base) (digit (x % base) ∷ out) ++ rest
          ≡ put_digits fuel base (x / base) (digit (x % base) ∷ (out ++ rest))
        → (if z
              then digit (x % base) ∷ out
              else put_digits fuel base (x / base) (digit (x % base) ∷ out))
            ++ rest
          ≡ (if z
              then digit (x % base) ∷ (out ++ rest)
              else put_digits fuel base (x / base) (digit (x % base) ∷ (out ++ rest)))
    by_test true h = refl
    by_test false h = h

-- A decimal digit is read.
one_digit : (n d : ℕ) (s : List ℕ) → d < 10 → atoi_from n (digit d ∷ s) ≡ atoi_from (n * 10 + d) s
unfolding atoi_from
one_digit n d s lt =
    let e : digit d ≡ 48 + d = ground (arith, lt) in
    let t : (leb 48 (48 + d) && leb (48 + d) 57) ≡ true = ground (arith, lt) in
    let v : 48 + d - 48 ≡ d = omega arith in
    ap (λ c. if leb 48 c && leb c 57 then atoi_from (n * 10 + (c - 48)) s else n) e
    ∙ ap₂ (λ z w. if z then atoi_from (n * 10 + w) s else n) t v

atoi_from-put_digits :
    (fuel x : ℕ) (out : List ℕ)
    → x < fuel
    → atoi_from 0 (put_digits fuel 10 x out) ≡ atoi_from x out
unfolding put_digits
atoi_from-put_digits zero x out lt = absurd (omega (arith, lt))
atoi_from-put_digits (suc fuel) x out lt =
    by_test (λ p. atoi_from-put_digits fuel (x / 10) (digit (x % 10) ∷ out) (omega (arith, lt, p)))
      (x / 10 == 0) refl
  where
    whole : x / 10 * 10 + x % 10 ≡ x
    whole = omega arith

    zero_of : (n : ℕ) → n == 0 ≡ true → n ≡ 0
    zero_of n h = ground (arith, h)

    nonzero : (n : ℕ) → n == 0 ≡ false → n ≢ 0
    nonzero n h = ground (arith, h)

    by_test :
        (x / 10 ≢ 0
          → atoi_from 0 (put_digits fuel 10 (x / 10) (digit (x % 10) ∷ out))
            ≡ atoi_from (x / 10) (digit (x % 10) ∷ out))
        → (z : Bool) → x / 10 == 0 ≡ z
        → atoi_from 0
            (if z then digit (x % 10) ∷ out else put_digits fuel 10 (x / 10) (digit (x % 10) ∷ out))
          ≡ atoi_from x out
    by_test go true e =
        let z = zero_of (x / 10) e in
        let v : 0 * 10 + x % 10 ≡ x = omega (arith, z) in
        one_digit 0 (x % 10) out (omega arith) ∙ ap (λ n. atoi_from n out) v
    by_test go false e =
        go (nonzero (x / 10) e)
        ∙ one_digit (x / 10) (x % 10) out (omega arith)
        ∙ ap (λ n. atoi_from n out) whole

stops : (n : ℕ) (s : List ℕ) → NoDigit s → atoi_from n s ≡ n
unfolding atoi_from
stops n [] h = refl
stops n (c ∷ s) h = rw h refl

-- What printint prints of a number that is not negative, in base 10 and with or without a sign, atoi
-- reads back, whatever follows it that does not begin with a digit.
pub atoi-printint :
    (n : ℕ) (sgn : Bool) (rest : List ℕ) → NoDigit rest → atoi (printint (pos n) 10 sgn ++ rest) ≡ n
unfolding atoi printint
atoi-printint n sgn rest h =
    ap (atoi_from 0) (put_digits-append (n + 1) 10 n [] rest)
    ∙ atoi_from-put_digits (n + 1) n rest (omega arith)
    ∙ stops n rest h
