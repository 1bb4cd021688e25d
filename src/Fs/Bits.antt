-- ===== src/Fs/Bits.antt =====
-- The bits of a block of bytes.
use yonix.Base.{
  ℕ_discrete, subst, ◌≤◌, ◌+◌, ℕ, zero, suc, ◌-◌, ◌/◌, ◌%◌, ◌^◌, ◌<◌, bit_and, bit_or, ◌≡◌, refl,
  ap₂, ◌∙◌, inl, inr, Bool, true, false, ◌&&◌, arith, Mem, ltb, ◌==◌, if◌then◌else◌, Bool-cases,
}
use yonix.Fs.{bit_clear, set_bit, clear_bit}

-- Whether all of the `k` numbers from `lo` on pass a test.
pass_from : ℕ → ℕ → (ℕ → Bool) → Bool
pass_from zero lo test = true
pass_from (suc k) lo test = pass_from k (lo + 1) test && test lo

pass_at :
    (k lo : ℕ) (test : ℕ → Bool) (v : ℕ)
    → lo ≤ v
    → v < lo + k
    → pass_from k lo test ≡ true
    → test v ≡ true
unfolding pass_from
pass_at zero lo test v le lt h = absurd (omega (arith, le, lt))
pass_at (suc k) lo test v le lt h = elim (ℕ_discrete lo v) [
  | yes here ↦ subst (λ w. test w ≡ true) here (second (pass_from k (lo + 1) test) (test lo) h)
  | no ne ↦
      pass_at k (lo + 1) test v (omega (arith, le, ne)) (omega (arith, lt))
        (first (pass_from k (lo + 1) test) (test lo) h)
]
  where
    first : (a b : Bool) → (a && b) ≡ true → a ≡ true
    first a b h = ground (arith, h)

    second : (a b : Bool) → (a && b) ≡ true → b ≡ true
    second a b h = ground (arith, h)

same : Bool → Bool → Bool
same true true = true
same false false = true
same _ _ = false

same-eq : (a b : Bool) → same a b ≡ true → a ≡ b
unfolding same
same-eq true true h = refl
same-eq true false h = absurd (ground arith)
same-eq false true h = absurd (ground arith)
same-eq false false h = refl

clear_at : ℕ → ℕ → Bool
clear_at v j = bit_and v (2 ^ j) == 0

-- Setting bit `i` of byte `v`, seen at bit `j`, and the same for clearing.
set_ok : ℕ → ℕ → ℕ → Bool
set_ok i j v = same (clear_at (bit_or v (2 ^ i)) j) (if i == j then false else clear_at v j)

clear_ok : ℕ → ℕ → ℕ → Bool
clear_ok i j v = same (clear_at (bit_and v (255 - 2 ^ i)) j) (if i == j then true else clear_at v j)

small_ok : ℕ → ℕ → Bool
small_ok i v = ltb (bit_or v (2 ^ i)) 256 && ltb (bit_and v (255 - 2 ^ i)) 256

set_table : pass_from 8 0 (λ i. pass_from 8 0 λ j. pass_from 256 0 (set_ok i j)) ≡ true
unfolding pass_from set_ok same clear_at
set_table = refl

clear_table : pass_from 8 0 (λ i. pass_from 8 0 λ j. pass_from 256 0 (clear_ok i j)) ≡ true
unfolding pass_from clear_ok same clear_at
clear_table = refl

small_table : pass_from 8 0 (λ i. pass_from 256 0 (small_ok i)) ≡ true
unfolding pass_from small_ok
small_table = refl

set_byte :
    (i j v : ℕ)
    → i < 8
    → j < 8
    → v < 256
    → (bit_and (bit_or v (2 ^ i)) (2 ^ j) == 0) ≡ (if i == j then false else bit_and v (2 ^ j) == 0)
set_byte i j v a b c =
    let r1 =
      pass_at 8 0 (λ i. pass_from 8 0 λ j. pass_from 256 0 (set_ok i j)) i (omega arith) a
        set_table in
    let r2 = pass_at 8 0 (λ j. pass_from 256 0 (set_ok i j)) j (omega arith) b r1 in
    unfold set_ok clear_at in same-eq _ _ (pass_at 256 0 (set_ok i j) v (omega arith) c r2)

clear_byte :
    (i j v : ℕ)
    → i < 8
    → j < 8
    → v < 256
    → (bit_and (bit_and v (255 - 2 ^ i)) (2 ^ j) == 0)
      ≡ (if i == j then true else bit_and v (2 ^ j) == 0)
clear_byte i j v a b c =
    let r1 =
      pass_at 8 0 (λ i. pass_from 8 0 λ j. pass_from 256 0 (clear_ok i j)) i (omega arith) a
        clear_table in
    let r2 = pass_at 8 0 (λ j. pass_from 256 0 (clear_ok i j)) j (omega arith) b r1 in
    unfold clear_ok clear_at in same-eq _ _ (pass_at 256 0 (clear_ok i j) v (omega arith) c r2)

small_byte :
    (i v : ℕ) → i < 8 → v < 256 → (bit_or v (2 ^ i) < 256) × (bit_and v (255 - 2 ^ i) < 256)
small_byte i v a c =
    let r1 = pass_at 8 0 (λ i. pass_from 256 0 (small_ok i)) i (omega arith) a small_table in
    unfold small_ok in both (pass_at 256 0 (small_ok i) v (omega arith) c r1)
  where
    both : {a b : ℕ} → (ltb a 256 && ltb b 256) ≡ true → (a < 256) × (b < 256)
    both h = ground arith

abbrev pub Bytes : Mem → Type 0
Bytes m = (i : ℕ) → m i < 256

pub set_bit-Bytes : (m : Mem) (bi : ℕ) → Bytes m → Bytes (set_bit m bi)
unfolding set_bit
set_bit-Bytes m bi h i = elim (Bool-cases (bi / 8 == i)) [
  | inl e ↦ rw e (small_byte (bi % 8) (m (bi / 8)) (omega arith) (h (bi / 8))).0
  | inr e ↦ rw e (h i)
]

pub clear_bit-Bytes : (m : Mem) (bi : ℕ) → Bytes m → Bytes (clear_bit m bi)
unfolding clear_bit
clear_bit-Bytes m bi h i = elim (Bool-cases (bi / 8 == i)) [
  | inl e ↦ rw e (small_byte (bi % 8) (m (bi / 8)) (omega arith) (h (bi / 8))).1
  | inr e ↦ rw e (h i)
]

same_index : (i j : ℕ) → i / 8 ≡ j / 8 → (i % 8 == j % 8) ≡ (i == j)
same_index i j h = ground arith

apart : (i j : ℕ) → i / 8 == j / 8 ≡ false → i == j ≡ false
apart i j h = ground arith

-- A bit that is set is not clear, and the others are as they were.
pub bit_clear-set_bit :
    (m : Mem) (i j : ℕ)
    → Bytes m
    → bit_clear (set_bit m i) j ≡ (if i == j then false else bit_clear m j)
unfolding bit_clear set_bit
bit_clear-set_bit m i j h = elim (Bool-cases (i / 8 == j / 8)) [
  | inl e ↦
      let byte : i / 8 ≡ j / 8 = ground (arith, e) in
      rw e (
        set_byte (i % 8) (j % 8) (m (i / 8)) (omega arith) (omega arith) (h (i / 8))
        ∙ ap₂ (λ t y. if t then false else bit_and (m y) (2 ^ (j % 8)) == 0) (same_index i j byte)
            byte)
  | inr e ↦ let other : i == j ≡ false = apart i j e in rw (e, other) refl
]

pub bit_clear-clear_bit :
    (m : Mem) (i j : ℕ)
    → Bytes m
    → bit_clear (clear_bit m i) j ≡ (if i == j then true else bit_clear m j)
unfolding bit_clear clear_bit
bit_clear-clear_bit m i j h = elim (Bool-cases (i / 8 == j / 8)) [
  | inl e ↦
      let byte : i / 8 ≡ j / 8 = ground (arith, e) in
      rw e (
        clear_byte (i % 8) (j % 8) (m (i / 8)) (omega arith) (omega arith) (h (i / 8))
        ∙ ap₂ (λ t y. if t then true else bit_and (m y) (2 ^ (j % 8)) == 0) (same_index i j byte)
            byte)
  | inr e ↦ let other : i == j ≡ false = apart i j e in rw (e, other) refl
]
