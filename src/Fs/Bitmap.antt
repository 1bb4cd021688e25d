-- ===== src/Fs/Bitmap.antt =====
-- balloc and bfree on the map of the blocks.
use yonix.Base.{
  ℕ, zero, suc, ◌+◌, ◌%◌, ◌≤◌, ◌<◌, ◌≡◌, subst, inl, inr, Bool, true, false, none, some, arith,
  ℕ_discrete, Mem, ltb, Bool-cases,
}
use yonix.Fs.{Disk, bblock, bpb, bit_clear, find_bit}
use yonix.Fs.Bits.{Bytes}

-- Block `x` is free in the map.
unfoldable pub is_free : Disk → ℕ → Bool
is_free s x = bit_clear (s.bytes (bblock s.sb x)) (x % bpb)

-- All blocks hold bytes, and block 0, the superblock and the blocks of the map are not free.
pub record MapOk (s : Disk) : Type 0 where
  pub all_bytes : (b : ℕ) → Bytes (s.bytes b)
  pub boot_used : is_free s 0 ≡ false
  pub map_used :
      (x : ℕ) → x < s.sb.size → bblock s.sb x < s.sb.size → is_free s (bblock s.sb x) ≡ false

-- No block is free.
abbrev pub IsFull : Disk → Type 0
IsFull s = (x : ℕ) → x < s.sb.size → is_free s x ≡ false

pub find_bit-some :
    (k bi b size : ℕ) (m : Mem) (x : ℕ)
    → find_bit k bi b size m ≡ some x
    → (bi ≤ x)
      × (x < bi + k)
      × (b + x < size)
      × (bit_clear m x ≡ true)
      × ((y : ℕ) → bi ≤ y → y < x → bit_clear m y ≡ false)
unfolding find_bit
find_bit-some zero bi b size m x h = absurd (ground arith)
find_bit-some (suc k) bi b size m x h = elim (Bool-cases (ltb (b + bi) size)) [
  | inr e ↦ absurd (ground (arith, e))
  | inl e ↦ elim (Bool-cases (bit_clear m bi)) [
    | inl here ↦
        let q : bi ≡ x = ground (arith, e, here) in
        (
          omega arith,
          omega arith,
          ground (arith, e),
          subst (λ y. bit_clear m y ≡ true) q here,
          λ y p r. absurd (omega arith),
        )
    | inr later ↦
        let (a, c, d, f, g) = find_bit-some k (bi + 1) b size m x (ground (arith, e, later)) in
        (
          omega arith,
          omega arith,
          d,
          f,
          λ y p r. elim (ℕ_discrete bi y) [
            | yes same ↦ subst (λ z. bit_clear m z ≡ false) same later
            | no ne ↦ g y (omega arith) r
          ],
        )
  ]
]

pub find_bit-none :
    (k bi b size : ℕ) (m : Mem)
    → find_bit k bi b size m ≡ none
    → (y : ℕ) → bi ≤ y
    → y < bi + k
    → b + y < size
    → bit_clear m y ≡ false
unfolding find_bit
find_bit-none zero bi b size m h y p r lt = absurd (omega arith)
find_bit-none (suc k) bi b size m h y p r lt = elim (Bool-cases (ltb (b + bi) size)) [
  | inr e ↦ absurd (ground (arith, e))
  | inl e ↦ elim (Bool-cases (bit_clear m bi)) [
    | inl here ↦ absurd (ground (arith, e, here))
    | inr later ↦ elim (ℕ_discrete bi y) [
      | yes same ↦ subst (λ z. bit_clear m z ≡ false) same later
      | no ne ↦
          find_bit-none k (bi + 1) b size m (ground (arith, e, later)) y (omega arith) (omega arith)
            lt
    ]
  ]
]
