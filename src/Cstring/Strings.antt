-- ===== src/Cstring/Strings.antt =====
-- strlen, strncmp, strncpy and safestrcpy of string.c on NUL-terminated strings.
use yonix.Base.{
  ℕ, zero, suc, ◌+◌, ◌-◌, ◌≤◌, ◌<◌, ◌≡◌, ◌≢◌, refl, ◌⊎◌, ◌↔◌, inl, inr, ◌&&◌, if◌then◌else◌, ltb,
  leb, ◌==◌, arith, some, Mem, update, min, Nat-cases, ◌||◌, ◌∙◌, dec_lt,
}
use yonix.Base.Int.{pos}
use yonix.Cstring.{strlen_from, strlen, strncmp, zero_fill, strncpy, safestrcpy_loop, safestrcpy}

-- A string of length `k` stands at `s`.
abbrev pub IsString : Mem → ℕ → ℕ → Type 0
IsString m s k = (m (s + k) ≡ 0) × ((j : ℕ) → j < k → m (s + j) ≢ 0)

strlen_from_lem :
    (d f s n : ℕ) (m : Mem) → d < f → IsString m s (n + d) → strlen_from f s n m ≡ some (n + d)
unfolding strlen_from
strlen_from_lem d zero s n m h st = absurd (omega arith)
strlen_from_lem zero (suc f) s n m h st = ground arith
strlen_from_lem (suc d) (suc f) s n m h st = ground (arith, st.1 n, strlen_from_lem d f s (n + 1) m)

-- `strlen` returns the length of the string at `s` with any fuel above that length.
pub strlen-IsString :
    (s k fuel : ℕ) (m : Mem) → IsString m s k → k < fuel → strlen fuel s m ≡ some k
unfolding strlen
strlen-IsString s k fuel m st h = ground (arith, strlen_from_lem k fuel s 0 m)

-- The two strings agree in their first `n` bytes, up to the NUL if it comes earlier.
abbrev pub Agree : ℕ → Mem → ℕ → ℕ → Type 0
Agree n m p q = (j : ℕ) → j < n → ((i : ℕ) → i < j → m (p + i) ≢ 0) → m (p + j) ≡ m (q + j)

Agree-tail : (n p q : ℕ) (m : Mem) → m p ≢ 0 → Agree (suc n) m p q → Agree n m (p + 1) (q + 1)
Agree-tail n p q m ne a j lt before = ground (arith, a (suc j) (omega arith) earlier)
  where
    earlier : (i : ℕ) → i < suc j → m (p + i) ≢ 0
    earlier zero h = ground arith
    earlier (suc i) h = ground (arith, before i)

Agree-cons : (n p q : ℕ) (m : Mem) → m p ≡ m q → Agree n m (p + 1) (q + 1) → Agree (suc n) m p q
Agree-cons n p q m e a zero lt before = ground arith
Agree-cons n p q m e a (suc j) lt before = ground (arith, a j (omega arith) later)
  where
    later : (i : ℕ) → i < j → m (p + 1 + i) ≢ 0
    later i h = ground (arith, before (suc i))

Agree-stop : (n p q : ℕ) (m : Mem) → m p ≡ 0 → m q ≡ 0 → Agree (suc n) m p q
Agree-stop n p q m e e' zero lt before = ground arith
Agree-stop n p q m e e' (suc j) lt before = absurd (before 0 (omega arith) (ground arith))

strncmp-Agree : (p q n : ℕ) (m : Mem) → strncmp p q n m ≡ pos 0 → Agree n m p q
unfolding strncmp
strncmp-Agree p q zero m e = λ j lt before. absurd (omega arith)
strncmp-Agree p q (suc n) m e = elim (Nat-cases (m p)) [
  | inl z ↦ Agree-stop n p q m z (ground arith)
  | inr nz ↦ Agree-cons n p q m (ground arith) (strncmp-Agree (p + 1) (q + 1) n m (ground arith))
]

Agree-strncmp : (p q n : ℕ) (m : Mem) → Agree n m p q → strncmp p q n m ≡ pos 0
unfolding strncmp
Agree-strncmp p q zero m a = refl
Agree-strncmp p q (suc n) m a = elim (Nat-cases (m p)) [
  | inl z ↦ ground (arith, head_eq)
  | inr nz ↦ ground (arith, head_eq, Agree-strncmp (p + 1) (q + 1) n m (Agree-tail n p q m nz a))
]
  where
    head_eq : m p ≡ m q
    head_eq = ground (arith, a 0 (omega arith) (λ i h. absurd (omega arith)))

-- `strncmp(p, q, n)` is 0 exactly when the two strings agree in their first `n` bytes, or up to the
-- NUL of `p` if that comes earlier.
pub strncmp_eq_zero_iff : (p q n : ℕ) (m : Mem) → (strncmp p q n m ≡ pos 0) ↔ Agree n m p q
strncmp_eq_zero_iff p q n m = (strncmp-Agree p q n m, Agree-strncmp p q n m)

zero_fill_lem :
    (s n : ℕ) (m : Mem) (x : ℕ) → zero_fill s n m x ≡ (if leb s x && ltb x (s + n) then 0 else m x)
unfolding zero_fill
zero_fill_lem s zero m x = ground arith
zero_fill_lem s (suc n) m x = ground (arith, zero_fill_lem (s + 1) n (update m s 0) x)

IsString-tail :
    (m : Mem) (s t k : ℕ)
    → (t + k < s) ⊎ (s < t)
    → m t ≢ 0
    → IsString m t k
    → (k' : ℕ) × (k ≡ suc k') × IsString (update m s (m t)) (t + 1) k'
IsString-tail m s t zero h ne st = absurd (ne (ground (arith, st.0)))
IsString-tail m s t (suc k) h ne st =
    (k, refl, (ground (arith, st.0), λ j lt. ground (arith, st.1 (suc j))))

-- What `strncpy(s, t, n)` leaves at `x`, for a source string of length `k`.
abbrev pub padded : ℕ → ℕ → ℕ → ℕ → Mem → Mem
padded k s t n m x =
    if leb s x && ltb x (s + n) then (if ltb (x - s) k then m (t + (x - s)) else 0) else m x

-- `strncpy(s, t, n)` of a string of length `k` that the destination does not overlap writes the
-- first `n` bytes of the string, fills the rest of the `n` bytes with NULs, and changes no other
-- byte.
pub strncpy-eq-padded :
    (s t n k : ℕ) (m : Mem) (x : ℕ)
    → (t + k < s) ⊎ (s + n ≤ t)
    → IsString m t k
    → strncpy s t n m x ≡ padded k s t n m x
unfolding strncpy
strncpy-eq-padded s t zero k m x h st = ground arith
strncpy-eq-padded s t (suc n) k m x h st = elim (Nat-cases (m t)) [
  | inl z ↦ ground (arith, st.1 0, zero_fill_lem (s + 1) n (update m s (m t)) x)
  | inr nz ↦
      let (k', e, st') = IsString-tail m s t k (ground arith) nz st in
      ground (arith, strncpy-eq-padded (s + 1) (t + 1) n k' (update m s (m t)) x (ground arith) st')
]

-- What `safestrcpy(s, t, n)` leaves at `x`, for a source string of length `k` and 0 < n.
abbrev pub terminated : ℕ → ℕ → ℕ → ℕ → Mem → Mem
terminated k s t n m x =
    if leb s x && ltb (x - s) (min k (n - 1))
    then m (t + (x - s))
    else if x == s + min k (n - 1) || (ltb (k + 1) n && x == s + k + 1)
    then 0
    else m x

terminated-suc :
    (s t n k : ℕ) (m : Mem) (x : ℕ)
    → (t + suc k < s) ⊎ (s + suc (suc n) ≤ t)
    → terminated k (s + 1) (t + 1) (suc n) (update m s (m t)) x
      ≡ terminated (suc k) s t (suc (suc n)) m x
terminated-suc s t n k m x h = elim (dec_lt s x) [
  | yes above ↦ ground (arith, shift above, room)
  | no below ↦ ground arith
]
  where
    shift : s < x → t + 1 + (x - (s + 1)) ≡ t + (x - s)
    shift above = omega arith

    room : min (suc k) (suc (suc n) - 1) ≡ suc (min k (suc n - 1))
    room = omega arith

safestrcpy_loop-more :
    (s t n : ℕ) (m : Mem)
    → m t ≢ 0
    → safestrcpy_loop s t (suc (suc n)) m
      ≡ safestrcpy_loop (s + 1) (t + 1) (suc n) (update m s (m t))
unfolding safestrcpy_loop
safestrcpy_loop-more s t n m ne = ground arith

safestrcpy_loop_lem :
    (s t n k : ℕ) (m : Mem) (x : ℕ)
    → 0 < n
    → (t + k < s) ⊎ (s + n ≤ t)
    → IsString m t k
    → safestrcpy_loop s t n m x ≡ terminated k s t n m x
unfolding safestrcpy_loop
safestrcpy_loop_lem s t zero k m x h0 h st = absurd (omega arith)
safestrcpy_loop_lem s t (suc zero) k m x h0 h st = ground arith
safestrcpy_loop_lem s t (suc (suc n)) k m x h0 h st = elim (Nat-cases (m t)) [
  | inl z ↦ ground (arith, st.1 0)
  | inr nz ↦
      let (k', e, st') = IsString-tail m s t k (ground arith) nz st in
      rw (safestrcpy_loop-more s t n m nz, e)
        (safestrcpy_loop_lem (s + 1) (t + 1) (suc n) k' (update m s (m t)) x (omega arith)
            (ground arith) st'
          ∙ terminated-suc s t n k' m x (ground arith))
]

-- `safestrcpy(s, t, n)` with 0 < n, of a string of length `k` that the destination does not
-- overlap, writes the first min(k, n - 1) bytes of the string and a NUL behind them, so the result
-- always ends within the `n` bytes. If the string ends before the last byte of room, one more NUL
-- is written behind the first. No other byte changes.
pub safestrcpy-eq-terminated :
    (s t n k : ℕ) (m : Mem) (x : ℕ)
    → 0 < n
    → (t + k < s) ⊎ (s + n ≤ t)
    → IsString m t k
    → safestrcpy s t (pos n) m x ≡ terminated k s t n m x
unfolding safestrcpy
safestrcpy-eq-terminated = safestrcpy_loop_lem
