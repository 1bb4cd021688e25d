-- ===== src/Dir/Entries.antt =====
-- The entries of a directory as its bytes give them.
use yonix.Base.{
  ℕ, ◌+◌, ◌-◌, ◌*◌, ◌≤◌, ◌<◌, ◌≡◌, sym, ap, ◌∙◌, ◌≢◌, true, List, arith, Mem, ltb, if◌then◌else◌,
  get_or,
}
use yonix.Base.Int.{ℤ, pos}
use yonix.Cstring.Strings.{strncmp_eq_zero_iff}
use yonix.Dir.{frame, is_zero, namecmp, entry_inum}

-- The inode number of entry `k` of a directory with the bytes `f`.
abbrev pub inum_at : (ℕ → ℕ) → ℕ → ℕ
inum_at f k = f (16 * k) + 256 * f (16 * k + 1)

-- Entry `k` has the name, up to its NUL or its 14th byte.
abbrev pub NameAt : (ℕ → ℕ) → Mem → ℕ → Type 0
NameAt f name k = (j : ℕ) → j < 14 → ((i : ℕ) → i < j → name i ≢ 0) → name j ≡ f (16 * k + 2 + j)

-- Entry `k` is in use and has the name.
abbrev pub IsEntry : (ℕ → ℕ) → Mem → ℕ → Type 0
IsEntry f name k = (inum_at f k ≢ 0) × NameAt f name k

is_zero-pos : (z : ℤ) → is_zero z ≡ true → z ≡ pos 0
is_zero-pos (pos n) h = ap pos (ground (arith, h))
is_zero-pos (ℤ.negsuc n) h = absurd (ground (arith, h))

pos-is_zero : (z : ℤ) → z ≡ pos 0 → is_zero z ≡ true
pos-is_zero z h = ap is_zero h

-- What was read are the bytes of entry `k`.
module _ (f : ℕ → ℕ) (k : ℕ) (de : List ℕ)
    (same : (i : ℕ) → i < 16 → get_or de i 0 ≡ f (16 * k + i)) where
  pub entry_inum_lem : entry_inum de ≡ inum_at f k
  entry_inum_lem =
      let a = same 0 (omega arith) in
      let b = same 1 (omega arith) in
      let e : 16 * k + 0 ≡ 16 * k = omega arith in let a' = a ∙ ap f e in omega (arith, a', b)

  at_name : (name : Mem) (i : ℕ) → i < 14 → frame name de (0 + i) ≡ name i
  at_name name i lt = let e : 0 + i ≡ i = omega arith in rw e (ground (arith, lt))

  at_entry : (name : Mem) (j : ℕ) → j < 14 → frame name de (18 + j) ≡ f (16 * k + 2 + j)
  at_entry name j lt =
      let e : 18 + j - 16 ≡ 2 + j = omega arith in
      let g : 16 * k + (2 + j) ≡ 16 * k + 2 + j = omega arith in
      inside (18 + j) (name (18 + j)) (omega arith)
      ∙ ap (λ i. get_or de i 0) e
      ∙ same (2 + j) (omega (arith, lt))
      ∙ ap f g
    where
      inside :
          (i v : ℕ) → 16 ≤ i → (if ltb i 16 then v else get_or de (i - 16) 0) ≡ get_or de (i - 16) 0
      inside i v h = ground (arith, h)

  pub namecmp-NameAt : (name : Mem) → is_zero (namecmp name de) ≡ true → NameAt f name k
  unfolding namecmp
  namecmp-NameAt name h j lt before =
      sym (at_name name j lt)
      ∙ (strncmp_eq_zero_iff 0 18 14 (frame name de)).0 (is_zero-pos _ h) j lt
          (λ i p e. before i p (sym (at_name name i (omega (arith, p, lt))) ∙ e))
      ∙ at_entry name j lt

  pub NameAt-namecmp : (name : Mem) → NameAt f name k → is_zero (namecmp name de) ≡ true
  unfolding namecmp
  NameAt-namecmp name h = pos-is_zero _ (
      (strncmp_eq_zero_iff 0 18 14 (frame name de)).1 λ j lt before.
        at_name name j lt
        ∙ h j lt (λ i p e. before i p (at_name name i (omega (arith, p, lt)) ∙ e))
        ∙ sym (at_entry name j lt))
