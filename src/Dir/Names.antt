-- ===== src/Dir/Names.antt =====
-- The bytes of an entry that dirlink writes.
use yonix.Base.{
  ℕ, zero, suc, ◌+◌, ◌-◌, ◌*◌, ◌/◌, ◌%◌, ◌<◌, ◌≡◌, refl, sym, ap, ◌∙◌, subst, ◌≢◌, inl, ◌&&◌, [],
  ◌∷◌, arith, dec_lt, ℕ_discrete, Mem, ltb, leb, if◌then◌else◌, length, get_or, All,
}
use yonix.Cstring.{strncpy}
use yonix.Cstring.Strings.{IsString, strncpy-eq-padded}
use yonix.Inode.{slice}
use yonix.Inode.Overwrite.{get_or-slice}
use yonix.Dir.{frame, entry_bytes}
use yonix.Dir.Entries.{inum_at, NameAt}

-- The name ends at its byte `k`, in a buffer of 14 bytes.
abbrev pub IsName : Mem → ℕ → Type 0
IsName name k = (k < 14) × (name k ≡ 0) × ((i : ℕ) → i < k → name i ≢ 0) × ((i : ℕ) → name i < 256)

module _ (name : Mem) (k : ℕ) (nm : IsName name k) where
  in_frame : (i : ℕ) → i < 16 → frame name [] i ≡ name i
  in_frame i lt = ground (arith, lt)

  at_start : (i : ℕ) → i < 16 → frame name [] (0 + i) ≡ name i
  at_start i lt = let e : 0 + i ≡ i = omega arith in rw e (in_frame i lt)

  frame-IsString : IsString (frame name []) 0 k
  frame-IsString =
      let (lt, end, before, _) = nm in
      (
        at_start k (omega (arith, lt)) ∙ end,
        λ j p e. before j p (sym (at_start j (omega (arith, p, lt))) ∙ e),
      )

  -- Byte `j` of the name in the entry.
  pub name_byte :
      (inum j : ℕ)
      → j < 14
      → get_or (entry_bytes name inum) (2 + j) 0 ≡ (if ltb j k then name j else 0)
  unfolding entry_bytes
  name_byte inum j lt =
      let e : 2 + j ≡ suc (suc j) = omega arith in
      ap
        (λ i.
          get_or (inum % 256 ∷ inum / 256 % 256 ∷ slice 14 18 (strncpy 18 0 14 (frame name []))) i
            0)
        e
      ∙ get_or-slice 14 18 (strncpy 18 0 14 (frame name [])) j lt
      ∙ strncpy-eq-padded 18 0 14 k (frame name []) (18 + j) (inl (omega (arith, nm.0)))
          frame-IsString
      ∙ at j lt
    where
      at :
          (j : ℕ)
          → j < 14
          → (if leb 18 (18 + j) && ltb (18 + j) (18 + 14)
              then (if ltb (18 + j - 18) k then frame name [] (0 + (18 + j - 18)) else 0)
              else frame name [] (18 + j))
            ≡ (if ltb j k then name j else 0)
      at j p = let e : 18 + j - 18 ≡ j = omega arith in rw e (ground (arith, p))

  small_byte : (j : ℕ) → strncpy 18 0 14 (frame name []) (18 + j) < 256
  small_byte j =
      subst (λ v. v < 256)
        (sym (
          strncpy-eq-padded 18 0 14 k (frame name []) (18 + j) (inl (omega (arith, nm.0)))
            frame-IsString))
        (bounded (nm.3 (0 + (18 + j - 18))) (nm.3 (18 + j)))
    where
      bounded :
          name (0 + (18 + j - 18)) < 256
          → name (18 + j) < 256
          → (if leb 18 (18 + j) && ltb (18 + j) (18 + 14)
              then (if ltb (18 + j - 18) k then frame name [] (0 + (18 + j - 18)) else 0)
              else frame name [] (18 + j))
            < 256
      bounded a b = ground (arith, a, b)

  pub entry-bytes : (inum : ℕ) → All (λ x. x < 256) (entry_bytes name inum)
  unfolding entry_bytes
  entry-bytes inum = let b = small_byte in (omega arith, (omega arith, slices 14 18 (λ j. b j)))
    where
      slices :
          (n a : ℕ)
          → ((j : ℕ) → strncpy 18 0 14 (frame name []) (a + j) < 256)
          → All (λ x. x < 256) (slice n a (strncpy 18 0 14 (frame name [])))
      slices zero a h = tt
      slices (suc n) a h =
          let e : a + 0 ≡ a = omega arith in
          (
            subst (λ i. strncpy 18 0 14 (frame name []) i < 256) e (h 0),
            slices n (a + 1) (λ j.
                let q : a + suc j ≡ a + 1 + j = omega arith in
                subst (λ i. strncpy 18 0 14 (frame name []) i < 256) q (h (suc j))),
          )

pub length-entry : (name : Mem) (inum : ℕ) → length (entry_bytes name inum) ≡ 16
unfolding entry_bytes
length-entry name inum = ap (λ n. suc (suc n)) (sliced 14 18 (strncpy 18 0 14 (frame name [])))
  where
    sliced : (n a : ℕ) (m : Mem) → length (slice n a m) ≡ n
    sliced zero a m = refl
    sliced (suc n) a m = ap suc (sliced n (a + 1) m)

-- Where the bytes of an entry stand at `k`, the entry has the number and the name.
pub written_entry :
    (f : ℕ → ℕ) (name : Mem) (len inum k : ℕ)
    → IsName name len
    → inum < 65536
    → ((i : ℕ) → i < 16 → f (16 * k + i) ≡ get_or (entry_bytes name inum) i 0)
    → (inum_at f k ≡ inum) × NameAt f name k
unfolding entry_bytes
written_entry f name len inum k nm small at =
    let e : 16 * k + 0 ≡ 16 * k = omega arith in
    let a = ap f (sym e) ∙ at 0 (omega arith) in
    let b = at 1 (omega arith) in
    (
      omega (arith, a, b, small),
      λ j lt before.
          let q : 16 * k + (2 + j) ≡ 16 * k + 2 + j = omega arith in
          sym (
            ap f (sym q)
            ∙ at (2 + j) (omega (arith, lt))
            ∙ name_byte name len nm inum j lt
            ∙ in_name j lt before),
    )
  where
    in_name :
        (j : ℕ)
        → j < 14
        → ((i : ℕ) → i < j → name i ≢ 0)
        → (if ltb j len then name j else 0) ≡ name j
    in_name j lt before = elim (dec_lt j len) [
      | yes p ↦ ground (arith, p)
      | no p ↦ elim (ℕ_discrete j len) [
        | yes q ↦ let z : name j ≡ 0 = ap name q ∙ nm.1 in ground (arith, p, z)
        | no q ↦ absurd (before len (omega (arith, p, q)) nm.1)
      ]
    ]
