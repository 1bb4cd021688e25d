-- ===== src/Inode/Splice.antt =====
-- Bytes put into a file, whole or in the pieces that lie in its blocks.
use yonix.Base.{
  ℕ, zero, suc, ◌+◌, ◌-◌, ◌/◌, ◌%◌, ◌≤◌, ◌<◌, ◌≡◌, refl, ap, ap₂, ◌∙◌, ◌≢◌, ◌&&◌, List, [], ◌∷◌,
  arith, dec_lt, dec_le, ℕ_discrete, Mem, ltb, leb, ◌==◌, if◌then◌else◌, length, get_or, take, drop,
  All,
}
use yonix.Inode.{put_bytes}
use yonix.Inode.Overwrite.{put_bytes_lem}

-- The bytes `f` with those of a list put at `off`.
unfoldable pub splice : List ℕ → ℕ → (ℕ → ℕ) → ℕ → ℕ
splice src off f o = if leb off o && ltb o (off + length src) then get_or src (o - off) 0 else f o

pub length-take : (m : ℕ) (xs : List ℕ) → m ≤ length xs → length (take m xs) ≡ m
length-take zero xs h = refl
length-take (suc m) [] h = absurd (omega arith)
length-take (suc m) (x ∷ xs) h = ap suc (length-take m xs (omega arith))

pub length-drop : (m : ℕ) (xs : List ℕ) → length (drop m xs) ≡ length xs - m
length-drop zero xs = omega arith
length-drop (suc m) [] = omega arith
length-drop (suc m) (x ∷ xs) = length-drop m xs ∙ omega arith

get_or-take : (m : ℕ) (xs : List ℕ) (i : ℕ) → i < m → get_or (take m xs) i 0 ≡ get_or xs i 0
get_or-take zero xs i h = absurd (omega arith)
get_or-take (suc m) [] i h = refl
get_or-take (suc m) (x ∷ xs) zero h = refl
get_or-take (suc m) (x ∷ xs) (suc i) h = get_or-take m xs i (omega arith)

get_or-drop : (m : ℕ) (xs : List ℕ) (i : ℕ) → get_or (drop m xs) i 0 ≡ get_or xs (i + m) 0
get_or-drop zero xs i = let e : i + 0 ≡ i = omega arith in rw e refl
get_or-drop (suc m) [] i = refl
get_or-drop (suc m) (x ∷ xs) i =
    let e : i + suc m ≡ suc (i + m) = omega arith in rw e (get_or-drop m xs i)

pub All-take : (m : ℕ) (xs : List ℕ) → All (λ x. x < 256) xs → All (λ x. x < 256) (take m xs)
All-take zero xs h = tt
All-take (suc m) [] h = tt
All-take (suc m) (x ∷ xs) (h, hs) = (h, All-take m xs hs)

pub All-drop : (m : ℕ) (xs : List ℕ) → All (λ x. x < 256) xs → All (λ x. x < 256) (drop m xs)
All-drop zero xs h = h
All-drop (suc m) [] h = tt
All-drop (suc m) (x ∷ xs) (h, hs) = All-drop m xs hs

-- The bytes of a list may be put in two pieces.
pub splice-splice :
    (m : ℕ) (src : List ℕ) (off : ℕ) (f : ℕ → ℕ) (o : ℕ)
    → m ≤ length src
    → splice (drop m src) (off + m) (splice (take m src) off f) o ≡ splice src off f o
unfolding splice
splice-splice m src off f o h = elim (dec_lt o (off + m)) [
  | yes p ↦ elim (dec_le off o) [
    | yes q ↦ ground (
      arith,
      p,
      q,
      h,
      length-take m src h,
      length-drop m src,
      get_or-take m src (o - off) (omega (arith, p, q)),
    )
    | no q ↦ ground (arith, p, q, h, length-take m src h, length-drop m src)
  ]
  | no p ↦
      let e : o - (off + m) + m ≡ o - off = omega (arith, p) in
      let g : get_or (drop m src) (o - (off + m)) 0 ≡ get_or src (o - off) 0 =
        get_or-drop m src (o - (off + m)) ∙ ap (λ i. get_or src i 0) e in
      ground (arith, p, h, length-take m src h, length-drop m src, g)
]

-- The part of a list that goes into the block of `off`.
pub in_block :
    (xs : List ℕ) (off : ℕ) (m : Mem) (f : ℕ → ℕ) (o : ℕ)
    → off % 512 + length xs ≤ 512
    → (off / 512 ≡ o / 512 → m (o % 512) ≡ f o)
    → (if off / 512 == o / 512 then put_bytes (off % 512) xs m (o % 512) else f o)
      ≡ splice xs off f o
unfolding splice
in_block xs off m f o h same = elim (ℕ_discrete (off / 512) (o / 512)) [
  | no ne ↦ apart (length xs) (get_or xs (o - off) 0) (f o) _ h ne
  | yes e ↦
      let q : o % 512 - off % 512 ≡ o - off = omega (arith, e) in
      within (length xs) (get_or xs (o - off) 0) _ e (
        put_bytes_lem xs (off % 512) m (o % 512)
        ∙ ap₂
            (λ i y.
              if leb (off % 512) (o % 512) && ltb (o % 512) (off % 512 + length xs)
              then get_or xs i 0
              else y)
            q (same e))
]
  where
    apart :
        (n v w z : ℕ)
        → off % 512 + n ≤ 512
        → off / 512 ≢ o / 512
        → (if off / 512 == o / 512 then z else w) ≡ (if leb off o && ltb o (off + n) then v else w)
    apart n v w z h ne = ground (arith, h, ne)

    within :
        (n v p : ℕ)
        → off / 512 ≡ o / 512
        → p ≡ (if leb (off % 512) (o % 512) && ltb (o % 512) (off % 512 + n) then v else f o)
        → (if off / 512 == o / 512 then p else f o)
          ≡ (if leb off o && ltb o (off + n) then v else f o)
    within n v p e h = ground (arith, e, h)
