-- ===== src/Bio/Unique.antt =====
-- No block is in two buffers.
use yonix.Base.{
  ℕ, ◌≡◌, refl, sym, ap, ◌∙◌, subst, ◌≢◌, ◌⊎◌, inl, inr, Bool, true, false, none, some, List, [],
  ◌∷◌, ◌++◌, arith, ℕ_discrete, update, ◌==◌, Bool-cases,
}
use yonix.Bio.{no_dev, Buf, find_buf, backwards, is_block, unlink}

abbrev pub In : ℕ → List ℕ → Type 0
In b [] = ⊥
In b (c ∷ l) = (c ≡ b) ⊎ In b l

-- Two buffers of the list that hold the same block of a device are one.
abbrev pub Unique : (ℕ → Buf) → List ℕ → Type 0
Unique f l =
    (a b : ℕ)
    → In a l
    → In b l
    → (f a).dev ≢ no_dev
    → (f a).dev ≡ (f b).dev
    → (f a).blockno ≡ (f b).blockno
    → a ≡ b

pub find_buf-some :
    (t : ℕ → Bool) (l : List ℕ) (b : ℕ) → find_buf t l ≡ some b → In b l × (t b ≡ true)
unfolding find_buf
find_buf-some t [] b h = absurd (ground arith)
find_buf-some t (c ∷ l) b h = elim (Bool-cases (t c)) [
  | inl here ↦ let e : c ≡ b = ground (arith, here) in (inl e, subst (λ x. t x ≡ true) e here)
  | inr later ↦ let (i, g) = find_buf-some t l b (ground (arith, later)) in (inr i, g)
]

pub find_buf-none :
    (t : ℕ → Bool) (l : List ℕ) → find_buf t l ≡ none → (b : ℕ) → In b l → t b ≡ false
unfolding find_buf
find_buf-none t [] h b i = absurd i
find_buf-none t (c ∷ l) h b i = elim (Bool-cases (t c)) [
  | inl here ↦ absurd (ground (arith, here))
  | inr later ↦ elim i [
    | inl e ↦ subst (λ x. t x ≡ false) e later
    | inr j ↦ find_buf-none t l (ground (arith, later)) b j
  ]
]

pub In-append : (b : ℕ) (l k : List ℕ) → In b (l ++ k) → In b l ⊎ In b k
In-append b [] k h = inr h
In-append b (c ∷ l) k (inl e) = inl (inl e)
In-append b (c ∷ l) k (inr h) = elim (In-append b l k h) [ inl i ↦ inl (inr i) | inr i ↦ inr i ]

pub In-backwards : (b : ℕ) (l : List ℕ) → In b (backwards l) → In b l
In-backwards b [] h = h
In-backwards b (c ∷ l) h = elim (In-append b (backwards l) (c ∷ []) h) [
  | inl i ↦ inr (In-backwards b l i)
  | inr i ↦ elim i [ inl e ↦ inl e | inr f ↦ absurd f ]
]

In-append_left : (b : ℕ) (l k : List ℕ) → In b l → In b (l ++ k)
In-append_left b [] k h = absurd h
In-append_left b (c ∷ l) k (inl e) = inl e
In-append_left b (c ∷ l) k (inr h) = inr (In-append_left b l k h)

In-append_right : (b : ℕ) (l k : List ℕ) → In b k → In b (l ++ k)
In-append_right b [] k h = h
In-append_right b (c ∷ l) k h = inr (In-append_right b l k h)

pub backwards-In : (b : ℕ) (l : List ℕ) → In b l → In b (backwards l)
backwards-In b [] h = h
backwards-In b (c ∷ l) (inl e) = In-append_right b (backwards l) (c ∷ []) (inl e)
backwards-In b (c ∷ l) (inr h) = In-append_left b (backwards l) (c ∷ []) (backwards-In b l h)

pub In-unlink : (b c : ℕ) (l : List ℕ) → In b (unlink c l) → In b l
In-unlink b c [] h = h
In-unlink b c (d ∷ l) h = elim (Bool-cases (d == c)) [
  | inl e ↦ inr (subst (λ k. In b k) (unlinked e) h)
  | inr e ↦ elim (subst (λ k. In b k) (kept e) h) [
    | inl g ↦ inl g
    | inr g ↦ inr (In-unlink b c l g)
  ]
]
  where
    unlinked : d == c ≡ true → unlink c (d ∷ l) ≡ l
    unlinked e = rw e refl

    kept : d == c ≡ false → unlink c (d ∷ l) ≡ d ∷ unlink c l
    kept e = rw e refl

-- The buffers hold the same blocks after a change that keeps the block of one.
pub Unique-same :
    (f : ℕ → Buf) (b : ℕ) (g : Buf) (l : List ℕ)
    → g.dev ≡ (f b).dev
    → g.blockno ≡ (f b).blockno
    → Unique f l
    → Unique (update f b g) l
Unique-same f b g l ed eb u x y i j used sd sb =
    u x y i j (λ e. used (dev_of x ∙ e)) (sym (dev_of x) ∙ sd ∙ dev_of y)
      (sym (block_of x) ∙ sb ∙ block_of y)
  where
    dev_of : (x : ℕ) → (update f b g x).dev ≡ (f x).dev
    dev_of x = elim (ℕ_discrete b x) [ yes e ↦ ground (arith, e, ed) | no ne ↦ ground (arith, ne) ]

    block_of : (x : ℕ) → (update f b g x).blockno ≡ (f x).blockno
    block_of x = elim (ℕ_discrete b x) [
      | yes e ↦ ground (arith, e, eb)
      | no ne ↦ ground (arith, ne)
    ]

-- A buffer may take over a block that no other buffer holds.
pub Unique-new :
    (f : ℕ → Buf) (b : ℕ) (g : Buf) (l : List ℕ)
    → ((x : ℕ) → In x l → is_block f g.dev g.blockno x ≡ false)
    → Unique f l
    → Unique (update f b g) l
Unique-new f b g l new u x y i j used sd sb = elim (ℕ_discrete b x) [
  | yes e ↦ elim (ℕ_discrete b y) [
    | yes e' ↦ sym e ∙ e'
    | no ne ↦ absurd (clash y ne j (sym (here_dev x e) ∙ sd) (sym (here_block x e) ∙ sb))
  ]
  | no nx ↦ elim (ℕ_discrete b y) [
    | yes e ↦ absurd (clash x nx i (sym (here_dev y e) ∙ sym sd) (sym (here_block y e) ∙ sym sb))
    | no ny ↦
        u x y i j (λ e. used (ap (λ (r : Buf). r.dev) (other x nx) ∙ e))
          (ap (λ (r : Buf). r.dev) (sym (other x nx)) ∙ sd ∙ ap (λ (r : Buf). r.dev) (other y ny))
          (ap (λ (r : Buf). r.blockno) (sym (other x nx))
            ∙ sb
            ∙ ap (λ (r : Buf). r.blockno) (other y ny))
  ]
]
  where
    other : (x : ℕ) → b ≢ x → update f b g x ≡ f x
    other x ne = let z : b == x ≡ false = ground (arith, ne) in rw z refl

    here : (x : ℕ) → b ≡ x → update f b g x ≡ g
    here x e = let z : b == x ≡ true = ground (arith, e) in rw z refl

    here_dev : (x : ℕ) → b ≡ x → (update f b g x).dev ≡ g.dev
    here_dev x e = ap (λ (r : Buf). r.dev) (here x e)

    here_block : (x : ℕ) → b ≡ x → (update f b g x).blockno ≡ g.blockno
    here_block x e = ap (λ (r : Buf). r.blockno) (here x e)

    clash :
        (x : ℕ)
        → b ≢ x
        → In x l
        → g.dev ≡ (update f b g x).dev
        → g.blockno ≡ (update f b g x).blockno
        → ⊥
    clash x ne i d k =
        let d' : (f x).dev ≡ g.dev = sym (d ∙ ap (λ (r : Buf). r.dev) (other x ne)) in
        let k' : (f x).blockno ≡ g.blockno = sym (k ∙ ap (λ (r : Buf). r.blockno) (other x ne)) in
        let n = new x i in absurd (ground (arith, n, d', k'))
