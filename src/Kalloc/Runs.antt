-- ===== src/Kalloc/Runs.antt =====
-- Any sequence of kalloc and kfree.
use yonix.Base.{
  Absent, Distinct, ℕ, ◌+◌, ◌^◌, ◌<◌, ◌≡◌, refl, sym, ap, subst, inl, inr, Bool, true, false, ◌||◌,
  List, [], ◌∷◌, arith, ◌==◌, if◌then◌else◌, Bool-cases, All,
}
use yonix.Kalloc.{Pool, Memory, ok, panics, push, is_bad, kfree, kalloc}
use yonix.Kalloc.Pages.{Sound, Given, kalloc-Given, kalloc-kfree}

abbrev pub is_held : ℕ → List ℕ → Bool
is_held v [] = false
is_held v (w ∷ ws) = v == w || is_held v ws

abbrev pub without : ℕ → List ℕ → List ℕ
without v [] = []
without v (w ∷ ws) = if v == w then without v ws else w ∷ without v ws

-- The pages that are held after some calls: kalloc while a page is free, and kfree of a page that is held
-- where kfree does not panic.
pub data Run (page_out : Memory → Memory) (end : ℕ) : List ℕ → Memory → Type 0 where
  starts : (m : Memory) → Sound m.kmem → Run page_out end [] m
  gets :
      {held : List ℕ} {m : Memory} (v : ℕ) (t : Memory)
      → Run page_out end held m
      → 0 < m.kmem.nfreeblock
      → kalloc page_out m ≡ (v, t)
      → Run page_out end (v ∷ held) t
  frees :
      {held : List ℕ} {m : Memory} (v : ℕ) (t : Memory) (rest : List ℕ)
      → Run page_out end held m
      → is_held v held ≡ true
      → m.kmem.nfreeblock + 1 < 2 ^ 32
      → kfree end v m ≡ ok t
      → rest ≡ without v held
      → Run page_out end rest t

-- No page is held twice, and none that is held is free.
pub record Owned (held : List ℕ) (p : Pool) : Type 0 where
  pub sound : Sound p
  pub once : Distinct held
  pub apart : All (λ v. Absent v p.freelist) held

apart_less :
    (held : List ℕ) (v : ℕ) (l : List ℕ)
    → All (λ w. Absent w (v ∷ l)) held
    → All (λ w. Absent w l) held × Absent v held
apart_less [] v l h = (tt, tt)
apart_less (w ∷ ws) v l (h, hs) =
    let (a, b) = apart_less ws v l hs in ((h.1, a), ((λ e. h.0 (sym e)), b))

gives :
    (held l l' : List ℕ) (v : ℕ)
    → l ≡ v ∷ l'
    → All (λ w. Absent w l) held
    → All (λ w. Absent w l') held × Absent v held
gives held l l' v e h = apart_less held v l' (subst (λ k. All (λ w. Absent w k) held) e h)

without-Absent : (v w : ℕ) (held : List ℕ) → Absent w held → Absent w (without v held)
without-Absent v w [] h = tt
without-Absent v w (x ∷ xs) (h, hs) = by_test (without-Absent v w xs hs) (v == x)
  where
    by_test :
        Absent w (without v xs)
        → (z : Bool) → Absent w (if z then without v xs else x ∷ without v xs)
    by_test ih true = ih
    by_test ih false = (h, ih)

away : (v : ℕ) (held : List ℕ) → Absent v (without v held)
away v [] = tt
away v (x ∷ xs) = by_test (away v xs) (v == x) refl
  where
    by_test :
        Absent v (without v xs)
        → (z : Bool) → v == x ≡ z
        → Absent v (if z then without v xs else x ∷ without v xs)
    by_test ih true e = ih
    by_test ih false e = (ground (arith, e), ih)

without-Distinct : (v : ℕ) (held : List ℕ) → Distinct held → Distinct (without v held)
without-Distinct v [] h = tt
without-Distinct v (x ∷ xs) (h, hs) = by_test (without-Distinct v xs hs) (v == x)
  where
    by_test :
        Distinct (without v xs)
        → (z : Bool) → Distinct (if z then without v xs else x ∷ without v xs)
    by_test ih true = ih
    by_test ih false = (without-Absent v x xs h, ih)

held_at :
    (v : ℕ) (held l : List ℕ) → is_held v held ≡ true → All (λ w. Absent w l) held → Absent v l
held_at v [] l e h = absurd (ground (arith, e))
held_at v (x ∷ xs) l e (h, hs) = elim (Bool-cases (v == x)) [
  | inl q ↦ let s : x ≡ v = ground (arith, q) in subst (λ w. Absent w l) s h
  | inr q ↦ held_at v xs l (ground (arith, e, q)) hs
]

apart_more :
    (v : ℕ) (held l : List ℕ)
    → All (λ w. Absent w l) held
    → All (λ w. Absent w (v ∷ l)) (without v held)
apart_more v [] l h = tt
apart_more v (x ∷ xs) l (h, hs) = by_test (apart_more v xs l hs) (v == x) refl
  where
    by_test :
        All (λ w. Absent w (v ∷ l)) (without v xs)
        → (z : Bool) → v == x ≡ z
        → All (λ w. Absent w (v ∷ l)) (if z then without v xs else x ∷ without v xs)
    by_test ih true e = ih
    by_test ih false e = (((λ q. ground (arith, e, q)), h), ih)

freed_lem :
    (end v : ℕ) (m t : Memory) → kfree end v m ≡ ok t → t.kmem.freelist ≡ v ∷ m.kmem.freelist
unfolding kfree
freed_lem end v m t e = by_test (is_bad end v) e
  where
    by_test :
        (b : Bool)
        → (if b then panics else ok (record m { kmem = push v m.kmem })) ≡ ok t
        → t.kmem.freelist ≡ v ∷ m.kmem.freelist
    by_test true h = absurd (ground (arith, h))
    by_test false h =
        let same : record m { kmem = push v m.kmem } ≡ t = ground (arith, h) in
        sym (ap (λ (u : Memory). u.kmem.freelist) same)

-- In every sequence of kalloc, while a page is free, and of kfree of pages that are held, no page is
-- given to two holders at once and no page that is held is on the free list, and the pool stays
-- sound: it counts its pages right and lists none twice.
pub Run-Owned :
    {page_out : Memory → Memory} {end : ℕ} {held : List ℕ} {m : Memory}
    → Run page_out end held m
    → Owned held m.kmem
Run-Owned (starts m s) = record { sound = s; once = tt; apart = tt }
Run-Owned {page_out} (gets {held} {m} v t r some_free e) =
    let o = Run-Owned r in
    let (l, absent, sound, _) = subst (Given m) e (kalloc-Given page_out m o.sound some_free) in
    let (rest, new) = gives held m.kmem.freelist t.kmem.freelist v l o.apart in
    record { sound = sound; once = (new, o.once); apart = (absent, rest) }
Run-Owned {page_out} {end} (frees {held} {m} v t rest r is room e same) =
    let o = Run-Owned r in
    let f = freed_lem end v m t e in
    record {
      sound =
          (kalloc-kfree page_out end v m o.sound room (held_at v held m.kmem.freelist is o.apart)
            e).0;
      once = subst Distinct (sym same) (without-Distinct v held o.once);
      apart =
          subst (λ k. All (λ w. Absent w t.kmem.freelist) k) (sym same)
            (subst (λ l. All (λ w. Absent w l) (without v held)) (sym f)
              (apart_more v held m.kmem.freelist o.apart));
    }
