-- ===== src/Swap/Choice.antt =====
-- Which page sel_page chooses.
use yonix.Base.{
  sym, ◌∙◌, Absent, Distinct, ◌==◌, subst, ◌≢◌, ℕ, ◌≡◌, refl, ap, ◌⊎◌, inl, inr, true, false,
  Option, none, some, List, [], ◌∷◌, ◌++◌, arith, update, ==_refl, Bool-cases, All,
}
use yonix.TailQueue.{TailQueue}
use yonix.Swap.{Entry, Pages, second_chance, sel_page}

-- The reference bit is clear, or set.
abbrev pub Clear : (ℕ → Entry) → List ℕ → Type 0
Clear e l = All (λ x. (e x).ref ≡ false) l

abbrev pub Referenced : (ℕ → Entry) → List ℕ → Type 0
Referenced e l = All (λ x. (e x).ref ≡ true) l

module _ (tq : TailQueue) where
  open tq use {entries}

  cleared : (ℕ → Entry) → ℕ → ℕ → Entry
  cleared e x = update e x (record (e x) { ref = false })

  stays_clear :
      (l : List ℕ) (e : ℕ → Entry) (x : ℕ)
      → (e x).ref ≡ false
      → ((second_chance tq l e).1 x).ref ≡ false
  unfolding second_chance
  stays_clear [] e x h = h
  stays_clear (y ∷ l) e x h = elim (Bool-cases (e y).ref) [
    | inl set_bit ↦
        rw set_bit (stays_clear l (update e y (record (e y) { ref = false })) x (ground (arith, h)))
    | inr clear ↦ rw clear h
  ]

  was_set :
      (l : List ℕ) (e : ℕ → Entry) (x : ℕ)
      → Referenced (update e x (record (e x) { ref = false })) l
      → Referenced e l
  was_set [] e x h = tt
  was_set (y ∷ l) e x h = (ground (arith, h.0), was_set l e x h.1)

  -- What a scan of the list `l` finds and leaves.
  abbrev pub Scanned : List ℕ → (ℕ → Entry) → Option ℕ × (ℕ → Entry) → Type 0
  Scanned l e (none, e') = Referenced e l × Clear e' l
  Scanned l e (some x, e') =
      (before : List ℕ) × (behind : List ℕ) × (l ≡ before ++ x ∷ behind)
      × Referenced e before
      × Clear e' before
      × ((e x).ref ≡ false)
      × ((z : ℕ) → Absent z before → e' z ≡ e z)

  now_clear_lem :
      (e : ℕ → Entry) (x : ℕ) → (update e x (record (e x) { ref = false }) x).ref ≡ false
  now_clear_lem e x = rw (==_refl x) refl

  update_else : (e : ℕ → Entry) (x z : ℕ) (v : Entry) → z ≢ x → update e x v z ≡ e z
  update_else e x z v ne = let q : x == z ≡ false = ground (arith, ne) in rw q refl

  Absent-at : (x y : ℕ) (before behind : List ℕ) → Absent x (before ++ y ∷ behind) → y ≢ x
  Absent-at x y [] behind h e = h.0 (sym e)
  Absent-at x y (b ∷ before) behind h e = Absent-at x y before behind h.1 e

  Scanned-cons :
      (x : ℕ) (l : List ℕ) (e : ℕ → Entry) (r : Option ℕ × (ℕ → Entry))
      → Absent x l
      → (e x).ref ≡ true
      → (r.1 x).ref ≡ false
      → Scanned l (update e x (record (e x) { ref = false })) r
      → Scanned (x ∷ l) e r
  Scanned-cons x l e (none, e') away h c (a, b) = ((h, was_set l e x a), (c, b))
  Scanned-cons x l e (some y, e') away h c (before, behind, eq, a, b, z, keep) =
      let ne = Absent-at x y before behind (subst (Absent x) eq away) in
      (
        x ∷ before,
        behind,
        ap (λ k. x ∷ k) eq,
        (h, was_set before e x a),
        (c, b),
        sym (ap (λ (q : Entry). q.ref) (update_else e x y (record (e x) { ref = false }) ne)) ∙ z,
        λ w (nx, rest). keep w rest ∙ update_else e x w (record (e x) { ref = false }) nx,
      )

  second_chance-Scanned :
      (l : List ℕ) (e : ℕ → Entry) → Distinct l → Scanned l e (second_chance tq l e)
  unfolding second_chance
  second_chance-Scanned [] e d = (tt, tt)
  second_chance-Scanned (x ∷ l) e (away, d) =
      let e1 : ℕ → Entry = update e x (record (e x) { ref = false }) in
      let now_clear : (e1 x).ref ≡ false = now_clear_lem e x in
      elim (Bool-cases (e x).ref) [
        | inl set_bit ↦ rw set_bit (
            Scanned-cons x l e (second_chance tq l e1) away set_bit (stays_clear l e1 x now_clear)
              (second_chance-Scanned l e1 d))
        | inr clear ↦ rw clear ([], l, refl, tt, tt, clear, λ z _. refl)
      ]

  -- What sel_page chooses and leaves, `l` being the entries of the queue.
  abbrev pub Chosen : List ℕ → Pages tq → Option ℕ × Pages tq → Type 0
  Chosen [] s (o, t) = (o ≡ none) × (t.queue ≡ s.queue)
  Chosen (x ∷ l) s (none, t) = ⊥
  Chosen (x ∷ l) s (some y, t) =
      (t.queue ≡ s.queue)
      × (Scanned (x ∷ l) s.entry (some y, t.entry)
          ⊎ ((y ≡ x) × Referenced s.entry (x ∷ l) × Clear t.entry (x ∷ l)))

  -- In a queue that has no page twice, sel_page passes over the pages at the front whose reference bits
  -- are set, clears these bits, and chooses the first page whose bit was clear; no other bit changes.
  -- If all bits are set it clears them all and chooses the first page. It chooses nothing on an empty
  -- queue and a page on any other, and leaves the queue as it is.
  pub sel_page-Chosen :
      (s : Pages tq) → Distinct (entries s.queue) → Chosen (entries s.queue) s (sel_page tq s)
  unfolding sel_page
  sel_page-Chosen s d =
      by_scan (entries s.queue) (second_chance tq (entries s.queue) s.entry)
        (second_chance-Scanned (entries s.queue) s.entry d)
    where
      by_scan :
          (l : List ℕ) (r : Option ℕ × (ℕ → Entry))
          → Scanned l s.entry r
          → Chosen l s (elim r.0 [
            | some x ↦ (some x, record s { entry = r.1 })
            | none ↦ (
              elim l as (λ k. Option ℕ) [ [] ↦ none | x ∷ xs ↦ some x ],
              record s { entry = r.1 },
            )
          ])
      by_scan [] (none, e') h = (refl, refl)
      by_scan [] (some x, e') ([], behind, eq, a, b, c, k) = absurd (ground arith)
      by_scan [] (some x, e') (y ∷ before, behind, eq, a, b, c, k) = absurd (ground arith)
      by_scan (x ∷ l) (none, e') h = (refl, inr (refl, h.0, h.1))
      by_scan (x ∷ l) (some y, e') h = (refl, inl h)
