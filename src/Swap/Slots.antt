-- ===== src/Swap/Slots.antt =====
-- A slot is found again, and freeing it gives the map back.
use yonix.Base.{
  ℕ, zero, suc, ◌+◌, ◌≤◌, ◌<◌, ◌≡◌, refl, sym, ap, subst, ◌≢◌, inl, inr, true, false, Option, none,
  some, arith, ℕ_discrete, update, leb, ◌==◌, Bool-cases,
}
use yonix.Swap.{
  slotsize, section_of, slot_of, Result, ok, panics, find_from, alloc_slot, find_slot, free_slot,
}

find_from-some :
    (k i id : ℕ) (m : ℕ → ℕ) (x : ℕ)
    → find_from k i id m ≡ some x
    → (i ≤ x) × (x < i + k) × (m x ≡ id)
unfolding find_from
find_from-some zero i id m x h = absurd (ground arith)
find_from-some (suc k) i id m x h = elim (Bool-cases (m i == id)) [
  | inl here ↦
      let e : i ≡ x = ground (arith, here) in
      let g : m i ≡ id = ground (arith, here) in
      (omega arith, omega arith, subst (λ y. m y ≡ id) e g)
  | inr later ↦
      let (a, b, g) = find_from-some k (i + 1) id m x (ground (arith, later)) in
      (omega arith, omega arith, g)
]

-- A value that only index `x` holds is found at `x`.
find_from-only :
    (k i id : ℕ) (m : ℕ → ℕ) (x : ℕ)
    → i ≤ x
    → x < i + k
    → m x ≡ id
    → ((j : ℕ) → j ≢ x → m j ≢ id)
    → find_from k i id m ≡ some x
unfolding find_from
find_from-only zero i id m x a b g only = absurd (omega arith)
find_from-only (suc k) i id m x a b g only = elim (ℕ_discrete i x) [
  | yes e ↦
      let here : m i == id ≡ true = subst (λ y. m y == id ≡ true) (sym e) (ground (arith, g)) in
      rw here (ap some e)
  | no ne ↦
      let there : m i == id ≡ false = ground (arith, only i ne) in
      rw there (find_from-only k (i + 1) id m x (omega arith) (omega arith) g only)
]

slot_of-section_of : (i : ℕ) → i < slotsize → slot_of (section_of i) ≡ i
slot_of-section_of i h = omega arith

restored : (m : ℕ → ℕ) (i id j : ℕ) → m i ≡ 0 → update (update m i id) i 0 j ≡ m j
restored m i id j z = elim (ℕ_discrete i j) [
  | yes e ↦ ground (arith, e, z)
  | no ne ↦ ground (arith, ne)
]

found_again :
    (id : ℕ) (m : ℕ → ℕ) (i : ℕ)
    → i < slotsize
    → ((j : ℕ) → m j ≢ id)
    → find_slot id (update m i id) ≡ ok (section_of i)
unfolding find_slot
found_again id m i lt fresh = rw (found, find_slot) refl
  where
    others : (j : ℕ) → j ≢ i → update m i id j ≢ id
    others j ne = ground (arith, ne, fresh j)

    here : update m i id i ≡ id
    here = ground arith

    found : find_from slotsize 0 id (update m i id) ≡ some i
    found =
        find_from-only slotsize 0 id (update m i id) i (omega arith) (omega (arith, lt)) here others

freed_again :
    (id : ℕ) (m : ℕ → ℕ) (i : ℕ)
    → i < slotsize
    → free_slot (section_of i) (update m i id) ≡ ok (update (update m i id) i 0)
unfolding free_slot
freed_again id m i lt =
    let back = slot_of-section_of i lt in
    let inside : leb slotsize i ≡ false = ground (arith, lt) in rw (back, inside) refl

-- A slot that alloc_slot gives to a page that has none is found again by find_slot at the same
-- section, and free_slot of that section gives the map back as it was.
pub slot_round_trip :
    (id : ℕ) (m : ℕ → ℕ) {section : ℕ} {t : ℕ → ℕ}
    → id ≢ 0
    → ((j : ℕ) → m j ≢ id)
    → alloc_slot id m ≡ ok (section, t)
    → (find_slot id t ≡ ok section)
      × ((u : ℕ → ℕ) × (free_slot section t ≡ ok u) × ((j : ℕ) → u j ≡ m j))
unfolding alloc_slot
slot_round_trip id m {section} {t} nz fresh e = by_found (find_from slotsize 0 0 m) refl e
  where
    goal : ℕ → (ℕ → ℕ) → Type 0
    goal section t =
        (find_slot id t ≡ ok section)
        × ((u : ℕ → ℕ) × (free_slot section t ≡ ok u) × ((j : ℕ) → u j ≡ m j))

    given : (i : ℕ) → find_from slotsize 0 0 m ≡ some i → goal (section_of i) (update m i id)
    given i h =
        let (a, lt, z) = find_from-some slotsize 0 0 m i h in
        (
          found_again id m i lt fresh,
          (update (update m i id) i 0, freed_again id m i lt, λ j. restored m i id j z),
        )

    by_found :
        (o : Option ℕ)
        → find_from slotsize 0 0 m ≡ o
        → elim o as (λ x. Result (ℕ × (ℕ → ℕ))) [
          | none ↦ panics
          | some i ↦ ok (section_of i, update m i id)
        ]
          ≡ ok (section, t)
        → goal section t
    by_found none h g = absurd (ground arith)
    by_found (some i) h g =
        subst (λ (r : Result (ℕ × (ℕ → ℕ))). elim r [ ok p ↦ goal p.0 p.1 | panics ↦ ⊥ ]) g
          (given i h)
