-- ===== src/Swap.antt =====
-- vm.c: the slots of the swap area, and the queue of the pages that can be swapped out.
-- The map of the slots is a function of the index, of which the code uses the first SLOTSIZE. A page
-- in memory has an entry on the queue; `entry` gives what an entry at an address holds.
mod Tests
pub mod Slots
pub mod Choice
use yonix.Base.{
  ℕ, zero, suc, ◌+◌, ◌-◌, ◌*◌, ◌/◌, ◌%◌, ◌^◌, ◌≤◌, ◌<◌, min, bit_and, bit_or, bit_xor, ◌≡◌, refl,
  sym, ap, ap₂, ◌∙◌, fun_ext, subst, ◌≢◌, ◌↔◌, ◌⊎◌, inl, inr, Bool, true, false, not, ◌&&◌, ◌||◌,
  Option, none, some, List, [], ◌∷◌, ◌++◌, map, append-nil, append_assoc, arith, dec_lt, dec_le,
  ℕ_discrete, Mem, update, ltb, leb, ◌==◌, if◌then◌else◌, ltb→lt, lt→ltb, le→ltb, ==_refl, ==_iff,
  Bool-cases, Option-cases, Nat-cases, length, get_elem?, get_or, set, take, drop, replicate, All,
  length-append, length-set, get_or-set_self, get_or-set_ne, length-replicate,
}
use yonix.TailQueue.{TailQueue}

-- SLOTSIZE
abbrev pub slotsize : ℕ
slotsize = 134217728 / 4096

-- SWAPM2SECNO and SECNO2SWAPM
abbrev pub section_of : ℕ → ℕ
section_of i = i * 8 % 2 ^ 32

abbrev pub slot_of : ℕ → ℕ
slot_of section = section / 8

pub data Result {ℓ} (A : Type ℓ) : Type ℓ where
  ok : A → Result A
  panics : Result A

-- The first of `k` slots from index `i` on that holds `id`.
pub find_from : ℕ → ℕ → ℕ → (ℕ → ℕ) → Option ℕ
find_from zero i id m = none
find_from (suc k) i id m = let rest = find_from k (i + 1) id m in if m i == id then some i else rest

pub alloc_slot : ℕ → (ℕ → ℕ) → Result (ℕ × (ℕ → ℕ))
unfolding find_from
alloc_slot id m = elim (find_from slotsize 0 0 m) [
  | none ↦ panics
  | some i ↦ ok (section_of i, update m i id)
]

pub find_slot : ℕ → (ℕ → ℕ) → Result ℕ
unfolding find_from
find_slot id m = elim (find_from slotsize 0 id m) [ none ↦ panics | some i ↦ ok (section_of i) ]

pub free_slot : ℕ → (ℕ → ℕ) → Result (ℕ → ℕ)
free_slot section m =
    if leb slotsize (slot_of section) then panics else ok (update m (slot_of section) 0)

pub free_page_slot : ℕ → (ℕ → ℕ) → ℕ → ℕ
unfolding find_from
free_page_slot id m = elim (find_from slotsize 0 id m) [ none ↦ m | some i ↦ update m i 0 ]

-- `struct page_entry` without its link; `ref` is whether the accessed bit is set in it.
pub record Entry : Type 0 where
  pub pte : ℕ
  pub id : ℕ
  pub ref : Bool

pub record Pages (tq : TailQueue) : Type 0 where
  pub queue : tq.Queue
  pub entry : ℕ → Entry
  pub swap_map : ℕ → ℕ

module _ (tq : TailQueue) where
  open tq use {entries, insert_tail, remove}

  -- add_page: the new entry is at the address `x` that alloc_slab gives, and `accessed` is the
  -- accessed bit of the page table entry. The number of the page and the pid are in distinct bits.
  pub add_page : ℕ → ℕ → ℕ → ℕ → Bool → Pages tq → Pages tq
  add_page x pte va pid accessed s = record s {
    queue = insert_tail s.queue x;
    entry = update s.entry x (record { pte = pte; id = bit_or va pid; ref = accessed });
  }

  -- The position on the queue of the first entry for the page `id`.
  pub find_entry : ℕ → ℕ → List ℕ → (ℕ → Entry) → Option ℕ
  find_entry i id [] e = none
  find_entry i id (x ∷ xs) e =
      let rest = find_entry (i + 1) id xs e in if (e x).id == id then some i else rest

  pub free_page : ℕ → Bool → Pages tq → Pages tq
  unfolding find_entry free_page_slot
  free_page id flag_slot s = elim (find_entry 0 id (entries s.queue) s.entry) [
    | none ↦ s
    | some i ↦ record s {
      queue = remove s.queue i;
      swap_map = if flag_slot then free_page_slot id s.swap_map else s.swap_map;
    }
  ]

  -- The loop of sel_page: it clears the reference bits that it meets up to the first that is clear.
  pub second_chance : List ℕ → (ℕ → Entry) → Option ℕ × (ℕ → Entry)
  second_chance [] e = (none, e)
  second_chance (x ∷ xs) e =
      let more = second_chance xs (update e x (record (e x) { ref = false })) in
      if (e x).ref then more else (some x, e)

  -- sel_page, with the second-chance algorithm that PR_ALGO names: the entry, or none on an empty queue.
  pub sel_page : Pages tq → Option ℕ × Pages tq
  unfolding second_chance
  sel_page s =
      let (o, e) = second_chance (entries s.queue) s.entry in
      let t : Pages tq = record s { entry = e } in
      elim o [
        | some x ↦ (some x, t)
        | none ↦ (elim (entries s.queue) [ [] ↦ none | x ∷ xs ↦ some x ], t)
      ]
