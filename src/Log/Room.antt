-- ===== src/Log/Room.antt =====
-- The calls of log_write of a function that logs blocks: what the log holds then.
use yonix.Base.{
  ℕ, suc, ◌+◌, ◌-◌, ◌≤◌, ◌<◌, ◌≡◌, refl, sym, ap, ◌∙◌, subst, ◌⊎◌, inl, inr, Bool, true, false,
  ◌||◌, List, [], ◌∷◌, ◌++◌, arith, dec_lt, ltb, leb, ◌==◌, if◌then◌else◌, Bool-cases, length,
  length-set,
}
use yonix.Log.{
  Log, logsize, logged, Result, ok, panics, find_block, log_write, and_then, log_all, returns,
  log_panics, call_end, with_log,
}
use yonix.Log.Replay.{mem}
use yonix.Log.Admission.{find_block-Found, written, log_write-written, by_mem, length-take}

-- The log holds the blocks that it held, and `bs`.
abbrev pub Recorded : Log → List ℕ → Log → Type 0
Recorded l bs l' = (x : ℕ) → mem x (logged l') ≡ (mem x (logged l) || mem x bs)

-- No operation is under way, or the log has no room for as many blocks as `bs` has.
abbrev pub NoRoom : Log → List ℕ → Type 0
NoRoom l bs = (l.outstanding < 1) ⊎ ((logsize ≤ l.n + length bs) ⊎ (l.size ≤ l.n + length bs + 1))

abbrev LogResult : Log → List ℕ → Result Log → Type 0
LogResult l bs (ok l') = Recorded l bs l'
LogResult l bs panics = NoRoom l bs

mem-end : (x b : ℕ) (bs : List ℕ) → mem x (bs ++ b ∷ []) ≡ (mem x bs || b == x)
mem-end x b [] = ground arith
mem-end x b (c ∷ cs) = ground (arith, mem-end x b cs)

-- A call that does not panic, and the room that is left then.
one_more :
    (l : Log) (b : ℕ)
    → logsize ≤ length l.block
    → l.n < logsize
    → ((x : ℕ) → mem x (logged (written l b)) ≡ (mem x (logged l) || b == x))
      × ((written l b).n ≤ l.n + 1)
      × (logsize ≤ length (written l b).block)
one_more l b long small =
    let size : length (logged l) ≡ l.n = length-take l.n l.block (omega (arith, long, small)) in
    let same =
      by_mem l b (omega (arith, long, small)) size (find_block-Found b 0 (logged l))
        (Bool-cases (mem b (logged l))) in
    (
      (λ x. ap (mem x) same ∙ at_end x (mem b (logged l)) refl),
      grown l.n (find_block b 0 (logged l)),
      subst (λ n. logsize ≤ n) (sym (length-set l.block (find_block b 0 (logged l)) b)) long,
    )
  where
    grown : (n i : ℕ) → (if i == n then n + 1 else n) ≤ n + 1
    grown n i = ground arith

    already : (x y : ℕ) (bs : List ℕ) → mem y bs ≡ true → mem x bs ≡ (mem x bs || y == x)
    already x y bs h = elim (Bool-cases (y == x)) [
      | inl e ↦
          let q : y ≡ x = ground (arith, e) in
          let k = subst (λ z. mem z bs ≡ true) q h in ground (arith, k)
      | inr e ↦ ground (arith, e)
    ]

    at_end :
        (x : ℕ) (z : Bool)
        → mem b (logged l) ≡ z
        → mem x (if z then logged l else logged l ++ b ∷ []) ≡ (mem x (logged l) || b == x)
    at_end x true e = already x b (logged l) e
    at_end x false e = mem-end x b (logged l)

room :
    (n size running : ℕ)
    → ((n < logsize) × (n < size - 1) × (0 < running))
      ⊎ ((running < 1) ⊎ ((logsize ≤ n) ⊎ (size ≤ n + 1)))
room n size running = elim (dec_lt n 30) [
  | no p ↦ inr (inr (inl (omega (arith, p))))
  | yes p ↦ elim (dec_lt n (size - 1)) [
    | no q ↦ inr (inr (inr (omega (arith, q))))
    | yes q ↦ elim (dec_lt 0 running) [
      | yes r ↦ inl (p, q, r)
      | no r ↦ inr (inl (omega (arith, r)))
    ]
  ]
]

NoRoom-longer :
    (b : ℕ) (bs : List ℕ) (l : Log)
    → (l.outstanding < 1) ⊎ ((logsize ≤ l.n) ⊎ (l.size ≤ l.n + 1))
    → NoRoom l (b ∷ bs)
NoRoom-longer b bs l (inl h) = inl h
NoRoom-longer b bs l (inr (inl h)) = inr (inl (omega (arith, h)))
NoRoom-longer b bs l (inr (inr h)) = inr (inr (omega (arith, h)))

without_room :
    (b : ℕ) (bs : List ℕ) (l : Log)
    → (l.outstanding < 1) ⊎ ((logsize ≤ l.n) ⊎ (l.size ≤ l.n + 1))
    → log_write l b ≡ panics
unfolding log_write
without_room b bs l (inl h) =
    let q : ltb l.outstanding 1 ≡ true = ground (arith, h) in
    rw q (if_same panics (leb logsize l.n || leb (l.size - 1) l.n))
  where
    if_same : (x : Result Log) (z : Bool) → (if z then x else x) ≡ x
    if_same x true = refl
    if_same x false = refl
without_room b bs l (inr (inl h)) =
    let q : (leb logsize l.n || leb (l.size - 1) l.n) ≡ true = ground (arith, h) in rw q refl
without_room b bs l (inr (inr h)) =
    let q : (leb logsize l.n || leb (l.size - 1) l.n) ≡ true = ground (arith, h) in rw q refl

log_all-LogResult :
    (bs : List ℕ) (l : Log) → logsize ≤ length l.block → LogResult l bs (log_all l bs)
unfolding log_all
log_all-LogResult [] l long = λ x. or_false (mem x (logged l))
  where
    or_false : (z : Bool) → z ≡ (z || false)
    or_false z = ground arith
log_all-LogResult (b ∷ bs) l long = elim (room l.n l.size l.outstanding) [
  | inl (small, fits, under_way) ↦
      let (holds, le, still) = one_more l b long small in
      subst (λ r. LogResult l (b ∷ bs) (and_then r (λ l'. log_all l' bs)))
        (sym (log_write-written l b small fits under_way))
        (more holds le (log_all (written l b) bs) (log_all-LogResult bs (written l b) still))
  | inr h ↦
      subst (λ r. LogResult l (b ∷ bs) (and_then r (λ l'. log_all l' bs)))
        (sym (without_room b bs l h)) (NoRoom-longer b bs l h)
]
  where
    more :
        ((x : ℕ) → mem x (logged (written l b)) ≡ (mem x (logged l) || b == x))
        → (written l b).n ≤ l.n + 1
        → (r : Result Log) → LogResult (written l b) bs r
        → LogResult l (b ∷ bs) r
    more holds le (ok l') h =
        λ x. h x ∙ ap (λ z. z || mem x bs) (holds x) ∙ assoc (mem x (logged l)) (b == x) (mem x bs)
      where
        assoc : (p q r : Bool) → ((p || q) || r) ≡ (p || (q || r))
        assoc p q r = ground arith
    more holds le panics (inl h) = inl h
    more holds le panics (inr (inl h)) = inr (inl (add (written l b).n h le))
      where
        add : (m : ℕ) → 30 ≤ m + length bs → m ≤ l.n + 1 → 30 ≤ l.n + suc (length bs)
        add m h k = omega (arith, h, k)
    more holds le panics (inr (inr h)) = inr (inr (add (written l b).n h le))
      where
        add :
            (m : ℕ) → l.size ≤ m + length bs + 1 → m ≤ l.n + 1 → l.size ≤ l.n + suc (length bs) + 1
        add m h k = omega (arith, h, k)

-- How the calls of log_write of a function end, in a log with an array of at least LOGSIZE numbers.
pub with_log-cases {ℓ} :
    {A : Type ℓ} (a : A) (bs : List ℕ) (l : Log)
    → logsize ≤ length l.block
    → ((l' : Log) × (with_log a bs l ≡ returns a l') × Recorded l bs l')
      ⊎ ((with_log a bs l ≡ log_panics bs) × NoRoom l bs)
with_log-cases {A} a bs l long = by_result (log_all l bs) (log_all-LogResult bs l long)
  where
    by_result :
        (r : Result Log)
        → LogResult l bs r
        → ((l' : Log) × (call_end a bs r ≡ returns a l') × Recorded l bs l')
          ⊎ ((call_end a bs r ≡ log_panics bs) × NoRoom l bs)
    by_result (ok l') h = inl (l', refl, h)
    by_result panics h = inr (refl, h)
