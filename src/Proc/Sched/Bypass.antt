-- ===== src/Proc/Sched/Bypass.antt =====
-- sched_rr: how often a ready process is passed over.
use yonix.Base.{
  ℕ, zero, suc, ◌+◌, ◌-◌, ◌≤◌, ◌<◌, ◌≡◌, refl, sym, ap, ◌∙◌, subst, ◌≢◌, Bool, true, false, Option,
  none, some, List, [], ◌∷◌, arith, dec_lt, dec_le, leb, if◌then◌else◌, length, get_elem?, take,
  drop,
}
use yonix.TailQueue.{TailQueue}
use yonix.Proc.Table.{is_ready, Proc, State}
use yonix.Proc.Sched.{sched_rr}
use yonix.Proc.Sched.Choice.{NoneReady, RoundRobin, sched_rr-RoundRobin}

get_elem?-below : (ps : List Proc) (i : ℕ) {p : Proc} → get_elem? ps i ≡ some p → i < length ps
get_elem?-below [] i h = absurd (ground (arith, h))
get_elem?-below (q ∷ ps) zero h = omega arith
get_elem?-below (q ∷ ps) (suc i) h = let r = get_elem?-below ps i h in omega (arith, r)

get_elem?-drop : (n : ℕ) (ps : List Proc) (i : ℕ) → get_elem? (drop n ps) i ≡ get_elem? ps (n + i)
get_elem?-drop zero ps i = let e : 0 + i ≡ i = omega arith in rw e refl
get_elem?-drop (suc n) [] i = refl
get_elem?-drop (suc n) (p ∷ ps) i =
    let e : suc n + i ≡ suc (n + i) = omega arith in rw e (get_elem?-drop n ps i)

clash : {b : Bool} → b ≡ false → b ≡ true → ⊥
clash h k = ground (arith, h, k)

-- A ready process is not among those of which none is ready.
not_among :
    (ps : List Proc) (i : ℕ) (p : Proc)
    → get_elem? ps i ≡ some p
    → is_ready p.stat ≡ true
    → NoneReady ps
    → ⊥
not_among [] i p h r n = absurd (ground (arith, h))
not_among (q ∷ ps) zero p h r (n, ns) =
    let e : q ≡ p = ground (arith, h) in
    clash n (subst (λ (x : Proc). is_ready x.stat ≡ true) (sym e) r)
not_among (q ∷ ps) (suc i) p h r (n, ns) = not_among ps i p h r ns

get_elem?-take : (n : ℕ) (ps : List Proc) (i : ℕ) → i < n → get_elem? (take n ps) i ≡ get_elem? ps i
get_elem?-take zero ps i lt = absurd (omega (arith, lt))
get_elem?-take (suc n) [] i lt = refl
get_elem?-take (suc n) (q ∷ ps) zero lt = refl
get_elem?-take (suc n) (q ∷ ps) (suc i) lt = get_elem?-take n ps i (omega (arith, lt))

-- Process `j` is ready.
abbrev pub ReadyAt : ℕ → List Proc → Type 0
ReadyAt j ps = (p : Proc) × (get_elem? ps j ≡ some p) × (is_ready p.stat ≡ true)

module _ (tq : TailQueue) where
  -- After `k` calls of sched_rr in a row, between which anything may happen that leaves its pointer alone;
  -- process `j` of a table of `n` was ready at each of them, and none of them chose it.
  pub data PassedOver (j n : ℕ) : ℕ → State tq → Type 0 where
    starts : (s : State tq) → s.rr_next ≤ n → PassedOver j n 0 s
    calls :
        {k : ℕ} {s : State tq} (s' : State tq)
        → PassedOver j n k s
        → length s.table ≡ n
        → ReadyAt j s.table
        → (sched_rr tq s).0 ≢ some j
        → s'.rr_next ≡ (sched_rr tq s).1.rr_next
        → PassedOver j n (suc k) s'

  -- How many calls there can be before the pointer comes to `j`.
  abbrev ahead : ℕ → ℕ → ℕ → ℕ
  ahead j n r = if leb r j then j - r else n - r + 1 + j

  one_call :
      (j n : ℕ) (s : State tq) (o : Option ℕ) (t : State tq)
      → RoundRobin tq s (o, t)
      → length s.table ≡ n
      → ReadyAt j s.table
      → o ≢ some j
      → s.rr_next ≤ n
      → (ahead j n t.rr_next < ahead j n s.rr_next) × (t.rr_next ≤ n)
  one_call j n s none t (nothing, back, _) len (p, at, r) ne le =
      let behind : j < s.rr_next = elim (dec_lt j s.rr_next) [
        | yes q ↦ q
        | no q ↦
            let e : s.rr_next + (j - s.rr_next) ≡ j = omega (arith, q) in
            absurd (
              not_among (drop s.rr_next s.table) (j - s.rr_next) p
                (get_elem?-drop s.rr_next s.table (j - s.rr_next) ∙ ap (get_elem? s.table) e ∙ at) r
                nothing)
      ] in
      wraps s.rr_next t.rr_next back behind le
    where
      wraps : (a b : ℕ) → b ≡ 0 → j < a → a ≤ n → (ahead j n b < ahead j n a) × (b ≤ n)
      wraps a b e lt le = ground (arith, e, lt, le)
  one_call j n s (some i) t (low, (q, there, _), first, next, _) len (p, at, r) ne le =
      moves s.rr_next t.rr_next low inside next le (λ a. elim (dec_lt i j) [
        | yes b ↦ b
        | no b ↦ absurd (
            not_among (take (i - s.rr_next) (drop s.rr_next s.table)) (j - s.rr_next) p
              (get_elem?-take (i - s.rr_next) (drop s.rr_next s.table) (j - s.rr_next)
                  (before a b (λ e. ne (ap some (sym e))))
                ∙ get_elem?-drop s.rr_next s.table (j - s.rr_next)
                ∙ ap (get_elem? s.table) (back a)
                ∙ at)
              r first)
      ])
    where
      before : s.rr_next ≤ j → (i < j → ⊥) → (j ≡ i → ⊥) → j - s.rr_next < i - s.rr_next
      before a b c = elim (dec_lt j i) [
        | yes d ↦ omega (arith, a, d)
        | no d ↦ absurd (c (apart b d))
      ]
        where
          apart : (i < j → ⊥) → (j < i → ⊥) → j ≡ i
          apart b d = elim (dec_lt i j) [
            | yes x ↦ absurd (b x)
            | no x ↦ elim (dec_lt j i) [ yes y ↦ absurd (d y) | no y ↦ omega (arith, x, y) ]
          ]

      back : s.rr_next ≤ j → s.rr_next + (j - s.rr_next) ≡ j
      back a = omega (arith, a)

      inside : i < n
      inside =
          let e : s.rr_next + (i - s.rr_next) ≡ i = omega (arith, low) in
          let b = get_elem?-below s.table i (
            ap (get_elem? s.table) (sym e)
            ∙ sym (get_elem?-drop s.rr_next s.table (i - s.rr_next))
            ∙ there) in
          subst (λ m. i < m) len b

      moves :
          (a b : ℕ)
          → a ≤ i
          → i < n
          → b ≡ i + 1
          → a ≤ n
          → (a ≤ j → i < j)
          → (ahead j n b < ahead j n a) × (b ≤ n)
      moves a b low lt e le h = elim (dec_le a j) [
        | yes x ↦ let y = h x in ground (arith, low, lt, e, x, y)
        | no x ↦ ground (arith, low, lt, e, x)
      ]

  count_lem :
      (j n : ℕ) {k : ℕ} {s : State tq}
      → j < n
      → PassedOver j n k s
      → (k + ahead j n s.rr_next ≤ n) × (s.rr_next ≤ n)
  count_lem j n lt (starts s le) = (start s.rr_next le, le)
    where
      start : (a : ℕ) → a ≤ n → 0 + ahead j n a ≤ n
      start a h = ground (arith, h, lt)
  count_lem j n lt (calls {k} {s} s' passed len ready ne same) =
      let (sum, le) = count_lem j n lt passed in
      let (less, le') =
        one_call j n s (sched_rr tq s).0 (sched_rr tq s).1 (sched_rr-RoundRobin tq s) len ready ne
          le in
      (
        subst (λ r. suc k + ahead j n r ≤ n) (sym same) (add k _ _ sum less),
        subst (λ r. r ≤ n) (sym same) le',
      )
    where
      add : (k a b : ℕ) → k + a ≤ n → b < a → suc k + b ≤ n
      add k a b h g = omega (arith, h, g)

  -- No ready process is passed over for long: while process `j` of a table of `n` is ready, at most `n`
  -- calls of sched_rr in a row do not choose it, wherever its pointer stands at first and whatever
  -- else happens to the processes between the calls.
  pub sched_rr_bypass : (j n k : ℕ) (s : State tq) → j < n → PassedOver j n k s → k ≤ n
  sched_rr_bypass j n k s lt passed =
      let (sum, _) = count_lem j n lt passed in le k (ahead j n s.rr_next) sum
    where
      le : (k a : ℕ) → k + a ≤ n → k ≤ n
      le k a h = omega (arith, h)
