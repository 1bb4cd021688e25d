-- ===== src/Proc/Sched/Wakeup.antt =====
-- wakeup: who is woken, and in which order they enter the ready queue.
use yonix.Base.{
  ℕ, ◌+◌, ◌≡◌, refl, sym, ap, ap₂, ◌∙◌, inl, inr, Bool, true, false, List, [], ◌∷◌, ◌++◌, map,
  append-nil, append_assoc, arith, if◌then◌else◌, Bool-cases, length, length-append,
}
use yonix.TailQueue.{TailQueue}
use yonix.Proc.Table.{ready, Scheme, fifo, rr, priority, Chan, Proc, State, modify}
use yonix.Proc.Sched.{enqueue, sleeps_on, wakeup_from, wakeup}

module _ (tq : TailQueue) (e : Chan) where
  open tq use {entries, insert_tail, entries-insert_tail}

  -- What wakeup makes of one process.
  abbrev pub woken : Proc → Proc
  woken p = if sleeps_on tq e p then record p { stat = ready } else p

  -- The indices, from `i` on, of the processes that sleep on the channel.
  abbrev pub sleepers : ℕ → List Proc → List ℕ
  sleepers i [] = []
  sleepers i (p ∷ ps) = if sleeps_on tq e p then i ∷ sleepers (i + 1) ps else sleepers (i + 1) ps

  modify-behind :
      (done : List Proc) (p : Proc) (ps : List Proc) (f : Proc → Proc)
      → modify (length done) f (done ++ p ∷ ps) ≡ done ++ f p ∷ ps
  modify-behind [] p ps f = refl
  modify-behind (d ∷ done) p ps f = ap (λ l. d ∷ l) (modify-behind done p ps f)

  enqueue-same :
      (i : ℕ) (p : Proc) (s : State tq)
      → ((enqueue tq i p s).table ≡ s.table) × ((enqueue tq i p s).scheme ≡ s.scheme)
  enqueue-same i p s = by_scheme s.scheme refl
    where
      by_scheme :
          (k : Scheme)
          → s.scheme ≡ k
          → ((enqueue tq i p s).table ≡ s.table) × ((enqueue tq i p s).scheme ≡ s.scheme)
      by_scheme fifo h = unfold enqueue in (ground (arith, h), ground (arith, h))
      by_scheme rr h = unfold enqueue in (ground (arith, h), ground (arith, h))
      by_scheme priority h = unfold enqueue in (ground (arith, h), ground (arith, h))

  enqueue-fifo :
      (i : ℕ) (p : Proc) (s : State tq)
      → s.scheme ≡ fifo
      → entries (enqueue tq i p s).rdyqueue ≡ entries s.rdyqueue ++ i ∷ []
  enqueue-fifo i p s h =
      ap (λ (t : State tq). entries t.rdyqueue) inserted ∙ entries-insert_tail s.rdyqueue i
    where
      inserted : enqueue tq i p s ≡ record s { rdyqueue = insert_tail s.rdyqueue i }
      inserted = unfold enqueue in ground (arith, h)

  -- One round of the loop of wakeup.
  abbrev round : ℕ → Proc → State tq → State tq
  round i p s =
      if sleeps_on tq e p
      then enqueue tq i (record p { stat = ready })
          (record s { table = modify i (λ q. record q { stat = ready }) s.table })
      else s

  record Woke (i : ℕ) (done ps : List Proc) (s t : State tq) : Type 0 where
    table : t.table ≡ done ++ map woken ps
    scheme : t.scheme ≡ s.scheme
    queue : s.scheme ≡ fifo → entries t.rdyqueue ≡ entries s.rdyqueue ++ sleepers i ps

  round-Woke :
      (i : ℕ) (done : List Proc) (p : Proc) (ps : List Proc) (s : State tq)
      → i ≡ length done
      → s.table ≡ done ++ p ∷ ps
      → ((round i p s).table ≡ done ++ woken p ∷ ps)
        × ((round i p s).scheme ≡ s.scheme)
        × (s.scheme ≡ fifo
            → entries (round i p s).rdyqueue
              ≡ entries s.rdyqueue ++ (if sleeps_on tq e p then i ∷ [] else []))
  round-Woke i done p ps s h t = elim (Bool-cases (sleeps_on tq e p)) [
    | inl yes_it ↦
        let s' : State tq = record s {
          table = modify i (λ q. record q { stat = ready }) s.table;
        } in
        let (a, b) = enqueue-same i (record p { stat = ready }) s' in
        rw yes_it (
          a
              ∙ ap₂ (λ k l. modify k (λ q. record q { stat = ready }) l) h t
              ∙ modify-behind done p ps (λ q. record q { stat = ready }),
          b,
          λ k. enqueue-fifo i (record p { stat = ready }) s' k,
        )
    | inr not_it ↦ rw not_it (t, refl, λ k. sym (append-nil (entries s.rdyqueue)))
  ]

  wakeup_from-Woke :
      (i : ℕ) (done ps : List Proc) (s : State tq)
      → i ≡ length done
      → s.table ≡ done ++ ps
      → Woke i done ps s (wakeup_from tq i ps e s)
  wakeup_from-Woke i done [] s h t =
      unfold wakeup_from in
      record { table = t; scheme = refl; queue = λ k. sym (append-nil (entries s.rdyqueue)) }
  wakeup_from-Woke i done (p ∷ ps) s h t =
      let (a, b, c) = round-Woke i done p ps s h t in
      let ih =
        wakeup_from-Woke (i + 1) (done ++ woken p ∷ []) ps (round i p s)
          (omega (arith, length-append done (woken p ∷ [])))
          (a ∙ sym (append_assoc done (woken p ∷ []) ps)) in
      let step : wakeup_from tq i (p ∷ ps) e s ≡ wakeup_from tq (i + 1) ps e (round i p s) =
        unfold wakeup_from in refl in
      record {
        table =
            ap (λ (u : State tq). u.table) step
            ∙ ih.table
            ∙ append_assoc done (woken p ∷ []) (map woken ps);
        scheme = ap (λ (u : State tq). u.scheme) step ∙ ih.scheme ∙ b;
        queue = λ k.
            ap (λ (u : State tq). entries u.rdyqueue) step
            ∙ ih.queue (b ∙ k)
            ∙ ap (λ l. l ++ sleepers (i + 1) ps) (c k)
            ∙ append_assoc (entries s.rdyqueue) (if sleeps_on tq e p then i ∷ [] else [])
                (sleepers (i + 1) ps)
            ∙ ap (λ l. entries s.rdyqueue ++ l) (joined (sleeps_on tq e p) (sleepers (i + 1) ps));
      }
    where
      joined : (b : Bool) (l : List ℕ) → (if b then i ∷ [] else []) ++ l ≡ (if b then i ∷ l else l)
      joined true l = refl
      joined false l = refl

-- wakeup makes ready every process that sleeps on the channel and leaves the others as they are.
pub wakeup_lem :
    (tq : TailQueue) (e : Chan) (s : State tq) → (wakeup tq e s).table ≡ map (woken tq e) s.table
unfolding wakeup
wakeup_lem tq e s = (wakeup_from-Woke tq e 0 [] s.table s refl refl).table

-- In the fifo scheme the processes that wakeup wakes enter the ready queue at its tail, in the order
-- of the process table.
pub wakeup_fifo :
    (tq : TailQueue) (e : Chan) (s : State tq)
    → s.scheme ≡ fifo
    → tq.entries (wakeup tq e s).rdyqueue ≡ tq.entries s.rdyqueue ++ sleepers tq e 0 s.table
unfolding wakeup
wakeup_fifo tq e s k = (wakeup_from-Woke tq e 0 [] s.table s refl refl).queue k
