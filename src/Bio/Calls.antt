-- ===== src/Bio/Calls.antt =====
-- What bget and brelse do to the buffers.
use yonix.Base.{
  ℕ, ◌+◌, ◌-◌, ◌%◌, ◌^◌, ◌≡◌, refl, ap, ◌∙◌, subst, inl, inr, Bool, true, false, Option, none, some,
  ◌∷◌, arith, update, ◌==◌, if◌then◌else◌, ==_refl,
}
use yonix.Bio.{
  SleepLock, releasesleep, Buf, Cache, ok, find_buf, backwards, Got, got, waits, no_buffers,
  lock_buf, is_block, is_spare, recycle, refer, bget, unlink, brelse,
}
use yonix.Bio.Unique.{
  In, Unique, find_buf-some, find_buf-none, In-backwards, backwards-In, In-unlink, Unique-same,
  Unique-new,
}

-- What bget of a block gives: a buffer of the list that holds the block, and whose lock the process
-- has or waits for; it panics only if all buffers are referenced or dirty.
abbrev pub Buffered : ℕ → ℕ → ℕ → Cache → Got → Type 0
Buffered pid dev blockno s (got b t) =
    In b t.order
    × ((t.buf b).dev ≡ dev)
    × ((t.buf b).blockno ≡ blockno)
    × ((t.buf b).lock ≡ record { locked = true; pid = pid })
    × Unique t.buf t.order
Buffered pid dev blockno s (waits b t) =
    In b t.order
    × ((t.buf b).dev ≡ dev)
    × ((t.buf b).blockno ≡ blockno)
    × ((t.buf b).lock.locked ≡ true)
    × Unique t.buf t.order
Buffered pid dev blockno s no_buffers = (b : ℕ) → In b s.order → is_spare s.buf b ≡ false

lock_buf-Buffered :
    (pid dev blockno b : ℕ) (s t : Cache)
    → In b t.order
    → (t.buf b).dev ≡ dev
    → (t.buf b).blockno ≡ blockno
    → Unique t.buf t.order
    → Buffered pid dev blockno s (lock_buf pid b t)
lock_buf-Buffered pid dev blockno b s t i d k u = by_lock (t.buf b).lock.locked refl
  where
    mine : Buf
    mine = record (t.buf b) { lock = record { locked = true; pid = pid } }

    here : update t.buf b mine b ≡ mine
    here = rw (==_refl b) refl

    by_lock :
        (x : Bool)
        → (t.buf b).lock.locked ≡ x
        → Buffered pid dev blockno s
            (elim (if◌then◌else◌ {A = Option SleepLock} x none
                (some (record { locked = true; pid = pid })))
              as (λ o. Got) [
                | none ↦ waits b t
                | some lk ↦
                    got b (record t { buf = update t.buf b (record (t.buf b) { lock = lk }) })
              ])
    by_lock true e = (i, d, k, e, u)
    by_lock false e = (
      i,
      ap (λ (r : Buf). r.dev) here ∙ d,
      ap (λ (r : Buf). r.blockno) here ∙ k,
      ap (λ (r : Buf). r.lock) here,
      Unique-same t.buf b mine t.order refl refl u,
    )

-- If no block is in two buffers, then bget of a block gives a buffer of the list that holds the block
-- then, and whose lock the process has or waits for; still no block is in two buffers. bget panics
-- only if every buffer is referenced or dirty.
pub bget-Buffered :
    (pid dev blockno : ℕ) (s : Cache)
    → Unique s.buf s.order
    → Buffered pid dev blockno s (bget pid dev blockno s)
unfolding bget
bget-Buffered pid dev blockno s u = by_block (find_buf (is_block s.buf dev blockno) s.order) refl
  where
    f : ℕ → Buf
    f = s.buf

    counted : ℕ → Buf
    counted b = record (f b) { refcnt = ((f b).refcnt + 1) % 2 ^ 32 }

    renewed : ℕ → Buf
    renewed b = record (f b) {
      dev = dev;
      blockno = blockno;
      valid = false;
      dirty = false;
      refcnt = 1;
    }

    here : (b : ℕ) (g : Buf) → update f b g b ≡ g
    here b g = rw (==_refl b) refl

    dev_of : (b : ℕ) → is_block f dev blockno b ≡ true → (f b).dev ≡ dev
    dev_of b z = ground arith

    block_of : (b : ℕ) → is_block f dev blockno b ≡ true → (f b).blockno ≡ blockno
    block_of b z = ground arith

    by_spare :
        (o : Option ℕ)
        → find_buf (is_spare f) (backwards s.order) ≡ o
        → find_buf (is_block f dev blockno) s.order ≡ none
        → Buffered pid dev blockno s (elim o as (λ x. Got) [
          | some b ↦ lock_buf pid b (recycle dev blockno b s)
          | none ↦ no_buffers
        ])
    by_spare none e absent =
        λ b i. find_buf-none (is_spare f) (backwards s.order) e b (backwards-In b s.order i)
    by_spare (some b) e absent =
        let (i, z) = find_buf-some (is_spare f) (backwards s.order) b e in
        lock_buf-Buffered pid dev blockno b s (recycle dev blockno b s) (In-backwards b s.order i)
          (ap (λ (r : Buf). r.dev) (here b (renewed b)))
          (ap (λ (r : Buf). r.blockno) (here b (renewed b)))
          (Unique-new f b (renewed b) s.order
            (find_buf-none (is_block f dev blockno) s.order absent) u)

    by_block :
        (o : Option ℕ)
        → find_buf (is_block f dev blockno) s.order ≡ o
        → Buffered pid dev blockno s (elim o as (λ x. Got) [
          | some b ↦ lock_buf pid b (refer b s)
          | none ↦ elim (find_buf (is_spare f) (backwards s.order)) [
            | some b ↦ lock_buf pid b (recycle dev blockno b s)
            | none ↦ no_buffers
          ]
        ])
    by_block none e = by_spare (find_buf (is_spare f) (backwards s.order)) refl e
    by_block (some b) e =
        let (i, z) = find_buf-some (is_block f dev blockno) s.order b e in
        let d : (f b).dev ≡ dev = dev_of b z in
        let k : (f b).blockno ≡ blockno = block_of b z in
        lock_buf-Buffered pid dev blockno b s (refer b s) i
          (ap (λ (r : Buf). r.dev) (here b (counted b)) ∙ d)
          (ap (λ (r : Buf). r.blockno) (here b (counted b)) ∙ k)
          (Unique-same f b (counted b) s.order refl refl u)

-- If no block is in two buffers, brelse of a buffer of the list whose lock is held gives the lock
-- back and keeps this so, whether the buffer moves to the front or not.
pub brelse-Unique :
    (b : ℕ) (s : Cache)
    → Unique s.buf s.order
    → In b s.order
    → (s.buf b).lock.locked ≡ true
    → (t : Cache) × (brelse b s ≡ ok t) × ((t.buf b).lock.locked ≡ false) × Unique t.buf t.order
unfolding brelse
brelse-Unique b s u i held =
    (released, rw held refl, ap (λ (r : Buf). r.lock.locked) here, by_count (less.refcnt == 0))
  where
    less : Buf
    less = record (s.buf b) {
      lock = releasesleep (s.buf b).lock;
      refcnt = ((s.buf b).refcnt + 2 ^ 32 - 1) % 2 ^ 32;
    }

    released : Cache
    released = record {
      buf = update s.buf b less;
      order = if less.refcnt == 0 then b ∷ unlink b s.order else s.order;
    }

    here : update s.buf b less b ≡ less
    here = rw (==_refl b) refl

    kept : Unique (update s.buf b less) s.order
    kept = Unique-same s.buf b less s.order refl refl u

    still_in : (x : ℕ) → In x (b ∷ unlink b s.order) → In x s.order
    still_in x (inl e) = subst (λ y. In y s.order) e i
    still_in x (inr h) = In-unlink x b s.order h

    by_count :
        (z : Bool) → Unique (update s.buf b less) (if z then b ∷ unlink b s.order else s.order)
    by_count true = λ x y j k. kept x y (still_in x j) (still_in y k)
    by_count false = kept
