-- ===== src/Log/Install.antt =====
-- What the loops of log.c write, and what they leave in the buffer cache.
use yonix.Base.{
  ℕ, zero, suc, ◌+◌, ◌≤◌, ◌<◌, ◌≡◌, refl, sym, ◌∙◌, ◌⊎◌, true, List, [], ◌∷◌, ◌++◌, append-nil,
  append_assoc, arith, update, if◌then◌else◌, length, get_or, All,
}
use mathlib.Core.Bool.{false≢true}
use yonix.Log.{Block, Store, bwrite, install_from, write_log_from}
use yonix.Log.Replay.{mem, home_writes, log_writes}

-- The blocks of the log with room for `k` blocks: its header and the `k` blocks behind it.
abbrev pub InLog : ℕ → ℕ → ℕ → Type 0
InLog start k x = (start ≤ x) × (x ≤ start + k)

-- The logged blocks lie outside the log.
abbrev pub Outside : ℕ → ℕ → List ℕ → Type 0
Outside start k bs = All (λ b. (b < start) ⊎ (start + k < b)) bs

-- `new` is in the cache at the log blocks of `bs`, the first of which has index `tail`.
abbrev pub Logged : ℕ → ℕ → (ℕ → Block) → List ℕ → (ℕ → Block) → Type 0
Logged start tail new bs c =
    (j : ℕ) → j < length bs → c (start + tail + 1 + j) ≡ new (get_or bs j 0)

Logged-tail :
    (start tail k : ℕ) (new : ℕ → Block) (b : ℕ) (bs : List ℕ) (c : ℕ → Block) (w : Block)
    → (b < start) ⊎ (start + k < b)
    → tail + suc (length bs) ≤ k
    → Logged start tail new (b ∷ bs) c
    → Logged start (tail + 1) new bs (update c b w)
Logged-tail start tail k new b bs c w out room h j lt = ground (arith, h (suc j))

-- install_trans writes each logged block's copy to its home, and the cache follows.
pub install_from-writes :
    (start tail k : ℕ) (new : ℕ → Block) (bs : List ℕ) (s : Store)
    → Outside start k bs
    → tail + length bs ≤ k
    → Logged start tail new bs s.cached
    → ((install_from start tail bs s).writes ≡ s.writes ++ home_writes new bs)
      × ((install_from start tail bs s).base ≡ s.base)
      × ((x : ℕ)
          → (install_from start tail bs s).cached x ≡ (if mem x bs then new x else s.cached x))
unfolding install_from
install_from-writes start tail k new [] s out room h = (sym (append-nil s.writes), refl, λ x. refl)
install_from-writes start tail k new (b ∷ bs) s out room h =
    let e : s.cached (start + tail + 1) ≡ new b = ground (arith, h 0) in
    let ih =
      install_from-writes start (tail + 1) k new bs (bwrite s b (new b)) out.1 (omega arith)
        (Logged-tail start tail k new b bs s.cached (new b) out.0 room h) in
    rw (e, install_from)
      (
        ih.0 ∙ append_assoc s.writes ((b, new b) ∷ []) (home_writes new bs),
        ih.1,
        λ x. ground (arith, ih.2 x),
      )

pub mem-Outside :
    (start k x : ℕ) (bs : List ℕ)
    → Outside start k bs
    → mem x bs ≡ true
    → (x < start) ⊎ (start + k < x)
mem-Outside start k x [] out m = absurd (false≢true m)
mem-Outside start k x (b ∷ bs) out m = ground (arith, mem-Outside start k x bs out.1)

Logged-cons :
    (start tail : ℕ) (new : ℕ → Block) (b : ℕ) (bs : List ℕ) (c : ℕ → Block)
    → c (start + tail + 1) ≡ new b
    → Logged start (tail + 1) new bs c
    → Logged start tail new (b ∷ bs) c
Logged-cons start tail new b bs c e h zero lt = ground arith
Logged-cons start tail new b bs c e h (suc j) lt = ground (arith, h j)

-- write_log writes each logged block to the log; the rest of the cache stays as it is.
pub write_log_from-writes :
    (start tail k : ℕ) (new : ℕ → Block) (bs : List ℕ) (s : Store)
    → Outside start k bs
    → tail + length bs ≤ k
    → ((x : ℕ) → mem x bs ≡ true → s.cached x ≡ new x)
    → ((write_log_from start tail bs s).writes ≡ s.writes ++ log_writes start tail new bs)
      × ((write_log_from start tail bs s).base ≡ s.base)
      × Logged start tail new bs (write_log_from start tail bs s).cached
      × ((x : ℕ)
          → (x ≤ start + tail) ⊎ (start + tail + length bs < x)
          → (write_log_from start tail bs s).cached x ≡ s.cached x)
unfolding write_log_from
write_log_from-writes start tail k new [] s out room h =
    (sym (append-nil s.writes), refl, λ j lt. absurd (omega arith), λ x o. refl)
write_log_from-writes start tail k new (b ∷ bs) s out room h =
    let e : s.cached b ≡ new b = h b (ground arith) in
    let ih =
      write_log_from-writes start (tail + 1) k new bs (bwrite s (start + tail + 1) (new b)) out.1
        (omega arith) (λ x m. ground (arith, h x, mem-Outside start k x bs out.1)) in
    rw (e, write_log_from)
      (
        ih.0
            ∙ append_assoc s.writes ((start + tail + 1, new b) ∷ [])
                (log_writes start (tail + 1) new bs),
        ih.1,
        Logged-cons start tail new b bs
            (write_log_from start (tail + 1) bs (bwrite s (start + tail + 1) (new b))).cached
            (ground (arith, ih.3 (start + tail + 1))) ih.2,
        λ x o. ground (arith, ih.3 x),
      )
