-- ===== src/Log/Atomic.antt =====
-- A commit takes effect as a whole or not at all, wherever the power fails.
use yonix.Base.{
  ℕ, suc, ◌+◌, ◌-◌, ◌≤◌, ◌<◌, ◌≡◌, refl, sym, ap, ap₂, ◌∙◌, subst, ◌⊎◌, inl, inr, false, ◌&&◌, List,
  [], ◌∷◌, ◌++◌, append-nil, append_assoc, arith, dec_lt, update, ltb, if◌then◌else◌, Bool-cases,
  length, get_or, take, length-append,
}
use yonix.Log.{
  Block, Store, Log, logged, bwrite, replay, install_from, install_trans, write_log_from, write_log,
  fill_head, head_block, write_head, commit,
}
use yonix.Log.Replay.{
  replay-append, take-append, mem, home_writes, log_writes, replay-home, replay-home_all,
  length-home, length-log, take-all, replay-log_outside, replay-log_at, mem_take,
}
use yonix.Log.Install.{Outside, Logged, install_from-writes, write_log_from-writes, mem-Outside}
use yonix.Log.Crash.{crashed, recovered, recovered_lem, Ready, commit-open}
use yonix.Log.Crash.Head.{HeadOf, HeadOf-head_block}

-- The writes of a commit of the blocks `bs`: the log, its header, the homes, the empty header.
abbrev pub commit_writes : ℕ → (ℕ → Block) → List ℕ → Block → Block → List (ℕ × Block)
commit_writes start new bs h h0 =
    log_writes start 0 new bs ++ (start, h) ∷ (home_writes new bs ++ (start, h0) ∷ [])

-- A header that lists no block.
abbrev pub IsClear : Block → Type 0
IsClear h = get_or h 0 0 ≡ 0

head_block-IsClear : (l : Log) (w : Block) → l.n ≡ 0 → IsClear (head_block l w)
head_block-IsClear l [] e = rw e (unfold fill_head in refl)
head_block-IsClear l (v ∷ w) e = rw e (unfold fill_head in refl)

assemble :
    (a hm : List (ℕ × Block)) (p q : ℕ × Block)
    → ((a ++ p ∷ []) ++ hm) ++ q ∷ [] ≡ a ++ p ∷ (hm ++ q ∷ [])
assemble a hm p q = simp append_assoc

module _ (start : ℕ) (new : ℕ → Block) (bs : List ℕ) (h h0 : Block) (d : ℕ → Block) where
  abbrev whole : List (ℕ × Block)
  whole = commit_writes start new bs h h0

  abbrev lw : List (ℕ × Block)
  lw = log_writes start 0 new bs

  -- The disk once the header is on it.
  abbrev headed : ℕ → Block
  headed = update (replay lw d) start h

  cut_before : (k : ℕ) → k ≤ length bs → replay (take k whole) d ≡ replay (take k lw) d
  cut_before k le =
      let e : k - length lw ≡ 0 = omega (arith, length-log start 0 new bs) in
      ap (λ v. replay v d)
        (take-append k lw ((start, h) ∷ (home_writes new bs ++ (start, h0) ∷ []))
          ∙ ap (λ i. take k lw ++ take i ((start, h) ∷ (home_writes new bs ++ (start, h0) ∷ []))) e
          ∙ append-nil (take k lw))

  cut_behind :
      (m : ℕ)
      → replay (take (length bs + suc m) whole) d
        ≡ replay (take m (home_writes new bs ++ (start, h0) ∷ [])) headed
  cut_behind m =
      let e : length bs + suc m - length lw ≡ suc m = omega (arith, length-log start 0 new bs) in
      ap (λ v. replay v d)
        (take-append (length bs + suc m) lw ((start, h) ∷ (home_writes new bs ++ (start, h0) ∷ []))
          ∙ ap₂ ◌++◌ (take-all (length bs + suc m) lw (omega (arith, length-log start 0 new bs)))
              (ap (λ i. take i ((start, h) ∷ (home_writes new bs ++ (start, h0) ∷ []))) e))
      ∙ replay-append lw ((start, h) ∷ take m (home_writes new bs ++ (start, h0) ∷ [])) d
      ∙ (unfold replay in refl)

  cut_middle :
      (m : ℕ)
      → m ≤ length bs
      → replay (take m (home_writes new bs ++ (start, h0) ∷ [])) headed
        ≡ replay (take m (home_writes new bs)) headed
  cut_middle m le =
      let e : m - length (home_writes new bs) ≡ 0 = omega (arith, length-home new bs) in
      ap (λ v. replay v headed)
        (take-append m (home_writes new bs) ((start, h0) ∷ [])
          ∙ ap (λ i. take m (home_writes new bs) ++ take i ((start, h0) ∷ [])) e
          ∙ append-nil (take m (home_writes new bs)))

  cut_after :
      (m : ℕ)
      → length bs < m
      → replay (take m (home_writes new bs ++ (start, h0) ∷ [])) headed
        ≡ update (replay (home_writes new bs) headed) start h0
  cut_after m lt =
      ap (λ v. replay v headed)
        (take-all m (home_writes new bs ++ (start, h0) ∷ []) (
          omega (arith, length-home new bs, length-append (home_writes new bs) ((start, h0) ∷ []))))
      ∙ replay-append (home_writes new bs) ((start, h0) ∷ []) headed
      ∙ (unfold replay in refl)

module _ (l : Log) (s : Store) (r : Ready l s) where
  abbrev bs : List ℕ
  bs = logged l

  abbrev head : Block
  head = head_block l (s.cached l.start)

  abbrev s1 : Store
  s1 = write_log_from l.start 0 bs s

  abbrev s2 : Store
  s2 = bwrite s1 l.start (head_block l (s1.cached l.start))

  abbrev s3 : Store
  s3 = install_from l.start 0 bs s2

  commit-stages :
      (commit l s).1 ≡ bwrite s3 l.start (head_block (record l { n = 0 }) (s3.cached l.start))
  commit-stages =
      commit-open l s r.some_blocks ∙ (unfold write_head install_trans write_log in refl)

  stage1 :
      (s1.writes ≡ log_writes l.start 0 s.cached bs)
      × (s1.base ≡ s.base)
      × Logged l.start 0 s.cached bs s1.cached
      × (s1.cached l.start ≡ s.cached l.start)
  stage1 =
      let (w, b, lg, o) =
        write_log_from-writes l.start 0 l.n s.cached bs s r.outside (omega (arith, r.listed))
          (λ x m. refl) in
      (
        w ∙ ap (λ v. v ++ log_writes l.start 0 s.cached bs) r.fresh_writes,
        b,
        lg,
        o l.start (inl (omega arith)),
      )

  stage3 : (s3.writes ≡ s2.writes ++ home_writes s.cached bs) × (s3.base ≡ s2.base)
  stage3 =
      let (w, b, c) =
        install_from-writes l.start 0 l.n s.cached bs s2 r.outside (omega (arith, r.listed))
          (λ j lt. ground (arith, stage1.2 j)) in
      (w, b)

  commit_lem :
      (h0 : Block) × ((commit l s).1.writes ≡ commit_writes l.start s.cached bs head h0)
      × ((commit l s).1.base ≡ s.base)
      × IsClear h0
  commit_lem = (
    head_block (record l { n = 0 }) (s3.cached l.start),
    ap (λ (t : Store). t.writes) commit-stages
        ∙ (ap (λ v. v ++ (l.start, head_block (record l { n = 0 }) (s3.cached l.start)) ∷ [])
              (stage3.0
                ∙ ap₂ (λ a c. (a ++ (l.start, head_block l c) ∷ []) ++ home_writes s.cached bs)
                    stage1.0 stage1.3)
            ∙ assemble (log_writes l.start 0 s.cached bs) (home_writes s.cached bs) (l.start, head)
                (l.start, head_block (record l { n = 0 }) (s3.cached l.start))),
    ap (λ (t : Store). t.base) commit-stages ∙ stage3.1 ∙ stage1.1,
    head_block-IsClear (record l { n = 0 }) (s3.cached l.start) refl,
  )

-- A block outside the log of `n` blocks.
abbrev pub AtHome : ℕ → ℕ → ℕ → Type 0
AtHome start n x = (x < start) ⊎ (start + n < x)

module _ (l : Log) (new : ℕ → Block) (bs : List ℕ) (h h0 : Block) (d : ℕ → Block) (x : ℕ)
    (room : length bs ≤ length l.block) (out : Outside l.start (length bs) bs)
    (home : AtHome l.start (length bs) x) where
  abbrev cut : ℕ → ℕ → Block
  cut k = replay (take k (commit_writes l.start new bs h h0)) d

  cleared : (e : ℕ → Block) → IsClear (e l.start) → recovered l e x ≡ e x
  cleared e c =
      recovered_lem l e new [] x (record { count = c; entries = λ j lt. absurd (omega arith) })
        (omega arith) (λ j lt. absurd (omega arith)) tt (omega arith)

  old : (k : ℕ) → k ≤ length bs → IsClear (d l.start) → recovered l (cut k) x ≡ d x
  old k le clear =
      ap (λ f. recovered l f x) (cut_before l.start new bs h h0 d k le)
      ∙ cleared (replay (take k (log_writes l.start 0 new bs)) d) (
          ap (λ w. get_or w 0 0)
            (replay-log_outside l.start 0 new k bs d l.start (inl (omega arith)))
          ∙ clear)
      ∙ replay-log_outside l.start 0 new k bs d x (omega arith)

  not_home : (m y : ℕ) → l.start ≤ y → y ≤ l.start + length bs → mem y (take m bs) ≡ false
  not_home m y a b = ground (arith, mem_take m y bs, mem-Outside l.start (length bs) y bs out)

  abbrev dh : ℕ → Block
  dh = headed l.start new bs h h0 d

  headed_home : dh x ≡ d x
  headed_home = ground (
    arith,
    take-all (length bs) (log_writes l.start 0 new bs),
    length-log l.start 0 new bs,
    replay-log_outside l.start 0 new (length bs) bs d x,
  )

  headed_log : Logged l.start 0 new bs dh
  headed_log j lt = ground (arith, replay-log_at l.start 0 new bs d j)

  halfway :
      (m : ℕ)
      → HeadOf bs h
      → recovered l (replay (take m (home_writes new bs)) dh) x ≡ (if mem x bs then new x else d x)
  halfway m hd =
      recovered_lem l (replay (take m (home_writes new bs)) dh) new bs x
        (subst (HeadOf bs) (sym at_start) hd) room logged_still out (omega arith)
      ∙ ground (arith, replay-home new m bs dh x, mem_take m x bs, headed_home)
    where
      at_start : replay (take m (home_writes new bs)) dh l.start ≡ h
      at_start = ground (arith, replay-home new m bs dh l.start, not_home m l.start)

      logged_still : Logged l.start 0 new bs (replay (take m (home_writes new bs)) dh)
      logged_still j lt =
          replay-home new m bs dh (l.start + 0 + 1 + j)
          ∙ ground (arith, not_home m (l.start + 0 + 1 + j), headed_log j)

  ended :
      IsClear h0
      → recovered l (update (replay (home_writes new bs) dh) l.start h0) x
        ≡ (if mem x bs then new x else d x)
  ended clear =
      cleared (update (replay (home_writes new bs) dh) l.start h0) (ground (arith, clear))
      ∙ ground (arith, replay-home_all new bs dh x, headed_home)

  new_copy :
      (m : ℕ)
      → HeadOf bs h
      → IsClear h0
      → recovered l (cut (length bs + suc m)) x ≡ (if mem x bs then new x else d x)
  new_copy m hd clear =
      ap (λ f. recovered l f x) (cut_behind l.start new bs h h0 d m) ∙ elim (dec_lt (length bs) m) [
        | yes past ↦
            ap (λ f. recovered l f x) (cut_after l.start new bs h h0 d m past) ∙ ended clear
        | no within ↦
            ap (λ f. recovered l f x) (cut_middle l.start new bs h h0 d m (omega arith))
            ∙ halfway m hd
      ]

atomic_either :
    (l : Log) (s : Store) (l' : Log) (k x : ℕ)
    → Ready l s
    → length (logged l) ≤ length l'.block
    → AtHome l.start l.n x
    → let after = recovered (record l' { start = l.start }) (crashed k (commit l s).1) x in
      (k ≤ l.n → after ≡ s.base x)
      × (l.n < k → after ≡ (if mem x (logged l) then s.cached x else s.base x))
atomic_either l s l' k x r room home =
    let (h0, ws, b, clear) = commit_lem l s r in
    let at = ap₂ (λ w e. recovered (record l' { start = l.start }) (replay (take k w) e) x) ws b in
    let lr : Log = record l' { start = l.start } in
    let out' = subst (λ n. Outside l.start n (logged l)) r.listed r.outside in
    let home' = subst (λ n. AtHome l.start n x) r.listed home in
    let hd = HeadOf-head_block l (s.cached l.start) r.listed r.head_room in
    let h = head_block l (s.cached l.start) in
    (
      λ le.
          at
          ∙ old lr s.cached (logged l) h h0 s.base x room out' home' k (omega (arith, r.listed))
              r.disk_head,
      λ lt.
          at
          ∙ ap
              (λ j.
                recovered lr
                  (replay (take j (commit_writes l.start s.cached (logged l) h h0)) s.base) x)
              (omega (arith, r.listed))
          ∙ new_copy lr s.cached (logged l) h h0 s.base x room out' home' (k - l.n - 1) hd clear,
    )

-- Let a transaction of `n` blocks commit, the disk's log header being empty before, and the power
-- fail after any number `k` of the writes of the commit; let the next boot recover, with a log at
-- the same place and room for `n` entries. Then if n < k every logged block has the content that
-- the transaction gave it in the cache, and all else outside the log has its old content: every
-- block that was not logged, and every block if k ≤ n. The transaction takes effect as a whole or
-- not at all.
pub commit_atomic :
    (l : Log) (s : Store) (l' : Log) (k x : ℕ)
    → Ready l s
    → length (logged l) ≤ length l'.block
    → AtHome l.start l.n x
    → recovered (record l' { start = l.start }) (crashed k (commit l s).1) x
      ≡ (if ltb l.n k && mem x (logged l) then s.cached x else s.base x)
commit_atomic l s l' k x r room home =
    let (before, behind) = atomic_either l s l' k x r room home in
    elim (Bool-cases (ltb l.n k)) [
      | inl past ↦ behind (ground (arith, past)) ∙ (rw past refl)
      | inr early ↦ before (ground (arith, early)) ∙ (rw early refl)
    ]
