-- ===== src/Inode/Logged.antt =====
-- readi and writei on every branch, with the calls of log_write.
use yonix.Base.{
  ℕ, ◌*◌, ◌≤◌, ◌<◌, ◌≡◌, refl, sym, ap, ◌∙◌, subst, ◌≢◌, ◌⊎◌, inl, inr, Bool, true, false, ◌||◌,
  List, [], ◌∷◌, ◌++◌, arith, ℕ_discrete, ◌==◌, if◌then◌else◌, length, drop, All,
}
use yonix.Words.{word}
use yonix.Fs.{Disk, bsize, maxfile}
use yonix.Fs.Bitmap.{IsFull}
use yonix.Fs.Changes.{Changes}
use yonix.Log.{Log, logsize, logged, Call, returns, log_panics}
use yonix.Log.Replay.{mem}
use yonix.Log.Room.{Recorded, NoRoom, with_log-cases}
use yonix.Inode.{
  Inode, t_dev, has_device, Read, device_read, read_failed, read_bytes, read_panics, readi, Write,
  device_write, write_failed, written, write_panics, writei,
}
use yonix.Inode.Slots.{WellFormed}
use yonix.Inode.Changes.{ReadTracks, readi-ReadTracks, WriteTracks, writei-WriteTracks}
use yonix.Inode.Update.{WriteResult, writei-Result}
use yonix.Inode.Reading.{ReadResult, readi-Result}
use yonix.Inode.Calls.{logged_since, read_call, readi_call, write_call, writei_call}

-- The log holds what it held and the blocks that were logged; a block that it does not hold has not
-- changed.
pub record InLog (s : Disk) (l : Log) (t : Disk) (l' : Log) : Type 0 where
  pub recorded : Recorded l (logged_since s t) l'
  pub kept : (b : ℕ) → mem b (logged l') ≡ false → t.bytes b ≡ s.bytes b

-- The inode is a device with a function; or it is one without, and the call fails.
abbrev pub IsDevice : (ℕ → Bool) → Inode → ℕ → Type 0
IsDevice entry ip major =
    (ip.type ≡ t_dev) × (has_device entry ip.major ≡ true) × (major ≡ ip.major)

abbrev pub NoDevice : (ℕ → Bool) → Inode → Type 0
NoDevice entry ip = (ip.type ≡ t_dev) × (has_device entry ip.major ≡ false)

-- How readi ends.
abbrev pub ReadCall : (ℕ → Bool) → Inode → Disk → Log → ℕ → ℕ → Call Read → Type 0
ReadCall entry ip s l off n (returns (device_read major) l') = IsDevice entry ip major × (l' ≡ l)
ReadCall entry ip s l off n (returns read_failed l') =
    (NoDevice entry ip ⊎ ((ip.type ≢ t_dev) × ReadResult ip s off n read_failed)) × (l' ≡ l)
ReadCall entry ip s l off n (returns (read_bytes xs ip' t) l') =
    (ip.type ≢ t_dev) × ReadResult ip s off n (read_bytes xs ip' t) × InLog s l t l'
ReadCall entry ip s l off n (returns (read_panics t) l') = (ip.type ≢ t_dev) × IsFull t
ReadCall entry ip s l off n (log_panics bs) = (ip.type ≢ t_dev) × NoRoom l bs

-- How writei ends.
abbrev pub WriteCall : (ℕ → Bool) → Inode → Disk → Log → List ℕ → ℕ → Call Write → Type 0
WriteCall entry ip s l src off (returns (device_write major) l') =
    IsDevice entry ip major × (l' ≡ l)
WriteCall entry ip s l src off (returns write_failed l') =
    (NoDevice entry ip ⊎ ((ip.type ≢ t_dev) × WriteResult ip s src off write_failed)) × (l' ≡ l)
WriteCall entry ip s l src off (returns (written n ip' t) l') =
    (ip.type ≢ t_dev) × WriteResult ip s src off (written n ip' t) × InLog s l t l'
WriteCall entry ip s l src off (returns (write_panics t) l') = (ip.type ≢ t_dev) × IsFull t
WriteCall entry ip s l src off (log_panics bs) = (ip.type ≢ t_dev) × NoRoom l bs

drop-append : (xs ys : List ℕ) → drop (length xs) (xs ++ ys) ≡ ys
drop-append [] ys = refl
drop-append (x ∷ xs) ys = drop-append xs ys

since-added : (s t : Disk) (c : Changes s t) → logged_since s t ≡ c.added
since-added s t c = ap (drop (length s.logged)) c.logs ∙ drop-append s.logged c.added

Changes-InLog :
    (s t : Disk) (l l' : Log) → Changes s t → Recorded l (logged_since s t) l' → InLog s l t l'
Changes-InLog s t l l' c r = record {
  recorded = r;
  kept = λ b h.
      let q : mem b (logged_since s t) ≡ false = right (mem b (logged l)) (sym (r b) ∙ h) in
      c.kept b (subst (λ bs. mem b bs ≡ false) (since-added s t c) q);
}
  where
    right : (p : Bool) {q : Bool} → (p || q) ≡ false → q ≡ false
    right p h = ground (arith, h)

readi-device :
    (entry : ℕ → Bool) (ip : Inode) (off n : ℕ) (s : Disk)
    → ip.type ≡ t_dev
    → readi entry ip off n s
      ≡ (if has_device entry ip.major then device_read ip.major else read_failed)
unfolding readi
readi-device entry ip off n s e = let d : ip.type == t_dev ≡ true = ground (arith, e) in rw d refl

writei-device :
    (entry : ℕ → Bool) (ip : Inode) (src : List ℕ) (off : ℕ) (s : Disk)
    → ip.type ≡ t_dev
    → writei entry ip src off s
      ≡ (if has_device entry ip.major then device_write ip.major else write_failed)
unfolding writei
writei-device entry ip src off s e =
    let d : ip.type == t_dev ≡ true = ground (arith, e) in rw d refl

-- readi, with any function of devices, of an inode with well-formed blocks that is not longer
-- than the largest file, for any offset and count that a uint holds, with a log of LOGSIZE
-- entries. Of a device it calls the function, or returns -1 exactly if there is none. Of another
-- file it returns -1 exactly if `off` is behind the end of the file or the sum wraps round. Else
-- it gives the bytes of the file from `off` on, `n` of them or those up to its end; for a hole of
-- the file it may take new blocks, but no byte of the file changes, nor one of a block in use
-- that is not the inode's, and each block that changes is in the log. It may panic instead: in
-- balloc, with a disk that has no free block; or in log_write, and then no operation is under way
-- or the log has no room for as many blocks as are logged.
pub readi-ReadCall :
    (entry : ℕ → Bool) (ip : Inode) (off n : ℕ) (s : Disk) (l : Log)
    → WellFormed ip s
    → ip.size ≤ maxfile * bsize
    → off < word
    → n < word
    → logsize ≤ length l.block
    → ReadCall entry ip s l off n (readi_call entry ip off n s l)
unfolding readi_call
readi-ReadCall entry ip off n s l w len lo ln long = elim (ℕ_discrete ip.type t_dev) [
  | yes e ↦
      subst (λ r. ReadCall entry ip s l off n (read_call s l r))
        (sym (readi-device entry ip off n s e)) (by_device e (has_device entry ip.major) refl)
  | no e ↦
      by_result e (readi entry ip off n s) (readi-Result entry ip off n s w len e lo ln)
        (readi-ReadTracks entry ip off n s)
]
  where
    by_result :
        ip.type ≢ t_dev
        → (r : Read) → ReadResult ip s off n r
        → ReadTracks s r
        → ReadCall entry ip s l off n (read_call s l r)
    by_result e (device_read major) h c = absurd h
    by_result e read_failed h c = (inr (e, h), refl)
    by_result e (read_bytes xs ip' t) h c =
        elim (with_log-cases (read_bytes xs ip' t) (logged_since s t) l long) [
          | inl (l', q, r) ↦
              subst (ReadCall entry ip s l off n) (sym q) (e, h, Changes-InLog s t l l' c r)
          | inr (q, r) ↦ subst (ReadCall entry ip s l off n) (sym q) (e, r)
        ]
    by_result e (read_panics t) h c =
        elim (with_log-cases (read_panics t) (logged_since s t) l long) [
          | inl (l', q, r) ↦ subst (ReadCall entry ip s l off n) (sym q) (e, h)
          | inr (q, r) ↦ subst (ReadCall entry ip s l off n) (sym q) (e, r)
        ]

    by_device :
        ip.type ≡ t_dev
        → (z : Bool) → has_device entry ip.major ≡ z
        → ReadCall entry ip s l off n
            (read_call s l (if z then device_read ip.major else read_failed))
    by_device e true h = ((e, h, refl), refl)
    by_device e false h = (inl (e, h), refl)

-- writei of any bytes, as many as a uint holds, at any such offset, to an inode with well-formed
-- blocks, with a log of LOGSIZE entries. To a device it calls the function, or returns -1 exactly
-- if there is none. To another file it returns -1 exactly if `off` is behind the end of the file
-- or the bytes would not fit the largest file. Else it writes them all: the file has them at
-- `off` and its other bytes as before, is as long as the farther end of both, of the other blocks
-- in use only that of the inode's copy may change, and each block that changes is in the log,
-- which holds what it held before and these. It may panic instead: in balloc, with a disk that
-- has no free block; or in log_write, and then no operation is under way or the log has no room
-- for as many blocks as are logged.
pub writei-WriteCall :
    (entry : ℕ → Bool) (ip : Inode) (src : List ℕ) (off : ℕ) (s : Disk) (l : Log)
    → WellFormed ip s
    → All (λ x. x < 256) src
    → off < word
    → length src < word
    → logsize ≤ length l.block
    → WriteCall entry ip s l src off (writei_call entry ip src off s l)
unfolding writei_call
writei-WriteCall entry ip src off s l w small lo ln long = elim (ℕ_discrete ip.type t_dev) [
  | yes e ↦
      subst (λ r. WriteCall entry ip s l src off (write_call s l r))
        (sym (writei-device entry ip src off s e)) (by_device e (has_device entry ip.major) refl)
  | no e ↦
      by_result e (writei entry ip src off s) (writei-Result entry ip src off s w small e lo ln)
        (writei-WriteTracks entry ip src off s)
]
  where
    by_result :
        ip.type ≢ t_dev
        → (r : Write) → WriteResult ip s src off r
        → WriteTracks s r
        → WriteCall entry ip s l src off (write_call s l r)
    by_result e (device_write major) h c = absurd h
    by_result e write_failed h c = (inr (e, h), refl)
    by_result e (written m ip' t) h c =
        elim (with_log-cases (written m ip' t) (logged_since s t) l long) [
          | inl (l', q, r) ↦
              subst (WriteCall entry ip s l src off) (sym q) (e, h, Changes-InLog s t l l' c r)
          | inr (q, r) ↦ subst (WriteCall entry ip s l src off) (sym q) (e, r)
        ]
    by_result e (write_panics t) h c =
        elim (with_log-cases (write_panics t) (logged_since s t) l long) [
          | inl (l', q, r) ↦ subst (WriteCall entry ip s l src off) (sym q) (e, h)
          | inr (q, r) ↦ subst (WriteCall entry ip s l src off) (sym q) (e, r)
        ]

    by_device :
        ip.type ≡ t_dev
        → (z : Bool) → has_device entry ip.major ≡ z
        → WriteCall entry ip s l src off
            (write_call s l (if z then device_write ip.major else write_failed))
    by_device e true h = ((e, h, refl), refl)
    by_device e false h = (inl (e, h), refl)
