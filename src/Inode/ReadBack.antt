-- ===== src/Inode/ReadBack.antt =====
-- writei and then readi.
use yonix.Base.{
  ℕ, suc, ◌+◌, ◌-◌, ◌*◌, ◌≤◌, ◌<◌, min, ◌≡◌, refl, sym, ap, ap₂, ◌∙◌, subst, ◌≢◌, ◌⊎◌, Bool, List,
  [], ◌∷◌, arith, ltb, if◌then◌else◌, length, get_or, All,
}
use yonix.Words.{word}
use yonix.Fs.{Disk, maxfile, bsize}
use yonix.Fs.Bitmap.{IsFull}
use yonix.Inode.{
  Inode, t_dev, Read, device_read, read_failed, read_bytes, read_panics, readi, Write, device_write,
  write_failed, written, write_panics, writei,
}
use yonix.Inode.Slots.{WellFormed}
use yonix.Inode.Content.{byte_at}
use yonix.Inode.Splice.{splice}
use yonix.Inode.Update.{Wrote, WriteResult, writei-Result}
use yonix.Inode.Reading.{ReadResult, readi-Result}

list_ext :
    (xs ys : List ℕ)
    → length xs ≡ length ys
    → ((i : ℕ) → i < length ys → get_or xs i 0 ≡ get_or ys i 0)
    → xs ≡ ys
list_ext [] [] e h = refl
list_ext [] (y ∷ ys) e h = absurd (omega (arith, e))
list_ext (x ∷ xs) [] e h = absurd (omega (arith, e))
list_ext (x ∷ xs) (y ∷ ys) e h =
    ap₂ (λ a b. a ∷ b) (h 0 (omega arith))
      (list_ext xs ys (omega (arith, e)) (λ i lt. h (suc i) (omega (arith, lt))))

splice_inside :
    (src : List ℕ) (off i : ℕ) (f : ℕ → ℕ)
    → i < length src
    → splice src off f (off + i) ≡ get_or src i 0
unfolding splice
splice_inside src off i f lt = let e : off + i - off ≡ i = omega arith in rw e (ground (arith, lt))

-- The read gives `src`, or it panics with a full disk.
abbrev pub GivesBack : List ℕ → Read → Type 0
GivesBack src (device_read major) = ⊥
GivesBack src read_failed = ⊥
GivesBack src (read_bytes xs ip t) = xs ≡ src
GivesBack src (read_panics t) = IsFull t

-- What was written is read back.
abbrev pub ReadBack : (ℕ → Bool) → List ℕ → ℕ → Write → Type 0
ReadBack entry src off (device_write major) = ⊥
ReadBack entry src off write_failed = Unit
ReadBack entry src off (written n ip t) = GivesBack src (readi entry ip off n t)
ReadBack entry src off (write_panics t) = IsFull t

read_of :
    (ip : Inode) (s : Disk) (src : List ℕ) (off : ℕ) (ip' : Inode) (t : Disk)
    → off ≤ ip.size
    → off + length src ≤ maxfile * bsize
    → Wrote ip s src off ip' t
    → (r : Read) → ReadResult ip' t off (length src) r
    → GivesBack src r
read_of ip s src off ip' t le lim w (device_read major) h = h
read_of ip s src off ip' t le lim w read_failed h =
    absurd (impossible ip.size ip'.size (length src) w.size_now le lim h)
  where
    impossible :
        (old now n : ℕ)
        → now ≡ (if ltb old (off + n) then off + n else old)
        → off ≤ old
        → off + n ≤ 71680
        → (now < off) ⊎ (word ≤ off + n)
        → ⊥
    impossible old now n e le lim h = ground (arith, e, le, lim, h)
read_of ip s src off ip' t le lim w (read_panics u) h = h
read_of ip s src off ip' t le lim w (read_bytes xs ip2 u) (_, _, (len, here, _)) =
    let n : min (length src) (ip'.size - off) ≡ length src =
      all_there ip.size ip'.size (length src) w.size_now le in
    list_ext xs src (len ∙ n) λ i lt.
      here i (subst (λ k. i < k) (sym n) lt)
      ∙ w.content (off + i) (omega (arith, lt, lim))
      ∙ splice_inside src off i (byte_at ip s) lt
  where
    all_there :
        (old now n : ℕ)
        → now ≡ (if ltb old (off + n) then off + n else old)
        → off ≤ old
        → min n (now - off) ≡ n
    all_there old now n e le = ground (arith, e, le)

-- A file that is no device, and is not longer than the largest file: what a writei that succeeds has
-- written, a readi of as many bytes at the same offset gives back, unless it panics with a disk that has
-- no free block.
pub writei-readi :
    (entry : ℕ → Bool) (ip : Inode) (src : List ℕ) (off : ℕ) (s : Disk)
    → WellFormed ip s
    → ip.size ≤ maxfile * bsize
    → All (λ x. x < 256) src
    → ip.type ≢ t_dev
    → off < word
    → length src < word
    → ReadBack entry src off (writei entry ip src off s)
writei-readi entry ip src off s w len small no_dev lo ln =
    after (writei entry ip src off s) (writei-Result entry ip src off s w small no_dev lo ln)
  where
    bounded :
        (old now n : ℕ)
        → now ≡ (if ltb old (off + n) then off + n else old)
        → old ≤ 71680
        → off + n ≤ 71680
        → now ≤ 71680
    bounded old now n e a b = ground (arith, e, a, b)

    after : (r : Write) → WriteResult ip s src off r → ReadBack entry src off r
    after (device_write major) h = h
    after write_failed h = tt
    after (write_panics t) full = full
    after (written n ip' t) (le, lim, q, wrote) =
        subst (λ k. GivesBack src (readi entry ip' off k t)) (sym q)
          (read_of ip s src off ip' t le lim wrote _ (
            readi-Result entry ip' off (length src) t wrote.well
              (bounded ip.size ip'.size (length src) wrote.size_now len lim)
              (λ e. no_dev (sym (ap (λ (i : Inode). i.type) wrote.rest) ∙ e)) lo ln))
