-- ===== src/Inode/Update.antt =====
-- writei on every branch.
use yonix.Base.{
  ℕ, ◌+◌, ◌*◌, ◌/◌, ◌%◌, ◌≤◌, ◌<◌, ◌≡◌, refl, sym, ap, ap₂, ◌∙◌, ◌≢◌, ◌⊎◌, Bool, true, false, ◌&&◌,
  ◌||◌, List, arith, ltb, ◌==◌, if◌then◌else◌, length, All,
}
use yonix.Words.{word}
use yonix.Fs.{Disk, Result, ok, panics, bsize, maxfile}
use yonix.Fs.Bitmap.{IsFull}
use yonix.Inode.{
  Inode, t_dev, iblock, iupdate, write_from, Write, device_write, write_failed, written,
  write_panics, write_end, writei,
}
use yonix.Inode.Slots.{nowned, owned, Used, WellFormed}
use yonix.Inode.Content.{byte_at}
use yonix.Inode.Splice.{splice}
use yonix.Inode.Writing.{Writes, write_from-Writes}
use yonix.Inode.Iupdate.{
  resized-WellFormed, iupdate-WellFormed, byte_at-iupdate, byte_at-resized, iupdate_else,
}

-- The file has `src` at `off` and its other bytes as before, and is as long as the farther end of both.
-- Only its own blocks, and that of its copy on the disk, change among the blocks that were in use.
pub record Wrote (ip : Inode) (s : Disk) (src : List ℕ) (off : ℕ) (ip' : Inode) (t : Disk)
    : Type 0 where
  pub rest : ip' ≡ record ip { addrs = ip'.addrs; size = ip'.size }
  pub size_now : ip'.size ≡ (if ltb ip.size (off + length src) then off + length src else ip.size)
  pub well : WellFormed ip' t
  pub content : (o : ℕ) → o < maxfile * bsize → byte_at ip' t o ≡ splice src off (byte_at ip s) o
  pub others :
      (b : ℕ)
      → Used s b
      → ((n : ℕ) → n < nowned → owned ip s n ≢ b)
      → b ≢ iblock s.sb ip.inum
      → t.bytes b ≡ s.bytes b

-- What writei gives on a file that is no device.
abbrev pub WriteResult : Inode → Disk → List ℕ → ℕ → Write → Type 0
WriteResult ip s src off (device_write major) = ⊥
WriteResult ip s src off write_failed = (ip.size < off) ⊎ (maxfile * bsize < off + length src)
WriteResult ip s src off (written n ip' t) =
    (off ≤ ip.size)
    × (off + length src ≤ maxfile * bsize)
    × (n ≡ length src)
    × Wrote ip s src off ip' t
WriteResult ip s src off (write_panics t) = IsFull t

write_end-Result :
    (ip : Inode) (s : Disk) (src : List ℕ) (off : ℕ)
    → off ≤ ip.size
    → off + length src ≤ maxfile * bsize
    → (r : Result (ℕ × (Inode × Disk))) → Writes ip s src off r
    → WriteResult ip s src off (write_end (length src) r)
write_end-Result ip s src off le lim (panics t) full = full
write_end-Result ip s src off le lim (ok (e, (ip', t))) (q, h) =
    by_test (ltb 0 (length src) && ltb ip'.size e) refl
  where
    at : (o : ℕ) → o < 71680 → o / 512 < 140
    at o p = omega (arith, p)

    same_size : ip'.size ≡ ip.size
    same_size = ap (λ (i : Inode). i.size) h.rest

    same_home : iblock t.sb ip'.inum ≡ iblock s.sb ip.inum
    same_home = ap₂ (λ c i. iblock c i) h.same_sb (ap (λ (i : Inode). i.inum) h.rest)

    kept_size :
        (old now e off n : ℕ)
        → now ≡ old
        → e ≡ off + n
        → off ≤ old
        → (ltb 0 n && ltb now e) ≡ false
        → now ≡ (if ltb old (off + n) then off + n else old)
    kept_size old now e off n h q le c = ground (arith, h, q, le, c)

    new_size :
        (old now e off n : ℕ)
        → now ≡ old
        → e ≡ off + n
        → off ≤ old
        → (ltb 0 n && ltb now e) ≡ true
        → e ≡ (if ltb old (off + n) then off + n else old)
    new_size old now e off n h q le c = ground (arith, h, q, le, c)

    by_test :
        (z : Bool)
        → (ltb 0 (length src) && ltb ip'.size e) ≡ z
        → WriteResult ip s src off (
            if z
            then written
                (length src)
                (record ip' { size = e })
                (iupdate (record ip' { size = e }) t)
            else written (length src) ip' t)
    by_test false c = (
      le,
      lim,
      refl,
      record {
        rest = h.rest ∙ ap (λ z. record ip { addrs = ip'.addrs; size = z }) (sym same_size);
        size_now = kept_size ip.size ip'.size e off (length src) same_size q le c;
        well = h.well;
        content = λ o p. h.content o (at o p);
        others = λ b u ne _. (h.others b u ne).0;
      },
    )
    by_test true c =
        let w = resized-WellFormed ip' t e h.well in
        (
          le,
          lim,
          refl,
          record {
            rest = ap (λ (i : Inode). record i { size = e }) h.rest;
            size_now = new_size ip.size ip'.size e off (length src) same_size q le c;
            well = iupdate-WellFormed (record ip' { size = e }) t w;
            content = λ o p.
                byte_at-iupdate (record ip' { size = e }) t w o (at o p)
                ∙ byte_at-resized ip' t e o
                ∙ h.content o (at o p);
            others = λ b u ne away.
                iupdate_else (record ip' { size = e }) t b (λ z. away (z ∙ same_home))
                ∙ (h.others b u ne).0;
          },
        )

-- writei of a file that is no device, at any offset and of any length that a uint holds, as far
-- as no call of log_write panics. It returns -1 exactly if `off` is behind the end of the file or
-- the bytes would not fit the largest file. Else all bytes are written: the file has them at
-- `off` and its other bytes as before, is as long as the farther end of both, and of the other
-- blocks in use only that of the inode's copy may change; or it panics, with a disk that has no
-- free block.
pub writei-Result :
    (entry : ℕ → Bool) (ip : Inode) (src : List ℕ) (off : ℕ) (s : Disk)
    → WellFormed ip s
    → All (λ x. x < 256) src
    → ip.type ≢ t_dev
    → off < word
    → length src < word
    → WriteResult ip s src off (writei entry ip src off s)
unfolding writei
writei-Result entry ip src off s w small no_dev lo ln =
    let d : ip.type == t_dev ≡ false = ground (arith, no_dev) in
    rw d (
      by_tests (ltb ip.size off || ltb ((off + length src) % word) off) refl
        (ltb (maxfile * bsize) ((off + length src) % word)) refl)
  where
    refused :
        (z n : ℕ)
        → off < word
        → n < word
        → (ltb z off || ltb ((off + n) % word) off) ≡ true
        → (z < off) ⊎ (71680 < off + n)
    refused z n a b h = ground (arith, a, b, h)

    too_long :
        (z n : ℕ)
        → off < word
        → n < word
        → (ltb z off || ltb ((off + n) % word) off) ≡ false
        → ltb 71680 ((off + n) % word) ≡ true
        → (z < off) ⊎ (71680 < off + n)
    too_long z n a b h g = ground (arith, a, b, h, g)

    fits :
        (z n : ℕ)
        → off < word
        → n < word
        → (ltb z off || ltb ((off + n) % word) off) ≡ false
        → ltb 71680 ((off + n) % word) ≡ false
        → (off ≤ z) × (off + n ≤ 71680)
    fits z n a b h g = ground (arith, a, b, h, g)

    by_tests :
        (a : Bool)
        → (ltb ip.size off || ltb ((off + length src) % word) off) ≡ a
        → (b : Bool) → ltb (maxfile * bsize) ((off + length src) % word) ≡ b
        → WriteResult ip s src off (
            if a
            then write_failed
            else if b
            then write_failed
            else write_end (length src) (write_from (length src) src off ip s))
    by_tests true p b q = refused ip.size (length src) lo ln p
    by_tests false p true q = too_long ip.size (length src) lo ln p q
    by_tests false p false q =
        let (le, lim) = fits ip.size (length src) lo ln p q in
        write_end-Result ip s src off le lim (write_from (length src) src off ip s)
          (write_from-Writes (length src) src off ip s w small (omega arith) lim)
