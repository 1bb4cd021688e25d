-- ===== src/Inode/Reading.antt =====
-- readi: it gives the bytes of the file.
use yonix.Base.{
  ℕ, zero, suc, ◌+◌, ◌-◌, ◌*◌, ◌/◌, ◌%◌, ◌≤◌, ◌<◌, min, ◌≡◌, refl, sym, ap, ap₂, ◌∙◌, subst, ◌≢◌,
  ◌⊎◌, Bool, true, false, ◌||◌, List, [], ◌∷◌, ◌++◌, arith, Mem, ltb, ◌==◌, if◌then◌else◌, length,
  get_or, length-append,
}
use yonix.Words.{word}
use yonix.Fs.{Disk, Result, ok, panics, ◌>>=◌, bsize, maxfile}
use yonix.Fs.Bitmap.{IsFull}
use yonix.Inode.{
  Inode, t_dev, piece, slice, bmap, read_from, Read, device_read, read_failed, read_bytes,
  read_panics, read_end, readi,
}
use yonix.Inode.Slots.{owned, WellFormed}
use yonix.Inode.Content.{index, byte_at, Holds}
use yonix.Inode.Bmap.{Holds-refl, Holds-trans, Holds-as, Mapped, bmap-Mapped}
use yonix.Inode.Overwrite.{get_or-slice}

-- The `n` bytes of the file from `off` on, and a file with the same bytes as before.
abbrev pub Reads : Inode → Disk → ℕ → ℕ → Result (List ℕ × (Inode × Disk)) → Type 0
Reads ip s off n (ok (xs, (ip', t))) =
    (length xs ≡ n)
    × ((i : ℕ) → i < n → get_or xs i 0 ≡ byte_at ip s (off + i))
    × Holds ip s (byte_at ip s) ip' t
Reads ip s off n (panics t) = IsFull t

length-slice : (k a : ℕ) (m : Mem) → length (slice k a m) ≡ k
length-slice zero a m = refl
length-slice (suc k) a m = ap suc (length-slice k (a + 1) m)

get_or-append :
    (xs ys : List ℕ) (i : ℕ)
    → get_or (xs ++ ys) i 0
      ≡ (if ltb i (length xs) then get_or xs i 0 else get_or ys (i - length xs) 0)
get_or-append [] ys i = ground arith
get_or-append (x ∷ xs) ys zero = ground arith
get_or-append (x ∷ xs) ys (suc i) = get_or-append xs ys i ∙ ground arith

-- The bytes of one block.
in_block :
    (ip1 : Inode) (s1 : Disk) (off i : ℕ)
    → owned ip1 s1 (index (off / 512)) ≢ 0
    → off % 512 + i < 512
    → s1.bytes (owned ip1 s1 (index (off / 512))) (off % 512 + i) ≡ byte_at ip1 s1 (off + i)
unfolding byte_at
in_block ip1 s1 off i nz lt =
    let q : off / 512 ≡ (off + i) / 512 = omega (arith, lt) in
    let r : off % 512 + i ≡ (off + i) % 512 = omega (arith, lt) in
    present (owned ip1 s1 (index (off / 512))) _ nz
    ∙ ap₂ (λ n j. if owned ip1 s1 (index n) == 0 then 0 else s1.bytes (owned ip1 s1 (index n)) j) q
        r
  where
    present : (c v : ℕ) → c ≢ 0 → v ≡ (if c == 0 then 0 else v)
    present c v ne = ground (arith, ne)

piece-fits :
    (n off : ℕ)
    → n == 0 ≡ false
    → (0 < piece n off) × (piece n off ≤ n) × (off % 512 + piece n off ≤ 512)
piece-fits n off h = ground (arith, h)

-- A block and what is read behind it.
after_block :
    (ip : Inode) (s : Disk) (off left m b : ℕ) (ip1 : Inode) (s1 : Disk)
    → m ≤ left
    → off % 512 + m ≤ 512
    → off + left ≤ maxfile * bsize
    → Mapped ip (off / 512) s (ok (b, (ip1, s1)))
    → (r : Result (List ℕ × (Inode × Disk))) → Reads ip1 s1 (off + m) (left - m) r
    → Reads ip s off left
        (r >>= λ (xs, (ip2, s2)). ok (slice m (off % 512) (s1.bytes b) ++ xs, (ip2, s2)))
after_block ip s off left m b ip1 s1 le fits lim mapped (panics t) full = full
after_block ip s off left m b ip1 s1 le fits lim (h, e, nz) (ok (xs, (ip2, s2))) (len, here, h') = (
  length-append (slice m (off % 512) (s1.bytes b)) xs
      ∙ omega (arith, length-slice m (off % 512) (s1.bytes b), len, le),
  λ i lt.
      get_or-append (slice m (off % 512) (s1.bytes b)) xs i
      ∙ ap
          (λ n.
            if ltb i n then get_or (slice m (off % 512) (s1.bytes b)) i 0 else get_or xs (i - n) 0)
          (length-slice m (off % 512) (s1.bytes b))
      ∙ by_test i lt (ltb i m) refl,
  Holds-as ip s _ (byte_at ip s) ip2 s2 h.content
      (Holds-trans ip s (byte_at ip s) ip1 s1 (byte_at ip1 s1) ip2 s2 h h'),
)
  where
    below : (i m : ℕ) → ltb i m ≡ true → i < m
    below i m c = ground (arith, c)

    above : (i m : ℕ) → ltb i m ≡ false → m ≤ i
    above i m c = ground (arith, c)

    by_test :
        (i : ℕ)
        → i < left
        → (z : Bool) → ltb i m ≡ z
        → (if z then get_or (slice m (off % 512) (s1.bytes b)) i 0 else get_or xs (i - m) 0)
          ≡ byte_at ip s (off + i)
    by_test i lt true c =
        let p = below i m c in
        get_or-slice m (off % 512) (s1.bytes b) i p
        ∙ ap (λ d. s1.bytes d (off % 512 + i)) (sym e)
        ∙ in_block ip1 s1 off i (λ z. nz (sym e ∙ z)) (omega (arith, p, fits))
        ∙ h.content (off + i) (omega (arith, lt, lim))
    by_test i lt false c =
        let p = above i m c in
        let q : off + m + (i - m) ≡ off + i = omega (arith, p) in
        here (i - m) (omega (arith, p, lt))
        ∙ ap (byte_at ip1 s1) q
        ∙ h.content (off + i) (omega (arith, lt, lim))

read_nothing :
    (off : ℕ) (ip : Inode) (s : Disk) → WellFormed ip s → Reads ip s off 0 (ok ([], (ip, s)))
read_nothing off ip s w = (refl, (λ i lt. absurd (omega (arith, lt))), Holds-refl ip s w)

one_block :
    (fuel left off : ℕ) (ip : Inode) (s : Disk)
    → left == 0 ≡ false
    → off + left ≤ maxfile * bsize
    → ((ip1 : Inode) (s1 : Disk)
        → WellFormed ip1 s1
        → Reads ip1 s1
            (off + piece left off)
            (left - piece left off)
            (read_from fuel (left - piece left off) (off + piece left off) ip1 s1))
    → (r : Result (ℕ × (Inode × Disk))) → Mapped ip (off / bsize) s r
    → Reads ip s off left (
        r >>= λ (b, (ip1, s1)).
        read_from fuel (left - piece left off) (off + piece left off) ip1 s1 >>= λ (xs, (ip2, s2)).
        ok (slice (piece left off) (off % bsize) (s1.bytes b) ++ xs, (ip2, s2)))
one_block fuel left off ip s pos lim ih (panics t) full = full
one_block fuel left off ip s pos lim ih (ok (b, (ip1, s1))) mapped =
    let (_, le, fits) = piece-fits left off pos in
    after_block ip s off left (piece left off) b ip1 s1 le fits lim mapped _
      (ih ip1 s1 (mapped.0).well)

pub read_from-Reads :
    (fuel left off : ℕ) (ip : Inode) (s : Disk)
    → WellFormed ip s
    → left ≤ fuel
    → off + left ≤ maxfile * bsize
    → Reads ip s off left (read_from fuel left off ip s)
unfolding read_from
read_from-Reads zero zero off ip s w enough lim = read_nothing off ip s w
read_from-Reads zero (suc left) off ip s w enough lim = absurd (omega (arith, enough))
read_from-Reads (suc fuel) zero off ip s w enough lim = read_nothing off ip s w
read_from-Reads (suc fuel) (suc left) off ip s w enough lim =
    let nz : suc left == 0 ≡ false = ground arith in
    let (pos, le, _) = piece-fits (suc left) off nz in
    rw nz (
      one_block fuel (suc left) off ip s nz lim
        (λ ip1 s1 w1.
          read_from-Reads fuel (suc left - piece (suc left) off) (off + piece (suc left) off) ip1 s1
            w1 (omega (arith, pos, le, enough)) (omega (arith, le, lim)))
        (bmap ip (off / bsize) s) (bmap-Mapped ip (off / bsize) s w (omega (arith, lim))))

-- What readi gives on a file that is no device.
abbrev pub ReadResult : Inode → Disk → ℕ → ℕ → Read → Type 0
ReadResult ip s off n (device_read major) = ⊥
ReadResult ip s off n read_failed = (ip.size < off) ⊎ (word ≤ off + n)
ReadResult ip s off n (read_bytes xs ip' t) =
    (off ≤ ip.size) × (off + n < word) × Reads ip s off (min n (ip.size - off)) (ok (xs, (ip', t)))
ReadResult ip s off n (read_panics t) = IsFull t

read_end-Result :
    (ip : Inode) (s : Disk) (off n : ℕ)
    → off ≤ ip.size
    → off + n < word
    → (r : Result (List ℕ × (Inode × Disk))) → Reads ip s off (min n (ip.size - off)) r
    → ReadResult ip s off n (read_end r)
read_end-Result ip s off n le lim (panics t) full = full
read_end-Result ip s off n le lim (ok (xs, (ip', t))) h = (le, lim, h)

-- readi of a file that is no device and not longer than the largest file, for any offset and
-- count that a uint holds, as far as no call of log_write panics. It returns -1 exactly if `off`
-- is behind the end of the file or the sum wraps round. Else it gives the bytes of the file from
-- `off` on, `n` of them or those up to the end of the file, and the bytes of the file are the
-- same; or it panics, with a disk that has no free block.
pub readi-Result :
    (entry : ℕ → Bool) (ip : Inode) (off n : ℕ) (s : Disk)
    → WellFormed ip s
    → ip.size ≤ maxfile * bsize
    → ip.type ≢ t_dev
    → off < word
    → n < word
    → ReadResult ip s off n (readi entry ip off n s)
unfolding readi
readi-Result entry ip off n s w len no_dev lo ln =
    let d : ip.type == t_dev ≡ false = ground (arith, no_dev) in
    rw d (by_test (ltb ip.size off || ltb ((off + n) % word) off) refl)
  where
    refused :
        (z : ℕ)
        → off < word
        → n < word
        → (ltb z off || ltb ((off + n) % word) off) ≡ true
        → (z < off) ⊎ (word ≤ off + n)
    refused z a b h = ground (arith, a, b, h)

    allowed :
        (z : ℕ)
        → off < word
        → n < word
        → (ltb z off || ltb ((off + n) % word) off) ≡ false
        → (off ≤ z) × (off + n < word)
    allowed z a b h = ground (arith, a, b, h)

    clipped :
        (z : ℕ)
        → off ≤ z
        → off + n < word
        → (if ltb z ((off + n) % word) then z - off else n) ≡ min n (z - off)
    clipped z a b = ground (arith, a, b)

    by_test :
        (z : Bool)
        → (ltb ip.size off || ltb ((off + n) % word) off) ≡ z
        → ReadResult ip s off n (
            if z
            then read_failed
            else read_end (
                read_from
                  (if ltb ip.size ((off + n) % word) then ip.size - off else n)
                  (if ltb ip.size ((off + n) % word) then ip.size - off else n)
                  off
                  ip
                  s))
    by_test true c = refused ip.size lo ln c
    by_test false c =
        let (le, lim) = allowed ip.size lo ln c in
        subst (λ k. ReadResult ip s off n (read_end (read_from k k off ip s)))
          (sym (clipped ip.size le lim))
          (read_end-Result ip s off n le lim _ (
            read_from-Reads (min n (ip.size - off)) (min n (ip.size - off)) off ip s w (omega arith)
              (short ip.size le len)))
      where
        short : (z : ℕ) → off ≤ z → z ≤ 71680 → off + min n (z - off) ≤ 71680
        short z a b = ground (arith, a, b)
