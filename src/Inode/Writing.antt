-- ===== src/Inode/Writing.antt =====
-- The loop of writei: the file has the bytes that were written, and its other bytes are as they were.
use yonix.Base.{
  ℕ, zero, suc, ◌+◌, ◌-◌, ◌*◌, ◌/◌, ◌%◌, ◌≤◌, ◌<◌, ◌≡◌, sym, ap, ◌∙◌, subst, ◌≢◌, ◌&&◌, List, [],
  ◌∷◌, arith, Mem, ltb, leb, ◌==◌, if◌then◌else◌, length, get_or, take, drop, All,
}
use yonix.Fs.{Disk, Result, ok, panics, ◌>>=◌, bsize, maxfile, put_block}
use yonix.Fs.Bitmap.{IsFull}
use yonix.Inode.{Inode, put_bytes, piece, bmap, write_from}
use yonix.Inode.Slots.{owned, WellFormed}
use yonix.Inode.Content.{index, byte_at, Holds}
use yonix.Inode.Bmap.{Holds-refl, Holds-trans, Holds-as, Mapped, bmap-Mapped}
use yonix.Inode.Overwrite.{put_bytes-Bytes, overwrite-Holds}
use yonix.Inode.Splice.{
  splice, length-take, length-drop, splice-splice, in_block, All-take, All-drop,
}

-- The file has `src` at `off` and is as it was elsewhere; or the disk was full.
abbrev pub Writes : Inode → Disk → List ℕ → ℕ → Result (ℕ × (Inode × Disk)) → Type 0
Writes ip s src off (ok (e, (ip', t))) =
    (e ≡ off + length src) × Holds ip s (splice src off (byte_at ip s)) ip' t
Writes ip s src off (panics t) = IsFull t

-- One piece, put into the block that bmap gave.
module _ (ip : Inode) (s : Disk) (xs : List ℕ) (off : ℕ) (ip1 : Inode) (s1 : Disk)
    (lt : off / 512 < 140) (fits : off % 512 + length xs ≤ 512) (small : All (λ x. x < 256) xs)
    (h : Holds ip s (byte_at ip s) ip1 s1) (nz : owned ip1 s1 (index (off / 512)) ≢ 0) where
  abbrev c : ℕ
  c = owned ip1 s1 (index (off / 512))

  abbrev block : Mem
  block = put_bytes (off % 512) xs (s1.bytes c)

  here : (o : ℕ) → off / 512 ≡ o / 512 → o / 512 < 140 → s1.bytes c (o % 512) ≡ byte_at ip s o
  unfolding byte_at
  here o q p =
      present (s1.bytes c (o % 512)) nz
      ∙ ap
          (λ n.
            if owned ip1 s1 (index n) == 0 then 0 else s1.bytes (owned ip1 s1 (index n)) (o % 512))
          q
      ∙ h.content o p
    where
      present : (v : ℕ) → c ≢ 0 → v ≡ (if c == 0 then 0 else v)
      present v ne = ground (arith, ne)

  same :
      (o : ℕ)
      → o / 512 < 140
      → (if off / 512 == o / 512 then block (o % 512) else byte_at ip1 s1 o)
        ≡ splice xs off (byte_at ip s) o
  same o p =
      ap (λ y. if off / 512 == o / 512 then block (o % 512) else y) (h.content o p)
      ∙ in_block xs off (s1.bytes c) (byte_at ip s) o fits (λ q. here o q p)

  put_here : Holds ip s (splice xs off (byte_at ip s)) ip1 (put_block c block s1)
  put_here =
      Holds-trans ip s (byte_at ip s) ip1 s1 (splice xs off (byte_at ip s)) ip1
        (put_block c block s1) h
        (Holds-as ip1 s1 _ (splice xs off (byte_at ip s)) ip1 (put_block c block s1) same (
          overwrite-Holds ip1 s1 (off / 512) block h.well lt nz
            (put_bytes-Bytes xs (off % 512) (s1.bytes c) small (h.well.map_ok.all_bytes c))))

put_piece :
    (ip : Inode) (s : Disk) (xs : List ℕ) (off : ℕ) (b : ℕ) (ip1 : Inode) (s1 : Disk)
    → off / 512 < 140
    → off % 512 + length xs ≤ 512
    → All (λ x. x < 256) xs
    → Mapped ip (off / 512) s (ok (b, (ip1, s1)))
    → Holds ip s
        (splice xs off (byte_at ip s))
        ip1
        (put_block b (put_bytes (off % 512) xs (s1.bytes b)) s1)
put_piece ip s xs off b ip1 s1 lt fits small (h, e, nz) =
    subst
      (λ c.
        Holds ip s (splice xs off (byte_at ip s)) ip1
          (put_block c (put_bytes (off % 512) xs (s1.bytes c)) s1))
      e (put_here ip s xs off ip1 s1 lt fits small h (λ z. nz (sym e ∙ z)))

splice_under :
    (xs : List ℕ) (off o : ℕ) (f g : ℕ → ℕ) → f o ≡ g o → splice xs off f o ≡ splice xs off g o
unfolding splice
splice_under xs off o f g e =
    ap (λ y. if leb off o && ltb o (off + length xs) then get_or xs (o - off) 0 else y) e

splice_nothing : (off : ℕ) (f : ℕ → ℕ) (o : ℕ) → f o ≡ splice [] off f o
unfolding splice
splice_nothing off f o = ground arith

-- The piece and what is written behind it.
both_pieces :
    (ip : Inode) (s : Disk) (src : List ℕ) (off m : ℕ) (ip1 : Inode) (s2 : Disk)
    → m ≤ length src
    → Holds ip s (splice (take m src) off (byte_at ip s)) ip1 s2
    → (r : Result (ℕ × (Inode × Disk))) → Writes ip1 s2 (drop m src) (off + m) r
    → Writes ip s src off r
both_pieces ip s src off m ip1 s2 le h (panics t) full = full
both_pieces ip s src off m ip1 s2 le h (ok (e, (ip', t))) (q, h') = (
  q ∙ omega (arith, length-drop m src, le),
  Holds-as ip s _ (splice src off (byte_at ip s)) ip' t
      (λ o lt.
        splice_under (drop m src) (off + m) o _ _ (h.content o lt)
        ∙ splice-splice m src off (byte_at ip s) o le)
      (Holds-trans ip s (splice (take m src) off (byte_at ip s)) ip1 s2 _ ip' t h h'),
)

piece-fits :
    (n off : ℕ) → 0 < n → (0 < piece n off) × (piece n off ≤ n) × (off % 512 + piece n off ≤ 512)
piece-fits n off h = ground (arith, h)

Writes-nothing :
    (off : ℕ) (ip : Inode) (s : Disk) → WellFormed ip s → Writes ip s [] off (ok (off, (ip, s)))
Writes-nothing off ip s w = (
  omega arith,
  Holds-as ip s _ (splice [] off (byte_at ip s)) ip s (λ o _. splice_nothing off (byte_at ip s) o)
      (Holds-refl ip s w),
)

one_piece :
    (fuel : ℕ) (src : List ℕ) (off : ℕ) (ip : Inode) (s : Disk)
    → 0 < length src
    → All (λ x. x < 256) src
    → off + length src ≤ maxfile * bsize
    → ((ip1 : Inode) (s2 : Disk)
        → WellFormed ip1 s2
        → Writes ip1 s2 (drop (piece (length src) off) src) (off + piece (length src) off) (
            write_from fuel
              (drop (piece (length src) off) src)
              (off + piece (length src) off)
              ip1
              s2))
    → (r : Result (ℕ × (Inode × Disk))) → Mapped ip (off / bsize) s r
    → Writes ip s src off (
        r >>= λ (b, (ip1, s1)).
        write_from fuel (drop (piece (length src) off) src) (off + piece (length src) off) ip1 (
          put_block b
            (put_bytes (off % bsize) (take (piece (length src) off) src) (s1.bytes b))
            s1))
one_piece fuel src off ip s pos small lim ih (panics t) full = full
one_piece fuel src off ip s pos small lim ih (ok (b, (ip1, s1))) mapped =
    let (_, le, fits) = piece-fits (length src) off pos in
    let m = piece (length src) off in
    let len = length-take m src le in
    let h =
      put_piece ip s (take m src) off b ip1 s1 (omega (arith, lim, pos)) (omega (arith, fits, len))
        (All-take m src small) mapped in
    both_pieces ip s src off m ip1 _ le h _ (ih ip1 _ h.well)

pub write_from-Writes :
    (fuel : ℕ) (src : List ℕ) (off : ℕ) (ip : Inode) (s : Disk)
    → WellFormed ip s
    → All (λ x. x < 256) src
    → length src ≤ fuel
    → off + length src ≤ maxfile * bsize
    → Writes ip s src off (write_from fuel src off ip s)
unfolding write_from
write_from-Writes zero [] off ip s w small enough lim = Writes-nothing off ip s w
write_from-Writes zero (x ∷ xs) off ip s w small enough lim = absurd (omega (arith, enough))
write_from-Writes (suc fuel) [] off ip s w small enough lim = Writes-nothing off ip s w
write_from-Writes (suc fuel) (x ∷ xs) off ip s w small enough lim =
    let m = piece (length (x ∷ xs)) off in
    let (pos, le, _) = piece-fits (length (x ∷ xs)) off (omega arith) in
    let len = length-drop m (x ∷ xs) in
    one_piece fuel (x ∷ xs) off ip s (omega arith) small lim
      (λ ip1 s2 w1.
        write_from-Writes fuel (drop m (x ∷ xs)) (off + m) ip1 s2 w1 (All-drop m (x ∷ xs) small)
          (omega (arith, len, pos, le, enough)) (omega (arith, len, le, lim)))
      (bmap ip (off / bsize) s) (bmap-Mapped ip (off / bsize) s w (omega (arith, lim)))
