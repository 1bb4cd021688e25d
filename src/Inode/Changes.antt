-- ===== src/Inode/Changes.antt =====
-- bmap, readi and writei: only the blocks that are logged change.
use yonix.Base.{
  ℕ, zero, suc, ◌+◌, ◌-◌, ◌*◌, ◌/◌, ◌%◌, Bool, true, false, ◌&&◌, ◌||◌, List, [], ◌∷◌, ◌++◌, update,
  ltb, ◌==◌, if◌then◌else◌, length, take, drop,
}
use yonix.Fs.{
  Disk, Result, ok, panics, ◌>>=◌, bsize, maxfile, ndirect, nindirect, put_block, balloc,
}
use yonix.Words.{word, load32, store32}
use yonix.Fs.Changes.{
  Changes, Tracks, Changes-refl, Changes-trans, put_block-Changes, Tracks-after, bind-Tracks,
  if-Tracks, block_disk, balloc-Tracks,
}
use yonix.Inode.{
  Inode, t_dev, has_device, iblock, ipb, store_dinode, piece, put_bytes, slice, addr_slot,
  indirect_slot, bmap, read_from, write_from, iupdate, Read, read_bytes, read_panics, read_end,
  readi, Write, written, write_panics, write_end, writei,
}

abbrev pub inode_disk {ℓ} : {A : Type ℓ} → A × (Inode × Disk) → Disk
inode_disk a = a.1.1

addr_slot-Tracks : (ip : Inode) (k : ℕ) (s : Disk) → Tracks inode_disk s (addr_slot ip k s)
unfolding addr_slot
addr_slot-Tracks ip k s =
    if-Tracks inode_disk s (ip.addrs k == 0) _ _
      (bind-Tracks block_disk inode_disk s
        (λ (x, t). ok (x, (record ip { addrs = update ip.addrs k x }, t)))
        (λ (x, t). Changes-refl t) (balloc s) (balloc-Tracks s))
      (Changes-refl s)

indirect_slot-Tracks : (b j : ℕ) (s : Disk) → Tracks block_disk s (indirect_slot b j s)
unfolding indirect_slot
indirect_slot-Tracks b j s =
    if-Tracks block_disk s (load32 (s.bytes b) (4 * j) == 0) _ _
      (bind-Tracks block_disk block_disk s
        (λ (x, t). ok (x, put_block b (store32 (t.bytes b) (4 * j) x) t))
        (λ (x, t). put_block-Changes b (store32 (t.bytes b) (4 * j) x) t) (balloc s)
        (balloc-Tracks s))
      (Changes-refl s)

pub bmap-Tracks : (ip : Inode) (bn : ℕ) (s : Disk) → Tracks inode_disk s (bmap ip bn s)
unfolding bmap
bmap-Tracks ip bn s = if-Tracks inode_disk s (ltb bn ndirect) _ _ (addr_slot-Tracks ip bn s) (
    if-Tracks inode_disk s (ltb (bn - ndirect) nindirect) _ _
      (bind-Tracks inode_disk inode_disk s
        (λ (b, (ip1, s1)). indirect_slot b (bn - ndirect) s1 >>= λ (x, s2). ok (x, (ip1, s2)))
        (λ (b, (ip1, s1)).
          bind-Tracks block_disk inode_disk s1 (λ (x, s2). ok (x, (ip1, s2)))
            (λ (x, s2). Changes-refl s2) (indirect_slot b (bn - ndirect) s1)
            (indirect_slot-Tracks b (bn - ndirect) s1))
        (addr_slot ip ndirect s) (addr_slot-Tracks ip ndirect s))
      (Changes-refl s))

read_from-Tracks :
    (fuel left off : ℕ) (ip : Inode) (s : Disk) → Tracks inode_disk s (read_from fuel left off ip s)
unfolding read_from
read_from-Tracks zero left off ip s = Changes-refl s
read_from-Tracks (suc fuel) left off ip s =
    if-Tracks inode_disk s (left == 0) _ _ (Changes-refl s) (
      bind-Tracks inode_disk inode_disk s
        (λ (b, (ip1, s1)).
          read_from fuel (left - piece left off) (off + piece left off) ip1 s1
          >>= λ (xs, (ip2, s2)).
              ok (slice (piece left off) (off % bsize) (s1.bytes b) ++ xs, (ip2, s2)))
        (λ (b, (ip1, s1)).
          bind-Tracks inode_disk inode_disk s1
            (λ (xs, (ip2, s2)).
              ok (slice (piece left off) (off % bsize) (s1.bytes b) ++ xs, (ip2, s2)))
            (λ (xs, (ip2, s2)). Changes-refl s2)
            (read_from fuel (left - piece left off) (off + piece left off) ip1 s1)
            (read_from-Tracks fuel (left - piece left off) (off + piece left off) ip1 s1))
        (bmap ip (off / bsize) s) (bmap-Tracks ip (off / bsize) s))

write_from-Tracks :
    (fuel : ℕ) (src : List ℕ) (off : ℕ) (ip : Inode) (s : Disk)
    → Tracks inode_disk s (write_from fuel src off ip s)
unfolding write_from
write_from-Tracks zero src off ip s = Changes-refl s
write_from-Tracks (suc fuel) [] off ip s = Changes-refl s
write_from-Tracks (suc fuel) (x ∷ xs) off ip s =
    bind-Tracks inode_disk inode_disk s
      (λ (b, (ip1, s1)).
        write_from fuel (drop m (x ∷ xs)) (off + m) ip1
          (put_block b (put_bytes (off % bsize) (take m (x ∷ xs)) (s1.bytes b)) s1))
      (λ (b, (ip1, s1)).
        let new = put_bytes (off % bsize) (take m (x ∷ xs)) (s1.bytes b) in
        Tracks-after inode_disk s1 (put_block b new s1) (put_block-Changes b new s1)
          (write_from fuel (drop m (x ∷ xs)) (off + m) ip1 (put_block b new s1))
          (write_from-Tracks fuel (drop m (x ∷ xs)) (off + m) ip1 (put_block b new s1)))
      (bmap ip (off / bsize) s) (bmap-Tracks ip (off / bsize) s)
  where
    m : ℕ
    m = piece (length (x ∷ xs)) off

iupdate-Changes : (ip : Inode) (s : Disk) → Changes s (iupdate ip s)
unfolding iupdate
iupdate-Changes ip s =
    put_block-Changes (iblock s.sb ip.inum)
      (store_dinode ip (ip.inum % ipb * 64) (s.bytes (iblock s.sb ip.inum))) s

if_both : {A : Type 0} (P : A → Type 0) (z : Bool) (x y : A) → P x → P y → P (if z then x else y)
if_both P true x y h k = h
if_both P false x y h k = k

-- The blocks that readi and writei log, and that no others change.
abbrev pub ReadTracks : Disk → Read → Type 0
ReadTracks s (read_bytes xs ip t) = Changes s t
ReadTracks s (read_panics t) = Changes s t
ReadTracks s _ = Unit

abbrev pub WriteTracks : Disk → Write → Type 0
WriteTracks s (written n ip t) = Changes s t
WriteTracks s (write_panics t) = Changes s t
WriteTracks s _ = Unit

pub readi-ReadTracks :
    (entry : ℕ → Bool) (ip : Inode) (off n : ℕ) (s : Disk) → ReadTracks s (readi entry ip off n s)
unfolding readi
readi-ReadTracks entry ip off n s =
    if_both (ReadTracks s) (ip.type == t_dev) _ _
      (if_both (ReadTracks s) (has_device entry ip.major) _ _ tt tt)
      (if_both (ReadTracks s) (ltb ip.size off || ltb ((off + n) % word) off) _ _ tt
        (at_end (read_from n1 n1 off ip s) (read_from-Tracks n1 n1 off ip s)))
  where
    n1 : ℕ
    n1 = if ltb ip.size ((off + n) % word) then ip.size - off else n

    at_end :
        (r : Result (List ℕ × (Inode × Disk))) → Tracks inode_disk s r → ReadTracks s (read_end r)
    at_end (ok (xs, (ip1, t))) h = h
    at_end (panics t) h = h

pub writei-WriteTracks :
    (entry : ℕ → Bool) (ip : Inode) (src : List ℕ) (off : ℕ) (s : Disk)
    → WriteTracks s (writei entry ip src off s)
unfolding writei
writei-WriteTracks entry ip src off s =
    if_both (WriteTracks s) (ip.type == t_dev) _ _
      (if_both (WriteTracks s) (has_device entry ip.major) _ _ tt tt)
      (if_both (WriteTracks s) (ltb ip.size off || ltb ((off + n) % word) off) _ _ tt (
        if_both (WriteTracks s) (ltb (maxfile * bsize) ((off + n) % word)) _ _ tt
          (at_end (write_from n src off ip s) (write_from-Tracks n src off ip s))))
  where
    n : ℕ
    n = length src

    at_end :
        (r : Result (ℕ × (Inode × Disk))) → Tracks inode_disk s r → WriteTracks s (write_end n r)
    at_end (panics t) h = h
    at_end (ok (o, (ip1, t))) h =
        let grown : Inode = record ip1 { size = o } in
        if_both (WriteTracks s) (ltb 0 n && ltb ip1.size o) _ _
          (Changes-trans s t (iupdate grown t) h (iupdate-Changes grown t)) h
