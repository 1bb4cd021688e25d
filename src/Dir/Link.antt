-- ===== src/Dir/Link.antt =====
-- dirlink: the entry that it makes.
use yonix.Base.{
  ℕ, ◌+◌, ◌-◌, ◌*◌, ◌/◌, ◌%◌, ◌≤◌, ◌<◌, ◌≡◌, refl, sym, ap, ap₂, ◌∙◌, subst, ◌≢◌, ◌⊎◌, true, false,
  ◌&&◌, arith, Mem, ltb, leb, ◌==◌, if◌then◌else◌, length, get_or,
}
use yonix.Fs.{Disk}
use yonix.Fs.Bitmap.{IsFull}
use yonix.Inode.{
  Inode, t_dev, iblock, Write, device_write, write_failed, written, write_panics, writei,
}
use yonix.Inode.Slots.{nowned, owned, Used}
use yonix.Inode.Content.{byte_at, Holds}
use yonix.Inode.Splice.{splice}
use yonix.Inode.Update.{Wrote, WriteResult, writei-Result}
use yonix.Dir.{
  entry_bytes, Looked, found, missing, lookup_panics, dirlookup, Slot, slot_at, slot_panics,
  slot_from, Linked, link_exists, linked, link_panics, link_written, link_slot, link_looked,
  dirlink,
}
use yonix.Dir.Entries.{inum_at, NameAt, IsEntry}
use yonix.Dir.Lookup.{IsDir, LookedUp, dirlookup-LookedUp}
use yonix.Dir.Names.{IsName, entry-bytes, length-entry, written_entry}
use yonix.Dir.Slots.{SlotFound, loop_SlotFound}

-- Entry `k`, which was not in use or is new, has the number and the name. The directory's other bytes are
-- as they were, and so are its fields but for its blocks and size, and every block in use that is
-- neither one of its own nor that of its copy on the disk.
pub record Entered (ip : Inode) (s : Disk) (name : Mem) (inum : ℕ) (ip' : Inode) (t : Disk) (k : ℕ)
    : Type 0 where
  pub fits : 16 * k ≤ ip.size
  pub was_free : 16 * k < ip.size → inum_at (byte_at ip s) k ≡ 0
  pub number : inum_at (byte_at ip' t) k ≡ inum
  pub named : NameAt (byte_at ip' t) name k
  pub kept : (o : ℕ) → o < 71680 → o / 16 ≢ k → byte_at ip' t o ≡ byte_at ip s o
  pub size_now : ip'.size ≡ (if ltb ip.size (16 * k + 16) then 16 * k + 16 else ip.size)
  pub dir_now : IsDir ip' t
  pub rest : ip' ≡ record ip { addrs = ip'.addrs; size = ip'.size }
  pub others :
      (b : ℕ)
      → Used s b
      → ((n : ℕ) → n < nowned → owned ip s n ≢ b)
      → b ≢ iblock s.sb ip.inum
      → t.bytes b ≡ s.bytes b

-- What dirlink gives: -1 where the name is there, and the same directory; 0 where it was not, with the
-- new entry; or the disk was full.
abbrev pub LinkedUp : Inode → Disk → Mem → ℕ → Linked → Type 0
LinkedUp ip s name inum (link_exists i ip' t) =
    (k : ℕ) × (16 * k < ip.size)
    × IsEntry (byte_at ip s) name k
    × (inum_at (byte_at ip s) k ≡ i)
    × Holds ip s (byte_at ip s) ip' t
LinkedUp ip s name inum (linked ip' t) =
    ((j : ℕ) → 16 * j < ip.size → IsEntry (byte_at ip s) name j → ⊥)
    × ((k : ℕ) × Entered ip s name inum ip' t k)
LinkedUp ip s name inum (link_panics t) = IsFull t

module _ (ip : Inode) (s : Disk) (name : Mem) (len inum : ℕ) (d : IsDir ip s)
    (room : ip.size + 16 ≤ 71680) (nm : IsName name len) (small : inum < 65536) where
  -- The directory in which the entry is written.
  module _ (ip1 : Inode) (s1 : Disk) (h : Holds ip s (byte_at ip s) ip1 s1) (k : ℕ)
      (fits : 16 * k ≤ ip.size) where
    at_slot :
        (ip' : Inode) (t : Disk)
        → Wrote ip1 s1 (entry_bytes name inum) (16 * k) ip' t
        → (o : ℕ) → o < 71680
        → byte_at ip' t o ≡ (
            if leb (16 * k) o && ltb o (16 * k + 16)
            then get_or (entry_bytes name inum) (o - 16 * k) 0
            else byte_at ip s o)
    unfolding splice
    at_slot ip' t w o lt =
        w.content o lt
        ∙ ap₂
            (λ n v.
              if leb (16 * k) o && ltb o (16 * k + n)
              then get_or (entry_bytes name inum) (o - 16 * k) 0
              else v)
            (length-entry name inum) (h.content o (omega (arith, lt)))

    size1 : ip1.size ≡ ip.size
    size1 = ap (λ (i : Inode). i.size) h.rest

    same_home : iblock s1.sb ip1.inum ≡ iblock s.sb ip.inum
    same_home = ap₂ (λ c i. iblock c i) h.same_sb (ap (λ (i : Inode). i.inum) h.rest)

    entered :
        (ip' : Inode) (t : Disk)
        → Wrote ip1 s1 (entry_bytes name inum) (16 * k) ip' t
        → (16 * k < ip.size → inum_at (byte_at ip s) k ≡ 0)
        → Entered ip s name inum ip' t k
    entered ip' t w free =
        let e =
          written_entry (byte_at ip' t) name len inum k nm small
            λ i p. at_slot ip' t w (16 * k + i) (omega (arith, p, fits, room)) ∙ inside i _ p in
        record {
          fits = fits;
          was_free = free;
          number = e.0;
          named = e.1;
          kept = λ o lt ne. at_slot ip' t w o lt ∙ outside o _ _ ne;
          size_now = size_now;
          dir_now = record {
            well = w.well;
            type = ap (λ (i : Inode). i.type) w.rest ∙ ap (λ (i : Inode). i.type) h.rest ∙ d.type;
            whole = (ap (λ n. n % 16) size_now) ∙ whole ip.size d.whole;
            short = subst (λ n. n ≤ 71680) (sym size_now) (short ip.size room fits);
          };
          rest =
              w.rest ∙ ap (λ (i : Inode). record i { addrs = ip'.addrs; size = ip'.size }) h.rest;
          others = λ b u ne away.
              let (same, u1, ne1) = h.others b u ne in
              w.others b u1 ne1 (λ e. away (e ∙ same_home)) ∙ same;
        }
      where
        inside :
            (i v : ℕ)
            → i < 16
            → (if leb (16 * k) (16 * k + i) && ltb (16 * k + i) (16 * k + 16)
                then get_or (entry_bytes name inum) (16 * k + i - 16 * k) 0
                else v)
              ≡ get_or (entry_bytes name inum) i 0
        inside i v p = let e : 16 * k + i - 16 * k ≡ i = omega arith in rw e (ground (arith, p))

        outside :
            (o v w : ℕ) → o / 16 ≢ k → (if leb (16 * k) o && ltb o (16 * k + 16) then v else w) ≡ w
        outside o v w ne = ground (arith, ne)

        whole : (n : ℕ) → n % 16 ≡ 0 → (if ltb n (16 * k + 16) then 16 * k + 16 else n) % 16 ≡ 0
        whole n h = ground (arith, h)

        short :
            (n : ℕ)
            → n + 16 ≤ 71680
            → 16 * k ≤ n
            → (if ltb n (16 * k + 16) then 16 * k + 16 else n) ≤ 71680
        short n a b = ground (arith, a, b)

        size_now : ip'.size ≡ (if ltb ip.size (16 * k + 16) then 16 * k + 16 else ip.size)
        size_now =
            w.size_now
            ∙ ap₂ (λ n m. if ltb n (16 * k + m) then 16 * k + m else n) size1
                (length-entry name inum)

    write_entry :
        ((j : ℕ) → 16 * j < ip.size → IsEntry (byte_at ip s) name j → ⊥)
        → (16 * k < ip.size → inum_at (byte_at ip s) k ≡ 0)
        → (r : Write) → WriteResult ip1 s1 (entry_bytes name inum) (16 * k) r
        → LinkedUp ip s name inum (link_written s1 r)
    write_entry none_there free (device_write major) bad = absurd bad
    write_entry none_there free (write_panics t) full = full
    write_entry none_there free write_failed bad =
        absurd
          (no_room ip1.size (length (entry_bytes name inum)) size1 (length-entry name inum) bad)
      where
        no_room : (z n : ℕ) → z ≡ ip.size → n ≡ 16 → (z < 16 * k) ⊎ (71680 < 16 * k + n) → ⊥
        no_room z n e q b = ground (arith, e, q, b, room, fits)
    write_entry none_there free (written n ip' t) (_, _, q, w) =
        let all : n == 16 ≡ true = is n (q ∙ length-entry name inum) in
        rw all (none_there, (k, entered ip' t w free))
      where
        is : (n : ℕ) → n ≡ 16 → n == 16 ≡ true
        is n h = ground (arith, h)

  looked : (r : Looked) → LookedUp ip s name r → LinkedUp ip s name inum (link_looked name inum r)
  looked (found i off ip1 s1) (whole, lt, number, is, _, h) =
      (off / 16, subst (λ n. n < ip.size) (sym whole) lt, is, number, h)
  looked (lookup_panics t) full = full
  looked (missing ip1 s1) (none_there, h) = slotted (slot_from (ip1.size / 16 + 1) 0 ip1 s1) (
      subst (λ o. SlotFound ip s (slot_from (ip1.size / 16 + 1) o ip1 s1)) start
        (loop_SlotFound ip s d (ip1.size / 16 + 1) 0 ip1 s1 h
          (subst (λ n. n ≤ 16 * 0 + 16 * (ip1.size / 16 + 1)) (ap (λ (i : Inode). i.size) h.rest)
            (omega arith))
          (omega arith)))
    where
      start : ◌≡◌ {A = ℕ} (16 * 0) 0
      start = refl

      slotted : (r : Slot) → SlotFound ip s r → LinkedUp ip s name inum (link_slot name inum r)
      slotted (slot_panics t) full = full
      slotted (slot_at off ip2 s2) (whole, le, free, h2) =
          subst
            (λ o.
              LinkedUp ip s name inum
                (link_written s2 (writei (λ m. false) ip2 (entry_bytes name inum) o s2)))
            whole
            (write_entry ip2 s2 h2 (off / 16) (subst (λ n. n ≤ ip.size) (sym whole) le) none_there
              (λ p. free (subst (λ n. n < ip.size) whole p)) _
              (writei-Result (λ m. false) ip2 (entry_bytes name inum) (16 * (off / 16)) s2 h2.well
                (entry-bytes name len nm inum) no_dev (let r = room in omega (arith, le, r))
                (let e = length-entry name inum in omega (arith, e))))
        where
          no_dev : ip2.type ≢ t_dev
          no_dev e =
              let z = sym e ∙ ap (λ (i : Inode). i.type) h2.rest ∙ d.type in
              absurd (omega (arith, z))

-- dirlink into a directory of whole entries that has room for one more, of a name of at most 13
-- characters, where no call of log_write panics. It returns -1 only if an entry has the name, and the
-- directory's bytes are the same. Where it returns 0 there was none, and one entry that was not in use, or is
-- new at the end, has the number and the name; its other bytes are as they were. On both branches a
-- block in use that is no block of the directory is as it was, but for that of the inode's copy, which
-- the second may write. It panics only with a disk that has no free block.
pub dirlink-LinkedUp :
    (name : Mem) (len inum : ℕ) (ip : Inode) (s : Disk)
    → IsDir ip s
    → ip.size + 16 ≤ 71680
    → IsName name len
    → inum < 65536
    → LinkedUp ip s name inum (dirlink name inum ip s)
unfolding dirlink
dirlink-LinkedUp name len inum ip s d room nm small =
    looked ip s name len inum d room nm small (dirlookup name ip s) (dirlookup-LookedUp name ip s d)
