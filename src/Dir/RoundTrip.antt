-- ===== src/Dir/RoundTrip.antt =====
-- dirlink and then dirlookup.
use yonix.Base.{
  ℕ, ◌+◌, ◌*◌, ◌/◌, ◌%◌, ◌≤◌, ◌<◌, ◌≡◌, sym, ap, ap₂, ◌∙◌, subst, ◌≢◌, arith, ℕ_discrete, Mem, ltb,
  if◌then◌else◌,
}
use yonix.Fs.{Disk}
use yonix.Fs.Bitmap.{IsFull}
use yonix.Inode.{Inode}
use yonix.Inode.Content.{byte_at}
use yonix.Dir.{
  Looked, found, missing, lookup_panics, dirlookup, Linked, link_exists, linked, link_panics,
  dirlink,
}
use yonix.Dir.Entries.{inum_at, IsEntry}
use yonix.Dir.Lookup.{IsDir, LookedUp, dirlookup-LookedUp}
use yonix.Dir.Names.{IsName}
use yonix.Dir.Link.{Entered, LinkedUp, dirlink-LinkedUp}

-- The look-up gives the number, or it panics with a full disk.
abbrev pub Finds : ℕ → Looked → Type 0
Finds inum (found i off ip t) = i ≡ inum
Finds inum (missing ip t) = ⊥
Finds inum (lookup_panics t) = IsFull t

-- A name that was entered is found.
abbrev pub FindsLinked : Mem → ℕ → Linked → Type 0
FindsLinked name inum (linked ip t) = Finds inum (dirlookup name ip t)
FindsLinked name inum (link_exists i ip t) = Unit
FindsLinked name inum (link_panics t) = IsFull t

module _ (ip : Inode) (s : Disk) (name : Mem) (inum : ℕ) (ip' : Inode) (t : Disk) (k : ℕ)
    (room : ip.size ≤ 71680) (whole : ip.size % 16 ≡ 0) (pos : 0 < inum)
    (before : (j : ℕ) → 16 * j < ip.size → IsEntry (byte_at ip s) name j → ⊥)
    (e : Entered ip s name inum ip' t k) where
  -- No other entry has the name.
  only : (j : ℕ) → 16 * j < ip'.size → IsEntry (byte_at ip' t) name j → j ≡ k
  only j lt is = elim (ℕ_discrete j k) [
    | yes q ↦ q
    | no ne ↦
        let old : 16 * j < ip.size = within ip.size ip'.size e.fits e.size_now lt ne in
        absurd (before j old (back j ne old is))
  ]
    where
      within :
          (z now : ℕ)
          → 16 * k ≤ z
          → now ≡ (if ltb z (16 * k + 16) then 16 * k + 16 else z)
          → 16 * j < now
          → j ≢ k
          → 16 * j < z
      within z now f q p ne = ground (arith, f, q, p, ne)

      back :
          (j : ℕ)
          → j ≢ k
          → 16 * j < ip.size
          → IsEntry (byte_at ip' t) name j
          → IsEntry (byte_at ip s) name j
      back j ne old (used, named) =
          let a = e.kept (16 * j) (omega (arith, old, room)) (λ q. ne (omega (arith, q))) in
          let b =
            e.kept (16 * j + 1) (omega (arith, old, room, whole)) (λ q. ne (omega (arith, q))) in
          (
            (λ z. used (ap₂ (λ x y. x + 256 * y) a b ∙ z)),
            λ i p earlier.
                named i p earlier
                ∙ e.kept (16 * j + 2 + i) (omega (arith, old, room, p, whole))
                    (λ q. ne (omega (arith, q, p))),
          )

  finds : (r : Looked) → LookedUp ip' t name r → Finds inum r
  finds (lookup_panics u) full = full
  finds (found i off ip2 u) (w, lt, number, is, _, _) =
      let q = only (off / 16) (subst (λ n. n < ip'.size) (sym w) lt) is in
      sym number ∙ ap (inum_at (byte_at ip' t)) q ∙ e.number
  finds (missing ip2 u) (none_there, _) =
      none_there k (inside ip.size ip'.size e.size_now)
        ((λ z. (let n = e.number in absurd (omega (arith, n, z, pos)))), e.named)
    where
      inside : (z now : ℕ) → now ≡ (if ltb z (16 * k + 16) then 16 * k + 16 else z) → 16 * k < now
      inside z now q = ground (arith, q)

-- What dirlink has entered, dirlookup finds: where dirlink returns 0 for a name of at most 13
-- characters and a number from 1 to 65535, dirlookup of that name in the directory gives that number,
-- unless it panics with a disk that has no free block.
pub dirlink-dirlookup :
    (name : Mem) (len inum : ℕ) (ip : Inode) (s : Disk)
    → IsDir ip s
    → ip.size + 16 ≤ 71680
    → IsName name len
    → 0 < inum
    → inum < 65536
    → FindsLinked name inum (dirlink name inum ip s)
dirlink-dirlookup name len inum ip s d room nm pos small =
    after (dirlink name inum ip s) (dirlink-LinkedUp name len inum ip s d room nm small)
  where
    after : (r : Linked) → LinkedUp ip s name inum r → FindsLinked name inum r
    after (link_exists i ip' t) h = tt
    after (link_panics t) full = full
    after (linked ip' t) (before, (k, e)) =
        finds ip s name inum ip' t k d.short d.whole pos before e (dirlookup name ip' t)
          (dirlookup-LookedUp name ip' t e.dir_now)
