-- ===== src/Dir/Lookup.antt =====
-- dirlookup: it finds the first entry in use that has the name.
use yonix.Base.{
  ℕ, zero, suc, ◌+◌, ◌-◌, ◌*◌, ◌/◌, ◌%◌, ◌≤◌, ◌<◌, min, ◌≡◌, refl, sym, ap, ◌∙◌, subst, ◌≢◌, ◌⊎◌,
  Bool, true, false, arith, ℕ_discrete, Mem, ltb, ◌==◌, if◌then◌else◌, length, get_or,
}
use yonix.Words.{word}
use yonix.Fs.{Disk}
use yonix.Fs.Bitmap.{IsFull}
use yonix.Inode.{
  Inode, t_dir, t_dev, Read, device_read, read_failed, read_bytes, read_panics, readi,
}
use yonix.Inode.Slots.{WellFormed}
use yonix.Inode.Content.{byte_at, Holds}
use yonix.Inode.Bmap.{Holds-refl, Holds-trans, Holds-as}
use yonix.Inode.Reading.{ReadResult, readi-Result}
use yonix.Dir.{
  is_zero, namecmp, entry_inum, Looked, found, missing, lookup_panics, try_entry, lookup_from,
  dirlookup,
}
use yonix.Dir.Entries.{inum_at, IsEntry, entry_inum_lem, namecmp-NameAt, NameAt-namecmp}

-- A directory of whole entries, not longer than the largest file.
pub record IsDir (ip : Inode) (s : Disk) : Type 0 where
  pub well : WellFormed ip s
  pub type : ip.type ≡ t_dir
  pub whole : ip.size % 16 ≡ 0
  pub short : ip.size ≤ 71680

-- An entry that is read.
abbrev pub ReadEntry : Inode → Disk → ℕ → Read → Type 0
ReadEntry ip s k (device_read major) = ⊥
ReadEntry ip s k read_failed = ⊥
ReadEntry ip s k (read_bytes de ip' t) =
    (length de ≡ 16)
    × ((i : ℕ) → i < 16 → get_or de i 0 ≡ byte_at ip s (16 * k + i))
    × Holds ip s (byte_at ip s) ip' t
ReadEntry ip s k (read_panics t) = IsFull t

pub readi-ReadEntry :
    (ip : Inode) (s : Disk) (k : ℕ)
    → IsDir ip s
    → 16 * k < ip.size
    → ReadEntry ip s k (readi (λ m. false) ip (16 * k) 16 s)
readi-ReadEntry ip s k d lt =
    let w = d.whole in
    let b = d.short in
    let no_dev : ip.type ≢ t_dev = λ e. (let z = sym e ∙ d.type in absurd (omega (arith, z))) in
    back (readi (λ m. false) ip (16 * k) 16 s) (
      readi-Result (λ m. false) ip (16 * k) 16 s d.well b no_dev (omega (arith, lt, b))
        (omega arith))
  where
    all : (z : ℕ) → z % 16 ≡ 0 → 16 * k < z → min 16 (z - 16 * k) ≡ 16
    all z a b = ground (arith, a, b)

    no : (z : ℕ) → z ≤ 71680 → 16 * k < z → (z < 16 * k) ⊎ (word ≤ 16 * k + 16) → ⊥
    no z a b c = ground (arith, a, b, c)

    back : (r : Read) → ReadResult ip s (16 * k) 16 r → ReadEntry ip s k r
    back (device_read major) h = h
    back read_failed h = no ip.size d.short lt h
    back (read_panics t) h = h
    back (read_bytes de ip' t) (_, _, (len, here, h)) =
        let e = all ip.size d.whole lt in
        (len ∙ e, (λ i p. here i (subst (λ n. i < n) (sym e) p)), h)

-- What dirlookup gives: the first entry with the name, or none, and the same directory; or the disk was
-- full.
abbrev pub LookedUp : Inode → Disk → Mem → Looked → Type 0
LookedUp ip s name (found inum off ip' t) =
    (16 * (off / 16) ≡ off)
    × (off < ip.size)
    × (inum_at (byte_at ip s) (off / 16) ≡ inum)
    × IsEntry (byte_at ip s) name (off / 16)
    × ((k : ℕ) → k < off / 16 → IsEntry (byte_at ip s) name k → ⊥)
    × Holds ip s (byte_at ip s) ip' t
LookedUp ip s name (missing ip' t) =
    ((k : ℕ) → 16 * k < ip.size → IsEntry (byte_at ip s) name k → ⊥)
    × Holds ip s (byte_at ip s) ip' t
LookedUp ip s name (lookup_panics t) = IsFull t

pub still-IsDir :
    (ip : Inode) (s : Disk) (f : ℕ → ℕ) (ip' : Inode) (t : Disk)
    → IsDir ip s
    → Holds ip s f ip' t
    → IsDir ip' t
still-IsDir ip s f ip' t d h =
    let size : ip'.size ≡ ip.size = ap (λ (i : Inode). i.size) h.rest in
    record {
      well = h.well;
      type = ap (λ (i : Inode). i.type) h.rest ∙ d.type;
      whole = ap (λ n. n % 16) size ∙ d.whole;
      short = subst (λ n. n ≤ 71680) (sym size) d.short;
    }

module _ (ip0 : Inode) (s0 : Disk) (name : Mem) (d0 : IsDir ip0 s0) where
  abbrev f : ℕ → ℕ
  f = byte_at ip0 s0

  one_entry :
      (k : ℕ) (ip : Inode) (s : Disk) (next : Inode → Disk → Looked)
      → Holds ip0 s0 f ip s
      → 16 * k < ip0.size
      → ((j : ℕ) → j < k → IsEntry f name j → ⊥)
      → ((ip' : Inode) (t : Disk)
          → Holds ip0 s0 f ip' t
          → ((j : ℕ) → j < suc k → IsEntry f name j → ⊥)
          → LookedUp ip0 s0 name (next ip' t))
      → (r : Read) → ReadEntry ip s k r
      → LookedUp ip0 s0 name (try_entry s name (16 * k) next r)
  one_entry k ip s next h lt before go (device_read major) bad = absurd bad
  one_entry k ip s next h lt before go read_failed bad = absurd bad
  one_entry k ip s next h lt before go (read_panics t) full = full
  one_entry k ip s next h lt before go (read_bytes de ip' t) (len, here, h') =
      let all : length de == 16 ≡ true = ground (arith, len) in
      rw all (by_tests (entry_inum de == 0) refl (is_zero (namecmp name de)) refl)
    where
      bound : (i : ℕ) → i < 16 → (16 * k + i) / 512 < 140
      bound i p = let b = d0.short in let w = d0.whole in omega (arith, lt, b, w, p)

      bytes : (i : ℕ) → i < 16 → get_or de i 0 ≡ f (16 * k + i)
      bytes i p = here i p ∙ h.content (16 * k + i) (bound i p)

      now : Holds ip0 s0 f ip' t
      now =
          Holds-as ip0 s0 _ f ip' t h.content (Holds-trans ip0 s0 f ip s (byte_at ip s) ip' t h h')

      on : (IsEntry f name k → ⊥) → (j : ℕ) → j < suc k → IsEntry f name j → ⊥
      on not_here j p e = elim (ℕ_discrete j k) [
        | yes q ↦ not_here (subst (IsEntry f name) q e)
        | no q ↦ before j (omega (arith, p, q)) e
      ]

      index : (16 * k) / 16 ≡ k
      index = omega arith

      nonzero : (n : ℕ) → n == 0 ≡ false → n ≢ 0
      nonzero n h = ground (arith, h)

      by_tests :
          (a : Bool)
          → entry_inum de == 0 ≡ a
          → (b : Bool) → is_zero (namecmp name de) ≡ b
          → LookedUp ip0 s0 name (
              if a
              then next ip' t
              else if b
              then found (entry_inum de) (16 * k) ip' t
              else next ip' t)
      by_tests true p b q =
          go ip' t now (on λ e. e.0 (sym (entry_inum_lem f k de bytes) ∙ zero_of (entry_inum de) p))
        where
          zero_of : (n : ℕ) → n == 0 ≡ true → n ≡ 0
          zero_of n h = ground (arith, h)
      by_tests false p false q =
          go ip' t now (on λ e. clash (sym q ∙ NameAt-namecmp f k de bytes name e.1))
        where
          clash : false ≡ true → ⊥
          clash h = ground (arith, h)
      by_tests false p true q = (
        ap (λ n. 16 * n) index,
        lt,
        ap (inum_at f) index ∙ sym (entry_inum_lem f k de bytes),
        subst (IsEntry f name) (sym index) (
          (λ e. nonzero (entry_inum de) p (entry_inum_lem f k de bytes ∙ e)),
          namecmp-NameAt f k de bytes name q,
        ),
        (λ j p. before j (subst (λ n. j < n) index p)),
        now,
      )

  loop_LookedUp :
      (fuel k : ℕ) (ip : Inode) (s : Disk)
      → Holds ip0 s0 f ip s
      → ip0.size ≤ 16 * k + 16 * fuel
      → ((j : ℕ) → j < k → IsEntry f name j → ⊥)
      → LookedUp ip0 s0 name (lookup_from fuel (16 * k) name ip s)
  unfolding lookup_from
  loop_LookedUp zero k ip s h enough before = ((λ j p. before j (omega (arith, p, enough))), h)
  loop_LookedUp (suc fuel) k ip s h enough before =
      by_test
        (λ ip' t h' b.
          subst (λ o. LookedUp ip0 s0 name (lookup_from fuel o name ip' t)) next
            (loop_LookedUp fuel (suc k) ip' t h' (omega (arith, enough)) b))
        (ltb (16 * k) ip.size) refl
    where
      next : 16 * suc k ≡ 16 * k + 16
      next = omega arith

      size : ip.size ≡ ip0.size
      size = ap (λ (i : Inode). i.size) h.rest

      inside : (a b : ℕ) → ltb a b ≡ true → a < b
      inside a b h = ground (arith, h)

      outside : (a b : ℕ) → ltb a b ≡ false → b ≤ a
      outside a b h = ground (arith, h)

      by_test :
          ((ip' : Inode) (t : Disk)
            → Holds ip0 s0 f ip' t
            → ((j : ℕ) → j < suc k → IsEntry f name j → ⊥)
            → LookedUp ip0 s0 name (lookup_from fuel (16 * k + 16) name ip' t))
          → (z : Bool) → ltb (16 * k) ip.size ≡ z
          → LookedUp ip0 s0 name (
              if z
              then try_entry s name
                  (16 * k)
                  (lookup_from fuel (16 * k + 16) name)
                  (readi (λ m. false) ip (16 * k) 16 s)
              else missing ip s)
      by_test go false e =
          ((λ j p. before j (below j p (subst (λ n. n ≤ 16 * k) size (outside _ _ e)))), h)
        where
          below : (j : ℕ) {n : ℕ} → 16 * j < n → n ≤ 16 * k → j < k
          below j a b = omega (arith, a, b)
      by_test go true e =
          one_entry k ip s (lookup_from fuel (16 * k + 16) name) h
            (subst (λ n. 16 * k < n) size (inside _ _ e)) before go _
            (readi-ReadEntry ip s k (still-IsDir ip0 s0 f ip s d0 h) (inside _ _ e))

-- dirlookup of a directory of whole entries gives the number and the offset of the first entry that is
-- in use and has the name, in its first 14 bytes or up to its NUL; it gives 0 only if there is none. No
-- byte of the directory changes; it panics only with a disk that has no free block.
pub dirlookup-LookedUp :
    (name : Mem) (ip : Inode) (s : Disk) → IsDir ip s → LookedUp ip s name (dirlookup name ip s)
unfolding dirlookup
dirlookup-LookedUp name ip s d =
    let e : ip.type == t_dir ≡ true = is (ip.type) d.type in
    rw e (
      subst (λ o. LookedUp ip s name (lookup_from (ip.size / 16 + 1) o name ip s)) start
        (loop_LookedUp ip s name d (ip.size / 16 + 1) 0 ip s (Holds-refl ip s d.well) (omega arith)
          (λ j p. absurd (omega (arith, p)))))
  where
    is : (n : ℕ) → n ≡ 1 → n == 1 ≡ true
    is n h = ground (arith, h)

    start : ◌≡◌ {A = ℕ} (16 * 0) 0
    start = refl
