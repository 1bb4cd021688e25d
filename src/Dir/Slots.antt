-- ===== src/Dir/Slots.antt =====
-- The loop of dirlink that finds the place of the new entry.
use yonix.Base.{
  ℕ, zero, suc, ◌+◌, ◌*◌, ◌/◌, ◌≤◌, ◌<◌, ◌≡◌, refl, sym, ap, ◌∙◌, subst, Bool, true, false, arith,
  ltb, ◌==◌, if◌then◌else◌, length, get_or,
}
use yonix.Fs.{Disk}
use yonix.Fs.Bitmap.{IsFull}
use yonix.Inode.{Inode, Read, device_read, read_failed, read_bytes, read_panics, readi}
use yonix.Inode.Content.{byte_at, Holds}
use yonix.Inode.Bmap.{Holds-trans, Holds-as}
use yonix.Dir.{entry_inum, Slot, slot_at, slot_panics, try_slot, slot_from}
use yonix.Dir.Entries.{inum_at, entry_inum_lem}
use yonix.Dir.Lookup.{IsDir, ReadEntry, readi-ReadEntry, still-IsDir}

-- An entry that is not in use, or the end of the directory.
abbrev pub SlotFound : Inode → Disk → Slot → Type 0
SlotFound ip s (slot_at off ip' t) =
    (16 * (off / 16) ≡ off)
    × (off ≤ ip.size)
    × (off < ip.size → inum_at (byte_at ip s) (off / 16) ≡ 0)
    × Holds ip s (byte_at ip s) ip' t
SlotFound ip s (slot_panics t) = IsFull t

module _ (ip0 : Inode) (s0 : Disk) (d0 : IsDir ip0 s0) where
  abbrev f : ℕ → ℕ
  f = byte_at ip0 s0

  one_slot :
      (k : ℕ) (ip : Inode) (s : Disk) (next : Inode → Disk → Slot)
      → Holds ip0 s0 f ip s
      → 16 * k < ip0.size
      → ((ip' : Inode) (t : Disk) → Holds ip0 s0 f ip' t → SlotFound ip0 s0 (next ip' t))
      → (r : Read) → ReadEntry ip s k r
      → SlotFound ip0 s0 (try_slot s (16 * k) next r)
  one_slot k ip s next h lt go (device_read major) bad = absurd bad
  one_slot k ip s next h lt go read_failed bad = absurd bad
  one_slot k ip s next h lt go (read_panics t) full = full
  one_slot k ip s next h lt go (read_bytes de ip' t) (len, here, h') =
      let all : length de == 16 ≡ true = ground (arith, len) in
      rw all (by_test (entry_inum de == 0) refl)
    where
      bytes : (i : ℕ) → i < 16 → get_or de i 0 ≡ f (16 * k + i)
      bytes i p =
          let b = d0.short in
          let w = d0.whole in here i p ∙ h.content (16 * k + i) (omega (arith, lt, b, w, p))

      now : Holds ip0 s0 f ip' t
      now =
          Holds-as ip0 s0 _ f ip' t h.content (Holds-trans ip0 s0 f ip s (byte_at ip s) ip' t h h')

      index : (16 * k) / 16 ≡ k
      index = omega arith

      zero_of : (n : ℕ) → n == 0 ≡ true → n ≡ 0
      zero_of n h = ground (arith, h)

      by_test :
          (a : Bool)
          → entry_inum de == 0 ≡ a
          → SlotFound ip0 s0 (if a then slot_at (16 * k) ip' t else next ip' t)
      by_test false p = go ip' t now
      by_test true p = (
        ap (λ n. 16 * n) index,
        omega (arith, lt),
        (λ _. ap (inum_at f) index ∙ sym (entry_inum_lem f k de bytes) ∙ zero_of (entry_inum de) p),
        now,
      )

  pub loop_SlotFound :
      (fuel k : ℕ) (ip : Inode) (s : Disk)
      → Holds ip0 s0 f ip s
      → ip0.size ≤ 16 * k + 16 * fuel
      → 16 * k ≤ ip0.size
      → SlotFound ip0 s0 (slot_from fuel (16 * k) ip s)
  unfolding slot_from
  loop_SlotFound zero k ip s h enough le =
      let index : (16 * k) / 16 ≡ k = omega arith in
      (ap (λ n. 16 * n) index, le, (λ p. absurd (omega (arith, p, enough))), h)
  loop_SlotFound (suc fuel) k ip s h enough le =
      by_test
        (λ ip' t h' p.
          subst (λ o. SlotFound ip0 s0 (slot_from fuel o ip' t)) next
            (loop_SlotFound fuel (suc k) ip' t h' (omega (arith, enough))
              (let w = d0.whole in omega (arith, p, w))))
        (ltb (16 * k) ip.size) refl
    where
      next : 16 * suc k ≡ 16 * k + 16
      next = omega arith

      size : ip.size ≡ ip0.size
      size = ap (λ (i : Inode). i.size) h.rest

      inside : (a b : ℕ) → ltb a b ≡ true → a < b
      inside a b h = ground (arith, h)

      outside : (a b : ℕ) → ltb a b ≡ false → b ≤ a
      outside a b h = ground (arith, h)

      by_test :
          ((ip' : Inode) (t : Disk)
            → Holds ip0 s0 f ip' t
            → 16 * k < ip0.size
            → SlotFound ip0 s0 (slot_from fuel (16 * k + 16) ip' t))
          → (z : Bool) → ltb (16 * k) ip.size ≡ z
          → SlotFound ip0 s0 (
              if z
              then try_slot s
                  (16 * k)
                  (slot_from fuel (16 * k + 16))
                  (readi (λ m. false) ip (16 * k) 16 s)
              else slot_at (16 * k) ip s)
      by_test go false e =
          let q = subst (λ n. n ≤ 16 * k) size (outside _ _ e) in
          let index : (16 * k) / 16 ≡ k = omega arith in
          (ap (λ n. 16 * n) index, le, (λ p. absurd (omega (arith, p, q))), h)
      by_test go true e =
          let p = subst (λ n. 16 * k < n) size (inside _ _ e) in
          one_slot k ip s (slot_from fuel (16 * k + 16)) h p (λ ip' t h'. go ip' t h' p) _
            (readi-ReadEntry ip s k (still-IsDir ip0 s0 f ip s d0 h) (inside _ _ e))
