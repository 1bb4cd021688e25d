-- ===== src/Inode/Iupdate.antt =====
-- iupdate: it puts the inode's copy on the disk, and leaves the file as it is.
use yonix.Base.{
  ℕ, zero, suc, ◌+◌, ◌-◌, ◌*◌, ◌/◌, ◌%◌, ◌<◌, ◌≡◌, refl, sym, ap, ◌∙◌, subst, ◌≢◌, arith, Mem, leb,
  ◌==◌, if◌then◌else◌,
}
use yonix.Words.{load32}
use yonix.Fs.{Disk, put_block}
use yonix.Fs.Bits.{Bytes}
use yonix.Inode.{Inode, iblock, ipb, store16, store_addrs, store_dinode, iupdate}
use yonix.Inode.Slots.{
  nowned, owned, Used, WellFormed, put_block-MapOk, put_block-Used, bytes_other, store32-Bytes,
}
use yonix.Inode.Content.{index, byte_at}

store_addrs-Bytes :
    (k i : ℕ) (f : ℕ → ℕ) (a : ℕ) (m : Mem) → Bytes m → Bytes (store_addrs k i f a m)
unfolding store_addrs
store_addrs-Bytes zero i f a m h = h
store_addrs-Bytes (suc k) i f a m h =
    store_addrs-Bytes k (i + 1) f a _ (store32-Bytes m (a + 4 * i) (f i) h)

store16-Bytes : (m : Mem) (a w : ℕ) → Bytes m → Bytes (store16 m a w)
store16-Bytes m a w h i = let q = h i in ground (arith, q)

store_dinode-Bytes : (ip : Inode) (a : ℕ) (m : Mem) → Bytes m → Bytes (store_dinode ip a m)
unfolding store_dinode
store_dinode-Bytes ip a m h = store_addrs-Bytes 13 0 ip.addrs (a + 12) _ (
    store32-Bytes _ (a + 8) ip.size (
      store16-Bytes _ (a + 6) ip.nlink (
        store16-Bytes _ (a + 4) ip.minor
          (store16-Bytes _ (a + 2) ip.major (store16-Bytes m a ip.type h)))))

pub resized-WellFormed :
    (ip : Inode) (s : Disk) (z : ℕ) → WellFormed ip s → WellFormed (record ip { size = z }) s
unfolding owned
resized-WellFormed ip s z w = record {
  small = w.small;
  map_ok = w.map_ok;
  used = w.used;
  once = w.once;
  home_used = w.home_used;
  home = w.home;
}

module _ (ip : Inode) (s : Disk) (w : WellFormed ip s) where
  abbrev home : ℕ
  home = iblock s.sb ip.inum

  abbrev copy : Mem
  copy = store_dinode ip (ip.inum % ipb * 64) (s.bytes home)

  abbrev after : Disk
  after = put_block home copy s

  owned_same : (n : ℕ) → owned ip after n ≡ owned ip s n
  unfolding owned
  owned_same n =
      let ne : home ≢ ip.addrs 12 = λ e. w.home 12 (omega arith) (sym e) in
      let e : after.bytes (ip.addrs 12) ≡ s.bytes (ip.addrs 12) =
        bytes_other s home copy (ip.addrs 12) ne in
      ap
        (λ c.
          if leb n 12 then ip.addrs n else if ip.addrs 12 == 0 then 0 else load32 c (4 * (n - 13)))
        e

  pub iupdate-WellFormed : WellFormed ip (iupdate ip s)
  unfolding iupdate
  iupdate-WellFormed = record {
    small = w.small;
    map_ok =
        put_block-MapOk s home copy w.home_used.not_map
          (store_dinode-Bytes ip (ip.inum % ipb * 64) (s.bytes home) (w.map_ok.all_bytes home))
          (positive w.home_used.inside) w.map_ok;
    used = λ n p nz. subst (Used after) (sym (owned_same n)) (
        put_block-Used s home copy (owned ip s n) w.home_used.not_map
          (w.used n p (λ z. nz (owned_same n ∙ z))));
    once = λ n k p q nz e.
        w.once n k p q (λ z. nz (owned_same n ∙ z)) (sym (owned_same n) ∙ e ∙ owned_same k);
    home_used = put_block-Used s home copy home w.home_used.not_map w.home_used;
    home = λ n p e. w.home n p (sym (owned_same n) ∙ e);
  }
    where
      positive : {a b : ℕ} → a < b → 0 < b
      positive h = omega arith

  pub byte_at-iupdate : (o : ℕ) → o / 512 < 140 → byte_at ip (iupdate ip s) o ≡ byte_at ip s o
  unfolding byte_at iupdate
  byte_at-iupdate o lt =
      let ne : home ≢ owned ip s (index (o / 512)) =
        λ e. w.home (index (o / 512)) (in_range (o / 512) lt) (sym e) in
      ap (λ b. if b == 0 then 0 else after.bytes b (o % 512)) (owned_same (index (o / 512)))
      ∙ ap (λ (c : Mem). if owned ip s (index (o / 512)) == 0 then 0 else c (o % 512))
          (bytes_other s home copy _ ne)
    where
      in_range : (n : ℕ) → n < 140 → index n < nowned
      in_range n p = ground (arith, p)

pub iupdate_else :
    (ip : Inode) (s : Disk) (b : ℕ) → b ≢ iblock s.sb ip.inum → (iupdate ip s).bytes b ≡ s.bytes b
unfolding iupdate
iupdate_else ip s b ne = bytes_other s (iblock s.sb ip.inum) _ b (λ e. ne (sym e))

pub byte_at-resized :
    (ip : Inode) (s : Disk) (z o : ℕ) → byte_at (record ip { size = z }) s o ≡ byte_at ip s o
unfolding byte_at owned
byte_at-resized ip s z o = refl
