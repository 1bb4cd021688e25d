-- ===== src/Inode/Overwrite.antt =====
-- Bytes that are put into a block of a file.
use yonix.Base.{
  ℕ, zero, suc, ◌+◌, ◌-◌, ◌*◌, ◌/◌, ◌%◌, ◌<◌, ◌≡◌, refl, sym, ap, ◌∙◌, subst, ◌≢◌, Bool, true,
  false, ◌&&◌, List, [], ◌∷◌, arith, dec_lt, ℕ_discrete, Mem, update, ltb, leb, ◌==◌, if◌then◌else◌,
  length, get_or, All,
}
use yonix.Words.{load32}
use yonix.Fs.{Disk, put_block}
use yonix.Fs.Bits.{Bytes}
use yonix.Inode.{Inode, put_bytes, slice}
use yonix.Inode.Slots.{
  nowned, owned, Used, WellFormed, owned_direct, put_block-MapOk, put_block-Used, bytes_other,
}
use yonix.Inode.Content.{index, byte_at, Holds}

-- A byte is that of the list where the list lies, and the old one elsewhere.
pub put_bytes_lem :
    (xs : List ℕ) (a : ℕ) (m : Mem) (i : ℕ)
    → put_bytes a xs m i ≡ (if leb a i && ltb i (a + length xs) then get_or xs (i - a) 0 else m i)
put_bytes_lem [] a m i = ground arith
put_bytes_lem (x ∷ xs) a m i = elim (dec_lt a i) [
  | yes p ↦
      let e : i - a ≡ suc (i - (a + 1)) = omega (arith, p) in
      put_bytes_lem xs (a + 1) (update m a x) i ∙ rw e (ground (arith, p))
  | no p ↦ put_bytes_lem xs (a + 1) (update m a x) i ∙ (elim (ℕ_discrete a i) [
    | yes q ↦ let z : i - a ≡ 0 = omega (arith, q) in rw z (ground (arith, q))
    | no q ↦ ground (arith, p, q)
  ])
]

pub put_bytes-Bytes :
    (xs : List ℕ) (a : ℕ) (m : Mem) → All (λ x. x < 256) xs → Bytes m → Bytes (put_bytes a xs m)
put_bytes-Bytes [] a m h b = b
put_bytes-Bytes (x ∷ xs) a m (h, hs) b =
    put_bytes-Bytes xs (a + 1) (update m a x) hs λ i. ground (arith, h, b i)

pub get_or-slice : (k a : ℕ) (m : Mem) (i : ℕ) → i < k → get_or (slice k a m) i 0 ≡ m (a + i)
get_or-slice zero a m i lt = absurd (omega arith)
get_or-slice (suc k) a m zero lt = let e : a ≡ a + 0 = omega arith in ap m e
get_or-slice (suc k) a m (suc i) lt =
    let e : a + 1 + i ≡ a + suc i = omega arith in
    get_or-slice k (a + 1) m i (omega (arith, lt)) ∙ ap m e

-- The block `bn` of the file, which is there, gets the bytes `m`.
module _ (ip : Inode) (s : Disk) (bn : ℕ) (m : Mem) (w : WellFormed ip s) (lt : bn < 140)
    (there : owned ip s (index bn) ≢ 0) (bm : Bytes m) where
  abbrev x : ℕ
  x = owned ip s (index bn)

  abbrev after : Disk
  after = put_block x m s

  in_range : (n : ℕ) → n < 140 → index n < nowned
  in_range n p = ground (arith, p)

  x-Used : Used s x
  x-Used = w.used (index bn) (in_range bn lt) there

  not_indirect : x ≢ ip.addrs 12
  not_indirect e =
      let q =
        w.once (index bn) 12 (in_range bn lt) (omega arith) there
          (e ∙ sym (owned_direct ip s 12 (omega arith))) in
      twelve bn q
    where
      twelve : (n : ℕ) → index n ≢ 12
      twelve n e = ground (arith, e)

  owned_same : (n : ℕ) → owned ip after n ≡ owned ip s n
  unfolding owned
  owned_same n =
      let e : after.bytes (ip.addrs 12) ≡ s.bytes (ip.addrs 12) =
        bytes_other s x m (ip.addrs 12) not_indirect in
      ap
        (λ c.
          if leb n 12 then ip.addrs n else if ip.addrs 12 == 0 then 0 else load32 c (4 * (n - 13)))
        e

  well_after : WellFormed ip after
  well_after = record {
    small = w.small;
    map_ok = put_block-MapOk s x m x-Used.not_map bm (positive x-Used.inside) w.map_ok;
    used = λ n p nz. subst (Used after) (sym (owned_same n)) (
        put_block-Used s x m (owned ip s n) x-Used.not_map
          (w.used n p (λ z. nz (owned_same n ∙ z))));
    once = λ n k p q nz e.
        w.once n k p q (λ z. nz (owned_same n ∙ z)) (sym (owned_same n) ∙ e ∙ owned_same k);
    home_used = put_block-Used s x m _ x-Used.not_map w.home_used;
    home = λ n p e. w.home n p (sym (owned_same n) ∙ e);
  }
    where
      positive : {a b : ℕ} → a < b → 0 < b
      positive h = omega arith

  byte_after :
      (o : ℕ)
      → o / 512 < 140
      → byte_at ip after o ≡ (if bn == o / 512 then m (o % 512) else byte_at ip s o)
  unfolding byte_at
  byte_after o p =
      ap (λ b. if b == 0 then 0 else after.bytes b (o % 512)) (owned_same (index (o / 512)))
      ∙ (elim (ℕ_discrete bn (o / 512)) [
        | yes e ↦
            subst
              (λ n.
                (if owned ip s (index n) == 0
                  then 0
                  else after.bytes (owned ip s (index n)) (o % 512))
                ≡ (if bn == n then m (o % 512) else byte_at ip s o))
              e (here (byte_at ip s o) there)
        | no e ↦ by_test (owned ip s (index (o / 512)) == 0) refl e
      ])
    where
      here :
          (old : ℕ)
          → x ≢ 0
          → (if x == 0 then 0 else after.bytes x (o % 512))
            ≡ (if bn == bn then m (o % 512) else old)
      here old nz = ground (arith, nz)

      apart : (n k : ℕ) → n ≢ k → index n ≢ index k
      apart n k ne e = ground (arith, ne, e)

      by_test :
          (z : Bool)
          → owned ip s (index (o / 512)) == 0 ≡ z
          → bn ≢ o / 512
          → (if z then 0 else after.bytes (owned ip s (index (o / 512))) (o % 512)) ≡ (
              if bn == o / 512
              then m (o % 512)
              else (if z then 0 else s.bytes (owned ip s (index (o / 512))) (o % 512)))
      by_test true e ne = ground (arith, ne)
      by_test false e ne =
          let nx : x ≢ owned ip s (index (o / 512)) = λ q.
            apart bn (o / 512) ne (
              w.once (index bn) (index (o / 512)) (in_range bn lt) (in_range (o / 512) p) there
                q) in
          ap (λ (c : Mem). c (o % 512)) (bytes_other s x m _ nx) ∙ ground (arith, ne)

  pub overwrite-Holds :
      Holds ip s (λ o. if bn == o / 512 then m (o % 512) else byte_at ip s o) ip after
  overwrite-Holds = record {
    rest = refl;
    same_sb = refl;
    well = well_after;
    content = byte_after;
    others = λ b u ne. (
      bytes_other s x m b (ne (index bn) (in_range bn lt)),
      put_block-Used s x m b x-Used.not_map u,
      λ n p e. ne n p (sym (owned_same n) ∙ e),
    );
  }
