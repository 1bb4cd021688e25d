-- ===== src/Inode/Content.antt =====
-- The bytes of a file, and that a new block of its inode changes none of them.
use yonix.Base.{
  ℕ, ◌+◌, ◌/◌, ◌%◌, ◌≤◌, ◌<◌, ◌≡◌, refl, sym, ap, ap₂, ◌∙◌, subst, ◌≢◌, ◌⊎◌, inl, inr, Bool, true,
  false, arith, Mem, ltb, ◌==◌, if◌then◌else◌,
}
use yonix.Words.{word}
use yonix.Fs.{Disk, bblock}
use yonix.Fs.Bitmap.{is_free, MapOk}
use yonix.Inode.{Inode, iblock}
use yonix.Inode.Slots.{nowned, owned, NotMap, Used, WellFormed}
use yonix.Inode.Grow.{Grown, Used-apart, not_zero}

-- Block `bn` of a file among the blocks that are owned: the indirect block itself is number 12.
abbrev pub index : ℕ → ℕ
index bn = if ltb bn 12 then bn else bn + 1

-- Byte `o` of the file; a block that is not there reads as zeros.
unfoldable pub byte_at : Inode → Disk → ℕ → ℕ
byte_at ip s o =
    if owned ip s (index (o / 512)) == 0
    then 0
    else s.bytes (owned ip s (index (o / 512))) (o % 512)

-- Behind a change of the inode's blocks the file has the bytes `f`, and a block in use that is not of
-- this inode is as it was.
pub record Holds (ip : Inode) (s : Disk) (f : ℕ → ℕ) (ip' : Inode) (t : Disk) : Type 0 where
  pub rest : ip' ≡ record ip { addrs = ip'.addrs }
  pub same_sb : t.sb ≡ s.sb
  pub well : WellFormed ip' t
  pub content : (o : ℕ) → o / 512 < 140 → byte_at ip' t o ≡ f o
  pub others :
      (b : ℕ)
      → Used s b
      → ((n : ℕ) → n < nowned → owned ip s n ≢ b)
      → (t.bytes b ≡ s.bytes b) × Used t b × ((n : ℕ) → n < nowned → owned ip' t n ≢ b)

free-NotMap : (s : Disk) (x : ℕ) → MapOk s → x < s.sb.size → is_free s x ≡ true → NotMap s x
free-NotMap s x good inside free y lt e =
    let used = good.map_used y lt (subst (λ b. b < s.sb.size) (sym e) inside) in
    let used' = subst (λ b. is_free s b ≡ false) e used in absurd (ground (arith, used', free))

module _ (ip : Inode) (s : Disk) (k x : ℕ) (ip' : Inode) (t : Disk) (w : WellFormed ip s)
    (lk : k < nowned) (g : Grown ip s k x ip' t) where
  still-Used : (b : ℕ) → Used s b → Used t b
  still-Used b u = record {
    inside = subst (λ c. b < c.size) (sym g.same_sb) u.inside;
    not_free = g.free_now b u.inside ∙ if_false (x == b) u.not_free;
    not_map = subst (λ c. (y : ℕ) → y < c.size → bblock c y ≢ b) (sym g.same_sb) u.not_map;
  }
    where
      if_false : (z : Bool) {f : Bool} → f ≡ false → (if z then false else f) ≡ false
      if_false z h = ground (arith, h)

  new-Used : Used t x
  new-Used = record {
    inside = subst (λ c. x < c.size) (sym g.same_sb) g.inside;
    not_free = g.free_now x g.inside ∙ if_same x (is_free s x);
    not_map =
        subst (λ c. (y : ℕ) → y < c.size → bblock c y ≢ x) (sym g.same_sb)
          (free-NotMap s x w.map_ok g.inside g.was_free);
  }
    where
      if_same : (z : ℕ) (f : Bool) → (if z == z then false else f) ≡ false
      if_same z f = ground arith

  -- What block `n` is now.
  owned-cases :
      (n : ℕ)
      → n < nowned
      → ((k ≡ n) × (owned ip' t n ≡ x)) ⊎ ((k ≢ n) × (owned ip' t n ≡ owned ip s n))
  owned-cases n lt = pick (k == n) refl (g.owned_now n lt)
    where
      pick :
          (z : Bool)
          → k == n ≡ z
          → owned ip' t n ≡ (if z then x else owned ip s n)
          → ((k ≡ n) × (owned ip' t n ≡ x)) ⊎ ((k ≢ n) × (owned ip' t n ≡ owned ip s n))
      pick true e h = inl (ground (arith, e), h)
      pick false e h = inr (ground (arith, e), h)

  fresh : (n : ℕ) → n < nowned → owned ip s n ≢ x
  fresh n lt e =
      Used-apart s (owned ip s n) x
        (w.used n lt (λ z. not_zero s x w.map_ok g.was_free (sym e ∙ z))) g.was_free e

  now-Used : (n : ℕ) → n < nowned → owned ip' t n ≢ 0 → Used t (owned ip' t n)
  now-Used n lt nz = elim (owned-cases n lt) [
    | inl (e, h) ↦ subst (Used t) (sym h) new-Used
    | inr (e, h) ↦ subst (Used t) (sym h) (still-Used _ (w.used n lt (λ z. nz (h ∙ z))))
  ]

  once_now :
      (n m : ℕ)
      → n < nowned
      → m < nowned
      → owned ip' t n ≢ 0
      → owned ip' t n ≡ owned ip' t m
      → n ≡ m
  once_now n m ln lm nz eq = elim (owned-cases n ln) [
    | inl (e, h) ↦ elim (owned-cases m lm) [
      | inl (f, h') ↦ sym e ∙ f
      | inr (f, h') ↦ absurd (fresh m lm (sym h' ∙ sym eq ∙ h))
    ]
    | inr (e, h) ↦ elim (owned-cases m lm) [
      | inl (f, h') ↦ absurd (fresh n ln (sym h ∙ eq ∙ h'))
      | inr (f, h') ↦ w.once n m ln lm (λ z. nz (h ∙ z)) (sym h ∙ eq ∙ h')
    ]
  ]

  same_home : iblock t.sb ip'.inum ≡ iblock s.sb ip.inum
  same_home = ap₂ (λ c i. iblock c i) g.same_sb (ap (λ (i : Inode). i.inum) g.rest)

  home_now : (n : ℕ) → n < nowned → owned ip' t n ≢ iblock t.sb ip'.inum
  home_now n lt e = elim (owned-cases n lt) [
    | inl (f, h) ↦ Used-apart s _ x w.home_used g.was_free (sym same_home ∙ sym e ∙ h)
    | inr (f, h) ↦ w.home n lt (sym h ∙ e ∙ same_home)
  ]

  pub grown-WellFormed : WellFormed ip' t
  grown-WellFormed = record {
    small = subst (λ c. c.size ≤ word) (sym g.same_sb) w.small;
    map_ok = g.map_ok;
    used = now-Used;
    once = once_now;
    home_used = subst (Used t) (sym same_home) (still-Used _ w.home_used);
    home = home_now;
  }

  -- A block in use that the inode did not own as its indirect block is as it was.
  bytes_kept : (b : ℕ) → Used s b → b ≢ owned ip s 12 → t.bytes b ≡ s.bytes b
  bytes_kept b u ne =
      g.kept b (Used-apart s b x u g.was_free) (λ e. u.not_map x g.inside (sym e)) ne

  byte_kept :
      (n o : ℕ)
      → n < nowned
      → n ≢ 12
      → (if owned ip' t n == 0 then 0 else t.bytes (owned ip' t n) o)
        ≡ (if owned ip s n == 0 then 0 else s.bytes (owned ip s n) o)
  byte_kept n o lt n12 = elim (owned-cases n lt) [
    | inl (e, h) ↦
        ap (λ b. if b == 0 then 0 else t.bytes b o) h
        ∙ zeros (x == 0) (g.zeroed o)
        ∙ sym (ap (λ b. if b == 0 then 0 else s.bytes b o) (ap (owned ip s) (sym e) ∙ g.was_none))
    | inr (e, h) ↦ ap (λ b. if b == 0 then 0 else t.bytes b o) h ∙ by_test (owned ip s n == 0) refl
  ]
    where
      zeros : (z : Bool) {y : ℕ} → y ≡ 0 → (if z then 0 else y) ≡ 0
      zeros z h = ground (arith, h)

      by_test :
          (z : Bool)
          → owned ip s n == 0 ≡ z
          → (if z then 0 else t.bytes (owned ip s n) o)
            ≡ (if z then 0 else s.bytes (owned ip s n) o)
      by_test true e = refl
      by_test false e =
          let nz : owned ip s n ≢ 0 = ground (arith, e) in
          ap (λ (m : Mem). m o)
            (bytes_kept (owned ip s n) (w.used n lt nz)
              (λ q. n12 (w.once n 12 lt (omega arith) nz q)))

  pub grown-Holds : Holds ip s (byte_at ip s) ip' t
  unfolding byte_at
  grown-Holds = record {
    rest = g.rest;
    same_sb = g.same_sb;
    well = grown-WellFormed;
    content = λ o lt.
        byte_kept (index (o / 512)) (o % 512) (in_range (o / 512) lt) (not_twelve (o / 512));
    others = λ b u ne. (
      bytes_kept b u (λ e. ne 12 (omega arith) (sym e)),
      still-Used b u,
      λ n lt e. elim (owned-cases n lt) [
        | inl (f, h) ↦ Used-apart s b x u g.was_free (sym e ∙ h)
        | inr (f, h) ↦ ne n lt (sym h ∙ e)
      ],
    );
  }
    where
      in_range : (n : ℕ) → n < 140 → index n < nowned
      in_range n lt = ground (arith, lt)

      not_twelve : (n : ℕ) → index n ≢ 12
      not_twelve n e = ground (arith, e)
