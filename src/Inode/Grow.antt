-- ===== src/Inode/Grow.antt =====
-- A new block of an inode: what the inode owns then.
use yonix.Base.{
  ℕ, ◌+◌, ◌-◌, ◌*◌, ◌≤◌, ◌<◌, ◌≡◌, refl, sym, ap, ◌∙◌, subst, ◌≢◌, ◌⊎◌, inl, inr, Bool, true, false,
  arith, dec_lt, dec_le, ℕ_discrete, Mem, update, ◌==◌, if◌then◌else◌,
}
use yonix.Words.{word, load32, store32, load32-store32, load32-store32_apart}
use yonix.Fs.{Disk, bblock, put_block}
use yonix.Fs.Bitmap.{is_free, MapOk}
use yonix.Fs.Balloc.{Allocated}
use yonix.Inode.{Inode}
use yonix.Inode.Slots.{
  nowned, owned, Used, WellFormed, owned_direct, owned_none, owned_indirect, load32_zero,
  is_free-put_block, put_block-MapOk, bytes_same, bytes_other, store32-Bytes,
}

-- The free block `x` has become block `k` of the inode.
pub record Grown (ip : Inode) (s : Disk) (k x : ℕ) (ip' : Inode) (t : Disk) : Type 0 where
  pub rest : ip' ≡ record ip { addrs = ip'.addrs }
  pub was_none : owned ip s k ≡ 0
  pub was_free : is_free s x ≡ true
  pub inside : x < s.sb.size
  pub same_sb : t.sb ≡ s.sb
  pub owned_now : (n : ℕ) → n < nowned → owned ip' t n ≡ (if k == n then x else owned ip s n)
  pub free_now : (y : ℕ) → y < s.sb.size → is_free t y ≡ (if x == y then false else is_free s y)
  pub zeroed : (i : ℕ) → t.bytes x i ≡ 0
  pub kept : (b : ℕ) → b ≢ x → b ≢ bblock s.sb x → b ≢ owned ip s 12 → t.bytes b ≡ s.bytes b
  pub map_ok : MapOk t

-- A block in use is empty that balloc gives or changes.
pub Used-apart : (s : Disk) (b x : ℕ) → Used s b → is_free s x ≡ true → b ≢ x
Used-apart s b x u f e =
    let g = subst (λ c. is_free s c ≡ false) e u.not_free in absurd (ground (arith, f, g))

pub Used-kept :
    (s : Disk) (x : ℕ) (t : Disk) (b : ℕ) → Allocated s x t → Used s b → t.bytes b ≡ s.bytes b
Used-kept s x t b a u = a.kept b (Used-apart s b x u a.was_free) (λ e. u.not_map x a.inside (sym e))

pub not_zero : (s : Disk) (x : ℕ) → MapOk s → is_free s x ≡ true → x ≢ 0
not_zero s x good f e =
    let g = subst (λ c. is_free s c ≡ true) e f in
    let h = good.boot_used in absurd (ground (arith, g, h))

if_no : {b : Bool} (y z : ℕ) → b ≡ false → (if b then y else z) ≡ z
if_no y z h = rw h refl

if_yes : {b : Bool} (y z : ℕ) → b ≡ true → (if b then y else z) ≡ y
if_yes y z h = rw h refl

module _ (ip : Inode) (s : Disk) (w : WellFormed ip s) (x : ℕ) (t : Disk)
    (a : Allocated s x t) where
  indirect-Used : ip.addrs 12 ≢ 0 → Used s (ip.addrs 12)
  indirect-Used ne =
      let e = owned_direct ip s 12 (omega arith) in
      subst (Used s) e (w.used 12 (omega arith) (λ z. ne (sym e ∙ z)))

  grown_slot : ℕ → Inode
  grown_slot k = record ip { addrs = update ip.addrs k x }

  owned_slot :
      (k : ℕ)
      → k ≤ 12
      → ip.addrs k ≡ 0
      → (n : ℕ)
      → owned (record ip { addrs = update ip.addrs k x }) t n ≡ (if k == n then x else owned ip s n)
  owned_slot k lt empty n = elim (dec_le n 12) [
    | yes p ↦ owned_direct _ t n p ∙ ap (λ y. if k == n then x else y) (sym (owned_direct ip s n p))
    | no p ↦
        let ne : k == n ≡ false = ground (arith, lt, p) in
        let above : 12 < n = omega (arith, p) in
        (elim (ℕ_discrete k 12)
          as (λ _. owned (record ip { addrs = update ip.addrs k x }) t n ≡ owned ip s n) [
            | yes e ↦
                let here : update ip.addrs k x 12 ≡ x = ground (arith, e) in
                let nz : update ip.addrs k x 12 ≢ 0 =
                  λ z. not_zero s x w.map_ok a.was_free (sym here ∙ z) in
                owned_indirect _ t n above nz
                ∙ (load32_zero _ _ (λ i. ap (λ b. t.bytes b i) here ∙ a.zeroed i))
                ∙ sym (owned_none ip s n above (ap ip.addrs (sym e) ∙ empty))
            | no e ↦
                let there : update ip.addrs k x 12 ≡ ip.addrs 12 = ground (arith, e) in
                elim (ℕ_discrete (ip.addrs 12) 0) [
                  | yes z ↦ owned_none _ t n above (there ∙ z) ∙ sym (owned_none ip s n above z)
                  | no z ↦
                      owned_indirect _ t n above (λ y. z (sym there ∙ y))
                      ∙ ap (λ b. load32 (t.bytes b) (4 * (n - 13))) there
                      ∙ ap (λ m. load32 m (4 * (n - 13)))
                          (Used-kept s x t (ip.addrs 12) a (indirect-Used z))
                      ∙ sym (owned_indirect ip s n above z)
                ]
          ])
        ∙ sym (if_no x (owned ip s n) ne)
  ]

  pub slot-Grown :
      (k : ℕ)
      → k ≤ 12
      → ip.addrs k ≡ 0
      → Grown ip s k x (record ip { addrs = update ip.addrs k x }) t
  slot-Grown k lt empty = record {
    rest = refl;
    was_none = owned_direct ip s k lt ∙ empty;
    was_free = a.was_free;
    inside = a.inside;
    same_sb = a.same_sb;
    owned_now = λ n _. owned_slot k lt empty n;
    free_now = a.free_now;
    zeroed = a.zeroed;
    kept = λ b p q _. a.kept b p q;
    map_ok = a.map_ok;
  }

  -- The address is put in entry `j` of the indirect block.
  module _ (j : ℕ) (have : ip.addrs 12 ≢ 0)
      (empty : load32 (s.bytes (ip.addrs 12)) (4 * j) ≡ 0) where
    abbrev listed : Disk
    listed = put_block (ip.addrs 12) (store32 (t.bytes (ip.addrs 12)) (4 * j) x) t

    same_block : t.bytes (ip.addrs 12) ≡ s.bytes (ip.addrs 12)
    same_block = Used-kept s x t (ip.addrs 12) a (indirect-Used have)

    small : x < word
    small = let i = a.inside in let q = w.small in omega (arith, i, q)

    owned_listed : (n : ℕ) → owned ip listed n ≡ (if j + 13 == n then x else owned ip s n)
    owned_listed n = elim (dec_le n 12) [
      | yes p ↦
          let ne : j + 13 == n ≡ false = ground (arith, p) in
          owned_direct ip listed n p ∙ sym (owned_direct ip s n p) ∙ sym (if_no x (owned ip s n) ne)
      | no p ↦
          let above : 12 < n = omega (arith, p) in
          owned_indirect ip listed n above have
          ∙ ap (λ m. load32 m (4 * (n - 13))) (bytes_same t (ip.addrs 12) _)
          ∙ (elim (ℕ_discrete (j + 13) n)
              as (λ _.
                load32 (store32 (t.bytes (ip.addrs 12)) (4 * j) x) (4 * (n - 13))
                ≡ (if j + 13 == n then x else owned ip s n)) [
                  | yes e ↦
                      let q : n - 13 ≡ j = omega (arith, e) in
                      let r : j + 13 == n ≡ true = ground (arith, e) in
                      ap (λ i. load32 (store32 (t.bytes (ip.addrs 12)) (4 * j) x) (4 * i)) q
                      ∙ load32-store32 _ (4 * j) x small
                      ∙ sym (if_yes x (owned ip s n) r)
                  | no e ↦
                      let r : j + 13 == n ≡ false = ground (arith, e) in
                      load32-store32_apart _ (4 * j) (4 * (n - 13)) x
                        (order (n - 13) (λ q. e (omega (arith, q, above))))
                      ∙ ap (λ m. load32 m (4 * (n - 13))) same_block
                      ∙ sym (owned_indirect ip s n above have)
                      ∙ sym (if_no x (owned ip s n) r)
                ])
    ]
      where
        order : (i : ℕ) → i ≢ j → (4 * i + 4 ≤ 4 * j) ⊎ (4 * j + 4 ≤ 4 * i)
        order i ne = elim (dec_lt i j) [
          | yes p ↦ inl (omega (arith, p))
          | no p ↦ inr (omega (arith, p, ne))
        ]

    before-Used : Used t (ip.addrs 12)
    before-Used =
        let u = indirect-Used have in
        record {
          inside = subst (λ b. ip.addrs 12 < b.size) (sym a.same_sb) u.inside;
          not_free =
              a.free_now (ip.addrs 12) u.inside
              ∙ if_false (λ e. Used-apart s (ip.addrs 12) x u a.was_free (sym e)) u.not_free;
          not_map =
              subst (λ b. (y : ℕ) → y < b.size → bblock b y ≢ ip.addrs 12) (sym a.same_sb)
                u.not_map;
        }
      where
        if_false : {y z : ℕ} {b : Bool} → y ≢ z → b ≡ false → (if y == z then false else b) ≡ false
        if_false ne f = ground (arith, ne, f)

    other_block : ip.addrs 12 ≢ x
    other_block = Used-apart s (ip.addrs 12) x (indirect-Used have) a.was_free

    pub listed-Grown : Grown ip s (j + 13) x ip listed
    listed-Grown = record {
      rest = refl;
      was_none = owned_indirect ip s (j + 13) (omega arith) have ∙ at_j ∙ empty;
      was_free = a.was_free;
      inside = a.inside;
      same_sb = a.same_sb;
      owned_now = λ n _. owned_listed n;
      free_now = λ y lt.
          is_free-put_block t (ip.addrs 12) _ y before-Used.not_map
            (subst (λ b. y < b.size) (sym a.same_sb) lt)
          ∙ a.free_now y lt;
      zeroed =
          λ i. ap (λ (m : Mem). m i) (bytes_other t (ip.addrs 12) _ x other_block) ∙ a.zeroed i;
      kept = λ b p q r.
          bytes_other t (ip.addrs 12) _ b
            (λ e. r (sym e ∙ sym (owned_direct ip s 12 (omega arith))))
          ∙ a.kept b p q;
      map_ok =
          put_block-MapOk t (ip.addrs 12) _ before-Used.not_map
            (store32-Bytes (t.bytes (ip.addrs 12)) (4 * j) x (a.map_ok.all_bytes (ip.addrs 12)))
            (subst (λ b. 0 < b.size) (sym a.same_sb) positive) a.map_ok;
    }
      where
        at_j :
            load32 (s.bytes (ip.addrs 12)) (4 * (j + 13 - 13))
            ≡ load32 (s.bytes (ip.addrs 12)) (4 * j)
        at_j =
            let e : j + 13 - 13 ≡ j = omega arith in
            ap (λ i. load32 (s.bytes (ip.addrs 12)) (4 * i)) e

        positive : 0 < s.sb.size
        positive = let i = a.inside in omega (arith, i)
