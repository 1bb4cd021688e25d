-- ===== src/Icache/Ialloc.antt =====
-- ialloc: the inode number that it gives.
use yonix.Base.{
  ℕ, zero, suc, ◌+◌, ◌-◌, ◌*◌, ◌/◌, ◌%◌, ◌≤◌, ◌<◌, ◌≡◌, refl, sym, ap, ◌∙◌, subst, ◌≢◌, Bool, true,
  false, ◌&&◌, arith, ℕ_discrete, Mem, update, ltb, leb, ◌==◌, if◌then◌else◌, ==_refl,
}
use yonix.Fs.{Disk, Result, ok, panics, put_block}
use yonix.Inode.{iblock, ipb, load16}
use yonix.Icache.{
  Table, Got, got_inode, iget_panics, iget, clear_bytes, new_dinode, ialloc_from, Alloc, allocated,
  no_free_inode, no_entry, entered, ialloc_iget, ialloc,
}
use yonix.Icache.Unique.{Unique, IsGot}
use yonix.Icache.Get.{iget-IsGot}

-- Byte `o` of the copy of inode `n` on the disk, and its type; type 0 is a free inode.
abbrev pub dinode_byte : Disk → ℕ → ℕ → ℕ
dinode_byte s n o = s.bytes (iblock s.sb n) (n % ipb * 64 + o)

abbrev pub type_at : Disk → ℕ → ℕ
type_at s n = load16 (s.bytes (iblock s.sb n)) (n % ipb * 64)

-- Inode `n` is the first free one, from 1 on; in `t` it has the type and is else zero, and the other
-- inodes are as they were.
pub record Allocated (type : ℕ) (s : Disk) (n : ℕ) (t : Disk) : Type 0 where
  pub low : 1 ≤ n
  pub high : n < s.sb.ninodes
  pub was_free : type_at s n ≡ 0
  pub first_free : (k : ℕ) → 1 ≤ k → k < n → type_at s k ≢ 0
  pub type_now : type_at t n ≡ type % 65536
  pub zeroed : (o : ℕ) → 2 ≤ o → o < 64 → dinode_byte t n o ≡ 0
  pub kept : (k o : ℕ) → n ≢ k → o < 64 → dinode_byte t k o ≡ dinode_byte s k o
  pub elsewhere : (b : ℕ) → iblock s.sb n ≢ b → t.bytes b ≡ s.bytes b

-- What the loop gives: the first free inode, or a panic because there is none.
abbrev pub Picked : ℕ → Disk → Result (ℕ × Disk) → Type 0
Picked type s (ok (n, t)) = Allocated type s n t
Picked type s (panics t) = (t ≡ s) × ((k : ℕ) → 1 ≤ k → k < s.sb.ninodes → type_at s k ≢ 0)

-- What ialloc gives: an entry of the table for the first free inode, which it has marked; a panic before
-- any change because no inode is free; or the panic of iget, once the inode is marked.
abbrev pub IsAllocated : ℕ → ℕ → Table → Disk → Alloc → Type 0
IsAllocated dev type t s (allocated i t' s') =
    (n : ℕ) × Allocated type s n s' × IsGot dev n t (got_inode i t')
IsAllocated dev type t s (no_free_inode s') =
    (s' ≡ s) × ((k : ℕ) → 1 ≤ k → k < s.sb.ninodes → type_at s k ≢ 0)
IsAllocated dev type t s (no_entry s') = (n : ℕ) × Allocated type s n s' × IsGot dev n t iget_panics

clear_bytes_lem :
    (n a : ℕ) (m : Mem) (x : ℕ)
    → clear_bytes n a m x ≡ (if leb a x && ltb x (a + n) then 0 else m x)
clear_bytes_lem zero a m x = ground arith
clear_bytes_lem (suc n) a m x = clear_bytes_lem n (a + 1) (update m a 0) x ∙ ground arith

-- A byte of the block in which the new copy stands at `a`.
new_dinode_lem :
    (type a : ℕ) (m : Mem) (x : ℕ)
    → new_dinode type a m x ≡ (
        if a + 1 == x
        then type / 256 % 256
        else if a == x
        then type % 256
        else if leb a x && ltb x (a + 64)
        then 0
        else m x)
new_dinode_lem type a m x =
    ap (λ y. if a + 1 == x then type / 256 % 256 else if a == x then type % 256 else y)
      (clear_bytes_lem 64 a m x)

module _ (type : ℕ) (s : Disk) (n : ℕ) where
  abbrev b : ℕ
  b = iblock s.sb n

  abbrev a : ℕ
  a = n % ipb * 64

  abbrev t : Disk
  t = put_block b (new_dinode type a (s.bytes b)) s

  here : t.bytes b ≡ new_dinode type a (s.bytes b)
  here = rw (==_refl b) refl

  away : (c : ℕ) → b ≢ c → t.bytes c ≡ s.bytes c
  away c ne = let e : b == c ≡ false = ground (arith, ne) in rw e refl

  at_byte :
      (x : ℕ)
      → t.bytes b x ≡ (
          if a + 1 == x
          then type / 256 % 256
          else if a == x
          then type % 256
          else if leb a x && ltb x (a + 64)
          then 0
          else s.bytes b x)
  at_byte x = ap (λ (m : Mem). m x) here ∙ new_dinode_lem type a (s.bytes b) x

  new-Allocated :
      1 ≤ n
      → n < s.sb.ninodes
      → type_at s n ≡ 0
      → ((k : ℕ) → 1 ≤ k → k < n → type_at s k ≢ 0)
      → Allocated type s n t
  new-Allocated low high free first = record {
    low = low;
    high = high;
    was_free = free;
    first_free = first;
    type_now = joined (n % ipb * 64) type (s.bytes b) (t.bytes b) (at_byte a) (at_byte (a + 1));
    zeroed = λ o p q. at_byte (a + o) ∙ zeros (n % ipb * 64) o _ p q;
    kept = λ k o ne lt. elim (ℕ_discrete b (iblock s.sb k)) [
      | yes e ↦
          ap (λ c. t.bytes c (k % ipb * 64 + o)) (sym e)
          ∙ at_byte (k % ipb * 64 + o)
          ∙ others (n % ipb) (k % ipb) o _ (λ r. ne (omega (arith, e, r))) lt
          ∙ ap (λ c. s.bytes c (k % ipb * 64 + o)) e
      | no e ↦ ap (λ (m : Mem). m (k % ipb * 64 + o)) (away (iblock s.sb k) e)
    ];
    elsewhere = away;
  }
    where
      joined :
          (p ty : ℕ) (m m' : Mem)
          → m' p ≡ (
              if p + 1 == p
              then ty / 256 % 256
              else if p == p
              then ty % 256
              else if leb p p && ltb p (p + 64)
              then 0
              else m p)
          → m' (p + 1) ≡ (
              if p + 1 == p + 1
              then ty / 256 % 256
              else if p == p + 1
              then ty % 256
              else if leb p (p + 1) && ltb (p + 1) (p + 64)
              then 0
              else m (p + 1))
          → m' p + 256 * m' (p + 1) ≡ ty % 65536
      joined p ty m m' e f = ground (arith, e, f)

      zeros :
          (p o v : ℕ)
          → 2 ≤ o
          → o < 64
          → (if p + 1 == p + o
              then type / 256 % 256
              else if p == p + o
              then type % 256
              else if leb p (p + o) && ltb (p + o) (p + 64)
              then 0
              else v)
            ≡ 0
      zeros p o v h k = ground (arith, h, k)

      others :
          (p q o v : ℕ)
          → p ≢ q
          → o < 64
          → (if p * 64 + 1 == q * 64 + o
              then type / 256 % 256
              else if p * 64 == q * 64 + o
              then type % 256
              else if leb (p * 64) (q * 64 + o) && ltb (q * 64 + o) (p * 64 + 64)
              then 0
              else v)
            ≡ v
      others p q o v ne lt = ground (arith, ne, lt)

ialloc_from-Picked :
    (k n type : ℕ) (s : Disk)
    → 1 ≤ n
    → s.sb.ninodes ≡ n + k
    → ((j : ℕ) → 1 ≤ j → j < n → type_at s j ≢ 0)
    → Picked type s (ialloc_from k n type s)
unfolding ialloc_from
ialloc_from-Picked zero n type s low enough before =
    (refl, λ j p q. before j p (omega (arith, enough, q)))
ialloc_from-Picked (suc k) n type s low enough before =
    by_test
      (λ b. ialloc_from-Picked k (n + 1) type s (omega (arith, low)) (omega (arith, enough)) b)
      (type_at s n == 0) refl
  where
    zero_of : (n : ℕ) → n == 0 ≡ true → n ≡ 0
    zero_of n h = ground (arith, h)

    nonzero : (n : ℕ) → n == 0 ≡ false → n ≢ 0
    nonzero n h = ground (arith, h)

    by_test :
        (((j : ℕ) → 1 ≤ j → j < n + 1 → type_at s j ≢ 0)
          → Picked type s (ialloc_from k (n + 1) type s))
        → (z : Bool) → type_at s n == 0 ≡ z
        → Picked type s (
            if z
            then ok (
              n,
              put_block
                  (iblock s.sb n)
                  (new_dinode type (n % ipb * 64) (s.bytes (iblock s.sb n)))
                  s,
            )
            else ialloc_from k (n + 1) type s)
    by_test go true e = new-Allocated type s n low (omega (arith, enough)) (zero_of _ e) before
    by_test go false e = go λ j p q. elim (ℕ_discrete j n) [
      | yes r ↦ subst (λ k. type_at s k ≢ 0) (sym r) (nonzero _ e)
      | no r ↦ before j p (omega (arith, q, r))
    ]

-- On a disk with at least one inode number, and a table with no inode in two entries, where
-- log_write does not panic, ialloc takes the first free inode from 1 on: its copy on the disk has
-- the type then, in 16 bits, and is else zero; the copies of the others and all other blocks are
-- as they were. It returns the entry that iget gives for that inode. It panics where no inode is
-- free, and has then changed nothing; or, with the inode already marked on the disk, where iget
-- finds no entry for it.
pub ialloc-IsAllocated :
    (dev type : ℕ) (t : Table) (s : Disk)
    → 1 ≤ s.sb.ninodes
    → Unique t
    → IsAllocated dev type t s (ialloc dev type t s)
unfolding ialloc
ialloc-IsAllocated dev type t s some_inode u = picked (ialloc_from (s.sb.ninodes - 1) 1 type s) (
    ialloc_from-Picked (s.sb.ninodes - 1) 1 type s (omega arith) (omega (arith, some_inode))
      (λ j p q. absurd (omega (arith, p, q))))
  where
    got :
        (n : ℕ) (s' : Disk)
        → Allocated type s n s'
        → (g : Got) → IsGot dev n t g
        → IsAllocated dev type t s (entered s' g)
    got n s' a (got_inode i t') h = (n, a, h)
    got n s' a iget_panics h = (n, a, h)

    picked :
        (r : Result (ℕ × Disk)) → Picked type s r → IsAllocated dev type t s (ialloc_iget dev t r)
    picked (ok (n, s')) a = got n s' a (iget dev n t) (iget-IsGot dev n t u)
    picked (panics s') h = h
