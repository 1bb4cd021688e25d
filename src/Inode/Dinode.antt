-- ===== src/Inode/Dinode.antt =====
-- The copy of an inode on the disk.
use yonix.Base.{
  ℕ, zero, suc, ◌+◌, ◌*◌, ◌^◌, ◌≤◌, ◌<◌, ◌≡◌, refl, sym, ap₂, ◌∙◌, subst, arith, ℕ_discrete, Mem,
}
use yonix.Words.{word, load32, store32, load32-store32}
use yonix.Fs.{ndirect}
use yonix.Inode.{Inode, load16, store16, store_addrs, store_dinode, load_dinode}

-- The words that are stored are loaded again, and what is in front of them is as it was.
store_addrs_apart :
    (k i : ℕ) (f : ℕ → ℕ) (a : ℕ) (m : Mem) (b : ℕ) → b < a + 4 * i → store_addrs k i f a m b ≡ m b
unfolding store_addrs
store_addrs_apart zero i f a m b h = refl
store_addrs_apart (suc k) i f a m b h =
    store_addrs_apart k (i + 1) f a (store32 m (a + 4 * i) (f i)) b (omega (arith, h))
    ∙ before m (a + 4 * i) (f i) b h
  where
    before : (m : Mem) (p w b : ℕ) → b < p → store32 m p w b ≡ m b
    before m p w b h = unfold store32 in ground (arith, h)

same_word : (m m' : Mem) (a : ℕ) → ((b : ℕ) → b < a + 4 → m b ≡ m' b) → load32 m a ≡ load32 m' a
unfolding load32
same_word m m' a h =
    let p = h a (omega arith) in
    let q = h (a + 1) (omega arith) in
    let r = h (a + 2) (omega arith) in let t = h (a + 3) (omega arith) in omega (arith, p, q, r, t)

load32-store_addrs :
    (k i : ℕ) (f : ℕ → ℕ) (a : ℕ) (m : Mem) (j : ℕ)
    → i ≤ j
    → j < i + k
    → f j < word
    → load32 (store_addrs k i f a m) (a + 4 * j) ≡ f j
unfolding store_addrs
load32-store_addrs zero i f a m j le lt small = absurd (omega (arith, le, lt))
load32-store_addrs (suc k) i f a m j le lt small = elim (ℕ_discrete i j) [
  | yes e ↦
      subst
        (λ n. load32 (store_addrs k (n + 1) f a (store32 m (a + 4 * n) (f n))) (a + 4 * j) ≡ f j)
        (sym e)
        (same_word _ (store32 m (a + 4 * j) (f j)) (a + 4 * j) (λ b h.
            store_addrs_apart k (j + 1) f a (store32 m (a + 4 * j) (f j)) b (omega (arith, h)))
          ∙ load32-store32 m (a + 4 * j) (f j) small)
  | no ne ↦
      load32-store_addrs k (i + 1) f a (store32 m (a + 4 * i) (f i)) j (omega (arith, le, ne))
        (omega (arith, lt)) small
]

-- The fields fit their widths on the disk.
pub record Fits (ip : Inode) : Type 0 where
  pub type : ip.type < 2 ^ 16
  pub major : ip.major < 2 ^ 16
  pub minor : ip.minor < 2 ^ 16
  pub nlink : ip.nlink < 2 ^ 16
  pub size : ip.size < word
  pub addrs : (i : ℕ) → i ≤ ndirect → ip.addrs i < word

-- The two inodes have the same fields on the disk.
pub record SameFile (ip jp : Inode) : Type 0 where
  pub type : ip.type ≡ jp.type
  pub major : ip.major ≡ jp.major
  pub minor : ip.minor ≡ jp.minor
  pub nlink : ip.nlink ≡ jp.nlink
  pub size : ip.size ≡ jp.size
  pub addrs : (i : ℕ) → i ≤ ndirect → ip.addrs i ≡ jp.addrs i

module _ (m : Mem) (a ty ma mi nl sz : ℕ) where
  abbrev stored : Mem
  stored =
      store32 (store16 (store16 (store16 (store16 m a ty) (a + 2) ma) (a + 4) mi) (a + 6) nl)
        (a + 8) sz

  type_lem : ty < 2 ^ 16 → load16 stored a ≡ ty
  unfolding store32
  type_lem h = ground (arith, h)

  major_lem : ma < 2 ^ 16 → load16 stored (a + 2) ≡ ma
  unfolding store32
  major_lem h = ground (arith, h)

  minor_lem : mi < 2 ^ 16 → load16 stored (a + 4) ≡ mi
  unfolding store32
  minor_lem h = ground (arith, h)

  nlink_lem : nl < 2 ^ 16 → load16 stored (a + 6) ≡ nl
  unfolding store32
  nlink_lem h = ground (arith, h)

-- What iupdate stores of an inode whose fields fit, ilock loads again, wherever it stands and whatever
-- inode it is loaded into: type, device numbers, links, size and all 13 addresses.
pub load_dinode-store_dinode :
    (ip jp : Inode) (a : ℕ) (m : Mem)
    → Fits ip
    → SameFile (load_dinode (store_dinode ip a m) a jp) ip
unfolding load_dinode store_dinode
load_dinode-store_dinode ip jp a m fits = record {
  type = halves a (omega arith) ∙ type_lem m a ip.type ip.major ip.minor ip.nlink ip.size fits.type;
  major =
      halves (a + 2) (omega arith)
      ∙ major_lem m a ip.type ip.major ip.minor ip.nlink ip.size fits.major;
  minor =
      halves (a + 4) (omega arith)
      ∙ minor_lem m a ip.type ip.major ip.minor ip.nlink ip.size fits.minor;
  nlink =
      halves (a + 6) (omega arith)
      ∙ nlink_lem m a ip.type ip.major ip.minor ip.nlink ip.size fits.nlink;
  size =
      same_word _ _ (a + 8) (λ b h. front b (omega (arith, h)))
      ∙ load32-store32 _ (a + 8) ip.size fits.size;
  addrs = λ i le.
      load32-store_addrs 13 0 ip.addrs (a + 12)
        (stored m a ip.type ip.major ip.minor ip.nlink ip.size) i (omega arith) (omega (arith, le))
        (fits.addrs i le);
}
  where
    image : Mem
    image = stored m a ip.type ip.major ip.minor ip.nlink ip.size

    front : (b : ℕ) → b < a + 12 → store_addrs 13 0 ip.addrs (a + 12) image b ≡ image b
    front b h = store_addrs_apart 13 0 ip.addrs (a + 12) image b (omega (arith, h))

    halves :
        (p : ℕ) → p < a + 7 → load16 (store_addrs 13 0 ip.addrs (a + 12) image) p ≡ load16 image p
    halves p h =
        ap₂ (λ x y. x + 256 * y) (front p (omega (arith, h))) (front (p + 1) (omega (arith, h)))
