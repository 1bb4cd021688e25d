-- ===== src/Log/Crash/Head.antt =====
-- The header block of the log: what write_head stores is what read_head loads.
use yonix.Base.{
  ℕ, zero, suc, ◌+◌, ◌-◌, ◌≤◌, ◌<◌, ◌≡◌, refl, ap₂, ◌∙◌, ◌&&◌, List, [], ◌∷◌, arith, ltb, leb, ◌==◌,
  if◌then◌else◌, length, get_or, set, take, length-set, get_or-set_self, get_or-set_ne,
}
use yonix.Log.{Block, Store, Log, logged, fill_head, head_block, load_head, read_head}

get_or-cons :
    (b : ℕ) (bs : List ℕ) (i : ℕ)
    → get_or (b ∷ bs) i 0 ≡ (if i == 0 then b else get_or bs (i - 1) 0)
get_or-cons b bs zero = refl
get_or-cons b bs (suc i) = ground arith

fill_head-at :
    (i : ℕ) (bs : List ℕ) (w : Block) (x : ℕ)
    → i + length bs < length w
    → get_or (fill_head i bs w) x 0
      ≡ (if ltb i x && leb x (i + length bs) then get_or bs (x - i - 1) 0 else get_or w x 0)
unfolding fill_head
fill_head-at i [] w x h = ground arith
fill_head-at i (b ∷ bs) w x h = ground (
  arith,
  fill_head-at (i + 1) bs (set w (i + 1) b) x,
  length-set w (i + 1) b,
  get_or-set_self w (i + 1) b 0,
  get_or-set_ne w (i + 1) x b 0,
  get_or-cons b bs (x - i - 1),
)

length-load_head : (k i : ℕ) (w : Block) (bs : List ℕ) → length (load_head k i w bs) ≡ length bs
unfolding load_head
length-load_head zero i w bs = refl
length-load_head (suc k) i w bs =
    length-load_head k (i + 1) w (set bs i (get_or w (i + 1) 0))
    ∙ length-set bs i (get_or w (i + 1) 0)

load_head-at :
    (k i : ℕ) (w : Block) (bs : List ℕ) (x : ℕ)
    → i + k ≤ length bs
    → get_or (load_head k i w bs) x 0
      ≡ (if leb i x && ltb x (i + k) then get_or w (x + 1) 0 else get_or bs x 0)
unfolding load_head
load_head-at zero i w bs x h = ground arith
load_head-at (suc k) i w bs x h = ground (
  arith,
  load_head-at k (i + 1) w (set bs i (get_or w (i + 1) 0)) x,
  length-set bs i (get_or w (i + 1) 0),
  get_or-set_self bs i (get_or w (i + 1) 0) 0,
  get_or-set_ne bs i x (get_or w (i + 1) 0) 0,
)

take_ext :
    (xs ys : List ℕ) (n : ℕ)
    → n ≤ length xs
    → n ≡ length ys
    → ((j : ℕ) → j < n → get_or xs j 0 ≡ get_or ys j 0)
    → take n xs ≡ ys
take_ext xs [] zero h e p = refl
take_ext xs (y ∷ ys) zero h e p = absurd (omega arith)
take_ext xs [] (suc n) h e p = absurd (omega arith)
take_ext [] (y ∷ ys) (suc n) h e p = absurd (omega arith)
take_ext (x ∷ xs) (y ∷ ys) (suc n) h e p =
    ap₂ ◌∷◌ (p 0 (omega arith))
      (take_ext xs ys n (omega arith) (omega arith) (λ j lt. p (suc j) (omega arith)))

-- The header `w` lists the blocks `bs`.
pub record HeadOf (bs : List ℕ) (w : Block) : Type 0 where
  pub count : get_or w 0 0 ≡ length bs
  pub entries : (j : ℕ) → j < length bs → get_or w (j + 1) 0 ≡ get_or bs j 0

pub HeadOf-head_block :
    (l : Log) (w : Block)
    → l.n ≡ length (logged l)
    → l.n < length w
    → HeadOf (logged l) (head_block l w)
HeadOf-head_block l w e h = record {
  count = ground (
    arith,
    length-set w 0 l.n,
    fill_head-at 0 (logged l) (set w 0 l.n) 0,
    get_or-set_self w 0 l.n 0,
  );
  entries =
      λ j lt. ground (arith, length-set w 0 l.n, fill_head-at 0 (logged l) (set w 0 l.n) (j + 1));
}

pub read_head-HeadOf :
    (l : Log) (s : Store) (bs : List ℕ)
    → HeadOf bs (s.cached l.start)
    → length bs ≤ length l.block
    → ((read_head l s).n ≡ length bs) × (logged (read_head l s) ≡ bs)
unfolding read_head
read_head-HeadOf l s bs h room = (
  h.count,
  take_ext (load_head m 0 w l.block) bs m (omega (arith, length-load_head m 0 w l.block, h.count))
      h.count entry,
)
  where
    w : Block
    w = s.cached l.start

    m : ℕ
    m = get_or w 0 0

    entry : (j : ℕ) → j < m → get_or (load_head m 0 w l.block) j 0 ≡ get_or bs j 0
    entry j lt = ground (arith, load_head-at m 0 w l.block j, h.entries j, h.count)
