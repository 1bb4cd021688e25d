-- ===== src/Fs/Changes.antt =====
-- Only the blocks that are logged change.
use yonix.Base.{
  ℕ, zero, suc, ◌+◌, ◌/◌, ◌≡◌, refl, sym, ap, ◌∙◌, Bool, true, false, Option, none, some, List, [],
  ◌∷◌, ◌++◌, append-nil, append_assoc, arith, Mem, ltb, ◌==◌, if◌then◌else◌,
}
use yonix.Fs.{
  Disk, Result, ok, panics, ◌>>=◌, bpb, bblock, put_block, set_bit, find_bit, take_block,
  balloc_from, balloc,
}
use yonix.Log.Replay.{mem}

-- The blocks `added` have been logged since `s`, and no other block has changed.
pub record Changes (s t : Disk) : Type 0 where
  pub added : List ℕ
  pub logs : t.logged ≡ s.logged ++ added
  pub kept : (b : ℕ) → mem b added ≡ false → t.bytes b ≡ s.bytes b

abbrev pub Tracks {ℓ} : {A : Type ℓ} → (A → Disk) → Disk → Result A → Type 0
Tracks f s (ok a) = Changes s (f a)
Tracks f s (panics t) = Changes s t

pub Changes-refl : (s : Disk) → Changes s s
Changes-refl s = record { added = []; logs = sym (append-nil s.logged); kept = λ b _. refl }

not_in :
    (b : ℕ) (xs ys : List ℕ) → mem b (xs ++ ys) ≡ false → (mem b xs ≡ false) × (mem b ys ≡ false)
not_in b [] ys h = (refl, h)
not_in b (x ∷ xs) ys h =
    let (p, q) = not_in b xs ys (ground (arith, h)) in (ground (arith, h, p), q)

pub Changes-trans : (s t u : Disk) → Changes s t → Changes t u → Changes s u
Changes-trans s t u c d = record {
  added = c.added ++ d.added;
  logs = d.logs ∙ ap (λ l. l ++ d.added) c.logs ∙ append_assoc s.logged c.added d.added;
  kept = λ b h. let (p, q) = not_in b c.added d.added h in d.kept b q ∙ c.kept b p;
}

pub put_block-Changes : (b : ℕ) (m : Mem) (s : Disk) → Changes s (put_block b m s)
put_block-Changes b m s = record {
  added = b ∷ [];
  logs = refl;
  kept = λ c h. let e : b == c ≡ false = ground (arith, h) in rw e refl;
}

pub Tracks-after :
    {A : Type 0} (f : A → Disk) (s t : Disk)
    → Changes s t
    → (r : Result A) → Tracks f t r
    → Tracks f s r
Tracks-after f s t c (ok a) h = Changes-trans s t (f a) c h
Tracks-after f s t c (panics u) h = Changes-trans s t u c h

pub bind-Tracks :
    {A B : Type 0} (f : A → Disk) (g : B → Disk) (s : Disk) (k : A → Result B)
    → ((a : A) → Tracks g (f a) (k a))
    → (r : Result A) → Tracks f s r
    → Tracks g s (r >>= k)
bind-Tracks f g s k h (ok a) c = Tracks-after g s (f a) c (k a) (h a)
bind-Tracks f g s k h (panics t) c = c

pub if-Tracks :
    {A : Type 0} (f : A → Disk) (s : Disk) (z : Bool) (r q : Result A)
    → Tracks f s r
    → Tracks f s q
    → Tracks f s (if z then r else q)
if-Tracks f s true r q h k = h
if-Tracks f s false r q h k = k

abbrev pub block_disk : ℕ × Disk → Disk
block_disk a = a.1

take_block-Changes : (b bi : ℕ) (s : Disk) → Changes s (take_block b bi s).1
take_block-Changes b bi s =
    let t = put_block (bblock s.sb b) (set_bit (s.bytes (bblock s.sb b)) bi) s in
    Changes-trans s t (put_block (b + bi) (λ i. 0) t)
      (put_block-Changes (bblock s.sb b) (set_bit (s.bytes (bblock s.sb b)) bi) s)
      (put_block-Changes (b + bi) (λ i. 0) t)

balloc_from-Tracks : (fuel b : ℕ) (s : Disk) → Tracks block_disk s (balloc_from fuel b s)
unfolding balloc_from
balloc_from-Tracks zero b s = Changes-refl s
balloc_from-Tracks (suc fuel) b s =
    if-Tracks block_disk s (ltb b s.sb.size) _ _
      (by_bit (balloc_from-Tracks fuel (b + bpb) s)
        (find_bit bpb 0 b s.sb.size (s.bytes (bblock s.sb b))))
      (Changes-refl s)
  where
    by_bit :
        Tracks block_disk s (balloc_from fuel (b + bpb) s)
        → (o : Option ℕ)
        → Tracks block_disk s
            (elim o [ none ↦ balloc_from fuel (b + bpb) s | some bi ↦ ok (take_block b bi s) ])
    by_bit h none = h
    by_bit h (some bi) = take_block-Changes b bi s

pub balloc-Tracks : (s : Disk) → Tracks block_disk s (balloc s)
unfolding balloc
balloc-Tracks s = balloc_from-Tracks (s.sb.size / bpb + 1) 0 s
