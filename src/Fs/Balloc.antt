-- ===== src/Fs/Balloc.antt =====
-- Which block balloc gives, and what it changes.
use yonix.Base.{
  ℕ, zero, suc, ◌+◌, ◌-◌, ◌*◌, ◌/◌, ◌%◌, ◌<◌, ◌≡◌, refl, sym, ap, ap₂, ◌∙◌, subst, ◌≢◌, inl, inr,
  Bool, true, false, Option, none, some, [], ◌∷◌, ◌++◌, append_assoc, arith, dec_lt, ℕ_discrete,
  Mem, ltb, ◌==◌, if◌then◌else◌, ==_refl, Bool-cases,
}
use yonix.Fs.{
  Disk, Result, ok, panics, put_block, bzero, bblock, bpb, bit_clear, set_bit, find_bit, take_block,
  balloc_from, balloc,
}
use yonix.Fs.Bits.{Bytes, set_bit-Bytes, bit_clear-set_bit}
use yonix.Fs.Bitmap.{is_free, MapOk, IsFull, find_bit-some, find_bit-none}

-- Block `x` is the first free block of `s`; in `t` it is in use and zero, and all else is as it was
-- but for its bit in the map.
pub record Allocated (s : Disk) (x : ℕ) (t : Disk) : Type 0 where
  pub inside : x < s.sb.size
  pub was_free : is_free s x ≡ true
  pub first_free : (y : ℕ) → y < x → is_free s y ≡ false
  pub zeroed : (i : ℕ) → t.bytes x i ≡ 0
  pub kept : (b : ℕ) → b ≢ x → b ≢ bblock s.sb x → t.bytes b ≡ s.bytes b
  pub same_sb : t.sb ≡ s.sb
  pub free_now : (y : ℕ) → y < s.sb.size → is_free t y ≡ (if x == y then false else is_free s y)
  pub logs : t.logged ≡ s.logged ++ bblock s.sb x ∷ x ∷ []
  pub map_ok : MapOk t

-- What balloc gives: the first free block, or it panics because there is none.
abbrev pub Balloc : Disk → Result (ℕ × Disk) → Type 0
Balloc s (ok (x, t)) = Allocated s x t
Balloc s (panics t) = (t ≡ s) × IsFull s

module _ (s : Disk) (good : MapOk s) (x : ℕ) (inside : x < s.sb.size)
    (free : is_free s x ≡ true) where
  abbrev mb : ℕ
  mb = bblock s.sb x

  abbrev marked : Mem
  marked = set_bit (s.bytes mb) (x % bpb)

  abbrev taken : Disk
  taken = bzero x (put_block mb marked s)

  bytes_x : taken.bytes x ≡ (λ i. 0)
  bytes_x = rw (==_refl x) refl

  bytes_else : (b : ℕ) → b ≢ x → taken.bytes b ≡ (if mb == b then marked else s.bytes b)
  bytes_else b ne = let z : x == b ≡ false = ground (arith, ne) in rw z refl

  bytes_kept : (b : ℕ) → b ≢ x → b ≢ mb → taken.bytes b ≡ s.bytes b
  bytes_kept b ne ne' =
      let z : mb == b ≡ false = ground (arith, ne') in bytes_else b ne ∙ (rw z refl)

  not_map : (y : ℕ) → y < s.sb.size → bblock s.sb y ≢ x
  not_map y lt e =
      let used = good.map_used y lt (subst (λ b. b < s.sb.size) (sym e) inside) in
      let used' = subst (λ b. is_free s b ≡ false) e used in absurd (ground (arith, used', free))

  free_in : (y : ℕ) → y < s.sb.size → is_free taken y ≡ (if x == y then false else is_free s y)
  unfolding is_free
  free_in y lt = elim (Bool-cases (mb == bblock s.sb y)) [
    | inl e ↦
        let same : mb ≡ bblock s.sb y = ground (arith, e) in
        let block : taken.bytes (bblock s.sb y) ≡ marked =
          bytes_else (bblock s.sb y) (not_map y lt) ∙ (rw e refl) in
        ap (λ m. bit_clear m (y % bpb)) block
        ∙ bit_clear-set_bit (s.bytes mb) (x % bpb) (y % bpb) (good.all_bytes mb)
        ∙ ap₂ (λ t b. if t then false else bit_clear (s.bytes b) (y % bpb))
            (same_index x y s.sb.bmapstart same) same
    | inr e ↦
        let block : taken.bytes (bblock s.sb y) ≡ s.bytes (bblock s.sb y) =
          bytes_else (bblock s.sb y) (not_map y lt) ∙ (rw e refl) in
        let ne : x == y ≡ false = apart x y s.sb.bmapstart e in
        ap (λ m. bit_clear m (y % bpb)) block ∙ (rw ne refl)
  ]
    where
      same_index : (x y c : ℕ) → x / 4096 + c ≡ y / 4096 + c → (x % 4096 == y % 4096) ≡ (x == y)
      same_index x y c h = ground arith

      apart : (x y c : ℕ) → x / 4096 + c == y / 4096 + c ≡ false → x == y ≡ false
      apart x y c h = ground arith

  free_less : (y : ℕ) → y < s.sb.size → is_free s y ≡ false → is_free taken y ≡ false
  free_less y lt e = free_in y lt ∙ by_test (x == y)
    where
      by_test : (b : Bool) → (if b then false else is_free s y) ≡ false
      by_test true = refl
      by_test false = e

  bytes_ok : (b : ℕ) → Bytes (taken.bytes b)
  bytes_ok b = elim (ℕ_discrete b x) [
    | yes e ↦
        subst (λ c. Bytes (taken.bytes c)) (sym e) (subst Bytes (sym bytes_x) (λ i. omega arith))
    | no ne ↦ elim (ℕ_discrete b mb) [
      | yes e ↦
          let z : mb == b ≡ true = ground (arith, e) in
          subst Bytes (sym (bytes_else b ne ∙ (rw z refl)))
            (set_bit-Bytes (s.bytes mb) (x % bpb) (good.all_bytes mb))
      | no ne' ↦ subst Bytes (sym (bytes_kept b ne ne')) (good.all_bytes b)
    ]
  ]

  taken-MapOk : MapOk taken
  taken-MapOk = record {
    all_bytes = bytes_ok;
    boot_used = free_less 0 (omega (arith, inside)) good.boot_used;
    map_used = λ y lt lt'. free_less (bblock s.sb y) lt' (good.map_used y lt lt');
  }

  pub taken-Allocated : ((y : ℕ) → y < x → is_free s y ≡ false) → Allocated s x taken
  taken-Allocated before = record {
    inside = inside;
    was_free = free;
    first_free = before;
    zeroed = λ i. ap (λ (m : Mem). m i) bytes_x;
    kept = bytes_kept;
    same_sb = refl;
    free_now = free_in;
    logs = append_assoc s.logged (mb ∷ []) (x ∷ []);
    map_ok = taken-MapOk;
  }

-- The numbers of the loop, `b` being a multiple of BPB.
take_block-eq :
    (b bi : ℕ) (s : Disk)
    → b % bpb ≡ 0
    → bi < bpb
    → take_block b bi s ≡ (
      b + bi,
      bzero (b + bi) (
          put_block
            (bblock s.sb (b + bi))
            (set_bit (s.bytes (bblock s.sb (b + bi))) ((b + bi) % bpb))
            s),
    )
take_block-eq b bi s h lt =
    let e : bblock s.sb b ≡ bblock s.sb (b + bi) = omega (arith, h, lt) in
    let f : bi ≡ (b + bi) % bpb = omega (arith, h, lt) in
    ap₂ (λ c i. (b + bi, bzero (b + bi) (put_block c (set_bit (s.bytes c) i) s))) e f

in_map :
    (b i : ℕ) (s : Disk)
    → b % bpb ≡ 0
    → i < bpb
    → is_free s (b + i) ≡ bit_clear (s.bytes (bblock s.sb b)) i
unfolding is_free
in_map b i s h lt =
    let e : bblock s.sb (b + i) ≡ bblock s.sb b = omega (arith, h, lt) in
    let f : (b + i) % bpb ≡ i = omega (arith, h, lt) in ap₂ (λ c j. bit_clear (s.bytes c) j) e f

loop_Balloc :
    (b : ℕ) (s : Disk) (rest : Result (ℕ × Disk))
    → MapOk s
    → b % bpb ≡ 0
    → ((y : ℕ) → y < b → y < s.sb.size → is_free s y ≡ false)
    → (((y : ℕ) → y < b + bpb → y < s.sb.size → is_free s y ≡ false) → Balloc s rest)
    → (o : Option ℕ) → find_bit bpb 0 b s.sb.size (s.bytes (bblock s.sb b)) ≡ o
    → Balloc s (elim o [ none ↦ rest | some bi ↦ ok (take_block b bi s) ])
loop_Balloc b s rest good h before go none e = go λ y lt inside. elim (dec_lt y b) [
  | yes p ↦ before y p inside
  | no p ↦
      let q : b + (y - b) ≡ y = omega arith in
      subst (λ z. is_free s z ≡ false) q
        (in_map b (y - b) s h (omega arith)
          ∙ find_bit-none bpb 0 b s.sb.size (s.bytes (bblock s.sb b)) e (y - b) (omega arith)
              (omega arith) (omega arith))
]
loop_Balloc b s rest good h before go (some bi) e =
    let (low, lt, inside, free, first) =
      find_bit-some bpb 0 b s.sb.size (s.bytes (bblock s.sb b)) bi e in
    let is : is_free s (b + bi) ≡ true = in_map b bi s h (omega (arith, lt)) ∙ free in
    subst (λ r. Balloc s (ok r)) (sym (take_block-eq b bi s h (omega (arith, lt))))
      (taken-Allocated s good (b + bi) inside is λ y p. elim (dec_lt y b) [
        | yes q ↦ before y q (omega (arith, inside, p))
        | no q ↦
            let z : b + (y - b) ≡ y = omega arith in
            subst (λ w. is_free s w ≡ false) z
              (in_map b (y - b) s h (omega (arith, lt))
                ∙ first (y - b) (omega arith) (omega (arith, p)))
      ])

balloc_from-Balloc :
    (fuel b : ℕ) (s : Disk)
    → MapOk s
    → b % bpb ≡ 0
    → s.sb.size < b + fuel * bpb
    → ((y : ℕ) → y < b → y < s.sb.size → is_free s y ≡ false)
    → Balloc s (balloc_from fuel b s)
unfolding balloc_from
balloc_from-Balloc zero b s good h enough before =
    (refl, λ y inside. before y (omega (arith, enough)) inside)
balloc_from-Balloc (suc fuel) b s good h enough before =
    by_size
      (λ all.
        balloc_from-Balloc fuel (b + bpb) s good (omega (arith, h)) (omega (arith, enough)) all)
      (ltb b s.sb.size) refl
  where
    by_size :
        (((y : ℕ) → y < b + bpb → y < s.sb.size → is_free s y ≡ false)
          → Balloc s (balloc_from fuel (b + bpb) s))
        → (z : Bool) → ltb b s.sb.size ≡ z
        → Balloc s (
            if z
            then elim (find_bit bpb 0 b s.sb.size (s.bytes (bblock s.sb b)))
                as (λ o. Result (ℕ × Disk)) [
                  | none ↦ balloc_from fuel (b + bpb) s
                  | some bi ↦ ok (take_block b bi s)
                ]
            else panics s)
    by_size go false e = (refl, λ y inside. before y (ground (arith, e, inside)) inside)
    by_size go true e =
        loop_Balloc b s (balloc_from fuel (b + bpb) s) good h before go
          (find_bit bpb 0 b s.sb.size (s.bytes (bblock s.sb b))) refl

-- balloc gives the first free block: it is in use and zero then, its bit in the map and the log are
-- all that changes besides, and the map stays well formed. It panics only if no block is free, and
-- then has changed nothing.
pub balloc-Balloc : (s : Disk) → MapOk s → Balloc s (balloc s)
unfolding balloc
balloc-Balloc s good =
    balloc_from-Balloc (s.sb.size / bpb + 1) 0 s good (omega arith) (omega arith)
      (λ y lt inside. absurd (omega arith))
