-- ===== src/Pipe/Ring.antt =====
-- The ring of pipe.c holds a queue of bytes.
use yonix.Base.{
  ℕ, zero, suc, ◌+◌, ◌-◌, ◌%◌, ◌^◌, ◌≤◌, ◌<◌, ◌≡◌, refl, ap₂, ◌∙◌, false, ◌==◌, List, [], ◌∷◌, ◌++◌,
  arith, length, get_or, set, length-set, get_or-set_self, get_or-set_ne,
}
use yonix.Pipe.{Pipe, pipesize, add32, pipe_init, put, is_full, is_empty}

-- The `n` bytes from counter `r` on.
abbrev pub window : List ℕ → ℕ → ℕ → List ℕ
window b r zero = []
window b r (suc n) = get_or b (r % pipesize) 0 ∷ window b (add32 r 1) n

-- The number of bytes in the pipe, `nwrite - nread` as a uint.
abbrev pub count : Pipe → ℕ
count p = (p.nwrite + 2 ^ 32 - p.nread) % 2 ^ 32

abbrev pub contents : Pipe → List ℕ
contents p = window p.bytes p.nread (count p)

pub record IsValid (p : Pipe) : Type 0 where
  pub storage : length p.bytes ≡ pipesize
  pub nread_in : p.nread < 2 ^ 32
  pub nwrite_in : p.nwrite < 2 ^ 32
  pub bounded : count p ≤ pipesize

pub length-window : (b : List ℕ) (r n : ℕ) → length (window b r n) ≡ n
length-window b r zero = refl
length-window b r (suc n) = omega (arith, length-window b (add32 r 1) n)

pub window-set :
    (b : List ℕ) (r n w x : ℕ)
    → length b ≡ pipesize
    → n < pipesize
    → r < 2 ^ 32
    → w ≡ add32 r n
    → window (set b (w % pipesize) x) r (suc n) ≡ window b r n ++ (x ∷ [])
window-set b r zero w x hb hn hr e = ground (arith, get_or-set_self b (r % pipesize) x 0)
window-set b r (suc n) w x hb hn hr e =
    ap₂ ◌∷◌ (get_or-set_ne b (w % pipesize) (r % pipesize) x 0 (omega arith))
      (window-set b (add32 r 1) n w x hb (omega arith) (omega arith) (omega arith))

-- The test of `pipewrite` holds exactly when the pipe holds PIPESIZE bytes.
pub is_full-eq : {p : Pipe} → IsValid p → is_full p ≡ (count p == pipesize)
is_full-eq v = ground arith

pub is_empty-eq : {p : Pipe} → IsValid p → is_empty p ≡ (count p == 0)
is_empty-eq v = ground arith

pub count-put : {p : Pipe} (x : ℕ) → IsValid p → is_full p ≡ false → count (put p x) ≡ suc (count p)
unfolding put
count-put x v h = ground arith

pub put-IsValid : {p : Pipe} (x : ℕ) → IsValid p → is_full p ≡ false → IsValid (put p x)
unfolding put
put-IsValid {p} x v h = record {
  storage = length-set p.bytes (p.nwrite % pipesize) x ∙ v.storage;
  nread_in = v.nread_in;
  nwrite_in = omega arith;
  bounded = ground arith;
}

-- Storing a byte in a pipe that is not full appends it to the contents.
pub contents-put :
    {p : Pipe} (x : ℕ) → IsValid p → is_full p ≡ false → contents (put p x) ≡ contents p ++ (x ∷ [])
contents-put {p} x v h = rw (count-put x v h) (appended p x v h)
  where
    appended :
        (p : Pipe) (x : ℕ)
        → IsValid p
        → is_full p ≡ false
        → window (put p x).bytes (put p x).nread (suc (count p)) ≡ contents p ++ (x ∷ [])
    appended p x v h =
        unfold put in
        window-set p.bytes p.nread (count p) p.nwrite x v.storage (ground arith) v.nread_in
          (omega arith)

pub pipe_init-IsValid :
    (page : List ℕ)
    → length page ≡ pipesize
    → IsValid (pipe_init page) × (contents (pipe_init page) ≡ [])
unfolding pipe_init
pipe_init-IsValid page h = (omega arith, refl)
