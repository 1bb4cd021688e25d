-- ===== src/Pipe/Stream.antt =====
-- pipewrite and piperead of pipe.c as operations on the queue of bytes.
use yonix.Base.{
  ℕ, zero, suc, ◌+◌, ◌%◌, ◌<◌, min, ◌≡◌, refl, sym, ap, ◌∙◌, subst, ◌⊎◌, inl, inr, Bool, true,
  false, not, ◌||◌, List, [], ◌∷◌, ◌++◌, append-nil, append_assoc, arith, if◌then◌else◌, Bool-cases,
  length, get_or, take,
}
use yonix.Pipe.{
  Pipe, pipesize, add32, put, is_full, is_empty, WriteOutcome, wrote, write_failed, write_sleeps,
  pipewrite_from, pipewrite, ReadOutcome, got, read_failed, read_sleeps, drain, piperead,
}
use yonix.Pipe.Ring.{
  count, window, contents, IsValid, put-IsValid, contents-put, is_full-eq, is_empty-eq,
}

-- What a call of the loop has done with the bytes `xs`, the first of which has index `i`.
abbrev pub Written : Bool → Pipe → List ℕ → ℕ → WriteOutcome → Type 0
Written killed p xs i (wrote n q) =
    (n ≡ i + length xs) × (contents q ≡ contents p ++ xs) × IsValid q
Written killed p xs i (write_failed q) =
    (k : ℕ) × (k < length xs)
    × (contents q ≡ contents p ++ take k xs)
    × (count q ≡ pipesize)
    × ((p.readopen ≡ false) ⊎ (killed ≡ true))
    × IsValid q
Written killed p xs i (write_sleeps j q) =
    (k : ℕ) × (j ≡ i + k)
    × (k < length xs)
    × (contents q ≡ contents p ++ take k xs)
    × (count q ≡ pipesize)
    × ((p.readopen ≡ true) × (killed ≡ false))
    × IsValid q

readopen-put : (p : Pipe) (x : ℕ) → (put p x).readopen ≡ p.readopen
unfolding put
readopen-put p x = refl

shift : (a b c l : List ℕ) (x : ℕ) → b ≡ a ++ (x ∷ []) → c ≡ b ++ l → c ≡ a ++ (x ∷ l)
shift a b c l x e e' = e' ∙ ap (λ y. y ++ l) e ∙ append_assoc a (x ∷ []) l

Written-cons :
    (killed : Bool) (p : Pipe) (x : ℕ) (xs : List ℕ) (i : ℕ) (o : WriteOutcome)
    → contents (put p x) ≡ contents p ++ (x ∷ [])
    → Written killed (put p x) xs (i + 1) o
    → Written killed p (x ∷ xs) i o
Written-cons killed p x xs i (wrote n q) e w =
    (omega (arith, w.0), shift (contents p) (contents (put p x)) (contents q) xs x e w.1, w.2)
Written-cons killed p x xs i (write_failed q) e (k, lt, c, f, r, v) = (
  suc k,
  omega arith,
  shift (contents p) (contents (put p x)) (contents q) (take k xs) x e c,
  f,
  subst (λ b. (b ≡ false) ⊎ (killed ≡ true)) (readopen-put p x) r,
  v,
)
Written-cons killed p x xs i (write_sleeps j q) e (k, ej, lt, c, f, r, v) = (
  suc k,
  omega arith,
  omega arith,
  shift (contents p) (contents (put p x)) (contents q) (take k xs) x e c,
  f,
  (sym (readopen-put p x) ∙ r.0, r.1),
  v,
)

pipewrite_from-more :
    (killed : Bool) (p : Pipe) (x : ℕ) (xs : List ℕ) (i : ℕ)
    → is_full p ≡ false
    → pipewrite_from killed p (x ∷ xs) i ≡ pipewrite_from killed (put p x) xs (i + 1)
unfolding pipewrite_from
pipewrite_from-more killed p x xs i h = rw h

pipewrite_from-full :
    (killed : Bool) (p : Pipe) (x : ℕ) (xs : List ℕ) (i : ℕ)
    → is_full p ≡ true
    → pipewrite_from killed p (x ∷ xs) i
      ≡ (if not p.readopen || killed then write_failed p else write_sleeps i p)
unfolding pipewrite_from
pipewrite_from-full killed p x xs i h = rw h

full-Written :
    (killed b : Bool) (p : Pipe) (x : ℕ) (xs : List ℕ) (i : ℕ)
    → b ≡ p.readopen
    → count p ≡ pipesize
    → IsValid p
    → Written killed p (x ∷ xs) i (if not b || killed then write_failed p else write_sleeps i p)
full-Written true true p x xs i e f v =
    (0, omega arith, sym (append-nil (contents p)), f, inr refl, v)
full-Written false true p x xs i e f v =
    (0, omega arith, omega arith, sym (append-nil (contents p)), f, (sym e, refl), v)
full-Written killed false p x xs i e f v =
    (0, omega arith, sym (append-nil (contents p)), f, inl (sym e), v)

pub pipewrite_from-Written :
    (killed : Bool) (p : Pipe) (xs : List ℕ) (i : ℕ)
    → IsValid p
    → Written killed p xs i (pipewrite_from killed p xs i)
unfolding pipewrite_from
pipewrite_from-Written killed p [] i v = (omega arith, sym (append-nil (contents p)), v)
pipewrite_from-Written killed p (x ∷ xs) i v = elim (Bool-cases (is_full p)) [
  | inl full ↦
      subst (Written killed p (x ∷ xs) i) (sym (pipewrite_from-full killed p x xs i full))
        (full-Written killed p.readopen p x xs i refl (ground (arith, is_full-eq v)) v)
  | inr room ↦
      subst (Written killed p (x ∷ xs) i) (sym (pipewrite_from-more killed p x xs i room)) (
        Written-cons killed p x xs i (pipewrite_from killed (put p x) xs (i + 1))
          (contents-put x v room)
          (pipewrite_from-Written killed (put p x) xs (i + 1) (put-IsValid x v room)))
]

-- `pipewrite` on a valid pipe keeps the invariant and appends a prefix of the bytes to the pipe's
-- contents, in order. All of them, and their number is returned, unless the pipe fills up on the
-- way: it then holds PIPESIZE bytes, and the call fails if the read end is closed or the caller is
-- killed, and otherwise sleeps, having noted how many bytes it has written.
pub pipewrite-Written :
    (killed : Bool) (p : Pipe) (xs : List ℕ)
    → IsValid p
    → Written killed p xs 0 (pipewrite killed p xs)
unfolding pipewrite
pipewrite-Written killed p xs v = pipewrite_from-Written killed p xs 0 v

module _ {p : Pipe} (v : IsValid p) (some_left : is_empty p ≡ false) where
  abbrev rest : Pipe
  rest = record p { nread = add32 p.nread 1 }

  count-rest : count p ≡ suc (count rest)
  count-rest = ground arith

  rest-IsValid : IsValid rest
  rest-IsValid = record {
    storage = v.storage;
    nread_in = omega arith;
    nwrite_in = v.nwrite_in;
    bounded = omega (arith, count-rest, v.bounded);
  }

  contents-rest : contents p ≡ get_or p.bytes (p.nread % pipesize) 0 ∷ contents rest
  contents-rest = ap (window p.bytes p.nread) count-rest

record Drained (p : Pipe) (n : ℕ) (o : List ℕ × Pipe) : Type 0 where
  fifo : o.0 ++ contents o.1 ≡ contents p
  number : length o.0 ≡ min n (count p)
  valid : IsValid o.1

drain-some :
    (p : Pipe) (n : ℕ)
    → is_empty p ≡ false
    → drain p (suc n) ≡ (
        let (xs, q) = drain (record p { nread = add32 p.nread 1 }) n in
        (get_or p.bytes (p.nread % pipesize) 0 ∷ xs, q))
unfolding drain
drain-some p n h = rw h

drain-none : (p : Pipe) (n : ℕ) → is_empty p ≡ true → drain p (suc n) ≡ ([], p)
unfolding drain
drain-none p n h = rw h

drain-Drained : (p : Pipe) (n : ℕ) → IsValid p → Drained p n (drain p n)
drain-Drained p zero v = record {
  fifo = unfold drain in refl;
  number = unfold drain in omega arith;
  valid = unfold drain in v;
}
drain-Drained p (suc n) v = elim (Bool-cases (is_empty p)) [
  | inl none_left ↦
      subst (Drained p (suc n)) (sym (drain-none p n none_left))
        (record { fifo = refl; number = ground (arith, is_empty-eq v); valid = v })
  | inr some_left ↦
      let ih = drain-Drained (rest v some_left) n (rest-IsValid v some_left) in
      subst (Drained p (suc n)) (sym (drain-some p n some_left)) (record {
        fifo =
            ap (λ l. get_or p.bytes (p.nread % pipesize) 0 ∷ l) ih.fifo
            ∙ sym (contents-rest v some_left);
        number = omega (arith, ih.number, count-rest v some_left);
        valid = ih.valid;
      })
]

-- What a read of `n` bytes gives.
abbrev pub Taken : Bool → Pipe → ℕ → ReadOutcome → Type 0
Taken killed p n (got xs q) =
    (xs ++ contents q ≡ contents p)
    × (length xs ≡ min n (count p))
    × IsValid q
    × ((0 < count p) ⊎ (p.writeopen ≡ false))
Taken killed p n read_failed = (count p ≡ 0) × (p.writeopen ≡ true) × (killed ≡ true)
Taken killed p n read_sleeps = (count p ≡ 0) × (p.writeopen ≡ true) × (killed ≡ false)

by_state :
    (killed : Bool) (p : Pipe) (n : ℕ)
    → IsValid p
    → (open_end : Bool) → open_end ≡ p.writeopen
    → (is_empty p ≡ true) ⊎ (is_empty p ≡ false)
    → Drained p n (drain p n)
    → Taken killed p n (piperead killed p n)
unfolding piperead
by_state true p n v true e (inl h) d = rw (h, ← e) (ground (arith, is_empty-eq v))
by_state false p n v true e (inl h) d = rw (h, ← e) (ground (arith, is_empty-eq v))
by_state killed p n v false e (inl h) d = simp (h, ← e) (d.fifo, d.number, d.valid, inr refl)
by_state killed p n v open_end e (inr h) d =
    rw h (d.fifo, d.number, d.valid, inl (ground (arith, is_empty-eq v)))

-- `piperead` on a valid pipe keeps the invariant and takes the oldest bytes off the pipe, in order:
-- as many as there are, up to `n`. It waits only on an empty pipe whose write end is open, where it
-- sleeps, or fails if the caller is killed; on an empty pipe with the write end closed it returns
-- no byte.
pub piperead-Taken :
    (killed : Bool) (p : Pipe) (n : ℕ) → IsValid p → Taken killed p n (piperead killed p n)
piperead-Taken killed p n v =
    by_state killed p n v p.writeopen refl (Bool-cases (is_empty p)) (drain-Drained p n v)
