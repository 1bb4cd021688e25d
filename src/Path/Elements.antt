-- ===== src/Path/Elements.antt =====
-- skipelem takes the elements of a path one by one.
use yonix.Base.{
  ℕ, zero, suc, ◌-◌, ◌≤◌, ◌<◌, ◌≡◌, refl, sym, ap, ◌∙◌, subst, Bool, true, false, Option, none,
  some, List, [], ◌∷◌, arith, Mem, update, leb, ◌==◌, if◌then◌else◌, ==_refl, length, get_or, take,
}
use yonix.Inode.{put_bytes}
use yonix.Inode.Overwrite.{put_bytes_lem}
use yonix.Path.{slash, skip_slashes, element, set_name, skipelem}

-- The parts of a path between its slashes, the empty ones too.
abbrev pub add_first : ℕ → List (List ℕ) → List (List ℕ)
add_first c [] = (c ∷ []) ∷ []
add_first c (w ∷ ws) = (c ∷ w) ∷ ws

unfoldable pub split : List ℕ → List (List ℕ)
split [] = [] ∷ []
split (c ∷ p) = let rest = split p in if c == slash then [] ∷ rest else add_first c rest

abbrev pub not_empty : List (List ℕ) → List (List ℕ)
not_empty [] = []
not_empty ([] ∷ ws) = not_empty ws
not_empty ((c ∷ w) ∷ ws) = (c ∷ w) ∷ not_empty ws

-- The elements: the parts that are not empty.
unfoldable pub components : List ℕ → List (List ℕ)
components p = not_empty (split p)

abbrev pub starts_with_slash : List ℕ → Bool
starts_with_slash [] = false
starts_with_slash (c ∷ p) = c == slash

pub skip_slashes_lem :
    (p : List ℕ)
    → (components (skip_slashes p) ≡ components p)
      × (starts_with_slash (skip_slashes p) ≡ false)
      × (length (skip_slashes p) ≤ length p)
unfolding skip_slashes components split
skip_slashes_lem [] = (refl, refl, omega arith)
skip_slashes_lem (c ∷ p) = by_test (skip_slashes_lem p) (c == slash) refl
  where
    by_test :
        (components (skip_slashes p) ≡ components p)
          × (starts_with_slash (skip_slashes p) ≡ false)
          × (length (skip_slashes p) ≤ length p)
        → (z : Bool) → c == slash ≡ z
        → (components (if z then skip_slashes p else c ∷ p)
            ≡ not_empty (if z then [] ∷ split p else add_first c (split p)))
          × (starts_with_slash (if z then skip_slashes p else c ∷ p) ≡ false)
          × (length (if z then skip_slashes p else c ∷ p) ≤ length (c ∷ p))
    by_test (a, b, l) true e = (a, b, omega (arith, l))
    by_test ih false e = (rw e refl, e, omega arith)

-- The parts behind the first one.
abbrev after : List ℕ → List (List ℕ)
after [] = []
after (c ∷ r) = split r

-- What is left is empty or begins with a slash.
abbrev AtSlash : List ℕ → Type 0
AtSlash [] = Unit
AtSlash (c ∷ r) = c == slash ≡ true

abbrev IsFirst : List ℕ → List (List ℕ) → List ℕ × List ℕ → Type 0
IsFirst p ws (e, rest) = (ws ≡ e ∷ after rest) × AtSlash rest × (length rest ≤ length p)

element_lem : (p : List ℕ) → IsFirst p (split p) (element p)
unfolding element split
element_lem [] = (refl, tt, omega arith)
element_lem (c ∷ p) = by_test (element p) (element_lem p) (c == slash) refl
  where
    by_test :
        (er : List ℕ × List ℕ)
        → IsFirst p (split p) er
        → (z : Bool) → c == slash ≡ z
        → IsFirst
            (c ∷ p)
            (if z then [] ∷ split p else add_first c (split p))
            (if z then ([], c ∷ p) else (c ∷ er.0, er.1))
    by_test er (s, a, l) true e = (refl, e, omega arith)
    by_test er (s, a, l) false e = (ap (add_first c) s, a, omega (arith, l))

element_first :
    (c : ℕ) (q : List ℕ) → c == slash ≡ false → element (c ∷ q) ≡ (c ∷ (element q).0, (element q).1)
unfolding element
element_first c q e = rw e refl

components-after : (r : List ℕ) → AtSlash r → components r ≡ not_empty (after r)
unfolding components split
components-after [] a = refl
components-after (c ∷ r) a = rw a refl

-- The buffer holds the first 14 characters of `e`, with a NUL behind them if there is room.
pub record Buffer (e : List ℕ) (nm : Mem) : Type 0 where
  pub characters : (j : ℕ) → j < length e → j < 14 → nm j ≡ get_or e j 0
  pub ended : length e < 14 → nm (length e) ≡ 0

take_lem :
    (n : ℕ) (xs : List ℕ) (j : ℕ)
    → j < n
    → j < length xs
    → (get_or (take n xs) j 0 ≡ get_or xs j 0) × (j < length (take n xs))
take_lem zero xs j p q = absurd (omega (arith, p))
take_lem (suc n) [] j p q = absurd (omega (arith, q))
take_lem (suc n) (x ∷ xs) zero p q = (refl, omega arith)
take_lem (suc n) (x ∷ xs) (suc j) p q =
    let (a, b) = take_lem n xs j (omega (arith, p)) (omega (arith, q)) in (a, omega (arith, b))

at_front : (xs : List ℕ) (m : Mem) (j : ℕ) → j < length xs → put_bytes 0 xs m j ≡ get_or xs j 0
at_front xs m j p =
    put_bytes_lem xs 0 m j ∙ (let e : j - 0 ≡ j = omega arith in rw e (ground (arith, p)))

pub set_name-Buffer : (e : List ℕ) (name : Mem) → Buffer e (set_name e name)
unfolding set_name
set_name-Buffer e name = by_test (leb 14 (length e)) refl
  where
    long : leb 14 (length e) ≡ true → 14 ≤ length e
    long h = ground (arith, h)

    by_test :
        (z : Bool)
        → leb 14 (length e) ≡ z
        → Buffer e
            (if z then put_bytes 0 (take 14 e) name else update (put_bytes 0 e name) (length e) 0)
    by_test true h = record {
      characters = λ j p q. let (a, b) = take_lem 14 e j q p in at_front (take 14 e) name j b ∙ a;
      ended = λ p. absurd (let l = long h in omega (arith, p, l));
    }
    by_test false h = record {
      characters = λ j p q.
          let ne : length e == j ≡ false = ground (arith, p) in rw ne (at_front e name j p);
      ended = λ p. rw (==_refl (length e)) refl;
    }

components-split :
    (c : ℕ) (w ws : List ℕ) (p : List ℕ)
    → split p ≡ (c ∷ w) ∷ after ws
    → components p ≡ (c ∷ w) ∷ not_empty (after ws)
unfolding components
components-split c w ws p e = ap not_empty e

pub components_nil : components [] ≡ []
unfolding components split
components_nil = refl

-- What skipelem gives: there is no element; or the first one in the buffer, and a shorter path with the
-- others, which does not begin with a slash.
abbrev pub Skipped : List ℕ → Option (List ℕ × Mem) → Type 0
Skipped path none = components path ≡ []
Skipped path (some (rest, nm)) =
    (e : List ℕ) × (components path ≡ e ∷ components rest)
    × Buffer e nm
    × (length rest < length path)
    × (starts_with_slash rest ≡ false)

pub first_element :
    (c : ℕ) (q : List ℕ) (name : Mem)
    → c == slash ≡ false
    → Skipped (c ∷ q) (some (skip_slashes (element (c ∷ q)).1, set_name (element (c ∷ q)).0 name))
first_element c q name ns =
    let e = element_first c q ns in
    let (s, at, _) = subst (λ er. IsFirst (c ∷ q) (split (c ∷ q)) er) e (element_lem (c ∷ q)) in
    let (_, _, short) = element_lem q in
    let (same, ns', le) = skip_slashes_lem (element q).1 in
    subst (λ er. Skipped (c ∷ q) (some (skip_slashes er.1, set_name er.0 name))) (sym e)
      (
        c ∷ (element q).0,
        components-split c (element q).0 (element q).1 (c ∷ q) s
            ∙ ap (λ ws. (c ∷ (element q).0) ∷ ws)
                (sym (components-after (element q).1 at) ∙ sym same),
        set_name-Buffer (c ∷ (element q).0) name,
        omega (arith, short, le),
        ns',
      )

same_components :
    (p path : List ℕ) (r : Option (List ℕ × Mem))
    → components p ≡ components path
    → length p ≤ length path
    → Skipped p r
    → Skipped path r
same_components p path none e le h = sym e ∙ h
same_components p path (some (rest, nm)) e le (w, h, b, lt, ns) =
    (w, sym e ∙ h, b, omega (arith, lt, le), ns)

-- skipelem of any path gives the null pointer only if the path has no element. Else it puts the first
-- one in the buffer, cut to 14 characters and ended by a NUL if it is shorter, and returns the path
-- behind it, which has the other elements, is shorter and does not begin with a slash.
pub skipelem-Skipped : (path : List ℕ) (name : Mem) → Skipped path (skipelem path name)
unfolding skipelem
skipelem-Skipped path name = from (skip_slashes path) (skip_slashes_lem path)
  where
    from :
        (p : List ℕ)
        → (components p ≡ components path)
          × (starts_with_slash p ≡ false)
          × (length p ≤ length path)
        → Skipped path (elim p as (λ _. Option (List ℕ × Mem)) [
          | [] ↦ none
          | c ∷ q ↦ some (skip_slashes (element (c ∷ q)).1, set_name (element (c ∷ q)).0 name)
        ])
    from [] (same, _, _) = sym same ∙ components_nil
    from (c ∷ q) (same, ns, le) =
        same_components (c ∷ q) path
          (some (skip_slashes (element (c ∷ q)).1, set_name (element (c ∷ q)).0 name)) same le
          (first_element c q name ns)
