-- ===== src/Regex/Matches.antt =====
-- The language of a pattern, as an inductive relation, and the matcher against it.
use yonix.Base.{
  ℕ, ◌≡◌, ◌≢◌, refl, ◌⊎◌, ◌↔◌, inl, inr, Bool, true, false, ◌==◌, List, [], ◌∷◌, ◌++◌, arith,
  Bool-cases, ◌∙◌, sym, ap, subst,
}
use yonix.Regex.{matchstar, matchone, matchhere, search_from, match}

-- The pattern character `c` fits the text character `t`.
abbrev pub Fits : ℕ → ℕ → Type 0
Fits c t = (c ≡ b'.') ⊎ (c ≡ t)

-- `Here re text`: the pattern `re` matches a prefix of `text`.
pub data Here : List ℕ → List ℕ → Type 0 where
  done : {text : List ℕ} → Here [] text
  end : {c : ℕ} → c ≡ b'$' → Here (c ∷ []) []
  last : {c t : ℕ} {text : List ℕ} → c ≢ b'$' → Fits c t → Here (c ∷ []) (t ∷ text)
  one :
      {c d t : ℕ} {re text : List ℕ}
      → d ≢ b'*'
      → Fits c t
      → Here (d ∷ re) text
      → Here (c ∷ d ∷ re) (t ∷ text)
  star_none : {c d : ℕ} {re text : List ℕ} → d ≡ b'*' → Here re text → Here (c ∷ d ∷ re) text
  star_more :
      {c d t : ℕ} {re text : List ℕ}
      → d ≡ b'*'
      → Fits c t
      → Here (c ∷ d ∷ re) text
      → Here (c ∷ d ∷ re) (t ∷ text)

star-Here :
    (c d : ℕ) (re : List ℕ)
    → ((text : List ℕ) → matchhere re text ≡ true → Here re text)
    → d ≡ b'*'
    → (text : List ℕ) → matchstar c (matchhere re) text ≡ true
    → Here (c ∷ d ∷ re) text
unfolding matchstar
star-Here c d re ih e [] h = star_none e (ih [] h)
star-Here c d re ih e (t ∷ text) h = elim (Bool-cases (matchhere re (t ∷ text))) [
  | inl now ↦ star_none e (ih (t ∷ text) now)
  | inr later ↦ star_more e (ground arith) (star-Here c d re ih e text (ground arith))
]

matchhere-plain :
    (c d : ℕ) (re text : List ℕ)
    → (d == b'*') ≡ false
    → matchhere (c ∷ d ∷ re) text ≡ matchone c (matchhere (d ∷ re)) text
unfolding matchhere
matchhere-plain c d re text e = rw e

matchone-Fits :
    (c t : ℕ) (rest : List ℕ → Bool) (text : List ℕ)
    → matchone c rest (t ∷ text) ≡ true
    → Fits c t × (rest text ≡ true)
matchone-Fits c t rest text h = ground arith

matchhere-Here : (re text : List ℕ) → matchhere re text ≡ true → Here re text
unfolding matchhere
matchhere-Here [] text h = done
matchhere-Here (c ∷ []) [] h = end (ground arith)
matchhere-Here (c ∷ []) (t ∷ text) h = last (ground arith) (ground arith)
matchhere-Here (c ∷ d ∷ re) [] h = elim (Bool-cases (d == b'*')) [
  | inl star ↦ star-Here c d re (matchhere-Here re) (ground arith) [] (ground arith)
  | inr plain ↦ absurd (ground arith)
]
matchhere-Here (c ∷ d ∷ re) (t ∷ text) h = elim (Bool-cases (d == b'*')) [
  | inl star ↦ star-Here c d re (matchhere-Here re) (ground arith) (t ∷ text) (ground arith)
  | inr plain ↦
      let (f, h') =
        matchone-Fits c t (matchhere (d ∷ re)) text
          (sym (matchhere-plain c d re (t ∷ text) plain) ∙ h) in
      one (ground arith) f (matchhere-Here (d ∷ re) text h')
]

star_now :
    (c : ℕ) (re text : List ℕ) → matchhere re text ≡ true → matchstar c (matchhere re) text ≡ true
unfolding matchstar
star_now c re [] h = h
star_now c re (t ∷ text) h = rw h

star_later :
    (c t : ℕ) (re text : List ℕ)
    → Fits c t
    → matchstar c (matchhere re) text ≡ true
    → matchstar c (matchhere re) (t ∷ text) ≡ true
unfolding matchstar
star_later c t re text f h = ground arith

matchhere-star :
    (c d : ℕ) (re text : List ℕ)
    → d ≡ b'*'
    → matchhere (c ∷ d ∷ re) text ≡ matchstar c (matchhere re) text
unfolding matchhere
matchhere-star c d re text e = ground arith

matchhere-one :
    (c d t : ℕ) (re text : List ℕ)
    → d ≢ b'*'
    → Fits c t
    → matchhere (c ∷ d ∷ re) (t ∷ text) ≡ matchhere (d ∷ re) text
unfolding matchhere
matchhere-one c d t re text e f = ground arith

Here-matchhere : {re text : List ℕ} → Here re text → matchhere re text ≡ true
unfolding matchhere
Here-matchhere done = refl
Here-matchhere (end e) = ground arith
Here-matchhere (last e f) = ground arith
Here-matchhere (one {c} {d} {t} {re} {text} e f h) =
    matchhere-one c d t re text e f ∙ Here-matchhere h
Here-matchhere (star_none {c} {d} {re} {text} e h) =
    matchhere-star c d re text e ∙ star_now c re text (Here-matchhere h)
Here-matchhere (star_more {c} {d} {t} {re} {text} e f h) =
    matchhere-star c d re (t ∷ text) e
    ∙ star_later c t re text f (sym (matchhere-star c d re text e) ∙ Here-matchhere h)

-- `matchhere(re, text)` is 1 exactly when the pattern matches a prefix of the text.
pub matchhere_iff : (re text : List ℕ) → (matchhere re text ≡ true) ↔ Here re text
matchhere_iff re text = (matchhere-Here re text, λ h. Here-matchhere h)

abbrev pub IsAnchored : List ℕ → Type 0
IsAnchored [] = ⊥
IsAnchored (c ∷ re) = c ≡ b'^'

-- `Matches re text`: with a leading `^` the rest of the pattern matches at the start of the text,
-- and without one the pattern matches behind some prefix of the text.
pub data Matches : List ℕ → List ℕ → Type 0 where
  at_start : {c : ℕ} {re text : List ℕ} → c ≡ b'^' → Here re text → Matches (c ∷ re) text
  behind :
      {re text : List ℕ} (before rest : List ℕ)
      → ¬ IsAnchored re
      → text ≡ before ++ rest
      → Here re rest
      → Matches re text

search_from_sound :
    (re text : List ℕ)
    → search_from (matchhere re) text ≡ true
    → (before : List ℕ) × (rest : List ℕ) × (text ≡ before ++ rest) × Here re rest
unfolding search_from
search_from_sound re [] h = ([], [], refl, matchhere-Here re [] h)
search_from_sound re (t ∷ text) h = elim (Bool-cases (matchhere re (t ∷ text))) [
  | inl now ↦ ([], t ∷ text, refl, matchhere-Here re (t ∷ text) now)
  | inr later ↦
      let (before, rest, e, m) = search_from_sound re text (ground arith) in
      (t ∷ before, rest, ap (λ l. t ∷ l) e, m)
]

search_from_complete :
    (re before rest : List ℕ) → Here re rest → search_from (matchhere re) (before ++ rest) ≡ true
unfolding search_from
search_from_complete re [] [] h = Here-matchhere h
search_from_complete re [] (t ∷ rest) h = rw (Here-matchhere h)
search_from_complete re (t ∷ before) rest h = ground (arith, search_from_complete re before rest h)

match-Matches : (re text : List ℕ) → match re text ≡ true → Matches re text
unfolding match
match-Matches [] text h =
    let (before, rest, e, m) = search_from_sound [] text h in behind before rest (λ a. a) e m
match-Matches (c ∷ re) text h = elim (Bool-cases (c == b'^')) [
  | inl caret ↦ at_start (ground arith) (matchhere-Here re text (ground arith))
  | inr plain ↦
      let (before, rest, e, m) = search_from_sound (c ∷ re) text (ground arith) in
      behind before rest (λ a. ground arith) e m
]

match_caret :
    (c : ℕ) (re text : List ℕ) → c ≡ b'^' → matchhere re text ≡ true → match (c ∷ re) text ≡ true
unfolding match
match_caret c re text e h = ground arith

match_plain :
    (re text : List ℕ)
    → ¬ IsAnchored re
    → search_from (matchhere re) text ≡ true
    → match re text ≡ true
unfolding match
match_plain [] text n h = h
match_plain (c ∷ re) text n h = ground arith

Matches-match : {re text : List ℕ} → Matches re text → match re text ≡ true
Matches-match (at_start {c} {re} {text} e h) = match_caret c re text e (Here-matchhere h)
Matches-match (behind {re} {text} before rest n e h) = match_plain re text n (
    subst (λ x. search_from (matchhere re) x ≡ true) (sym e)
      (search_from_complete re before rest h))

-- `match(re, text)` is 1 exactly when the text matches the pattern: at its start for a pattern that
-- begins with `^`, anywhere for any other.
pub match_iff : (re text : List ℕ) → (match re text ≡ true) ↔ Matches re text
match_iff re text = (match-Matches re text, λ h. Matches-match h)
