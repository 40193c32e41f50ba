-- ===== src/Grep/Search.antt =====
-- The matcher decides whether the pattern is found.
use mathlib.Core.Path.{subst}
use fog_os.Prelude.{
  ℕ, ◌≡◌, ◌∙◌, refl, sym, ap, arith, Bool, true, false, ◌==◌, if◌then◌else◌, inl, inr, Bool-cases,
  List, [], ◌∷◌, ◌++◌,
}
use fog_os.Grep.{is_nil, allows, match_one, matchstar, matchhere, match_loop, match}
use fog_os.Grep.Language.{Token, one, many, end, tokens, Begins, Occurs, Found}

-- A test and what it decides.
pub data Decides (P : Type 0) : Bool → Type 0 where
  yes : P → Decides P true
  no : ¬ P → Decides P false

head_or : ℕ → List ℕ → ℕ
head_or d [] = d
head_or d (x ∷ xs) = x

tail : List ℕ → List ℕ
tail [] = []
tail (x ∷ xs) = xs

not_nil : (x : ℕ) (xs : List ℕ) → ¬ ([] ≡ x ∷ xs)
not_nil x xs e = absurd (ground (arith, ap is_nil e))

cons_head : (x y : ℕ) (xs ys : List ℕ) → x ∷ xs ≡ y ∷ ys → x ≡ y
unfolding head_or
cons_head x y xs ys e = ap (head_or 0) e

cons_tail : (x y : ℕ) (xs ys : List ℕ) → x ∷ xs ≡ y ∷ ys → xs ≡ ys
unfolding tail
cons_tail x y xs ys e = ap tail e

nil_right : (xs ys : List ℕ) → [] ≡ xs ++ ys → ys ≡ []
nil_right [] ys e = sym e
nil_right (x ∷ xs) ys e = absurd (not_nil x (xs ++ ys) e)

module _ (c : ℕ) (ts : List Token) (here : List ℕ → Bool)
    (decides : (t : List ℕ) → Decides (Begins ts t) (here t)) where
  match_one-Decides : (text : List ℕ) → Decides (Begins (one c ∷ ts) text) (match_one c here text)
  unfolding match_one Begins
  match_one-Decides [] = no (λ (x, rest, e, allowed, b). not_nil x rest e)
  match_one-Decides (x ∷ text) = elim (Bool-cases (allows c x)) [
    | inl a ↦ rw a (go (decides text) a)
    | inr a ↦ rw a (
        no (λ (y, rest, e, allowed, b).
          absurd (ground (arith, a, allowed, cons_head x y text rest e))))
  ]
    where
      go :
          {b : Bool}
          → Decides (Begins ts text) b
          → allows c x ≡ true
          → Decides (Begins (one c ∷ ts) (x ∷ text)) b
      go (yes b) a = yes (x, text, refl, a, b)
      go (no n) a =
          no (λ (y, rest, e, allowed, b). n (subst (Begins ts) (sym (cons_tail x y text rest e)) b))

  matchstar-Decides : (text : List ℕ) → Decides (Begins (many c ∷ ts) text) (matchstar c here text)
  unfolding matchstar Begins
  matchstar-Decides [] = go (decides [])
    where
      go : {b : Bool} → Decides (Begins ts []) b → Decides (Begins (many c ∷ ts) []) b
      go (yes b) = yes ([], [], refl, tt, b)
      go (no n) = no (λ (xs, rest, e, all, b). n (subst (Begins ts) (nil_right xs rest e) b))
  matchstar-Decides (x ∷ text) = go (allows c x) refl (decides (x ∷ text)) (matchstar-Decides text)
    where
      -- A run that is described after `x` makes one from `x` on, and only that does.
      later : allows c x ≡ true → Begins (many c ∷ ts) text → Begins (many c ∷ ts) (x ∷ text)
      later a (xs, rest, e, all, b) = (x ∷ xs, rest, ap (λ t. x ∷ t) e, (a, all), b)

      first :
          ¬ Begins ts (x ∷ text)
          → Begins (many c ∷ ts) (x ∷ text)
          → (allows c x ≡ true) × Begins (many c ∷ ts) text
      first n ([], rest, e, all, b) = absurd (n (subst (Begins ts) (sym e) b))
      first n (y ∷ xs, rest, e, (a, all), b) = (
        ap (allows c) (cons_head x y text (xs ++ rest) e) ∙ a,
        (xs, rest, cons_tail x y text (xs ++ rest) e, all, b),
      )

      go :
          {b b' : Bool} (a : Bool)
          → allows c x ≡ a
          → Decides (Begins ts (x ∷ text)) b
          → Decides (Begins (many c ∷ ts) text) b'
          → Decides (Begins (many c ∷ ts) (x ∷ text)) (if b then true else if a then b' else false)
      go a same (yes b) r = yes ([], x ∷ text, refl, tt, b)
      go true same (no n) (yes run) = yes (later same run)
      go true same (no n) (no n') = no (λ run. n' (first n run).1)
      go false same (no n) r = no (λ run. absurd (ground (arith, same, (first n run).0)))

is_nil-Decides : (text : List ℕ) → Decides (Begins (end ∷ []) text) (is_nil text)
unfolding Begins
is_nil-Decides [] = yes (refl, tt)
is_nil-Decides (x ∷ text) = no (λ (e, u). not_nil x text (sym e))

matchhere-Decides : (re text : List ℕ) → Decides (Begins (tokens re) text) (matchhere re text)
unfolding matchhere tokens Begins
matchhere-Decides [] text = yes tt
matchhere-Decides (c ∷ []) text = elim (Bool-cases (c == b'$')) [
  | inl e ↦ rw e (is_nil-Decides text)
  | inr e ↦ rw e (match_one-Decides c [] (λ rest. true) (λ t. yes tt) text)
]
matchhere-Decides (c ∷ d ∷ re) text =
    let star = matchstar-Decides c (tokens re) (matchhere re) (matchhere-Decides re) text in
    let plain =
      match_one-Decides c (tokens (d ∷ re)) (matchhere (d ∷ re)) (matchhere-Decides (d ∷ re))
        text in
    elim (Bool-cases (d == b'*')) [ inl e ↦ rw e star | inr e ↦ rw e plain ]

module _ (ts : List Token) (here : List ℕ → Bool)
    (decides : (t : List ℕ) → Decides (Begins ts t) (here t)) where
  match_loop-Decides : (text : List ℕ) → Decides (Occurs ts text) (match_loop here text)
  unfolding match_loop Occurs
  match_loop-Decides [] = go (decides [])
    where
      go : {b : Bool} → Decides (Begins ts []) b → Decides (Occurs ts []) b
      go (yes b) = yes ([], [], refl, b)
      go (no n) = no (λ (before, rest, e, b). n (subst (Begins ts) (nil_right before rest e) b))
  match_loop-Decides (x ∷ text) = go (decides (x ∷ text)) (match_loop-Decides text)
    where
      go :
          {b b' : Bool}
          → Decides (Begins ts (x ∷ text)) b
          → Decides (Occurs ts text) b'
          → Decides (Occurs ts (x ∷ text)) (if b then true else b')
      go (yes b) r = yes ([], x ∷ text, refl, b)
      go (no n) (yes (before, rest, e, b)) = yes (x ∷ before, rest, ap (λ t. x ∷ t) e, b)
      go (no n) (no n') = no (λ occurs. apart occurs)
        where
          apart : ¬ Occurs ts (x ∷ text)
          apart ([], rest, e, b) = n (subst (Begins ts) (sym e) b)
          apart (y ∷ before, rest, e, b) =
              n' (before, rest, cons_tail x y text (before ++ rest) e, b)

-- `match` returns 1 exactly if the pattern is found in the text: a part of the text consists of its
-- characters, `.` for any and a starred one for a run of any length, at the beginning of the text
-- after `^`, and at the end of it if the pattern ends in `$`.
pub match-Decides : (re text : List ℕ) → Decides (Found re text) (match re text)
unfolding match Found tokens
match-Decides [] text = match_loop-Decides (tokens []) (matchhere []) (matchhere-Decides []) text
match-Decides (c ∷ re) text = elim (Bool-cases (c == b'^')) [
  | inl e ↦ rw e (matchhere-Decides re text)
  | inr e ↦
      rw e (
        match_loop-Decides (tokens (c ∷ re)) (matchhere (c ∷ re)) (matchhere-Decides (c ∷ re)) text)
]
