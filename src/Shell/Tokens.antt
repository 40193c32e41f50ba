-- ===== src/Shell/Tokens.antt =====
-- How much of the text the tokens of the shell take.
use fog_os.Prelude.{
  ℕ, ◌≤◌, ◌<◌, ◌≡◌, ◌≢◌, refl, true, false, not, ◌&&◌, ◌||◌, ◌==◌, List, [], ◌∷◌, length, drop,
  arith, Bool-cases, inl, inr,
}
use fog_os.Shell.{whitespace, symbols, strchr, skip, top, word, token, gettoken, peeks}

pub length-skip : (s : List ℕ) → length (skip s) ≤ length s
unfolding skip
length-skip [] = omega arith
length-skip (c ∷ s) = elim (Bool-cases (strchr whitespace c)) [
  | inl e ↦ (let rest = length-skip s in rw e (omega (arith, rest)))
  | inr e ↦ rw e (omega arith)
]

strchr-top-skip : (s : List ℕ) → strchr whitespace (top (skip s)) ≡ false
unfolding skip
strchr-top-skip [] = refl
strchr-top-skip (c ∷ s) = elim (Bool-cases (strchr whitespace c)) [
  | inl e ↦ rw e (strchr-top-skip s)
  | inr e ↦ rw (e, top, e) refl
]

skip-skip : (s : List ℕ) → skip (skip s) ≡ skip s
unfolding skip
skip-skip [] = refl
skip-skip (c ∷ s) = elim (Bool-cases (strchr whitespace c)) [
  | inl e ↦ rw e (skip-skip s)
  | inr e ↦ rw (e, skip, e) refl
]

length-word : (s : List ℕ) → length (word s).rest ≤ length s
unfolding word
length-word [] = omega arith
length-word (c ∷ s) = elim (Bool-cases (not (strchr whitespace c) && not (strchr symbols c))) [
  | inl e ↦ (let rest = length-word s in rw e (omega (arith, rest)))
  | inr e ↦ rw e (omega arith)
]

length-drop_one : (s : List ℕ) → length (drop 1 s) ≤ length s
length-drop_one [] = omega arith
length-drop_one (c ∷ s) = omega arith

-- A word that starts is not empty.
word-shrinks :
    (c : ℕ) (s : List ℕ)
    → strchr whitespace c ≡ false
    → strchr symbols c ≡ false
    → length (word (c ∷ s)).rest ≤ length s
unfolding word
word-shrinks c s space symbol = rw (space, symbol) (length-word s)

token-shrinks :
    (s : List ℕ)
    → strchr whitespace (top s) ≡ false
    → (top s == 0) ≡ false
    → length (token s).rest < length s
unfolding token
token-shrinks [] space nonzero = absurd (ground (arith, nonzero))
token-shrinks (c ∷ s) space nonzero =
    elim (Bool-cases (c == b'|' || c == b'(' || c == b')' || c == b';' || c == b'&' || c == b'<')) [
      | inl e ↦ rw (nonzero, e) (omega arith)
      | inr e ↦ elim (Bool-cases (c == b'>')) [
        | inl e' ↦ elim (Bool-cases (top s == b'>')) [
          | inl e'' ↦ rw (nonzero, e, e', e'') (omega (arith, length-drop_one s))
          | inr e'' ↦ rw (nonzero, e, e', e'') (omega arith)
        ]
        | inr e' ↦
            let rest = word-shrinks c s space (ground (arith, e, e')) in
            rw (nonzero, e, e') (omega (arith, rest))
      ]
    ]

token-ret : (s : List ℕ) → (token s).ret ≢ 0 → (top s == 0) ≡ false
unfolding token
token-ret [] some_ = absurd (some_ refl)
token-ret (c ∷ s) some_ = elim (Bool-cases (c == 0)) [
  | inl e ↦ absurd (some_ (rw e refl))
  | inr e ↦ e
]

gettoken-shrinks : (s : List ℕ) → (top (skip s) == 0) ≡ false → length (gettoken s).rest < length s
unfolding gettoken
gettoken-shrinks s nonzero =
    let taken = token-shrinks (skip s) (strchr-top-skip s) nonzero in
    let more = length-skip (token (skip s)).rest in omega (arith, taken, more, length-skip s)

-- A token other than the end of the text takes some of it.
pub gettoken-ret : (s : List ℕ) → (gettoken s).ret ≢ 0 → length (gettoken s).rest < length s
unfolding gettoken
gettoken-ret s some_ = gettoken-shrinks s (token-ret (skip s) some_)

token-end : (s : List ℕ) → (top s == 0) ≡ true → (token s).rest ≡ s
unfolding token
token-end [] end = refl
token-end (c ∷ s) end = rw end refl

pub length-gettoken : (s : List ℕ) → length (gettoken s).rest ≤ length s
unfolding gettoken
length-gettoken s = elim (Bool-cases (top (skip s) == 0)) [
  | inr e ↦ (let taken = gettoken-shrinks s e in omega (arith, taken))
  | inl e ↦
      let again = length-skip (skip s) in
      rw (token-end (skip s) e) (omega (arith, again, length-skip s))
]

-- A token that `peek` sees takes some of the text.
pub peeks-gettoken :
    (s toks : List ℕ) → peeks s toks ≡ true → length (gettoken (skip s)).rest < length s
unfolding peeks
peeks-gettoken s toks seen =
    let nonzero : (top (skip (skip s)) == 0) ≡ false = rw (skip-skip s) (ground (arith, seen)) in
    let taken = gettoken-shrinks (skip s) nonzero in omega (arith, taken, length-skip s)
