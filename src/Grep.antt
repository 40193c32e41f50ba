-- ===== src/Grep.antt =====
-- user/grep.c: the matcher, on the lists of the bytes of the pattern and of the text before the 0,
-- and the loop that finds the lines in what `read` gives.
pub mod Language
pub mod Search
mod Tests
use fog_os.Prelude.{
  ℕ, zero, suc, ◌+◌, ◌-◌, Bool, true, false, not, ◌&&◌, ◌||◌, ◌==◌, leb, if◌then◌else◌, List, [],
  ◌∷◌, ◌++◌, length, Option, none, some,
}

abbrev pub is_nil : List ℕ → Bool
is_nil [] = true
is_nil (c ∷ cs) = false

-- Whether the character `c` of a pattern allows the character `x`.
abbrev pub allows : (c x : ℕ) → Bool
allows c x = c == b'.' || c == x

-- `*text!='\0' && (re[0]=='.' || re[0]==*text)`, and then `here` at `text+1`.
unfoldable pub match_one : (c : ℕ) (here : List ℕ → Bool) (text : List ℕ) → Bool
match_one c here [] = false
match_one c here (x ∷ text) = if allows c x then here text else false

-- `matchstar`, where `here` is `matchhere` of the rest of the pattern.
unfoldable pub matchstar : (c : ℕ) (here : List ℕ → Bool) (text : List ℕ) → Bool
matchstar c here [] = here []
matchstar c here (x ∷ text) =
    let rest = matchstar c here text in
    if here (x ∷ text) then true else if allows c x then rest else false

unfoldable pub matchhere : (re text : List ℕ) → Bool
matchhere [] text = true
matchhere (c ∷ []) text = if c == b'$' then is_nil text else match_one c (λ rest. true) text
matchhere (c ∷ d ∷ re) text =
    let star = matchstar c (matchhere re) text in
    let one = match_one c (matchhere (d ∷ re)) text in if d == b'*' then star else one

-- The loop of `match`: at each place of the text, the end included.
unfoldable pub match_loop : (here : List ℕ → Bool) (text : List ℕ) → Bool
match_loop here [] = here []
match_loop here (x ∷ text) =
    let rest = match_loop here text in if here (x ∷ text) then true else rest

unfoldable pub match : (re text : List ℕ) → Bool
match [] text = match_loop (matchhere []) text
match (c ∷ re) text =
    let anchored = matchhere re text in
    let anywhere = match_loop (matchhere (c ∷ re)) text in if c == b'^' then anchored else anywhere

-- `strchr(p, '\n')`: what stands before the newline, and behind it.
unfoldable pub split_line : List ℕ → Option (List ℕ × List ℕ)
split_line [] = none
split_line (c ∷ cs) =
    let rest : Option (List ℕ × List ℕ) = elim (split_line cs) [
      | none ↦ none
      | some (line, left) ↦ some (c ∷ line, left)
    ] in
    if c == 0 then none else if c == b'\n' then some ([], cs) else rest

module _ (pattern : List ℕ) where
  -- The inner loop of `grep`, for at most `fuel` lines: what is written, and what is left.
  unfoldable pub print_lines : (fuel : ℕ) (text : List ℕ) → List ℕ × List ℕ
  print_lines zero text = ([], text)
  print_lines (suc fuel) text = elim (split_line text) [
    | none ↦ ([], text)
    | some (line, left) ↦
        let (out, rest) = print_lines fuel left in
        (if match pattern line then line ++ (b'\n' ∷ out) else out, rest)
  ]

  -- `grep`, where `reads` is what the calls of `read` put into the buffer, which holds `kept`.
  unfoldable pub grep : (reads : List (List ℕ)) (kept : List ℕ) → List ℕ
  grep [] kept = []
  grep (chunk ∷ reads) kept =
      let text = kept ++ chunk in
      let (out, rest) = print_lines (length text) text in
      let later = grep reads rest in if is_nil chunk then [] else out ++ later
