-- ===== src/Grep/Language.antt =====
-- What a pattern means: its tokens, and the texts that begin with what it describes.
use fog_os.Prelude.{ℕ, ◌≡◌, true, ◌==◌, if◌then◌else◌, List, [], ◌∷◌, ◌++◌}
use fog_os.Grep.{allows}

-- A character, any number of a character, or the end of the text.
pub data Token : Type 0 where
  one many : ℕ → Token
  end : Token

unfoldable pub tokens : List ℕ → List Token
tokens [] = []
tokens (c ∷ []) = (if c == b'$' then end else one c) ∷ []
tokens (c ∷ d ∷ re) =
    let starred = many c ∷ tokens re in
    let plain = one c ∷ tokens (d ∷ re) in if d == b'*' then starred else plain

-- Every character is allowed.
abbrev pub All : (c : ℕ) → List ℕ → Type 0
All c [] = Unit
All c (x ∷ xs) = (allows c x ≡ true) × All c xs

-- The tokens describe a beginning of the text.
unfoldable pub Begins : List Token → List ℕ → Type 0
Begins [] text = Unit
Begins (end ∷ ts) text = (text ≡ []) × Begins ts text
Begins (one c ∷ ts) text =
    (x : ℕ) × (rest : List ℕ) × (text ≡ x ∷ rest) × (allows c x ≡ true) × Begins ts rest
Begins (many c ∷ ts) text =
    (xs : List ℕ) × (rest : List ℕ) × (text ≡ xs ++ rest) × All c xs × Begins ts rest

-- They describe a part of the text.
unfoldable pub Occurs : List Token → List ℕ → Type 0
Occurs ts text = (before : List ℕ) × (rest : List ℕ) × (text ≡ before ++ rest) × Begins ts rest

-- The pattern is found in the text: at its beginning, after `^`, or else anywhere.
unfoldable pub Found : (re text : List ℕ) → Type 0
Found [] text = Occurs [] text
Found (c ∷ re) text = if c == b'^' then Begins (tokens re) text else Occurs (tokens (c ∷ re)) text
