-- ===== src/Grep/Tests.antt =====
-- Tests and examples for the matcher.
use fog_os.Prelude.{ℕ, ◌≡◌, refl, true, false, List, [], ◌∷◌}
use fog_os.Grep.{match, match_loop, matchhere, matchstar, match_one, grep, print_lines, split_line}
use fog_os.Grep.Language.{Found}
use fog_os.Grep.Search.{Decides, match-Decides}

-- `a.*d$`
abbrev pattern : List ℕ
pattern = b'a' ∷ b'.' ∷ b'*' ∷ b'd' ∷ b'$' ∷ []

-- `xabd`
abbrev text : List ℕ
text = b'x' ∷ b'a' ∷ b'b' ∷ b'd' ∷ []

match-Decides_example : Decides (Found pattern text) (match pattern text)
match-Decides_example = match-Decides pattern text

found : match pattern text ≡ true
unfolding match match_loop matchhere matchstar match_one
found = refl

anchored : match (b'^' ∷ pattern) text ≡ false
unfolding match match_loop matchhere matchstar match_one
anchored = refl

-- A line that two reads bring.
two_reads :
    grep (b'a' ∷ []) ((b'b' ∷ b'a' ∷ []) ∷ (b'\n' ∷ b'x' ∷ b'\n' ∷ []) ∷ []) []
    ≡ b'b' ∷ b'a' ∷ b'\n' ∷ []
unfolding grep print_lines split_line match match_loop matchhere matchstar match_one
two_reads = refl
