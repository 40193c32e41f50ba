-- ===== src/Printf/Kernel.antt =====
-- kernel/printf.c: `printf`, whose lock is left out. The format is the list of its bytes before the
-- 0; a missing argument, or one of another type, is `none`.
use fog_os.Prelude.{ℕ, Bool, true, ◌==◌, if◌then◌else◌, List, [], ◌∷◌, ◌++◌, Option, none, some}
use fog_os.Printf.{
  Arg, int, pointer, string, null_string, null_text, lower_digit, print_int, print_ptr,
}

abbrev pub printint : (xx base : ℕ) (sign : Bool) → List ℕ
printint = print_int lower_digit

abbrev pub printptr : ℕ → List ℕ
printptr = print_ptr lower_digit

-- The text of an argument for the character `c` after `%`.
unfoldable pub text_of : (c : ℕ) → Arg → Option (List ℕ)
text_of c (int x) =
    if c == b'd'
    then some (printint x 10 true)
    else if c == b'x'
    then some (printint x 16 true)
    else none
text_of c (pointer x) = if c == b'p' then some (printptr x) else none
text_of c (string s) = if c == b's' then some s else none
text_of c null_string = if c == b's' then some null_text else none

-- Whether `%c` takes an argument.
abbrev pub takes_arg : ℕ → Bool
takes_arg c =
    if c == b'd' then true else if c == b'x' then true else if c == b'p' then true else c == b's'

abbrev pub before : List ℕ → Option (List ℕ) → Option (List ℕ)
before cs none = none
before cs (some rest) = some (cs ++ rest)

unfoldable pub printf : (fmt : List ℕ) → List Arg → Option (List ℕ)
printf [] args = some []
printf (c ∷ []) args = if c == b'%' then some [] else some (c ∷ [])
printf (c ∷ d ∷ fmt) args =
    let plain = printf (d ∷ fmt) args in
    let after = printf fmt args in
    let with_arg : Option (List ℕ) = elim args [
      | [] ↦ none
      | a ∷ rest ↦ elim (text_of d a) [ none ↦ none | some cs ↦ before cs (printf fmt rest) ]
    ] in
    if c == b'%'
    then (if takes_arg d
        then with_arg
        else if d == b'%'
        then before (b'%' ∷ []) after
        else before (b'%' ∷ d ∷ []) after)
    else before (c ∷ []) plain
