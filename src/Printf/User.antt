-- ===== src/Printf/User.antt =====
-- user/printf.c: `vprintf`. The format is the list of its bytes before the 0; a missing argument,
-- or one of another type, is `none`.
use fog_os.Prelude.{
  ℕ, ◌%◌, ◌^◌, Bool, true, false, ◌==◌, if◌then◌else◌, List, [], ◌∷◌, ◌++◌, Option, none, some,
}
use fog_os.Printf.{
  Arg, int, pointer, string, null_string, null_text, upper_digit, print_int, print_ptr,
}

abbrev pub printint : (xx base : ℕ) (sgn : Bool) → List ℕ
printint = print_int upper_digit

abbrev pub printptr : ℕ → List ℕ
printptr = print_ptr upper_digit

-- The text of an argument for the character `c` after `%`; `%l` converts a `uint64` to an `int`.
unfoldable pub text_of : (c : ℕ) → Arg → Option (List ℕ)
text_of c (int x) =
    if c == b'd'
    then some (printint x 10 true)
    else if c == b'x'
    then some (printint x 16 false)
    else if c == b'c'
    then some (x % 256 ∷ [])
    else none
text_of c (pointer x) =
    if c == b'l'
    then some (printint (x % 2 ^ 32) 10 false)
    else if c == b'p'
    then some (printptr x)
    else none
text_of c (string s) = if c == b's' then some s else none
text_of c null_string = if c == b's' then some null_text else none

abbrev pub takes_arg : ℕ → Bool
takes_arg c =
    if c == b'd'
    then true
    else if c == b'l'
    then true
    else if c == b'x'
    then true
    else if c == b'p'
    then true
    else if c == b's'
    then true
    else c == b'c'

abbrev pub before : List ℕ → Option (List ℕ) → Option (List ℕ)
before cs none = none
before cs (some rest) = some (cs ++ rest)

-- The loop of `vprintf`; `percent` is whether `state` is '%'.
unfoldable pub vprintf_loop : (percent : Bool) (fmt : List ℕ) → List Arg → Option (List ℕ)
vprintf_loop percent [] args = some []
vprintf_loop false (c ∷ fmt) args =
    let after = vprintf_loop true fmt args in
    let plain = vprintf_loop false fmt args in if c == b'%' then after else before (c ∷ []) plain
vprintf_loop true (c ∷ fmt) args =
    let after = vprintf_loop false fmt args in
    let with_arg : Option (List ℕ) = elim args [
      | [] ↦ none
      | a ∷ rest ↦ elim (text_of c a) [
        | none ↦ none
        | some cs ↦ before cs (vprintf_loop false fmt rest)
      ]
    ] in
    if takes_arg c
    then with_arg
    else if c == b'%'
    then before (c ∷ []) after
    else before (b'%' ∷ c ∷ []) after

unfoldable pub vprintf : (fmt : List ℕ) → List Arg → Option (List ℕ)
vprintf fmt args = vprintf_loop false fmt args
