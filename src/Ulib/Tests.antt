-- ===== src/Ulib/Tests.antt =====
-- Tests and examples for the user library.
use fog_os.Prelude.{◌≡◌, refl, arith, true, ◌==◌, if◌then◌else◌, [], ◌∷◌, some}
use fog_os.Bytes.{Memory}
use fog_os.Printf.{print_int, digit_loop}
use fog_os.Ulib.{atoi, fgets, fgets_loop}
use fog_os.Ulib.Atoi.{atoi-printint}

-- `407` and a blank at 300.
abbrev memory : Memory
memory a = if a == 300 then b'4' else if a == 301 then b'0' else if a == 302 then b'7' else b' '

atoi-printint_example : atoi 8 300 memory ≡ some 407
unfolding print_int digit_loop
atoi-printint_example =
    atoi-printint 8 300 407 true memory (omega arith) refl (omega arith)
      (refl, (refl, (refl, refl)))

-- A line of two characters, and the newline, into a buffer of eight.
line : (fgets (b'h' ∷ b'i' ∷ b'\n' ∷ b'x' ∷ []) 300 8 memory).0 ≡ 3
unfolding fgets fgets_loop
line = refl
