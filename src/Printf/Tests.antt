-- ===== src/Printf/Tests.antt =====
-- Tests and examples for printing.
use fog_os.Prelude.{◌≤◌, ◌≡◌, refl, arith, true, [], ◌∷◌, length, some, inr}
use fog_os.Printf.{
  int, pointer, string, lower_digit, print_int, digit_loop, print_ptr, pointer_loop,
}
use fog_os.Printf.Digits.{length-print_int}
use fog_os.Printf.Kernel.{printf, text_of}
use fog_os.Printf.User.{vprintf, vprintf_loop}

-- -2^31 in base 16.
length-print_int_example : length (print_int lower_digit 0x8000_0000 16 true) ≤ 16
length-print_int_example = length-print_int lower_digit 0x8000_0000 16 true (omega arith) (inr refl)

-- `printf("%d%%", -7)`
negative :
    printf (b'%' ∷ b'd' ∷ b'%' ∷ b'%' ∷ []) (int 0xffff_fff9 ∷ []) ≡ some (b'-' ∷ b'7' ∷ b'%' ∷ [])
unfolding printf text_of print_int digit_loop
negative = refl

-- `printf("%l", 2^32 + 1)`: only the low half is printed.
low_half : vprintf (b'%' ∷ b'l' ∷ []) (pointer 0x1_0000_0001 ∷ []) ≡ some (b'1' ∷ [])
unfolding vprintf vprintf_loop fog_os.Printf.User.text_of print_int digit_loop
low_half = refl
