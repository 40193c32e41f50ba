-- ===== src/Printf.antt =====
-- kernel/printf.c and user/printf.c: what is printed, as the list of its characters. An `int` is a
-- 32-bit word; a string argument is the list of its bytes.
pub mod Digits
pub mod Kernel
pub mod User
mod Tests
use fog_os.Prelude.{
  ℕ, zero, suc, ◌+◌, ◌-◌, ◌*◌, ◌/◌, ◌%◌, ◌^◌, Bool, true, false, ◌&&◌, ◌==◌, ltb, if◌then◌else◌,
  List, [], ◌∷◌, ◌++◌, is_neg, sub32,
}

-- What `va_arg` gives; a null string is `null_string`.
pub data Arg : Type 0 where
  int : ℕ → Arg
  pointer : ℕ → Arg
  string : List ℕ → Arg
  null_string : Arg

-- "(null)"
abbrev pub null_text : List ℕ
null_text = b'(' ∷ b'n' ∷ b'u' ∷ b'l' ∷ b'l' ∷ b')' ∷ []

-- `digits[d]` of the kernel, and of the user's library.
abbrev pub lower_digit : ℕ → ℕ
lower_digit d = if ltb d 10 then b'0' + d else b'a' + (d - 10)

abbrev pub upper_digit : ℕ → ℕ
upper_digit d = if ltb d 10 then b'0' + d else b'A' + (d - 10)

module _ (digit : ℕ → ℕ) where
  -- `do { buf[i++] = digits[x % base]; } while((x /= base) != 0);` for at most `fuel` rounds, with
  -- the last character of `buf` at the head of the list.
  unfoldable pub digit_loop : (fuel x base : ℕ) → List ℕ → List ℕ
  digit_loop zero x base buf = buf
  digit_loop (suc fuel) x base buf =
      let buf' = digit (x % base) ∷ buf in
      let rest = digit_loop fuel (x / base) base buf' in if x / base == 0 then buf' else rest

  -- The characters of `buf` from the last one down.
  unfoldable pub print_int : (xx base : ℕ) (sign : Bool) → List ℕ
  print_int xx base sign =
      let neg = sign && is_neg xx in
      let x = if neg then sub32 0 xx else xx in
      if neg then b'-' ∷ digit_loop 32 x base [] else digit_loop 32 x base []

  -- The loop of `printptr`, for `n` digits.
  unfoldable pub pointer_loop : (n x : ℕ) → List ℕ
  pointer_loop zero x = []
  pointer_loop (suc n) x = digit (x / 2 ^ 60) ∷ pointer_loop n (x * 16 % 2 ^ 64)

  unfoldable pub print_ptr : ℕ → List ℕ
  print_ptr x = b'0' ∷ b'x' ∷ pointer_loop 16 x
