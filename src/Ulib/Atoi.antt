-- ===== src/Ulib/Atoi.antt =====
-- `atoi` reads back the number that `printint` writes in base 10.
use mathlib.Core.Path.{subst}
use native.Mathlib.Nat.{pow-suc}
use fog_os.Prelude.{
  ℕ, zero, suc, ◌+◌, ◌-◌, ◌*◌, ◌/◌, ◌%◌, ◌^◌, ◌<◌, ◌≡◌, ◌∙◌, refl, sym, ap, arith, Bool, true,
  false, ◌&&◌, ◌==◌, inl, inr, Bool-cases, List, [], ◌∷◌, length, is_neg, some,
}
use fog_os.Bytes.{Memory}
use fog_os.Printf.{digit_loop, print_int, upper_digit}
use fog_os.Printf.User.{printint}
use fog_os.Ulib.{is_digit, atoi_loop, atoi}

-- The characters `cs` from `s` on, and then one that is no digit.
abbrev pub Spells : (s : ℕ) (cs : List ℕ) → Memory → Type 0
Spells s [] m = is_digit (m s) ≡ false
Spells s (c ∷ cs) m = (m s ≡ c) × Spells (s + 1) cs m

-- The digits that are read after `n`.
read : ℕ → List ℕ → ℕ
read n [] = n
read n (c ∷ cs) = read ((n * 10 + c - b'0') % 2 ^ 32) cs

-- The characters are digits.
AreDigits : List ℕ → Type 0
AreDigits [] = Unit
AreDigits (c ∷ cs) = (is_digit c ≡ true) × AreDigits cs

atoi_loop-read :
    (fuel s n : ℕ) (cs : List ℕ) (m : Memory)
    → length cs < fuel
    → AreDigits cs
    → Spells s cs m
    → atoi_loop fuel s n m ≡ some (read n cs)
unfolding atoi_loop read AreDigits
atoi_loop-read zero s n cs m enough digits spelt = absurd (omega (arith, enough))
atoi_loop-read (suc fuel) s n [] m enough digits spelt = rw spelt refl
atoi_loop-read (suc fuel) s n (c ∷ cs) m enough (digit, digits) (here, spelt) =
    rw (here, digit)
      (atoi_loop-read fuel (s + 1) ((n * 10 + c - b'0') % 2 ^ 32) cs m (omega (arith, enough))
        digits spelt)

digit_loop-more :
    (digit : ℕ → ℕ) (fuel x : ℕ) (buf : List ℕ)
    → (x / 10 == 0) ≡ false
    → digit_loop digit (suc fuel) x 10 buf
      ≡ digit_loop digit fuel (x / 10) 10 (digit (x % 10) ∷ buf)
unfolding digit_loop
digit_loop-more digit fuel x buf more = rw (more, digit_loop) refl

-- Reading the digits of `x` gives `x`, and then what follows them is read.
digit_loop-read :
    (fuel x : ℕ) (buf : List ℕ)
    → x < 10 ^ suc fuel
    → x < 2 ^ 32
    → read 0 (digit_loop upper_digit (suc fuel) x 10 buf) ≡ read x buf
unfolding read digit_loop
digit_loop-read zero x buf low bound =
    let e : (x / 10 == 0) ≡ true = ground (arith, low) in
    let last : (0 + upper_digit (x % 10) - 48) % 2 ^ 32 ≡ x = ground (arith, low) in
    rw e (ap (λ n. read n buf) last)
digit_loop-read (suc fuel) x buf low bound = elim (Bool-cases (x / 10 == 0)) [
  | inl e ↦
      let last : (0 + upper_digit (x % 10) - 48) % 2 ^ 32 ≡ x = ground (arith, e) in
      rw e (ap (λ n. read n buf) last)
  | inr e ↦
      let less : x / 10 < 10 ^ suc fuel = omega (arith, low, pow-suc 10 (suc fuel)) in
      let digit : (x / 10 * 10 + upper_digit (x % 10) - b'0') % 2 ^ 32 ≡ x =
        ground (arith, bound) in
      subst (λ z. read 0 z ≡ read x buf) (sym (digit_loop-more upper_digit (suc fuel) x buf e))
        (digit_loop-read fuel (x / 10) (upper_digit (x % 10) ∷ buf) less (omega (arith, bound))
          ∙ ap (λ n. read n buf) digit)
]

digit_loop-AreDigits :
    (fuel x : ℕ) (buf : List ℕ) → AreDigits buf → AreDigits (digit_loop upper_digit fuel x 10 buf)
unfolding digit_loop AreDigits
digit_loop-AreDigits zero x buf digits = digits
digit_loop-AreDigits (suc fuel) x buf digits =
    let first : is_digit (upper_digit (x % 10)) ≡ true = ground arith in
    elim (Bool-cases (x / 10 == 0)) [
      | inl e ↦ rw e (first, digits)
      | inr e ↦
          rw e (digit_loop-AreDigits fuel (x / 10) (upper_digit (x % 10) ∷ buf) (first, digits))
    ]

-- `atoi` of the text that `printint` writes in base 10, for a number that is not negative as an
-- `int` or is written without a sign, followed by any byte that is no digit, is the number.
pub atoi-printint :
    (fuel s x : ℕ) (sign : Bool) (m : Memory)
    → x < 2 ^ 32
    → (sign && is_neg x) ≡ false
    → length (printint x 10 sign) < fuel
    → Spells s (printint x 10 sign) m
    → atoi fuel s m ≡ some x
unfolding atoi print_int read AreDigits
atoi-printint fuel s x sign m bound plain enough spelt =
    let text : printint x 10 sign ≡ digit_loop upper_digit 32 x 10 [] = rw plain refl in
    subst (λ n. atoi_loop fuel s 0 m ≡ some n)
      (digit_loop-read 31 x [] (omega (arith, bound)) bound)
      (atoi_loop-read fuel s 0 (digit_loop upper_digit 32 x 10 []) m
        (subst (λ cs. length cs < fuel) text enough) (digit_loop-AreDigits 32 x [] tt)
        (subst (λ cs. Spells s cs m) text spelt))
