-- ===== src/Printf/Digits.antt =====
-- The digits that `printint` writes: how many there are, and what they read back as.
use native.Mathlib.Nat.{pow-zero, pow-suc, div-eq_of_lt, div-lt_iff_lt-mul}
use fog_os.Prelude.{
  ℕ, zero, suc, ◌+◌, ◌*◌, ◌/◌, ◌%◌, ◌^◌, ◌≤◌, ◌<◌, ◌≡◌, ap, arith, Bool, true, ◌&&◌, ◌==◌, ◌⊎◌, inl,
  inr, Bool-cases, List, [], ◌∷◌, length, is_neg, sub32,
}
use fog_os.Printf.{digit_loop, print_int}

module _ (digit : ℕ → ℕ) where
  -- A number under base^k has at most k digits.
  length-digit_loop :
      (k fuel x base : ℕ) (buf : List ℕ)
      → 1 < base
      → x < base ^ suc k
      → length (digit_loop digit fuel x base buf) ≤ suc k + length buf
  unfolding digit_loop
  length-digit_loop k zero x base buf more low = omega arith
  length-digit_loop zero (suc fuel) x base buf more low =
      let small : x < base =
        omega (arith, low, pow-suc base 0, ap (λ p. p * base) (pow-zero base)) in
      let last : (x / base == 0) ≡ true = ground (arith, div-eq_of_lt small) in
      rw last (omega arith)
  length-digit_loop (suc k) (suc fuel) x base buf more low = elim (Bool-cases (x / base == 0)) [
    | inl e ↦ rw e (omega arith)
    | inr e ↦
        rw (e, digit_loop)
          (let less : x / base < base ^ suc k =
              (div-lt_iff_lt-mul {k = base} {x = x} {y = base ^ suc k} (omega (arith, more))).1
                (omega (arith, low, pow-suc base (suc k))) in
            omega
              (arith, length-digit_loop k fuel (x / base) base (digit (x % base) ∷ buf) more less))
  ]

  -- An `int` in base 10 or 16, with its sign, fits the 16 characters of `buf`.
  pub length-print_int :
      (xx base : ℕ) (sign : Bool)
      → xx < 2 ^ 32
      → (base ≡ 10) ⊎ (base ≡ 16)
      → length (print_int digit xx base sign) ≤ 16
  unfolding print_int
  length-print_int xx base sign bound bases = elim (Bool-cases (sign && is_neg xx)) [
    | inl e ↦ rw e (omega (arith, fits (sub32 0 xx) (omega arith)))
    | inr e ↦ rw e (omega (arith, fits xx bound))
  ]
    where
      fits : (x : ℕ) → x < 2 ^ 32 → length (digit_loop digit 32 x base []) ≤ 10
      fits x low = elim bases [
        | inl ten ↦ rw ten (length-digit_loop 9 32 x 10 [] (omega arith) (omega (arith, low)))
        | inr hex ↦ rw hex (length-digit_loop 9 32 x 16 [] (omega arith) (omega (arith, low)))
      ]
