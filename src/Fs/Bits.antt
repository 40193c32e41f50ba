-- ===== src/Fs/Bits.antt =====
-- Bits of a byte: testing, setting and clearing one with a mask, checked for every byte.
use Prim.Native.Nat.{bit_and, bit_or}
use mathlib.Core.Path.{subst}
use fog_os.Prelude.{
  Bool-cases, inl, inr, ℕ, zero, suc, ◌-◌, ◌/◌, ◌%◌, ◌^◌, ◌<◌, ◌≡◌, refl, sym, Bool, true, false,
  not, ◌&&◌, ◌||◌, ◌==◌, arith, ltb,
}

-- Bit `k` of the byte `v`.
abbrev pub bit : (v k : ℕ) → Bool
bit v k = v / 2 ^ k % 2 == 1

and_true : (a b : Bool) → (a && b) ≡ true → (a ≡ true) × (b ≡ true)
and_true true b h = (refl, h)
and_true false b h = absurd (ground arith)

-- `p` holds of the numbers under the bound.
every : (p : ℕ → Bool) (bound : ℕ) → Bool
every p zero = true
every p (suc k) = every p k && p k

at_each : (p : ℕ → Bool) (bound : ℕ) → every p bound ≡ true → (i : ℕ) → i < bound → p i ≡ true
unfolding every
at_each p zero holds i under = absurd (omega arith)
at_each p (suc k) holds i under =
    let (below, here) = and_true (every p k) (p k) holds in
    elim (Bool-cases (i == k)) [
      | inl last ↦ (let e : k ≡ i = ground arith in subst (λ x. p x ≡ true) e here)
      | inr lower ↦ at_each p k below i (ground arith)
    ]

abbrev iff : Bool → Bool → Bool
iff true b = b
iff false b = not b

iff-eq : (a b : Bool) → iff a b ≡ true → a ≡ b
iff-eq true true h = refl
iff-eq false false h = refl
iff-eq true false h = sym h
iff-eq false true h = h

-- Everything about byte `v`, bit `k` and the mask of bit `j`.
abbrev byte_law : (v j k : ℕ) → Bool
byte_law v j k =
    iff (bit_and v (2 ^ j) == 0) (not (bit v j))
    && (iff (bit (bit_or v (2 ^ j)) k) (k == j || bit v k)
        && iff (bit (bit_and v (255 - 2 ^ j)) k) (not (k == j) && bit v k))

byte_table : every (λ v. every (λ j. every (λ k. byte_law v j k) 8) 8) 256 ≡ true
unfolding every
byte_table = refl

byte_law_lem : (v j k : ℕ) → v < 256 → j < 8 → k < 8 → byte_law v j k ≡ true
byte_law_lem v j k hv hj hk = at_each _ 8 (at_each _ 8 (at_each _ 256 byte_table v hv) j hj) k hk

bytes_table :
    every (λ v. every (λ j. ltb (bit_or v (2 ^ j)) 256 && ltb (bit_and v (255 - 2 ^ j)) 256) 8) 256
    ≡ true
unfolding every
bytes_table = refl

bytes_law :
    (v j : ℕ)
    → v < 256
    → j < 8
    → (ltb (bit_or v (2 ^ j)) 256 && ltb (bit_and v (255 - 2 ^ j)) 256) ≡ true
bytes_law v j hv hj = at_each _ 8 (at_each _ 256 bytes_table v hv) j hj

module _ (v j : ℕ) (hv : v < 256) (hj : j < 8) where
  pub test_bit : (bit_and v (2 ^ j) == 0) ≡ not (bit v j)
  test_bit = iff-eq _ _ (and_true _ _ (byte_law_lem v j j hv hj hj)).0

  pub set_bit : (k : ℕ) → k < 8 → bit (bit_or v (2 ^ j)) k ≡ (k == j || bit v k)
  set_bit k hk = iff-eq _ _ (and_true _ _ (and_true _ _ (byte_law_lem v j k hv hj hk)).1).0

  pub clear_bit : (k : ℕ) → k < 8 → bit (bit_and v (255 - 2 ^ j)) k ≡ (not (k == j) && bit v k)
  clear_bit k hk = iff-eq _ _ (and_true _ _ (and_true _ _ (byte_law_lem v j k hv hj hk)).1).1

  pub set_byte : bit_or v (2 ^ j) < 256
  set_byte = ground (arith, bytes_law v j hv hj)

  pub clear_byte : bit_and v (255 - 2 ^ j) < 256
  clear_byte = ground (arith, bytes_law v j hv hj)
