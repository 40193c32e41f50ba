-- ===== src/Vm/Flags.antt =====
-- Page-table entries: the address and the flags that `PA2PTE(pa) | perm | PTE_V` packs come back.
use Prim.Native.Nat.{max, digits, bit_or, bit_or-bitwise}
use native.Mathlib.Nat.{pow-suc}
use fog_os.Prelude.{ℕ, zero, suc, ◌+◌, ◌*◌, ◌/◌, ◌%◌, ◌^◌, ◌≤◌, ◌<◌, ◌≡◌, ◌∙◌, refl, ap, arith}
use fog_os.Vm.{pa_to_pte, pte_v}

-- The digits of `a | b`, with `fuel` digits of `a` to go.
abbrev or_digits : (fuel a b : ℕ) → ℕ
or_digits fuel a b = digits (λ rest. rest) max fuel a b

-- Any fuel that bounds `a` gives the same.
or_digits_fuel :
    (a b fuel fuel' : ℕ) → a ≤ fuel → a ≤ fuel' → or_digits fuel a b ≡ or_digits fuel' a b
or_digits_fuel zero b zero zero low low' = refl
or_digits_fuel zero b zero (suc fuel') low low' = refl
or_digits_fuel zero b (suc fuel) zero low low' = refl
or_digits_fuel zero b (suc fuel) (suc fuel') low low' = refl
or_digits_fuel (suc a) b zero fuel' low low' = absurd (omega arith)
or_digits_fuel (suc a) b (suc fuel) zero low low' = absurd (omega arith)
or_digits_fuel (suc a) b (suc fuel) (suc fuel') low low' =
    ap (λ rest. rest * 2 + max (suc a % 2) (b % 2))
      (or_digits_fuel (suc a / 2) (b / 2) fuel fuel' (omega arith) (omega arith))

or_lowest : (a b : ℕ) → bit_or a b ≡ bit_or (a / 2) (b / 2) * 2 + max (a % 2) (b % 2)
or_lowest zero b = simp bit_or-bitwise (omega arith)
or_lowest (suc a) b = simp bit_or-bitwise (
    ap (λ rest. rest * 2 + max (suc a % 2) (b % 2))
      (or_digits_fuel (suc a / 2) (b / 2) a (suc a / 2) (omega arith) (omega arith)))

or_none : (bound x : ℕ) → x ≤ bound → bit_or x 0 ≡ x
or_none zero zero low = refl
or_none zero (suc x) low = absurd (omega arith)
or_none (suc bound) x low = omega (arith, or_lowest x 0, or_none bound (x / 2) (omega arith))

-- Setting the lowest bit.
pub or_one : (x : ℕ) → bit_or x 1 ≡ x / 2 * 2 + 1
or_one x = omega (arith, or_lowest x 1, or_none x (x / 2) (omega arith))

-- Fields that do not overlap add up.
pub or_fields :
    (width high low : ℕ) → low < 2 ^ width → bit_or (high * 2 ^ width) low ≡ high * 2 ^ width + low
or_fields zero high low fits =
    let none_ : low ≡ 0 = omega (arith, fits) in
    rw none_ (or_none (high * 1) (high * 1) (omega arith) ∙ omega arith)
or_fields (suc width) high low fits =
    let power : 2 ^ suc width ≡ 2 * 2 ^ width = omega (arith, pow-suc 2 width) in
    let shift : high * 2 ^ suc width ≡ 2 * (high * 2 ^ width) =
      omega (arith, ap (λ t. high * t) power) in
    let ih = or_fields width high (low / 2) (omega (arith, fits, power)) in
    let half : high * 2 ^ suc width / 2 ≡ high * 2 ^ width = omega (arith, shift) in
    let step = or_lowest (high * 2 ^ suc width) low in
    let step' : bit_or (high * 2 ^ suc width) low
        ≡ bit_or (high * 2 ^ width) (low / 2) * 2 + max (high * 2 ^ suc width % 2) (low % 2) =
      step ∙ ap (λ x. bit_or x (low / 2) * 2 + max (high * 2 ^ suc width % 2) (low % 2)) half in
    omega (arith, step', ih, shift)

-- `PA2PTE(pa) | perm | PTE_V`, for a page `pa` and flags of ten bits.
abbrev leaf_entry : (pa perm : ℕ) → ℕ
leaf_entry pa perm = bit_or (bit_or (pa_to_pte pa) perm) pte_v

pub leaf_entry_lem :
    (pa perm : ℕ)
    → pa < 2 ^ 64
    → perm < 1024
    → leaf_entry pa perm ≡ pa / 4096 * 1024 + perm / 2 * 2 + 1
leaf_entry_lem pa perm bound small =
    let whole : pa_to_pte pa ≡ pa / 4096 * 2 ^ 10 = omega (arith, bound) in
    let flags : bit_or (pa_to_pte pa) perm ≡ pa / 4096 * 1024 + perm =
      ap (λ x. bit_or x perm) whole ∙ or_fields 10 (pa / 4096) perm small in
    or_one (bit_or (pa_to_pte pa) perm) ∙ omega (arith, flags)
