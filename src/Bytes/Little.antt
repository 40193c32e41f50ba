-- ===== src/Bytes/Little.antt =====
-- Fields of several bytes, little-endian, as the fields of the structures on the disk and the words
-- of the page tables are.
use native.Mathlib.Nat.{pow-suc, mod-eq-sub-mul-div, div-add-mod, div-div-eq-div-mul}
use fog_os.Prelude.{
  ℕ, zero, suc, ◌+◌, ◌-◌, ◌*◌, ◌/◌, ◌%◌, ◌^◌, ◌≤◌, ◌<◌, ◌≡◌, ◌∙◌, refl, sym, arith, update, ◌==◌,
  false, ◌⊎◌, inl, inr, eqb_refl,
}
use fog_os.Bytes.{Memory}

-- The `n` bytes from `a` on, as one number.
unfoldable pub little : (n a : ℕ) → Memory → ℕ
little zero a m = 0
little (suc n) a m = m a + 256 * little n (a + 1) m

-- The low `n` bytes of `v`, from `a` on.
unfoldable pub put_little : (n a v : ℕ) → Memory → Memory
put_little zero a v m = m
put_little (suc n) a v m = put_little n (a + 1) (v / 256) (update m a (v % 256))

pub little_bound : (n a : ℕ) (m : Memory) → ((x : ℕ) → m x < 256) → little n a m < 256 ^ n
unfolding little
little_bound zero a m small = omega arith
little_bound (suc n) a m small =
    let ih = little_bound n (a + 1) m small in
    let power : 256 ^ suc n ≡ 256 * 256 ^ n = omega (arith, pow-suc 256 n) in
    let opened : little (suc n) a m ≡ m a + 256 * little n (a + 1) m = refl in
    rw (opened, power) (omega (arith, small a, ih))

pub little-congr :
    (n a : ℕ) (m m' : Memory)
    → ((x : ℕ) → a ≤ x → x < a + n → m x ≡ m' x)
    → little n a m ≡ little n a m'
unfolding little
little-congr zero a m m' same = refl
little-congr (suc n) a m m' same =
    let here : m a ≡ m' a = same a (omega arith) (omega arith) in
    let next = little-congr n (a + 1) m m' (λ x from to. same x (omega arith) (omega arith)) in
    rw (here, next) refl

pub mod-mul_low : (y p : ℕ) → y % (256 * p) ≡ y % 256 + 256 * (y / 256 % p)
mod-mul_low y p =
    let whole : y % (256 * p) ≡ y - 256 * p * (y / 256 / p) =
      rw (div-div-eq-div-mul y 256 p) (mod-eq-sub-mul-div y (256 * p)) in
    grind (arith, whole, div-add-mod (y / 256) p)

-- Writing a field leaves the other bytes as they were.
pub put_little_apart :
    (n a v x : ℕ) (m : Memory) → (x < a) ⊎ (a + n ≤ x) → put_little n a v m x ≡ m x
unfolding put_little
put_little_apart zero a v x m apart = refl
put_little_apart (suc n) a v x m apart =
    let other : (x == a) ≡ false = elim apart [
      | inl h ↦ ground (arith, h)
      | inr h ↦ ground (arith, h)
    ] in
    put_little_apart n (a + 1) (v / 256) x (update m a (v % 256))
      (elim apart [ inl h ↦ inl (omega (arith, h)) | inr h ↦ inr (omega (arith, h)) ])
    ∙ (rw other refl)

-- A field holds what was written to it.
pub little-put_little : (n a v : ℕ) (m : Memory) → little n a (put_little n a v m) ≡ v % 256 ^ n
unfolding little put_little
little-put_little zero a v m = omega arith
little-put_little (suc n) a v m =
    let power : 256 ^ suc n ≡ 256 * 256 ^ n = omega (arith, pow-suc 256 n) in
    let first : put_little n (a + 1) (v / 256) (update m a (v % 256)) a ≡ v % 256 =
      put_little_apart n (a + 1) (v / 256) a (update m a (v % 256)) (inl (omega arith))
      ∙ (rw (eqb_refl a) refl) in
    let rest = little-put_little n (a + 1) (v / 256) (update m a (v % 256)) in
    rw (first, rest, power) (sym (mod-mul_low v (256 ^ n)))

pub little-apart :
    (n a k b v : ℕ) (m : Memory)
    → (a + n ≤ b) ⊎ (b + k ≤ a)
    → little n a (put_little k b v m) ≡ little n a m
little-apart n a k b v m apart = little-congr n a (put_little k b v m) m (λ x from to.
    put_little_apart k b v x m (elim apart [
      | inl h ↦ inl (omega (arith, from, to, h))
      | inr h ↦ inr (omega (arith, from, h))
    ]))
