-- ===== src/Vm/Cells.antt =====
-- Bytes of the memory of words: the byte at an address, little-endian, and `memmove` on them.
use mathlib.Core.Path.{subst}
use native.Mathlib.Nat.{pow-suc, div-div-eq-div-mul}
use fog_os.Prelude.{
  ℕ, zero, suc, ◌+◌, ◌*◌, ◌/◌, ◌%◌, ◌^◌, ◌≤◌, ◌<◌, ◌≡◌, ◌∙◌, refl, sym, ap, fun_ext, arith, inl,
  inr, ◌⊎◌,
}
use fog_os.Kalloc.{Kmem}
use fog_os.Bytes.{Memory, memmove}
use fog_os.Bytes.Little.{little, little_bound, little-congr, mod-mul_low}
use fog_os.Bytes.Block.{memmove_lem}

abbrev pub byte_of : (word : ℕ → ℕ) → Memory
byte_of word a = word (a / 8 * 8) / 256 ^ (a % 8) % 256

-- The word at `a`.
abbrev pub word_of : Memory → ℕ → ℕ
word_of m a = little 8 a m

-- `memmove(dst, src, n)`
unfoldable pub move_bytes : (dst src n : ℕ) → Kmem → Kmem
move_bytes dst src n k = record k { word = word_of (memmove dst src n (byte_of k.word)) }

byte_at :
    (n a i : ℕ) (m : Memory)
    → ((x : ℕ) → m x < 256)
    → i < n
    → little n a m / 256 ^ i % 256 ≡ m (a + i)
unfolding little
byte_at zero a i m small bound = absurd (omega arith)
byte_at (suc n) a zero m small bound =
    let opened : little (suc n) a m ≡ m a + 256 * little n (a + 1) m = refl in
    let at : a + 0 ≡ a = omega arith in rw (opened, at) (omega (arith, small a))
byte_at (suc n) a (suc i) m small bound =
    let tail : little (suc n) a m / 256 ≡ little n (a + 1) m = omega (arith, small a) in
    let power : 256 ^ suc i ≡ 256 * 256 ^ i = omega (arith, pow-suc 256 i) in
    let at : a + suc i ≡ a + 1 + i = omega arith in
    rw (power, ← div-div-eq-div-mul (little (suc n) a m) 256 (256 ^ i), tail, at)
      (byte_at n (a + 1) i m small (omega arith))

pub byte_of-word_of : (m : Memory) (a : ℕ) → ((x : ℕ) → m x < 256) → byte_of (word_of m) a ≡ m a
byte_of-word_of m a small =
    let at : a / 8 * 8 + a % 8 ≡ a = omega arith in
    byte_at 8 (a / 8 * 8) (a % 8) m small (omega arith) ∙ ap m at

-- The bytes `i`, ..., `i + n - 1` of the word at `b`.
little-byte_of :
    (n i b : ℕ) (word : ℕ → ℕ)
    → b % 8 ≡ 0
    → i + n ≤ 8
    → little n (b + i) (byte_of word) ≡ word b / 256 ^ i % 256 ^ n
unfolding little
little-byte_of zero i b word aligned fits = omega arith
little-byte_of (suc n) i b word aligned fits =
    let block : (b + i) / 8 * 8 ≡ b = omega arith in
    let place : (b + i) % 8 ≡ i = omega arith in
    let at : b + i + 1 ≡ b + suc i = omega arith in
    let ih = little-byte_of n (suc i) b word aligned (omega arith) in
    let power : 256 ^ suc i ≡ 256 ^ i * 256 = omega (arith, pow-suc 256 i) in
    let power' : 256 ^ suc n ≡ 256 * 256 ^ n = omega (arith, pow-suc 256 n) in
    let split = div-div-eq-div-mul (word b) (256 ^ i) 256 in
    rw (block, place, at, ih, power, ← split, power')
      (sym (mod-mul_low (word b / 256 ^ i) (256 ^ n)))

pub word_of-byte_of :
    (word : ℕ → ℕ) (a : ℕ) → a % 8 ≡ 0 → word a < 2 ^ 64 → word_of (byte_of word) a ≡ word a
word_of-byte_of word a aligned bound =
    let first : a + 0 ≡ a = omega arith in
    subst (λ x. little 8 x (byte_of word) ≡ word a) first
      (little-byte_of 8 0 a word aligned (omega arith) ∙ omega (arith, bound))

pub byte_of_bound : (word : ℕ → ℕ) (a : ℕ) → byte_of word a < 256
byte_of_bound word a = omega arith

module _ (dst src n : ℕ) (k : Kmem) where
  memmove_bound : (x : ℕ) → memmove dst src n (byte_of k.word) x < 256
  memmove_bound x =
      subst (λ v. v < 256) (sym (memmove_lem dst src n (byte_of k.word) x)) (ground arith)

  -- `memmove` on the bytes of the words is `memmove`.
  pub byte_of-move_bytes :
      byte_of (move_bytes dst src n k).word ≡ memmove dst src n (byte_of k.word)
  unfolding move_bytes
  byte_of-move_bytes =
      fun_ext (λ a. byte_of-word_of (memmove dst src n (byte_of k.word)) a memmove_bound)

  pub move_bytes_bound : (a : ℕ) → (move_bytes dst src n k).word a < 2 ^ 64
  unfolding move_bytes
  move_bytes_bound a = little_bound 8 a (memmove dst src n (byte_of k.word)) memmove_bound

  -- It leaves a word that the destination does not meet as it was.
  pub move_bytes_apart :
      (a : ℕ)
      → a % 8 ≡ 0
      → k.word a < 2 ^ 64
      → (a + 8 ≤ dst) ⊎ (dst + n ≤ a)
      → (move_bytes dst src n k).word a ≡ k.word a
  unfolding move_bytes
  move_bytes_apart a aligned bound apart =
      little-congr 8 a (memmove dst src n (byte_of k.word)) (byte_of k.word) (λ x from to.
        memmove_lem dst src n (byte_of k.word) x
        ∙ elim apart [ inl h ↦ ground (arith, from, to) | inr h ↦ ground (arith, from, to) ])
      ∙ word_of-byte_of k.word a aligned bound
