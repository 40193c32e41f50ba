-- ===== src/Ring.antt =====
-- A ring buffer: an array of `m` cells that is indexed modulo `m`, as kernel/pipe.c,
-- kernel/console.c and kernel/uart.c use one.
use mathlib.Core.Path.{ap₂, subst}
use fog_os.Prelude.{
  ℕ, zero, suc, ◌+◌, ◌-◌, ◌%◌, ◌≤◌, ◌<◌, ◌≡◌, ◌≢◌, refl, ap, List, [], ◌∷◌, ◌++◌, length, arith,
  update,
}

-- The `k` cells from position `r` on.
unfoldable pub ring : (m : ℕ) (cells : ℕ → ℕ) (r k : ℕ) → List ℕ
ring m cells r zero = []
ring m cells r (suc k) = cells (r % m) ∷ ring m cells (r + 1) k

pub length-ring : (m : ℕ) (cells : ℕ → ℕ) (r k : ℕ) → length (ring m cells r k) ≡ k
unfolding ring
length-ring m cells r zero = refl
length-ring m cells r (suc k) = omega (arith, length-ring m cells (r + 1) k)

pub ring_congr :
    (m : ℕ) (cells : ℕ → ℕ) (r s k : ℕ)
    → ((j : ℕ) → (r + j) % m ≡ (s + j) % m)
    → ring m cells r k ≡ ring m cells s k
unfolding ring
ring_congr m cells r s zero same = refl
ring_congr m cells r s (suc k) same =
    let first : r % m ≡ s % m =
      subst (λ a. a % m ≡ s % m) (omega arith)
        (subst (λ b. (r + 0) % m ≡ b % m) (omega arith) (same 0)) in
    let rest = ring_congr m cells (r + 1) (s + 1) k λ j.
      subst (λ a. a % m ≡ (s + 1 + j) % m) (omega arith)
        (subst (λ b. (r + (1 + j)) % m ≡ b % m) (omega arith) (same (1 + j))) in
    ap₂ ◌∷◌ (ap cells first) rest

-- Neighbours at a distance below `m` have different cells.
abbrev pub Apart : ℕ → Type 0
Apart m = (r d : ℕ) → 0 < d → d < m → (r + d) % m ≢ r % m

-- A write behind the last cell appends.
pub ring_push :
    (m : ℕ)
    → Apart m
    → (cells : ℕ → ℕ) (r k v : ℕ) → k < m
    → ring m (update cells ((r + k) % m) v) r (suc k) ≡ ring m cells r k ++ v ∷ []
unfolding ring
ring_push m apart cells r zero v h = let here : r + 0 ≡ r = omega arith in rw here (ground arith)
ring_push m apart cells r (suc k) v h =
    let e : r + 1 + k ≡ r + suc k = omega arith in
    let rest =
      subst
        (λ p. ring m (update cells (p % m) v) (r + 1) (suc k) ≡ ring m cells (r + 1) k ++ v ∷ []) e
        (ring_push m apart cells (r + 1) k v (omega arith)) in
    let first : update cells ((r + suc k) % m) v (r % m) ≡ cells (r % m) =
      ground (arith, apart r (suc k)) in
    ap₂ ◌∷◌ first rest

-- A write at distance `d` leaves the cells before it alone.
pub ring_keep :
    (m : ℕ)
    → Apart m
    → (cells : ℕ → ℕ) (r k d v : ℕ) → k ≤ d
    → d < m
    → ring m (update cells ((r + d) % m) v) r k ≡ ring m cells r k
unfolding ring
ring_keep m apart cells r zero d v le lt = refl
ring_keep m apart cells r (suc k) d v le lt =
    let e : r + 1 + (d - 1) ≡ r + d = omega arith in
    let first : update cells ((r + d) % m) v (r % m) ≡ cells (r % m) = ground (arith, apart r d) in
    ap₂ ◌∷◌ first (
      subst (λ p. ring m (update cells (p % m) v) (r + 1) k ≡ ring m cells (r + 1) k) e
        (ring_keep m apart cells (r + 1) k (d - 1) v (omega arith) (omega arith)))

-- Dropping the last cell.
pub ring_pop :
    (m : ℕ) (cells : ℕ → ℕ) (r k : ℕ)
    → ring m cells r (suc k) ≡ ring m cells r k ++ cells ((r + k) % m) ∷ []
unfolding ring
ring_pop m cells r zero = let here : r + 0 ≡ r = omega arith in rw here refl
ring_pop m cells r (suc k) =
    let e : r + 1 + k ≡ r + suc k = omega arith in
    ap (λ q. cells (r % m) ∷ q)
      (subst (λ p. ring m cells (r + 1) (suc k) ≡ ring m cells (r + 1) k ++ cells (p % m) ∷ []) e
        (ring_pop m cells (r + 1) k))

-- Two stretches, one behind the other.
pub ring-append :
    (m : ℕ) (cells : ℕ → ℕ) (r j k : ℕ)
    → ring m cells r (j + k) ≡ ring m cells r j ++ ring m cells (r + j) k
unfolding ring
ring-append m cells r zero k =
    let here : r + 0 ≡ r = omega arith in
    let none_yet : 0 + k ≡ k = omega arith in rw (here, none_yet) refl
ring-append m cells r (suc j) k =
    let e : r + 1 + j ≡ r + suc j = omega arith in
    let n : suc j + k ≡ suc (j + k) = omega arith in
    rw n (
      ap (λ q. cells (r % m) ∷ q)
        (subst (λ p. ring m cells (r + 1) (j + k) ≡ ring m cells (r + 1) j ++ ring m cells p k) e
          (ring-append m cells (r + 1) j k)))
