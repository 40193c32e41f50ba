-- ===== src/Bytes/Copy.antt =====
-- What the copying routines leave in their destination, when it does not overlap the source.
use mathlib.Core.Path.{ap₂, subst}
use fog_os.Prelude.{
  ℕ, zero, suc, ◌+◌, ◌-◌, ◌^◌, ◌≤◌, ◌<◌, ◌≡◌, ◌≢◌, refl, ap, sym, ◌∙◌, true, false, ◌||◌, ◌==◌,
  arith, ◌⊎◌, inl, inr, Bool-cases, List, [], ◌∷◌, window, update, is_neg, some,
}
use fog_os.Bytes.{Memory, zeros, strncpy_loop, strncpy, safe_loop, safestrcpy, strlen_loop, strlen}
use fog_os.Bytes.Block.{within}
use fog_os.Bytes.Compare.{cstring}

cstring_congr :
    (s n : ℕ) (m m' : Memory)
    → ((a : ℕ) → s ≤ a → a < s + n → m a ≡ m' a)
    → cstring s n m ≡ cstring s n m'
cstring_congr s zero m m' same = refl
cstring_congr s (suc n) m m' same =
    let first : m s ≡ m' s = same s (omega arith) (omega arith) in
    let rest = cstring_congr (s + 1) n m m' (λ a from to. same a (omega arith) (omega arith)) in
    rw (first, rest) refl

zeros_outside : (s n : ℕ) (m : Memory) (a : ℕ) → within s n a ≡ false → zeros s n m a ≡ m a
unfolding zeros
zeros_outside s zero m a out = refl
zeros_outside s (suc n) m a out =
    zeros_outside (s + 1) n (update m s 0) a (ground arith) ∙ ground arith

safe_loop_outside :
    (s t k : ℕ) (m : Memory) (a : ℕ) → within s (k + 1) a ≡ false → safe_loop s t k m a ≡ m a
unfolding safe_loop
safe_loop_outside s t zero m a out = ground arith
safe_loop_outside s t (suc k) m a out = elim (Bool-cases (m t == 0)) [
  | inl end ↦ rw (end, safe_loop) (ground arith)
  | inr more ↦
      rw (more, safe_loop)
        (safe_loop_outside (s + 1) (t + 1) k (update m s (m t)) a (ground arith) ∙ ground arith)
]

-- The destination is `k + 1` bytes, of which `k` come from the source.
safe_loop_lem :
    (s t k : ℕ) (m : Memory)
    → (s + k < t) ⊎ (t + k ≤ s)
    → cstring s (suc k) (safe_loop s t k m) ≡ cstring t k m
unfolding safe_loop
safe_loop_lem s t zero m apart =
    let end : (update m s 0 s == 0) ≡ true = ground arith in rw end refl
safe_loop_lem s t (suc k) m apart = elim (Bool-cases (m t == 0)) [
  | inl end ↦
      let here : (update (update m s (m t)) (s + 1) 0 s == 0) ≡ true = ground arith in
      rw (end, here) refl
  | inr more ↦
      let m' : Memory = update m s (m t) in
      let at : safe_loop (s + 1) (t + 1) k m' s ≡ m t =
        safe_loop_outside (s + 1) (t + 1) k m' s (ground arith) ∙ ground arith in
      let next : (s + 1 + k < t + 1) ⊎ (t + 1 + k ≤ s + 1) = elim apart [
        | inl h ↦ inl (omega arith)
        | inr h ↦ inr (omega arith)
      ] in
      let unread =
        cstring_congr (t + 1) k m' m
          (λ a from to. elim apart [ inl h ↦ ground arith | inr h ↦ ground arith ]) in
      let rest = safe_loop_lem (s + 1) (t + 1) k m' next ∙ unread in
      rw (more, safe_loop) (rw (at, more) (ap (λ q. m t ∷ q) rest))
]

-- `safestrcpy` with a positive `n` leaves at `s`, within its `n` bytes, the string at `t` cut after
-- `n - 1` bytes, ended by a 0, and writes no other byte, when the two blocks do not overlap.
pub safestrcpy_lem :
    (s t n : ℕ) (m : Memory)
    → 0 < n
    → n < 2 ^ 31
    → (s + n ≤ t) ⊎ (t + n ≤ s)
    → (cstring s n (safestrcpy s t n m) ≡ cstring t (n - 1) m)
      × ((a : ℕ) → within s n a ≡ false → safestrcpy s t n m a ≡ m a)
unfolding safestrcpy
safestrcpy_lem s t zero m pos word apart = absurd (omega arith)
safestrcpy_lem s t (suc k) m pos word apart =
    let go : (is_neg (suc k) || suc k == 0) ≡ false = ground arith in
    let less : suc k - 1 ≡ k = omega arith in
    rw (go, less)
      (
        safe_loop_lem s t k m
            (elim apart [ inl h ↦ inl (omega arith) | inr h ↦ inr (omega arith) ]),
        λ a out. safe_loop_outside s t k m a (ground arith),
      )

-- `xs`, cut or filled up with zeros to `n` bytes.
abbrev pub pad : (n : ℕ) → List ℕ → List ℕ
pad zero xs = []
pad (suc n) [] = 0 ∷ pad n []
pad (suc n) (x ∷ xs) = x ∷ pad n xs

zeros_lem : (s n : ℕ) (m : Memory) → window (zeros s n m) s n ≡ pad n []
unfolding zeros
zeros_lem s zero m = refl
zeros_lem s (suc n) m =
    ap₂ ◌∷◌ (zeros_outside (s + 1) n (update m s 0) s (ground arith) ∙ ground arith)
      (zeros_lem (s + 1) n (update m s 0))

strncpy_outside :
    (s t n : ℕ) (m : Memory) (a : ℕ) → within s n a ≡ false → strncpy_loop s t n m a ≡ m a
unfolding strncpy_loop
strncpy_outside s t zero m a out = refl
strncpy_outside s t (suc n) m a out = elim (Bool-cases (m t == 0)) [
  | inl end ↦
      rw (end, strncpy_loop)
        (zeros_outside (s + 1) n (update m s (m t)) a (ground arith) ∙ ground arith)
  | inr more ↦
      rw (more, strncpy_loop)
        (strncpy_outside (s + 1) (t + 1) n (update m s (m t)) a (ground arith) ∙ ground arith)
]

strncpy_loop_lem :
    (s t n : ℕ) (m : Memory)
    → (s + n ≤ t) ⊎ (t + n ≤ s)
    → window (strncpy_loop s t n m) s n ≡ pad n (cstring t n m)
unfolding strncpy_loop
strncpy_loop_lem s t zero m apart = refl
strncpy_loop_lem s t (suc n) m apart = elim (Bool-cases (m t == 0)) [
  | inl end ↦
      let m' : Memory = update m s (m t) in
      let at : zeros (s + 1) n m' s ≡ 0 =
        zeros_outside (s + 1) n m' s (ground arith) ∙ ground arith in
      let whole : strncpy_loop s t (suc n) m ≡ zeros (s + 1) n m' = rw end refl in
      ap (λ f. window f s (suc n)) whole ∙ rw end (ap₂ ◌∷◌ at (zeros_lem (s + 1) n m'))
  | inr more ↦
      let m' : Memory = update m s (m t) in
      let at : strncpy_loop (s + 1) (t + 1) n m' s ≡ m t =
        strncpy_outside (s + 1) (t + 1) n m' s (ground arith) ∙ ground arith in
      let next : (s + 1 + n ≤ t + 1) ⊎ (t + 1 + n ≤ s + 1) = elim apart [
        | inl h ↦ inl (omega arith)
        | inr h ↦ inr (omega arith)
      ] in
      let unread =
        cstring_congr (t + 1) n m' m
          (λ a from to. elim apart [ inl h ↦ ground arith | inr h ↦ ground arith ]) in
      let whole : strncpy_loop s t (suc n) m ≡ strncpy_loop (s + 1) (t + 1) n m' = rw more refl in
      ap (λ f. window f s (suc n)) whole
      ∙ rw more (ap₂ ◌∷◌ at (strncpy_loop_lem (s + 1) (t + 1) n m' next ∙ ap (pad n) unread))
]

-- `strncpy` with a nonnegative `n` leaves in the `n` bytes at `s` the string at `t`, cut or filled
-- up with zeros, and writes no other byte, when the two blocks do not overlap.
pub strncpy_lem :
    (s t n : ℕ) (m : Memory)
    → n < 2 ^ 31
    → (s + n ≤ t) ⊎ (t + n ≤ s)
    → (window (strncpy s t n m) s n ≡ pad n (cstring t n m))
      × ((a : ℕ) → within s n a ≡ false → strncpy s t n m a ≡ m a)
unfolding strncpy
strncpy_lem s t n m word apart =
    let go : is_neg n ≡ false = ground arith in
    rw go (strncpy_loop_lem s t n m apart, λ a out. strncpy_outside s t n m a out)

strlen_loop_lem :
    (fuel s i k : ℕ) (m : Memory)
    → k < fuel
    → ((j : ℕ) → i ≤ j → j < i + k → m (s + j) ≢ 0)
    → m (s + (i + k)) ≡ 0
    → strlen_loop fuel s i m ≡ some (i + k)
unfolding strlen_loop
strlen_loop_lem zero s i k m lt some_ end = absurd (omega arith)
strlen_loop_lem (suc fuel) s i zero m lt some_ end =
    let here : i + 0 ≡ i = omega arith in
    let end' : m (s + i) ≡ 0 = subst (λ x. m (s + x) ≡ 0) here end in
    let at : (m (s + i) == 0) ≡ true = ground arith in rw (at, here) refl
strlen_loop_lem (suc fuel) s i (suc k) m lt some_ end =
    let at : (m (s + i) == 0) ≡ false = ground (arith, some_ i) in
    let e : i + suc k ≡ i + 1 + k = omega arith in
    rw (at, e, strlen_loop)
      (strlen_loop_lem fuel s (i + 1) k m (omega arith)
        (λ j from to. some_ j (omega arith) (omega arith)) (subst (λ x. m (s + x) ≡ 0) e end))

-- With more rounds than bytes before the first 0, `strlen` counts these bytes.
pub strlen_lem :
    (fuel s k : ℕ) (m : Memory)
    → k < fuel
    → ((j : ℕ) → j < k → m (s + j) ≢ 0)
    → m (s + k) ≡ 0
    → strlen fuel s m ≡ some k
unfolding strlen
strlen_lem fuel s k m lt some_ end =
    let e : 0 + k ≡ k = omega arith in
    rw (← e) (
      strlen_loop_lem fuel s 0 k m lt (λ j from to. some_ j (omega arith))
        (subst (λ x. m (s + x) ≡ 0) (sym e) end))
