-- ===== src/Bytes/Compare.antt =====
-- `memcmp` and `strncmp` tell blocks and strings apart, and order them by their first difference.
use fog_os.Prelude.{
  ℕ, zero, suc, ◌+◌, ◌<◌, ◌≡◌, refl, Bool, true, false, ◌&&◌, ◌==◌, ltb, arith, if◌then◌else◌, inl,
  inr, Bool-cases, List, [], ◌∷◌, window, sub32, is_neg,
}
use fog_os.Bytes.{Memory, memcmp, strncmp}

-- The C string at `s`, of at most `n` bytes: what stands before the first 0.
abbrev pub cstring : (s n : ℕ) → Memory → List ℕ
cstring s zero m = []
cstring s (suc n) m = if m s == 0 then [] else m s ∷ cstring (s + 1) n m

-- The order of words: as `memcmp` compares, byte by byte, a word that is a prefix of another before it.
abbrev pub before : List ℕ → List ℕ → Bool
before xs [] = false
before [] (y ∷ ys) = true
before (x ∷ xs) (y ∷ ys) = if x == y then before xs ys else ltb x y

abbrev pub same : List ℕ → List ℕ → Bool
same [] [] = true
same [] (y ∷ ys) = false
same (x ∷ xs) [] = false
same (x ∷ xs) (y ∷ ys) = x == y && same xs ys

abbrev pub AreBytes : Memory → Type 0
AreBytes m = (a : ℕ) → m a < 256

-- A comparison of `xs` with `ys` by an `int`: zero if they are the same, negative if `xs` is before `ys`.
pub record Compares (result : ℕ) (xs ys : List ℕ) : Type 0 where
  pub zero_if_same : (result == 0) ≡ same xs ys
  pub negative_if_before : is_neg result ≡ before xs ys

Compares-cons :
    (result x y : ℕ) (xs ys : List ℕ)
    → (x == y) ≡ true
    → Compares result xs ys
    → Compares result (x ∷ xs) (y ∷ ys)
Compares-cons result x y xs ys e c = record {
  zero_if_same = rw e c.zero_if_same;
  negative_if_before = rw e c.negative_if_before;
}

Compares-differ :
    (x y : ℕ) (xs ys : List ℕ)
    → (x == y) ≡ false
    → x < 256
    → y < 256
    → Compares (sub32 x y) (x ∷ xs) (y ∷ ys)
Compares-differ x y xs ys e hx hy = record {
  zero_if_same = ground arith;
  negative_if_before = ground arith;
}

-- `memcmp` compares the two blocks, as lists of bytes, in the order of words.
pub memcmp-Compares :
    (v1 v2 n : ℕ) (m : Memory)
    → AreBytes m
    → Compares (memcmp v1 v2 n m) (window m v1 n) (window m v2 n)
unfolding memcmp
memcmp-Compares v1 v2 zero m bytes = record { zero_if_same = refl; negative_if_before = refl }
memcmp-Compares v1 v2 (suc n) m bytes =
    let rest = memcmp-Compares (v1 + 1) (v2 + 1) n m bytes in
    elim (Bool-cases (m v1 == m v2)) [
      | inl e ↦ rw (e, memcmp) (Compares-cons _ (m v1) (m v2) _ _ e rest)
      | inr e ↦ rw (e, memcmp) (Compares-differ (m v1) (m v2) _ _ e (bytes v1) (bytes v2))
    ]

-- `strncmp` compares the two C strings, cut after `n` bytes, in the order of words.
pub strncmp-Compares :
    (p q n : ℕ) (m : Memory)
    → AreBytes m
    → Compares (strncmp p q n m) (cstring p n m) (cstring q n m)
unfolding strncmp
strncmp-Compares p q zero m bytes = record { zero_if_same = refl; negative_if_before = refl }
strncmp-Compares p q (suc n) m bytes =
    let rest = strncmp-Compares (p + 1) (q + 1) n m bytes in
    elim (Bool-cases (m p == 0)) [
      | inl p_end ↦ elim (Bool-cases (m q == 0)) [
        | inl q_end ↦
            rw (p_end, q_end)
              (record {
                zero_if_same = ground (arith, bytes q);
                negative_if_before = ground (arith, bytes q);
              })
        | inr q_more ↦
            rw (p_end, q_more)
              (record {
                zero_if_same = ground (arith, bytes q);
                negative_if_before = ground (arith, bytes q);
              })
      ]
      | inr p_more ↦ elim (Bool-cases (m p == m q)) [
        | inl e ↦
            let q_more : (m q == 0) ≡ false = ground arith in
            rw (p_more, e, q_more, strncmp) (Compares-cons _ (m p) (m q) _ _ e rest)
        | inr e ↦ elim (Bool-cases (m q == 0)) [
          | inl q_end ↦
              rw (p_more, e, q_end)
                (record {
                  zero_if_same = ground (arith, bytes p);
                  negative_if_before = ground (arith, bytes p);
                })
          | inr q_more ↦
              rw (p_more, e, q_more, strncmp)
                (Compares-differ (m p) (m q) _ _ e (bytes p) (bytes q))
        ]
      ]
    ]
