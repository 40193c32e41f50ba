-- ===== src/Buffers/Lru.antt =====
-- The list of the buffers as the order of their last uses.
use mathlib.Core.Path.{subst}
use fog_os.Prelude.{
  ℕ, zero, suc, ◌+◌, ◌≤◌, ◌≡◌, ◌≢◌, refl, sym, ap, Bool, true, false, ◌==◌, List, [], ◌∷◌, arith,
  Option-cases, inl, inr, if◌then◌else◌, length, Option, none, some, Outcome, ok, panic,
}
use fog_os.Sleeplock.{initsleeplock}
use fog_os.Kalloc.FreeList.{member, IsDistinct}
use fog_os.Buffers.{
  Cache, Turn, nbuf, head, is_for, is_unused, forward, backward, bget, bpin, recycle, lock_buf,
  put_first, unlink, set_buf, binit, init_loop,
}
use fog_os.Buffers.Ring.{
  Chain, remove, past-Chain, past_next, past_prev, first_next, first_prev, first-Chain,
  member-remove, remove-IsDistinct, remove-gone, length-remove,
}

abbrev pub IsLinked : Cache → List ℕ → Type 0
IsLinked c xs = Chain c.next c.prev head xs head

-- The list holds the `NBUF` buffers `xs`, the most recently used first.
pub record IsOrder (c : Cache) (xs : List ℕ) : Type 0 where
  pub chain : IsLinked c xs
  pub size : length xs ≡ nbuf
  pub no_head : member head xs ≡ false
  pub distinct : IsDistinct xs

-- The first and the last element that passes a test.
abbrev pub first : (ℕ → Bool) → List ℕ → Option ℕ
first test [] = none
first test (x ∷ xs) = if test x then some x else first test xs

abbrev pub or_else : Option ℕ → Option ℕ → Option ℕ
or_else (some x) o = some x
or_else none o = o

abbrev pub last : (ℕ → Bool) → List ℕ → Option ℕ
last test [] = none
last test (x ∷ xs) = or_else (last test xs) (if test x then some x else none)

-- `bget` over the order `xs`: the buffer of the block, with one more reference; or else the unused
-- buffer whose last use is the longest ago, for the block.
abbrev pub lru_get : (pid dev blockno : ℕ) → Cache → List ℕ → Outcome Turn
lru_get pid dev blockno c xs = elim (first (is_for dev blockno c) xs) [
  | some b ↦ ok (lock_buf pid b (bpin b c))
  | none ↦ elim (last (is_unused c) xs) [
    | some b ↦ ok (lock_buf pid b (recycle dev blockno b c))
    | none ↦ panic "bget: no buffers"
  ]
]

or_else-none : (o : Option ℕ) → or_else o none ≡ o
or_else-none none = refl
or_else-none (some x) = refl

or_else-or_else : (o p q : Option ℕ) → or_else (or_else o p) q ≡ or_else o (or_else p q)
or_else-or_else (some x) p q = refl
or_else-or_else none p q = refl

or_else-if :
    (t : Bool) (x : ℕ) (o : Option ℕ)
    → or_else (if t then some x else none) o ≡ (if t then some x else o)
or_else-if true x o = refl
or_else-if false x o = refl

module _ (c : Cache) (test : ℕ → Bool) where
  forward_lem :
      (a k : ℕ) (xs : List ℕ)
      → Chain c.next c.prev a xs head
      → member head xs ≡ false
      → forward (length xs + suc k) (c.next a) test c ≡ first test xs
  unfolding forward
  forward_lem a k [] (there, here) out =
      let only : length {A = ℕ} [] + suc k ≡ suc k = omega arith in rw (only, forward, there) refl
  forward_lem a k (x ∷ xs) (there, here, c') out =
      let rest = forward_lem x k xs c' (ground (arith, out)) in
      let ne : (x == head) ≡ false = ground (arith, out) in
      let more : length (x ∷ xs) + suc k ≡ suc (length xs + suc k) = omega arith in
      rw (more, forward, there, ne, rest) refl

  backward_lem :
      (a k : ℕ) (xs : List ℕ) (z : ℕ)
      → Chain c.next c.prev a xs z
      → member head xs ≡ false
      → backward (length xs + k) (c.prev z) test c ≡ or_else (last test xs) (backward k a test c)
  unfolding backward
  backward_lem a k [] z (there, here) out =
      let none_ : length {A = ℕ} [] + k ≡ k = omega arith in rw (none_, here) refl
  backward_lem a k (x ∷ xs) z (there, here, c') out =
      let rest = backward_lem x (suc k) xs z c' (ground (arith, out)) in
      let ne : (x == head) ≡ false = ground (arith, out) in
      let more : length (x ∷ xs) + k ≡ length xs + suc k = omega arith in
      rw (more, rest, backward, ne, here, or_else-or_else, ← or_else-if (test x) x) refl

-- Over a cache whose list is in order, `bget` is `lru_get` on that order.
pub bget_lem :
    (pid dev blockno : ℕ) (c : Cache) (xs : List ℕ)
    → IsOrder c xs
    → bget pid dev blockno c ≡ lru_get pid dev blockno c xs
unfolding bget backward
bget_lem pid dev blockno c xs order =
    let there = forward_lem c (is_for dev blockno c) head 0 xs order.chain order.no_head in
    let back = backward_lem c (is_unused c) head 1 xs head order.chain order.no_head in
    let there' =
      subst
        (λ n.
          forward (n + 1) (c.next head) (is_for dev blockno c) c ≡ first (is_for dev blockno c) xs)
        order.size there in
    let back' =
      subst
        (λ n.
          backward (n + 1) (c.prev head) (is_unused c) c
          ≡ or_else (last (is_unused c) xs) (backward 1 head (is_unused c) c))
        order.size back in
    elim (Option-cases (first (is_for dev blockno c) xs)) [
      | inl e ↦ rw (bget, lru_get, there', e, back', or_else-none (last (is_unused c) xs)) refl
      | inr (b, e) ↦ rw (bget, lru_get, there', e) refl
    ]

-- `b` put first.
abbrev pub to_front : ℕ → List ℕ → List ℕ
to_front b xs = b ∷ remove b xs

if_same : (t : Bool) (x : ℕ) → (if t then x else x) ≡ x
if_same true x = refl
if_same false x = refl

unlink_lem :
    (b : ℕ) (c : Cache)
    → unlink b c ≡ record c { next = past_next c.next c.prev b; prev = past_prev c.next c.prev b }
unfolding unlink
unlink_lem b c = rw (if_same (b == c.next b) (c.prev b)) refl

put_first_lem :
    (b : ℕ) (c : Cache)
    → put_first b c
      ≡ record c { next = first_next c.next c.prev b head; prev = first_prev c.next c.prev b head }
unfolding put_first
put_first_lem b c = rw (if_same (head == b) (c.next head)) refl

put_first-Chain :
    (b : ℕ) (c : Cache) (xs : List ℕ)
    → IsLinked c xs
    → member head (b ∷ xs) ≡ false
    → IsDistinct (b ∷ xs)
    → IsLinked (put_first b c) (b ∷ xs)
put_first-Chain b c xs chain no_head (new, distinct) =
    let ne : head ≢ b = ground (arith, no_head) in
    let out : member head xs ≡ false = ground (arith, no_head) in
    subst (λ d. IsLinked d (b ∷ xs)) (sym (put_first_lem b c))
      (first-Chain c.next c.prev b head xs head ne ne out out new distinct chain)

pub moved-IsOrder :
    (b : ℕ) (c : Cache) (xs : List ℕ)
    → IsOrder c xs
    → member b xs ≡ true
    → IsOrder (put_first b (unlink b c)) (to_front b xs)
moved-IsOrder b c xs order in_ =
    let distinct = remove-IsDistinct b xs order.distinct in
    let gone = remove-gone b xs order.distinct in
    let no_head = member-remove head b xs order.no_head in
    let ne : head ≢ b = λ e. absurd (ground (arith, ap (λ q. member q xs) e, in_, order.no_head)) in
    let past =
      past-Chain c.next c.prev b head xs head order.no_head order.no_head order.distinct order.chain
        in_ in
    record {
      chain =
          subst (λ d. IsLinked (put_first b d) (to_front b xs)) (sym (unlink_lem b c))
            (put_first-Chain b
              (record c { next = past_next c.next c.prev b; prev = past_prev c.next c.prev b })
              (remove b xs) past (ground (arith, ne, no_head)) (gone, distinct));
      size = omega (arith, length-remove b xs in_, order.size);
      no_head = ground (arith, ne, no_head);
      distinct = (gone, distinct);
    }

-- The buffers `n - 1`, …, `0`.
abbrev pub descending : ℕ → List ℕ
descending zero = []
descending (suc n) = n ∷ descending n

descending-above : (q n : ℕ) → n ≤ q → member q (descending n) ≡ false
descending-above q zero le = refl
descending-above q (suc n) le =
    let rest = descending-above q n (omega (arith, le)) in ground (arith, rest, le)

descending-IsDistinct : (n : ℕ) → IsDistinct (descending n)
descending-IsDistinct zero = tt
descending-IsDistinct (suc n) = (descending-above n n (omega arith), descending-IsDistinct n)

length-descending : (n : ℕ) → length (descending n) ≡ n
length-descending zero = refl
length-descending (suc n) = omega (arith, length-descending n)

init_loop-Chain :
    (left b : ℕ) (c : Cache)
    → b + left ≡ nbuf
    → IsLinked c (descending b)
    → IsLinked (init_loop left b c) (descending nbuf)
unfolding init_loop
init_loop-Chain zero b c all chain =
    let e : b ≡ nbuf = omega (arith, all) in subst (λ n. IsLinked c (descending n)) e chain
init_loop-Chain (suc left) b c all chain =
    let c' = set_buf b (record (c.buf b) { lock = initsleeplock }) c in
    let more : b + 1 ≡ suc b = omega arith in
    let out = descending-above head b (omega (arith, all)) in
    let next =
      put_first-Chain b c' (descending b) chain (ground (arith, out, all))
        (descending-above b b (omega arith), descending-IsDistinct b) in
    init_loop-Chain left (b + 1) (put_first b c') (omega (arith, all))
      (subst (λ n. IsLinked (put_first b c') (descending n)) (sym more) next)

pub binit-IsOrder : (c : Cache) → IsOrder (binit c) (descending nbuf)
unfolding binit
binit-IsOrder c = record {
  chain = init_loop-Chain nbuf 0 _ refl (refl, refl);
  size = length-descending nbuf;
  no_head = descending-above head nbuf (omega arith);
  distinct = descending-IsDistinct nbuf;
}
