-- ===== src/Buffers/History.antt =====
-- The order of the list after any calls of the cache's routines.
use mathlib.Core.Path.{subst}
use fog_os.Prelude.{
  ℕ, ◌≡◌, refl, true, ◌==◌, List, Option-cases, Bool-cases, inl, inr, if◌then◌else◌, eqb_refl, ok,
  IfOk, sub32,
}
use fog_os.Sleeplock.{holdingsleep, acquiresleep}
use fog_os.Kalloc.FreeList.{member}
use fog_os.Buffers.{
  Cache, Turn, locked, waits, nbuf, binit, is_for, is_unused, bget, bread, fill, lock_buf, bpin,
  bunpin, recycle, bwrite, brelse, put_first, unlink,
}
use fog_os.Buffers.Lru.{
  IsOrder, lru_get, bget_lem, to_front, moved-IsOrder, descending, binit-IsOrder, first, last,
}

abbrev pub cache : Turn → Cache
cache (locked b c) = c
cache (waits b c) = c

-- The caches that the routines lead to from `binit`, by any processes, with the buffers in the
-- order of their last uses: a buffer comes first when `brelse` takes its last reference.
pub data Reach : Cache → List ℕ → Type 0 where
  start : (c : Cache) → Reach (binit c) (descending nbuf)
  get :
      {c : Cache} {xs : List ℕ} (pid dev blockno : ℕ) (t : Turn)
      → Reach c xs
      → bread pid dev blockno c ≡ ok t
      → Reach (cache t) xs
  -- A process whose buffer was locked tests its lock again.
  again :
      {c : Cache} {xs : List ℕ} (pid b : ℕ)
      → Reach c xs
      → Reach (cache (fill (lock_buf pid b c))) xs
  write :
      {c : Cache} {xs : List ℕ} (pid b : ℕ) (c' : Cache)
      → Reach c xs
      → bwrite pid b c ≡ ok c'
      → Reach c' xs
  pin : {c : Cache} {xs : List ℕ} (b : ℕ) → Reach c xs → Reach (bpin b c) xs
  unpin : {c : Cache} {xs : List ℕ} (b : ℕ) → Reach c xs → Reach (bunpin b c) xs
  release :
      {c : Cache} {xs : List ℕ} (pid b : ℕ) (c' : Cache)
      → Reach c xs
      → member b xs ≡ true
      → brelse pid b c ≡ ok c'
      → Reach c' (if (c'.buf b).refcnt == 0 then to_front b xs else xs)

-- The links are those of `c`.
record SameLinks (c c' : Cache) : Type 0 where
  next : c'.next ≡ c.next
  prev : c'.prev ≡ c.prev

SameLinks-IsOrder : (c c' : Cache) (xs : List ℕ) → SameLinks c c' → IsOrder c xs → IsOrder c' xs
SameLinks-IsOrder c c' xs same order = record {
  chain = rw (same.next, same.prev) order.chain;
  size = order.size;
  no_head = order.no_head;
  distinct = order.distinct;
}

lock_buf-SameLinks : (pid b : ℕ) (c : Cache) → SameLinks c (cache (lock_buf pid b c))
unfolding lock_buf
lock_buf-SameLinks pid b c = elim (Option-cases (acquiresleep pid (c.buf b).lock)) [
  | inl e ↦ rw (cache, e) (record { next = refl; prev = refl })
  | inr (lk, e) ↦ rw (cache, e) (record { next = refl; prev = refl })
]

fill-SameLinks : (c : Cache) (t : Turn) → SameLinks c (cache t) → SameLinks c (cache (fill t))
unfolding fill
fill-SameLinks c (waits b c') same = same
fill-SameLinks c (locked b c') same = elim (Bool-cases (c'.buf b).valid) [
  | inl e ↦ rw (cache, e) same
  | inr e ↦ rw (cache, e) (record { next = same.next; prev = same.prev })
]

bread-SameLinks :
    (pid dev blockno : ℕ) (c : Cache) (xs : List ℕ)
    → IsOrder c xs
    → IfOk (λ t. SameLinks c (cache t)) (bread pid dev blockno c)
unfolding bread bpin recycle
bread-SameLinks pid dev blockno c xs order = elim (Option-cases (first (is_for dev blockno c) xs)) [
  | inr (b, e) ↦
      rw (IfOk, bread, bget_lem pid dev blockno c xs order, lru_get, e)
        (let same = lock_buf-SameLinks pid b (bpin b c) in
          fill-SameLinks c _ (record { next = same.next; prev = same.prev }))
  | inl e ↦ elim (Option-cases (last (is_unused c) xs)) [
    | inr (b, e') ↦
        rw (IfOk, bread, bget_lem pid dev blockno c xs order, lru_get, e, e')
          (let same = lock_buf-SameLinks pid b (recycle dev blockno b c) in
            fill-SameLinks c _ (record { next = same.next; prev = same.prev }))
    | inl e' ↦ rw (IfOk, bread, bget_lem pid dev blockno c xs order, lru_get, e, e') tt
  ]
]

bwrite-SameLinks : (pid b : ℕ) (c : Cache) → IfOk (SameLinks c) (bwrite pid b c)
unfolding bwrite
bwrite-SameLinks pid b c = elim (Bool-cases (holdingsleep pid (c.buf b).lock)) [
  | inl e ↦ rw (IfOk, e) (record { next = refl; prev = refl })
  | inr e ↦ rw (IfOk, e) tt
]

front-IsOrder :
    (b : ℕ) (c : Cache) (xs : List ℕ)
    → IsOrder c xs
    → member b xs ≡ true
    → ((c.buf b).refcnt == 0) ≡ true
    → (let c' = put_first b (unlink b c) in
        IsOrder c' (if (c'.buf b).refcnt == 0 then to_front b xs else xs))
unfolding put_first unlink
front-IsOrder b c xs order in_ gone = rw gone (moved-IsOrder b c xs order in_)

brelse-IsOrder :
    (pid b : ℕ) (c : Cache) (xs : List ℕ)
    → IsOrder c xs
    → member b xs ≡ true
    → IfOk
        (λ c'. IsOrder c' (if (c'.buf b).refcnt == 0 then to_front b xs else xs))
        (brelse pid b c)
unfolding brelse
brelse-IsOrder pid b c xs order in_ = elim (Bool-cases (holdingsleep pid (c.buf b).lock)) [
  | inr e ↦ rw (IfOk, e) tt
  | inl e ↦ elim (Bool-cases (sub32 (c.buf b).refcnt 1 == 0)) [
    | inl e' ↦
        rw (IfOk, e, e')
          (front-IsOrder b _ xs
            (SameLinks-IsOrder c _ xs (record { next = refl; prev = refl }) order) in_
            (rw (eqb_refl b, e') refl))
    | inr e' ↦
        rw (IfOk, e, e', eqb_refl b, e')
          (SameLinks-IsOrder c _ xs (record { next = refl; prev = refl }) order)
  ]
]

Reach-IsOrder : (c : Cache) (xs : List ℕ) → Reach c xs → IsOrder c xs
unfolding bpin bunpin
Reach-IsOrder _ _ (start c) = binit-IsOrder c
Reach-IsOrder _ _ (get {c = c} {xs = xs} pid dev blockno t r e) =
    let order = Reach-IsOrder c xs r in
    SameLinks-IsOrder c _ xs
      (subst (IfOk (λ t. SameLinks c (cache t))) e (bread-SameLinks pid dev blockno c xs order))
      order
Reach-IsOrder _ _ (again {c = c} {xs = xs} pid b r) =
    SameLinks-IsOrder c _ xs (fill-SameLinks c _ (lock_buf-SameLinks pid b c))
      (Reach-IsOrder c xs r)
Reach-IsOrder _ _ (write {c = c} {xs = xs} pid b c' r e) =
    SameLinks-IsOrder c c' xs (subst (IfOk (SameLinks c)) e (bwrite-SameLinks pid b c))
      (Reach-IsOrder c xs r)
Reach-IsOrder _ _ (pin {c = c} {xs = xs} b r) =
    SameLinks-IsOrder c _ xs (record { next = refl; prev = refl }) (Reach-IsOrder c xs r)
Reach-IsOrder _ _ (unpin {c = c} {xs = xs} b r) =
    SameLinks-IsOrder c _ xs (record { next = refl; prev = refl }) (Reach-IsOrder c xs r)
Reach-IsOrder _ _ (release {c = c} {xs = xs} pid b c' r in_ e) =
    subst (IfOk (λ d. IsOrder d (if (d.buf b).refcnt == 0 then to_front b xs else xs))) e
      (brelse-IsOrder pid b c xs (Reach-IsOrder c xs r) in_)

-- After any calls of the cache's routines that lead from `binit`, with the buffers ordered by the
-- times when brelse took their last reference, the latest first, and those never released in the
-- order of `binit`, `bget` for a block gives the first buffer in the order that holds the block,
-- with one more reference; if none does, the last buffer in the order that has no references, now
-- for the block; and it panics if there is neither.
pub Reach-bget :
    (c : Cache) (xs : List ℕ)
    → Reach c xs
    → (pid dev blockno : ℕ) → bget pid dev blockno c ≡ lru_get pid dev blockno c xs
Reach-bget c xs r pid dev blockno = bget_lem pid dev blockno c xs (Reach-IsOrder c xs r)
