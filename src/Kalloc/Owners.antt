-- ===== src/Kalloc/Owners.antt =====
-- The pages that the allocator has handed out: no page is on the free list and in use, or in use
-- twice, and none is lost, whatever the owners write into their pages.
use mathlib.Core.Path.{subst}
use fog_os.Prelude.{
  ℕ, ◌+◌, ◌≤◌, ◌<◌, ◌≡◌, ◌≢◌, refl, ap, sym, ◌∙◌, Bool, true, false, not, ◌==◌, List, [], ◌∷◌,
  arith, Outcome, ok, panic, Bool-cases, eqb_refl, inl, inr, ◌⊎◌, if◌then◌else◌, update,
}
use fog_os.Kalloc.{Kmem, page_size, phystop, kfree, kinit, kalloc}
use fog_os.Kalloc.FreeList.{
  member, IsPage, Free, kfree-Free, kalloc-Free, kalloc-empty, Chain-congr,
}
use fog_os.Kalloc.Init.{kinit-Freed}

pub record Memory : Type 0 where
  pub kmem : Kmem
  pub owned : ℕ → Bool

-- After `kalloc`.
abbrev pub handed_out : Memory → Memory
handed_out s =
    let (r, k) = kalloc s.kmem in
    record { kmem = k; owned = if r == 0 then s.owned else update s.owned r true }

module _ (kernel_end : ℕ) where
  -- An owner gives back its page, or writes a word into it.
  pub data Step (s : Memory) : Memory → Type 0 where
    alloc : Step s (handed_out s)
    free :
        (p : ℕ) (k : Kmem)
        → s.owned p ≡ true
        → kfree kernel_end p s.kmem ≡ ok k
        → Step s (record { kmem = k; owned = update s.owned p false })
    write :
        (p a v : ℕ)
        → s.owned p ≡ true
        → p ≤ a
        → a < p + page_size
        → Step s (record s { kmem = record s.kmem { word = update s.kmem.word a v } })

  pub data Reach : Memory → Type 0 where
    fresh :
        (word : ℕ → ℕ) (k : Kmem)
        → kinit kernel_end word ≡ ok k
        → Reach (record { kmem = k; owned = λ p. false })
    later : {s t : Memory} → Reach s → Step s t → Reach t

  -- Each page is free or owned, and not both.
  pub record Accounted (s : Memory) : Type 0 where
    pub frees : List ℕ
    pub is_free : Free kernel_end s.kmem frees
    pub owned_pages : (p : ℕ) → s.owned p ≡ true → IsPage kernel_end p
    pub one_place : (p : ℕ) → IsPage kernel_end p → member p frees ≡ not (s.owned p)

-- What `kalloc` gives.
pub data Gives (kernel_end : ℕ) (s : Memory) : ℕ → Type 0 where
  a_page : (p : ℕ) → p ≢ 0 → IsPage kernel_end p → s.owned p ≡ false → Gives kernel_end s p
  no_page : ((p : ℕ) → IsPage kernel_end p → s.owned p ≡ true) → Gives kernel_end s 0

-- What the next calls do.
pub record Sound (kernel_end : ℕ) (s : Memory) : Type 0 where
  pub gives : Gives kernel_end s (kalloc s.kmem).0
  pub takes_back : (p : ℕ) → s.owned p ≡ true → (k : Kmem) × (kfree kernel_end p s.kmem ≡ ok k)

value : Kmem → Outcome Kmem → Kmem
value k (ok k') = k'
value k (panic why) = k

ok-inj : (k k' : Kmem) → ok k ≡ ok k' → k ≡ k'
unfolding value
ok-inj k k' e = ap (value k) e

module _ (kernel_end : ℕ) (pos : 0 < kernel_end) (fits : kernel_end ≤ phystop) where
  -- The two results of `kalloc`.
  kalloc-cases :
      (s : Memory) (a : Accounted kernel_end s)
      → ((a.frees ≡ []) × (kalloc s.kmem ≡ (0, s.kmem)))
        ⊎ ((p : ℕ) × (xs : List ℕ) × (a.frees ≡ p ∷ xs)
            × IsPage kernel_end p
            × ((kalloc s.kmem).0 ≡ p)
            × Free kernel_end (kalloc s.kmem).1 xs
            × (member p xs ≡ false))
  kalloc-cases s a = go a.frees a.is_free
    where
      go :
          (xs : List ℕ)
          → Free kernel_end s.kmem xs
          → ((xs ≡ []) × (kalloc s.kmem ≡ (0, s.kmem)))
            ⊎ ((p : ℕ) × (ys : List ℕ) × (xs ≡ p ∷ ys)
                × IsPage kernel_end p
                × ((kalloc s.kmem).0 ≡ p)
                × Free kernel_end (kalloc s.kmem).1 ys
                × (member p ys ≡ false))
      go [] f = inl (refl, kalloc-empty kernel_end s.kmem f)
      go (p ∷ ys) f =
          let (got, rest) = kalloc-Free kernel_end pos s.kmem p ys f in
          inr (p, ys, refl, f.pages p (ground arith), got, rest, f.distinct.0)

  alloc-Accounted : (s : Memory) → Accounted kernel_end s → Accounted kernel_end (handed_out s)
  alloc-Accounted s a = elim (kalloc-cases s a) [
    | inl (none_left, fails) ↦ rw fails a
    | inr (p, xs, frees_, page, got, rest, new) ↦
        let test : (p == 0) ≡ false = ground (arith, page.above) in
        rw (got, test)
          (record {
            frees = xs;
            is_free = rest;
            owned_pages = λ q h. elim (Bool-cases (q == p)) [
              | inl same ↦ (let e : q ≡ p = ground arith in rw e page)
              | inr other ↦ a.owned_pages q (ground arith)
            ];
            one_place = λ q h. elim (Bool-cases (q == p)) [
              | inl same ↦ (let e : q ≡ p = ground arith in rw (e, eqb_refl p) new)
              | inr other ↦ ground (arith, a.one_place q h, ap (member q) frees_)
            ];
          })
  ]

  free-Accounted :
      (s : Memory) (p : ℕ) (k : Kmem)
      → s.owned p ≡ true
      → kfree kernel_end p s.kmem ≡ ok k
      → Accounted kernel_end s
      → Accounted kernel_end (record { kmem = k; owned = update s.owned p false })
  free-Accounted s p k owns frees_ a =
      let page = a.owned_pages p owns in
      let (k', freed, f) =
        kfree-Free kernel_end pos p s.kmem a.frees page (ground (arith, a.one_place p page))
          a.is_free in
      record {
        frees = p ∷ a.frees;
        is_free =
            subst (λ k''. Free kernel_end k'' (p ∷ a.frees)) (ok-inj k' k (sym freed ∙ frees_)) f;
        owned_pages = λ q h. a.owned_pages q (ground arith);
        one_place = λ q h. ground (arith, a.one_place q h);
      }

  write-Accounted :
      (s : Memory) (p x v : ℕ)
      → s.owned p ≡ true
      → p ≤ x
      → x < p + page_size
      → Accounted kernel_end s
      → Accounted kernel_end (record s { kmem = record s.kmem { word = update s.kmem.word x v } })
  write-Accounted s p x v owns from to a =
      let page = a.owned_pages p owns in
      let apart : (q : ℕ) → member q a.frees ≡ true → s.kmem.word q ≡ update s.kmem.word x v q =
        λ q h.
          (let at = a.is_free.pages q h in
            ground
              (arith, at.aligned, page.aligned, a.one_place p page, ap (λ y. member y a.frees))) in
      record {
        frees = a.frees;
        is_free = record {
          chain = Chain-congr s.kmem.word _ s.kmem.freelist a.frees apart a.is_free.chain;
          distinct = a.is_free.distinct;
          pages = a.is_free.pages;
        };
        owned_pages = a.owned_pages;
        one_place = a.one_place;
      }

  Step-Accounted :
      {s t : Memory} → Step kernel_end s t → Accounted kernel_end s → Accounted kernel_end t
  Step-Accounted {s} alloc a = alloc-Accounted s a
  Step-Accounted {s} (free p k owns frees_) a = free-Accounted s p k owns frees_ a
  Step-Accounted {s} (write p x v owns from to) a = write-Accounted s p x v owns from to a

  Reach-Accounted : {s : Memory} → Reach kernel_end s → Accounted kernel_end s
  Reach-Accounted (fresh word k started) =
      let (k', did, freed) = kinit-Freed kernel_end pos word fits in
      let same = ok-inj k' k (sym did ∙ started) in
      record {
        frees = freed.frees;
        is_free = subst (λ k''. Free kernel_end k'' freed.frees) same freed.is_free;
        owned_pages = λ p h. absurd (ground arith);
        one_place = λ p h. ground (arith, freed.all_of_them p, h.aligned, h.above, h.below);
      }
  Reach-Accounted (later r step) = Step-Accounted step (Reach-Accounted r)

  -- From `kinit` on, through any calls of `kalloc` and `kfree` and any writes of the owners into
  -- their pages: `kalloc` hands out a page that nobody owns, and 0 only when every page is owned;
  -- and `kfree` takes back any page that is owned.
  pub Reach-Sound : {s : Memory} → Reach kernel_end s → Sound kernel_end s
  Reach-Sound {s} r = record {
    gives = elim (kalloc-cases s a) [
      | inl (none_left, fails) ↦
          rw fails (no_page (λ p page. ground (arith, a.one_place p page, ap (member p) none_left)))
      | inr (p, xs, frees_, page, got, rest, new) ↦ rw got (
          a_page p (omega (arith, page.above)) page
            (ground (arith, a.one_place p page, ap (member p) frees_)))
    ];
    takes_back = λ p owns.
        let page = a.owned_pages p owns in
        let (k, did, f) =
          kfree-Free kernel_end pos p s.kmem a.frees page (ground (arith, a.one_place p page))
            a.is_free in
        (k, did);
  }
    where
      a : Accounted kernel_end s
      a = Reach-Accounted r
