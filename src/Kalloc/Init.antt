-- ===== src/Kalloc/Init.antt =====
-- `kinit` frees the pages between the end of the kernel and PHYSTOP.
use fog_os.Prelude.{
  ℕ, zero, suc, ◌+◌, ◌*◌, ◌%◌, ◌≤◌, ◌<◌, ◌≡◌, refl, ◌&&◌, ◌==◌, ltb, leb, List, [], ◌∷◌, arith, ok,
  Bool-cases, inl, inr, add64,
}
use fog_os.Kalloc.{Kmem, page_size, phystop, page_round_up, free_pages, freerange, kinit}
use fog_os.Kalloc.FreeList.{member, IsPage, Free, kfree-Free}

-- The free pages are those from `start` up to `p`.
pub record Freed (kernel_end start p : ℕ) (k : Kmem) : Type 0 where
  pub frees : List ℕ
  pub is_free : Free kernel_end k frees
  pub all_of_them : (q : ℕ) → member q frees ≡ (q % page_size == 0 && (leb start q && ltb q p))

module _ (kernel_end : ℕ) (pos : 0 < kernel_end) where
  free_pages-Freed :
      (start fuel p : ℕ) (k : Kmem)
      → kernel_end ≤ start
      → start ≤ p
      → p % page_size ≡ 0
      → p ≤ phystop
      → phystop ≤ p + fuel * page_size
      → Freed kernel_end start p k
      → (k' : Kmem) × (free_pages kernel_end fuel p phystop k ≡ ok k')
        × Freed kernel_end start phystop k'
  unfolding free_pages
  free_pages-Freed start zero p k le le' al below enough f =
      let end : p ≡ phystop = omega arith in (k, refl, rw (← end) f)
  free_pages-Freed start (suc fuel) p k le le' al below enough f =
      elim (Bool-cases (leb (add64 p page_size) phystop)) [
        | inl more ↦
            let page : IsPage kernel_end p = record {
              aligned = al;
              above = omega arith;
              below = ground arith;
            } in
            let (k', frees_, f') =
              kfree-Free kernel_end pos p k f.frees page (ground (arith, f.all_of_them p))
                f.is_free in
            let next : Freed kernel_end start (add64 p page_size) k' = record {
              frees = p ∷ f.frees;
              is_free = f';
              all_of_them = λ q. ground (arith, f.all_of_them q);
            } in
            let (k'', rest, done) =
              free_pages-Freed start fuel (add64 p page_size) k' le (ground arith) (omega arith)
                (ground arith) (ground arith) next in
            (k'', rw (more, frees_) rest, done)
        | inr no_more ↦ let end : p ≡ phystop = ground arith in (k, rw no_more refl, rw (← end) f)
      ]

  -- `kinit` panics at no page, and afterwards exactly the pages from the end of the kernel, rounded
  -- up to a page, up to PHYSTOP are on the free list, each of them once.
  pub kinit-Freed :
      (word : ℕ → ℕ)
      → kernel_end ≤ phystop
      → (k : Kmem) × (kinit kernel_end word ≡ ok k)
        × Freed kernel_end (page_round_up kernel_end) phystop k
  unfolding kinit freerange
  kinit-Freed word fits =
      free_pages-Freed (page_round_up kernel_end) _ (page_round_up kernel_end) _ (omega arith)
        (omega arith) (omega arith) (omega arith) (omega arith)
        (record {
          frees = [];
          is_free = record { chain = refl; distinct = tt; pages = λ q h. absurd (ground arith) };
          all_of_them = λ q. ground arith;
        })
