-- ===== src/Kalloc/FreeList.antt =====
-- The list of free pages that the memory holds, and how `kfree` and `kalloc` change it.
use fog_os.Prelude.{
  ℕ, ◌%◌, ◌≤◌, ◌<◌, ◌≡◌, ◌≢◌, refl, ap, Bool, true, false, not, ◌||◌, ◌==◌, ltb, leb, update, List,
  [], ◌∷◌, arith, ok, Bool-cases, inl, inr,
}
use fog_os.Kalloc.{Kmem, page_size, phystop, memset_page, kfree, kalloc}

abbrev pub member : ℕ → List ℕ → Bool
member p [] = false
member p (x ∷ xs) = p == x || member p xs

abbrev pub IsDistinct : List ℕ → Type 0
IsDistinct [] = Unit
IsDistinct (x ∷ xs) = (member x xs ≡ false) × IsDistinct xs

-- A page that `kfree` accepts.
pub record IsPage (kernel_end p : ℕ) : Type 0 where
  pub aligned : p % page_size ≡ 0
  pub above : kernel_end ≤ p
  pub below : p < phystop

-- From `head` on the words link the pages `xs`.
abbrev pub Chain : (ℕ → ℕ) → (head : ℕ) → List ℕ → Type 0
Chain word head [] = head ≡ 0
Chain word head (x ∷ xs) = (head ≡ x) × (x ≢ 0) × Chain word (word x) xs

pub Chain-congr :
    (word word' : ℕ → ℕ) (head : ℕ) (xs : List ℕ)
    → ((p : ℕ) → member p xs ≡ true → word p ≡ word' p)
    → Chain word head xs
    → Chain word' head xs
Chain-congr word word' head [] same c = c
Chain-congr word word' head (x ∷ xs) same (here, pos, c) =
    let at : word x ≡ word' x = same x (ground arith) in
    (here, pos, rw (← at) (Chain-congr word word' (word x) xs (λ p h. same p (ground arith)) c))

-- The free list is `xs`: pages, each of them once.
pub record Free (kernel_end : ℕ) (k : Kmem) (xs : List ℕ) : Type 0 where
  pub chain : Chain k.word k.freelist xs
  pub distinct : IsDistinct xs
  pub pages : (p : ℕ) → member p xs ≡ true → IsPage kernel_end p

pub member_ne : (q p : ℕ) (xs : List ℕ) → member q xs ≡ true → member p xs ≡ false → q ≢ p
member_ne q p xs in_ out e = absurd (ground (arith, in_, out, ap (λ x. member x xs) e))

module _ (kernel_end : ℕ) (pos : 0 < kernel_end) where
  pub kfree-Free :
      (p : ℕ) (k : Kmem) (xs : List ℕ)
      → IsPage kernel_end p
      → member p xs ≡ false
      → Free kernel_end k xs
      → (k' : Kmem) × (kfree kernel_end p k ≡ ok k') × Free kernel_end k' (p ∷ xs)
  unfolding kfree
  kfree-Free p k xs page new f =
      let passes : (not (p % page_size == 0) || ltb p kernel_end || leb phystop p) ≡ false =
        ground (arith, page.aligned, page.above, page.below) in
      let word' : ℕ → ℕ = update (memset_page p 1 k.word) p k.freelist in
      let here : word' p ≡ k.freelist = ground arith in
      let apart : (q : ℕ) → member q xs ≡ true → k.word q ≡ word' q = λ q h.
        (let other = member_ne q p xs h new in
          ground (arith, (f.pages q h).aligned, page.aligned)) in
      (
        record { freelist = p; word = word' },
        rw passes refl,
        record {
          chain = (
            refl,
            omega (arith, page.above, pos),
            rw here (Chain-congr k.word word' k.freelist xs apart f.chain),
          );
          distinct = (new, f.distinct);
          pages = λ q h. elim (Bool-cases (q == p)) [
            | inl same ↦ (let e : q ≡ p = ground arith in rw e page)
            | inr other ↦ f.pages q (ground arith)
          ];
        },
      )

  pub kalloc-Free :
      (k : Kmem) (p : ℕ) (xs : List ℕ)
      → Free kernel_end k (p ∷ xs)
      → ((kalloc k).0 ≡ p) × Free kernel_end (kalloc k).1 xs
  unfolding kalloc
  kalloc-Free k p xs f =
      let (head, nonzero, rest) = f.chain in
      let page = f.pages p (ground arith) in
      let (new, distinct) = f.distinct in
      let test : (k.freelist == 0) ≡ false = ground arith in
      let word' : ℕ → ℕ = memset_page k.freelist 5 k.word in
      let apart : (q : ℕ) → member q xs ≡ true → k.word q ≡ word' q = λ q h.
        (let other = member_ne q p xs h new in
          ground (arith, (f.pages q (ground arith)).aligned, page.aligned, head)) in
      rw test (
        head,
        record {
          chain = Chain-congr k.word word' (k.word k.freelist) xs apart (rw head rest);
          distinct = distinct;
          pages = λ q h. f.pages q (ground arith);
        },
      )

pub kalloc-empty : (kernel_end : ℕ) (k : Kmem) → Free kernel_end k [] → kalloc k ≡ (0, k)
unfolding kalloc
kalloc-empty kernel_end k f =
    let none_left : (k.freelist == 0) ≡ true = ground (arith, f.chain) in rw none_left refl
