-- ===== src/Vm/Link.antt =====
-- A walk that allocates: new tables are linked, and the entry is found afterwards.
use mathlib.Core.Path.{subst}
use Prim.Native.Nat.{bit_or}
use fog_os.Prelude.{
  ℕ, zero, suc, ◌+◌, ◌*◌, ◌/◌, ◌%◌, ◌<◌, ◌≡◌, ◌≢◌, ◌∙◌, refl, sym, ap, true, false, ◌==◌,
  if◌then◌else◌, List, [], ◌∷◌, ◌++◌, arith, Bool-cases, inl, inr, eqb_ne,
}
use fog_os.Kalloc.{Kmem, phystop, memset_page, kalloc}
use fog_os.Kalloc.FreeList.{member, member_ne, IsDistinct, Free, IsPage, Chain-congr, kalloc-empty}
use fog_os.Vm.{is_valid, pte_to_pa, pa_to_pte, px, set_word, clear_page, walk_from, pte_v}
use fog_os.Vm.Flags.{or_one}
use fog_os.Vm.Walk.{find}
use fog_os.Vm.Tables.{
  tables, Tidy, Walked, no_memory, found, page_of, or_right, step-Walked, tables-below, tables-none,
  is_mapped-below, is_mapped-none,
}

-- `PA2PTE(page) | PTE_V`
abbrev table_entry : ℕ → ℕ
table_entry p = bit_or (pa_to_pte p) pte_v

table_entry_lem :
    (p : ℕ)
    → p % 4096 ≡ 0
    → p < phystop
    → (is_valid (table_entry p) ≡ true) × (pte_to_pa (table_entry p) ≡ p)
table_entry_lem p aligned below =
    let packed : table_entry p ≡ p / 4096 * 1024 + 1 =
      or_one (pa_to_pte p) ∙ omega (arith, aligned, below) in
    (ground (arith, packed), omega (arith, packed, aligned, below))

module _ (kernel_end : ℕ) (pos : 0 < kernel_end) where
  -- A page `p` taken from the free list, cleared and linked from the entry at `at` of the table.
  module _ (k : Kmem) (p : ℕ) (ys : List ℕ) (free : Free kernel_end k (p ∷ ys)) where
    kalloc_lem : kalloc k ≡ (p, record { freelist = k.word p; word = memset_page p 5 k.word })
    unfolding kalloc
    kalloc_lem =
        let (head, nonzero, rest) = free.chain in
        let test : (p == 0) ≡ false = eqb_ne p 0 nonzero in rw head (rw test refl)

    module _ (pagetable at : ℕ) (aligned : pagetable % 4096 ≡ 0) (inside : page_of at ≡ pagetable)
        (new : member pagetable (p ∷ ys) ≡ false) where
      abbrev linked : Kmem
      linked =
          set_word (clear_page p (record { freelist = k.word p; word = memset_page p 5 k.word })) at
            (table_entry p)

      page : IsPage kernel_end p
      page = free.pages p (ground arith)

      linked-elsewhere : (a : ℕ) → page_of a ≢ p → a ≢ at → linked.word a ≡ k.word a
      linked-elsewhere a off_page off_entry = ground (arith, page.aligned)

      linked-free : (q : ℕ) → member q ys ≡ true → linked.word q ≡ k.word q
      linked-free q m =
          let other = member_ne q p ys m free.distinct.0 in
          let apart = member_ne q pagetable (p ∷ ys) (or_right (q == p) m) new in
          let place = (free.pages q (or_right (q == p) m)).aligned in
          linked-elsewhere q (λ e. other (omega (arith, e, place)))
            (λ e. apart (omega (arith, e, place, inside)))

      linked-Free : Free kernel_end linked ys
      linked-Free = record {
        chain =
            Chain-congr k.word linked.word (k.word p) ys (λ q m. sym (linked-free q m))
              free.chain.2;
        distinct = free.distinct.1;
        pages = λ q m. free.pages q (or_right (q == p) m);
      }

      -- The new table is empty.
      linked-invalid : (level va : ℕ) → is_valid (linked.word (p + px level va * 8)) ≡ false
      linked-invalid level va =
          let here : linked.word (p + px level va * 8) ≡ 0 =
            ground (arith, page.aligned, inside, new) in
          ap is_valid here

      linked-tables : (level va : ℕ) → tables level va p linked.word ≡ p ∷ []
      linked-tables level va = tables-none level va p linked.word (linked-invalid level va)

      linked-Tidy : (level va : ℕ) → Tidy level va p linked.word ys
      linked-Tidy level va = record {
        distinct = subst (λ ts. IsDistinct (ts ++ ys)) (sym (linked-tables level va)) free.distinct;
        aligned = λ q m.
            let m' = subst (λ ts. member q ts ≡ true) (linked-tables level va) m in
            let same : q ≡ p = ground (arith, m') in
            rw same (page.aligned, λ e. absurd (omega (arith, e, page.above, pos)));
      }

  -- The step that allocates, after an invalid entry, where the walk one level down is `below`.
  alloc-Walked :
      (level va pagetable : ℕ) (k : Kmem) (frees : List ℕ)
      → let at = pagetable + px (suc level) va * 8 in
        let page = (kalloc k).0 in
        let made = set_word (clear_page page (kalloc k).1) at (table_entry page) in
        Free kernel_end k frees
        → pagetable % 4096 ≡ 0
        → member pagetable frees ≡ false
        → is_valid (k.word at) ≡ false
        → ((t : ℕ) (k' : Kmem) (rest : List ℕ)
            → Free kernel_end k' rest
            → Tidy level va t k'.word rest
            → Walked level va t k' rest (walk_from level va true t k'))
        → Walked
            (suc level)
            va
            pagetable
            k
            frees
            (if page == 0 then (0, (kalloc k).1) else walk_from level va true page made)
  alloc-Walked level va pagetable k [] free aligned new invalid below =
      rw (kalloc-empty kernel_end k free) (
        no_memory k (omega arith) (λ a out. refl)
          (is_mapped-none (suc level) va pagetable k.word invalid))
  alloc-Walked level va pagetable k (p ∷ ys) free aligned new invalid below =
      let at = pagetable + px (suc level) va * 8 in
      let inside : page_of at ≡ pagetable = omega (arith, aligned) in
      let page = free.pages p (ground arith) in
      let test : (p == 0) ≡ false = eqb_ne p 0 (free.chain.1) in
      let made = linked k p ys free pagetable at aligned inside new in
      let only = tables-none (suc level) va pagetable k.word invalid in
      let next = linked-tables k p ys free pagetable at aligned inside new level va in
      let (valid, leads) = table_entry_lem p page.aligned page.below in
      let here : made.word at ≡ table_entry p = ground arith in
      rw (kalloc_lem k p ys free) (
        rw test (
          step-Walked level va pagetable p k made (p ∷ ys) ys aligned (ap is_valid here ∙ valid)
            (ap pte_to_pa here ∙ leads)
            (subst (λ ts. member pagetable (ts ++ ys) ≡ false) (sym next) new) (omega arith)
            (λ q m.
              subst (λ ts. member q (ts ++ (p ∷ ys)) ≡ true) (sym only)
                (or_right (q == pagetable) (subst (λ ts. member q (ts ++ ys) ≡ true) next m)))
            (λ a out.
              let out' : member (page_of a) (pagetable ∷ p ∷ ys) ≡ false =
                subst (λ ts. member (page_of a) (ts ++ (p ∷ ys)) ≡ false) only out in
              linked-elsewhere k p ys free pagetable at aligned inside new a
                (λ e. absurd (ground (arith, out', e)))
                (λ e. absurd (ground (arith, out', ap page_of e, inside))))
            (is_mapped-none (suc level) va pagetable k.word invalid
              ∙ sym (
                  is_mapped-none level va p made.word
                    (linked-invalid k p ys free pagetable at aligned inside new level va)))
            (below p made ys (linked-Free k p ys free pagetable at aligned inside new)
              (linked-Tidy k p ys free pagetable at aligned inside new level va))))

  -- On tables and free pages that do not overlap.
  pub walk_from-Walked :
      (level va pagetable : ℕ) (k : Kmem) (frees : List ℕ)
      → Free kernel_end k frees
      → Tidy level va pagetable k.word frees
      → Walked level va pagetable k frees (walk_from level va true pagetable k)
  unfolding walk_from tables find
  walk_from-Walked zero va pagetable k frees free tidy =
      let (page, nonzero) = tidy.aligned pagetable (ground arith) in
      found _ _ (λ e. nonzero (omega (arith, e))) (ground (arith, page)) (λ a out. refl)
        (λ word same. refl)
        (let test : (pagetable + px 0 va * 8 == 0) ≡ false =
            eqb_ne _ 0 (λ e. nonzero (omega (arith, e))) in
          rw test refl)
  walk_from-Walked (suc level) va pagetable k frees free tidy =
      let at = pagetable + px (suc level) va * 8 in
      let (page, nonzero) = tidy.aligned pagetable (ground arith) in
      elim (Bool-cases (is_valid (k.word at))) [
        | inl valid ↦
            let below = tables-below level va pagetable k.word valid in
            let distinct : IsDistinct
                ((pagetable ∷ tables level va (pte_to_pa (k.word at)) k.word) ++ frees) =
              subst (λ ts. IsDistinct (ts ++ frees)) below tidy.distinct in
            rw valid (
              step-Walked level va pagetable (pte_to_pa (k.word at)) k k frees frees page valid refl
                distinct.0 (omega arith)
                (λ p m.
                  subst (λ ts. member p (ts ++ frees) ≡ true) (sym below)
                    (or_right (p == pagetable) m))
                (λ a out. refl) (is_mapped-below level va pagetable k.word valid)
                (walk_from-Walked level va (pte_to_pa (k.word at)) k frees free (record {
                  distinct = distinct.1;
                  aligned = λ p m.
                      tidy.aligned p (
                        subst (λ ts. member p ts ≡ true) (sym below) (or_right (p == pagetable) m));
                })))
        | inr invalid ↦
            let only = tables-none (suc level) va pagetable k.word invalid in
            let distinct = subst (λ ts. IsDistinct (ts ++ frees)) only tidy.distinct in
            rw invalid (
              alloc-Walked level va pagetable k frees free page distinct.0 invalid
                (λ t k' rest. walk_from-Walked level va t k' rest))
      ]
