-- ===== src/Vm/Map.antt =====
-- The address that a page is found at after `mappages`.
use mathlib.Core.Path.{subst}
use Prim.Native.Nat.{bit_or}
use fog_os.Prelude.{
  add64, sub64, ℕ, suc, ◌+◌, ◌*◌, ◌/◌, ◌%◌, ◌^◌, ◌<◌, ◌≡◌, ◌≢◌, ◌∙◌, refl, sym, ap, Bool, true,
  false, ◌==◌, leb, if◌then◌else◌, List, ◌++◌, arith, length, Outcome, ok, panic, Bool-cases, inl,
  inr, eqb_refl, eqb_ne,
}
use fog_os.Kalloc.{Kmem, page_size}
use fog_os.Kalloc.FreeList.{member, Free}
use fog_os.Vm.{
  maxva, is_valid, is_user, pa_to_pte, page_round_down, map_loop, set_word, walk, mappages, pte_v,
}
use fog_os.Vm.Flags.{leaf_entry_lem}
use fog_os.Vm.Walk.{translate, translate-find}
use fog_os.Vm.Tables.{tables, Tidy, Walked, found, page_of, is_mapped}
use fog_os.Vm.Link.{walk_from-Walked}

-- What `mappages` returns for one page: by whether the memory of the call has a valid entry for the
-- address, and the memory afterwards, outside the tables and the pages that were free.
pub data Mapped (pagetable va pa : ℕ) (k : Kmem) (frees : List ℕ)
    : Outcome (Bool × Kmem) → Type 0 where
  no_memory :
      (k' : Kmem)
      → length frees < 2
      → is_mapped 2 va pagetable k.word ≡ false
      → ((a : ℕ)
          → member (page_of a) (tables 2 va pagetable k.word ++ frees) ≡ false
          → k'.word a ≡ k.word a)
      → Mapped pagetable va pa k frees (ok (false, k'))
  mapped :
      (k' : Kmem)
      → is_mapped 2 va pagetable k.word ≡ false
      → translate pagetable va k'.word ≡ pa
      → ((a : ℕ)
          → member (page_of a) (tables 2 va pagetable k.word ++ frees) ≡ false
          → k'.word a ≡ k.word a)
      → Mapped pagetable va pa k frees (ok (true, k'))
  remap :
      is_mapped 2 va pagetable k.word ≡ true
      → Mapped pagetable va pa k frees (panic "mappages: remap")

-- The first round of the loop is the last one.
map_loop-Mapped :
    (kernel_end : ℕ)
    → 0 < kernel_end
    → (fuel pagetable va pa perm : ℕ) (k : Kmem) (frees : List ℕ) → Free kernel_end k frees
    → Tidy 2 va pagetable k.word frees
    → va < maxva
    → pa % 4096 ≡ 0
    → pa < 2 ^ 64
    → perm < 1024
    → is_user perm ≡ true
    → Mapped pagetable va pa k frees (map_loop (suc fuel) pagetable va va pa perm k)
unfolding map_loop walk
map_loop-Mapped kernel_end pos fuel pagetable va pa perm k frees free tidy below page fits flags
      user =
    let test : leb maxva va ≡ false = ground (arith, below) in
    rw test (go (walk_from-Walked kernel_end pos 2 va pagetable k frees free tidy))
  where
    packed : bit_or (bit_or (pa_to_pte pa) perm) pte_v ≡ pa / 4096 * 1024 + perm / 2 * 2 + 1
    packed = leaf_entry_lem pa perm fits flags

    go :
        {o : ℕ × Kmem}
        → Walked 2 va pagetable k frees o
        → Mapped pagetable va pa k frees (
            let entry = bit_or (bit_or (pa_to_pte pa) perm) pte_v in
            if o.0 == 0
            then ok (false, o.1)
            else if is_valid (o.1.word o.0)
            then panic "mappages: remap"
            else elim (va == va) [
              | true ↦ ok (true, set_word o.1 o.0 entry)
              | false ↦
                  map_loop fuel pagetable
                    (add64 va page_size)
                    va
                    (add64 pa page_size)
                    perm
                    (set_word o.1 o.0 entry)
            ])
    go (Walked.no_memory k' few frame none_) = no_memory k' few none_ frame
    go (found pte k' nonzero inside frame finds was) =
        let test : (pte == 0) ≡ false = eqb_ne pte 0 nonzero in
        elim (Bool-cases (is_valid (k'.word pte))) [
          | inl valid ↦ rw (test, valid) (remap (was ∙ valid))
          | inr invalid ↦
              rw (test, invalid)
                (rw (eqb_refl va) (
                  mapped _ (was ∙ invalid)
                    (let set = set_word k' pte (bit_or (bit_or (pa_to_pte pa) perm) pte_v) in
                      let here : set.word pte ≡ pa / 4096 * 1024 + perm / 2 * 2 + 1 =
                        rw (eqb_refl pte) packed in
                      translate-find va pagetable pte set.word below
                        (finds set.word (λ a ne. rw (eqb_ne a pte ne) refl)) nonzero
                        (ground (arith, here)) (ground (arith, here, user))
                      ∙ omega (arith, here, page, fits, flags))
                    (λ a out.
                      let other : a ≢ pte = λ e. absurd (
                        ground (
                          arith,
                          out,
                          inside,
                          ap (λ x. member (page_of x) (tables 2 va pagetable k.word ++ frees)) e,
                        )) in
                      rw (eqb_ne a pte other) (frame a out))))
        ]

-- `mappages` of one page for the user panics exactly if the table has a valid entry for the address
-- already. Otherwise it maps the page where `walkaddr` finds it, or fails, with fewer than two free
-- pages; and in both cases the tables for the address and the free pages are all it writes.
pub mappages-Mapped :
    (kernel_end : ℕ)
    → 0 < kernel_end
    → (pagetable va pa perm : ℕ) (k : Kmem) (frees : List ℕ) → Free kernel_end k frees
    → Tidy 2 va pagetable k.word frees
    → va % 4096 ≡ 0
    → va < maxva
    → pa % 4096 ≡ 0
    → pa < 2 ^ 64
    → perm < 1024
    → is_user perm ≡ true
    → Mapped pagetable va pa k frees (mappages pagetable va page_size pa perm k)
unfolding mappages
mappages-Mapped kernel_end pos pagetable va pa perm k frees free tidy va_page below pa_page fits
      flags user =
    let first : page_round_down va ≡ va = omega (arith, va_page) in
    let last : page_round_down (sub64 (add64 va page_size) 1) ≡ va =
      omega (arith, va_page, below) in
    let once =
      map_loop-Mapped kernel_end pos 67108864 pagetable va pa perm k frees free tidy below pa_page
        fits flags user in
    subst
      (λ z.
        Mapped pagetable va pa k frees
          (map_loop 67108865 pagetable (page_round_down va) z pa perm k))
      (sym last)
      (subst (λ z. Mapped pagetable va pa k frees (map_loop 67108865 pagetable z va pa perm k))
        (sym first) once)
