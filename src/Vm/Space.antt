-- ===== src/Vm/Space.antt =====
-- kernel/vm.c: the user part of an address space is made, grown, shrunk, copied and freed. In
-- `freewalk` a table of leaves has no level below it, and the recursion is on the level.
use Prim.Native.Nat.{bit_or, bit_and}
use fog_os.Prelude.{
  ℕ, zero, suc, ◌+◌, ◌-◌, ◌*◌, ◌/◌, ◌%◌, ◌^◌, Bool, true, false, not, ◌&&◌, ◌==◌, ltb, leb,
  if◌then◌else◌, is_neg, Outcome, ok, panic, ◌>>=◌, add64,
}
use fog_os.Kalloc.{Kmem, page_size, page_round_up, kfree, kalloc}
use fog_os.Vm.{
  pte_r, pte_w, pte_x, pte_u, is_valid, pte_flags, pte_to_pa, set_word, clear_page, walk, mappages,
  uvmunmap,
}
use fog_os.Vm.Cells.{move_bytes}

-- The new page table, or 0.
unfoldable pub uvmcreate : Kmem → ℕ × Kmem
uvmcreate k =
    let (pagetable, k') = kalloc k in
    if pagetable == 0 then (0, k') else (pagetable, clear_page pagetable k')

unfoldable pub uvmfirst : (pagetable src sz : ℕ) → Kmem → Outcome Kmem
uvmfirst pagetable src sz k =
    let (mem, k') = kalloc k in
    if leb page_size sz
    then panic "uvmfirst: more than a page"
    else mappages pagetable 0 page_size mem (pte_w + pte_r + pte_x + pte_u) (clear_page mem k')
      >>= λ (mapped, k''). ok (move_bytes mem src sz k'')

-- An `int` where the code expects a `uint64`.
abbrev pub sign_extend : ℕ → ℕ
sign_extend x = if is_neg x then x + (2 ^ 64 - 2 ^ 32) else x

unfoldable pub uvmclear : (pagetable va : ℕ) → Kmem → Outcome Kmem
uvmclear pagetable va k = walk pagetable va false k >>= λ (pte, k').
    if pte == 0
    then panic "uvmclear"
    else ok (set_word k' pte (bit_and (k'.word pte) (2 ^ 64 - 1 - pte_u)))

-- The loop of `freewalk` at `pagetable[i]`, for `n` entries, where `free_child` is the recursion.
unfoldable pub free_entries :
    (free_child : ℕ → Kmem → Outcome Kmem) (n i pagetable : ℕ) → Kmem → Outcome Kmem
free_entries free_child zero i pagetable k = ok k
free_entries free_child (suc n) i pagetable k =
    let at = pagetable + i * 8 in
    let pte = k.word at in
    if is_valid pte && pte / 2 % 8 == 0
    then (free_child (pte_to_pa pte) k >>= λ k'.
        free_entries free_child n (i + 1) pagetable (set_word k' at 0))
    else if is_valid pte
    then panic "freewalk: leaf"
    else free_entries free_child n (i + 1) pagetable k

module _ (kernel_end : ℕ) where
  -- The page table `pagetable` with `level` levels under it.
  unfoldable pub freewalk : (level pagetable : ℕ) → Kmem → Outcome Kmem
  freewalk zero pagetable k =
      free_entries (λ child k'. panic "freewalk: too deep") 512 0 pagetable k
      >>= kfree kernel_end pagetable
  freewalk (suc level) pagetable k =
      free_entries (freewalk level) 512 0 pagetable k >>= kfree kernel_end pagetable

  unfoldable pub uvmdealloc : (pagetable oldsz newsz : ℕ) → Kmem → Outcome (ℕ × Kmem)
  uvmdealloc pagetable oldsz newsz k =
      let above = page_round_up newsz in
      let npages = (page_round_up oldsz - above) / page_size % 2 ^ 32 in
      if leb oldsz newsz
      then ok (oldsz, k)
      else if ltb above (page_round_up oldsz)
      then (uvmunmap kernel_end pagetable above (sign_extend npages) true k >>= λ k'.
          ok (newsz, k'))
      else ok (newsz, k)

  -- The loop of `uvmalloc` at `a`, for at most `fuel` pages, with `oldsz` rounded up.
  unfoldable pub grow_loop : (fuel pagetable a oldsz newsz xperm : ℕ) → Kmem → Outcome (ℕ × Kmem)
  grow_loop zero pagetable a oldsz newsz xperm k = ok (newsz, k)
  grow_loop (suc fuel) pagetable a oldsz newsz xperm k =
      let (mem, k') = kalloc k in
      let undo : Kmem → Outcome (ℕ × Kmem) =
        λ u. uvmdealloc pagetable a oldsz u >>= λ (sz, u'). ok (0, u') in
      elim (ltb a newsz) [
        | false ↦ ok (newsz, k)
        | true ↦ elim (mem == 0) [
          | true ↦ undo k'
          | false ↦
              mappages pagetable a page_size mem (bit_or (pte_r + pte_u) xperm) (clear_page mem k')
              >>= λ (mapped, k''). elim mapped [
                | false ↦ kfree kernel_end mem k'' >>= undo
                | true ↦ grow_loop fuel pagetable (add64 a page_size) oldsz newsz xperm k''
              ]
        ]
      ]

  -- The new size, or 0.
  unfoldable pub uvmalloc : (pagetable oldsz newsz xperm : ℕ) → Kmem → Outcome (ℕ × Kmem)
  uvmalloc pagetable oldsz newsz xperm k =
      let from = page_round_up oldsz in
      if ltb newsz oldsz
      then ok (oldsz, k)
      else grow_loop (newsz / page_size + 1) pagetable from from newsz xperm k

  unfoldable pub uvmfree : (pagetable sz : ℕ) → Kmem → Outcome Kmem
  uvmfree pagetable sz k =
      (if ltb 0 sz
        then uvmunmap kernel_end pagetable 0 (page_round_up sz / page_size) true k
        else ok k)
      >>= freewalk 2 pagetable

  -- The loop of `uvmcopy` at `i`, for at most `fuel` pages; the result is whether it returns 0.
  unfoldable pub copy_pages : (fuel old new i sz : ℕ) → Kmem → Outcome (Bool × Kmem)
  copy_pages zero old new i sz k = ok (true, k)
  copy_pages (suc fuel) old new i sz k =
      let err : Kmem → Outcome (Bool × Kmem) =
        λ u. uvmunmap kernel_end new 0 (i / page_size) true u >>= λ u'. ok (false, u') in
      elim (ltb i sz) [
        | false ↦ ok (true, k)
        | true ↦ walk old i false k >>= λ (pte, k').
            if pte == 0
            then panic "uvmcopy: pte should exist"
            else if not (is_valid (k'.word pte))
            then panic "uvmcopy: page not present"
            else let entry = k'.word pte in
              let (mem, k'') = kalloc k' in
              elim (mem == 0) [
                | true ↦ err k''
                | false ↦
                    mappages new i page_size mem (pte_flags entry)
                      (move_bytes mem (pte_to_pa entry) page_size k'')
                    >>= λ (mapped, u). elim mapped [
                      | false ↦ kfree kernel_end mem u >>= err
                      | true ↦ copy_pages fuel old new (add64 i page_size) sz u
                    ]
              ]
      ]

  unfoldable pub uvmcopy : (old new sz : ℕ) → Kmem → Outcome (Bool × Kmem)
  uvmcopy old new sz k = copy_pages (sz / page_size + 1) old new 0 sz k
