-- ===== src/Vm.antt =====
-- kernel/vm.c and its macros in kernel/riscv.h: page-table entries, the walk of a page table, and
-- the routines that map and unmap pages. An address is a `uint64`, a page table is the address of
-- its page, and memory is the words of `Kmem`; `va < maxva` bounds every address that is walked.
pub mod Cells
pub mod Flags
pub mod Walk
pub mod Tables
pub mod Link
pub mod Map
pub mod Kernel
pub mod Space
pub mod Copy
mod Tests
use Prim.Native.Nat.{bit_or}
use fog_os.Prelude.{
  ℕ, zero, suc, ◌+◌, ◌-◌, ◌*◌, ◌/◌, ◌%◌, ◌^◌, Bool, true, false, not, ◌&&◌, ◌||◌, ◌==◌, ltb, leb,
  if◌then◌else◌, update, Outcome, ok, panic, ◌>>=◌, add64, sub64,
}
use fog_os.Kalloc.{Kmem, page_size, memset_page, kfree, kalloc}

abbrev pub maxva : ℕ
maxva = 0x40_0000_0000

abbrev pub pte_v : ℕ
pte_v = 1

abbrev pub pte_r : ℕ
pte_r = 2

abbrev pub pte_w : ℕ
pte_w = 4

abbrev pub pte_x : ℕ
pte_x = 8

abbrev pub pte_u : ℕ
pte_u = 16

-- `*pte & PTE_V` and `*pte & PTE_U`, as tests.
abbrev pub is_valid : ℕ → Bool
is_valid pte = not (pte % 2 == 0)

abbrev pub is_user : ℕ → Bool
is_user pte = not (pte / 16 % 2 == 0)

abbrev pub pte_flags : ℕ → ℕ
pte_flags pte = pte % 1024

abbrev pub pa_to_pte : ℕ → ℕ
pa_to_pte pa = pa / 4096 * 1024 % 2 ^ 64

abbrev pub pte_to_pa : ℕ → ℕ
pte_to_pa pte = pte / 1024 * 4096 % 2 ^ 64

-- PX
abbrev pub px : (level va : ℕ) → ℕ
px level va = va / 2 ^ (12 + 9 * level) % 512

-- PGROUNDDOWN
abbrev pub page_round_down : ℕ → ℕ
page_round_down a = a / 4096 * 4096

abbrev pub set_word : Kmem → (a v : ℕ) → Kmem
set_word k a v = record k { word = update k.word a v }

-- `memset(pa, 0, PGSIZE)`
abbrev pub clear_page : (pa : ℕ) → Kmem → Kmem
clear_page pa k = record k { word = memset_page pa 0 k.word }

-- The loop of `walk` from `level` down.
unfoldable pub walk_from : (level va : ℕ) (alloc : Bool) (pagetable : ℕ) → Kmem → ℕ × Kmem
walk_from zero va alloc pagetable k = (pagetable + px 0 va * 8, k)
walk_from (suc level) va alloc pagetable k =
    let pte = pagetable + px (suc level) va * 8 in
    let (page, k') = kalloc k in
    let made = set_word (clear_page page k') pte (bit_or (pa_to_pte page) pte_v) in
    let there = walk_from level va alloc (pte_to_pa (k.word pte)) k in
    let new = walk_from level va alloc page made in
    if is_valid (k.word pte)
    then there
    else if not alloc
    then (0, k)
    else if page == 0
    then (0, k')
    else new

-- The address of the entry for `va`, or 0.
unfoldable pub walk : (pagetable va : ℕ) (alloc : Bool) → Kmem → Outcome (ℕ × Kmem)
walk pagetable va alloc k =
    if leb maxva va then panic "walk" else ok (walk_from 2 va alloc pagetable k)

unfoldable pub walkaddr : (pagetable va : ℕ) → Kmem → Outcome ℕ
walkaddr pagetable va k =
    if leb maxva va
    then ok 0
    else walk pagetable va false k >>= λ (pte, k'). ok (
        if pte == 0
        then 0
        else if not (is_valid (k'.word pte))
        then 0
        else if not (is_user (k'.word pte))
        then 0
        else pte_to_pa (k'.word pte))

-- The loop of `mappages` at `a`, for at most `fuel` pages: it ends at `last`, or at an address that
-- `walk` refuses.
unfoldable pub map_loop : (fuel pagetable a last pa perm : ℕ) → Kmem → Outcome (Bool × Kmem)
map_loop zero pagetable a last pa perm k = panic "walk"
map_loop (suc fuel) pagetable a last pa perm k = walk pagetable a true k >>= λ (pte, k').
    let mapped = set_word k' pte (bit_or (bit_or (pa_to_pte pa) perm) pte_v) in
    if pte == 0
    then ok (false, k')
    else if is_valid (k'.word pte)
    then panic "mappages: remap"
    else elim (a == last) [
      | true ↦ ok (true, mapped)
      | false ↦ map_loop fuel pagetable (add64 a page_size) last (add64 pa page_size) perm mapped
    ]

-- The result is whether it returns 0 and not -1.
unfoldable pub mappages : (pagetable va size pa perm : ℕ) → Kmem → Outcome (Bool × Kmem)
mappages pagetable va size pa perm k =
    let a = page_round_down va in
    let last = page_round_down (sub64 (add64 va size) 1) in
    if size == 0
    then panic "mappages: size"
    else map_loop (maxva / page_size + 1) pagetable a last pa perm k

unfoldable pub kvmmap : (kpgtbl va pa sz perm : ℕ) → Kmem → Outcome Kmem
kvmmap kpgtbl va pa sz perm k =
    mappages kpgtbl va sz pa perm k >>= λ (mapped, k'). if not mapped then panic "kvmmap" else ok k'

module _ (kernel_end : ℕ) where
  -- The loop of `uvmunmap` at `a`, for at most `fuel` pages.
  unfoldable pub unmap_loop : (fuel pagetable a end : ℕ) (do_free : Bool) → Kmem → Outcome Kmem
  unmap_loop zero pagetable a end do_free k = ok k
  unmap_loop (suc fuel) pagetable a end do_free k = elim (ltb a end) [
    | false ↦ ok k
    | true ↦ walk pagetable a false k >>= λ (pte, k').
        if pte == 0
        then panic "uvmunmap: walk"
        else if not (is_valid (k'.word pte))
        then panic "uvmunmap: not mapped"
        else if pte_flags (k'.word pte) == pte_v
        then panic "uvmunmap: not a leaf"
        else (if do_free then kfree kernel_end (pte_to_pa (k'.word pte)) k' else ok k') >>= λ k''.
            unmap_loop fuel pagetable (add64 a page_size) end do_free (set_word k'' pte 0)
  ]

  unfoldable pub uvmunmap : (pagetable va npages : ℕ) (do_free : Bool) → Kmem → Outcome Kmem
  uvmunmap pagetable va npages do_free k =
      if not (va % page_size == 0)
      then panic "uvmunmap: not aligned"
      else unmap_loop npages pagetable va (add64 va (npages * page_size % 2 ^ 64)) do_free k
