-- ===== src/Kalloc.antt =====
-- kernel/kalloc.c: the free pages are a list that is linked through the pages themselves.
-- `kernel_end` is the address of the linker's symbol `end`.
pub mod FreeList
pub mod Init
pub mod Owners
mod Tests
use fog_os.Prelude.{
  ℕ, zero, suc, ◌+◌, ◌*◌, ◌/◌, ◌%◌, ◌^◌, Bool, true, false, not, ◌&&◌, ◌||◌, ◌==◌, ltb, leb,
  if◌then◌else◌, update, Outcome, ok, panic, ◌>>=◌, add64,
}

abbrev pub page_size : ℕ
page_size = 4096

-- KERNBASE + 128*1024*1024
abbrev pub phystop : ℕ
phystop = 0x8800_0000

-- PGROUNDUP
abbrev pub page_round_up : ℕ → ℕ
page_round_up size = add64 size 4095 / 4096 * 4096

-- `kmem`, with the memory as the 8-byte words at the addresses that are multiples of 8.
pub record Kmem : Type 0 where
  pub freelist : ℕ
  pub word : ℕ → ℕ

-- `memset(pa, c, PGSIZE)`, for a byte `c`.
abbrev pub memset_page : (pa c : ℕ) → (ℕ → ℕ) → ℕ → ℕ
memset_page pa c word a =
    if leb pa a && ltb a (pa + page_size) then c * 0x0101_0101_0101_0101 else word a

module _ (kernel_end : ℕ) where
  unfoldable pub kfree : ℕ → Kmem → Outcome Kmem
  kfree pa k =
      if not (pa % page_size == 0) || ltb pa kernel_end || leb phystop pa
      then panic "kfree"
      else ok (record { freelist = pa; word = update (memset_page pa 1 k.word) pa k.freelist })

  -- The loop of `freerange` at `p`, for at most `fuel` pages.
  unfoldable pub free_pages : (fuel p pa_end : ℕ) → Kmem → Outcome Kmem
  free_pages zero p pa_end k = ok k
  free_pages (suc fuel) p pa_end k =
      let rest = kfree p k >>= λ k'. free_pages fuel (add64 p page_size) pa_end k' in
      if leb (add64 p page_size) pa_end then rest else ok k

  unfoldable pub freerange : (pa_start pa_end : ℕ) → Kmem → Outcome Kmem
  freerange pa_start pa_end k = free_pages (pa_end / page_size) (page_round_up pa_start) pa_end k

  -- `kinit`: the list is empty in the zeroed memory of the kernel's globals.
  unfoldable pub kinit : (word : ℕ → ℕ) → Outcome Kmem
  kinit word = freerange kernel_end phystop (record { freelist = 0; word = word })

-- The page that it hands out, or 0.
unfoldable pub kalloc : Kmem → ℕ × Kmem
kalloc k =
    let r = k.freelist in
    if r == 0 then (0, k) else (r, record { freelist = k.word r; word = memset_page r 5 k.word })
