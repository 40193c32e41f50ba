-- ===== src/Kalloc/Tests.antt =====
-- Tests of the page allocator, in a machine whose kernel ends two pages before PHYSTOP.
use fog_os.Prelude.{ℕ, ◌≡◌, refl, false, arith, Outcome, ok}
use fog_os.Kalloc.{Kmem, phystop, page_round_up, kfree, free_pages, freerange, kinit, kalloc}
use fog_os.Kalloc.Init.{Freed, kinit-Freed}
use fog_os.Kalloc.Owners.{Memory, handed_out, alloc, fresh, later, Sound, Reach-Sound}

abbrev kernel_end : ℕ
kernel_end = 0x87ff_d123

abbrev zeroed : ℕ → ℕ
zeroed a = 0

kinit-Freed_example :
    (k : Kmem) × (kinit kernel_end zeroed ≡ ok k)
    × Freed kernel_end (page_round_up kernel_end) phystop k
kinit-Freed_example = kinit-Freed kernel_end (omega arith) zeroed (omega arith)

abbrev started : Kmem
started = (kinit-Freed kernel_end (omega arith) zeroed (omega arith)).0

-- The page that is freed last is handed out first.
abbrev after_kinit : Outcome Kmem → ℕ
after_kinit (Outcome.ok k) = (kalloc k).0
after_kinit (Outcome.panic why) = 0

first_page : after_kinit (kinit kernel_end zeroed) ≡ 0x87ff_f000
unfolding kinit freerange free_pages kfree kalloc
first_page = refl

abbrev in_use : Memory
in_use = handed_out (record { kmem = started; owned = λ p. false })

Reach-Sound_example : Sound kernel_end in_use
Reach-Sound_example = Reach-Sound kernel_end (omega arith) (omega arith) {s = in_use} (
    later (fresh zeroed started (kinit-Freed kernel_end (omega arith) zeroed (omega arith)).1)
      alloc)
