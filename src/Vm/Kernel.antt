-- ===== src/Vm/Kernel.antt =====
-- kernel/vm.c and `proc_mapstacks` of kernel/proc.c: the page table of the kernel. `etext` and
-- `trampoline` are the addresses of the linker's symbols.
use fog_os.Prelude.{ℕ, zero, suc, ◌+◌, ◌-◌, ◌*◌, ◌==◌, if◌then◌else◌, Outcome, ok, panic, ◌>>=◌}
use fog_os.Kalloc.{Kmem, page_size, phystop, kalloc}
use fog_os.Procs.{nproc}
use fog_os.Vm.{maxva, pte_r, pte_w, pte_x, clear_page, kvmmap}

abbrev pub uart0 : ℕ
uart0 = 0x1000_0000

abbrev pub virtio0 : ℕ
virtio0 = 0x1000_1000

abbrev pub plic : ℕ
plic = 0x0c00_0000

abbrev pub kernbase : ℕ
kernbase = 0x8000_0000

abbrev pub trampoline_va : ℕ
trampoline_va = maxva - page_size

-- KSTACK
abbrev pub kstack : ℕ → ℕ
kstack p = trampoline_va - (p + 1) * 2 * page_size

-- The loop of `proc_mapstacks` at process `p`, for `n` processes.
unfoldable pub map_stacks : (n p kpgtbl : ℕ) → Kmem → Outcome Kmem
map_stacks zero p kpgtbl k = ok k
map_stacks (suc n) p kpgtbl k =
    let (pa, k') = kalloc k in
    if pa == 0
    then panic "kalloc"
    else kvmmap kpgtbl (kstack p) pa page_size (pte_r + pte_w) k' >>= map_stacks n (p + 1) kpgtbl

unfoldable pub proc_mapstacks : (kpgtbl : ℕ) → Kmem → Outcome Kmem
proc_mapstacks kpgtbl k = map_stacks nproc 0 kpgtbl k

module _ (etext trampoline : ℕ) where
  unfoldable pub kvmmake : Kmem → Outcome (ℕ × Kmem)
  kvmmake k =
      let (kpgtbl, k') = kalloc k in
      let rw_ = pte_r + pte_w in
      let rx = pte_r + pte_x in
      kvmmap kpgtbl uart0 uart0 page_size rw_ (clear_page kpgtbl k')
      >>= kvmmap kpgtbl virtio0 virtio0 page_size rw_
      >>= kvmmap kpgtbl plic plic 0x40_0000 rw_
      >>= kvmmap kpgtbl kernbase kernbase (etext - kernbase) rx
      >>= kvmmap kpgtbl etext etext (phystop - etext) rw_
      >>= kvmmap kpgtbl trampoline_va trampoline page_size rx
      >>= proc_mapstacks kpgtbl
      >>= λ k''. ok (kpgtbl, k'')
