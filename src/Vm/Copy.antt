-- ===== src/Vm/Copy.antt =====
-- kernel/vm.c: `copyout`, `copyin` and `copyinstr`, which copy between the kernel and a user page
-- table, a page at a time. Pointers into the kernel do not wrap round. The first part of a result
-- is whether the code returns 0 and not -1.
pub mod Bytewise
pub mod Frames
pub mod Out
pub mod In
use fog_os.Prelude.{
  ℕ, zero, suc, ◌+◌, ◌-◌, ◌*◌, Bool, true, false, ◌==◌, ltb, if◌then◌else◌, update, Outcome, ok,
  panic, ◌>>=◌, add64,
}
use fog_os.Kalloc.{Kmem, page_size}
use fog_os.Bytes.{Memory}
use fog_os.Vm.{page_round_down, walkaddr}
use fog_os.Vm.Cells.{byte_of, word_of, move_bytes}

-- `n = PGSIZE - (va - va0); if(n > len) n = len;`
abbrev pub chunk : (va len : ℕ) → ℕ
chunk va len = let n = page_size - (va - page_round_down va) in if ltb len n then len else n

-- The loop of `copyout`, for at most `fuel` pages.
unfoldable pub out_loop : (fuel pagetable dstva src len : ℕ) → Kmem → Outcome (Bool × Kmem)
out_loop zero pagetable dstva src len k = ok (true, k)
out_loop (suc fuel) pagetable dstva src len k =
    let va0 = page_round_down dstva in
    let n = chunk dstva len in
    elim (ltb 0 len) [
      | false ↦ ok (true, k)
      | true ↦ walkaddr pagetable va0 k >>= λ pa0. elim (pa0 == 0) [
        | true ↦ ok (false, k)
        | false ↦
            out_loop fuel pagetable (add64 va0 page_size) (src + n) (len - n)
              (move_bytes (pa0 + (dstva - va0)) src n k)
      ]
    ]

unfoldable pub copyout : (pagetable dstva src len : ℕ) → Kmem → Outcome (Bool × Kmem)
copyout pagetable dstva src len k = out_loop len pagetable dstva src len k

-- The loop of `copyin`, for at most `fuel` pages.
unfoldable pub in_loop : (fuel pagetable dst srcva len : ℕ) → Kmem → Outcome (Bool × Kmem)
in_loop zero pagetable dst srcva len k = ok (true, k)
in_loop (suc fuel) pagetable dst srcva len k =
    let va0 = page_round_down srcva in
    let n = chunk srcva len in
    elim (ltb 0 len) [
      | false ↦ ok (true, k)
      | true ↦ walkaddr pagetable va0 k >>= λ pa0. elim (pa0 == 0) [
        | true ↦ ok (false, k)
        | false ↦
            in_loop fuel pagetable (dst + n) (add64 va0 page_size) (len - n)
              (move_bytes dst (pa0 + (srcva - va0)) n k)
      ]
    ]

unfoldable pub copyin : (pagetable dst srcva len : ℕ) → Kmem → Outcome (Bool × Kmem)
copyin pagetable dst srcva len k = in_loop len pagetable dst srcva len k

-- `*dst = v`
abbrev pub set_byte : (dst v : ℕ) → Kmem → Kmem
set_byte dst v k = record k { word = word_of (update (byte_of k.word) dst v) }

-- The inner loop of `copyinstr`, for `n` bytes from `p` on: whether it got the 0, and the memory.
unfoldable pub string_chunk : (n p dst : ℕ) → Kmem → Bool × Kmem
string_chunk zero p dst k = (false, k)
string_chunk (suc n) p dst k =
    let c = byte_of k.word p in
    elim (c == 0) [
      | true ↦ (true, set_byte dst 0 k)
      | false ↦ string_chunk n (p + 1) (dst + 1) (set_byte dst c k)
    ]

-- The outer loop, for at most `fuel` pages.
unfoldable pub instr_loop : (fuel pagetable dst srcva max : ℕ) → Kmem → Outcome (Bool × Kmem)
instr_loop zero pagetable dst srcva max k = ok (false, k)
instr_loop (suc fuel) pagetable dst srcva max k =
    let va0 = page_round_down srcva in
    let n = chunk srcva max in
    elim (ltb 0 max) [
      | false ↦ ok (false, k)
      | true ↦ walkaddr pagetable va0 k >>= λ pa0. elim (pa0 == 0) [
        | true ↦ ok (false, k)
        | false ↦
            let (got_null, k') = string_chunk n (pa0 + (srcva - va0)) dst k in
            elim got_null [
              | true ↦ ok (true, k')
              | false ↦ instr_loop fuel pagetable (dst + n) (add64 va0 page_size) (max - n) k'
            ]
      ]
    ]

unfoldable pub copyinstr : (pagetable dst srcva max : ℕ) → Kmem → Outcome (Bool × Kmem)
copyinstr pagetable dst srcva max k = instr_loop max pagetable dst srcva max k
