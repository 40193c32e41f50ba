-- ===== src/Vm/Copy/In.antt =====
-- `copyin` a page at a time is `copyin` a byte at a time.
use cubical.Cubical.Foundations.Prelude.{subst2}
use fog_os.Prelude.{
  ℕ, zero, suc, ◌+◌, ◌-◌, ◌≤◌, ◌≡◌, ◌≢◌, ◌∙◌, refl, sym, ap, true, false, ◌==◌, ◌>>=◌, ltb, ok,
  add64, arith, Bool-cases, eqb_ne, inl, inr,
}
use fog_os.Kalloc.{Kmem, page_size}
use fog_os.Vm.{page_round_down, walkaddr}
use fog_os.Vm.Cells.{byte_of, move_bytes, byte_of-move_bytes}
use fog_os.Vm.Walk.{translate}
use fog_os.Vm.Copy.{chunk, in_loop, copyin}
use fog_os.Vm.Copy.Bytewise.{get_user, get_user-page, get_user-unmapped, chunk_lem}
use fog_os.Vm.Copy.Frames.{
  Isolated, OutsideUser, OutsideTable, Copies, translate_below, frame, Kept, walkaddr-Kept,
  move_bytes-Kept, start-Kept, Kept-Copies,
}

module _ (pagetable : ℕ) where
  in_end : (fuel dst srcva : ℕ) (k : Kmem) → in_loop fuel pagetable dst srcva 0 k ≡ ok (true, k)
  unfolding in_loop
  in_end zero dst srcva k = refl
  in_end (suc fuel) dst srcva k = refl

  -- A round of the loop that finds the page unmapped, and one that copies.
  in_unmapped :
      (fuel len dst srcva : ℕ) (k : Kmem)
      → walkaddr pagetable (page_round_down srcva) k ≡ ok 0
      → in_loop (suc fuel) pagetable dst srcva (suc len) k ≡ ok (false, k)
  unfolding in_loop
  in_unmapped fuel len dst srcva k found =
      let more : ltb 0 (suc len) ≡ true = ground arith in rw (more, in_loop) (rw found refl)

  in_page :
      (fuel len dst srcva pa : ℕ) (k : Kmem)
      → walkaddr pagetable (page_round_down srcva) k ≡ ok pa
      → pa ≢ 0
      → in_loop (suc fuel) pagetable dst srcva (suc len) k
        ≡ in_loop fuel pagetable
            (dst + chunk srcva (suc len))
            (add64 (page_round_down srcva) page_size)
            (suc len - chunk srcva (suc len))
            (move_bytes dst (pa + (srcva - page_round_down srcva)) (chunk srcva (suc len)) k)
  unfolding in_loop
  in_page fuel len dst srcva pa k found mapped =
      let more : ltb 0 (suc len) ≡ true = ground arith in
      let test : (pa == 0) ≡ false = eqb_ne pa 0 mapped in
      rw (more, in_loop) (rw found (rw (test, ◌>>=◌) refl))

module _ (pagetable : ℕ) (word : ℕ → ℕ) (isolated : Isolated pagetable word) where
  in_loop_lem :
      (fuel len dst srcva : ℕ) (k : Kmem)
      → len ≤ fuel
      → OutsideUser pagetable dst len word
      → OutsideTable pagetable dst len word
      → Kept pagetable word isolated k
      → Copies pagetable word
          (get_user (frame pagetable word isolated) len dst srcva (byte_of k.word))
          (in_loop fuel pagetable dst srcva len k)
  unfolding get_user
  in_loop_lem fuel zero dst srcva k enough outside apart kept =
      rw (in_end pagetable fuel dst srcva k)
        (Kept-Copies pagetable word isolated true _ k kept refl)
  in_loop_lem zero (suc len) dst srcva k enough outside apart kept = absurd (omega arith)
  in_loop_lem (suc fuel) (suc len) dst srcva k enough outside apart kept =
      let tr = frame pagetable word isolated in
      let va0 = page_round_down srcva in
      let n = chunk srcva (suc len) in
      let found = walkaddr-Kept pagetable word isolated k va0 kept in
      elim (Bool-cases (tr va0 == 0)) [
        | inl e ↦
            let none_ : tr va0 ≡ 0 = ground (arith, e) in
            rw
              (
                get_user-unmapped tr len dst srcva (byte_of k.word) none_,
                in_unmapped pagetable fuel len dst srcva k (found ∙ ap ok none_),
              )
              (Kept-Copies pagetable word isolated false _ k kept refl)
        | inr e ↦
            let mapped : tr va0 ≢ 0 = λ h. absurd (ground (arith, e, h)) in
            let below = translate_below pagetable va0 word mapped in
            let (parts, place, fits, next) = chunk_lem srcva (suc len) (omega arith) in
            let k' = move_bytes dst (tr va0 + (srcva - va0)) n k in
            let some_ : suc len - n ≤ fuel = ground (arith, enough) in
            let rest =
              in_loop_lem fuel (suc len - n) (dst + n) (add64 va0 page_size) k' some_
                (λ p h. elim (outside p h) [
                  | inl o ↦ inl (omega arith)
                  | inr o ↦ inr (omega arith)
                ])
                (λ q a m. elim (apart q a m) [
                  | inl o ↦ inl (omega arith)
                  | inr o ↦ inr (omega arith)
                ])
                (move_bytes-Kept pagetable word isolated dst (tr va0 + (srcva - va0)) n k
                  (λ q a m. elim (apart q a m) [ inl o ↦ inl o | inr o ↦ inr (omega arith) ])
                  kept) in
            subst2 (λ r o. Copies pagetable word r o)
              (ap (get_user tr (suc len - n) (dst + n) (add64 va0 page_size))
                  (byte_of-move_bytes dst (tr va0 + (srcva - va0)) n k)
                ∙ sym (
                    get_user-page tr (suc len) dst srcva (byte_of k.word) (omega arith) mapped
                      (outside va0 mapped)))
              (sym (in_page pagetable fuel len dst srcva (tr va0) k found mapped)) rest
      ]

-- When the user's pages hold no entry of the table, and the destination meets neither these pages
-- nor an entry, `copyin` is total and gives what the copy by bytes gives: the same result, the same bytes in memory, also when it
-- stops at an address that is not mapped, and no translation changes.
pub copyin_lem :
    (pagetable dst srcva len : ℕ) (k : Kmem)
    → Isolated pagetable k.word
    → OutsideUser pagetable dst len k.word
    → OutsideTable pagetable dst len k.word
    → Copies pagetable k.word
        (get_user (λ va. translate pagetable va k.word) len dst srcva (byte_of k.word))
        (copyin pagetable dst srcva len k)
unfolding copyin
copyin_lem pagetable dst srcva len k isolated outside apart =
    in_loop_lem pagetable k.word isolated len len dst srcva k (omega arith) outside apart
      (start-Kept pagetable k.word isolated k refl)
