-- ===== src/Vm/Copy/Out.antt =====
-- `copyout` a page at a time is `copyout` a byte at a time.
use cubical.Cubical.Foundations.Prelude.{subst2}
use fog_os.Prelude.{
  ℕ, zero, suc, ◌+◌, ◌-◌, ◌≤◌, ◌≡◌, ◌≢◌, ◌∙◌, refl, sym, ap, true, false, ◌==◌, ◌>>=◌, ltb, ok,
  add64, arith, Bool-cases, eqb_ne, inl, inr,
}
use fog_os.Kalloc.{Kmem, page_size}
use fog_os.Vm.{page_round_down, walkaddr}
use fog_os.Vm.Cells.{byte_of, move_bytes, byte_of-move_bytes}
use fog_os.Vm.Walk.{translate}
use fog_os.Vm.Copy.{chunk, out_loop, copyout}
use fog_os.Vm.Copy.Bytewise.{put_user, put_user-page, put_user-unmapped, chunk_lem}
use fog_os.Vm.Copy.Frames.{
  Isolated, OutsideUser, Copies, translate_below, frame, Kept, walkaddr-Kept, move_out-Kept,
  start-Kept, Kept-Copies,
}

module _ (pagetable : ℕ) where
  out_end : (fuel dstva src : ℕ) (k : Kmem) → out_loop fuel pagetable dstva src 0 k ≡ ok (true, k)
  unfolding out_loop
  out_end zero dstva src k = refl
  out_end (suc fuel) dstva src k = refl

  -- A round of the loop that finds the page unmapped, and one that copies.
  out_unmapped :
      (fuel len dstva src : ℕ) (k : Kmem)
      → walkaddr pagetable (page_round_down dstva) k ≡ ok 0
      → out_loop (suc fuel) pagetable dstva src (suc len) k ≡ ok (false, k)
  unfolding out_loop
  out_unmapped fuel len dstva src k found =
      let more : ltb 0 (suc len) ≡ true = ground arith in rw (more, out_loop) (rw found refl)

  out_page :
      (fuel len dstva src pa : ℕ) (k : Kmem)
      → walkaddr pagetable (page_round_down dstva) k ≡ ok pa
      → pa ≢ 0
      → out_loop (suc fuel) pagetable dstva src (suc len) k
        ≡ out_loop fuel pagetable
            (add64 (page_round_down dstva) page_size)
            (src + chunk dstva (suc len))
            (suc len - chunk dstva (suc len))
            (move_bytes (pa + (dstva - page_round_down dstva)) src (chunk dstva (suc len)) k)
  unfolding out_loop
  out_page fuel len dstva src pa k found mapped =
      let more : ltb 0 (suc len) ≡ true = ground arith in
      let test : (pa == 0) ≡ false = eqb_ne pa 0 mapped in
      rw (more, out_loop) (rw found (rw (test, ◌>>=◌) refl))

module _ (pagetable : ℕ) (word : ℕ → ℕ) (isolated : Isolated pagetable word) where
  out_loop_lem :
      (fuel len dstva src : ℕ) (k : Kmem)
      → len ≤ fuel
      → OutsideUser pagetable src len word
      → Kept pagetable word isolated k
      → Copies pagetable word
          (put_user (frame pagetable word isolated) len dstva src (byte_of k.word))
          (out_loop fuel pagetable dstva src len k)
  unfolding put_user
  out_loop_lem fuel zero dstva src k enough outside kept =
      rw (out_end pagetable fuel dstva src k)
        (Kept-Copies pagetable word isolated true _ k kept refl)
  out_loop_lem zero (suc len) dstva src k enough outside kept = absurd (omega arith)
  out_loop_lem (suc fuel) (suc len) dstva src k enough outside kept =
      let tr = frame pagetable word isolated in
      let va0 = page_round_down dstva in
      let n = chunk dstva (suc len) in
      let found = walkaddr-Kept pagetable word isolated k va0 kept in
      elim (Bool-cases (tr va0 == 0)) [
        | inl e ↦
            let none_ : tr va0 ≡ 0 = ground (arith, e) in
            rw
              (
                put_user-unmapped tr len dstva src (byte_of k.word) none_,
                out_unmapped pagetable fuel len dstva src k (found ∙ ap ok none_),
              )
              (Kept-Copies pagetable word isolated false _ k kept refl)
        | inr e ↦
            let mapped : tr va0 ≢ 0 = λ h. absurd (ground (arith, e, h)) in
            let below = translate_below pagetable va0 word mapped in
            let (parts, place, fits, next) = chunk_lem dstva (suc len) (omega arith) in
            let k' = move_bytes (tr va0 + (dstva - va0)) src n k in
            let some_ : suc len - n ≤ fuel = ground (arith, enough) in
            let rest =
              out_loop_lem fuel (suc len - n) (add64 va0 page_size) (src + n) k' some_
                (λ p h. elim (outside p h) [
                  | inl o ↦ inl (omega arith)
                  | inr o ↦ inr (omega arith)
                ])
                (move_out-Kept pagetable word isolated va0 (dstva - va0) src n k mapped fits
                  kept) in
            subst2 (λ r o. Copies pagetable word r o)
              (ap (put_user tr (suc len - n) (add64 va0 page_size) (src + n))
                  (byte_of-move_bytes (tr va0 + (dstva - va0)) src n k)
                ∙ sym (
                    put_user-page tr (suc len) dstva src (byte_of k.word) (omega arith) mapped
                      (outside va0 mapped)))
              (sym (out_page pagetable fuel len dstva src (tr va0) k found mapped)) rest
      ]

-- When the user's pages hold no entry of the table and none of the source, `copyout` is total and
-- gives what the copy by bytes gives: the same result, the same bytes in memory, also when it
-- stops at an address that is not mapped, and no translation changes.
pub copyout_lem :
    (pagetable dstva src len : ℕ) (k : Kmem)
    → Isolated pagetable k.word
    → OutsideUser pagetable src len k.word
    → Copies pagetable k.word
        (put_user (λ va. translate pagetable va k.word) len dstva src (byte_of k.word))
        (copyout pagetable dstva src len k)
unfolding copyout
copyout_lem pagetable dstva src len k isolated outside =
    out_loop_lem pagetable k.word isolated len len dstva src k (omega arith) outside
      (start-Kept pagetable k.word isolated k refl)
