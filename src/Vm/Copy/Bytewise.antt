-- ===== src/Vm/Copy/Bytewise.antt =====
-- What copying to and from user addresses means: a byte at a time, each at its translation.
use fog_os.Prelude.{
  ℕ, zero, suc, ◌+◌, ◌-◌, ◌%◌, ◌^◌, ◌≤◌, ◌<◌, ◌≡◌, ◌≢◌, ◌∙◌, refl, sym, ap, Bool, true, false, ◌&&◌,
  ◌==◌, ltb, if◌then◌else◌, update, add64, arith, Bool-cases, eqb_ne, inl, inr, ◌⊎◌,
}
use fog_os.Bytes.{Memory, memmove, move_up}
use fog_os.Kalloc.{page_size}
use fog_os.Vm.{page_round_down}
use fog_os.Vm.Copy.{chunk}

-- Blocks that do not overlap are copied upwards.
pub memmove-apart :
    (dst src n : ℕ) (m : Memory)
    → (dst + n ≤ src) ⊎ (src + n ≤ dst)
    → memmove dst src n m ≡ move_up dst src n m
unfolding memmove move_up
memmove-apart dst src zero m apart = refl
memmove-apart dst src (suc n) m apart =
    let over : (ltb src dst && ltb dst (src + suc n)) ≡ false = elim apart [
      | inl h ↦ ground (arith, h)
      | inr h ↦ ground (arith, h)
    ] in
    let some_ : (suc n == 0) ≡ false = ground arith in rw (some_, over) refl

-- The bytes of a copy that are in the page of `va`.
pub chunk_lem :
    (va len : ℕ)
    → let va0 = page_round_down va in
      let n = chunk va len in
      va0 + 4096 < 2 ^ 64
      → (n + (len - n) ≡ len)
        × (va0 + (va - va0) ≡ va)
        × (va - va0 + n ≤ 4096)
        × ((len - n ≡ 0) ⊎ (va0 + (va - va0 + n) ≡ add64 va0 page_size))
chunk_lem va len below =
    let off = va - page_round_down va in
    (
      ground arith,
      omega arith,
      ground arith,
      elim (Bool-cases (ltb len (page_size - off))) [
        | inl e ↦ inl (ground (arith, e))
        | inr e ↦ inr (ground (arith, e))
      ],
    )

module _ (tr : ℕ → ℕ) where
  -- `n` bytes from the kernel's `src` on go to the user's `dstva` on; it stops at an address
  -- that is not mapped.
  unfoldable pub put_user : (n dstva src : ℕ) → Memory → Bool × Memory
  put_user zero dstva src m = (true, m)
  put_user (suc n) dstva src m =
      let pa = tr (page_round_down dstva) in
      let rest = put_user n (add64 dstva 1) (src + 1) (update m (pa + dstva % 4096) (m src)) in
      if pa == 0 then (false, m) else rest

  -- `n` bytes from the user's `srcva` on go to the kernel's `dst` on.
  unfoldable pub get_user : (n dst srcva : ℕ) → Memory → Bool × Memory
  get_user zero dst srcva m = (true, m)
  get_user (suc n) dst srcva m =
      let pa = tr (page_round_down srcva) in
      let rest = get_user n (dst + 1) (add64 srcva 1) (update m dst (m (pa + srcva % 4096))) in
      if pa == 0 then (false, m) else rest

  -- A run of bytes within one page.
  pub put_user-chunk :
      (n rest va0 off src : ℕ) (m : Memory)
      → va0 % 4096 ≡ 0
      → off + n ≤ 4096
      → va0 + 4096 < 2 ^ 64
      → tr va0 ≢ 0
      → put_user (n + rest) (va0 + off) src m
        ≡ put_user rest (va0 + (off + n)) (src + n) (move_up (tr va0 + off) src n m)
  unfolding put_user move_up
  put_user-chunk zero rest va0 off src m page fits below mapped =
      let at : off + 0 ≡ off = omega arith in
      let from : src + 0 ≡ src = omega arith in
      let left : 0 + rest ≡ rest = omega arith in rw (left, at, from) refl
  put_user-chunk (suc n) rest va0 off src m page fits below mapped =
      let here : page_round_down (va0 + off) ≡ va0 = omega arith in
      let low : (va0 + off) % 4096 ≡ off = omega arith in
      let test : (tr va0 == 0) ≡ false = eqb_ne _ _ mapped in
      let next : add64 (va0 + off) 1 ≡ va0 + suc off = omega arith in
      let ih =
        put_user-chunk n rest va0 (suc off) (src + 1) (update m (tr va0 + off) (m src)) page
          (omega arith) below mapped in
      let left : suc n + rest ≡ suc (n + rest) = omega arith in
      let at : off + suc n ≡ suc off + n = omega arith in
      let from : src + suc n ≡ src + 1 + n = omega arith in
      let up : tr va0 + off + 1 ≡ tr va0 + suc off = omega arith in
      rw (left, at, from, up) (rw (here, low, test, next) ih)

  pub get_user-chunk :
      (n rest va0 off dst : ℕ) (m : Memory)
      → va0 % 4096 ≡ 0
      → off + n ≤ 4096
      → va0 + 4096 < 2 ^ 64
      → tr va0 ≢ 0
      → get_user (n + rest) dst (va0 + off) m
        ≡ get_user rest (dst + n) (va0 + (off + n)) (move_up dst (tr va0 + off) n m)
  unfolding get_user move_up
  get_user-chunk zero rest va0 off dst m page fits below mapped =
      let at : off + 0 ≡ off = omega arith in
      let to : dst + 0 ≡ dst = omega arith in
      let left : 0 + rest ≡ rest = omega arith in rw (left, at, to) refl
  get_user-chunk (suc n) rest va0 off dst m page fits below mapped =
      let here : page_round_down (va0 + off) ≡ va0 = omega arith in
      let low : (va0 + off) % 4096 ≡ off = omega arith in
      let test : (tr va0 == 0) ≡ false = eqb_ne _ _ mapped in
      let next : add64 (va0 + off) 1 ≡ va0 + suc off = omega arith in
      let ih =
        get_user-chunk n rest va0 (suc off) (dst + 1) (update m dst (m (tr va0 + off))) page
          (omega arith) below mapped in
      let left : suc n + rest ≡ suc (n + rest) = omega arith in
      let at : off + suc n ≡ suc off + n = omega arith in
      let to : dst + suc n ≡ dst + 1 + n = omega arith in
      let up : tr va0 + off + 1 ≡ tr va0 + suc off = omega arith in
      rw (left, at, to, up) (rw (here, low, test, next) ih)

  -- The rest of a copy, from an address that is the next one unless nothing is left.
  put_user-next :
      (rest va va' src : ℕ) (m : Memory)
      → (rest ≡ 0) ⊎ (va ≡ va')
      → put_user rest va src m ≡ put_user rest va' src m
  unfolding put_user
  put_user-next rest va va' src m (inl done) = rw done refl
  put_user-next rest va va' src m (inr same) = rw same refl

  get_user-next :
      (rest dst va va' : ℕ) (m : Memory)
      → (rest ≡ 0) ⊎ (va ≡ va')
      → get_user rest dst va m ≡ get_user rest dst va' m
  unfolding get_user
  get_user-next rest dst va va' m (inl done) = rw done refl
  get_user-next rest dst va va' m (inr same) = rw same refl

  -- What a page takes of a copy is one call of `memmove`.
  pub put_user-page :
      (len dstva src : ℕ) (m : Memory)
      → let va0 = page_round_down dstva in
        let n = chunk dstva len in
        va0 + 4096 < 2 ^ 64
        → tr va0 ≢ 0
        → (src + len ≤ tr va0) ⊎ (tr va0 + 4096 ≤ src)
        → put_user len dstva src m
          ≡ put_user
              (len - n)
              (add64 va0 page_size)
              (src + n)
              (memmove (tr va0 + (dstva - va0)) src n m)
  put_user-page len dstva src m below mapped apart =
      let va0 = page_round_down dstva in
      let off = dstva - va0 in
      let n = chunk dstva len in
      let (parts, place, fits, next) = chunk_lem dstva len below in
      let copied =
        memmove-apart (tr va0 + off) src n m
          (elim apart [ inl h ↦ inr (omega (arith, h)) | inr h ↦ inl (omega (arith, h)) ]) in
      ap (λ l. put_user l dstva src m) (sym parts)
      ∙ ap (λ a. put_user (n + (len - n)) a src m) (sym place)
      ∙ put_user-chunk n (len - n) va0 off src m (omega arith) fits below mapped
      ∙ put_user-next (len - n) (va0 + (off + n)) (add64 va0 page_size) (src + n) _ next
      ∙ ap (put_user (len - n) (add64 va0 page_size) (src + n)) (sym copied)

  pub get_user-page :
      (len dst srcva : ℕ) (m : Memory)
      → let va0 = page_round_down srcva in
        let n = chunk srcva len in
        va0 + 4096 < 2 ^ 64
        → tr va0 ≢ 0
        → (dst + len ≤ tr va0) ⊎ (tr va0 + 4096 ≤ dst)
        → get_user len dst srcva m
          ≡ get_user
              (len - n)
              (dst + n)
              (add64 va0 page_size)
              (memmove dst (tr va0 + (srcva - va0)) n m)
  get_user-page len dst srcva m below mapped apart =
      let va0 = page_round_down srcva in
      let off = srcva - va0 in
      let n = chunk srcva len in
      let (parts, place, fits, next) = chunk_lem srcva len below in
      let copied =
        memmove-apart dst (tr va0 + off) n m
          (elim apart [ inl h ↦ inl (omega (arith, h)) | inr h ↦ inr (omega (arith, h)) ]) in
      ap (λ l. get_user l dst srcva m) (sym parts)
      ∙ ap (λ a. get_user (n + (len - n)) dst a m) (sym place)
      ∙ get_user-chunk n (len - n) va0 off dst m (omega arith) fits below mapped
      ∙ get_user-next (len - n) (dst + n) (va0 + (off + n)) (add64 va0 page_size) _ next
      ∙ ap (get_user (len - n) (dst + n) (add64 va0 page_size)) (sym copied)

  -- An address that is not mapped ends the copy.
  pub put_user-unmapped :
      (len dstva src : ℕ) (m : Memory)
      → tr (page_round_down dstva) ≡ 0
      → put_user (suc len) dstva src m ≡ (false, m)
  unfolding put_user
  put_user-unmapped len dstva src m unmapped =
      let test : (tr (page_round_down dstva) == 0) ≡ true = ground (arith, unmapped) in rw test refl

  pub get_user-unmapped :
      (len dst srcva : ℕ) (m : Memory)
      → tr (page_round_down srcva) ≡ 0
      → get_user (suc len) dst srcva m ≡ (false, m)
  unfolding get_user
  get_user-unmapped len dst srcva m unmapped =
      let test : (tr (page_round_down srcva) == 0) ≡ true = ground (arith, unmapped) in rw test refl
