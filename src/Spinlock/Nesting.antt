-- ===== src/Spinlock/Nesting.antt =====
-- What lies between a push_off and its pop_off runs without interrupts, and nests.
use fog_os.Prelude.{
  ℕ, ◌+◌, ◌≤◌, ◌<◌, ◌^◌, ◌≡◌, refl, ◌∙◌, true, false, ◌&&◌, ◌==◌, ltb, arith, if◌then◌else◌,
  Outcome, ok, ◌>>=◌, sub32, slt, Bool-cases, inl, inr,
}
use fog_os.Spinlock.{Cpu, push_off, pop_off}

-- A program that takes and gives back locks in a nested way, one part behind the other.
pub data Nested : Type 0 where
  nothing : Nested
  guarded : (inside behind : Nested) → Nested

-- How many push_offs are open at once.
abbrev pub depth : Nested → ℕ
depth nothing = 0
depth (guarded inside behind) =
    if ltb (depth inside + 1) (depth behind) then depth behind else depth inside + 1

deep_inside : (p q : Nested) → depth p + 1 ≤ depth (guarded p q)
deep_inside p q = ground arith

deep_behind : (p q : Nested) → depth q ≤ depth (guarded p q)
deep_behind p q = ground arith

unfoldable pub run : Nested → Cpu → Outcome Cpu
run nothing c = ok c
run (guarded inside behind) c =
    run inside (push_off c) >>= λ c'. pop_off c' >>= λ c''. run behind c''

-- Under a push_off the interrupts are off.
pub record IsCpu (c : Cpu) : Type 0 where
  pub off_inside : 0 < c.noff → c.intr ≡ false

push_off-IsCpu : (c : Cpu) → IsCpu (push_off c)
unfolding push_off
push_off-IsCpu c = record { off_inside = λ h. refl }

pushed_fits : (c : Cpu) (d : ℕ) → c.noff + (d + 1) < 2 ^ 31 → (push_off c).noff + d < 2 ^ 31
unfolding push_off
pushed_fits c d h = omega arith

-- After a nested run the CPU is as before, but for what `intena` remembers when it is not needed.
pub record Restored (c c' : Cpu) : Type 0 where
  pub same_intr : c'.intr ≡ c.intr
  pub same_noff : c'.noff ≡ c.noff
  pub same_intena : 0 < c.noff → c'.intena ≡ c.intena

pop-Restored :
    (c c' : Cpu)
    → IsCpu c
    → c.noff + 1 < 2 ^ 31
    → Restored (push_off c) c'
    → (c'' : Cpu) × (pop_off c' ≡ ok c'') × Restored c c''
unfolding push_off pop_off
pop-Restored c c' is fits r =
    let quiet : c'.intr ≡ false = r.same_intr in
    let deep : c'.noff ≡ c.noff + 1 = omega (arith, r.same_noff) in
    let positive : slt c'.noff 1 ≡ false = ground arith in
    let left : sub32 c'.noff 1 ≡ c.noff = omega (arith, deep) in
    let kept = r.same_intena (omega arith) in
    (
      record c' {
        noff = sub32 c'.noff 1;
        intr = if sub32 c'.noff 1 == 0 && c'.intena then true else c'.intr;
      },
      rw (quiet, positive) refl,
      record {
        same_intr = rw left (elim (Bool-cases (c.noff == 0)) [
          | inl outer ↦ ground (arith, kept, quiet)
          | inr inner ↦ ground (arith, quiet, is.off_inside)
        ]);
        same_noff = left;
        same_intena = λ h. ground (arith, kept);
      },
    )

Restored-IsCpu : (c c' : Cpu) → IsCpu c → Restored c c' → IsCpu c'
Restored-IsCpu c c' is r = record {
  off_inside = λ h. r.same_intr ∙ is.off_inside (omega (arith, r.same_noff));
}

Restored-both : (c c' c'' : Cpu) → Restored c c' → Restored c' c'' → Restored c c''
Restored-both c c' c'' r r' = record {
  same_intr = r'.same_intr ∙ r.same_intr;
  same_noff = r'.same_noff ∙ r.same_noff;
  same_intena = λ h. r'.same_intena (omega (arith, r.same_noff)) ∙ r.same_intena h;
}

-- A nested program of push_off and pop_off never panics, as long as the nesting fits an `int`, and
-- leaves the CPU with interrupts on or off as it found them and with the same depth; afterwards the
-- interrupts are still off if the depth is positive.
pub run-Restored :
    (p : Nested) (c : Cpu)
    → IsCpu c
    → c.noff + depth p < 2 ^ 31
    → (c' : Cpu) × (run p c ≡ ok c') × Restored c c' × IsCpu c'
unfolding run
run-Restored nothing c is fits =
    (c, refl, record { same_intr = refl; same_noff = refl; same_intena = λ h. refl }, is)
run-Restored (guarded inside behind) c is fits =
    let inner = deep_inside inside behind in
    let outer = deep_behind inside behind in
    let (c1, ran, r, _) =
      run-Restored inside (push_off c) (push_off-IsCpu c)
        (pushed_fits c (depth inside) (omega (arith, inner, fits))) in
    let (c2, popped, r') = pop-Restored c c1 is (omega (arith, inner, fits)) r in
    let is' = Restored-IsCpu c c2 is r' in
    let (c3, ran', r'', is'') =
      run-Restored behind c2 is' (omega (arith, r'.same_noff, outer, fits)) in
    (c3, rw (ran, popped) ran', Restored-both c c2 c3 r' r'', is'')
