-- ===== src/Vm/Copy/Frames.antt =====
-- User pages that are apart from the page table and from a block of the kernel, and what a copy
-- between the two is to do.
use mathlib.Core.Path.{subst}
use fog_os.Prelude.{
  ℕ, ◌+◌, ◌%◌, ◌^◌, ◌≤◌, ◌<◌, ◌≡◌, ◌≢◌, ◌∙◌, refl, sym, ap, Bool, true, leb, Outcome, ok, arith,
  Bool-cases, inl, inr, ◌⊎◌,
}
use fog_os.Kalloc.{Kmem}
use fog_os.Kalloc.FreeList.{member}
use fog_os.Bytes.{Memory}
use fog_os.Vm.{maxva, walkaddr}
use fog_os.Vm.Cells.{byte_of, move_bytes, move_bytes_bound, move_bytes_apart}
use fog_os.Vm.Walk.{reads, translate, SameReads, translate-congr, walkaddr-translate, reads-aligned}

-- The table is in words of 64 bits, and no page that it gives the user holds an entry of the table.
pub record Isolated (pagetable : ℕ) (word : ℕ → ℕ) : Type 0 where
  pub aligned : pagetable % 8 ≡ 0
  pub bounded : (a : ℕ) → word a < 2 ^ 64
  pub tables :
      (p q a : ℕ)
      → translate pagetable p word ≢ 0
      → member a (reads 2 q pagetable word) ≡ true
      → (a + 8 ≤ translate pagetable p word) ⊎ (translate pagetable p word + 4096 ≤ a)

-- The `len` bytes of the kernel from `at` on are in no page of the user.
abbrev pub OutsideUser : (pagetable at len : ℕ) (word : ℕ → ℕ) → Type 0
OutsideUser pagetable at len word =
    (p : ℕ)
    → translate pagetable p word ≢ 0
    → (at + len ≤ translate pagetable p word) ⊎ (translate pagetable p word + 4096 ≤ at)

-- The `len` bytes of the kernel from `at` on meet no entry of the table.
abbrev pub OutsideTable : (pagetable at len : ℕ) (word : ℕ → ℕ) → Type 0
OutsideTable pagetable at len word =
    (q a : ℕ) → member a (reads 2 q pagetable word) ≡ true → (a + 8 ≤ at) ⊎ (at + len ≤ a)

-- It returns what the copy by bytes gives, with the same bytes in memory and every address
-- translated as before.
pub record Copies (pagetable : ℕ) (word : ℕ → ℕ) (r : Bool × Memory) (o : Outcome (Bool × Kmem))
    : Type 0 where
  pub after : Kmem
  pub returns : o ≡ ok (r.0, after)
  pub bytes : byte_of after.word ≡ r.1
  pub translations : (va : ℕ) → translate pagetable va after.word ≡ translate pagetable va word

pub translate_below :
    (pagetable va : ℕ) (word : ℕ → ℕ) → translate pagetable va word ≢ 0 → va < maxva
translate_below pagetable va word mapped = elim (Bool-cases (leb maxva va)) [
  | inl e ↦ absurd (mapped (rw e refl))
  | inr e ↦ ground arith
]

module _ (pagetable : ℕ) (word : ℕ → ℕ) (isolated : Isolated pagetable word) where
  abbrev pub frame : ℕ → ℕ
  frame va = translate pagetable va word

  -- The memory on the way: the entries are as at the start.
  pub record Kept (k : Kmem) : Type 0 where
    pub bounded : (a : ℕ) → k.word a < 2 ^ 64
    pub entries : (va : ℕ) → SameReads va pagetable word k.word

  pub walkaddr-Kept : (k : Kmem) (va : ℕ) → Kept k → walkaddr pagetable va k ≡ ok (frame va)
  walkaddr-Kept k va kept =
      walkaddr-translate pagetable va k
      ∙ ap ok (sym (translate-congr va pagetable word k.word (kept.entries va)))

  pub move_bytes-Kept :
      (dst src n : ℕ) (k : Kmem)
      → OutsideTable pagetable dst n word
      → Kept k
      → Kept (move_bytes dst src n k)
  move_bytes-Kept dst src n k apart kept = record {
    bounded = move_bytes_bound dst src n k;
    entries = λ va a m.
        kept.entries va a m
        ∙ sym (
            move_bytes_apart dst src n k a (reads-aligned 2 va pagetable a word isolated.aligned m)
              (kept.bounded a) (apart va a m));
  }

  -- A copy into a user page.
  pub move_out-Kept :
      (p off src n : ℕ) (k : Kmem)
      → frame p ≢ 0
      → off + n ≤ 4096
      → Kept k
      → Kept (move_bytes (frame p + off) src n k)
  move_out-Kept p off src n k mapped fits = move_bytes-Kept (frame p + off) src n k (λ va a m.
      elim (isolated.tables p va a mapped m) [
        | inl h ↦ inl (omega arith)
        | inr h ↦ inr (omega arith)
      ])

  pub start-Kept : (k : Kmem) → k.word ≡ word → Kept k
  start-Kept k same = record {
    bounded = λ a. subst (λ w. w a < 2 ^ 64) (sym same) (isolated.bounded a);
    entries = λ va a m. ap (λ w. w a) (sym same);
  }

  pub Kept-Copies :
      (b : Bool) (m : Memory) (k : Kmem)
      → Kept k
      → byte_of k.word ≡ m
      → Copies pagetable word (b, m) (ok (b, k))
  Kept-Copies b m k kept same = record {
    after = k;
    returns = refl;
    bytes = same;
    translations = λ va. sym (translate-congr va pagetable word k.word (kept.entries va));
  }
