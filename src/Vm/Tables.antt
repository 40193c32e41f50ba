-- ===== src/Vm/Tables.antt =====
-- The pages of the tables that lead to an entry, and what a walk that may allocate returns.
use mathlib.Core.Path.{subst}
use fog_os.Prelude.{
  ℕ, zero, suc, ◌+◌, ◌*◌, ◌/◌, ◌%◌, ◌≤◌, ◌<◌, ◌≡◌, ◌≢◌, ◌∙◌, refl, sym, ap, Bool, true, false, not,
  ◌&&◌, ◌||◌, ◌==◌, if◌then◌else◌, List, [], ◌∷◌, ◌++◌, arith, length,
}
use fog_os.Kalloc.{Kmem}
use fog_os.Kalloc.FreeList.{member, IsDistinct}
use fog_os.Vm.{is_valid, pte_to_pa, px}
use fog_os.Vm.Walk.{find, find-below, find-none}

-- The pages of the tables that lead to the entry for `va`.
unfoldable pub tables : (level va pagetable : ℕ) → (word : ℕ → ℕ) → List ℕ
tables zero va pagetable word = pagetable ∷ []
tables (suc level) va pagetable word =
    let pte = word (pagetable + px (suc level) va * 8) in
    let below = tables level va (pte_to_pa pte) word in
    pagetable ∷ (if is_valid pte then below else [])

-- No page twice among the tables and the free pages; the tables are pages, and not page 0.
pub record Tidy (level va pagetable : ℕ) (word : ℕ → ℕ) (frees : List ℕ) : Type 0 where
  pub distinct : IsDistinct (tables level va pagetable word ++ frees)
  pub aligned :
      (p : ℕ) → member p (tables level va pagetable word) ≡ true → (p % 4096 ≡ 0) × (p ≢ 0)

-- Whether the memory has a valid entry for `va` at the lowest level.
abbrev pub entry_at : (pte : ℕ) → (word : ℕ → ℕ) → Bool
entry_at pte word = not (pte == 0) && is_valid (word pte)

abbrev pub is_mapped : (level va pagetable : ℕ) → (word : ℕ → ℕ) → Bool
is_mapped level va pagetable word = entry_at (find level va pagetable word) word

-- What `walk_from` returns.
pub data Walked (level va pagetable : ℕ) (k : Kmem) (frees : List ℕ) : ℕ × Kmem → Type 0 where
  -- Fewer pages are free than tables can be missing; the memory is as before outside the tables and
  -- the pages that were free, and there was no valid entry.
  no_memory :
      (k' : Kmem)
      → length frees < level
      → ((a : ℕ)
          → member (a / 4096 * 4096) (tables level va pagetable k.word ++ frees) ≡ false
          → k'.word a ≡ k.word a)
      → is_mapped level va pagetable k.word ≡ false
      → Walked level va pagetable k frees (0, k')
  -- The entry is in a table page of before or in one that was free; wherever else the memory is
  -- as before; the entry is found, whatever is stored in it; and it is valid if there was a valid
  -- entry before.
  found :
      (pte : ℕ) (k' : Kmem)
      → pte ≢ 0
      → member (pte / 4096 * 4096) (tables level va pagetable k.word ++ frees) ≡ true
      → ((a : ℕ)
          → member (a / 4096 * 4096) (tables level va pagetable k.word ++ frees) ≡ false
          → k'.word a ≡ k.word a)
      → ((word : ℕ → ℕ)
          → ((a : ℕ) → a ≢ pte → word a ≡ k'.word a)
          → find level va pagetable word ≡ pte)
      → is_mapped level va pagetable k.word ≡ is_valid (k'.word pte)
      → Walked level va pagetable k frees (pte, k')

abbrev pub page_of : ℕ → ℕ
page_of a = a / 4096 * 4096

pub or_right : (b : Bool) {c : Bool} → c ≡ true → (b || c) ≡ true
or_right true h = refl
or_right false h = h

contrapose : (b c : Bool) → (b ≡ true → c ≡ true) → c ≡ false → b ≡ false
contrapose true c h off = absurd (ground (arith, h refl, off))
contrapose false c h off = refl

-- From the walk one level down, in the memory `made`, to the walk that reads the entry for it.
pub step-Walked :
    (level va pagetable next : ℕ) (k made : Kmem) (frees rest : List ℕ) {o : ℕ × Kmem}
    → let at = pagetable + px (suc level) va * 8 in
      let used = tables level va next made.word ++ rest in
      let all = tables (suc level) va pagetable k.word ++ frees in
      pagetable % 4096 ≡ 0
      → is_valid (made.word at) ≡ true
      → pte_to_pa (made.word at) ≡ next
      → member pagetable used ≡ false
      → length frees ≤ length rest + 1
      → ((p : ℕ) → member p used ≡ true → member p all ≡ true)
      → ((a : ℕ) → member (page_of a) all ≡ false → made.word a ≡ k.word a)
      → is_mapped (suc level) va pagetable k.word ≡ is_mapped level va next made.word
      → Walked level va next made rest o
      → Walked (suc level) va pagetable k frees o
step-Walked level va pagetable next k made frees rest aligned valid leads new one sub kept old
      (no_memory k' few frame none_) =
    no_memory k' (omega (arith, few, one))
      (λ a out. frame a (contrapose _ _ (sub (page_of a)) out) ∙ kept a out) (old ∙ none_)
step-Walked level va pagetable next k made frees rest aligned valid leads new one sub kept old
      (found pte k' nonzero inside frame finds was) =
    let at = pagetable + px (suc level) va * 8 in
    let page : page_of at ≡ pagetable = omega (arith, aligned) in
    let before : k'.word at ≡ made.word at =
      frame at
        (subst (λ q. member q (tables level va next made.word ++ rest) ≡ false) (sym page) new) in
    let apart : at ≢ pte = λ e. absurd (
      ground (
        arith,
        new,
        inside,
        ap (λ x. member (page_of x) (tables level va next made.word ++ rest)) e,
        ap (λ x. member x (tables level va next made.word ++ rest)) page,
      )) in
    found pte k' nonzero (sub _ inside)
      (λ a out. frame a (contrapose _ _ (sub (page_of a)) out) ∙ kept a out)
      (λ word same.
        let here : word at ≡ made.word at = same at apart ∙ before in
        find-below level va pagetable word (ap is_valid here ∙ valid)
        ∙ ap (λ t. find level va t word) (ap pte_to_pa here ∙ leads)
        ∙ finds word same)
      (old ∙ was)

pub tables-below :
    (level va pagetable : ℕ) (word : ℕ → ℕ)
    → let pte = word (pagetable + px (suc level) va * 8) in
      is_valid pte ≡ true
      → tables (suc level) va pagetable word ≡ pagetable ∷ tables level va (pte_to_pa pte) word
unfolding tables
tables-below level va pagetable word valid = rw valid refl

pub tables-none :
    (level va pagetable : ℕ) (word : ℕ → ℕ)
    → is_valid (word (pagetable + px level va * 8)) ≡ false
    → tables level va pagetable word ≡ pagetable ∷ []
unfolding tables
tables-none zero va pagetable word invalid = refl
tables-none (suc level) va pagetable word invalid = rw invalid refl

pub is_mapped-below :
    (level va pagetable : ℕ) (word : ℕ → ℕ)
    → let pte = word (pagetable + px (suc level) va * 8) in
      is_valid pte ≡ true
      → is_mapped (suc level) va pagetable word ≡ is_mapped level va (pte_to_pa pte) word
is_mapped-below level va pagetable word valid =
    ap (λ pte. entry_at pte word) (find-below level va pagetable word valid)

pub is_mapped-none :
    (level va pagetable : ℕ) (word : ℕ → ℕ)
    → is_valid (word (pagetable + px level va * 8)) ≡ false
    → is_mapped level va pagetable word ≡ false
unfolding find
is_mapped-none zero va pagetable word invalid = ground (arith, invalid)
is_mapped-none (suc level) va pagetable word invalid =
    ap (λ pte. entry_at pte word) (find-none level va pagetable word invalid)
