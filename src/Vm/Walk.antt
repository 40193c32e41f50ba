-- ===== src/Vm/Walk.antt =====
-- A walk that allocates nothing: which words it reads, and the translation of an address.
use mathlib.Core.Path.{subst}
use fog_os.Prelude.{
  ℕ, zero, suc, ◌+◌, ◌*◌, ◌%◌, ◌≡◌, ◌≢◌, ◌∙◌, refl, sym, ap, Bool, true, false, not, ◌||◌, ◌==◌,
  leb, if◌then◌else◌, List, [], ◌∷◌, arith, ok, Bool-cases, inl, inr, ◌⊎◌, eqb_ne, ◌<◌,
}
use fog_os.Kalloc.{Kmem}
use fog_os.Kalloc.FreeList.{member}
use fog_os.Vm.{maxva, is_valid, is_user, pte_to_pa, px, walk_from, walk, walkaddr}

-- The entry for `va`, or 0.
unfoldable pub find : (level va pagetable : ℕ) → (word : ℕ → ℕ) → ℕ
find zero va pagetable word = pagetable + px 0 va * 8
find (suc level) va pagetable word =
    let pte = pagetable + px (suc level) va * 8 in
    let below = find level va (pte_to_pa (word pte)) word in
    if is_valid (word pte) then below else 0

-- The addresses of the entries that are read for `va`.
unfoldable pub reads : (level va pagetable : ℕ) → (word : ℕ → ℕ) → List ℕ
reads zero va pagetable word = (pagetable + px 0 va * 8) ∷ []
reads (suc level) va pagetable word =
    let pte = pagetable + px (suc level) va * 8 in
    let below = reads level va (pte_to_pa (word pte)) word in
    pte ∷ (if is_valid (word pte) then below else [])

-- The physical address of the page that a user address is mapped to, or 0.
abbrev pub translate : (pagetable va : ℕ) → (word : ℕ → ℕ) → ℕ
translate pagetable va word =
    let pte = find 2 va pagetable word in
    if leb maxva va
    then 0
    else if pte == 0
    then 0
    else if not (is_valid (word pte))
    then 0
    else if not (is_user (word pte))
    then 0
    else pte_to_pa (word pte)

pub walk_from-find :
    (level va pagetable : ℕ) (k : Kmem)
    → walk_from level va false pagetable k ≡ (find level va pagetable k.word, k)
unfolding walk_from find
walk_from-find zero va pagetable k = refl
walk_from-find (suc level) va pagetable k =
    let pte = k.word (pagetable + px (suc level) va * 8) in
    elim (Bool-cases (is_valid pte)) [
      | inl e ↦ rw e (walk_from-find level va (pte_to_pa pte) k)
      | inr e ↦ rw e refl
    ]

pub walkaddr-translate :
    (pagetable va : ℕ) (k : Kmem) → walkaddr pagetable va k ≡ ok (translate pagetable va k.word)
unfolding walkaddr walk
walkaddr-translate pagetable va k = elim (Bool-cases (leb maxva va)) [
  | inl e ↦ rw e refl
  | inr e ↦ rw (e, walk_from-find 2 va pagetable k) refl
]

or_true : (b c : Bool) → c ≡ true → (b || c) ≡ true
or_true true c h = refl
or_true false c h = h

or-cases : (b c : Bool) → (b || c) ≡ true → (b ≡ true) ⊎ (c ≡ true)
or-cases true c h = inl refl
or-cases false c h = inr h

if-member :
    (v : Bool) (a : ℕ) (xs : List ℕ)
    → member a (if v then xs else []) ≡ true
    → (v ≡ true) × (member a xs ≡ true)
if-member true a xs h = (refl, h)
if-member false a xs h = absurd (ground arith)

module _ (level va pagetable : ℕ) (word : ℕ → ℕ) where
  abbrev pub entry : ℕ
  entry = pagetable + px (suc level) va * 8

  reads-below :
      (a : ℕ)
      → is_valid (word entry) ≡ true
      → member a (reads level va (pte_to_pa (word entry)) word) ≡ true
      → member a (reads (suc level) va pagetable word) ≡ true
  unfolding reads
  reads-below a valid m = rw valid (or_true (a == entry) _ m)

  pub reads-cases :
      (a : ℕ)
      → member a (reads (suc level) va pagetable word) ≡ true
      → ((a == entry) ≡ true)
        ⊎ ((is_valid (word entry) ≡ true)
            × (member a (reads level va (pte_to_pa (word entry)) word) ≡ true))
  unfolding reads
  reads-cases a m = elim (or-cases (a == entry) _ m) [
    | inl here ↦ inl here
    | inr below ↦ inr (if-member (is_valid (word entry)) a _ below)
  ]

  pub find-below :
      is_valid (word entry) ≡ true
      → find (suc level) va pagetable word ≡ find level va (pte_to_pa (word entry)) word
  unfolding find
  find-below valid = rw valid refl

  pub find-none : is_valid (word entry) ≡ false → find (suc level) va pagetable word ≡ 0
  unfolding find
  find-none valid = rw valid refl

-- The entry that a walk ends at is one that it reads.
find-reads :
    (level va pagetable : ℕ) (word : ℕ → ℕ)
    → (find level va pagetable word ≡ 0)
      ⊎ (member (find level va pagetable word) (reads level va pagetable word) ≡ true)
unfolding find reads
find-reads zero va pagetable word = inr (ground arith)
find-reads (suc level) va pagetable word =
    let pte = word (pagetable + px (suc level) va * 8) in
    elim (Bool-cases (is_valid pte)) [
      | inl e ↦
          subst (λ f. (f ≡ 0) ⊎ (member f (reads (suc level) va pagetable word) ≡ true))
            (sym (find-below level va pagetable word e))
            (elim (find-reads level va (pte_to_pa pte) word) [
              | inl none_ ↦ inl none_
              | inr at ↦ inr (reads-below level va pagetable word _ e at)
            ])
      | inr e ↦ inl (find-none level va pagetable word e)
    ]

pub reads-aligned :
    (level va pagetable a : ℕ) (word : ℕ → ℕ)
    → pagetable % 8 ≡ 0
    → member a (reads level va pagetable word) ≡ true
    → a % 8 ≡ 0
unfolding reads
reads-aligned zero va pagetable a word aligned m = ground (arith, m, aligned)
reads-aligned (suc level) va pagetable a word aligned m =
    elim (reads-cases level va pagetable word a m) [
      | inl here ↦ ground (arith, here, aligned)
      | inr (valid, below) ↦ reads-aligned level va _ a word (omega arith) below
    ]

-- The words at the addresses that are read for `va` are the same in both memories.
abbrev pub SameReads : (va pagetable : ℕ) (word word' : ℕ → ℕ) → Type 0
SameReads va pagetable word word' =
    (a : ℕ) → member a (reads 2 va pagetable word) ≡ true → word a ≡ word' a

find-congr :
    (level va pagetable : ℕ) (word word' : ℕ → ℕ)
    → ((a : ℕ) → member a (reads level va pagetable word) ≡ true → word a ≡ word' a)
    → find level va pagetable word ≡ find level va pagetable word'
unfolding find reads
find-congr zero va pagetable word word' same = refl
find-congr (suc level) va pagetable word word' same =
    let at = pagetable + px (suc level) va * 8 in
    let here : word at ≡ word' at = same at (ground arith) in
    elim (Bool-cases (is_valid (word at))) [
      | inl e ↦
          let e' : is_valid (word' at) ≡ true = ap is_valid (sym here) ∙ e in
          find-below level va pagetable word e
          ∙ find-congr level va (pte_to_pa (word at)) word word'
              (λ a m. same a (reads-below level va pagetable word a e m))
          ∙ ap (λ v. find level va (pte_to_pa v) word') here
          ∙ sym (find-below level va pagetable word' e')
      | inr e ↦
          let e' : is_valid (word' at) ≡ false = ap is_valid (sym here) ∙ e in
          find-none level va pagetable word e ∙ sym (find-none level va pagetable word' e')
    ]

pub translate-congr :
    (va pagetable : ℕ) (word word' : ℕ → ℕ)
    → SameReads va pagetable word word'
    → translate pagetable va word ≡ translate pagetable va word'
translate-congr va pagetable word word' same =
    rw (← find-congr 2 va pagetable word word' same) (elim (find-reads 2 va pagetable word) [
      | inl none_ ↦ rw none_ refl
      | inr at ↦
          ap
            (λ entry.
              if leb maxva va
              then 0
              else if find 2 va pagetable word == 0
              then 0
              else if not (is_valid entry)
              then 0
              else if not (is_user entry)
              then 0
              else pte_to_pa entry)
            (same _ at)
    ])

-- The translation by a valid entry for the user.
pub translate-find :
    (va pagetable pte : ℕ) (word : ℕ → ℕ)
    → va < maxva
    → find 2 va pagetable word ≡ pte
    → pte ≢ 0
    → is_valid (word pte) ≡ true
    → is_user (word pte) ≡ true
    → translate pagetable va word ≡ pte_to_pa (word pte)
translate-find va pagetable pte word below finds nonzero valid user =
    let in_range : leb maxva va ≡ false = ground (arith, below) in
    let test : (pte == 0) ≡ false = eqb_ne pte 0 nonzero in
    rw (in_range, finds) (rw (test, valid, user) refl)
