-- ===== src/Names/Elements.antt =====
-- What `skipelem` takes is the first element of the path, and what it leaves the others.
use mathlib.Core.Path.{subst}
use mathlib.Core.List.{append_assoc, append-nil}
use fog_os.Prelude.{
  ℕ, ◌≤◌, ◌<◌, ◌≡◌, refl, ap, sym, ◌∙◌, true, false, ◌==◌, arith, if◌then◌else◌, Option, none, some,
  List, [], ◌∷◌, ◌++◌, length, take, Bool-cases, inl, inr,
}
use fog_os.Names.{dirsiz, slash, skip_slashes, element, after_element, skipelem}

-- A word that has come to its end.
abbrev pub finish : List ℕ → List (List ℕ) → List (List ℕ)
finish [] words = words
finish (c ∷ cs) words = (c ∷ cs) ∷ words

-- The elements of a path, in one pass: the words between slashes, where `cur` has been read of the
-- first.
abbrev pub split : (cur path : List ℕ) → List (List ℕ)
split cur [] = finish cur []
split cur (c ∷ cs) = if c == slash then finish cur (split [] cs) else split (cur ++ c ∷ []) cs

-- The path without its leading slashes.
data Skipped (path : List ℕ) : List ℕ → Type 0 where
  all_slashes : split [] path ≡ [] → Skipped path []
  some_left :
      (c : ℕ) (cs : List ℕ)
      → (c == slash) ≡ false
      → split [] path ≡ split [] (c ∷ cs)
      → length cs < length path
      → Skipped path (c ∷ cs)

Skipped-slash :
    (c : ℕ) (cs : List ℕ) {p : List ℕ} → (c == slash) ≡ true → Skipped cs p → Skipped (c ∷ cs) p
Skipped-slash c cs e (all_slashes same) = all_slashes (rw e same)
Skipped-slash c cs e (some_left d ds other same lt) = some_left d ds other (rw e same) (omega arith)

skip_slashes-Skipped : (path : List ℕ) → Skipped path (skip_slashes path)
unfolding skip_slashes
skip_slashes-Skipped [] = all_slashes refl
skip_slashes-Skipped (c ∷ cs) = elim (Bool-cases (c == slash)) [
  | inl e ↦
      subst (Skipped (c ∷ cs)) (rw (e, skip_slashes) refl)
        (Skipped-slash c cs e (skip_slashes-Skipped cs))
  | inr e ↦
      subst (Skipped (c ∷ cs)) (rw (e, skip_slashes) refl) (some_left c cs e refl (omega arith))
]

split-skip_slashes : (path : List ℕ) → split [] (skip_slashes path) ≡ split [] path
split-skip_slashes path = go (skip_slashes-Skipped path)
  where
    go : {p : List ℕ} → Skipped path p → split [] p ≡ split [] path
    go (all_slashes same) = sym same
    go (some_left c cs other same lt) = sym same

skip_slashes-le : (path : List ℕ) → length (skip_slashes path) ≤ length path
skip_slashes-le path = go (skip_slashes-Skipped path)
  where
    go : {p : List ℕ} → Skipped path p → length p ≤ length path
    go (all_slashes same) = omega arith
    go (some_left c cs other same lt) = omega arith

after_element-le : (path : List ℕ) → length (after_element path) ≤ length path
unfolding after_element
after_element-le [] = omega arith
after_element-le (c ∷ cs) = elim (Bool-cases (c == slash)) [
  | inl e ↦ rw e (omega arith)
  | inr e ↦ rw (e, after_element) (omega (arith, after_element-le cs))
]

split-element :
    (c : ℕ) (cur path : List ℕ)
    → split (c ∷ cur) path ≡ ((c ∷ cur) ++ element path) ∷ split [] (after_element path)
unfolding element after_element
split-element c cur [] = ap (λ q. q ∷ []) (sym (append-nil (c ∷ cur)))
split-element c cur (d ∷ path) = elim (Bool-cases (d == slash)) [
  | inl e ↦ rw e (rw e (ap (λ q. q ∷ split [] path) (sym (append-nil (c ∷ cur)))))
  | inr e ↦ rw e (
      split-element c (cur ++ d ∷ []) path
      ∙ ap (λ q. q ∷ split [] (after_element path))
          (append_assoc (c ∷ cur) (d ∷ []) (element path)))
]

-- What `skipelem` makes of a path.
pub data Taken (path : List ℕ) : Option (List ℕ × List ℕ) → Type 0 where
  no_element : split [] path ≡ [] → Taken path none
  first :
      (name rest : List ℕ)
      → split [] path ≡ name ∷ split [] rest
      → length rest < length path
      → Taken path (some (take dirsiz name, rest))

element-cons :
    (c : ℕ) (cs : List ℕ)
    → (c == slash) ≡ false
    → (element (c ∷ cs) ≡ c ∷ element cs) × (after_element (c ∷ cs) ≡ after_element cs)
unfolding element after_element
element-cons c cs e = (rw e refl, rw e refl)

-- `skipelem` returns 0 if the path has no element. If not, it takes the first of its elements, cut
-- after DIRSIZ bytes, and the path that it leaves is shorter and has the elements behind.
pub skipelem-Taken : (path : List ℕ) → Taken path (skipelem path)
unfolding skipelem
skipelem-Taken path = go (skip_slashes-Skipped path)
  where
    go :
        {p : List ℕ}
        → Skipped path p
        → Taken path (elim p [
          | [] ↦ none
          | c ∷ cs ↦ some (take dirsiz (element (c ∷ cs)), skip_slashes (after_element (c ∷ cs)))
        ])
    go (all_slashes same) = no_element same
    go (some_left c cs other same lt) =
        let (name, left) = element-cons c cs other in
        let whole : split [] (c ∷ cs) ≡ split (c ∷ []) cs = rw other refl in
        rw (name, left)
          (first (c ∷ element cs) (skip_slashes (after_element cs))
            (same
              ∙ whole
              ∙ split-element c [] cs
              ∙ ap (λ q. (c ∷ element cs) ∷ q) (sym (split-skip_slashes (after_element cs))))
            (omega (arith, skip_slashes-le (after_element cs), after_element-le cs)))
