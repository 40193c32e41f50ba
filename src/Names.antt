-- ===== src/Names.antt =====
-- kernel/fs.c: `skipelem`, which takes a path name apart. A path is the list of its bytes before
-- the 0 that ends it.
pub mod Elements
mod Tests
use fog_os.Prelude.{ℕ, suc, Bool, ◌==◌, if◌then◌else◌, Option, none, some, List, [], ◌∷◌, take}

abbrev pub dirsiz : ℕ
dirsiz = 14

abbrev pub slash : ℕ
slash = 47

-- `while(*path == '/') path++;`
unfoldable pub skip_slashes : List ℕ → List ℕ
skip_slashes [] = []
skip_slashes (c ∷ cs) = let rest = skip_slashes cs in if c == slash then rest else c ∷ cs

-- `while(*path != '/' && *path != 0) path++;`: what is passed, and what is left.
unfoldable pub element : List ℕ → List ℕ
element [] = []
element (c ∷ cs) = let rest = element cs in if c == slash then [] else c ∷ rest

unfoldable pub after_element : List ℕ → List ℕ
after_element [] = []
after_element (c ∷ cs) = let rest = after_element cs in if c == slash then c ∷ cs else rest

-- The name, which is cut after DIRSIZ bytes, and the path behind it; `none` stands for 0.
unfoldable pub skipelem : List ℕ → Option (List ℕ × List ℕ)
skipelem path = elim (skip_slashes path) [
  | [] ↦ none
  | c ∷ cs ↦ some (take dirsiz (element (c ∷ cs)), skip_slashes (after_element (c ∷ cs)))
]
