-- ===== src/Log/Logical.antt =====
-- What a disk with a log stands for: the contents that recovery gives to its home blocks.
use native.Mathlib.Decide.{dec_le}
use mathlib.Core.Path.{subst}
use fog_os.Prelude.{rounds, ℕ, zero, suc, ◌+◌, ◌≤◌, ◌<◌, ◌≡◌, ◌⊎◌, arith, ◌==◌, if◌then◌else◌}
use fog_os.Disk.{Block}

-- The blocks of the log area: the header at `start`, and `size - 1` blocks behind it.
abbrev pub Inside : (start size x : ℕ) → Type 0
Inside start size x = (start ≤ x) × (x < start + size)

abbrev pub Outside : (start size x : ℕ) → Type 0
Outside start size x = (x < start) ⊎ (start + size ≤ x)

-- Block `x` after the first `n` entries of a log have been copied home.
unfoldable pub installed : (start : ℕ) (block : ℕ → ℕ) (n : ℕ) → (ℕ → Block) → ℕ → Block
installed start block zero d x = d x
installed start block (suc n) d x =
    if block n == x then d (start + n + 1) else installed start block n d x

-- The number of entries and the home blocks of the log on the disk.
abbrev pub header_n : (start : ℕ) → (ℕ → Block) → ℕ
header_n start d = rounds (d start 0)

abbrev pub header_block : (start : ℕ) → (ℕ → Block) → ℕ → ℕ
header_block start d i = d start (i + 1)

-- The contents of block `x` that the disk stands for.
unfoldable pub logical : (start : ℕ) → (ℕ → Block) → ℕ → Block
logical start d x = installed start (header_block start d) (header_n start d) d x

-- The log fits its area, and its home blocks lie outside of it.
pub record Fits (start size n : ℕ) (block : ℕ → ℕ) : Type 0 where
  pub few : n + 1 ≤ size
  pub homes : (i : ℕ) → i < n → Outside start size (block i)

-- The disk `d` has a log that fits, and stands for the contents `view`.
pub record Stands (start size : ℕ) (view d : ℕ → Block) : Type 0 where
  pub fits : Fits start size (header_n start d) (header_block start d)
  pub shows : (x : ℕ) → Outside start size x → logical start d x ≡ view x

-- Copying the first `t` entries home changes nothing of what all `n` entries amount to.
pub installed-installed :
    (start : ℕ) (block : ℕ → ℕ) (n t : ℕ) (d e : ℕ → Block) (x : ℕ)
    → t ≤ n
    → ((i : ℕ) → i < n → e (start + i + 1) ≡ d (start + i + 1))
    → e x ≡ installed start block t d x
    → installed start block n e x ≡ installed start block n d x
unfolding installed
installed-installed start block zero zero d e x le same here = here
installed-installed start block zero (suc t) d e x le same here = absurd (omega arith)
installed-installed start block (suc n) t d e x le same here = elim (dec_le t n) [
  | yes early ↦
      let rest =
        installed-installed start block n t d e x early (λ i h. same i (omega arith)) here in
      ground (arith, rest, same n (omega arith))
  | no late ↦
      let last : t ≡ suc n = omega arith in
      let now : e x ≡ installed start block (suc n) d x =
        subst (λ k. e x ≡ installed start block k d x) last here in
      let rest =
        installed-installed start block n n d e x (omega arith) (λ i h. same i (omega arith)) in
      ground (arith, rest, same n (omega arith))
]

-- It depends on nothing but the entries, their copies in the log and the block itself.
pub installed_congr :
    (start : ℕ) (b c : ℕ → ℕ) (n : ℕ) (d e : ℕ → Block) (x : ℕ)
    → ((i : ℕ) → i < n → b i ≡ c i)
    → ((i : ℕ) → i < n → e (start + i + 1) ≡ d (start + i + 1))
    → e x ≡ d x
    → installed start b n e x ≡ installed start c n d x
unfolding installed
installed_congr start b c zero d e x blocks same here = here
installed_congr start b c (suc n) d e x blocks same here =
    let rest =
      installed_congr start b c n d e x (λ i h. blocks i (omega arith))
        (λ i h. same i (omega arith)) here in
    ground (arith, rest, blocks n (omega arith), same n (omega arith))
