-- ===== src/Console/View.antt =====
-- The console as two lists: the characters ready to be read, and those of the line being typed.
use fog_os.Prelude.{
  ℕ, ◌+◌, ◌%◌, ◌^◌, ◌≤◌, ◌<◌, ◌≡◌, ◌≢◌, refl, ap, List, [], ◌∷◌, ◌++◌, length, sub32, ◌||◌, ◌==◌,
  leb, if◌then◌else◌,
}
use fog_os.Ring.{ring}
use fog_os.Console.{Console, input_buf_size, newline, ctrl}

pub record View : Type 0 where
  pub ready : List ℕ
  pub editing : List ℕ

abbrev pub All : (ℕ → Type 0) → List ℕ → Type 0
All P [] = Unit
All P (x ∷ xs) = P x × All P xs

abbrev pub n_ready : Console → ℕ
n_ready s = sub32 s.w s.r

abbrev pub n_editing : Console → ℕ
n_editing s = sub32 s.e s.w

unfoldable pub view : Console → View
view s = record {
  ready = ring input_buf_size s.buf s.r (n_ready s);
  editing = ring input_buf_size s.buf s.w (n_editing s);
}

-- The indices are words in the order r, w, e, with at most the buffer between r and e, and the
-- line being typed holds no newline.
pub record IsConsole (s : Console) : Type 0 where
  pub r_word : s.r < 2 ^ 32
  pub w_word : s.w < 2 ^ 32
  pub e_word : s.e < 2 ^ 32
  pub split : n_ready s + n_editing s ≡ sub32 s.e s.r
  pub bounded : sub32 s.e s.r ≤ input_buf_size
  pub one_line : (i : ℕ) → i < n_editing s → s.buf ((s.w + i) % input_buf_size) ≢ newline

unfoldable pub erase_last : List ℕ → List ℕ
erase_last [] = []
erase_last (x ∷ []) = []
erase_last (x ∷ y ∷ ys) = x ∷ erase_last (y ∷ ys)

pub erase_last-append : (xs : List ℕ) (x : ℕ) → erase_last (xs ++ x ∷ []) ≡ xs
unfolding erase_last
erase_last-append [] x = refl
erase_last-append (y ∷ []) x = refl
erase_last-append (y ∷ z ∷ zs) x = ap (λ q. y ∷ q) (erase_last-append (z ∷ zs) x)

-- What a key does to the two lists.
unfoldable pub type_key : ℕ → View → View
unfolding erase_last
type_key c v =
    let c' = if c == 13 then newline else c in
    let used = length v.ready + length v.editing in
    if c == ctrl b'P'
    then v
    else if c == ctrl b'U'
    then record v { editing = [] }
    else if c == ctrl b'H' || c == 0x7f
    then record v { editing = erase_last v.editing }
    else if c == 0 || leb input_buf_size used
    then v
    else if c' == newline || c' == ctrl b'D' || used + 1 == input_buf_size
    then record { ready = v.ready ++ (v.editing ++ c' ∷ []); editing = [] }
    else record v { editing = v.editing ++ c' ∷ [] }
