-- ===== src/Console/Store.antt =====
-- What killing a line, erasing and storing a character do to the two lists of the console.
use mathlib.Core.Path.{ap₂}
use fog_os.Prelude.{
  ℕ, zero, suc, ◌+◌, ◌%◌, ◌*◌, ◌<◌, ◌≡◌, refl, ap, ◌∙◌, List, [], ◌∷◌, ◌++◌, length, length-append,
  arith, sub32, add32, ◌||◌, ◌==◌, ltb, if◌then◌else◌, update, Bool, true, not, ◌&&◌, Bool-cases,
  inl, inr,
}
use fog_os.Ring.{ring, Apart, ring_push, ring_keep, ring_pop, ring-append, ring_congr, length-ring}
use fog_os.Console.{Console, consputc, backspace, input_buf_size, newline, ctrl, kill_line, store}
use fog_os.Console.View.{View, n_ready, n_editing, view, IsConsole, erase_last, erase_last-append}

Apart-input_buf_size : Apart input_buf_size
Apart-input_buf_size r d pos h e = omega arith

pub erased-IsConsole :
    (s : Console) → IsConsole s → 0 < n_editing s → IsConsole (record s { e = sub32 s.e 1 })
erased-IsConsole s is pos = record {
  r_word = is.r_word;
  w_word = is.w_word;
  e_word = omega arith;
  split = omega (arith, is.split, is.r_word, is.w_word, is.e_word);
  bounded = omega (arith, is.split, is.bounded, is.r_word, is.w_word, is.e_word);
  one_line = λ i h. is.one_line i (omega (arith, is.w_word, is.e_word));
}

-- A line that is killed is gone, and each of its characters is erased from the screen.
pub kill_line_lem :
    (k : ℕ) (s : Console) (echo : List ℕ)
    → IsConsole s
    → k ≡ n_editing s
    → ((kill_line k s echo).0 ≡ record s { e = s.w })
      × (length (kill_line k s echo).1 ≡ length echo + 3 * k)
unfolding kill_line
kill_line_lem zero s echo is e =
    let same : s.e ≡ s.w = omega (arith, is.w_word, is.e_word) in
    (ap (λ k. record s { e = k }) same, omega arith)
kill_line_lem (suc k) s echo is e =
    let at : (s.w + k) % 128 ≡ sub32 s.e 1 % 128 = omega (arith, is.w_word, is.e_word) in
    let last = is.one_line k (omega arith) in
    let go : (not (s.e == s.w) && not (s.buf (sub32 s.e 1 % input_buf_size) == newline)) ≡ true =
      ground (arith, last, at, is.w_word, is.e_word) in
    let (gone, erased) =
      kill_line_lem k (record s { e = sub32 s.e 1 }) (echo ++ consputc backspace)
        (erased-IsConsole s is (omega arith)) (omega (arith, is.w_word, is.e_word)) in
    rw go (gone, omega (arith, erased, length-append {0} echo (consputc backspace)))

pub editing-nil : (s : Console) → n_editing s ≡ 0 → (view s).editing ≡ []
unfolding view ring
editing-nil s nothing = rw nothing refl

module _ (s : Console) (is : IsConsole s) where
  pub killed-IsConsole : IsConsole (record s { e = s.w })
  killed-IsConsole = record {
    r_word = is.r_word;
    w_word = is.w_word;
    e_word = is.w_word;
    split = omega (arith, is.w_word);
    bounded = omega (arith, is.split, is.bounded);
    one_line = λ i h. absurd (omega (arith, is.w_word));
  }

  pub killed-view : view (record s { e = s.w }) ≡ record (view s) { editing = [] }
  unfolding view ring
  killed-view = let none_left : sub32 s.w s.w ≡ 0 = omega (arith, is.w_word) in rw none_left refl

  pub erased-view :
      0 < n_editing s
      → view (record s { e = sub32 s.e 1 })
        ≡ record (view s) { editing = erase_last (view s).editing }
  unfolding view
  erased-view pos =
      let n : ℕ = sub32 (sub32 s.e 1) s.w in
      let one_more : n_editing s ≡ suc n = omega (arith, is.w_word, is.e_word) in
      rw one_more (
        rw (ring_pop input_buf_size s.buf s.w n)
          (rw (erase_last-append (ring input_buf_size s.buf s.w n)) refl))

  pub used_lem : length (view s).ready + length (view s).editing ≡ sub32 s.e s.r
  unfolding view
  used_lem = omega (
    arith,
    length-ring input_buf_size s.buf s.r (n_ready s),
    length-ring input_buf_size s.buf s.w (n_editing s),
    is.split,
  )

  -- The lists after a character is stored behind the line being typed.
  module _ (c : ℕ) (room : sub32 s.e s.r < input_buf_size) where
    abbrev buf' : ℕ → ℕ
    buf' = update s.buf (s.e % input_buf_size) c

    stored_editing :
        ring input_buf_size buf' s.w (sub32 (add32 s.e 1) s.w) ≡ (view s).editing ++ c ∷ []
    unfolding view
    stored_editing =
        let at : s.e % 128 ≡ (s.w + n_editing s) % 128 = omega (arith, is.w_word, is.e_word) in
        let one_more : sub32 (add32 s.e 1) s.w ≡ suc (n_editing s) =
          omega (arith, is.split, is.w_word, is.e_word) in
        rw (at, one_more)
          (ring_push input_buf_size Apart-input_buf_size s.buf s.w (n_editing s) c
            (omega (arith, is.split)))

    stored_ready : ring input_buf_size buf' s.r (n_ready s) ≡ (view s).ready
    unfolding view
    stored_ready =
        let at : s.e % 128 ≡ (s.r + sub32 s.e s.r) % 128 = omega (arith, is.r_word, is.e_word) in
        rw at (
          ring_keep input_buf_size Apart-input_buf_size s.buf s.r (n_ready s) (sub32 s.e s.r) c
            (omega (arith, is.split)) room)

    committed_ready :
        ring input_buf_size buf' s.r (sub32 (add32 s.e 1) s.r)
        ≡ (view s).ready ++ ((view s).editing ++ c ∷ [])
    committed_ready =
        let n : ℕ = sub32 (add32 s.e 1) s.w in
        let all : sub32 (add32 s.e 1) s.r ≡ n_ready s + n =
          omega (arith, is.split, is.r_word, is.w_word, is.e_word) in
        rw all (
          ring-append input_buf_size buf' s.r (n_ready s) n
          ∙ ap₂ ◌++◌ stored_ready (
              ring_congr input_buf_size buf' (s.r + n_ready s) s.w n
                (λ j. omega (arith, is.r_word, is.w_word))
              ∙ stored_editing))

    abbrev pub commits : Bool
    commits = c == newline || c == ctrl b'D' || sub32 (add32 s.e 1) s.r == input_buf_size

    abbrev pub both : List ℕ → List ℕ → View
    both xs ys = record { ready = xs; editing = ys }

    pub store-view : view (store c s).console ≡ (
        if commits
        then both ((view s).ready ++ ((view s).editing ++ c ∷ [])) []
        else both (view s).ready ((view s).editing ++ c ∷ []))
    unfolding store view ring
    store-view = elim (Bool-cases commits) [
      | inl yes_ ↦
          let nothing : sub32 (add32 s.e 1) (add32 s.e 1) ≡ 0 = omega arith in
          rw (yes_, nothing, store) (ap₂ both committed_ready refl)
      | inr no_ ↦ rw (no_, store) (ap₂ both stored_ready stored_editing)
    ]

    pub store-IsConsole : IsConsole (store c s).console
    unfolding store
    store-IsConsole = elim (Bool-cases commits) [
      | inl yes_ ↦
          rw (yes_, store)
            (record {
              r_word = is.r_word;
              w_word = omega arith;
              e_word = omega arith;
              split = omega (arith, is.r_word);
              bounded = omega (arith, is.r_word, is.e_word);
              one_line = λ i h. absurd (omega arith);
            })
      | inr no_ ↦
          rw (no_, store)
            (record {
              r_word = is.r_word;
              w_word = is.w_word;
              e_word = omega arith;
              split = omega (arith, is.split, is.r_word, is.w_word, is.e_word);
              bounded = omega (arith, is.r_word, is.e_word);
              one_line = λ i h. ground (arith, is.one_line i, is.split, is.w_word, is.e_word, room);
            })
    ]

    store-woken : (store c s).woken ≡ commits
    unfolding store
    store-woken = elim (Bool-cases commits) [ inl yes_ ↦ rw yes_ | inr no_ ↦ rw no_ ]

    pub wakes :
        (store c s).woken ≡ ltb (length (view s).ready) (length (view (store c s).console).ready)
    wakes =
        rw (store-woken, store-view)
          (elim (Bool-cases commits) [
            | inl yes_ ↦ rw yes_ (
                ground (
                  arith,
                  length-append {0} (view s).ready ((view s).editing ++ c ∷ []),
                  length-append {0} (view s).editing (c ∷ []),
                ))
            | inr no_ ↦ rw no_ (ground arith)
          ])
