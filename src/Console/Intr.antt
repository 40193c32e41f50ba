-- ===== src/Console/Intr.antt =====
-- `consoleintr` does to the two lists of the console what `type_key` says.
use fog_os.Prelude.{
  ℕ, ◌+◌, ◌<◌, ◌≡◌, refl, sym, ◌∙◌, List, [], length, arith, sub32, add32, ◌||◌, ◌==◌, leb, ltb,
  if◌then◌else◌, true, false, not, ◌&&◌, Bool-cases, inl, inr,
}
use fog_os.Console.{Console, Handled, input_buf_size, newline, ctrl, consoleintr}
use fog_os.Console.View.{n_editing, view, IsConsole, erase_last, type_key}
use fog_os.Console.Store.{
  erased-IsConsole, kill_line_lem, editing-nil, killed-IsConsole, killed-view, erased-view,
  used_lem, store-view, store-IsConsole, wakes,
}

-- One key.
pub record Keyed (c : ℕ) (s : Console) (h : Handled) : Type 0 where
  pub is_console : IsConsole h.console
  pub shows : view h.console ≡ type_key c (view s)
  pub wakes : h.woken ≡ ltb (length (view s).ready) (length (view h.console).ready)

-- A key that leaves the ready characters alone.
Keyed-quiet :
    (c : ℕ) (s : Console) (h : Handled) (es : List ℕ)
    → IsConsole h.console
    → h.woken ≡ false
    → view h.console ≡ record (view s) { editing = es }
    → type_key c (view s) ≡ record (view s) { editing = es }
    → Keyed c s h
Keyed-quiet c s h es is quiet_ shown spec = record {
  is_console = is;
  shows = shown ∙ sym spec;
  wakes = rw (quiet_, shown) (ground arith);
}

module _ (c : ℕ) (s : Console) (is : IsConsole s) (no_list : (c == ctrl b'P') ≡ false)
    (no_kill : (c == ctrl b'U') ≡ false) where
  Keyed-erase : (c == ctrl b'H' || c == 0x7f) ≡ true → Keyed c s (consoleintr c s)
  unfolding consoleintr type_key
  Keyed-erase erase = elim (Bool-cases (s.e == s.w)) [
    | inl empty ↦
        let nothing : n_editing s ≡ 0 = ground (arith, is.w_word, is.e_word) in
        Keyed-quiet c s (consoleintr c s) (view s).editing (rw (no_list, no_kill, erase, empty) is)
          (rw (no_list, no_kill, erase, empty)) (rw (no_list, no_kill, erase, empty))
          (rw (no_list, no_kill, erase, editing-nil s nothing) refl)
    | inr some_ ↦
        let pos : 0 < n_editing s = ground (arith, is.w_word, is.e_word) in
        Keyed-quiet c s (consoleintr c s) (erase_last (view s).editing)
          (rw (no_list, no_kill, erase, some_) (erased-IsConsole s is pos))
          (rw (no_list, no_kill, erase, some_))
          (rw (no_list, no_kill, erase, some_) (erased-view s is pos))
          (rw (no_list, no_kill, erase))
  ]

  Keyed-store : (c == ctrl b'H' || c == 0x7f) ≡ false → Keyed c s (consoleintr c s)
  unfolding consoleintr type_key
  Keyed-store no_erase = elim (Bool-cases (not (c == 0) && ltb (sub32 s.e s.r) input_buf_size)) [
    | inl go ↦
        let c' : ℕ = if c == 13 then newline else c in
        let room : sub32 s.e s.r < input_buf_size = ground arith in
        let free : (c == 0 || leb input_buf_size (length (view s).ready + length (view s).editing))
            ≡ false =
          ground (arith, used_lem s is) in
        let full : sub32 (add32 s.e 1) s.r ≡ length (view s).ready + length (view s).editing + 1 =
          omega (arith, used_lem s is, is.r_word, is.e_word) in
        rw (no_list, no_kill, no_erase, go)
          (record {
            is_console = store-IsConsole s is c' room;
            shows = rw (no_list, no_kill, no_erase, free, ← full) (store-view s is c' room);
            wakes = wakes s is c' room;
          })
    | inr no_room ↦
        let dropped : (c == 0
              || leb input_buf_size (length (view s).ready + length (view s).editing))
            ≡ true =
          ground (arith, used_lem s is) in
        Keyed-quiet c s (consoleintr c s) (view s).editing
          (rw (no_list, no_kill, no_erase, no_room) is) (rw (no_list, no_kill, no_erase, no_room))
          (rw (no_list, no_kill, no_erase, no_room)) (rw (no_list, no_kill, no_erase, dropped) refl)
  ]

-- The handler of an input character keeps the indices in order and does to the characters ready to
-- be read and to the line being typed what `type_key` says: it drops the line on control-U and its
-- last character on a backspace, ignores a zero and what does not fit, and stores any other
-- character, passing the line on at a newline, at control-D and when the buffer is full. It wakes
-- the readers exactly when there is more to read.
pub consoleintr-type_key : (c : ℕ) (s : Console) → IsConsole s → Keyed c s (consoleintr c s)
unfolding consoleintr type_key
consoleintr-type_key c s is = elim (Bool-cases (c == ctrl b'P')) [
  | inl list_ ↦ rw list_ (record { is_console = is; shows = rw list_; wakes = ground arith })
  | inr no_list ↦ elim (Bool-cases (c == ctrl b'U')) [
    | inl kill ↦
        let gone = (kill_line_lem (n_editing s) s [] is refl).0 in
        rw (no_list, kill)
          (Keyed-quiet c s _ [] (rw gone (killed-IsConsole s is)) refl (rw gone (killed-view s is))
            (rw (no_list, kill)))
    | inr no_kill ↦ elim (Bool-cases (c == ctrl b'H' || c == 0x7f)) [
      | inl erase ↦ Keyed-erase c s is no_list no_kill erase
      | inr no_erase ↦ Keyed-store c s is no_list no_kill no_erase
    ]
  ]
]
