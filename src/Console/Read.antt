-- ===== src/Console/Read.antt =====
-- `consoleread` takes its bytes from the front of the ready characters, at most one line of them.
use mathlib.Core.Path.{subst}
use fog_os.Prelude.{
  ℕ, zero, suc, ◌+◌, ◌-◌, ◌%◌, ◌≡◌, ◌≢◌, refl, ap, sym, ◌∙◌, List, [], ◌∷◌, ◌++◌, length,
  length-append, arith, sub32, add32, ◌==◌, ltb, if◌then◌else◌, Bool, true, false, Bool-cases, inl,
  inr, none, some, rounds,
}
use mathlib.Core.List.{append_assoc}
use fog_os.Ring.{ring, ring_congr}
use fog_os.Console.{
  Console, ReadTurn, input_buf_size, newline, ctrl, read_loop, consoleread, returned, asleep,
}
use fog_os.Console.View.{All, n_ready, view, IsConsole}

abbrev Plain : List ℕ → Type 0
Plain = All (λ c. (c ≢ newline) × (c ≢ ctrl b'D'))

All-snoc : (P : ℕ → Type 0) (xs : List ℕ) (x : ℕ) → All P xs → P x → All P (xs ++ x ∷ [])
All-snoc P [] x ps p = (p, tt)
All-snoc P (y ∷ ys) x ps p = (ps.0, All-snoc P ys x ps.1 p)

-- From `s` to `s'` the plain bytes `bs` and then those of `lost` left the front of the ready
-- characters.
pub record Took (s s' : Console) (bs lost : List ℕ) : Type 0 where
  pub is_console : IsConsole s'
  pub same_line : (view s').editing ≡ (view s).editing
  pub front : (view s).ready ≡ bs ++ (lost ++ (view s').ready)
  pub plain : Plain bs

-- How a turn of `consoleread` that wants `target` bytes ends.
pub data ReadEnd (killed : Bool) (mapped : ℕ → Bool) (target : ℕ) (s : Console)
    : ReadTurn → Type 0 where
  filled :
      (s' : Console) (bs : List ℕ)
      → Took s s' bs []
      → length bs ≡ target
      → ReadEnd killed mapped target s (returned (some target) s' bs)
  a_line :
      (s' : Console) (bs : List ℕ)
      → Took s s' bs (newline ∷ [])
      → (k : ℕ) → k ≡ length bs + 1
      → ReadEnd killed mapped target s (returned (some k) s' (bs ++ newline ∷ []))
  end_of_file :
      (s' : Console)
      → Took s s' [] (ctrl b'D' ∷ [])
      → ReadEnd killed mapped target s (returned (some 0) s' [])
  before_end_of_file :
      (s' : Console) (bs rest : List ℕ)
      → Took s s' bs []
      → (view s').ready ≡ ctrl b'D' ∷ rest
      → (k : ℕ) → k ≡ length bs
      → ReadEnd killed mapped target s (returned (some k) s' bs)
  unmapped :
      (s' : Console) (bs : List ℕ) (c : ℕ)
      → Took s s' bs (c ∷ [])
      → (k : ℕ) → k ≡ length bs
      → mapped k ≡ false
      → ReadEnd killed mapped target s (returned (some k) s' bs)
  killed_ :
      (s' : Console) (bs : List ℕ)
      → Took s s' bs []
      → (view s').ready ≡ []
      → killed ≡ true
      → ReadEnd killed mapped target s (returned none s' bs)
  waits :
      (s' : Console) (bs : List ℕ) (n : ℕ)
      → Took s s' bs []
      → (view s').ready ≡ []
      → killed ≡ false
      → length bs + n ≡ target
      → ReadEnd killed mapped target s (asleep n s' bs)

module _ (s : Console) (is : IsConsole s) where
  abbrev taken : Console
  taken = record s { r = add32 s.r 1 }

  ready-nil : s.r ≡ s.w → (view s).ready ≡ []
  unfolding view ring
  ready-nil empty = let nothing : n_ready s ≡ 0 = omega (arith, is.r_word) in rw nothing refl

  ready-cons : s.r ≢ s.w → (view s).ready ≡ s.buf (s.r % input_buf_size) ∷ (view taken).ready
  unfolding view ring
  ready-cons some_ =
      let one_more : n_ready s ≡ suc (n_ready taken) = omega (arith, is.r_word, is.w_word) in
      rw one_more (
        ap (λ q. s.buf (s.r % input_buf_size) ∷ q)
          (ring_congr input_buf_size s.buf (s.r + 1) (add32 s.r 1) (n_ready taken)
            (λ j. omega (arith, is.r_word))))

  taken-IsConsole : s.r ≢ s.w → IsConsole taken
  taken-IsConsole some_ = record {
    r_word = omega arith;
    w_word = is.w_word;
    e_word = is.e_word;
    split = omega (arith, is.split, is.r_word, is.w_word, is.e_word);
    bounded = omega (arith, is.split, is.bounded, is.r_word, is.w_word, is.e_word);
    one_line = is.one_line;
  }

  given_back : record taken { r = sub32 (add32 s.r 1) 1 } ≡ s
  given_back = let same : sub32 (add32 s.r 1) 1 ≡ s.r = omega (arith, is.r_word) in rw same refl

-- One more byte off the front.
module _ (s s' : Console) (bs : List ℕ) (t : Took s s' bs []) (some_ : s'.r ≢ s'.w) where
  abbrev c : ℕ
  c = s'.buf (s'.r % input_buf_size)

  Took-lost : Took s (taken s' t.is_console) bs (c ∷ [])
  unfolding view
  Took-lost = record {
    is_console = taken-IsConsole s' t.is_console some_;
    same_line = t.same_line;
    front = t.front ∙ ap (λ q. bs ++ q) (ready-cons s' t.is_console some_);
    plain = t.plain;
  }

  Took-kept : c ≢ newline → c ≢ ctrl b'D' → Took s (taken s' t.is_console) (bs ++ c ∷ []) []
  Took-kept line eof = record {
    is_console = Took-lost.is_console;
    same_line = Took-lost.same_line;
    front = Took-lost.front ∙ sym (append_assoc bs (c ∷ []) (view (taken s' t.is_console)).ready);
    plain = All-snoc _ bs c t.plain (line, eof);
  }

module _ (killed : Bool) (mapped : ℕ → Bool) (target : ℕ) where
  -- The end of file is dropped if it comes first, and stays if bytes came before it.
  at_end_of_file :
      (n : ℕ) (s s' : Console) (bs : List ℕ) (t : Took s s' bs [])
      → s'.r ≢ s'.w
      → length bs + suc n ≡ target
      → s'.buf (s'.r % input_buf_size) ≡ ctrl b'D'
      → ReadEnd killed mapped target s (
          returned
            (some (target - suc n))
            (if ltb (suc n) target
              then record s' { r = sub32 (add32 s'.r 1) 1 }
              else record s' { r = add32 s'.r 1 })
            bs)
  at_end_of_file n s s' [] t more want eof =
      let first : ltb (suc n) target ≡ false = ground arith in
      let zero_ : target - suc n ≡ 0 = omega arith in
      rw (first, zero_)
        (end_of_file _
          (subst (λ k. Took s (taken s' t.is_console) [] (k ∷ [])) eof (Took-lost s s' [] t more)))
  at_end_of_file n s s' (b ∷ bs) t more want eof =
      let later : ltb (suc n) target ≡ true = ground arith in
      rw (later, given_back s' t.is_console)
        (before_end_of_file s' (b ∷ bs) _ t
          (ready-cons s' t.is_console more ∙ ap (λ k. k ∷ (view (taken s' t.is_console)).ready) eof)
          (target - suc n) (omega arith))

  read_loop-ReadEnd :
      (n : ℕ) (s s' : Console) (bs : List ℕ)
      → Took s s' bs []
      → length bs + n ≡ target
      → ReadEnd killed mapped target s (read_loop killed mapped target n s' bs)
  unfolding read_loop
  read_loop-ReadEnd zero s s' bs t want = filled s' bs t (omega arith)
  read_loop-ReadEnd (suc n) s s' bs t want =
      let c : ℕ = s'.buf (s'.r % input_buf_size) in
      let is = t.is_console in
      elim (Bool-cases (s'.r == s'.w)) [
        | inl empty ↦
            let nothing = ready-nil s' is (ground arith) in
            elim (Bool-cases killed) [
              | inl dead ↦ rw (empty, dead) (killed_ s' bs t nothing refl)
              | inr alive ↦ rw (empty, alive) (waits s' bs (suc n) t nothing refl want)
            ]
        | inr some_ ↦
            let more : s'.r ≢ s'.w = ground arith in
            elim (Bool-cases (c == ctrl b'D')) [
              | inl eof ↦ rw (some_, eof) (at_end_of_file n s s' bs t more want (ground arith))
              | inr no_eof ↦ elim (Bool-cases (mapped (target - suc n))) [
                | inr off ↦
                    let k : target - suc n ≡ length bs = omega arith in
                    rw (some_, no_eof, off)
                      (unmapped _ bs c (Took-lost s s' bs t more) (target - suc n) k off)
                | inl there ↦ elim (Bool-cases (c == newline)) [
                  | inl line ↦
                      let nl : c ≡ newline = ground arith in
                      rw (some_, no_eof, there, line)
                        (subst
                          (λ x.
                            ReadEnd killed mapped target s
                              (returned (some (target - n)) (taken s' is) (bs ++ x ∷ [])))
                          (sym nl)
                          (a_line (taken s' is) bs
                            (subst (λ x. Took s (taken s' is) bs (x ∷ [])) nl
                              (Took-lost s s' bs t more))
                            (target - n) (omega arith)))
                  | inr no_line ↦
                      let one : length (bs ++ c ∷ []) ≡ length bs + 1 =
                        omega (arith, length-append {0} bs (c ∷ [])) in
                      rw (some_, no_eof, there, no_line)
                        (read_loop-ReadEnd n s _ (bs ++ c ∷ [])
                          (Took-kept s s' bs t more (ground arith) (ground arith)) (omega arith))
                ]
              ]
            ]
      ]

-- A turn of `consoleread` takes plain bytes, neither newline nor control-D, from the front of the
-- ready characters, in order, and leaves the line being typed. It ends with as many as were wanted;
-- or with a newline behind them; or at a control-D, which is taken only if no byte came before it,
-- and the result is then 0; or at a byte that `copyout` fails to deliver, which is lost; or, at an
-- empty buffer, with -1 if the process is killed, and asleep if not. A count that is returned is
-- the number of bytes delivered.
pub consoleread-ReadEnd :
    (killed : Bool) (mapped : ℕ → Bool) (n : ℕ) (s : Console)
    → IsConsole s
    → ReadEnd killed mapped (rounds n) s (consoleread killed mapped n s)
unfolding consoleread
consoleread-ReadEnd killed mapped n s is =
    read_loop-ReadEnd killed mapped (rounds n) (rounds n) s s []
      (record { is_console = is; same_line = refl; front = refl; plain = tt }) (omega arith)
