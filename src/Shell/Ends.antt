-- ===== src/Shell/Ends.antt =====
-- What a parser of the shell returns, and the redirections.
use fog_os.Prelude.{
  ℕ, zero, suc, ◌+◌, ◌≤◌, ◌<◌, ◌≡◌, ◌==◌, List, [], ◌∷◌, length, length-append, arith, Bool-cases,
  inl, inr,
}
use fog_os.Shell.{
  Cmd, exec, redir, pipe, list, back, max_args, Parse, parsed, panic, spent, ◌>>=◌, skip, gettoken,
  peeks, redirected, redirs_loop, parseredirs, add_arg,
}
use fog_os.Shell.Tokens.{length-skip, gettoken-ret, peeks-gettoken}

-- A result, with a command of which `P` holds and at most `n` bytes of text behind it.
abbrev pub Ends : (Cmd → Type 0) → (n : ℕ) → Parse → Type 0
Ends P n (parsed cmd s) = P cmd × (length s ≤ n)
Ends P n (panic why) = Unit {0}
Ends P n spent = ⊥

-- Each command has room for its arguments and the 0 behind them.
abbrev pub Fits : Cmd → Type 0
Fits (exec argv) = length argv < max_args
Fits (redir cmd file mode fd) = Fits cmd
Fits (pipe left right) = Fits left × Fits right
Fits (list left right) = Fits left × Fits right
Fits (back cmd) = Fits cmd

-- A command of `n` arguments, with redirections around it.
abbrev pub HasArgs : (n : ℕ) → Cmd → Type 0
HasArgs n (exec argv) = length argv ≡ n
HasArgs n (redir cmd file mode fd) = HasArgs n cmd
HasArgs n (pipe left right) = ⊥
HasArgs n (list left right) = ⊥
HasArgs n (back cmd) = ⊥

pub add_arg-HasArgs :
    (n : ℕ) (arg : List ℕ) (cmd : Cmd) → HasArgs n cmd → HasArgs (n + 1) (add_arg arg cmd)
add_arg-HasArgs n arg (exec argv) h =
    let more = length-append argv (arg ∷ []) in omega (arith, more, h)
add_arg-HasArgs n arg (redir cmd file mode fd) h = add_arg-HasArgs n arg cmd h
add_arg-HasArgs n arg (pipe left right) h = absurd h
add_arg-HasArgs n arg (list left right) h = absurd h
add_arg-HasArgs n arg (back cmd) h = absurd h

pub HasArgs-Fits : (n : ℕ) (cmd : Cmd) → n < max_args → HasArgs n cmd → Fits cmd
HasArgs-Fits n (exec argv) few h = omega (arith, few, h)
HasArgs-Fits n (redir cmd file mode fd) few h = HasArgs-Fits n cmd few h
HasArgs-Fits n (pipe left right) few h = absurd h
HasArgs-Fits n (list left right) few h = absurd h
HasArgs-Fits n (back cmd) few h = absurd h

pub Ends-bind :
    (P Q : Cmd → Type 0) (m n : ℕ) (r : Parse) (f : Cmd → List ℕ → Parse)
    → Ends P m r
    → ((cmd : Cmd) (s : List ℕ) → P cmd → length s ≤ m → Ends Q n (f cmd s))
    → Ends Q n (r >>= f)
Ends-bind P Q m n (parsed cmd s) f (holds, le) next = next cmd s holds le
Ends-bind P Q m n (panic why) f h next = tt
Ends-bind P Q m n spent f h next = absurd h

pub Ends-mono : (P : Cmd → Type 0) (m n : ℕ) (r : Parse) → m ≤ n → Ends P m r → Ends P n r
Ends-mono P m n (parsed cmd s) le (holds, le') = (holds, omega (arith, le, le'))
Ends-mono P m n (panic why) le h = tt
Ends-mono P m n spent le h = h

module _ (P : Cmd → Type 0)
    (closed : (cmd : Cmd) (file : List ℕ) (mode fd : ℕ) → P cmd → P (redir cmd file mode fd)) where
  redirected-closed : (tok : ℕ) (file : List ℕ) (cmd : Cmd) → P cmd → P (redirected tok file cmd)
  unfolding redirected
  redirected-closed tok file cmd h = elim (Bool-cases (tok == b'<')) [
    | inl e ↦ rw e (closed cmd file 0 0 h)
    | inr e ↦ elim (Bool-cases (tok == b'>')) [
      | inl e' ↦ rw (e, e') (closed cmd file 1537 1 h)
      | inr e' ↦ elim (Bool-cases (tok == b'+')) [
        | inl e'' ↦ rw (e, e', e'') (closed cmd file 513 1 h)
        | inr e'' ↦ rw (e, e', e'') h
      ]
    ]
  ]

  redirs_loop-Ends :
      (fuel : ℕ) (cmd : Cmd) (s : List ℕ)
      → P cmd
      → length s < fuel
      → Ends P (length s) (redirs_loop fuel cmd s)
  unfolding redirs_loop
  redirs_loop-Ends zero cmd s h enough = absurd (omega (arith, enough))
  redirs_loop-Ends (suc fuel) cmd s h enough = elim (Bool-cases (peeks s (b'<' ∷ b'>' ∷ []))) [
    | inr e ↦ rw (Ends, e) (h, length-skip s)
    | inl e ↦
        let tok = gettoken (skip s) in
        let file = gettoken tok.rest in
        let taken = peeks-gettoken s _ e in
        elim (Bool-cases (file.ret == b'a')) [
          | inr e' ↦ rw (Ends, e, e') tt
          | inl e' ↦
              let taken' = gettoken-ret tok.rest (λ z. absurd (ground (arith, e', z))) in
              let rest =
                redirs_loop-Ends fuel (redirected tok.ret file.text cmd) file.rest
                  (redirected-closed tok.ret file.text cmd h)
                  (omega (arith, taken, taken', enough)) in
              rw (Ends, e, e')
                (Ends-mono P (length file.rest) (length s) _ (omega (arith, taken, taken')) rest)
        ]
  ]

  pub parseredirs-Ends : (cmd : Cmd) (s : List ℕ) → P cmd → Ends P (length s) (parseredirs cmd s)
  unfolding parseredirs
  parseredirs-Ends cmd s h = redirs_loop-Ends (length s + 1) cmd s h (omega arith)
