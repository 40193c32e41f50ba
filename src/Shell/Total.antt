-- ===== src/Shell/Total.antt =====
-- The parser of the shell returns, for every text.
use fog_os.Prelude.{
  ℕ, zero, suc, ◌+◌, ◌≤◌, ◌<◌, refl, ◌==◌, leb, List, [], ◌∷◌, length, arith, Bool-cases, inl, inr,
}
use fog_os.Shell.{
  Cmd, exec, pipe, list, back, max_args, Parse, parsed, skip, gettoken, peeks, parseredirs, add_arg,
  args_loop, close_block, parseblock, parseexec, parsepipe, back_loop, parseline, finish, parsecmd,
}
use fog_os.Shell.Tokens.{length-skip, gettoken-ret, length-gettoken, peeks-gettoken}
use fog_os.Shell.Ends.{
  Ends, Fits, HasArgs, add_arg-HasArgs, HasArgs-Fits, Ends-bind, Ends-mono, parseredirs-Ends,
}

-- For any text behind a command.
abbrev Next : (n : ℕ) → (Cmd → List ℕ → Parse) → Type 0
Next n f = (cmd : Cmd) (s : List ℕ) → Fits cmd → length s ≤ n → Ends Fits n (f cmd s)

redirs-Fits : (cmd : Cmd) (s : List ℕ) → Fits cmd → Ends Fits (length s) (parseredirs cmd s)
redirs-Fits = parseredirs-Ends Fits (λ cmd file mode fd h. h)

args_loop-Ends :
    (fuel argc : ℕ) (ret : Cmd) (s : List ℕ)
    → HasArgs argc ret
    → argc < max_args
    → length s < fuel
    → Ends Fits (length s) (args_loop fuel argc ret s)
unfolding args_loop
args_loop-Ends zero argc ret s h few enough = absurd (omega (arith, enough))
args_loop-Ends (suc fuel) argc ret s h few enough =
    elim (Bool-cases (peeks s (b'|' ∷ b')' ∷ b'&' ∷ b';' ∷ []))) [
      | inl e ↦ rw (Ends, e) (HasArgs-Fits argc ret few h, length-skip s)
      | inr e ↦
          let tok = gettoken (skip s) in
          let left = length-gettoken (skip s) in
          let skipped = length-skip s in
          elim (Bool-cases (tok.ret == 0)) [
            | inl z ↦ rw (Ends, e, z) (HasArgs-Fits argc ret few h, omega (arith, left, skipped))
            | inr z ↦ elim (Bool-cases (tok.ret == b'a')) [
              | inr a ↦ rw (Ends, e, z, a) tt
              | inl a ↦ elim (Bool-cases (leb max_args (argc + 1))) [
                | inl m ↦ rw (Ends, e, z, a, m) tt
                | inr m ↦
                    let taken = gettoken-ret (skip s) (λ n. absurd (ground (arith, n, z))) in
                    let redirs =
                      parseredirs-Ends (HasArgs (argc + 1)) (λ cmd file mode fd h. h)
                        (add_arg tok.text ret) tok.rest (add_arg-HasArgs argc tok.text ret h) in
                    rw (Ends, e, z, a, m)
                      (Ends-bind (HasArgs (argc + 1)) Fits (length tok.rest) (length s) _
                        (args_loop fuel (argc + 1)) redirs
                        (λ ret' s' h' le.
                          Ends-mono Fits (length s') (length s) _ (omega (arith, le, left, skipped))
                            (args_loop-Ends fuel (argc + 1) ret' s' h' (ground (arith, m))
                              (omega (arith, le, taken, skipped, enough)))))
              ]
            ]
          ]
    ]

module _ (line : List ℕ → Parse) (bound : ℕ)
    (ends : (s : List ℕ) → length s < bound → Ends Fits (length s) (line s)) where
  close_block-Ends :
      (cmd : Cmd) (s : List ℕ) → Fits cmd → Ends Fits (length s) (close_block line cmd s)
  unfolding close_block
  close_block-Ends cmd s h = elim (Bool-cases (peeks s (b')' ∷ []))) [
    | inr e ↦ rw (Ends, e) tt
    | inl e ↦
        let taken = peeks-gettoken s _ e in
        let rest = redirs-Fits cmd (gettoken (skip s)).rest h in
        rw (Ends, e)
          (Ends-mono Fits (length (gettoken (skip s)).rest) (length s) _ (omega (arith, taken))
            rest)
  ]

  parseblock-Ends : (s : List ℕ) → length s ≤ bound → Ends Fits (length s) (parseblock line s)
  unfolding parseblock
  parseblock-Ends s le = elim (Bool-cases (peeks s (b'(' ∷ []))) [
    | inr e ↦ rw (Ends, e) tt
    | inl e ↦
        let taken = peeks-gettoken s _ e in
        let after_ = (gettoken (skip s)).rest in
        rw (Ends, e)
          (Ends-bind Fits Fits (length after_) (length s) _ (close_block line)
            (ends after_ (omega (arith, taken, le)))
            (λ cmd s' h le'.
              Ends-mono Fits (length s') (length s) _ (omega (arith, taken, le'))
                (close_block-Ends cmd s' h)))
  ]

  parseexec-Ends : (s : List ℕ) → length s ≤ bound → Ends Fits (length s) (parseexec line s)
  unfolding parseexec
  parseexec-Ends s le = elim (Bool-cases (peeks s (b'(' ∷ []))) [
    | inl e ↦
        rw (Ends, e)
          (Ends-mono Fits (length (skip s)) (length s) _ (length-skip s)
            (parseblock-Ends (skip s) (omega (arith, length-skip s, le))))
    | inr e ↦
        let redirs =
          parseredirs-Ends (HasArgs 0) (λ cmd file mode fd h. h) (exec []) (skip s) refl in
        rw (Ends, e)
          (Ends-bind (HasArgs 0) Fits (length (skip s)) (length s) _
            (λ ret s'. args_loop (length s' + 1) 0 ret s') redirs
            (λ ret s' h le'.
              Ends-mono Fits (length s') (length s) _ (omega (arith, le', length-skip s))
                (args_loop-Ends (length s' + 1) 0 ret s' h (omega arith) (omega arith))))
  ]

  parsepipe-Ends :
      (fuel : ℕ) (s : List ℕ)
      → length s ≤ bound
      → length s < fuel
      → Ends Fits (length s) (parsepipe line fuel s)
  unfolding parsepipe
  parsepipe-Ends zero s le enough = absurd (omega (arith, enough))
  parsepipe-Ends (suc fuel) s le enough =
      Ends-bind Fits Fits (length s) (length s) (parseexec line s) _ (parseexec-Ends s le)
        (λ cmd s' h le'. elim (Bool-cases (peeks s' (b'|' ∷ []))) [
          | inr e ↦ rw (Ends, e) (h, omega (arith, length-skip s', le'))
          | inl e ↦
              let taken = peeks-gettoken s' _ e in
              let after_ = (gettoken (skip s')).rest in
              rw (Ends, e)
                (Ends-bind Fits Fits (length after_) (length s) _ (λ r s''. parsed (pipe cmd r) s'')
                  (parsepipe-Ends fuel after_ (omega (arith, taken, le', le))
                    (omega (arith, taken, le', enough)))
                  (λ r s'' h' le''. ((h, h'), omega (arith, le'', taken, le'))))
        ])

back_loop-Ends :
    (fuel : ℕ) (cmd : Cmd) (s : List ℕ)
    → Fits cmd
    → length s < fuel
    → Ends Fits (length s) (back_loop fuel cmd s)
unfolding back_loop
back_loop-Ends zero cmd s h enough = absurd (omega (arith, enough))
back_loop-Ends (suc fuel) cmd s h enough = elim (Bool-cases (peeks s (b'&' ∷ []))) [
  | inr e ↦ rw (Ends, e) (h, length-skip s)
  | inl e ↦
      let taken = peeks-gettoken s _ e in
      let after_ = (gettoken (skip s)).rest in
      rw (Ends, e)
        (Ends-mono Fits (length after_) (length s) _ (omega (arith, taken))
          (back_loop-Ends fuel (back cmd) after_ h (omega (arith, taken, enough))))
]

parseline-Ends : (fuel : ℕ) (s : List ℕ) → length s < fuel → Ends Fits (length s) (parseline fuel s)
unfolding parseline
parseline-Ends zero s enough = absurd (omega (arith, enough))
parseline-Ends (suc fuel) s enough =
    Ends-bind Fits Fits (length s) (length s) _ _
      (Ends-bind Fits Fits (length s) (length s) _ (λ cmd s'. back_loop (length s' + 1) cmd s')
        (parsepipe-Ends (parseline fuel) fuel (parseline-Ends fuel) (length s + 1) s
          (omega (arith, enough)) (omega arith))
        (λ cmd s' h le.
          Ends-mono Fits (length s') (length s) _ le
            (back_loop-Ends (length s' + 1) cmd s' h (omega arith))))
      (λ cmd s' h le. elim (Bool-cases (peeks s' (b';' ∷ []))) [
        | inr e ↦ rw (Ends, e) (h, omega (arith, length-skip s', le))
        | inl e ↦
            let taken = peeks-gettoken s' _ e in
            let after_ = (gettoken (skip s')).rest in
            rw (Ends, e)
              (Ends-bind Fits Fits (length after_) (length s) _ (λ r s''. parsed (list cmd r) s'')
                (parseline-Ends fuel after_ (omega (arith, taken, le, enough)))
                (λ r s'' h' le'. ((h, h'), omega (arith, le', taken, le))))
      ])

finish-Ends : (cmd : Cmd) (s : List ℕ) → Fits cmd → Ends Fits 0 (finish cmd s)
finish-Ends cmd [] h = (h, omega arith)
finish-Ends cmd (c ∷ rest) h = tt

-- For every line, `parsecmd` either returns a command and has read the whole line, or panics; it
-- never runs out of the rounds and the depth that the length of the line gives it. Each simple
-- command in the result has fewer than MAXARGS arguments, so that the 0 behind them fits into argv.
pub parsecmd-Ends : (s : List ℕ) → Ends Fits 0 (parsecmd s)
unfolding parsecmd
parsecmd-Ends s =
    Ends-bind Fits Fits (length s) 0 _ _ (parseline-Ends (length s + 1) s (omega arith))
      (λ cmd s' h le. finish-Ends cmd (skip s') h)
