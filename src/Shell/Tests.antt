-- ===== src/Shell/Tests.antt =====
-- Tests and examples for the parser of the shell.
use fog_os.Prelude.{ℕ, ◌≡◌, refl, List, [], ◌∷◌}
use fog_os.Shell.{
  parsed, panic, exec, redir, pipe, list, back, parsecmd, parseline, parsepipe, parseexec,
  parseblock, close_block, parseredirs, redirs_loop, redirected, args_loop, back_loop, gettoken,
  token, word, skip, peeks,
}
use fog_os.Shell.Ends.{Ends, Fits}
use fog_os.Shell.Total.{parsecmd-Ends}

-- "ls a|b>>c &"
abbrev piped : List ℕ
piped = b'l' ∷ b's' ∷ b' ' ∷ b'a' ∷ b'|' ∷ b'b' ∷ b'>' ∷ b'>' ∷ b'c' ∷ b' ' ∷ b'&' ∷ []

piped_parses :
    parsecmd piped
    ≡ parsed
        (back (
          pipe
            (exec ((b'l' ∷ b's' ∷ []) ∷ (b'a' ∷ []) ∷ []))
            (redir (exec ((b'b' ∷ []) ∷ [])) (b'c' ∷ []) 513 1)))
        []
unfolding parsecmd parseline parsepipe parseexec parseredirs redirs_loop redirected args_loop
    back_loop gettoken token word skip peeks
piped_parses = refl

-- "(a;b" and "a)"
unclosed : parsecmd (b'(' ∷ b'a' ∷ b';' ∷ b'b' ∷ []) ≡ panic "syntax - missing )"
unfolding parsecmd parseline parsepipe parseexec parseblock close_block parseredirs redirs_loop
    redirected args_loop back_loop gettoken token word skip peeks
unclosed = refl

leftovers : parsecmd (b'a' ∷ b')' ∷ []) ≡ panic "syntax"
unfolding parsecmd parseline parsepipe parseexec parseredirs redirs_loop redirected args_loop
    back_loop gettoken token word skip peeks
leftovers = refl

block :
    parsecmd (b'(' ∷ b'a' ∷ b';' ∷ b')' ∷ b'<' ∷ b'b' ∷ [])
    ≡ parsed (redir (list (exec ((b'a' ∷ []) ∷ [])) (exec [])) (b'b' ∷ []) 0 0) []
unfolding parsecmd parseline parsepipe parseexec parseblock close_block parseredirs redirs_loop
    redirected args_loop back_loop gettoken token word skip peeks
block = refl

parsecmd-Ends_example : Ends Fits 0 (parsecmd piped)
parsecmd-Ends_example = parsecmd-Ends piped
