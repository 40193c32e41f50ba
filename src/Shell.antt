-- ===== src/Shell.antt =====
-- user/sh.c, the parser of the commands. The text from `*ps` to `es` is a list of bytes, none of
-- them 0, and the byte at `es` is 0. A word is the list of its bytes, from `q` to `eq`.
pub mod Tokens
pub mod Ends
pub mod Total
mod Tests
use fog_os.Prelude.{
  ℕ, zero, suc, ◌+◌, Bool, true, false, not, ◌&&◌, ◌||◌, ◌==◌, leb, if◌then◌else◌, List, [], ◌∷◌,
  ◌++◌, length, drop, String,
}

abbrev pub max_args : ℕ
max_args = 10

pub data Cmd : Type 0 where
  exec : (argv : List (List ℕ)) → Cmd
  redir : (cmd : Cmd) (file : List ℕ) (mode fd : ℕ) → Cmd
  pipe : (left right : Cmd) → Cmd
  list : (left right : Cmd) → Cmd
  back : (cmd : Cmd) → Cmd

-- " \t\r\n\v" and "<|>&;()".
abbrev pub whitespace : List ℕ
whitespace = b' ' ∷ 9 ∷ 13 ∷ 10 ∷ 11 ∷ []

abbrev pub symbols : List ℕ
symbols = b'<' ∷ b'|' ∷ b'>' ∷ b'&' ∷ b';' ∷ b'(' ∷ b')' ∷ []

abbrev pub strchr : List ℕ → ℕ → Bool
strchr [] c = false
strchr (x ∷ xs) c = c == x || strchr xs c

-- `while(s < es && strchr(whitespace, *s)) s++`.
unfoldable pub skip : List ℕ → List ℕ
skip [] = []
skip (c ∷ s) = if strchr whitespace c then skip s else c ∷ s

-- `*s`.
abbrev pub top : List ℕ → ℕ
top [] = 0
top (c ∷ s) = c

pub record Token : Type 0 where
  pub ret : ℕ
  -- From `q` to `eq`.
  pub text : List ℕ
  -- What `*ps` is left at.
  pub rest : List ℕ

-- The loop of the `default` case.
unfoldable pub word : List ℕ → Token
word [] = record { ret = b'a'; text = []; rest = [] }
word (c ∷ s) =
    let t = word s in
    if not (strchr whitespace c) && not (strchr symbols c)
    then record { ret = b'a'; text = c ∷ t.text; rest = t.rest }
    else record { ret = b'a'; text = []; rest = c ∷ s }

-- The `switch` of `gettoken`.
unfoldable pub token : List ℕ → Token
token [] = record { ret = 0; text = []; rest = [] }
token (c ∷ s) =
    if c == 0
    then record { ret = 0; text = []; rest = c ∷ s }
    else if c == b'|' || c == b'(' || c == b')' || c == b';' || c == b'&' || c == b'<'
    then record { ret = c; text = c ∷ []; rest = s }
    else if c == b'>'
    then (if top s == b'>'
        then record { ret = b'+'; text = b'>' ∷ b'>' ∷ []; rest = drop 1 s }
        else record { ret = b'>'; text = b'>' ∷ []; rest = s })
    else word (c ∷ s)

unfoldable pub gettoken : List ℕ → Token
gettoken s = let t = token (skip s) in record t { rest = skip t.rest }

-- What `peek` returns of the text at which it leaves `*ps`, `skip s`.
unfoldable pub peeks : List ℕ → List ℕ → Bool
peeks s toks = not (top (skip s) == 0) && strchr toks (top (skip s))

-- A command and the text behind it; or `panic`, which ends the process; or no rounds are left.
pub data Parse : Type 0 where
  parsed : Cmd → List ℕ → Parse
  panic : String → Parse
  spent : Parse

infixl 5 ◌>>=◌
abbrev pub ◌>>=◌ : Parse → (Cmd → List ℕ → Parse) → Parse
parsed cmd s >>= f = f cmd s
panic why >>= f = panic why
spent >>= f = spent

-- The redirection that token `tok` makes.
unfoldable pub redirected : (tok : ℕ) (file : List ℕ) → Cmd → Cmd
redirected tok file cmd =
    if tok == b'<'
    then redir cmd file 0 0
    else if tok == b'>'
    then redir cmd file 1537 1
    else if tok == b'+'
    then redir cmd file 513 1
    else cmd

unfoldable pub redirs_loop : (fuel : ℕ) → Cmd → List ℕ → Parse
redirs_loop zero cmd s = spent
redirs_loop (suc fuel) cmd s =
    let tok = gettoken (skip s) in
    let file = gettoken tok.rest in
    let more = redirs_loop fuel (redirected tok.ret file.text cmd) file.rest in
    if peeks s (b'<' ∷ b'>' ∷ [])
    then (if not (file.ret == b'a') then panic "missing file for redirection" else more)
    else parsed cmd (skip s)

unfoldable pub parseredirs : Cmd → List ℕ → Parse
parseredirs cmd s = redirs_loop (length s + 1) cmd s

-- `cmd->argv[argc] = q`, in the command that the redirections are around.
abbrev pub add_arg : List ℕ → Cmd → Cmd
add_arg arg (exec argv) = exec (argv ++ arg ∷ [])
add_arg arg (redir cmd file mode fd) = redir (add_arg arg cmd) file mode fd
add_arg arg (pipe left right) = pipe left right
add_arg arg (list left right) = list left right
add_arg arg (back cmd) = back cmd

-- The loop of `parseexec`, with `ret` so far.
unfoldable pub args_loop : (fuel argc : ℕ) (ret : Cmd) → List ℕ → Parse
args_loop zero argc ret s = spent
args_loop (suc fuel) argc ret s =
    let tok = gettoken (skip s) in
    let more = parseredirs (add_arg tok.text ret) tok.rest >>= args_loop fuel (argc + 1) in
    if not (peeks s (b'|' ∷ b')' ∷ b'&' ∷ b';' ∷ []))
    then (if tok.ret == 0
        then parsed ret tok.rest
        else if not (tok.ret == b'a')
        then panic "syntax"
        else if leb max_args (argc + 1)
        then panic "too many args"
        else more)
    else parsed ret (skip s)

-- The parsers that call `parseline` again take it as `line`.
module _ (line : List ℕ → Parse) where
  unfoldable pub close_block : Cmd → List ℕ → Parse
  close_block cmd s =
      if not (peeks s (b')' ∷ []))
      then panic "syntax - missing )"
      else parseredirs cmd (gettoken (skip s)).rest

  unfoldable pub parseblock : List ℕ → Parse
  parseblock s =
      if not (peeks s (b'(' ∷ []))
      then panic "parseblock"
      else line (gettoken (skip s)).rest >>= close_block

  unfoldable pub parseexec : List ℕ → Parse
  parseexec s =
      let args = parseredirs (exec []) (skip s) >>= λ ret s'. args_loop (length s' + 1) 0 ret s' in
      if peeks s (b'(' ∷ []) then parseblock (skip s) else args

  -- `parsepipe`, for at most `fuel` commands.
  unfoldable pub parsepipe : (fuel : ℕ) → List ℕ → Parse
  parsepipe zero s = spent
  parsepipe (suc fuel) s = parseexec s >>= λ cmd s'.
      (let right = parsepipe fuel (gettoken (skip s')).rest >>= λ r s''. parsed (pipe cmd r) s'' in
        if peeks s' (b'|' ∷ []) then right else parsed cmd (skip s'))

-- The `while` loop of `parseline`.
unfoldable pub back_loop : (fuel : ℕ) → Cmd → List ℕ → Parse
back_loop zero cmd s = spent
back_loop (suc fuel) cmd s =
    let more = back_loop fuel (back cmd) (gettoken (skip s)).rest in
    if peeks s (b'&' ∷ []) then more else parsed cmd (skip s)

-- `parseline`, for at most `fuel` calls within each other.
unfoldable pub parseline : (fuel : ℕ) → List ℕ → Parse
parseline zero s = spent
parseline (suc fuel) s =
    parsepipe (parseline fuel) (length s + 1) s
    >>= (λ cmd s'. back_loop (length s' + 1) cmd s')
    >>= λ cmd s'.
        (let right =
            parseline fuel (gettoken (skip s')).rest >>= λ r s''. parsed (list cmd r) s'' in
          if peeks s' (b';' ∷ []) then right else parsed cmd (skip s'))

-- What `parsecmd` does once it has skipped to the end of the line.
abbrev pub finish : Cmd → List ℕ → Parse
finish cmd [] = parsed cmd []
finish cmd (c ∷ rest) = panic "syntax"

unfoldable pub parsecmd : List ℕ → Parse
parsecmd s = parseline (length s + 1) s >>= λ cmd s'. finish cmd (skip s')
