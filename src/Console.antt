-- ===== src/Console.antt =====
-- kernel/console.c: the line discipline between the keyboard and `read`.
pub mod View
pub mod Store
pub mod Intr
pub mod Read
mod Tests
use fog_os.Prelude.{
  ℕ, zero, suc, ◌+◌, ◌-◌, ◌%◌, Bool, true, false, not, ◌&&◌, ◌||◌, ◌==◌, ltb, if◌then◌else◌, update,
  add32, sub32, rounds, Option, none, some, List, [], ◌∷◌, ◌++◌,
}

abbrev pub input_buf_size : ℕ
input_buf_size = 128

abbrev pub backspace : ℕ
backspace = 0x100

-- `C(x)`
abbrev pub ctrl : ℕ → ℕ
ctrl x = x - b'@'

abbrev pub newline : ℕ
newline = 10

-- `cons` without its lock: the buffer, with read, write and edit index of type `uint`.
pub record Console : Type 0 where
  pub buf : ℕ → ℕ
  pub r : ℕ
  pub w : ℕ
  pub e : ℕ

-- `consputc`: the bytes that go to the uart.
abbrev pub consputc : ℕ → List ℕ
consputc c = if c == backspace then 8 ∷ 32 ∷ 8 ∷ [] else c ∷ []

-- The loop of `C('U')`, for at most `left` rounds, with what it echoes behind `echo`.
unfoldable pub kill_line : (left : ℕ) → Console → (echo : List ℕ) → Console × List ℕ
kill_line zero s echo = (s, echo)
kill_line (suc left) s echo =
    let shorter = kill_line left (record s { e = sub32 s.e 1 }) (echo ++ consputc backspace) in
    if not (s.e == s.w) && not (s.buf (sub32 s.e 1 % input_buf_size) == newline)
    then shorter
    else (s, echo)

-- What the handler of one character leaves: the console, the bytes echoed, and whether it printed
-- the process list and woke `consoleread`.
pub record Handled : Type 0 where
  pub console : Console
  pub echo : List ℕ
  pub dumped : Bool
  pub woken : Bool

abbrev quiet : Console → List ℕ → Handled
quiet s echo = record { console = s; echo = echo; dumped = false; woken = false }

-- The default case, once there is room, for a byte `c`: echo and store `c`, and pass the line on at its end.
unfoldable pub store : ℕ → Console → Handled
store c s =
    let s' = record s { buf = update s.buf (s.e % input_buf_size) c; e = add32 s.e 1 } in
    if c == newline || c == ctrl b'D' || sub32 s'.e s'.r == input_buf_size
    then record {
      console = record s' { w = s'.e };
      echo = consputc c;
      dumped = false;
      woken = true;
    }
    else quiet s' (consputc c)

unfoldable pub consoleintr : ℕ → Console → Handled
consoleintr c s =
    if c == ctrl b'P'
    then record (quiet s []) { dumped = true }
    else if c == ctrl b'U'
    then (let (s', echo) = kill_line (sub32 s.e s.w) s [] in quiet s' echo)
    else if c == ctrl b'H' || c == 0x7f
    then (if s.e == s.w
        then quiet s []
        else quiet (record s { e = sub32 s.e 1 }) (consputc backspace))
    else if not (c == 0) && ltb (sub32 s.e s.r) input_buf_size
    then store (if c == 13 then newline else c) s
    else quiet s []

-- The end of a turn of `consoleread`, with the bytes that it has delivered. Asleep it has `n`
-- bytes still to read.
pub data ReadTurn : Type 0 where
  returned : (result : Option ℕ) → Console → (delivered : List ℕ) → ReadTurn
  asleep : (n : ℕ) → Console → (delivered : List ℕ) → ReadTurn

-- The loop of `consoleread`. `killed` is what `killed(myproc())` answers if the buffer is empty;
-- `mapped i` says whether `either_copyout` can write byte `i` of the destination.
module _ (killed : Bool) (mapped : ℕ → Bool) (target : ℕ) where
  unfoldable pub read_loop : (n : ℕ) → Console → List ℕ → ReadTurn
  read_loop zero s out = returned (some target) s out
  read_loop (suc n) s out =
      let c = s.buf (s.r % input_buf_size) in
      let s' = record s { r = add32 s.r 1 } in
      let next = read_loop n s' (out ++ c ∷ []) in
      if s.r == s.w
      then (if killed then returned none s out else asleep (suc n) s out)
      else if c == ctrl b'D'
      then returned (some (target - suc n))
          (if ltb (suc n) target then record s' { r = sub32 s'.r 1 } else s') out
      else if mapped (target - suc n)
      then (if c == newline then returned (some (target - n)) s' (out ++ c ∷ []) else next)
      else returned (some (target - suc n)) s' out

unfoldable pub consoleread : (killed : Bool) (mapped : ℕ → Bool) (n : ℕ) → Console → ReadTurn
consoleread killed mapped n s = read_loop killed mapped (rounds n) (rounds n) s []
