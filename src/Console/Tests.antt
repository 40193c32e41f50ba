-- ===== src/Console/Tests.antt =====
-- Tests of the console, and the theorems at a console whose indices are about to wrap round.
use fog_os.Prelude.{ℕ, ◌≡◌, refl, true, false, some, [], ◌∷◌, arith, rounds}
use fog_os.Console.{
  Console, ReadTurn, newline, ctrl, kill_line, store, consoleintr, read_loop, consoleread,
}
use fog_os.Console.View.{IsConsole, view}
use fog_os.Console.Intr.{Keyed, consoleintr-type_key}
use fog_os.Console.Read.{ReadEnd, consoleread-ReadEnd}

-- Empty, with the three indices at the last word.
abbrev fresh : Console
fresh = record { buf = λ i. 0; r = 0xffff_ffff; w = 0xffff_ffff; e = 0xffff_ffff }

fresh-IsConsole : IsConsole fresh
fresh-IsConsole = record {
  r_word = omega arith;
  w_word = omega arith;
  e_word = omega arith;
  split = omega arith;
  bounded = omega arith;
  one_line = λ i h. absurd (omega arith);
}

abbrev press : ℕ → Console → Console
press c s = (consoleintr c s).console

-- The keys `a`, `x`, backspace, `b`, carriage return.
abbrev typed : Console
typed = press 13 (press b'b' (press 0x7f (press b'x' (press b'a' fresh))))

typed_lists : view typed ≡ record { ready = b'a' ∷ b'b' ∷ newline ∷ []; editing = [] }
unfolding consoleintr store kill_line view fog_os.Ring.ring
typed_lists = refl

killed_line : view (press (ctrl b'U') (press b'x' (press b'a' typed))) ≡ view typed
unfolding consoleintr store kill_line view fog_os.Ring.ring
killed_line = refl

consoleintr-type_key_example : Keyed b'a' fresh (consoleintr b'a' fresh)
consoleintr-type_key_example = consoleintr-type_key b'a' fresh fresh-IsConsole

-- A read takes the whole line, and a read of two bytes leaves its end for later.
line_read :
    consoleread false (λ i. true) 80 typed
    ≡ ReadTurn.returned (some 3) (record typed { r = 2 }) (b'a' ∷ b'b' ∷ newline ∷ [])
unfolding consoleread read_loop consoleintr store kill_line
line_read = refl

consoleread-ReadEnd_example :
    ReadEnd false (λ i. true) (rounds 2) fresh (consoleread false (λ i. true) 2 fresh)
consoleread-ReadEnd_example = consoleread-ReadEnd false (λ i. true) 2 fresh fresh-IsConsole
