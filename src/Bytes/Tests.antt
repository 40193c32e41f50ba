-- ===== src/Bytes/Tests.antt =====
-- Tests of the string routines on a small memory, and the theorems there.
use fog_os.Prelude.{
  ℕ, ◌+◌, ◌-◌, ◌≡◌, refl, false, some, [], ◌∷◌, inr, window, arith, if◌then◌else◌, ◌==◌,
}
use fog_os.Bytes.{
  Memory, memmove, move_up, move_down, strncmp, strncpy, strncpy_loop, zeros, safestrcpy, safe_loop,
  strlen,
}
use fog_os.Bytes.Block.{within, memmove_lem}
use fog_os.Bytes.Compare.{cstring, AreBytes, Compares, strncmp-Compares}
use fog_os.Bytes.Copy.{pad, safestrcpy_lem, strncpy_lem, strlen_lem}

-- `cat`, a 0, and `car`, a 0, at 100; elsewhere `x`.
abbrev memory : Memory
memory = λ a.
    if a == 100
    then b'c'
    else if a == 101
    then b'a'
    else if a == 102
    then b't'
    else if a == 103
    then 0
    else if a == 104
    then b'c'
    else if a == 105
    then b'a'
    else if a == 106
    then b'r'
    else if a == 107
    then 0
    else b'x'

memory-AreBytes : AreBytes memory
memory-AreBytes a = ground arith

overlapping_up : window (memmove 101 100 3 memory) 100 5 ≡ b'c' ∷ b'c' ∷ b'a' ∷ b't' ∷ b'c' ∷ []
unfolding memmove move_down move_up
overlapping_up = refl

overlapping_down : window (memmove 99 100 3 memory) 99 4 ≡ b'c' ∷ b'a' ∷ b't' ∷ b't' ∷ []
unfolding memmove move_down move_up
overlapping_down = refl

cut_short : cstring 200 3 (safestrcpy 200 100 3 memory) ≡ b'c' ∷ b'a' ∷ []
unfolding safestrcpy safe_loop
cut_short = refl

filled_up : window (strncpy 200 100 6 memory) 200 6 ≡ b'c' ∷ b'a' ∷ b't' ∷ 0 ∷ 0 ∷ 0 ∷ []
unfolding strncpy strncpy_loop zeros
filled_up = refl

-- `car` comes before `cat`.
strncmp-Compares_example :
    Compares (strncmp 104 100 9 memory) (cstring 104 9 memory) (cstring 100 9 memory)
strncmp-Compares_example = strncmp-Compares 104 100 9 memory memory-AreBytes

safestrcpy_lem_example :
    (cstring 200 3 (safestrcpy 200 100 3 memory) ≡ cstring 100 (3 - 1) memory)
    × ((a : ℕ) → within 200 3 a ≡ false → safestrcpy 200 100 3 memory a ≡ memory a)
safestrcpy_lem_example =
    safestrcpy_lem 200 100 3 memory (omega arith) (omega arith) (inr (omega arith))

strncpy_lem_example :
    (window (strncpy 200 100 6 memory) 200 6 ≡ pad 6 (cstring 100 6 memory))
    × ((a : ℕ) → within 200 6 a ≡ false → strncpy 200 100 6 memory a ≡ memory a)
strncpy_lem_example = strncpy_lem 200 100 6 memory (omega arith) (inr (omega arith))

strlen_lem_example : strlen 4 100 memory ≡ some 3
strlen_lem_example = strlen_lem 4 100 3 memory (omega arith) (λ j lt. ground arith) refl

memmove_lem_example :
    memmove 101 100 3 memory 102
    ≡ (if within 101 3 102 then memory (100 + (102 - 101)) else memory 102)
memmove_lem_example = memmove_lem 101 100 3 memory 102
