-- ===== src/Ulib.antt =====
-- user/ulib.c: strings, numbers and lines, in a memory of bytes. Pointers do not wrap round. A
-- `char` is a byte, and an `int` a 32-bit word.
pub mod Atoi
mod Tests
use fog_os.Prelude.{
  ℕ, zero, suc, ◌+◌, ◌-◌, ◌*◌, ◌/◌, ◌%◌, ◌^◌, Bool, true, false, not, ◌&&◌, ◌||◌, ◌==◌, ltb, leb,
  if◌then◌else◌, update, Option, none, some, List, [], ◌∷◌, is_neg, add32, sub32, slt,
}
use fog_os.Bytes.{Memory, move_up, move_down}

-- `while((*s++ = *t++) != 0)`, for at most `fuel` characters; `none` stands for a string that does
-- not end before.
unfoldable pub strcpy : (fuel s t : ℕ) → Memory → Option Memory
strcpy zero s t m = none
strcpy (suc fuel) s t m =
    let m' = update m s (m t) in
    let rest = strcpy fuel (s + 1) (t + 1) m' in if m t == 0 then some m' else rest

unfoldable pub strcmp : (fuel p q : ℕ) → Memory → Option ℕ
strcmp zero p q m = none
strcmp (suc fuel) p q m =
    let rest = strcmp fuel (p + 1) (q + 1) m in
    if not (m p == 0) && m p == m q then rest else some (sub32 (m p) (m q))

-- `for(; *s; s++)`: the address of the character, or 0.
unfoldable pub strchr : (fuel s c : ℕ) → Memory → Option ℕ
strchr zero s c m = none
strchr (suc fuel) s c m =
    let rest = strchr fuel (s + 1) c m in
    if m s == 0 then some 0 else if m s == c then some s else rest

abbrev pub is_digit : ℕ → Bool
is_digit c = leb b'0' c && leb c b'9'

-- `while('0' <= *s && *s <= '9')` at `s`, with the number so far.
unfoldable pub atoi_loop : (fuel s n : ℕ) → Memory → Option ℕ
atoi_loop zero s n m = none
atoi_loop (suc fuel) s n m =
    let rest = atoi_loop fuel (s + 1) ((n * 10 + m s - b'0') % 2 ^ 32) m in
    if is_digit (m s) then rest else some n

unfoldable pub atoi : (fuel s : ℕ) → Memory → Option ℕ
atoi fuel s m = atoi_loop fuel s 0 m

-- `memmove`, which copies upwards exactly if the source is above the destination.
unfoldable pub memmove : (vdst vsrc n : ℕ) → Memory → Memory
memmove vdst vsrc n m =
    if is_neg n
    then m
    else if ltb vdst vsrc
    then move_up vdst vsrc n m
    else move_down (vdst + n) (vsrc + n) n m

unfoldable pub memcmp : (p1 p2 n : ℕ) → Memory → ℕ
memcmp p1 p2 zero m = 0
memcmp p1 p2 (suc n) m =
    let rest = memcmp (p1 + 1) (p2 + 1) n m in if m p1 == m p2 then rest else sub32 (m p1) (m p2)

unfoldable pub memcpy : (dst src n : ℕ) → Memory → Memory
memcpy dst src n m = memmove dst src n m

-- The loop of `fgets` at `i`, where `input` is what the next calls of `read` give, a byte each: the
-- final `i`, the memory, and the input that is left. `max` is not negative.
unfoldable pub fgets_loop : (left buf i : ℕ) (input : List ℕ) → Memory → ℕ × Memory × List ℕ
fgets_loop zero buf i input m = (i, m, input)
fgets_loop (suc left) buf i [] m = (i, m, [])
fgets_loop (suc left) buf i (c ∷ input) m =
    let m' = update m (buf + i) c in
    let rest = fgets_loop left buf (i + 1) input m' in
    if c == b'\n' || c == b'\r' then (i + 1, m', input) else rest

-- `i+1 < max` holds for max - 1 rounds.
unfoldable pub fgets : (input : List ℕ) (buf max : ℕ) → Memory → ℕ × Memory × List ℕ
fgets input buf max m =
    let (i, m', left) = fgets_loop (if is_neg max then 0 else max - 1) buf 0 input m in
    (i, update m' (buf + i) 0, left)
