-- ===== src/Bytes.antt =====
-- kernel/string.c: blocks of bytes and C strings in a memory of bytes. A result of type `int` is a
-- 32-bit word; pointers do not wrap round.
pub mod Block
pub mod Compare
pub mod Copy
pub mod Little
mod Tests
use fog_os.Prelude.{
  ℕ, zero, suc, ◌+◌, ◌-◌, ◌%◌, Bool, true, false, not, ◌&&◌, ◌||◌, ◌==◌, ltb, if◌then◌else◌, update,
  sub32, is_neg, Option, none, some,
}

abbrev pub Memory : Type 0
Memory = ℕ → ℕ

-- The loops run `n` times.
unfoldable pub memset : (dst c n : ℕ) → Memory → Memory
memset dst c zero m = m
memset dst c (suc n) m = memset (dst + 1) c n (update m dst (c % 256))

unfoldable pub memcmp : (v1 v2 n : ℕ) → Memory → ℕ
memcmp v1 v2 zero m = 0
memcmp v1 v2 (suc n) m =
    let rest = memcmp (v1 + 1) (v2 + 1) n m in if m v1 == m v2 then rest else sub32 (m v1) (m v2)

-- `while(n-- > 0) *--d = *--s;`
unfoldable pub move_down : (d s n : ℕ) → Memory → Memory
move_down d s zero m = m
move_down d s (suc n) m = move_down (d - 1) (s - 1) n (update m (d - 1) (m (s - 1)))

-- `while(n-- > 0) *d++ = *s++;`
unfoldable pub move_up : (d s n : ℕ) → Memory → Memory
move_up d s zero m = m
move_up d s (suc n) m = move_up (d + 1) (s + 1) n (update m d (m s))

unfoldable pub memmove : (dst src n : ℕ) → Memory → Memory
memmove dst src n m =
    if n == 0
    then m
    else if ltb src dst && ltb dst (src + n)
    then move_down (dst + n) (src + n) n m
    else move_up dst src n m

unfoldable pub strncmp : (p q n : ℕ) → Memory → ℕ
strncmp p q zero m = 0
strncmp p q (suc n) m =
    let rest = strncmp (p + 1) (q + 1) n m in
    if not (m p == 0) && m p == m q then rest else sub32 (m p) (m q)

-- `while(n-- > 0) *s++ = 0;`
unfoldable pub zeros : (s n : ℕ) → Memory → Memory
zeros s zero m = m
zeros s (suc n) m = zeros (s + 1) n (update m s 0)

-- `strncpy` for a positive `n`, or 0.
unfoldable pub strncpy_loop : (s t n : ℕ) → Memory → Memory
strncpy_loop s t zero m = m
strncpy_loop s t (suc n) m =
    let m' = update m s (m t) in
    let rest = strncpy_loop (s + 1) (t + 1) n m' in if m t == 0 then zeros (s + 1) n m' else rest

unfoldable pub strncpy : (s t n : ℕ) → Memory → Memory
strncpy s t n m = if is_neg n then m else strncpy_loop s t n m

-- The loop of `safestrcpy`, where `n` is what is left after `--n`, with the write of the 0.
unfoldable pub safe_loop : (s t n : ℕ) → Memory → Memory
safe_loop s t zero m = update m s 0
safe_loop s t (suc n) m =
    let m' = update m s (m t) in
    let rest = safe_loop (s + 1) (t + 1) n m' in if m t == 0 then update m' (s + 1) 0 else rest

unfoldable pub safestrcpy : (s t n : ℕ) → Memory → Memory
safestrcpy s t n m = if is_neg n || n == 0 then m else safe_loop s t (n - 1) m

-- `for(n = 0; s[n]; n++)` at `n`, for at most `fuel` rounds.
unfoldable pub strlen_loop : (fuel s n : ℕ) → Memory → Option ℕ
strlen_loop zero s n m = none
strlen_loop (suc fuel) s n m =
    let rest = strlen_loop fuel s (n + 1) m in if m (s + n) == 0 then some n else rest

unfoldable pub strlen : (fuel s : ℕ) → Memory → Option ℕ
strlen fuel s m = strlen_loop fuel s 0 m
