-- ===== src/Spinlock.antt =====
-- kernel/spinlock.c: spin locks, and the nesting of push_off and pop_off on one CPU.
pub mod Nesting
pub mod Exclusion
mod Tests
use fog_os.Prelude.{
  ℕ, zero, suc, ◌+◌, Bool, true, false, not, ◌&&◌, ◌||◌, ◌==◌, if◌then◌else◌, update, Option, none,
  some, Outcome, ok, panic, ◌>>=◌, add32, sub32, slt, List, [], ◌∷◌,
}

-- `struct cpu`, with whether interrupts are enabled.
pub record Cpu : Type 0 where
  pub intr : Bool
  pub noff : ℕ
  pub intena : Bool

unfoldable pub push_off : Cpu → Cpu
push_off c = record {
  intr = false;
  noff = add32 c.noff 1;
  intena = if c.noff == 0 then c.intr else c.intena;
}

unfoldable pub pop_off : Cpu → Outcome Cpu
pop_off c =
    let left = sub32 c.noff 1 in
    if c.intr
    then panic "pop_off - interruptible"
    else if slt c.noff 1
    then panic "pop_off"
    else ok (record c { noff = left; intr = if left == 0 && c.intena then true else c.intr })

-- `struct spinlock`: the CPU that holds it is an index.
pub record Lock : Type 0 where
  pub locked : Bool
  pub cpu : Option ℕ

abbrev pub free_lock : Lock
free_lock = record { locked = false; cpu = none }

-- `lk->cpu == mycpu()`
abbrev pub is_mine : ℕ → Option ℕ → Bool
is_mine me none = false
is_mine me (some c) = c == me

abbrev pub holding : (me : ℕ) → Lock → Bool
holding me lk = lk.locked && is_mine me lk.cpu

-- What CPU `me` comes to in `acquire`: the panic, the spinning, or the lock, not yet noted as its own.
pub data Acquired : Type 0 where
  panicked : Acquired
  spins : Cpu → Acquired
  acquired : Cpu → Lock → Acquired

-- One round of `while(__sync_lock_test_and_set(&lk->locked, 1) != 0)`.
abbrev pub try_lock : Cpu → Lock → Acquired
try_lock c lk = if lk.locked then spins c else acquired c (record lk { locked = true })

-- `acquire` up to its first test-and-set.
unfoldable pub acquire : (me : ℕ) → Cpu → Lock → Acquired
acquire me c lk = let c' = push_off c in if holding me lk then panicked else try_lock c' lk

-- The end of `acquire`: `lk->cpu = mycpu()`.
abbrev pub note_cpu : (me : ℕ) → Lock → Lock
note_cpu me lk = record lk { cpu = some me }

-- `release` up to the store `lk->cpu = 0`.
unfoldable pub begin_release : (me : ℕ) → Lock → Outcome Lock
begin_release me lk = if not (holding me lk) then panic "release" else ok (record lk { cpu = none })

-- The rest of `release`: the store to `locked`, and `pop_off`.
unfoldable pub end_release : Cpu → Lock → Outcome (Cpu × Lock)
end_release c lk = pop_off c >>= λ c'. ok (c', record lk { locked = false })
