-- ===== src/Sleeplock.antt =====
-- kernel/sleeplock.c: locks whose waiters sleep.
use fog_os.Prelude.{ℕ, Bool, true, false, ◌&&◌, ◌==◌, Option, none, some}

-- `locked` and `pid` of `struct sleeplock`; its spin lock makes each routine one step.
pub record Sleeplock : Type 0 where
  pub locked : Bool
  pub pid : ℕ

unfoldable pub initsleeplock : Sleeplock
initsleeplock = record { locked = false; pid = 0 }

-- One test of the loop, by process `pid`: `none` where it goes to sleep, to test again when it is
-- woken.
unfoldable pub acquiresleep : (pid : ℕ) → Sleeplock → Option Sleeplock
acquiresleep pid lk = elim lk.locked [
  | true ↦ none
  | false ↦ some (record { locked = true; pid = pid })
]

-- The processes that `wakeup` makes ready test the lock again.
unfoldable pub releasesleep : Sleeplock → Sleeplock
releasesleep lk = record { locked = false; pid = 0 }

unfoldable pub holdingsleep : (pid : ℕ) → Sleeplock → Bool
holdingsleep pid lk = lk.locked && lk.pid == pid
