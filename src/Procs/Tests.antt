-- ===== src/Procs/Tests.antt =====
-- Tests of the process table.
use fog_os.Prelude.{
  ℕ, zero, suc, ◌≡◌, ◌≢◌, ◌<◌, refl, true, Option, none, some, arith, Outcome, update,
}
use fog_os.Procs.{
  of_object, ProcState, Table, wakeup, wakeup_loop, free_slot, freeproc, find_unused, allocproc,
  userinit, fork, exit, reparent, reparent_loop, wait, wait_scan, Waited, kill, sleep,
}
use fog_os.Procs.Wake.{Woken, wakeup-Woken}
use fog_os.Procs.Kill.{kill_zero-fork}
use fog_os.Procs.Family.{Family}
use fog_os.Procs.Family.Reach.{booted, dispatched, forked, Reach, start, later, Reach-Family}

-- The first process runs, and forks.
abbrev init_runs : Table
init_runs = record booted {
  slots = update booted.slots 0 (record (booted.slots 0) { state = ProcState.running });
}

abbrev forked_once : Table
forked_once = (fork true true 0 init_runs).1

init_runs-Reach : Reach init_runs
unfolding userinit allocproc find_unused freeproc
init_runs-Reach = later start (dispatched 0 (omega arith) refl)

Reach-Family_example : Family forked_once.initproc forked_once.slots
unfolding userinit allocproc find_unused freeproc
Reach-Family_example =
    Reach-Family {t = forked_once} (later init_runs-Reach (forked true true 0 (omega arith, refl)))

-- The child exits; its parent reaps it.
abbrev after_exit : Outcome Table → Waited
after_exit (Outcome.ok t) = wait true 0 t.slots
after_exit (Outcome.panic why) = Waited.returned none (λ i. free_slot)

abbrev reaped : Waited → Option ℕ
reaped (Waited.returned result s) = result
reaped (Waited.asleep s) = none

child_reaped : reaped (after_exit (exit 7 1 forked_once)) ≡ some 2
unfolding userinit allocproc find_unused freeproc fork exit reparent reparent_loop wakeup
    wakeup_loop wait wait_scan
child_reaped = refl

wakeup-Woken_example :
    Woken 1
      (of_object 5)
      0
      (sleep 0 (of_object 5) init_runs.slots 0)
      (wakeup 1 (of_object 5) (sleep 0 (of_object 5) init_runs.slots) 0)
wakeup-Woken_example =
    wakeup-Woken 1 (of_object 5) (sleep 0 (of_object 5) init_runs.slots) 0 (omega arith)

kill_zero-fork_example :
    ((kill 0 init_runs.slots).0 ≡ true)
    × (((fork true true 0 (record init_runs { slots = (kill 0 init_runs.slots).1 })).1.slots
          1).is_killed
        ≡ true)
unfolding userinit allocproc find_unused freeproc
kill_zero-fork_example =
    kill_zero-fork 0 1 init_runs refl refl (λ j lt e. absurd (first_has_pid j lt e))
  where
    first_has_pid : (j : ℕ) → j < 1 → (init_runs.slots j).pid ≢ 0
    first_has_pid zero lt e = absurd (omega (arith, e))
    first_has_pid (suc j) lt e = absurd (omega arith)
