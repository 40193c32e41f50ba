-- ===== src/Procs/Family/Reach.antt =====
-- The steps of the processes, in any order from the boot on.
use mathlib.Core.Path.{subst}
use fog_os.Prelude.{
  ℕ, ◌<◌, ◌≡◌, ◌≢◌, refl, ap, sym, ◌∙◌, Bool, true, false, ◌==◌, arith, update, Bool-cases, inl,
  inr, Outcome, ok, panic,
}
use fog_os.Procs.{
  of_object, null, ProcState, Table, nproc, is_unused, child_of, wakeup, sleep, reparent,
  parent_chan, free_slot, freeproc, find_unused, allocproc, userinit, fork, exit, wait, kill,
}
use fog_os.Procs.Family.{Family, is_live, waits_as}
use fog_os.Procs.Family.Quiet.{QuietAt-live, update-Family, wakeup-Family, kill-Family}
use fog_os.Procs.Family.Slot.{fork-Family}
use fog_os.Procs.Family.Wait.{slots_of, wait-Family}
use fog_os.Procs.Family.Exit.{exit-Family}

-- Process `me` is on a CPU.
abbrev pub Runs : ℕ → Table → Type 0
Runs me t = (me < nproc) × ((t.slots me).state ≡ ProcState.running)

-- `awakened` is the end of `sleep`. An interrupt wakes with a `me` that is no process.
pub data Step (t : Table) : Table → Type 0 where
  dispatched :
      (i : ℕ)
      → i < nproc
      → (t.slots i).state ≡ ProcState.runnable
      → Step t
          (record t { slots = update t.slots i (record (t.slots i) { state = ProcState.running }) })
  yielded :
      (me : ℕ)
      → Runs me t
      → Step t (record t {
        slots = update t.slots me (record (t.slots me) { state = ProcState.runnable });
      })
  slept : (me k : ℕ) → Runs me t → Step t (record t { slots = sleep me (of_object k) t.slots })
  awakened :
      (me : ℕ)
      → Runs me t
      → Step t (record t { slots = update t.slots me (record (t.slots me) { chan = null }) })
  woke : (me k : ℕ) → Step t (record t { slots = wakeup me (of_object k) t.slots })
  killed_one : (pid : ℕ) → Step t (record t { slots = (kill pid t.slots).1 })
  forked : (memory copied : Bool) (me : ℕ) → Runs me t → Step t (fork memory copied me t).1
  exited : (status me : ℕ) (t' : Table) → Runs me t → exit status me t ≡ ok t' → Step t t'
  waited :
      (copied : Bool) (me : ℕ)
      → Runs me t
      → Step t (record t { slots = slots_of (wait copied me t.slots) })

-- `userinit` runs on the table of free slots.
abbrev pub booted : Table
booted = userinit (record { slots = λ i. free_slot; nextpid = 1; initproc = 0 })

pub data Reach : Table → Type 0 where
  start : Reach booted
  later : {s t : Table} → Reach s → Step s t → Reach t

table_of : Table → Outcome Table → Table
table_of t (ok t') = t'
table_of t (panic why) = t

running_live : (st : ProcState) → st ≡ ProcState.running → is_live st ≡ true
running_live st e = ap is_live e

runnable_live : (st : ProcState) → st ≡ ProcState.runnable → is_live st ≡ true
runnable_live st e = ap is_live e

abbrev left_behind : (status me : ℕ) → Table → Table
left_behind status me t =
    let s = reparent me me t.initproc t.slots in
    let s' = wakeup me (parent_chan (s me)) s in
    record t { slots = update s' me (record (s' me) { xstate = status; state = ProcState.zombie }) }

exit_lem :
    (status me : ℕ) (t : Table)
    → (me == t.initproc) ≡ false
    → exit status me t ≡ ok (left_behind status me t)
unfolding exit
exit_lem status me t no_ = rw no_ refl

is_ok : Outcome Table → Bool
is_ok (ok t') = true
is_ok (panic why) = false

exited-Family :
    (status me : ℕ) (t t' : Table)
    → Family t.initproc t.slots
    → me < nproc
    → is_live (t.slots me).state ≡ true
    → exit status me t ≡ ok t'
    → Family t'.initproc t'.slots
unfolding exit table_of is_ok
exited-Family status me t t' f hme live done = elim (Bool-cases (me == t.initproc)) [
  | inl yes_ ↦
      let first : exit status me t ≡ panic "init exiting" = rw yes_ refl in
      absurd (ground (arith, ap is_ok (sym first ∙ done)))
  | inr no_ ↦
      let other : t.initproc ≢ me = ground arith in
      subst (λ x. Family x.initproc x.slots)
        (ap (table_of t) (sym (exit_lem status me t no_) ∙ done))
        (exit-Family status me t.initproc t.slots f hme other live)
]

Step-Family : {s t : Table} → Step s t → Family s.initproc s.slots → Family t.initproc t.slots
unfolding sleep
Step-Family {s} (dispatched i hi e) f =
    update-Family s.initproc i _ s.slots
      (QuietAt-live (s.slots i) ProcState.running (s.slots i).chan (runnable_live _ e) refl
        (λ k. refl))
      f
Step-Family {s} (yielded me (hme, e)) f =
    update-Family s.initproc me _ s.slots
      (QuietAt-live (s.slots me) ProcState.runnable (s.slots me).chan (running_live _ e) refl
        (λ k. refl))
      f
Step-Family {s} (slept me k (hme, e)) f =
    update-Family s.initproc me _ s.slots
      (QuietAt-live (s.slots me) ProcState.sleeping (of_object k) (running_live _ e) refl
        (λ j. refl))
      f
Step-Family {s} (awakened me (hme, e)) f =
    update-Family s.initproc me _ s.slots
      (QuietAt-live (s.slots me) (s.slots me).state null (running_live _ e) (running_live _ e)
        (λ j. rw e refl))
      f
Step-Family {s} (woke me k) f = wakeup-Family s.initproc me (of_object k) s.slots f
Step-Family {s} (killed_one pid) f = kill-Family s.initproc pid s.slots f
Step-Family {s} (forked memory copied me (hme, e)) f =
    fork-Family me s f hme (running_live _ e) memory copied
Step-Family {s} (exited status me t' (hme, e) done) f =
    exited-Family status me s t' f hme (running_live _ e) done
Step-Family {s} (waited copied me (hme, e)) f =
    wait-Family copied s.initproc me s.slots f hme (running_live _ e)

module _ (i : ℕ) where
  booted_child : (k : ℕ) → child_of k (booted.slots i) ≡ false
  unfolding userinit allocproc find_unused freeproc
  booted_child k = elim (Bool-cases (i == 0)) [ inl e ↦ rw e refl | inr e ↦ rw e refl ]

  booted_awake : (k : ℕ) → waits_as k (booted.slots i) ≡ false
  unfolding userinit allocproc find_unused freeproc
  booted_awake k = elim (Bool-cases (i == 0)) [ inl e ↦ rw e refl | inr e ↦ rw e refl ]

  booted_unused : i ≢ booted.initproc → is_unused (booted.slots i).state ≡ true
  unfolding userinit allocproc find_unused freeproc
  booted_unused other = let e : (i == 0) ≡ false = ground arith in rw e refl

booted-Family : Family booted.initproc booted.slots
unfolding userinit allocproc find_unused freeproc
booted-Family = record {
  init_in = omega arith;
  init_live = refl;
  parent_in = λ i p hi h. absurd (ground (arith, booted_child i p, h));
  parent_live = λ i p hi h. absurd (ground (arith, booted_child i p, h));
  orphan = λ i hi other h. absurd (ground (arith, booted_unused i other, h));
  own_chan = λ i k hi h. absurd (ground (arith, booted_awake i k, h));
  waiter = λ i j hi hj h c. absurd (ground (arith, booted_awake i i, h));
}

-- From the boot on, through any steps of the scheduler, of `sleep`, `wakeup`, `kill`, `fork`,
-- `exit` and `wait`, in any order: the first process is neither free nor a zombie; each other slot
-- in use has a parent that is neither free nor a zombie, so that somebody can reap it; and a
-- process that sleeps in `wait` has no zombie child, so that it misses no exit.
pub Reach-Family : {t : Table} → Reach t → Family t.initproc t.slots
Reach-Family start = booted-Family
Reach-Family (later r step) = Step-Family step (Reach-Family r)
