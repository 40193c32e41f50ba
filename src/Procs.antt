-- ===== src/Procs.antt =====
-- kernel/proc.c: the process table, and how processes are made, sleep, wake, exit and are reaped.
-- A routine runs here without steps of others between its critical sections; memory, files,
-- registers and names are left out, and whether they can be had or copied is an argument.
pub mod Wake
pub mod Family
pub mod Kill
mod Tests
use fog_os.Prelude.{
  ℕ, zero, suc, ◌+◌, Bool, true, false, not, ◌&&◌, ◌||◌, ◌==◌, if◌then◌else◌, update, Option, none,
  some, Outcome, ok, panic,
}

abbrev pub nproc : ℕ
nproc = 64

-- `enum procstate`
pub data ProcState : Type 0 where
  unused used sleeping runnable running zombie : ProcState

abbrev pub is_unused : ProcState → Bool
is_unused unused = true
is_unused _ = false

abbrev pub is_sleeping : ProcState → Bool
is_sleeping sleeping = true
is_sleeping _ = false

abbrev pub is_zombie : ProcState → Bool
is_zombie zombie = true
is_zombie _ = false

-- What a process sleeps on: the address of a process (`wait` sleeps on its own), or another.
pub data Chan : Type 0 where
  null : Chan
  of_proc of_object : ℕ → Chan

abbrev pub same_chan : Chan → Chan → Bool
same_chan null null = true
same_chan (of_proc i) (of_proc j) = i == j
same_chan (of_object i) (of_object j) = i == j
same_chan _ _ = false

-- The fields of `struct proc` that these routines use; a process is its index in `proc`.
pub record Proc : Type 0 where
  pub state : ProcState
  pub chan : Chan
  pub is_killed : Bool
  pub xstate : ℕ
  pub pid : ℕ
  pub parent : Option ℕ

abbrev pub Slots : Type 0
Slots = ℕ → Proc

-- `pp->parent == p`
abbrev pub child_of : ℕ → Proc → Bool
child_of p pp = elim pp.parent [ none ↦ false | some q ↦ q == p ]

-- `proc`, `nextpid` and `initproc`.
pub record Table : Type 0 where
  pub slots : Slots
  pub nextpid : ℕ
  pub initproc : ℕ

-- One round of `wakeup`, called by the process `me`.
abbrev pub wake : (me : ℕ) → Chan → (i : ℕ) → Proc → Proc
wake me c i p =
    if not (i == me) && is_sleeping p.state && same_chan p.chan c
    then record p { state = runnable }
    else p

unfoldable pub wakeup_loop : (me : ℕ) → Chan → (left i : ℕ) → Slots → Slots
wakeup_loop me c zero i s = s
wakeup_loop me c (suc left) i s = wakeup_loop me c left (i + 1) (update s i (wake me c i (s i)))

unfoldable pub wakeup : (me : ℕ) → Chan → Slots → Slots
wakeup me c s = wakeup_loop me c nproc 0 s

-- `sleep`, up to the switch to the scheduler.
unfoldable pub sleep : (me : ℕ) → Chan → Slots → Slots
sleep me c s = update s me (record (s me) { chan = c; state = sleeping })

abbrev pub free_slot : Proc
free_slot = record {
  state = unused;
  chan = null;
  is_killed = false;
  xstate = 0;
  pid = 0;
  parent = none;
}

unfoldable pub freeproc : ℕ → Slots → Slots
freeproc i s = update s i free_slot

unfoldable pub find_unused : (left i : ℕ) → Slots → Option ℕ
find_unused zero i s = none
find_unused (suc left) i s =
    let rest = find_unused left (i + 1) s in if is_unused (s i).state then some i else rest

-- `memory` says whether the trapframe and the page table can be had.
unfoldable pub allocproc : (memory : Bool) → Table → Option ℕ × Table
allocproc memory t = elim (find_unused nproc 0 t.slots) [
  | none ↦ (none, t)
  | some i ↦
      let named = update t.slots i (record (t.slots i) { pid = t.nextpid; state = used }) in
      if memory
      then (some i, record t { slots = named; nextpid = t.nextpid + 1 })
      else (none, record t { slots = freeproc i named; nextpid = t.nextpid + 1 })
]

-- `userinit`, in the memory that the kernel has at its start.
unfoldable pub userinit : Table → Table
userinit t =
    let (found, t') = allocproc true t in
    elim found [
      | none ↦ t'
      | some i ↦ record t' {
        slots = update t'.slots i (record (t'.slots i) { state = runnable });
        initproc = i;
      }
    ]

-- The child that `fork` gets, with its parent and ready to run.
abbrev pub start_child : (me i : ℕ) → Slots → Slots
start_child me i s = update s i (record (s i) { parent = some me; state = runnable })

-- `copied` says whether the memory can be copied. The result is the pid, or `none` for -1.
unfoldable pub fork : (memory copied : Bool) (me : ℕ) → Table → Option ℕ × Table
fork memory copied me t =
    let (found, t') = allocproc memory t in
    elim found [
      | none ↦ (none, t')
      | some i ↦
          if copied
          then (some (t'.slots i).pid, record t' { slots = start_child me i t'.slots })
          else (none, record t' { slots = freeproc i t'.slots })
    ]

-- One round of `reparent`.
abbrev pub adopt : (me p init i : ℕ) → Slots → Slots
adopt me p init i s =
    if child_of p (s i)
    then wakeup me (of_proc init) (update s i (record (s i) { parent = some init }))
    else s

unfoldable pub reparent_loop : (me p init : ℕ) (left i : ℕ) → Slots → Slots
reparent_loop me p init zero i s = s
reparent_loop me p init (suc left) i s = reparent_loop me p init left (i + 1) (adopt me p init i s)

unfoldable pub reparent : (me p init : ℕ) → Slots → Slots
reparent me p init s = reparent_loop me p init nproc 0 s

-- `p->parent`, as a channel.
abbrev pub parent_chan : Proc → Chan
parent_chan p = elim p.parent [ none ↦ null | some q ↦ of_proc q ]

-- `exit`, from `acquire(&wait_lock)` to the switch to the scheduler.
unfoldable pub exit : (status me : ℕ) → Table → Outcome Table
exit status me t =
    let s = reparent me me t.initproc t.slots in
    let s' = wakeup me (parent_chan (s me)) s in
    if me == t.initproc
    then panic "init exiting"
    else ok (record t { slots = update s' me (record (s' me) { xstate = status; state = zombie }) })

-- What the scan of `wait` finds: a zombie child, or whether there is a child at all.
pub data Found : Type 0 where
  reap : ℕ → Found
  no_zombie : (havekids : Bool) → Found

unfoldable pub wait_scan : (me : ℕ) (left i : ℕ) (havekids : Bool) → Slots → Found
wait_scan me zero i havekids s = no_zombie havekids
wait_scan me (suc left) i havekids s =
    let next = wait_scan me left (i + 1) (havekids || child_of me (s i)) s in
    if child_of me (s i) && is_zombie (s i).state then reap i else next

-- The end of a turn of `wait`: a pid or -1, or asleep.
pub data Waited : Type 0 where
  returned : Option ℕ → Slots → Waited
  asleep : Slots → Waited

-- `copied` says whether the status is not wanted or can be copied out.
unfoldable pub wait : (copied : Bool) (me : ℕ) → Slots → Waited
wait copied me s = elim (wait_scan me nproc 0 false s) [
  | reap i ↦ if copied then returned (some (s i).pid) (freeproc i s) else returned none s
  | no_zombie havekids ↦
      if not havekids || (s me).is_killed then returned none s else asleep (sleep me (of_proc me) s)
]

unfoldable pub kill_loop : (pid left i : ℕ) → Slots → Bool × Slots
kill_loop pid zero i s = (false, s)
kill_loop pid (suc left) i s =
    let rest = kill_loop pid left (i + 1) s in
    let woken = if is_sleeping (s i).state then runnable else (s i).state in
    if (s i).pid == pid
    then (true, update s i (record (s i) { is_killed = true; state = woken }))
    else rest

-- Whether `kill` finds the process.
unfoldable pub kill : (pid : ℕ) → Slots → Bool × Slots
kill pid s = kill_loop pid nproc 0 s
