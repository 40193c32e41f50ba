-- ===== src/Procs/Kill.antt =====
-- `kill` with the pid of a free slot, 0.
use fog_os.Prelude.{
  ℕ, zero, suc, ◌+◌, ◌≤◌, ◌<◌, ◌≡◌, ◌≢◌, refl, ap, ◌∙◌, true, false, ◌==◌, arith, if◌then◌else◌,
  update, Bool-cases, inl, inr, some, eqb_refl,
}
use fog_os.Procs.Family.Slot.{find_unused_lem, allocproc_lem}
use fog_os.Procs.{
  Slots, Proc, ProcState, Table, nproc, is_unused, is_sleeping, find_unused, fork, kill_loop, kill,
}

-- The process that `kill` leaves.
abbrev marked : Proc → Proc
marked p = record p {
  is_killed = true;
  state = if is_sleeping p.state then ProcState.runnable else p.state;
}

kill_loop_first :
    (pid left k i : ℕ) (s : Slots)
    → k ≤ i
    → i < k + left
    → (s i).pid ≡ pid
    → ((j : ℕ) → j < i → (s j).pid ≢ pid)
    → kill_loop pid left k s ≡ (true, update s i (marked (s i)))
unfolding kill_loop
kill_loop_first pid zero k i s from to here before = absurd (omega arith)
kill_loop_first pid (suc left) k i s from to here before = elim (Bool-cases (k == i)) [
  | inl e ↦
      let same : k ≡ i = ground arith in
      let test : ((s i).pid == pid) ≡ true = ground arith in rw (same, test) refl
  | inr e ↦
      let test : ((s k).pid == pid) ≡ false = ground (arith, before k) in
      rw (test, kill_loop)
        (kill_loop_first pid left (k + 1) i s (ground arith) (omega arith) here before)
]

find_unused-congr :
    (left k : ℕ) (s s' : Slots)
    → ((j : ℕ) → is_unused (s' j).state ≡ is_unused (s j).state)
    → find_unused left k s' ≡ find_unused left k s
unfolding find_unused
find_unused-congr zero k s s' same = refl
find_unused-congr (suc left) k s s' same =
    rw (same k, find_unused-congr left (k + 1) s s' same) refl

unused-awake : (st : ProcState) → is_unused st ≡ true → is_sleeping st ≡ false
unused-awake ProcState.unused h = refl
unused-awake ProcState.used h = absurd (ground arith)
unused-awake ProcState.sleeping h = absurd (ground arith)
unused-awake ProcState.runnable h = refl
unused-awake ProcState.running h = refl
unused-awake ProcState.zombie h = refl

marked_unused :
    (s : Slots) (i : ℕ)
    → is_unused (s i).state ≡ true
    → (j : ℕ) → is_unused (update s i (marked (s i)) j).state ≡ is_unused (s j).state
marked_unused s i free_ j = elim (Bool-cases (j == i)) [
  | inl e ↦
      (let same : j ≡ i = ground arith in
        rw (same, eqb_refl i, unused-awake (s i).state free_) refl)
  | inr e ↦ rw e refl
]

-- When the first slot with pid 0 is the first free one, `kill` of 0 reports success, and the next
-- child of a `fork` that has its memory is killed from its start.
pub kill_zero-fork :
    (me i : ℕ) (t : Table)
    → find_unused nproc 0 t.slots ≡ some i
    → (t.slots i).pid ≡ 0
    → ((j : ℕ) → j < i → (t.slots j).pid ≢ 0)
    → ((kill 0 t.slots).0 ≡ true)
      × (((fork true true me (record t { slots = (kill 0 t.slots).1 })).1.slots i).is_killed ≡ true)
unfolding kill fork
kill_zero-fork me i t first pid before =
    let (inside, free_) = find_unused_lem nproc 0 t.slots i first in
    let killed : kill_loop 0 nproc 0 t.slots ≡ (true, update t.slots i (marked (t.slots i))) =
      kill_loop_first 0 nproc 0 i t.slots (omega arith) (omega arith) pid before in
    let t' : Table = record t { slots = update t.slots i (marked (t.slots i)) } in
    let found =
      find_unused-congr nproc 0 t.slots t'.slots (marked_unused t.slots i free_) ∙ first in
    let taken = allocproc_lem true t' i found in
    (
      ap (λ r. r.0) killed,
      ap (λ r. ((fork true true me (record t { slots = r.1 })).1.slots i).is_killed) killed
          ∙ rw (taken, fork) (rw taken (rw (eqb_refl i) refl)),
    )
