-- ===== src/Procs/Family.antt =====
-- Parents and children: what every reachable process table satisfies.
pub mod Quiet
pub mod Slot
pub mod Reparent
pub mod Exit
pub mod Wait
pub mod Reach
use fog_os.Prelude.{
  ℕ, zero, suc, ◌+◌, ◌≤◌, ◌<◌, ◌≡◌, ◌≢◌, refl, ap, sym, ◌∙◌, Bool, true, false, not, ◌&&◌, ◌||◌,
  ◌==◌, ltb, leb, arith, if◌then◌else◌, update, Bool-cases, inl, inr, Option, none, some,
}
use fog_os.Procs.{
  Slots, Chan, of_proc, same_chan, Proc, ProcState, Table, nproc, is_unused, is_sleeping, is_zombie,
  child_of,
}

abbrev pub is_live : ProcState → Bool
is_live st = not (is_unused st) && not (is_zombie st)

-- Asleep in `wait` of process `k`.
abbrev pub waits_as : ℕ → Proc → Bool
waits_as k p = is_sleeping p.state && same_chan p.chan (of_proc k)

abbrev pub has_parent : Proc → Bool
has_parent p = elim p.parent [ none ↦ false | some q ↦ true ]

-- A parent is neither free nor a zombie, and each process but `init` has one; and a process that
-- sleeps in `wait` sleeps on itself and has no zombie child.
pub record Family (init : ℕ) (s : Slots) : Type 0 where
  pub init_in : init < nproc
  pub init_live : is_live (s init).state ≡ true
  pub parent_in : (i p : ℕ) → i < nproc → child_of p (s i) ≡ true → p < nproc
  pub parent_live : (i p : ℕ) → i < nproc → child_of p (s i) ≡ true → is_live (s p).state ≡ true
  pub orphan :
      (i : ℕ) → i < nproc → i ≢ init → is_unused (s i).state ≡ false → has_parent (s i) ≡ true
  pub own_chan : (i k : ℕ) → i < nproc → waits_as k (s i) ≡ true → k ≡ i
  pub waiter :
      (i j : ℕ)
      → i < nproc
      → j < nproc
      → waits_as i (s i) ≡ true
      → child_of i (s j) ≡ true
      → is_zombie (s j).state ≡ false
