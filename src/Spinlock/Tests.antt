-- ===== src/Spinlock/Tests.antt =====
-- Tests of the spin locks.
use fog_os.Prelude.{◌≡◌, refl, true, false, some, arith, ok, update}
use fog_os.Spinlock.{Cpu, push_off, free_lock, Acquired, acquire, note_cpu}
use fog_os.Spinlock.Exclusion.{
  Machine, outside, taking, inside, is_settled, after_try, enter, note, fresh, later, Exclusive,
  Reach-Exclusive,
}
use fog_os.Spinlock.Nesting.{nothing, guarded, run, Restored, IsCpu, run-Restored}

abbrev enabled : Cpu
enabled = record { intr = true; noff = 0; intena = false }

enabled-IsCpu : IsCpu enabled
enabled-IsCpu = record { off_inside = λ h. absurd (omega arith) }

run-Restored_example :
    (c : Cpu) × (run (guarded (guarded nothing nothing) nothing) enabled ≡ ok c)
    × Restored enabled c
    × IsCpu c
run-Restored_example =
    run-Restored (guarded (guarded nothing nothing) nothing) enabled enabled-IsCpu (omega arith)

-- A CPU that asks for a lock that it holds panics, and another one spins.
second_acquire : acquire 1 enabled (record { locked = true; cpu = some 1 }) ≡ Acquired.panicked
unfolding acquire
second_acquire = refl

other_acquire :
    acquire 2 enabled (record { locked = true; cpu = some 1 }) ≡ Acquired.spins (push_off enabled)
unfolding acquire
other_acquire = refl

abbrev at_rest : Machine
at_rest = record { lock = free_lock; cpus = λ i. enabled; place = λ i. outside }

abbrev taken : Machine
taken = after_try 1 at_rest (acquire 1 enabled free_lock)

abbrev one_in : Machine
one_in = record taken { lock = note_cpu 1 taken.lock; place = update taken.place 1 inside }

taken_by_1 : taken.place 1 ≡ taking
unfolding acquire
taken_by_1 = refl

free_2 : is_settled (one_in.place 2) ≡ true
unfolding acquire
free_2 = refl

-- CPU 1 is in, and CPU 2 spins.
Reach-Exclusive_example : Exclusive (after_try 2 one_in (acquire 2 (one_in.cpus 2) one_in.lock))
Reach-Exclusive_example =
    Reach-Exclusive {m = after_try 2 one_in (acquire 2 (one_in.cpus 2) one_in.lock)} (
      later (later (later (fresh (λ i. enabled)) (enter 1 refl)) (note 1 taken_by_1))
        (enter 2 free_2))
