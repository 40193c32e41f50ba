-- ===== src/Log/Tests.antt =====
-- Tests of the log, and the theorems at a small disk: the log area is blocks 2 to 31.
use fog_os.Prelude.{
  ℕ, ◌+◌, ◌*◌, ◌<◌, ◌≡◌, refl, fun_ext, ◌⊎◌, true, false, arith, ◌==◌, if◌then◌else◌, some, [], ◌∷◌,
}
use fog_os.Disk.{Block, State, panic, bread, brelse, add_ref, drop_ref, set_data, bwrite}
use fog_os.Disk.Safe.{Safe}
use fog_os.Log.{
  install_loop, install_one, read_entries, put_entries, Log, read_head, write_head, install_trans,
  recover_from_log, commit,
}
use fog_os.Log.Logical.{Fits, Stands, installed, logical}
use fog_os.Log.Recover.{Recovered, recover_from_log-Safe}
use fog_os.Log.Commit.{overlay, Ready, commit-Safe}
use fog_os.Log.Write.{modify, Allowed, Changed, modify-Changed}
use fog_os.Log.Reserve.{begins, log_writes, three_calls_panic}
use fog_os.Log.Transaction.{Updates, apply_all, fs_call, Idle, fs_call-Safe}

abbrev empty_disk : ℕ → Block
empty_disk x w = 0

abbrev boot : ℕ → State
boot power = record {
  disk = empty_disk;
  contents = empty_disk;
  ref = λ x. 0;
  used = 0;
  keeps = λ x. true;
  power = power;
}

abbrev clear_log : Log
clear_log = record {
  start = 2;
  size = 30;
  outstanding = 0;
  committing = false;
  n = 0;
  block = λ i. 0;
}

abbrev two_updates : Updates
two_updates = (40, λ old w. 7) ∷ (41, λ old w. old w + 1) ∷ []

Fits-none : Fits 2 30 0 (λ i. 0)
Fits-none = record { few = omega arith; homes = λ i h. absurd (omega arith) }

clear_log-Idle : Idle clear_log (boot 3)
clear_log-Idle = record {
  ready = record {
    small = omega arith;
    fits = Fits-none;
    pinned = λ i h. absurd (omega arith);
    empty = refl;
  };
  none_logged = refl;
  none_active = refl;
  idle = refl;
  size = omega arith;
  cache = λ x. refl;
  buffers = omega arith;
}

-- Three writes are too few: the header and the home blocks are not all written.
fs_call-Safe_example :
    Safe
      (λ d.
        (Stands 2 30 empty_disk d ⊎ Stands 2 30 (apply_all two_updates empty_disk) d)
        × (3 < 2 * 2 + 2))
      (λ m t. Recovered 2 30 (apply_all two_updates empty_disk) m t × (m.committing ≡ false))
      (fs_call two_updates clear_log (boot 3))
fs_call-Safe_example =
    fs_call-Safe two_updates clear_log (boot 3) clear_log-Idle (omega arith) (omega arith)

-- A crash came after the commit of a transaction that writes block 40.
abbrev committed_disk : ℕ → Block
committed_disk x w =
    if x == 2 then (if w == 0 then 1 else if w == 1 then 40 else 0) else if x == 3 then 7 else 0

abbrev committed : State
committed = record (boot 5) { disk = committed_disk; contents = committed_disk }

abbrev committed_view : ℕ → Block
committed_view x w = if x == 40 then 7 else 0

committed-Stands : Stands 2 30 committed_view committed_disk
unfolding logical installed
committed-Stands = record {
  fits = record { few = omega arith; homes = λ i h. ground arith };
  shows = λ x o. fun_ext λ w. ground arith;
}

recover_from_log-Safe_example :
    Safe
      (λ d. Stands 2 30 committed_view d × (5 < 2))
      (Recovered 2 30 committed_view)
      (recover_from_log clear_log committed)
recover_from_log-Safe_example =
    recover_from_log-Safe clear_log 30 committed_view committed (λ x. refl) committed-Stands
      (omega arith)

-- The same, run: block 40 gets its new data, and the header is cleared.
recovered_blocks :
    Safe
      (λ d. ⊥)
      (λ m t. (t.disk 40 0 ≡ 7) × (t.disk 2 0 ≡ 0) × (t.disk 41 0 ≡ 0) × (t.power ≡ 3))
      (recover_from_log clear_log committed)
unfolding recover_from_log read_head write_head install_trans install_loop install_one bread brelse
    set_data bwrite read_entries put_entries add_ref drop_ref
recovered_blocks = (refl, refl, refl, refl)

-- One block is logged, and its buffer is pinned and differs from the disk.
abbrev pending : Log
pending = record clear_log { n = 1; outstanding = 1; block = λ i. 40 }

abbrev dirty : State
dirty = record (boot 2) { contents = committed_view; ref = λ x. if x == 40 then 1 else 0; used = 1 }

pending-Ready : Ready pending 30 dirty
pending-Ready = record {
  small = omega arith;
  fits = record { few = omega arith; homes = λ i h. omega arith };
  pinned = λ i h. omega arith;
  empty = refl;
}

commit-Safe_example :
    Safe
      (λ d.
        (Stands 2 30 empty_disk d ⊎ Stands 2 30 (overlay 1 (λ i. 40) dirty) d) × (2 < 2 * 1 + 2))
      (Recovered 2 30 (overlay 1 (λ i. 40) dirty))
      (commit pending dirty)
commit-Safe_example = commit-Safe pending 30 dirty pending-Ready (omega arith)

pending-Allowed : Allowed pending
pending-Allowed = record {
  room = omega arith;
  area = omega arith;
  size = omega arith;
  active = omega arith;
  few = omega arith;
}

modify-Changed_example :
    Safe
      (λ _. ⊥)
      (Changed pending 30 50 (λ w. 0 + 1) dirty)
      (modify pending 50 (λ old w. old w + 1) dirty)
modify-Changed_example =
    modify-Changed pending 30 50 (λ old w. old w + 1) dirty pending-Ready pending-Allowed
      (omega arith) (omega arith) (λ e. omega arith)

three_calls_panic_example :
    (m : Log) × (begins 3 clear_log ≡ some m)
    × (log_writes (λ i. 100 + i) (3 * 10) 0 m (boot 0) ≡ panic "too big a transaction")
three_calls_panic_example =
    three_calls_panic clear_log (λ i. 100 + i) (boot 0) refl refl refl refl
      (λ i j h k e. omega (arith, h, e))
